-- ===== src/Condition/Documents.antt =====
-- A JSON document as Python holds it. `N` stands for its `int` and `float` numbers.
use zediot_hub_connector.Common.{Bool, String, false, if◌then◌else◌, not, suc, true, ℕ, ◌=ₛ◌, ◌||◌}

-- The numbers of Python: `==`, `<`, `<=`, the value of a truth value, and whether it is zero.
pub record Numbers : Type 1 where
  pub N : Type 0
  pub same : N → N → Bool
  pub below : N → N → Bool
  pub at_most : N → N → Bool
  pub of_bool : Bool → N
  pub is_zero : N → Bool

module _ (P : Numbers) where
  mutual
    pub data Document : Type 0 where
      absent : Document
      boolean : Bool → Document
      number : P.N → Document
      string : String → Document
      array : Elements → Document
      object : Entries → Document

    pub data Elements : Type 0 where
      no_more : Elements
      element : Document → Elements → Elements

    pub data Entries : Type 0 where
      no_entry : Entries
      entry : String → Document → Entries → Entries

module _ {P : Numbers} where
  -- `d.get(key)`
  unfoldable pub get : String → Entries P → Document P
  get key no_entry = absent
  get key (entry k v rest) = if k =ₛ key then v else get key rest

  -- `key in d`
  unfoldable pub has : String → Entries P → Bool
  has key no_entry = false
  has key (entry k v rest) = k =ₛ key || has key rest

  unfoldable pub entry_count : Entries P → ℕ
  entry_count no_entry = 0
  entry_count (entry k v rest) = suc (entry_count rest)

  -- `bool(value)`
  unfoldable pub truthy : Document P → Bool
  truthy absent = false
  truthy (boolean b) = b
  truthy (number n) = not (P.is_zero n)
  truthy (string s) = not (s =ₛ "")
  truthy (array no_more) = false
  truthy (array (element _ _)) = true
  truthy (object no_entry) = false
  truthy (object (entry _ _ _)) = true
