-- ===== src/Condition/Compare.antt =====
-- `_compare` of rule_runtime.py.
use Prim.Native.String
use text.Mathlib.Text.{find?, is_lt, is_le}
use zediot_hub_connector.Common.{
  Bool, Option, String, false, if◌then◌else◌, none, not, some, true, ◌&&◌, ◌==◌, ◌=ₛ◌, ◌||◌,
}
use zediot_hub_connector.Condition.Documents.{
  Document, Elements, Entries, Numbers, absent, array, boolean, element, entry, entry_count, get,
  has, no_entry, no_more, number, object, string,
}
use zediot_hub_connector.Condition.Path.{Result, error, type_mismatch, value}

abbrev pub is_some : {A : Type 0} → Option A → Bool
is_some none = false
is_some (some a) = true

abbrev text_below : String → String → Bool
text_below s t = is_lt (String.compare s t)

abbrev text_at_most : String → String → Bool
text_at_most s t = is_le (String.compare s t)

module _ {P : Numbers} where
  unfoldable mutual
    -- `==`: a truth value equals the number it stands for, and the order of entries is of no account.
    pub equal : Document P → Document P → Bool
    equal absent absent = true
    equal (boolean a) (boolean b) = P.same (P.of_bool a) (P.of_bool b)
    equal (boolean a) (number n) = P.same (P.of_bool a) n
    equal (number m) (boolean b) = P.same m (P.of_bool b)
    equal (number m) (number n) = P.same m n
    equal (string s) (string t) = s =ₛ t
    equal (array xs) (array ys) = equal_elements xs ys
    equal (object d) (object e) = entry_count d == entry_count e && equal_entries d e
    equal _ _ = false

    pub equal_elements : Elements P → Elements P → Bool
    equal_elements no_more no_more = true
    equal_elements (element x xs) (element y ys) = equal x y && equal_elements xs ys
    equal_elements _ _ = false

    pub equal_entries : Entries P → Entries P → Bool
    equal_entries no_entry e = true
    equal_entries (entry k v rest) e = (has k e && equal v (get k e)) && equal_entries rest e

  -- `right in left` for a list.
  unfoldable pub member : Document P → Elements P → Bool
  unfolding equal
  member v no_more = false
  member v (element x xs) = equal x v || member v xs

  unfoldable pub contains : Document P → Document P → Result Bool
  unfolding member
  contains (string s) (string t) = value (is_some (find? s t))
  contains (array xs) right = value (member right xs)
  contains _ _ = error type_mismatch

  -- The four order tests, for numbers and for texts; a truth value is refused.
  unfoldable pub ordered :
      (P.N → P.N → Bool) → (String → String → Bool) → Document P → Document P → Result Bool
  ordered numbers texts (number m) (number n) = value (numbers m n)
  ordered numbers texts (string s) (string t) = value (texts s t)
  ordered numbers texts _ _ = error type_mismatch

  -- `_compare`, for one of its seven operators.
  unfoldable pub compare_documents : String → Document P → Document P → Result Bool
  unfolding equal contains ordered
  compare_documents op left right =
      if op =ₛ "eq"
      then value (equal left right)
      else if op =ₛ "ne"
      then value (not (equal left right))
      else if op =ₛ "contains"
      then contains left right
      else if op =ₛ "gt"
      then ordered (λ m n. P.below n m) (λ s t. text_below t s) left right
      else if op =ₛ "gte"
      then ordered (λ m n. P.at_most n m) (λ s t. text_at_most t s) left right
      else if op =ₛ "lt"
      then ordered P.below text_below left right
      else ordered P.at_most text_at_most left right
