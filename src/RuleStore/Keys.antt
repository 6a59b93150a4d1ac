-- ===== src/RuleStore/Keys.antt =====
-- Unique keys in the tables of rule_store.py.
use zediot_hub_connector.Common.{
  Bool, List, String, [], arith, eq_iff, false, map, none, not, subst, sym, ◌++◌, ◌=ₛ◌, ◌∙◌, ◌∷◌,
  ◌≡◌, ◌≢◌,
}
use zediot_hub_connector.RuleStore.{
  ExecutionRow, PackageRow, find_execution, has_execution, has_package, where_,
}

module _ {A : Type 0} (key : A → String) where
  abbrev pub Apart : String → List A → Type 0
  Apart k [] = Unit {0}
  Apart k (x ∷ xs) = (key x ≢ k) × Apart k xs

  -- No two rows have the same key.
  abbrev pub Distinct : List A → Type 0
  Distinct [] = Unit {0}
  Distinct (x ∷ xs) = Apart (key x) xs × Distinct xs

  where_-Apart :
      (test : A → Bool) (k : String) (xs : List A) → Apart k xs → Apart k (where_ test xs)
  unfolding where_
  where_-Apart test k [] h = tt
  where_-Apart test k (x ∷ xs) h = ground (arith, where_-Apart test k xs h.1)

  pub where_-Distinct : (test : A → Bool) (xs : List A) → Distinct xs → Distinct (where_ test xs)
  unfolding where_
  where_-Distinct test [] h = tt
  where_-Distinct test (x ∷ xs) h =
      ground (arith, where_-Distinct test xs h.1, where_-Apart test (key x) xs h.0)

  Apart-snoc :
      (k : String) (new : A) (xs : List A) → Apart k xs → key new ≢ k → Apart k (xs ++ new ∷ [])
  Apart-snoc k new [] h n = (n, tt)
  Apart-snoc k new (x ∷ xs) h n = (h.0, Apart-snoc k new xs h.1 n)

  pub Distinct-snoc :
      (new : A) (xs : List A) → Distinct xs → Apart (key new) xs → Distinct (xs ++ new ∷ [])
  Distinct-snoc new [] h a = (tt, tt)
  Distinct-snoc new (x ∷ xs) h a =
      (Apart-snoc (key x) new xs h.0 (λ e. a.0 (sym e)), Distinct-snoc new xs h.1 a.1)

  module _ (f : A → A) (same : (x : A) → key (f x) ≡ key x) where
    Apart-map : (k : String) (xs : List A) → Apart k xs → Apart k (map f xs)
    Apart-map k [] h = tt
    Apart-map k (x ∷ xs) h = ((λ e. h.0 (sym (same x) ∙ e)), Apart-map k xs h.1)

    pub Distinct-map : (xs : List A) → Distinct xs → Distinct (map f xs)
    Distinct-map [] h = tt
    Distinct-map (x ∷ xs) h = (
      subst (λ k. Apart k (map f xs)) (sym (same x)) (Apart-map (key x) xs h.0),
      Distinct-map xs h.1,
    )

  -- What a deletion by key leaves has the key no more.
  pub where_-gone : (k : String) (xs : List A) → Apart k (where_ (λ x. not (key x =ₛ k)) xs)
  unfolding where_
  where_-gone k [] = tt
  where_-gone k (x ∷ xs) = ground (arith, eq_iff (key x) k, where_-gone k xs)

pub has_package-Apart :
    {T : Type 0} (id : String) (rows : List (PackageRow T))
    → has_package id rows ≡ false
    → Apart (λ r. r.package_id) id rows
unfolding has_package
has_package-Apart id [] h = tt
has_package-Apart id (r ∷ rows) h =
    ground (arith, eq_iff r.package_id id, has_package-Apart id rows)

pub has_execution-Apart :
    {T : Type 0} (id : String) (rows : List (ExecutionRow T))
    → has_execution id rows ≡ false
    → Apart (λ r. r.execution_id) id rows
unfolding has_execution
has_execution-Apart id [] h = tt
has_execution-Apart id (r ∷ rows) h =
    ground (arith, eq_iff r.execution_id id, has_execution-Apart id rows)

pub find_execution-Apart :
    {T : Type 0} (key : String) (rows : List (ExecutionRow T))
    → find_execution key rows ≡ none
    → Apart (λ r. r.idempotency_key) key rows
unfolding find_execution
find_execution-Apart key [] h = tt
find_execution-Apart key (r ∷ rows) h =
    ground (arith, eq_iff r.idempotency_key key, find_execution-Apart key rows)
