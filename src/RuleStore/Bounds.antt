-- ===== src/RuleStore/Bounds.antt =====
-- What `_prune` of rule_store.py bounds and what it spares.
use zediot_hub_connector.Common.{
  All, All-map, Bool, List, String, [], ap, arith, eq_iff, false, length, mem_text, not, refl, suc,
  take, true, zero, ℕ, ◌-◌, ◌∙◌, ◌∷◌, ◌≡◌, ◌≤◌,
}
use zediot_hub_connector.RuleStore.{
  ExecutionRow, RuleStore, goes_before, insert_by, keys_of, order_by, prune, trim, where_,
}

module _ {A : Type 0} where
  count_insert :
      (before : A → A → Bool) (test : A → Bool) (x : A) (xs : List A)
      → length (where_ test (insert_by before x xs)) ≡ length (where_ test (x ∷ xs))
  unfolding where_ insert_by
  count_insert before test x [] = refl
  count_insert before test x (y ∷ ys) = ground (arith, count_insert before test x ys)

  -- Ordering keeps the number of rows that pass a test.
  count_order :
      (before : A → A → Bool) (test : A → Bool) (xs : List A)
      → length (where_ test (order_by before xs)) ≡ length (where_ test xs)
  unfolding where_ order_by
  count_order before test [] = refl
  count_order before test (x ∷ xs) =
      ground (arith, count_insert before test x (order_by before xs), count_order before test xs)

  length-insert :
      (before : A → A → Bool) (x : A) (xs : List A)
      → length (insert_by before x xs) ≡ suc (length xs)
  unfolding insert_by
  length-insert before x [] = refl
  length-insert before x (y ∷ ys) = ground (arith, length-insert before x ys)

  length-order : (before : A → A → Bool) (xs : List A) → length (order_by before xs) ≡ length xs
  unfolding order_by
  length-order before [] = refl
  length-order before (x ∷ xs) =
      length-insert before x (order_by before xs) ∙ ap suc (length-order before xs)

  -- If the first rows all fail the test, that many are gone.
  count_failing :
      (test : A → Bool) (n : ℕ) (xs : List A)
      → All (λ x. test x ≡ false) (take n xs)
      → length (where_ test xs) ≤ length xs - n
  unfolding where_
  count_failing test zero [] h = omega arith
  count_failing test zero (x ∷ xs) h = ground (arith, count_failing test zero xs tt)
  count_failing test (suc n) [] h = omega arith
  count_failing test (suc n) (x ∷ xs) h = ground (arith, count_failing test n xs h.1, h.0)

  pub where_-everything :
      (test : A → Bool) (xs : List A) → All (λ x. test x ≡ true) xs → where_ test xs ≡ xs
  unfolding where_
  where_-everything test [] h = refl
  where_-everything test (x ∷ xs) h = rw (h.0, where_-everything test xs h.1) refl

mem_later : (s k : String) (ks : List String) → mem_text s ks ≡ true → mem_text s (k ∷ ks) ≡ true
mem_later s k ks h = ground arith

mem_first : (s : String) (ks : List String) → mem_text s (s ∷ ks) ≡ true
mem_first s ks = ground (arith, eq_iff s s)

module _ {T : Type 0} where
  keys_of-All :
      (rows : List (ExecutionRow T))
      → All (λ r. mem_text r.idempotency_key (keys_of rows) ≡ true) rows
  unfolding keys_of
  keys_of-All [] = tt
  keys_of-All (r ∷ rows) = (
    mem_first r.idempotency_key (keys_of rows),
    All-map _ _ (λ x h. mem_later x.idempotency_key r.idempotency_key (keys_of rows) h) rows
        (keys_of-All rows),
  )

  trim_bound :
      (max_rows : ℕ) (rows : List (ExecutionRow T)) → length (trim max_rows rows) ≤ max_rows
  unfolding trim
  trim_bound max_rows rows =
      let sorted = order_by goes_before rows in
      let n = length rows - max_rows in
      let test : ExecutionRow T → Bool =
        λ r. not (mem_text r.idempotency_key (keys_of (take n sorted))) in
      omega (
        arith,
        count_order goes_before test rows,
        length-order goes_before rows,
        count_failing test n sorted
            (All-map _ _ (λ x h. ap not h) (take n sorted) (keys_of-All (take n sorted))),
      )

  -- Within the limit nothing is trimmed.
  pub trim_within :
      (max_rows : ℕ) (rows : List (ExecutionRow T))
      → length rows ≤ max_rows
      → trim max_rows rows ≡ rows
  unfolding trim keys_of
  trim_within max_rows rows h =
      let none_over : length rows - max_rows ≡ 0 = omega arith in
      rw none_over (where_-everything _ rows (all_pass rows))
    where
      all_pass : (xs : List (ExecutionRow T)) → All (λ _. true ≡ true) xs
      all_pass [] = tt
      all_pass (x ∷ xs) = (refl, all_pass xs)

  -- After a `_prune` there are at most `evidence_max_rows` executions.
  pub prune_bound :
      (s : RuleStore T) (now : ℕ) → length (prune s now).executions ≤ s.evidence_max_rows
  unfolding prune
  prune_bound s now = trim_bound s.evidence_max_rows _
