-- ===== src/Queue/Rows.antt =====
-- Predicates on the rows of `uplink_queue`, and how the table operations of queue.py treat them.
use zediot_hub_connector.Common.{
  List, [], arith, if◌then◌else◌, leb, length, length-append, length-map, map, max, min, refl, some,
  suc, ℕ, ◌++◌, ◌+◌, ◌<◌, ◌∷◌, ◌≡◌, ◌≢◌, ◌≤◌,
}
use zediot_hub_connector.Queue.{
  Row, delete_through, insert_row, least, max_sequence, min_sequence, new, total_bytes,
}

module _ {T : Type 0} where
  -- The sequences ascend strictly, from above a number.
  abbrev pub Above : ℕ → List (Row T) → Type 0
  Above n [] = Unit {0}
  Above n (r ∷ rows) = (n < r.sequence) × Above r.sequence rows

  abbrev pub Below : ℕ → List (Row T) → Type 0
  Below n [] = Unit {0}
  Below n (r ∷ rows) = (r.sequence < n) × Below n rows

  -- The sequences are consecutive and end just below a number.
  abbrev pub EndsAt : ℕ → List (Row T) → Type 0
  EndsAt n [] = Unit {0}
  EndsAt n (r ∷ rows) = (r.sequence + suc (length rows) ≡ n) × EndsAt n rows

  -- The sequences are consecutive and start at a number.
  abbrev pub StartsAt : ℕ → List (Row T) → Type 0
  StartsAt n [] = Unit {0}
  StartsAt n (r ∷ rows) = (r.sequence ≡ n) × StartsAt (suc n) rows

  -- The rows with a sequence above a number, and how many have not.
  abbrev pub rows_above : ℕ → List (Row T) → List (Row T)
  rows_above n [] = []
  rows_above n (r ∷ rows) = if leb r.sequence n then rows_above n rows else r ∷ rows_above n rows

  abbrev pub count_passed : ℕ → List (Row T) → ℕ
  count_passed n [] = 0
  count_passed n (r ∷ rows) =
      if leb r.sequence n then suc (count_passed n rows) else count_passed n rows

  pub delete_through_above :
      (n : ℕ) (rows : List (Row T)) → delete_through n rows ≡ rows_above n rows
  unfolding delete_through
  delete_through_above n [] = refl
  delete_through_above n (r ∷ rows) = ground (arith, delete_through_above n rows)

  pub count_passed_balance :
      (n : ℕ) (rows : List (Row T))
      → length (delete_through n rows) + count_passed n rows ≡ length rows
  unfolding delete_through
  count_passed_balance n [] = refl
  count_passed_balance n (r ∷ rows) = ground (arith, count_passed_balance n rows)

  pub Above-mono : (m n : ℕ) (rows : List (Row T)) → m ≤ n → Above n rows → Above m rows
  Above-mono m n [] h a = tt
  Above-mono m n (r ∷ rows) h a = (omega arith, a.1)

  pub Below-mono : (m n : ℕ) (rows : List (Row T)) → m ≤ n → Below m rows → Below n rows
  Below-mono m n [] h b = tt
  Below-mono m n (r ∷ rows) h b = (omega arith, Below-mono m n rows h b.1)

  pub delete_through-Above :
      (n s : ℕ) (rows : List (Row T)) → Above n rows → Above (max n s) (delete_through s rows)
  unfolding delete_through
  delete_through-Above n s [] a = tt
  delete_through-Above n s (r ∷ rows) a = ground (
    arith,
    delete_through-Above r.sequence s rows a.1,
    Above-mono r.sequence (max r.sequence s) (delete_through s rows),
    Above-mono (max n s) (max r.sequence s) (delete_through s rows),
  )

  pub delete_through-Below :
      (n s : ℕ) (rows : List (Row T)) → Below n rows → Below n (delete_through s rows)
  unfolding delete_through
  delete_through-Below n s [] b = tt
  delete_through-Below n s (r ∷ rows) b = ground (arith, delete_through-Below n s rows b.1)

  -- Rows above the cursor all stay.
  pub delete_through_none :
      (s n : ℕ) (rows : List (Row T)) → Above n rows → s ≤ n → delete_through s rows ≡ rows
  unfolding delete_through
  delete_through_none s n [] a h = refl
  delete_through_none s n (r ∷ rows) a h = ground (arith, delete_through_none s r.sequence rows a.1)

  pub EndsAt-Above :
      (n s : ℕ) (rows : List (Row T)) → EndsAt n rows → s + length rows < n → Above s rows
  EndsAt-Above n s [] e h = tt
  EndsAt-Above n s (r ∷ rows) e h = (omega arith, EndsAt-Above n r.sequence rows e.1 (omega arith))

  pub total_bytes-append :
      (xs ys : List (Row T)) → total_bytes (xs ++ ys) ≡ total_bytes xs + total_bytes ys
  unfolding total_bytes
  total_bytes-append [] ys = omega arith
  total_bytes-append (x ∷ xs) ys = omega (arith, total_bytes-append xs ys)

  pub total_bytes-delete_through :
      (s : ℕ) (rows : List (Row T)) → total_bytes (delete_through s rows) ≤ total_bytes rows
  unfolding total_bytes delete_through
  total_bytes-delete_through s [] = omega arith
  total_bytes-delete_through s (r ∷ rows) = ground (arith, total_bytes-delete_through s rows)

  -- A key above all keys goes to the end of the table.
  pub insert_row_last :
      (new : Row T) (rows : List (Row T))
      → Below new.sequence rows
      → insert_row new rows ≡ some (rows ++ new ∷ [])
  unfolding insert_row
  insert_row_last new [] b = refl
  insert_row_last new (r ∷ rows) b = ground (arith, insert_row_last new rows b.1)

  pub delete_through-EndsAt :
      (n s : ℕ) (rows : List (Row T)) → EndsAt n rows → EndsAt n (delete_through s rows)
  unfolding delete_through
  delete_through-EndsAt n s [] e = tt
  delete_through-EndsAt n s (r ∷ rows) e = ground (
    arith,
    delete_through-EndsAt n s rows e.1,
    delete_through_none s r.sequence rows (EndsAt-Above n r.sequence rows e.1 (omega arith)),
  )

  -- What the two aggregates of SQL are on a table in key order.
  least_of_Above : (n : ℕ) (rows : List (Row T)) → Above n rows → least n rows ≡ n
  unfolding least
  least_of_Above n [] a = refl
  least_of_Above n (r ∷ rows) a =
      let e : min n r.sequence ≡ n = omega arith in
      rw e (least_of_Above n rows (Above-mono n r.sequence rows (omega arith) a.1))

  pub min_sequence-head :
      (r : Row T) (rows : List (Row T))
      → Above r.sequence rows
      → min_sequence (r ∷ rows) ≡ r.sequence
  unfolding min_sequence
  min_sequence-head r rows a = least_of_Above r.sequence rows a

  pub max_sequence-bound :
      (n : ℕ) (r : Row T) (rows : List (Row T))
      → Above n (r ∷ rows)
      → n + length (r ∷ rows) ≤ max_sequence (r ∷ rows)
  unfolding max_sequence
  max_sequence-bound n r [] a = omega arith
  max_sequence-bound n r (s ∷ rows) a = omega (arith, max_sequence-bound r.sequence s rows a.1)

  pub max_sequence-lt :
      (n : ℕ) (rows : List (Row T)) → Above n rows → length rows ≢ 0 → n < max_sequence rows
  max_sequence-lt n [] a h = absurd (h refl)
  max_sequence-lt n (r ∷ rows) a h = omega (arith, max_sequence-bound n r rows a)

  pub delete_through_all :
      (s n : ℕ) (rows : List (Row T)) → Below n rows → n ≤ s + 1 → delete_through s rows ≡ []
  unfolding delete_through
  delete_through_all s n [] b h = refl
  delete_through_all s n (r ∷ rows) b h = ground (arith, delete_through_all s n rows b.1)

  pub length_zero : (rows : List (Row T)) → length rows ≡ 0 → rows ≡ []
  length_zero [] h = refl
  length_zero (r ∷ rows) h = absurd (omega arith)

  -- Consecutive rows end at their greatest sequence.
  pub EndsAt-max :
      (n : ℕ) (rows : List (Row T)) → EndsAt n rows → length rows ≢ 0 → max_sequence rows + 1 ≡ n
  unfolding max_sequence
  EndsAt-max n [] e h = absurd (h refl)
  EndsAt-max n (r ∷ []) e h = omega arith
  EndsAt-max n (r ∷ s ∷ rows) e h =
      omega (arith, EndsAt-max n (s ∷ rows) e.1 (λ z. omega arith), e.0, e.1.0)

  pub max_of_StartsAt :
      (n : ℕ) (rows : List (Row T))
      → StartsAt (suc n) rows
      → length rows ≢ 0
      → max_sequence rows ≡ n + length rows
  unfolding max_sequence
  max_of_StartsAt n [] h z = absurd (z refl)
  max_of_StartsAt n (r ∷ []) h z = omega arith
  max_of_StartsAt n (r ∷ s ∷ rows) h z =
      omega (arith, max_of_StartsAt (suc n) (s ∷ rows) h.1 (λ e. omega arith), h.0)

  pub Below-empty : (n : ℕ) (rows : List (Row T)) → length rows ≡ 0 → Below n rows
  Below-empty n [] h = tt
  Below-empty n (r ∷ rows) h = absurd (omega arith)

  pub max_sequence-Below : (rows : List (Row T)) → Below (max_sequence rows + 1) rows
  unfolding max_sequence
  max_sequence-Below [] = tt
  max_sequence-Below (r ∷ rows) = (
    omega arith,
    Below-mono (max_sequence rows + 1) (max r.sequence (max_sequence rows) + 1) rows (omega arith)
        (max_sequence-Below rows),
  )

  -- A table in key order that spans no more numbers than it has rows has no gap.
  pub StartsAt-of_span :
      (n : ℕ) (rows : List (Row T))
      → Above n rows
      → max_sequence rows ≤ n + length rows
      → StartsAt (suc n) rows
  unfolding max_sequence
  StartsAt-of_span n [] a h = tt
  StartsAt-of_span n (r ∷ []) a h = (omega arith, tt)
  StartsAt-of_span n (r ∷ s ∷ rows) a h =
      ground (arith, max_sequence-bound r.sequence s rows a.1, StartsAt-of_span (suc n) (s ∷ rows))

module _ {T : Type 0} (new : Row T) where
  pub Above-snoc :
      (n : ℕ) (rows : List (Row T))
      → Above n rows
      → Below new.sequence rows
      → n < new.sequence
      → Above n (rows ++ new ∷ [])
  Above-snoc n [] a b h = (h, tt)
  Above-snoc n (r ∷ rows) a b h = (a.0, Above-snoc r.sequence rows a.1 b.1 b.0)

  pub Below-snoc :
      (rows : List (Row T)) → Below new.sequence rows → Below (new.sequence + 1) (rows ++ new ∷ [])
  Below-snoc [] b = (omega arith, tt)
  Below-snoc (r ∷ rows) b = (omega arith, Below-snoc rows b.1)

  pub EndsAt-snoc :
      (rows : List (Row T))
      → EndsAt new.sequence rows
      → EndsAt (new.sequence + 1) (rows ++ new ∷ [])
  EndsAt-snoc [] e = (omega arith, tt)
  EndsAt-snoc (r ∷ rows) e =
      (omega (arith, e.0, length-append rows (new ∷ [])), EndsAt-snoc rows e.1)

-- An `UPDATE` of other columns moves no row and changes no size.
module _ {T : Type 0} (f : Row T → Row T) (same : (r : Row T) → (f r).sequence ≡ r.sequence) where
  pub Above-map : (n : ℕ) (rows : List (Row T)) → Above n rows → Above n (map f rows)
  Above-map n [] a = tt
  Above-map n (r ∷ rows) a = rw (same r) (a.0, Above-map r.sequence rows a.1)

  pub Below-map : (n : ℕ) (rows : List (Row T)) → Below n rows → Below n (map f rows)
  Below-map n [] b = tt
  Below-map n (r ∷ rows) b = (rw (same r) b.0, Below-map n rows b.1)

  pub EndsAt-map : (n : ℕ) (rows : List (Row T)) → EndsAt n rows → EndsAt n (map f rows)
  EndsAt-map n [] e = tt
  EndsAt-map n (r ∷ rows) e = (omega (arith, same r, length-map f rows, e.0), EndsAt-map n rows e.1)

pub total_bytes-map :
    {T : Type 0} (f : Row T → Row T)
    → ((r : Row T) → (f r).byte_size ≡ r.byte_size)
    → (rows : List (Row T)) → total_bytes (map f rows) ≡ total_bytes rows
unfolding total_bytes
total_bytes-map f same [] = refl
total_bytes-map f same (r ∷ rows) = omega (arith, same r, total_bytes-map f same rows)
