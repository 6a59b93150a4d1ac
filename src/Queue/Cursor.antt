-- ===== src/Queue/Cursor.antt =====
-- `synchronize_with_server_cursor` of queue.py: when it gives the queue up, and what it leaves.
use zediot_hub_connector.Common.{
  List, [], arith, false, max, refl, suc, sym, true, ℕ, ◌+◌, ◌↔◌, ◌∷◌, ◌≡◌,
}
use zediot_hub_connector.Queue.{
  Queue, Row, acknowledged_of, delete_through, is_contiguous, synchronize,
}
use zediot_hub_connector.Queue.Rows.{
  Above, Above-mono, StartsAt, StartsAt-of_span, delete_through-Above, delete_through_above,
  max_of_StartsAt, max_sequence-bound, min_sequence-head, rows_above,
}
use zediot_hub_connector.Queue.Invariant.{IsValid}

module _ {T : Type 0} where
  -- Consecutive rows pass the test.
  StartsAt-is_contiguous :
      (n : ℕ) (rows : List (Row T))
      → Above n rows
      → StartsAt (suc n) rows
      → is_contiguous (n + 1) rows ≡ true
  unfolding is_contiguous
  StartsAt-is_contiguous n [] a h = refl
  StartsAt-is_contiguous n (r ∷ rows) a h =
      ground (arith, min_sequence-head r rows a.1, max_of_StartsAt n (r ∷ rows) h)

  is_contiguous-StartsAt :
      (n : ℕ) (rows : List (Row T))
      → Above n rows
      → is_contiguous (n + 1) rows ≡ true
      → StartsAt (suc n) rows
  unfolding is_contiguous
  is_contiguous-StartsAt n [] a h = tt
  is_contiguous-StartsAt n (r ∷ rows) a h =
      StartsAt-of_span n (r ∷ rows) a
        (ground (arith, min_sequence-head r rows a.1, max_sequence-bound n r rows a))

  gap_at :
      (q : Queue T) (s : ℕ)
      → IsValid q
      → ((synchronize q s).1 ≡ false) ↔ StartsAt (suc s) (delete_through s q.rows)
  unfolding synchronize
  gap_at q s v =
      let a =
        Above-mono s (max (acknowledged_of q) s) (delete_through s q.rows) (omega arith)
          (delete_through-Above (acknowledged_of q) s q.rows v.above) in
      (
        λ h. is_contiguous-StartsAt s (delete_through s q.rows) a (ground arith),
        λ h. rw (StartsAt-is_contiguous s (delete_through s q.rows) a h) refl,
      )

  -- On a valid queue `synchronize_with_server_cursor` gives the queue up exactly when the rows
  -- above the cursor are not consecutive from the number after it.
  pub synchronize_gap :
      (q : Queue T) (sequence : ℕ)
      → IsValid q
      → ((synchronize q sequence).1 ≡ false) ↔ StartsAt (suc sequence) (rows_above sequence q.rows)
  synchronize_gap q s v = rw (sym (delete_through_above s q.rows)) (gap_at q s v)
