-- ===== src/Queue/Invariant.antt =====
-- The invariant of the queue, and that every method of queue.py keeps it.
use zediot_hub_connector.Common.{List, arith, map, max, negsuc, pos, refl, ℕ, ℤ, ◌+◌, ◌<◌, ◌≡◌, ◌≤◌}
use zediot_hub_connector.Queue.{
  Queue, Row, acknowledge_through, acknowledged_of, attempt_row, delete_through, emptied,
  ensure_next_sequence_at_least, expire_stale_queue, initialize, insert_or_ignore,
  mark_delivery_attempted, mark_pending_delivery_uncertain, mark_reconciliation_queued,
  metadata_int, next_of, record_drop, replay_row, set_metadata, synchronize, total_bytes,
  uncertain_row,
}
use zediot_hub_connector.Queue.Rows.{
  Above, Above-map, Above-mono, Below, Below-map, Below-mono, Below-empty, delete_through-Above,
  delete_through-Below, max_sequence-Below, max_sequence-lt, total_bytes-delete_through,
  total_bytes-map,
}

-- The acknowledged cursor lies below every queued sequence and these below the next one, the rows
-- are in strict key order, and their sizes sum to at most the capacity.
pub record IsValid {T : Type 0} (q : Queue T) : Type 0 where
  pub ahead : acknowledged_of q < next_of q
  pub above : Above (acknowledged_of q) q.rows
  pub below : Below (next_of q) q.rows
  pub bounded : total_bytes q.rows ≤ q.max_bytes

module _ {T : Type 0} where
  pub expire_stale_queue-IsValid :
      (q : Queue T) (now : ℕ) → IsValid q → IsValid (expire_stale_queue q now)
  unfolding expire_stale_queue emptied next_of acknowledged_of metadata_int set_metadata record_drop
      total_bytes
  expire_stale_queue-IsValid q now v = ground arith

  pub acknowledge_through-IsValid :
      (q : Queue T) (sequence : ℤ) → IsValid q → IsValid (acknowledge_through q sequence)
  unfolding acknowledge_through next_of acknowledged_of metadata_int set_metadata
  acknowledge_through-IsValid q (negsuc n) v = v
  acknowledge_through-IsValid q (pos s) v = ground (
    arith,
    delete_through-Above (acknowledged_of q) s q.rows v.above,
    Above-mono (acknowledged_of q) (max (acknowledged_of q) s) (delete_through s q.rows),
    Above-mono s (max (acknowledged_of q) s) (delete_through s q.rows),
    delete_through-Below (next_of q) s q.rows v.below,
    Below-mono (next_of q) (s + 1) (delete_through s q.rows),
    total_bytes-delete_through s q.rows,
  )

  pub ensure_next_sequence_at_least-IsValid :
      (q : Queue T) (sequence : ℕ) → IsValid q → IsValid (ensure_next_sequence_at_least q sequence)
  unfolding ensure_next_sequence_at_least next_of acknowledged_of metadata_int set_metadata
  ensure_next_sequence_at_least-IsValid q n v = ground (arith, Below-mono (next_of q) n q.rows)

  pub mark_reconciliation_queued-IsValid :
      (q : Queue T) → IsValid q → IsValid (mark_reconciliation_queued q)
  unfolding mark_reconciliation_queued next_of acknowledged_of metadata_int set_metadata
  mark_reconciliation_queued-IsValid q v = ground arith

  -- An update of other columns keeps the invariant.
  map-IsValid :
      (f : Row T → Row T)
      → ((r : Row T) → (f r).sequence ≡ r.sequence)
      → ((r : Row T) → (f r).byte_size ≡ r.byte_size)
      → (q : Queue T) → IsValid q
      → IsValid (record q { rows = map f q.rows })
  unfolding next_of acknowledged_of
  map-IsValid f same size q v = record {
    ahead = v.ahead;
    above = Above-map f same _ q.rows v.above;
    below = Below-map f same _ q.rows v.below;
    bounded = omega (arith, total_bytes-map f size q.rows, v.bounded);
  }

  pub mark_delivery_attempted-IsValid :
      (q : Queue T) (now : ℕ) (sequences : List ℕ)
      → IsValid q
      → IsValid (mark_delivery_attempted q now sequences)
  unfolding mark_delivery_attempted attempt_row
  mark_delivery_attempted-IsValid q now ss v =
      map-IsValid (attempt_row now ss) (λ r. ground arith) (λ r. ground arith) q v

  pub mark_pending_delivery_uncertain-IsValid :
      (q : Queue T) (now : ℕ) → IsValid q → IsValid (mark_pending_delivery_uncertain q now)
  unfolding mark_pending_delivery_uncertain uncertain_row
  mark_pending_delivery_uncertain-IsValid q now v =
      map-IsValid (uncertain_row now) (λ r. refl) (λ r. refl) q v

  -- Filling in missing counters changes none that is read.
  pub next_of-initialize : (q : Queue T) → next_of (initialize q) ≡ next_of q
  unfolding initialize insert_or_ignore next_of metadata_int set_metadata
  next_of-initialize q = ground arith

  acknowledged_of-initialize : (q : Queue T) → acknowledged_of (initialize q) ≡ acknowledged_of q
  unfolding initialize insert_or_ignore acknowledged_of metadata_int set_metadata
  acknowledged_of-initialize q = ground arith

  pub initialize-IsValid : (q : Queue T) → IsValid q → IsValid (initialize q)
  unfolding initialize replay_row
  initialize-IsValid q v =
      let w = map-IsValid replay_row (λ r. ground arith) (λ r. ground arith) q v in
      record {
        ahead = rw (next_of-initialize q, acknowledged_of-initialize q) v.ahead;
        above =
            rw (acknowledged_of-initialize q)
              (Above-map replay_row (λ r. ground arith) _ q.rows v.above);
        below =
            rw (next_of-initialize q) (Below-map replay_row (λ r. ground arith) _ q.rows v.below);
        bounded = w.bounded;
      }

  pub synchronize-IsValid :
      (q : Queue T) (sequence : ℕ) → IsValid q → IsValid (synchronize q sequence).0
  unfolding synchronize next_of acknowledged_of metadata_int set_metadata record_drop total_bytes
  synchronize-IsValid q s v = ground (
    arith,
    delete_through-Above (acknowledged_of q) s q.rows v.above,
    Above-mono s (max (acknowledged_of q) s) (delete_through s q.rows),
    max_sequence-Below (delete_through s q.rows),
    max_sequence-lt s (delete_through s q.rows),
    Below-empty (s + 1) (delete_through s q.rows),
    total_bytes-delete_through s q.rows,
  )
