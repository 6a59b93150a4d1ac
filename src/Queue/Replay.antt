-- ===== src/Queue/Replay.antt =====
-- Delivery attempts in the queue of queue.py: what the connector knows to have been sent is sent
-- again as a replay.
use zediot_hub_connector.Common.{
  All, All-append, All-map, List, String, [], arith, inl, inr, map, negsuc, none, pos, refl, ℕ, ℤ,
  ◌<◌, ◌∷◌, ◌≡◌, ◌≢◌, ◌⊎◌,
}
use zediot_hub_connector.Queue.{
  Json, Queue, Row, acknowledge_through, attempt_row, coalesce, delete_through, emptied,
  ensure_next_sequence_at_least, expire_stale_queue, initialize, mark_delivery_attempted,
  mark_pending_delivery_uncertain, mark_reconciliation_queued, new, new_row, next_of, peek,
  peek_all, replay_row, summary, synchronize, synchronize_with_server_cursor, uncertain_row,
}
use zediot_hub_connector.Queue.Step.{
  Call, acknowledges, enqueues, ensures_next, marks_attempted, marks_reconciled, marks_uncertain,
  peeks, peeks_all, reopens, run, step, summarizes, synchronizes,
}
use zediot_hub_connector.Queue.Expiry.{expire_cases}
use zediot_hub_connector.Queue.Invariant.{IsValid}
use zediot_hub_connector.Queue.Enqueue.{enqueue_outcome}
use zediot_hub_connector.Queue.History.{new-IsValid, step-IsValid}

abbrev pub IsAttempted : {T : Type 0} → Row T → Type 0
IsAttempted r = (0 < r.delivery_attempts) × (r.last_attempted_at ≢ none)

-- A row that has been attempted has the time of its last attempt.
abbrev pub IsStamped : {T : Type 0} → Row T → Type 0
IsStamped r = (r.delivery_attempts ≡ 0) ⊎ IsAttempted r

module _ {T : Type 0} where
  All-map-All :
      (f : Row T → Row T) (P Q : Row T → Type 0)
      → ((r : Row T) → P r → Q (f r))
      → (rows : List (Row T)) → All P rows
      → All Q (map f rows)
  All-map-All f P Q h [] a = tt
  All-map-All f P Q h (r ∷ rows) a = (h r a.0, All-map-All f P Q h rows a.1)

  replay_row-IsAttempted : (r : Row T) → IsStamped r → IsAttempted (replay_row r)
  unfolding replay_row coalesce
  replay_row-IsAttempted r h = ground arith

  uncertain_row-IsAttempted :
      (now : ℕ) (r : Row T) → IsStamped r → IsAttempted (uncertain_row now r)
  unfolding uncertain_row coalesce
  uncertain_row-IsAttempted now r h = ground arith

  pub initialize-IsAttempted :
      (q : Queue T) → All IsStamped q.rows → All IsAttempted (initialize q).rows
  unfolding initialize
  initialize-IsAttempted q h =
      All-map-All replay_row IsStamped IsAttempted replay_row-IsAttempted q.rows h

  pub pending-IsAttempted :
      (q : Queue T) (now : ℕ)
      → All IsStamped q.rows
      → All IsAttempted (mark_pending_delivery_uncertain q now).rows
  unfolding mark_pending_delivery_uncertain
  pending-IsAttempted q now h =
      All-map-All (uncertain_row now) IsStamped IsAttempted (uncertain_row-IsAttempted now) q.rows h

  pub IsAttempted-IsStamped : (rows : List (Row T)) → All IsAttempted rows → All IsStamped rows
  IsAttempted-IsStamped = All-map IsAttempted IsStamped (λ r h. inr h)

  attempt_row-IsStamped :
      (now : ℕ) (ss : List ℕ) (r : Row T) → IsStamped r → IsStamped (attempt_row now ss r)
  unfolding attempt_row
  attempt_row-IsStamped now ss r h = ground arith

  pub attempted-IsStamped :
      (q : Queue T) (now : ℕ) (ss : List ℕ)
      → All IsStamped q.rows
      → All IsStamped (mark_delivery_attempted q now ss).rows
  unfolding mark_delivery_attempted
  attempted-IsStamped q now ss h =
      All-map-All (attempt_row now ss) IsStamped IsStamped (attempt_row-IsStamped now ss) q.rows h

  delete_through-All :
      (P : Row T → Type 0) (s : ℕ) (rows : List (Row T))
      → All P rows
      → All P (delete_through s rows)
  unfolding delete_through
  delete_through-All P s [] h = tt
  delete_through-All P s (r ∷ rows) h = ground (arith, delete_through-All P s rows h.1)

  expire-All :
      (P : Row T → Type 0) (q : Queue T) (now : ℕ)
      → All P q.rows
      → All P (expire_stale_queue q now).rows
  unfolding emptied
  expire-All P q now h = expire_cases (λ e. All P e.rows) q now (λ _. h) (λ _. tt)

  acknowledge_through-All :
      (P : Row T → Type 0) (q : Queue T) (s : ℤ)
      → All P q.rows
      → All P (acknowledge_through q s).rows
  unfolding acknowledge_through
  acknowledge_through-All P q (negsuc n) h = h
  acknowledge_through-All P q (pos s) h = delete_through-All P s q.rows h

  synchronize-All :
      (P : Row T → Type 0) (q : Queue T) (s : ℕ) → All P q.rows → All P (synchronize q s).0.rows
  unfolding synchronize
  synchronize-All P q s h = ground (arith, delete_through-All P s q.rows h)

  ensure-All :
      (P : Row T → Type 0) (q : Queue T) (s : ℕ)
      → All P q.rows
      → All P (ensure_next_sequence_at_least q s).rows
  unfolding ensure_next_sequence_at_least
  ensure-All P q s h = ground arith

module _ (J : Json) where
  enqueue-IsStamped :
      (q : Queue J.Encoded) (now : ℕ) (kind : String) (payload : J.Value)
      → IsValid q
      → All IsStamped q.rows
      → All IsStamped (step J q (enqueues now kind payload)).rows
  unfolding step new_row
  enqueue-IsStamped q now kind payload v h =
      let e = expire_stale_queue q now in
      let kept = expire-All IsStamped q now h in
      elim (enqueue_outcome J q now kind payload v) [
        | inl (_, r) ↦ rw (r, step) kept
        | inr (_, r, _) ↦
            rw (r, step)
              (All-append IsStamped e.rows (new_row J (next_of e) kind payload now ∷ []) kept
                (inl refl, tt))
      ]

  step-IsStamped :
      (q : Queue J.Encoded) (c : Call J)
      → IsValid q
      → All IsStamped q.rows
      → All IsStamped (step J q c).rows
  unfolding step peek peek_all summary synchronize_with_server_cursor mark_delivery_attempted
      mark_reconciliation_queued
  step-IsStamped q (enqueues now kind payload) v h = enqueue-IsStamped q now kind payload v h
  step-IsStamped q (peeks now kind limit) v h = expire-All IsStamped q now h
  step-IsStamped q (peeks_all now limit) v h = expire-All IsStamped q now h
  step-IsStamped q (summarizes now) v h = expire-All IsStamped q now h
  step-IsStamped q (marks_attempted now ss) v h = attempted-IsStamped q now ss h
  step-IsStamped q (marks_uncertain now) v h = IsAttempted-IsStamped _ (pending-IsAttempted q now h)
  step-IsStamped q (acknowledges s) v h = acknowledge_through-All IsStamped q s h
  step-IsStamped q (synchronizes (negsuc n)) v h = h
  step-IsStamped q (synchronizes (pos s)) v h = synchronize-All IsStamped q s h
  step-IsStamped q (ensures_next s) v h = ensure-All IsStamped q s h
  step-IsStamped q marks_reconciled v h = h
  step-IsStamped q reopens v h = IsAttempted-IsStamped _ (initialize-IsAttempted q h)

  pub run-IsStamped :
      (q : Queue J.Encoded) (cs : List (Call J))
      → IsValid q
      → All IsStamped q.rows
      → All IsStamped (run J q cs).rows
  unfolding run
  run-IsStamped q [] v h = h
  run-IsStamped q (c ∷ cs) v h =
      run-IsStamped (step J q c) cs (step-IsValid J q c v) (step-IsStamped q c v h)

  -- After any calls on a new queue, a restart of the connector and a transport failure each leave
  -- every row with at least one attempt and the time of its last.
  pub run-new-IsAttempted :
      (max_bytes max_age : ℕ) (cs : List (Call J)) (now : ℕ)
      → let q = run J (new max_bytes max_age) cs in
        All IsAttempted (initialize q).rows
        × All IsAttempted (mark_pending_delivery_uncertain q now).rows
  unfolding new initialize
  run-new-IsAttempted max_bytes max_age cs now =
      let h = run-IsStamped (new max_bytes max_age) cs (new-IsValid max_bytes max_age) tt in
      let q = run J (new max_bytes max_age) cs in
      (initialize-IsAttempted q h, pending-IsAttempted q now h)
