-- ===== src/Queue/History.antt =====
-- Every history of calls on the queue of queue.py keeps its invariant, and which calls keep its
-- sequences free of gaps.
use zediot_hub_connector.Common.{
  All, List, String, [], arith, inl, inr, negsuc, pos, refl, ℕ, ℤ, ◌∷◌,
}
use zediot_hub_connector.Queue.{
  Json, Queue, acknowledge_through, acknowledged_of, attempt_row, delete_through, emptied,
  expire_stale_queue, initialize, insert_or_ignore, mark_delivery_attempted,
  mark_pending_delivery_uncertain, mark_reconciliation_queued, metadata_int, new, new_row, next_of,
  peek, peek_all, record_drop, replay_row, set_metadata, summary, synchronize,
  synchronize_with_server_cursor, total_bytes, uncertain_row,
}
use zediot_hub_connector.Queue.Rows.{
  EndsAt, EndsAt-map, EndsAt-max, EndsAt-snoc, delete_through-EndsAt, delete_through_all,
  length_zero,
}
use zediot_hub_connector.Queue.Step.{
  Call, acknowledges, enqueues, ensures_next, marks_attempted, marks_reconciled, marks_uncertain,
  peeks, peeks_all, reopens, run, step, summarizes, synchronizes,
}
use zediot_hub_connector.Queue.Expiry.{expire_cases}
use zediot_hub_connector.Queue.Invariant.{
  IsValid, acknowledge_through-IsValid, ensure_next_sequence_at_least-IsValid,
  expire_stale_queue-IsValid, initialize-IsValid, mark_delivery_attempted-IsValid,
  mark_pending_delivery_uncertain-IsValid, mark_reconciliation_queued-IsValid, next_of-initialize,
  synchronize-IsValid,
}
use zediot_hub_connector.Queue.Enqueue.{appended, enqueue_outcome, refused, refused-IsValid}

module _ {T : Type 0} where
  pub new-IsValid : (max_bytes max_age : ℕ) → IsValid {T = T} (new max_bytes max_age)
  unfolding new initialize insert_or_ignore next_of acknowledged_of metadata_int set_metadata
      total_bytes
  new-IsValid max_bytes max_age = ground arith

  -- The queued sequences are consecutive and end just below the next one.
  abbrev pub IsContiguous : Queue T → Type 0
  IsContiguous q = EndsAt (next_of q) q.rows

  expire-IsContiguous :
      (q : Queue T) (now : ℕ) → IsContiguous q → IsContiguous (expire_stale_queue q now)
  unfolding emptied
  expire-IsContiguous q now c = expire_cases IsContiguous q now (λ _. c) (λ _. tt)

  acknowledge_through-IsContiguous :
      (q : Queue T) (sequence : ℤ)
      → IsValid q
      → IsContiguous q
      → IsContiguous (acknowledge_through q sequence)
  unfolding acknowledge_through next_of metadata_int set_metadata
  acknowledge_through-IsContiguous q (negsuc n) v c = c
  acknowledge_through-IsContiguous q (pos s) v c = ground (
    arith,
    delete_through-EndsAt (next_of q) s q.rows c,
    delete_through_all s (next_of q) q.rows v.below,
  )

  synchronize-IsContiguous :
      (q : Queue T) (sequence : ℕ)
      → IsValid q
      → IsContiguous q
      → IsContiguous (synchronize q sequence).0
  unfolding synchronize next_of metadata_int set_metadata record_drop
  synchronize-IsContiguous q s v c = ground (
    arith,
    delete_through-EndsAt (next_of q) s q.rows c,
    EndsAt-max (next_of q) (delete_through s q.rows),
    length_zero (delete_through s q.rows),
  )

  initialize-IsContiguous : (q : Queue T) → IsContiguous q → IsContiguous (initialize q)
  unfolding initialize replay_row
  initialize-IsContiguous q c =
      rw (next_of-initialize q) (EndsAt-map replay_row (λ r. ground arith) _ q.rows c)

module _ (J : Json) where
  enqueue-IsValid :
      (q : Queue J.Encoded) (now : ℕ) (kind : String) (payload : J.Value)
      → IsValid q
      → IsValid (step J q (enqueues now kind payload))
  unfolding step
  enqueue-IsValid q now kind payload v =
      let w = expire_stale_queue-IsValid q now v in
      elim (enqueue_outcome J q now kind payload v) [
        | inl (_, r) ↦ rw (r, step) (refused-IsValid J _ now kind payload w)
        | inr (_, r, a) ↦ rw (r, step) a
      ]

  -- Every call keeps the queue valid.
  pub step-IsValid : (q : Queue J.Encoded) (c : Call J) → IsValid q → IsValid (step J q c)
  unfolding step peek peek_all summary synchronize_with_server_cursor
  step-IsValid q (enqueues now kind payload) v = enqueue-IsValid q now kind payload v
  step-IsValid q (peeks now kind limit) v = expire_stale_queue-IsValid q now v
  step-IsValid q (peeks_all now limit) v = expire_stale_queue-IsValid q now v
  step-IsValid q (summarizes now) v = expire_stale_queue-IsValid q now v
  step-IsValid q (marks_attempted now ss) v = mark_delivery_attempted-IsValid q now ss v
  step-IsValid q (marks_uncertain now) v = mark_pending_delivery_uncertain-IsValid q now v
  step-IsValid q (acknowledges s) v = acknowledge_through-IsValid q s v
  step-IsValid q (synchronizes (negsuc n)) v = v
  step-IsValid q (synchronizes (pos s)) v = synchronize-IsValid q s v
  step-IsValid q (ensures_next s) v = ensure_next_sequence_at_least-IsValid q s v
  step-IsValid q marks_reconciled v = mark_reconciliation_queued-IsValid q v
  step-IsValid q reopens v = initialize-IsValid q v

  run-IsValid : (q : Queue J.Encoded) (cs : List (Call J)) → IsValid q → IsValid (run J q cs)
  unfolding run
  run-IsValid q [] v = v
  run-IsValid q (c ∷ cs) v = run-IsValid (step J q c) cs (step-IsValid q c v)

  -- After any calls on a new queue the cursor lies below every queued sequence and these below the
  -- next one, the rows are in strict key order, and their sizes sum to at most the capacity.
  pub run-new-IsValid :
      (max_bytes max_age : ℕ) (cs : List (Call J)) → IsValid (run J (new max_bytes max_age) cs)
  run-new-IsValid max_bytes max_age cs = run-IsValid _ cs (new-IsValid max_bytes max_age)

  -- `ensure_next_sequence_at_least`, which nothing in the connector calls, is the one method that
  -- can leave a gap.
  abbrev pub IsUsed : Call J → Type 0
  IsUsed (ensures_next _) = ⊥
  IsUsed _ = Unit {0}

  enqueue-IsContiguous :
      (q : Queue J.Encoded) (now : ℕ) (kind : String) (payload : J.Value)
      → IsValid q
      → IsContiguous q
      → IsContiguous (step J q (enqueues now kind payload))
  unfolding step
  enqueue-IsContiguous q now kind payload v c =
      let e = expire_stale_queue q now in
      let d = expire-IsContiguous q now c in
      elim (enqueue_outcome J q now kind payload v) [
        | inl (_, r) ↦ rw (r, step) (refused-IsContiguous e d)
        | inr (_, r, a) ↦ rw (r, step) (appended-IsContiguous e d)
      ]
    where
      refused-IsContiguous :
          (e : Queue J.Encoded) → IsContiguous e → IsContiguous (refused J e now kind payload).0
      refused-IsContiguous e d = unfold next_of metadata_int set_metadata record_drop in d

      appended-IsContiguous :
          (e : Queue J.Encoded) → IsContiguous e → IsContiguous (appended J e now kind payload).0
      appended-IsContiguous e d =
          unfold next_of metadata_int set_metadata new_row in
          EndsAt-snoc (new_row J (next_of e) kind payload now) e.rows d

  step-IsContiguous :
      (q : Queue J.Encoded) (c : Call J)
      → IsUsed c
      → IsValid q
      → IsContiguous q
      → IsContiguous (step J q c)
  unfolding step peek peek_all summary synchronize_with_server_cursor mark_delivery_attempted
      mark_pending_delivery_uncertain mark_reconciliation_queued attempt_row uncertain_row
      replay_row next_of
  step-IsContiguous q (enqueues now kind payload) u v c =
      enqueue-IsContiguous q now kind payload v c
  step-IsContiguous q (peeks now kind limit) u v c = expire-IsContiguous q now c
  step-IsContiguous q (peeks_all now limit) u v c = expire-IsContiguous q now c
  step-IsContiguous q (summarizes now) u v c = expire-IsContiguous q now c
  step-IsContiguous q (marks_attempted now ss) u v c =
      EndsAt-map (attempt_row now ss) (λ r. ground arith) (next_of q) q.rows c
  step-IsContiguous q (marks_uncertain now) u v c =
      EndsAt-map (uncertain_row now) (λ r. refl) (next_of q) q.rows c
  step-IsContiguous q (acknowledges s) u v c = acknowledge_through-IsContiguous q s v c
  step-IsContiguous q (synchronizes (negsuc n)) u v c = c
  step-IsContiguous q (synchronizes (pos s)) u v c = synchronize-IsContiguous q s v c
  step-IsContiguous q (ensures_next s) u v c = absurd u
  step-IsContiguous q marks_reconciled u v c = unfold next_of metadata_int set_metadata in c
  step-IsContiguous q reopens u v c = initialize-IsContiguous q c

  run-IsContiguous :
      (q : Queue J.Encoded) (cs : List (Call J))
      → All IsUsed cs
      → IsValid q
      → IsContiguous q
      → IsContiguous (run J q cs)
  unfolding run
  run-IsContiguous q [] u v c = c
  run-IsContiguous q (call ∷ cs) u v c =
      run-IsContiguous (step J q call) cs u.1 (step-IsValid q call v)
        (step-IsContiguous q call u.0 v c)

  -- After any calls on a new queue other than `ensure_next_sequence_at_least` the queued sequences
  -- are consecutive and end just below the next one.
  pub run-new-IsContiguous :
      (max_bytes max_age : ℕ) (cs : List (Call J))
      → All IsUsed cs
      → IsContiguous (run J (new max_bytes max_age) cs)
  unfolding new initialize
  run-new-IsContiguous max_bytes max_age cs u =
      run-IsContiguous _ cs u (new-IsValid max_bytes max_age) tt
