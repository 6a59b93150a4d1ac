-- ===== src/Queue/Step.antt =====
-- The calls that the connector makes on its queue, as steps.
use zediot_hub_connector.Common.{ℕ, String, none, some, List, [], ◌∷◌, ℤ}
use zediot_hub_connector.Queue.{
  Json, Queue, enqueue, peek, peek_all, summary, mark_delivery_attempted,
  mark_pending_delivery_uncertain, acknowledge_through, synchronize_with_server_cursor,
  ensure_next_sequence_at_least, mark_reconciliation_queued, initialize,
}

module _ (J : Json) where
  pub data Call : Type 0 where
    enqueues : ℕ → String → J.Value → Call
    peeks : ℕ → String → ℕ → Call
    peeks_all : ℕ → ℕ → Call
    summarizes : ℕ → Call
    marks_attempted : ℕ → List ℕ → Call
    marks_uncertain : ℕ → Call
    acknowledges : ℤ → Call
    synchronizes : ℤ → Call
    ensures_next : ℕ → Call
    marks_reconciled : Call
    reopens : Call

  -- A call that raises rolls back.
  unfoldable pub step : Queue J.Encoded → Call → Queue J.Encoded
  step q (enqueues now kind payload) = elim (enqueue J q now kind payload) [
    | none ↦ q
    | some (q', _) ↦ q'
  ]
  step q (peeks now kind limit) = (peek J q now kind limit).0
  step q (peeks_all now limit) = (peek_all J q now limit).0
  step q (summarizes now) = (summary q now).0
  step q (marks_attempted now sequences) = mark_delivery_attempted q now sequences
  step q (marks_uncertain now) = mark_pending_delivery_uncertain q now
  step q (acknowledges sequence) = acknowledge_through q sequence
  step q (synchronizes sequence) = elim (synchronize_with_server_cursor q sequence) [
    | none ↦ q
    | some (q', _) ↦ q'
  ]
  step q (ensures_next sequence) = ensure_next_sequence_at_least q sequence
  step q marks_reconciled = mark_reconciliation_queued q
  step q reopens = initialize q

  unfoldable pub run : Queue J.Encoded → List Call → Queue J.Encoded
  run q [] = q
  run q (c ∷ cs) = run (step q c) cs
