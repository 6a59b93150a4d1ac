-- ===== src/Runtime/Reconciliation.antt =====
-- A request for reconciliation is not lost by runtime.py.
use zediot_hub_connector.Common.{
  Bool, Bool-cases, List, Option, String, [], if◌then◌else◌, inl, inr, none, not, refl, some, true,
  ℕ, ◌++◌, ◌∷◌, ◌≡◌, ◌⊎◌,
}
use zediot_hub_connector.Queue.{
  Json, Queue, QueueItem, Row, enqueue, expire_stale_queue, mark_reconciliation_queued,
  metadata_int, needs_reconciliation, new_item, new_row, next_of, record_drop, rejected_item,
  set_metadata,
}
use zediot_hub_connector.Queue.Invariant.{IsValid}
use zediot_hub_connector.Queue.Enqueue.{enqueue_outcome, refused}
use zediot_hub_connector.Reliability.{current_state}
use zediot_hub_connector.Runtime.State.{State}
use zediot_hub_connector.Runtime.Intake.{
  Hub, Intake, Reconciled, Source, after_snapshot, answered, enqueue_payload,
  enqueue_reconciliation_if_needed, enqueue_snapshot, is_closed, not_collected, queued,
  session_refuses,
}

-- The queue ends with a snapshot.
abbrev pub EndsWithSnapshot : {T : Type 0} → Queue T → Type 0
EndsWithSnapshot {T} q =
    (rows : List (Row T)) × (last : Row T) × (q.rows ≡ rows ++ last ∷ []) × (last.kind ≡ "snapshot")

-- The request is still there, or a snapshot has been queued and `True` returned.
abbrev pub Served : {T V W : Type 0} → Reconciled × State T V W → Type 0
Served (r, s) =
    (needs_reconciliation s.queue ≡ true) ⊎ ((r ≡ answered true) × EndsWithSnapshot s.queue)

module _ (J : Json) (S : Source J.Value) where
  refused_needs :
      (q : Queue J.Encoded) (now : ℕ) (kind : String) (payload : J.Value)
      → needs_reconciliation (refused J q now kind payload).0 ≡ true
  unfolding needs_reconciliation record_drop metadata_int set_metadata
  refused_needs q now kind payload = refl

  enqueue_payload-some :
      (s : Hub J S) (payload : J.Value) {q : Queue J.Encoded} {item : QueueItem J.Value}
      → enqueue J s.queue (S.now s.world).0 "snapshot" payload ≡ some (q, item)
      → enqueue_payload J S s payload
        ≡ (queued item, record s { queue = q; world = (S.now s.world).1 })
  unfolding enqueue_payload
  enqueue_payload-some s payload e = rw (enqueue_payload, e) refl

  payload-Served :
      (s : Hub J S) (payload : J.Value)
      → IsValid s.queue
      → let p = enqueue_payload J S s payload in Served (after_snapshot J S true p.0 p.1)
  unfolding after_snapshot rejected_item new_item mark_reconciliation_queued new_row
  payload-Served s payload v =
      let (t, w) = S.now s.world in
      let e = expire_stale_queue s.queue t in
      elim (enqueue_outcome J s.queue t "snapshot" payload v) [
        | inl (_, r) ↦
            rw (enqueue_payload-some s payload r) (inl (refused_needs e t "snapshot" payload))
        | inr (_, r, _) ↦
            rw (enqueue_payload-some s payload r)
              (inr (refl, (e.rows, new_row J (next_of e) "snapshot" payload t, refl, refl)))
      ]

  enqueue_snapshot_cases :
      (s : Hub J S) (P : Intake J.Value × Hub J S → Type 0)
      → ((w : S.World) → P (not_collected, record s { world = w }))
      → ((w : S.World) (payload : J.Value)
          → P (enqueue_payload J S (record s { world = w }) payload))
      → P (enqueue_snapshot J S "reconciliation" s)
  unfolding enqueue_snapshot
  enqueue_snapshot_cases s P missed taken =
      let (o, w) = S.collect s.world "reconciliation" in go o w
    where
      go :
          (o : Option J.Value) (w : S.World)
          → P (elim o as (λ _. Intake J.Value × Hub J S) [
            | none ↦ (not_collected, record s { world = w })
            | some payload ↦
                enqueue_payload J S
                  (record s { world = w })
                  (if not (is_closed (current_state s.breaker))
                    then S.as_replay payload
                    else payload)
          ])
      go none w = missed w
      go (some payload) w = taken w _

  snapshot-Served :
      (s : Hub J S)
      → IsValid s.queue
      → needs_reconciliation s.queue ≡ true
      → let p = enqueue_snapshot J S "reconciliation" s in Served (after_snapshot J S true p.0 p.1)
  unfolding after_snapshot
  snapshot-Served s v h =
      enqueue_snapshot_cases s (λ p. Served (after_snapshot J S true p.0 p.1)) (λ w. inl h)
        (λ w payload. payload-Served (record s { world = w }) payload v)

  -- If a reconciliation is required of a valid queue, then after an
  -- `enqueue_reconciliation_if_needed` it is still required, or the call has returned true and the
  -- queue ends with a snapshot.
  pub reconciliation-Served :
      (s : Hub J S) (force : Bool)
      → IsValid s.queue
      → needs_reconciliation s.queue ≡ true
      → Served (enqueue_reconciliation_if_needed J S force s)
  unfolding enqueue_reconciliation_if_needed
  reconciliation-Served s force v h =
      elim (Bool-cases (session_refuses "inventory_read" s.session)) [
        | inl refuses ↦ rw refuses (inl h)
        | inr allows_it ↦ elim (Bool-cases force) [
          | inl forced ↦ rw (allows_it, h, forced) (snapshot-Served s v h)
          | inr plain ↦ rw (allows_it, h, plain) (snapshot-Served s v h)
        ]
      ]
