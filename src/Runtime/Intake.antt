-- ===== src/Runtime/Intake.antt =====
-- `enqueue_snapshot`, `_try_bootstrap_snapshot` and `enqueue_reconciliation_if_needed` of
-- runtime.py.
use zediot_hub_connector.Common.{
  Bool, List, Option, String, false, if◌then◌else◌, mem_text, none, not, some, true, ℕ, ◌&&◌,
}
use zediot_hub_connector.Queue.{
  Json, QueueItem, enqueue, mark_reconciliation_queued, needs_reconciliation,
}
use zediot_hub_connector.Reliability.{CircuitState, closed, current_state}
use zediot_hub_connector.Runtime.State.{State}

-- The clock; `collect_snapshot` with `build_snapshot_uplink` for a run type, which may raise; and
-- `payload["delivery_mode"] = "replay"`.
pub record Source (V : Type 0) : Type 1 where
  pub World : Type 0
  pub now : World → ℕ × World
  pub collect : World → String → Option V × World
  pub as_replay : V → V

abbrev pub is_closed : CircuitState → Bool
is_closed closed = true
is_closed _ = false

-- How `enqueue_snapshot` ends; the last is an `IntegrityError` of the queue.
pub data Intake (V : Type 0) : Type 0 where
  queued : QueueItem V → Intake V
  not_collected : Intake V
  not_inserted : Intake V

pub data Reconciled : Type 0 where
  answered : Bool → Reconciled
  snapshot_raised : Reconciled

-- `self.session and not self.session.allows(…)`
unfoldable pub session_refuses : String → Option (List String) → Bool
session_refuses grant none = false
session_refuses grant (some grants) = not (mem_text grant grants)

module _ (J : Json) (S : Source J.Value) where
  abbrev pub Hub : Type 0
  Hub = State J.Encoded J.Value S.World

  -- `self.queue.enqueue(kind="snapshot", …)`
  unfoldable pub enqueue_payload : Hub → J.Value → Intake J.Value × Hub
  enqueue_payload s payload =
      let (t, w) = S.now s.world in
      elim (enqueue J s.queue t "snapshot" payload) [
        | none ↦ (not_inserted, record s { world = w })
        | some (q, item) ↦ (queued item, record s { queue = q; world = w })
      ]

  unfoldable pub enqueue_snapshot : String → Hub → Intake J.Value × Hub
  unfolding enqueue_payload
  enqueue_snapshot run_type s =
      let (collected, w) = S.collect s.world run_type in
      elim collected [
        | none ↦ (not_collected, record s { world = w })
        | some payload ↦
            enqueue_payload (record s { world = w })
              (if not (is_closed (current_state s.breaker)) then S.as_replay payload else payload)
      ]

  -- `_try_bootstrap_snapshot`: the result, which tells whether no snapshot is pending any more.
  unfoldable pub try_bootstrap_snapshot : Hub → Bool × Hub
  unfolding enqueue_snapshot
  try_bootstrap_snapshot s =
      let (r, s') = enqueue_snapshot "bootstrap" s in
      elim r [ queued _ ↦ (true, s') | not_collected ↦ (false, s') | not_inserted ↦ (false, s') ]

  -- `enqueue_reconciliation_if_needed` behind its snapshot.
  unfoldable pub after_snapshot : Bool → Intake J.Value → Hub → Reconciled × Hub
  after_snapshot required (queued item) s =
      if not item.accepted
      then (answered false, s)
      else if required
      then (answered true, record s { queue = mark_reconciliation_queued s.queue })
      else (answered true, s)
  after_snapshot required not_collected s = (snapshot_raised, s)
  after_snapshot required not_inserted s = (snapshot_raised, s)

  unfoldable pub enqueue_reconciliation_if_needed : Bool → Hub → Reconciled × Hub
  unfolding after_snapshot enqueue_snapshot session_refuses
  enqueue_reconciliation_if_needed force s =
      let required = needs_reconciliation s.queue in
      let (r, s') = enqueue_snapshot "reconciliation" s in
      if session_refuses "inventory_read" s.session
      then (answered false, s)
      else if not force && not required
      then (answered false, s)
      else after_snapshot required r s'
