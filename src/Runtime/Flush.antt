-- ===== src/Runtime/Flush.antt =====
-- `flush_once`, `_complete_half_open_probe` and `heartbeat` of runtime.py.
use zediot_hub_connector.Common.{
  Bool, List, Option, String, [], false, if◌then◌else◌, ltb, map, max, mem_text, none, not, some,
  true, ℕ, ℤ, ◌&&◌, ◌+◌, ◌=ₛ◌, ◌||◌, ◌∷◌,
}
use zediot_hub_connector.Queue.{
  Json, QueueItem, acknowledge_through, mark_delivery_attempted, mark_pending_delivery_uncertain,
  peek_all, summary,
}
use zediot_hub_connector.Reliability.{CircuitPermit, allow, failure, success}
use zediot_hub_connector.Reliability.Retry.{
  Ending, Outcome, failed, finished, invalid_attempts, raised, retry_bounded, returned, unreachable,
}
use zediot_hub_connector.Runtime.State.{
  Config, Core, CoreError, Keys, State, Upload, events, other_error, session_invalid, snapshot,
}
use zediot_hub_connector.Runtime.Batch.{contiguous_events}

-- How `flush_once` ends: with its Boolean, or with an exception, the last being that of a batch, of
-- the settings or of a cursor that is no number.
pub data Flushed : Type 0 where
  returns : Bool → Flushed
  not_ready : Flushed
  core_raised : CoreError → Flushed
  value_error : Flushed

-- `_retryable_core_error`
unfoldable pub retryable_core_error : CoreError → Bool
retryable_core_error session_invalid = false
retryable_core_error other_error = true

unfoldable pub is_replay_text : Option String → Bool
is_replay_text none = false
is_replay_text (some mode) = mode =ₛ "replay"

module _ {V : Type 0} (K : Keys V) where
  -- `any(…)` over the events of a batch.
  unfoldable pub any_replay : List (QueueItem V) → Bool
  unfolding is_replay_text
  any_replay [] = false
  any_replay (i ∷ items) =
      (is_replay_text (K.delivery_mode i.payload) || K.is_replay i.payload) || any_replay items

unfoldable pub max_attempts_of : {V : Type 0} → List (QueueItem V) → ℕ
max_attempts_of [] = 0
max_attempts_of (i ∷ items) = max i.delivery_attempts (max_attempts_of items)

unfoldable pub sequences_of : {V : Type 0} → List (QueueItem V) → List ℕ
sequences_of = map (λ i. i.sequence)

unfoldable pub last_sequence : {V : Type 0} → ℕ → List (QueueItem V) → ℕ
last_sequence n [] = n
last_sequence n (i ∷ items) = last_sequence i.sequence items

module _ (J : Json) (K : Keys J.Value) (C : Core J.Value) (config : Config) where
  abbrev pub Runtime : Type 0
  Runtime = State J.Encoded J.Value C.World

  -- The `try` round the upload: a failure makes every pending row uncertain.
  unfoldable pub after_upload :
      Outcome (Option ℤ) CoreError → Runtime → ℕ → Outcome (Option ℤ) CoreError × (Runtime × ℕ)
  after_upload (returned c) s attempt = (returned c, (s, attempt + 1))
  after_upload (raised e) s attempt =
      let (t, w) = C.now s.world in
      (
        raised e,
        (record s { queue = mark_pending_delivery_uncertain s.queue t; world = w }, attempt + 1),
      )

  -- The runtime with the attempt recorded and the message sent.
  unfoldable pub transmit :
      Upload J.Value → List ℕ → Runtime → Outcome (Option ℤ) CoreError × Runtime
  transmit message sequences s =
      let (t, w) = C.now s.world in
      let (r, w') = C.upload w message in
      (
        r,
        record s {
          queue = mark_delivery_attempted s.queue t sequences;
          world = w';
          sent = message ∷ s.sent;
        },
      )

  -- `upload_snapshot` and `upload_events`: the local `attempt` stands beside the runtime. `make`
  -- builds the message from the test `queued_as_replay or attempt > 0`.
  unfoldable pub upload_once :
      (Bool → Upload J.Value)
      → List ℕ
      → Bool
      → Runtime × ℕ
      → Outcome (Option ℤ) CoreError × (Runtime × ℕ)
  unfolding transmit after_upload
  upload_once make sequences queued_as_replay (s, attempt) =
      let (r, s') = transmit (make (queued_as_replay || ltb 0 attempt)) sequences s in
      after_upload r s' attempt

  unfoldable pub sleep_for : ℕ → Runtime × ℕ → Runtime × ℕ
  sleep_for d (s, attempt) = (record s { world = C.sleep s.world d }, attempt)

  unfoldable pub deliver :
      (Bool → Upload J.Value)
      → List ℕ
      → Bool
      → Runtime × ℕ
      → Ending (Option ℤ) CoreError × (Runtime × ℕ)
  deliver make sequences queued_as_replay =
      retry_bounded (upload_once make sequences queued_as_replay) retryable_core_error sleep_for
        C.random config.retry_max_attempts config.retry_base

  -- `self.breaker.failure()` in an exception handler.
  unfoldable pub record_failure : Runtime → Runtime
  record_failure s =
      let (t, w) = C.monotonic s.world in record s { breaker = failure s.breaker t; world = w }

  -- The end of the `try` in `flush_once`, and its handler.
  unfoldable pub conclude :
      CircuitPermit → Ending (Option ℤ) CoreError × (Runtime × ℕ) → Flushed × Runtime
  unfolding record_failure
  conclude permit (finished none, (s, _)) = (value_error, record_failure s)
  conclude permit (finished (some c), (s, _)) = (
    returns true,
    record s {
      queue = acknowledge_through s.queue c;
      cursor = c;
      breaker = (success s.breaker permit).0;
    },
  )
  conclude permit (failed e, (s, _)) = (core_raised e, record_failure s)
  conclude permit (invalid_attempts, (s, _)) = (value_error, record_failure s)
  conclude permit (unreachable, (s, _)) = (value_error, record_failure s)

  -- `heartbeat`: the summary of the queue, which expires it, goes with the request.
  unfoldable pub heartbeat : Runtime → Outcome (Unit {0}) CoreError × Runtime
  heartbeat s =
      let (t, w) = C.now s.world in
      let (r, w') = C.heartbeat w in (r, record s { queue = (summary s.queue t).0; world = w' })

  -- `_complete_half_open_probe`, and the `return False` behind its calls.
  unfoldable pub complete_half_open_probe : CircuitPermit → Runtime → Flushed × Runtime
  unfolding heartbeat record_failure
  complete_half_open_probe permit s =
      if not permit.half_open_probe
      then (returns false, s)
      else let (r, s') = heartbeat s in
        elim r [
          | returned _ ↦ (returns false, record s' { breaker = (success s'.breaker permit).0 })
          | raised e ↦ (core_raised e, record_failure s')
        ]

  unfoldable pub snapshot_make : QueueItem J.Value → Bool → Upload J.Value
  snapshot_make first replay = snapshot first.sequence first.payload replay

  unfoldable pub events_make : List (QueueItem J.Value) → ℕ → Bool → Upload J.Value
  events_make batch start replay =
      events start (last_sequence start batch) (map (λ i. (i.sequence, i.payload)) batch) replay

  -- The two uploads of `flush_once`.
  unfoldable pub flush_snapshot : CircuitPermit → QueueItem J.Value → Runtime → Flushed × Runtime
  unfolding deliver conclude snapshot_make
  flush_snapshot permit first s = conclude permit (
      deliver (snapshot_make first) (first.sequence ∷ [])
        (is_replay_text (K.delivery_mode first.payload)) (s, first.delivery_attempts))

  -- `max()` of an empty batch raises.
  unfoldable pub flush_batch :
      CircuitPermit → List (QueueItem J.Value) → Runtime → Flushed × Runtime
  unfolding deliver conclude events_make
  flush_batch permit [] s = (value_error, record_failure s)
  flush_batch permit (b ∷ batch) s = conclude permit (
      deliver (events_make (b ∷ batch) b.sequence) (sequences_of (b ∷ batch))
        (any_replay K (b ∷ batch)) (s, max_attempts_of (b ∷ batch)))

  unfoldable pub flush_events :
      CircuitPermit → QueueItem J.Value → List (QueueItem J.Value) → Runtime → Flushed × Runtime
  unfolding flush_batch
  flush_events permit first items s =
      flush_batch permit (contiguous_events K.source_event_id (first ∷ items)) s

  -- `flush_once` once the items are read.
  unfoldable pub flush_items :
      CircuitPermit → List String → List (QueueItem J.Value) → Runtime → Flushed × Runtime
  unfolding flush_snapshot flush_events complete_half_open_probe
  flush_items permit grants [] s = complete_half_open_probe permit s
  flush_items permit grants (first ∷ items) s =
      if first.kind =ₛ "snapshot" && not (mem_text "inventory_read" grants)
      then complete_half_open_probe permit s
      else if first.kind =ₛ "event" && not (mem_text "state_uplink" grants)
      then complete_half_open_probe permit s
      else if first.kind =ₛ "snapshot"
      then flush_snapshot permit first s
      else flush_events permit first items s

  unfoldable pub flush_permitted : Option CircuitPermit → Runtime → Flushed × Runtime
  unfolding flush_items record_failure
  flush_permitted none s = (returns false, s)
  flush_permitted (some permit) s = elim s.session [
    | none ↦ (not_ready, record_failure s)
    | some grants ↦
        let (t, w) = C.now s.world in
        let (q, items) = peek_all J s.queue t config.event_batch_size in
        flush_items permit grants items (record s { queue = q; world = w })
  ]

  unfoldable pub flush_once : Runtime → Flushed × Runtime
  unfolding flush_permitted
  flush_once s =
      let (t, w) = C.monotonic s.world in
      let (b, permit) = allow s.breaker t in
      flush_permitted permit (record s { breaker = b; world = w })
