-- ===== src/Witnesses/Runtime.antt =====
-- A runtime with one event in its queue, in front of a server that fails twice.
use zediot_hub_connector.Reliability.{CircuitPermit}
use zediot_hub_connector.Common.{
  Option, String, [], arith, false, if◌then◌else◌, leb, none, pos, some, true, ℕ, ◌+◌, ◌<◌, ◌==◌,
  ◌∷◌, ◌≡◌, ◌⊎◌,
}
use zediot_hub_connector.Queue.{QueueItem, new, new_row}
use zediot_hub_connector.Reliability.Retry.{raised, returned}
use zediot_hub_connector.Runtime.Batch.{IsBatch, Rest, contiguous_events, contiguous_events-IsBatch}
use zediot_hub_connector.Runtime.State.{Config, Core, Keys, State, events, other_error, snapshot}
use zediot_hub_connector.Runtime.Flush.{flush_batch, flush_snapshot, last_sequence}
use zediot_hub_connector.Runtime.Sends.{AnyReplay, Sends, flush_batch-Sends, flush_snapshot-Sends}
use zediot_hub_connector.Witnesses.Queue.{numbers}

abbrev keys : Keys ℕ
keys = record {
  source_event_id = λ n. if n == 0 then none else some "e1";
  delivery_mode = λ _. none;
  is_replay = λ _. false;
}

abbrev event : ℕ → ℕ → QueueItem ℕ
event sequence payload = record {
  sequence = sequence;
  kind = "event";
  payload = payload;
  created_at = 0;
  byte_size = payload;
  delivery_attempts = 0;
  last_attempted_at = none;
  accepted = true;
  drop_reason = none;
}

contiguous_events-IsBatch_example :
    let batch = contiguous_events keys.source_event_id (event 3 0 ∷ event 4 1 ∷ event 5 1 ∷ []) in
    IsBatch keys.source_event_id 3 [] batch
    × Rest keys.source_event_id 3 [] batch (event 3 0 ∷ event 4 1 ∷ event 5 1 ∷ [])
contiguous_events-IsBatch_example =
    contiguous_events-IsBatch keys.source_event_id (event 3 0) (event 4 1 ∷ event 5 1 ∷ [])

-- The world counts the uploads.
abbrev core : Core ℕ
core = record {
  World = ℕ;
  now = λ w. (1_000_000, w);
  monotonic = λ w. (1, w);
  upload = λ w m. (if leb 2 w then returned (some (pos 1)) else raised other_error, w + 1);
  heartbeat = λ w. (returned tt, w);
  sleep = λ w d. w;
  random = λ _. 0;
}

abbrev settings : Config
settings = record { event_batch_size = 50; retry_max_attempts = 5; retry_base = 500 }

abbrev runtime : State ℕ ℕ ℕ
runtime = record {
  breaker = zediot_hub_connector.Reliability.new 3 60;
  queue = record (new 100 60) { rows = new_row numbers 1 "event" 4 0 ∷ [] };
  session = some ("state_uplink" ∷ []);
  cursor = pos 0;
  world = 0;
  sent = [];
}

abbrev permit : CircuitPermit
permit = record { generation = 0; half_open_probe = false }

flush_batch-Sends_example :
    Sends numbers keys core settings
      (λ replay. events 1 1 ((1, 4) ∷ []) replay)
      (AnyReplay keys (event 1 4 ∷ []))
      runtime
      (flush_batch numbers keys core settings permit (event 1 4 ∷ []) runtime).1
unfolding last_sequence
flush_batch-Sends_example =
    flush_batch-Sends numbers keys core settings (omega arith) permit (event 1 4) [] runtime

abbrev first_snapshot : QueueItem ℕ
first_snapshot = record (event 1 4) { kind = "snapshot"; delivery_attempts = 2 }

flush_snapshot-Sends_example :
    Sends numbers keys core settings
      (snapshot 1 4)
      ((◌≡◌ {A = Option String} none (some "replay")) ⊎ (0 < 2))
      runtime
      (flush_snapshot numbers keys core settings permit first_snapshot runtime).1
flush_snapshot-Sends_example =
    flush_snapshot-Sends numbers keys core settings (omega arith) permit first_snapshot runtime
