-- ===== src/Witnesses/Intake.antt =====
-- A hub whose queue has refused an event, and a core that is away for a while.
use zediot_hub_connector.Common.{
  All, List, [], false, length, max, pos, refl, some, true, ℕ, ◌++◌, ◌+◌, ◌∷◌, ◌≡◌, ◌≤◌,
}
use zediot_hub_connector.Queue.{
  Queue, enqueue, enqueue_fresh, expire_stale_queue, expired, initialize, insert_or_ignore,
  metadata_int, needs_reconciliation, new, next_of, overflows, record_drop, rejected_item,
  set_metadata, total_bytes,
}
use zediot_hub_connector.Queue.Step.{Call, enqueues, run, step}
use zediot_hub_connector.Queue.History.{run-new-IsValid}
use zediot_hub_connector.Runtime.State.{State}
use zediot_hub_connector.Runtime.Intake.{Source, enqueue_reconciliation_if_needed}
use zediot_hub_connector.Runtime.Reconciliation.{Served, reconciliation-Served}
use zediot_hub_connector.Runtime.Waiting.{
  Attempt, IsTransient, call_returns, call_while_core_unavailable, completed,
  core_temporarily_unavailable, done, faulted, status, transport,
}
use zediot_hub_connector.Witnesses.Queue.{numbers}

abbrev source : Source ℕ
source = record {
  World = ℕ;
  now = λ w. (2_000_000, w);
  collect = λ w run_type. (some 6, w + 1);
  as_replay = λ v. v;
}

abbrev too_large : List (Call numbers)
too_large = enqueues 1_000_000 "event" 11 ∷ []

abbrev dropping : Queue ℕ
dropping = run numbers (new 10 60) too_large

dropping_needs : needs_reconciliation dropping ≡ true
unfolding needs_reconciliation run step enqueue enqueue_fresh expire_stale_queue expired new
    initialize insert_or_ignore next_of metadata_int set_metadata overflows total_bytes
    rejected_item record_drop
dropping_needs = refl

abbrev hub : State ℕ ℕ ℕ
hub = record {
  breaker = zediot_hub_connector.Reliability.new 3 60;
  queue = dropping;
  session = some ("inventory_read" ∷ []);
  cursor = pos 0;
  world = 0;
  sent = [];
}

reconciliation-Served_example : Served (enqueue_reconciliation_if_needed numbers source false hub)
reconciliation-Served_example =
    reconciliation-Served numbers source hub false (run-new-IsValid numbers 10 60 too_large)
      dropping_needs

abbrev away : List (Attempt ℕ)
away = faulted transport false ∷ faulted (status 503) false ∷ []

away-IsTransient : All IsTransient away
unfolding core_temporarily_unavailable
away-IsTransient = ((refl, refl), ((refl, refl), tt))

call_returns_example :
    let (waits, ended) = call_while_core_unavailable 5_000 (away ++ done 7 ∷ []) in
    (ended ≡ completed 7) × (length waits ≡ 2) × All (λ w. w ≤ max 5_000 60_000) waits
call_returns_example = call_returns 5_000 away [] 7 away-IsTransient
