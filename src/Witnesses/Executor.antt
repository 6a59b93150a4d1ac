-- ===== src/Witnesses/Executor.antt =====
-- A home whose world is its clock, in which every call is accepted and every light is on.
use zediot_hub_connector.Common.{
  [], arith, dec_le, none, refl, some, true, ℕ, ◌+◌, ◌∷◌, ◌≡◌, ◌≢◌, ◌≤◌, ◌⊎◌,
}
use zediot_hub_connector.Executor.{
  Delivery, Evidence, Home, Library, Machine, accepted, after_call, after_readback, after_reading,
  attempt, attempt_by, call_service, dispatch, err, execute, execute_valid, get_receipt,
  is_allowlisted, is_terminal, is_text, lookup, no_fuel, now, observed, ok, only_entity_id, poll,
  read_state, readback_confirmed, request, round, save_at, save_receipt, sleep, text,
  unless_expired, unless_terminal, validate_command_envelope, wait_for_readback,
}
use zediot_hub_connector.Executor.Effects.{IsAllowed, execute_calls}
use zediot_hub_connector.Executor.Termination.{IsClock, execute-Ends}
use zediot_hub_connector.Executor.Memory.{execute_again}
use zediot_hub_connector.Receipts.{
  Receipt, conflicts, cutoff_at, find, get, prune, receipt_of_row, row_of, save, upsert, write,
}

abbrev pub library : Library
library = record {
  Encoded = Evidence;
  dumps = λ e. e;
  loads = λ e. e;
  digest = λ e. e.entity_id;
  deadline = λ _. some 90_000_000;
}

abbrev pub home : Home
home = record {
  World = ℕ;
  now = λ w. (w, w + 1);
  call_service = λ w c. (accepted "r1", w + 10);
  read_entity_state = λ w entity_id. (observed "on", w + 5);
  sleep = λ w d. w + d;
}

abbrev home-IsClock : IsClock home
home-IsClock = record {
  time = λ w. w;
  now_reads = λ w. refl;
  now_time = λ w. omega arith;
  read_time = λ w entity_id. omega arith;
  sleep_time = λ w d. omega arith;
}

abbrev pub delivery : Delivery
delivery = record {
  command_id = "c1";
  idempotency_key = "k1";
  envelope = record {
    domain = "light";
    service = "turn_on";
    entity_id = "light.hall";
    service_data = ("entity_id", text "light.hall") ∷ [];
  };
  deadline_at = "1970-01-01T00:01:30+00:00";
}

abbrev pub machine : Machine library home
machine = record {
  receipts = record { retention_seconds = 60; rows = [] };
  world = 1_000_000;
  calls = [];
}

execute_calls_example :
    ((execute library home delivery machine).1.calls ≡ [])
    ⊎ (IsAllowed delivery.envelope
        × ((execute library home delivery machine).1.calls
            ≡ record { domain = "light"; service = "turn_on"; entity_id = "light.hall" } ∷ []))
execute_calls_example = execute_calls library home delivery machine

execute-Ends_example : (execute library home delivery machine).0 ≢ err no_fuel
execute-Ends_example = execute-Ends library home home-IsClock delivery machine

abbrev receipt : Receipt Evidence
receipt = record {
  command_id = "c1";
  idempotency_key = "k1";
  envelope_digest = "light.hall";
  status = "executed";
  reason_code = none;
  evidence = readback_confirmed "r1" true 1_000_022;
  updated_at = 1_000_024;
}

execute_light : (execute library home delivery machine).0 ≡ ok (some receipt)
unfolding execute execute_valid attempt attempt_by unless_expired dispatch after_call after_readback
    wait_for_readback poll round after_reading read_state save_receipt save_at save get prune find
    upsert conflicts write row_of receipt_of_row request call_service now get_receipt
    unless_terminal validate_command_envelope is_allowlisted lookup is_text only_entity_id
    is_terminal cutoff_at sleep dec_le
execute_light = refl

executed_is_terminal : is_terminal "executed" ≡ true
unfolding is_terminal
executed_is_terminal = refl

-- The same receipts in another world.
abbrev later : Machine library home
later = record {
  receipts = (execute library home delivery machine).1.receipts;
  world = 50_000_000;
  calls = [];
}

still_live : cutoff_at later.receipts 50_000_000 ≤ 1_000_024
unfolding execute execute_valid attempt attempt_by unless_expired dispatch after_call after_readback
    wait_for_readback poll round after_reading read_state save_receipt save_at save get prune find
    upsert conflicts write row_of receipt_of_row request call_service now get_receipt
    unless_terminal validate_command_envelope is_allowlisted lookup is_text only_entity_id
    is_terminal cutoff_at sleep dec_le
still_live = omega arith

execute_again_example :
    ((execute library home delivery later).0 ≡ ok (some receipt))
    × ((execute library home delivery later).1.calls ≡ [])
execute_again_example =
    execute_again library home delivery machine later tt execute_light executed_is_terminal refl
      still_live
