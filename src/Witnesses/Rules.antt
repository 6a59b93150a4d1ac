-- ===== src/Witnesses/Rules.antt =====
-- A rule package with one action, tools that take a text as its own hash and signature, and a store
-- that keeps values as they are.
use zediot_hub_connector.Common.{
  List, Option, String, [], arith, none, refl, some, true, ℕ, ◌+◌, ◌=ₛ◌, ◌∷◌, ◌≡◌,
}
use zediot_hub_connector.Queue.{Json, Queue, expired, new}
use zediot_hub_connector.EventIdentity.{Change}
use zediot_hub_connector.Executor.World.{Home, accepted, missing}
use zediot_hub_connector.Condition.Documents.{
  Document, Entries, array, boolean, element, entry, get, has, no_entry, no_more, number, object,
  string, truthy,
}
use zediot_hub_connector.RuleStore.{
  PackageRow, active_documents, apply_control, find_execution, has_package, order_by, where_,
}
use zediot_hub_connector.RulePackage.{
  Tools, VerifiedRulePackage, agrees, dict_of, entries_of, entries_safe, first_error, hash_of,
  id_of, is_boolean, is_dict, is_text, key_untrusted, metadata_agrees, text_of,
}
use zediot_hub_connector.RulePackage.Plan.{
  action_checks, action_safe, action_valid, actions_valid, binding_valid, element_count,
  elements_of, plan_checks,
}
use zediot_hub_connector.RulePackage.Trust.{
  all_checks, as_document, delivery_checks, is_some, not_ahead, not_expired, or_zero, package_of,
  rejected, stored_delivery, time_checks, trust_checks, verified, verify_rule_package_delivery,
  verify_stored_rule_package,
}
use zediot_hub_connector.RulePackage.Accepted.{stored-verified}
use zediot_hub_connector.RuleRuntime.{Event, Evidence, Hooks, Machine}
use zediot_hub_connector.RuleRuntime.Events.{Clock, execute_rule, process_event}
use zediot_hub_connector.RuleRuntime.Lights.{CallsLights, process_event-CallsLights}
use zediot_hub_connector.RuleRuntime.Once.{execute_rule-once}
use zediot_hub_connector.Runtime.Events.{
  EventClock, EventHub, Refuses, at_first, enqueue_event, enqueue_event-blocked, event_raised,
}
use zediot_hub_connector.Runtime.Rules.{add_progress, apply_controls, progressed}
use zediot_hub_connector.Runtime.Rules.Controls.{apply_controls-again}
use zediot_hub_connector.Witnesses.Condition.{naturals}

abbrev time_of : Document naturals → Option ℕ
time_of (number n) = some n
time_of _ = none

abbrev tools : Tools naturals
tools = record {
  canonical = λ payload. "payload";
  sha256 = λ s. s;
  verifies = λ pem signature text. signature =ₛ text;
  parse_time = time_of;
  normalize = λ s. s;
  same = λ a b. true;
  str_of = λ d. "?";
}

abbrev binding : Entries naturals
binding = entry "provider_event_type" (string "state_changed") (
    entry "provider_entity_id" (string "sensor.door") (
      entry "canonical_event_type" (string "latest_state.changed")
        (entry "target_id" (string "door") no_entry)))

abbrev action : Entries naturals
action = entry "action_type" (string "device_command") (
    entry "provider_domain" (string "light") (
      entry "provider_service" (string "turn_on") (
        entry "provider_entity_id" (string "light.hall") (
          entry "canonical_capability" (string "light.power") (
            entry "template_code" (string "set_light_power") (
              entry "value" (boolean true) (
                entry "command_safety_evidence"
                  (object (
                    entry "reviewed" (boolean true)
                      (entry "risk_class" (string "non_destructive") no_entry)))
                  no_entry)))))))

abbrev payload : Entries naturals
payload = entry "package_version" (string "1.0") (
    entry "runtime_version" (string "zediot-ha-rule-runtime-v1") (
      entry "profile_key" (string "home_assistant") (
        entry "integration_instance_id" (string "i1") (
          entry "deployment_id" (string "d1") (
            entry "version_id" (string "v1") (
              entry "rule_id" (string "r1") (
                entry "version_no" (number 1) (
                  entry "rule" (object no_entry) (
                    entry "issued_at" (number 0) (
                      entry "valid_until" (number 100) (
                        entry "runtime_plan"
                          (object (
                            entry "runtime" (string "home_assistant") (
                              entry "runtime_version" (string "zediot-ha-rule-runtime-v1") (
                                entry "event_binding" (object binding) (
                                  entry "actions" (array (element (object action) no_more))
                                    no_entry)))))
                          no_entry)))))))))))

abbrev accepted_package : VerifiedRulePackage naturals
accepted_package = record {
  package_id = "rpkg_payload";
  package_hash = "payload";
  signature = "payload";
  signature_key_id = "k1";
  signing_public_key_pem = "pem";
  payload = payload;
  valid_until = 100;
}

abbrev delivery : Entries naturals
delivery = entry "rule_id" (string "r1") (as_document accepted_package)

is_accepted :
    verify_rule_package_delivery tools "i1" ("k1" ∷ []) 5 delivery ≡ verified accepted_package
unfolding verify_rule_package_delivery all_checks delivery_checks trust_checks time_checks
    package_of plan_checks action_checks action_valid action_safe binding_valid actions_valid
    element_count elements_of first_error entries_of is_dict dict_of is_text text_of is_boolean
    entries_safe metadata_agrees agrees has get truthy hash_of id_of not_ahead not_expired is_some
    or_zero as_document
is_accepted = refl

stored-verified_example :
    verify_stored_rule_package tools "i1" ("k1" ∷ []) 60 (as_document accepted_package)
    ≡ verified accepted_package
stored-verified_example =
    stored-verified tools "i1" ("k1" ∷ []) 5 60 delivery accepted_package is_accepted (omega arith)
      (omega arith)

-- What the store keeps: a document or an evidence.
pub data Kept : Type 0 where
  document : Entries naturals → Kept
  evidence : Evidence naturals → Kept

abbrev entries_kept : Kept → Entries naturals
entries_kept (document d) = d
entries_kept (evidence e) = no_entry

abbrev pub json : Json
json = record { Value = Kept; Encoded = Kept; dumps = λ v. v; loads = λ v. v; byte_length = λ v. 1 }

abbrev pub hooks : Hooks naturals json
hooks = record {
  tools = tools;
  strip = λ s. s;
  parse_float = λ s. none;
  parse_int = λ d. some 1;
  isoformat = λ n. "now";
  document_of = entries_kept;
  encode = evidence;
  text_before = λ a b. true;
}

abbrev home : Home
home = record {
  World = ℕ;
  now = λ w. (w, w);
  call_service = λ w call. (accepted "req", w + 1);
  read_entity_state = λ w entity_id. (missing, w);
  sleep = λ w ms. w + ms;
}

abbrev shown : ℕ → String
shown n = "0"

abbrev clock : Clock
clock = record {
  verified_at = 5;
  evaluated_at = 5;
  executed_at = 5;
  reserved_at = 5;
  reserve_pruned_at = 5;
  finalized_at = 5;
  finalize_pruned_at = 5;
}

abbrev stored_row : PackageRow Kept
stored_row = record {
  package_id = "rpkg_payload";
  rule_id = "r1";
  package_hash = "payload";
  document_json = document (as_document accepted_package);
  valid_until = 100;
  updated_at = 5;
}

abbrev machine : Machine json ℕ
machine = record {
  store = record {
    evidence_max_rows = 10;
    evidence_retention_seconds = 60;
    packages = stored_row ∷ [];
    executions = [];
  };
  world = 0;
  calls = [];
}

abbrev change : Change
change = record {
  event_context = some "ctx";
  state_context = none;
  entity_id = "sensor.door";
  state = "on";
  state_last_updated = "t1";
  time_fired = "t1";
}

abbrev pub event : Event
event = record { change = change; event_time = some 4 }

process_event-CallsLights_example :
    CallsLights hooks home shown
      (process_event hooks home shown "i1" ("k1" ∷ []) event "connected" 5 (λ n. clock) machine).1
process_event-CallsLights_example =
    process_event-CallsLights hooks home shown "i1" ("k1" ∷ []) event "connected" 5 (λ n. clock)
      machine tt

execute_rule-once_example :
    let m' =
      (execute_rule hooks home shown accepted_package "ha:1" change 4 "connected" clock
        machine).1 in
    (execute_rule hooks home shown accepted_package "ha:1" change 4 "offline" clock m').1.calls
    ≡ m'.calls
unfolding find_execution
execute_rule-once_example =
    execute_rule-once hooks home shown accepted_package "ha:1" change 4 "connected" "offline" clock
      clock machine refl (omega arith)

-- A key that the settings no longer name.
abbrev site : EventHub json ℕ
site = record {
  breaker = zediot_hub_connector.Reliability.new 3 60;
  queue = zediot_hub_connector.Queue.new 10 60;
  session = some ("state_uplink" ∷ "local_rule_runtime" ∷ []);
  has_rules = true;
  machine = machine;
}

abbrev event_clock : EventClock
event_clock = record { documents_at = 5; rule_clock = λ n. clock; queued_at = 5 }

is_rejected :
    verify_stored_rule_package tools "i1" ("k2" ∷ []) 5 (as_document accepted_package)
    ≡ rejected key_untrusted
unfolding verify_stored_rule_package stored_delivery verify_rule_package_delivery all_checks
    delivery_checks trust_checks time_checks package_of plan_checks action_checks first_error
    entries_of is_dict dict_of is_text text_of entries_safe metadata_agrees agrees has get hash_of
    id_of as_document
is_rejected = refl

is_refused :
    Refuses json hooks home shown
      (λ e id replay. document no_entry)
      "i1"
      ("k2" ∷ [])
      (λ n. clock)
      0
      (active_documents json (λ a b. true) machine.store 5).1
unfolding active_documents where_ order_by
is_refused = at_first is_rejected

enqueue_event-blocked_example :
    let (r, s') =
      enqueue_event json hooks home shown
        (λ e id replay. document no_entry)
        "i1"
        ("k2" ∷ [])
        true
        event
        event_clock
        site in
    (r ≡ event_raised) × (s'.queue ≡ site.queue)
enqueue_event-blocked_example =
    enqueue_event-blocked json hooks home shown (λ e id replay. document no_entry) "i1" ("k2" ∷ [])
      true event event_clock site refl is_refused

abbrev controls : List (String × String)
controls = ("revoked", "rpkg_payload") ∷ ("expired", "rpkg_other") ∷ []

controls_worked_off : (apply_controls controls machine.store).0 ≡ progressed 1
unfolding apply_controls apply_control add_progress has_package where_
controls_worked_off = refl

apply_controls-again_example :
    let s' = (apply_controls controls machine.store).1 in
    apply_controls controls s' ≡ (progressed 0, s')
apply_controls-again_example = apply_controls-again controls machine.store 1 controls_worked_off
