-- ===== src/RuleRuntime.antt =====
-- `HomeAssistantLocalRuleRuntime` of rule_runtime.py: how an event runs the stored rules and calls
-- services. The Home Assistant client, the clock and Python's `float`, `str` and `datetime` are
-- parameters.
use Prim.Native.String.{slice, ◌++◌ as ◌+ₛ◌}
use zediot_hub_connector.Common.{
  Bool, List, Option, String, [], false, if◌then◌else◌, none, some, starts_with, suc, true, ℕ, ◌&&◌,
  ◌=ₛ◌, ◌∷◌,
}
use zediot_hub_connector.Queue.{Json}
use zediot_hub_connector.EventIdentity.{Change}
use zediot_hub_connector.Executor.World.{
  Home, ServiceCall, ServiceOutcome, accepted, call_failed, timed_out,
}
use zediot_hub_connector.Condition.{
  Document, Elements, Entries, Numbers, Reason, absent, array, boolean, element, get, no_more,
  number, object, string, value,
}
use zediot_hub_connector.RuleStore.{RuleStore}
use zediot_hub_connector.RulePackage.{Tools, entries_of, is_text, text_of}
use zediot_hub_connector.RulePackage.Plan.{action_safe}
pub mod Events
pub mod Once
pub mod Lights

-- One entry of `action_results`.
pub data ActionStatus : Type 0 where
  succeeded : String → ActionStatus
  failed_action : String → ActionStatus

pub record ActionResult : Type 0 where
  pub action_result_id : String
  pub action_index : ℕ
  pub status : ActionStatus

pub data RuleResult : Type 0 where
  hit skipped : RuleResult
  evaluation_error : Reason → RuleResult

-- The evidence of an execution; `trace` is the condition's, absent behind an error.
pub record Evidence (P : Numbers) : Type 0 where
  pub execution_id : String
  pub package_id : String
  pub package_hash : String
  pub deployment_id : String
  pub rule_id : String
  pub version_id : String
  pub version_no : Document P
  pub source_event_id : String
  pub target_id : String
  pub idempotency_key : String
  pub result : RuleResult
  pub trace : Document P
  pub action_results : List ActionResult
  pub executed_at : ℕ
  pub trace_id : String
  pub connectivity_state : String

-- What `_event_identity` reads: the change, and the time of the event, where none is an exception.
pub record Event : Type 0 where
  pub change : Change
  pub event_time : Option ℕ

-- `parse_float` is `float`, `parse_int` is `int`, `strip` is `str.strip`, `isoformat` that of a time, `document_of` the
-- dictionary of a stored document and `encode` the dictionary of an evidence.
pub record Hooks (P : Numbers) (J : Json) : Type 0 where
  pub tools : Tools P
  pub strip : String → String
  pub parse_float : String → Option P.N
  pub parse_int : Document P → Option P.N
  pub isoformat : ℕ → String
  pub document_of : J.Value → Entries P
  pub encode : Evidence P → J.Value
  pub text_before : String → String → Bool

pub record Machine (J : Json) (W : Type 0) : Type 0 where
  pub store : RuleStore J.Encoded
  pub world : W
  pub calls : List ServiceCall

pub data Ran (A : Type 0) : Type 0 where
  ran : A → Ran A
  raised_error : Ran A

-- `_stable_id`
unfoldable pub stable_id : (String → String) → String → String → String
stable_id sha256 prefix name = prefix +ₛ ("_" +ₛ slice (sha256 name) 0 24)

module _ {P : Numbers} {J : Json} (K : Hooks P J) where
  -- The service that `_validate_action` expects.
  unfoldable pub expected_service : Document P → String
  expected_service (boolean b) = if b then "turn_on" else "turn_off"
  expected_service absent = "turn_off"
  expected_service (number n) = "turn_off"
  expected_service (string s) = "turn_off"
  expected_service (array xs) = "turn_off"
  expected_service (object d) = "turn_off"

  -- `_validate_action`, as a test.
  unfoldable pub validate_action : Entries P → Bool
  unfolding get is_text text_of expected_service action_safe
  validate_action a =
      is_text (get "action_type" a) "device_command"
      && (is_text (get "canonical_capability" a) "light.power"
          && (is_text (get "template_code" a) "set_light_power"
              && (is_text (get "provider_domain" a) "light"
                  && (is_text (get "provider_service" a) (expected_service (get "value" a))
                      && (starts_with (text_of K.tools (get "provider_entity_id" a)) "light."
                          && action_safe K.tools a)))))

  -- `_canonical_state_value`
  unfoldable pub canonical_state_value : String → Document P
  canonical_state_value state =
      let normalized = K.strip state in
      if normalized =ₛ "on"
      then boolean true
      else if normalized =ₛ "off"
      then boolean false
      else elim (K.parse_float normalized) [ some n ↦ number n | none ↦ string normalized ]

  module _ (H : Home) where
    abbrev pub State : Type 0
    State = Machine J H.World

    unfoldable pub status_of : ServiceOutcome → ActionStatus
    status_of (accepted request_id) = succeeded request_id
    status_of timed_out = failed_action "ha_service_timeout"
    status_of call_failed = failed_action "ha_service_call_failed"

    -- One round of `_dispatch_actions`.
    unfoldable pub dispatch_action : Entries P → State → ActionStatus × State
    unfolding validate_action status_of text_of get
    dispatch_action a m =
        let call : ServiceCall = record {
          domain = "light";
          service = text_of K.tools (get "provider_service" a);
          entity_id = text_of K.tools (get "provider_entity_id" a);
        } in
        let (outcome, w) = H.call_service m.world call in
        if validate_action a
        then (status_of outcome, record m { world = w; calls = call ∷ m.calls })
        else (failed_action "ha_service_call_failed", m)

    -- `_dispatch_actions` from an index on; a number is written by `str`.
    unfoldable pub dispatch_actions :
        (ℕ → String) → String → ℕ → Elements P → State → List ActionResult × State
    unfolding dispatch_action entries_of stable_id
    dispatch_actions str execution_id index no_more m = ([], m)
    dispatch_actions str execution_id index (element v rest) m =
        let (status, m') = dispatch_action (entries_of v) m in
        let (results, m'') = dispatch_actions str execution_id (suc index) rest m' in
        (
          record {
            action_result_id =
                stable_id K.tools.sha256 "lract" (execution_id +ₛ (":" +ₛ str index));
            action_index = index;
            status = status;
          }
              ∷ results,
          m'',
        )
