-- ===== src/RulePackage/Plan.antt =====
-- `_validate_runtime_plan` of rule_package.py.
use zediot_hub_connector.Common.{
  Bool, List, [], false, leb, not, starts_with, suc, ℕ, ◌&&◌, ◌=ₛ◌, ◌||◌, ◌∷◌,
}
use zediot_hub_connector.Condition.Documents.{
  Document, Elements, Entries, Numbers, absent, array, boolean, element, get, no_more, number,
  object, string, truthy,
}
use zediot_hub_connector.RulePackage.{
  Check, Tools, action_plan_invalid, action_safety_invalid, entries_of, event_binding_invalid,
  is_boolean, is_dict, is_text, malformed, text_of,
}

module _ {P : Numbers} (T : Tools P) where
  unfoldable pub binding_valid : Entries P → Bool
  unfolding get is_text text_of
  binding_valid binding =
      let event_type = get "canonical_event_type" binding in
      is_text (get "provider_event_type" binding) "state_changed"
      && (not (text_of T (get "provider_entity_id" binding) =ₛ "")
          && ((is_text event_type "latest_state.changed"
                || (is_text event_type "telemetry.ingested"
                    || (is_text event_type "device.presence.changed"
                        || is_text event_type "device.status.changed")))
              && not (text_of T (get "target_id" binding) =ₛ "")))

  -- The first test of the loop over the actions.
  unfoldable pub action_valid : Entries P → Bool
  unfolding get is_text text_of is_boolean
  action_valid a =
      is_text (get "action_type" a) "device_command"
      && (is_text (get "provider_domain" a) "light"
          && ((is_text (get "provider_service" a) "turn_on"
                || is_text (get "provider_service" a) "turn_off")
              && (starts_with (text_of T (get "provider_entity_id" a)) "light."
                  && (is_text (get "canonical_capability" a) "light.power"
                      && (is_text (get "template_code" a) "set_light_power"
                          && is_boolean (get "value" a))))))

  unfoldable pub action_safe : Entries P → Bool
  unfolding get is_text truthy entries_of
  action_safe a =
      let safety = entries_of (get "command_safety_evidence" a) in
      truthy (get "reviewed" safety) && is_text (get "risk_class" safety) "non_destructive"

  unfoldable pub action_checks : Elements P → List Check
  unfolding action_valid action_safe entries_of is_dict get
  action_checks no_more = []
  action_checks (element v rest) =
      (is_dict v, malformed)
      ∷ (action_valid (entries_of v), action_plan_invalid)
      ∷ (is_dict (get "command_safety_evidence" (entries_of v)), malformed)
      ∷ (action_safe (entries_of v), action_safety_invalid)
      ∷ action_checks rest

  unfoldable pub element_count : Elements P → ℕ
  element_count no_more = 0
  element_count (element v rest) = suc (element_count rest)

  -- `isinstance(actions, list) and 1 <= len(actions) <= 20`
  unfoldable pub actions_valid : Document P → Bool
  unfolding element_count
  actions_valid (array xs) = leb 1 (element_count xs) && leb (element_count xs) 20
  actions_valid absent = false
  actions_valid (boolean b) = false
  actions_valid (number n) = false
  actions_valid (string s) = false
  actions_valid (object d) = false

  unfoldable pub elements_of : Document P → Elements P
  elements_of (array xs) = xs
  elements_of absent = no_more
  elements_of (boolean b) = no_more
  elements_of (number n) = no_more
  elements_of (string s) = no_more
  elements_of (object d) = no_more

  unfoldable pub plan_checks : Entries P → List Check
  unfolding binding_valid actions_valid action_checks elements_of entries_of is_dict get
  plan_checks plan =
      (is_dict (get "event_binding" plan), malformed)
      ∷ (binding_valid (entries_of (get "event_binding" plan)), event_binding_invalid)
      ∷ (actions_valid (get "actions" plan), action_plan_invalid)
      ∷ action_checks (elements_of (get "actions" plan))
