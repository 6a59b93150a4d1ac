-- ===== src/RuleRuntime/Lights.antt =====
-- Which services rule_runtime.py calls.
use zediot_hub_connector.Common.{
  All, Bool-cases, List, Option-cases, String, [], arith, eq_iff, false, inl, inr, refl,
  starts_with, suc, true, ℕ, ◌=ₛ◌, ◌∙◌, ◌∷◌, ◌≡◌, ◌⊎◌,
}
use zediot_hub_connector.Queue.{Json}
use zediot_hub_connector.EventIdentity.{Change, build_source_event_id}
use zediot_hub_connector.Executor.World.{ServiceCall, Home}
use zediot_hub_connector.Condition.Documents.{
  Document, Elements, Entries, Numbers, absent, array, boolean, element, get, no_more, number,
  object, string,
}
use zediot_hub_connector.RuleStore.{active_documents, earlier, reserve_execution, reserved}
use zediot_hub_connector.RulePackage.{VerifiedRulePackage, entries_of, is_text, text_of}
use zediot_hub_connector.RulePackage.Plan.{elements_of}
use zediot_hub_connector.RulePackage.Trust.{Verified-cases, verify_stored_rule_package}
use zediot_hub_connector.RuleRuntime.{
  Event, Evidence, Hooks, Ran, State, dispatch_action, dispatch_actions, expected_service,
  raised_error, ran, validate_action,
}
use zediot_hub_connector.RuleRuntime.Events.{
  Clock, base_of, binding_of, dispatched, execute_rule, finalize_with, finish, is_readable,
  join_results, process_documents, process_event,
}

module _ {P : Numbers} {J : Json} (K : Hooks P J) (H : Home) (str : ℕ → String) where
  -- A call that switches a light.
  abbrev pub IsLight : ServiceCall → Type 0
  IsLight call =
      (call.domain ≡ "light")
      × ((call.service ≡ "turn_on") ⊎ (call.service ≡ "turn_off"))
      × (starts_with call.entity_id "light." ≡ true)

  abbrev pub CallsLights : State K H → Type 0
  CallsLights m = All IsLight m.calls

  text_of-is_text : (v : Document P) (t : String) → is_text v t ≡ true → text_of K.tools v ≡ t
  unfolding is_text text_of
  text_of-is_text (string s) t h = (eq_iff s t).0 h
  text_of-is_text absent t h = absurd cc
  text_of-is_text (boolean b) t h = absurd cc
  text_of-is_text (number n) t h = absurd cc
  text_of-is_text (array xs) t h = absurd cc
  text_of-is_text (object d) t h = absurd cc

  expected-cases :
      (v : Document P) → (expected_service K v ≡ "turn_on") ⊎ (expected_service K v ≡ "turn_off")
  unfolding expected_service
  expected-cases (boolean true) = inl refl
  expected-cases (boolean false) = inr refl
  expected-cases absent = inr refl
  expected-cases (number n) = inr refl
  expected-cases (string s) = inr refl
  expected-cases (array xs) = inr refl
  expected-cases (object d) = inr refl

  valid-parts :
      (a : Entries P)
      → validate_action K a ≡ true
      → (is_text (get "provider_service" a) (expected_service K (get "value" a)) ≡ true)
        × (starts_with (text_of K.tools (get "provider_entity_id" a)) "light." ≡ true)
  unfolding validate_action
  valid-parts a h = ground arith

  valid-IsLight :
      (a : Entries P)
      → validate_action K a ≡ true
      → IsLight (record {
        domain = "light";
        service = text_of K.tools (get "provider_service" a);
        entity_id = text_of K.tools (get "provider_entity_id" a);
      })
  valid-IsLight a h =
      let (service, entity) = valid-parts a h in
      let same =
        text_of-is_text (get "provider_service" a) (expected_service K (get "value" a)) service in
      (
        refl,
        elim (expected-cases (get "value" a)) [
          | inl on ↦ inl (same ∙ on)
          | inr off ↦ inr (same ∙ off)
        ],
        entity,
      )

  action-CallsLights :
      (a : Entries P) (m : State K H) → CallsLights m → CallsLights (dispatch_action K H a m).1
  unfolding dispatch_action
  action-CallsLights a m h = elim (Bool-cases (validate_action K a)) [
    | inl y ↦ rw (dispatch_action, y) (valid-IsLight a y, h)
    | inr n ↦ rw (dispatch_action, n) h
  ]

  actions-CallsLights :
      (id : String) (index : ℕ) (xs : Elements P) (m : State K H)
      → CallsLights m
      → CallsLights (dispatch_actions K H str id index xs m).1
  unfolding dispatch_actions
  actions-CallsLights id index no_more m h = h
  actions-CallsLights id index (element v rest) m h =
      actions-CallsLights id (suc index) rest (dispatch_action K H (entries_of v) m).1
        (action-CallsLights (entries_of v) m h)

  dispatched-CallsLights :
      (payload : Entries P) (base : Evidence P) (m : State K H)
      → CallsLights m
      → CallsLights (dispatched K H str payload base m).1
  unfolding dispatched
  dispatched-CallsLights payload base m h =
      let actions = elements_of K.tools (get "actions" (entries_of (get "runtime_plan" payload))) in
      let after = actions-CallsLights base.execution_id 0 actions m h in ground (arith, after)

  finalize-CallsLights :
      (clock : Clock) (key : String) (encoded : J.Value) (m : State K H)
      → CallsLights m
      → CallsLights (finalize_with K H str clock key encoded m).1
  unfolding finalize_with
  finalize-CallsLights clock key encoded m h = ground arith

  rule-CallsLights :
      (p : VerifiedRulePackage P) (source_event_id : String) (change : Change) (event_time : ℕ)
      (connectivity : String) (clock : Clock) (m : State K H)
      → CallsLights m
      → CallsLights
          (execute_rule K H str p source_event_id change event_time connectivity clock m).1
  unfolding execute_rule finish
  rule-CallsLights p source_event_id change event_time connectivity clock m h =
      let base = base_of K H str p source_event_id change event_time connectivity clock in
      elim (Bool-cases (is_readable K H str p.payload)) [
        | inr n ↦ rw (execute_rule, n) h
        | inl y ↦
            elim (Option-cases (
              reserve_execution J m.store clock.reserved_at clock.reserve_pruned_at
                base.idempotency_key base.execution_id (K.encode base))) [
                  | inl none_made ↦ rw (execute_rule, y, none_made) h
                  | inr ((store, earlier existing status), made) ↦ rw (execute_rule, y, made) h
                  | inr ((store, reserved own), made) ↦
                      let next : State K H = record m { store = store } in
                      rw (execute_rule, y, made)
                        (finalize-CallsLights clock base.idempotency_key
                          (K.encode (dispatched K H str p.payload base next).0)
                          (dispatched K H str p.payload base next).1
                          (dispatched-CallsLights p.payload base next h))
                ]
      ]

  join-CallsLights :
      (r : Ran J.Value) (m : State K H) (rest : State K H → Ran (List J.Value) × State K H)
      → CallsLights m
      → ((x : State K H) → CallsLights x → CallsLights (rest x).1)
      → CallsLights (join_results K H str r m rest).1
  unfolding join_results
  join-CallsLights raised_error m rest h keeps = h
  join-CallsLights (ran evidence) m rest h keeps = keeps m h

  documents-CallsLights :
      (instance_id : String) (trusted : List String) (source_event_id : String) (change : Change)
      (event_time : ℕ) (connectivity : String) (clock : ℕ → Clock) (n : ℕ)
      (documents : List J.Value) (m : State K H)
      → CallsLights m
      → CallsLights
          (process_documents K H str instance_id trusted source_event_id change event_time
            connectivity clock n documents m).1
  unfolding process_documents
  documents-CallsLights instance_id trusted source_event_id change event_time connectivity clock n
        [] m h =
      h
  documents-CallsLights instance_id trusted source_event_id change event_time connectivity clock n
        (document ∷ documents) m h =
      let rest =
        process_documents K H str instance_id trusted source_event_id change event_time connectivity
          clock (suc n) documents in
      let keeps : (x : State K H) → CallsLights x → CallsLights (rest x).1 =
        documents-CallsLights instance_id trusted source_event_id change event_time connectivity
          clock (suc n) documents in
      elim (Verified-cases (
        verify_stored_rule_package K.tools instance_id trusted (clock n).verified_at
          (K.document_of document))) [
            | inr (reason, e) ↦ rw (process_documents, e) h
            | inl (p, e) ↦
                let r =
                  execute_rule K H str p source_event_id change event_time connectivity (clock n)
                    m in
                let after =
                  rule-CallsLights p source_event_id change event_time connectivity (clock n) m h in
                elim (Bool-cases (
                  is_text (get "provider_entity_id" (binding_of K H str p.payload))
                    change.entity_id)) [
                      | inl y ↦
                          rw (process_documents, e, y) (join-CallsLights r.0 r.1 rest after keeps)
                      | inr n ↦ rw (process_documents, e, n) (keeps m h)
                    ]
          ]

  -- Whatever packages are stored and whatever event comes, the local rules call no service but
  -- turning a light on or off.
  pub process_event-CallsLights :
      (instance_id : String) (trusted : List String) (event : Event) (connectivity : String)
      (read_at : ℕ) (clock : ℕ → Clock) (m : State K H)
      → CallsLights m
      → CallsLights (process_event K H str instance_id trusted event connectivity read_at clock m).1
  unfolding process_event
  process_event-CallsLights instance_id trusted event connectivity read_at clock m h =
      elim (Bool-cases (event.change.entity_id =ₛ "")) [
        | inl y ↦ rw (process_event, y) h
        | inr n ↦ elim (Option-cases event.event_time) [
          | inl untimed ↦ rw (process_event, n, untimed) h
          | inr (event_time, timed) ↦
              let (store, documents) = active_documents J K.text_before m.store read_at in
              rw (process_event, n, timed)
                (documents-CallsLights instance_id trusted
                  (build_source_event_id K.tools.sha256 event.change) event.change event_time
                  connectivity clock 0 documents (record m { store = store }) h)
        ]
      ]
