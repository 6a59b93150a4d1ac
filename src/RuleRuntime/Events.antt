-- ===== src/RuleRuntime/Events.antt =====
-- `process_event` and `_execute` of rule_runtime.py. The readings of the clock are arguments.
use Prim.Native.String.{◌++◌ as ◌+ₛ◌}
use zediot_hub_connector.Common.{
  Bool, List, String, [], false, if◌then◌else◌, none, not, some, suc, true, ℕ, ◌&&◌, ◌=ₛ◌, ◌∷◌,
}
use zediot_hub_connector.Queue.{Json}
use zediot_hub_connector.EventIdentity.{Change, build_source_event_id}
use zediot_hub_connector.Executor.World.{Home}
use zediot_hub_connector.Condition.{
  Document, Entries, Numbers, Result, absent, array, boolean, entry, error, evaluate_condition, get,
  has, no_entry, number, object, string, value,
}
use zediot_hub_connector.RuleStore.{
  active_documents, earlier, finalize_execution, reserve_execution, reserved,
}
use zediot_hub_connector.RulePackage.{VerifiedRulePackage, entries_of, is_dict, is_text}
use zediot_hub_connector.RulePackage.Plan.{elements_of}
use zediot_hub_connector.RulePackage.Trust.{rejected, verified, verify_stored_rule_package}
use zediot_hub_connector.RuleRuntime.{
  Event, Evidence, Hooks, Ran, RuleResult, State, canonical_state_value, dispatch_actions,
  evaluation_error, hit, raised_error, ran, skipped, stable_id,
}

-- The readings of one execution, those of the store with the one for its `_prune`.
pub record Clock : Type 0 where
  pub verified_at : ℕ
  pub evaluated_at : ℕ
  pub executed_at : ℕ
  pub reserved_at : ℕ
  pub reserve_pruned_at : ℕ
  pub finalized_at : ℕ
  pub finalize_pruned_at : ℕ

unfoldable pub is_object : {P : Numbers} → Document P → Bool
is_object (object d) = true
is_object absent = false
is_object (boolean b) = false
is_object (number n) = false
is_object (string s) = false
is_object (array xs) = false

unfoldable pub is_hit : RuleResult → Bool
is_hit hit = true
is_hit skipped = false
is_hit (evaluation_error reason) = false

module _ {P : Numbers} {J : Json} (K : Hooks P J) where
  -- `str(value)`
  unfoldable pub str_value : Document P → String
  str_value (string s) = s
  str_value absent = K.tools.str_of absent
  str_value (boolean b) = K.tools.str_of (boolean b)
  str_value (number n) = K.tools.str_of (number n)
  str_value (array xs) = K.tools.str_of (array xs)
  str_value (object d) = K.tools.str_of (object d)

module _ {P : Numbers} {J : Json} (K : Hooks P J) (H : Home) (str : ℕ → String) where
  unfoldable pub is_int : Document P → Bool
  is_int v = elim (K.parse_int v) [ none ↦ false | some n ↦ true ]

  -- The keys that `_execute` takes by `payload[…]`.
  unfoldable pub is_readable : Entries P → Bool
  unfolding has get is_object entries_of is_dict is_int
  is_readable payload =
      has "deployment_id" payload
      && (has "version_id" payload
          && (has "rule_id" payload
              && (is_int (get "version_no" payload)
                  && (is_object (get "rule" payload)
                      && is_dict (get "condition" (entries_of (get "rule" payload)))))))

  unfoldable pub binding_of : Entries P → Entries P
  unfolding get entries_of
  binding_of payload = entries_of (get "event_binding" (entries_of (get "runtime_plan" payload)))

  unfoldable pub context_of : Entries P → Change → ℕ → ℕ → Document P
  unfolding canonical_state_value binding_of get
  context_of payload change event_time evaluated_at =
      let state = canonical_state_value K change.state in
      let seen_at = string (K.isoformat event_time) in
      object (
        entry "event"
          (object (
            entry "entity_id" (string change.entity_id)
              (entry "value" state (entry "observed_at" seen_at no_entry))))
          (entry "latest_state"
            (object (entry "value" state (entry "observed_at" seen_at no_entry)))
            (entry "device"
              (object (entry "device_id" (get "target_id" (binding_of payload)) no_entry))
              (entry "space" (object no_entry) (
                entry "time"
                  (object (entry "evaluated_at" (string (K.isoformat evaluated_at)) no_entry))
                  no_entry)))))

  -- The `try` around `evaluate_condition`.
  unfoldable pub result_of : Result (Bool × Document P) → RuleResult × Document P
  result_of (value (matched, trace)) = (if matched then hit else skipped, trace)
  result_of (error reason) = (evaluation_error reason, absent)

  unfoldable pub key_of : Entries P → String → String
  unfolding get str_value
  key_of payload source_event_id =
      str_value K (get "deployment_id" payload)
      +ₛ (":" +ₛ (str_value K (get "version_id" payload) +ₛ (":" +ₛ source_event_id)))

  -- The dictionary `base`.
  unfoldable pub base_of : VerifiedRulePackage P → String → Change → ℕ → String → Clock → Evidence P
  unfolding get str_value key_of context_of result_of evaluate_condition entries_of binding_of
      stable_id
  base_of rule_package source_event_id change event_time connectivity clock =
      let payload = rule_package.payload in
      let key = key_of payload source_event_id in
      let condition = entries_of (get "condition" (entries_of (get "rule" payload))) in
      let (result, trace) = result_of (
        evaluate_condition (str_value K) condition
          (context_of payload change event_time clock.evaluated_at)) in
      record {
        execution_id = stable_id K.tools.sha256 "lrex" key;
        package_id = rule_package.package_id;
        package_hash = rule_package.package_hash;
        deployment_id = str_value K (get "deployment_id" payload);
        rule_id = str_value K (get "rule_id" payload);
        version_id = str_value K (get "version_id" payload);
        version_no = get "version_no" payload;
        source_event_id = source_event_id;
        target_id = str_value K (get "target_id" (binding_of payload));
        idempotency_key = key;
        result = result;
        trace = trace;
        action_results = [];
        executed_at = clock.executed_at;
        trace_id = stable_id K.tools.sha256 "hatrace" key;
        connectivity_state = connectivity;
      }

  -- The actions of a hit, with the evidence behind them.
  unfoldable pub dispatched : Entries P → Evidence P → State K H → Evidence P × State K H
  unfolding is_hit dispatch_actions elements_of entries_of get
  dispatched payload base m =
      let actions = elements_of K.tools (get "actions" (entries_of (get "runtime_plan" payload))) in
      let (results, m') = dispatch_actions K H str base.execution_id 0 actions m in
      if is_hit base.result then (record base { action_results = results }, m') else (base, m)

  -- `self.store.finalize_execution(base)` and the return.
  unfoldable pub finalize_with : Clock → String → J.Value → State K H → Ran J.Value × State K H
  unfolding finalize_execution
  finalize_with clock key encoded m =
      elim (finalize_execution J m.store clock.finalized_at clock.finalize_pruned_at key encoded) [
        | none ↦ (raised_error, m)
        | some store ↦ (ran encoded, record m { store = store })
      ]

  -- `_execute` behind the reservation.
  unfoldable pub finish : Entries P → Evidence P → Clock → State K H → Ran J.Value × State K H
  unfolding dispatched finalize_with
  finish payload base clock m =
      let (evidence, m') = dispatched payload base m in
      finalize_with clock base.idempotency_key (K.encode evidence) m'

  unfoldable pub execute_rule :
      VerifiedRulePackage P
      → String
      → Change
      → ℕ
      → String
      → Clock
      → State K H
      → Ran J.Value × State K H
  unfolding is_readable base_of reserve_execution finish
  execute_rule rule_package source_event_id change event_time connectivity clock m =
      let base = base_of rule_package source_event_id change event_time connectivity clock in
      if not (is_readable rule_package.payload)
      then (raised_error, m)
      else elim (reserve_execution J m.store clock.reserved_at clock.reserve_pruned_at
          base.idempotency_key base.execution_id (K.encode base)) [
            | none ↦ (raised_error, m)
            | some (store, earlier existing status) ↦ (ran existing, record m { store = store })
            | some (store, reserved own) ↦
                finish rule_package.payload base clock (record m { store = store })
          ]

  unfoldable pub prepend : J.Value → Ran (List J.Value) → Ran (List J.Value)
  prepend evidence (ran evidences) = ran (evidence ∷ evidences)
  prepend evidence raised_error = raised_error

  -- `results.append(self._execute(…))` and the rest of the loop.
  unfoldable pub join_results :
      Ran J.Value
      → State K H
      → (State K H → Ran (List J.Value) × State K H)
      → Ran (List J.Value) × State K H
  unfolding prepend
  join_results raised_error m rest = (raised_error, m)
  join_results (ran evidence) m rest = let (r, m') = rest m in (prepend evidence r, m')

  -- The loop of `process_event`; the clock is given for each document.
  unfoldable pub process_documents :
      String
      → List String
      → String
      → Change
      → ℕ
      → String
      → (ℕ → Clock)
      → ℕ
      → List J.Value
      → State K H
      → Ran (List J.Value) × State K H
  unfolding verify_stored_rule_package execute_rule binding_of is_text get join_results
  process_documents instance_id trusted source_event_id change event_time connectivity clock n []
        m =
      (ran [], m)
  process_documents instance_id trusted source_event_id change event_time connectivity clock n
        (document ∷ documents) m =
      let rest =
        process_documents instance_id trusted source_event_id change event_time connectivity clock
          (suc n) documents in
      elim (verify_stored_rule_package K.tools instance_id trusted (clock n).verified_at
        (K.document_of document)) [
          | rejected reason ↦ (raised_error, m)
          | verified rule_package ↦
              let (r, m') =
                execute_rule rule_package source_event_id change event_time connectivity (clock n)
                  m in
              if not (
                is_text (get "provider_entity_id" (binding_of rule_package.payload))
                  change.entity_id)
              then rest m
              else join_results r m' rest
        ]

  unfoldable pub process_event :
      String
      → List String
      → Event
      → String
      → ℕ
      → (ℕ → Clock)
      → State K H
      → Ran (List J.Value) × State K H
  unfolding process_documents active_documents build_source_event_id
  process_event instance_id trusted event connectivity read_at clock m =
      let (store, documents) = active_documents J K.text_before m.store read_at in
      if event.change.entity_id =ₛ "" then (raised_error, m) else elim event.event_time [
        | none ↦ (raised_error, m)
        | some event_time ↦
            process_documents instance_id trusted
              (build_source_event_id K.tools.sha256 event.change) event.change event_time
              connectivity clock 0 documents (record m { store = store })
      ]
