-- ===== src/RuleRuntime/Once.antt =====
-- The service calls of rule_runtime.py for an event that comes again.
use zediot_hub_connector.Common.{
  Bool-cases, Option-cases, String, [], ap, arith, false, inl, inr, length, none, refl, some, subst,
  suc, sym, true, ℕ, ◌++◌, ◌<◌, ◌∙◌, ◌∷◌, ◌≡◌, ◌≤◌,
}
use zediot_hub_connector.Queue.{Json}
use zediot_hub_connector.EventIdentity.{Change}
use zediot_hub_connector.Executor.World.{Home}
use zediot_hub_connector.Condition.Documents.{
  Elements, Entries, Numbers, element, get, has, no_more,
}
use zediot_hub_connector.RuleStore.{
  ExecutionRow, RuleStore, execution_row, finalize_execution, finalize_row, find_execution,
  has_execution, prune, reserve_execution, reserve_new,
}
use zediot_hub_connector.RuleStore.Bounds.{prune_bound}
use zediot_hub_connector.RuleStore.Reservation.{find-reserved}
use zediot_hub_connector.RuleStore.Finalized.{find-finalized}
use zediot_hub_connector.RulePackage.{VerifiedRulePackage, entries_of}
use zediot_hub_connector.RulePackage.Plan.{elements_of}
use zediot_hub_connector.RuleRuntime.{
  Evidence, Hooks, Ran, State, dispatch_action, dispatch_actions, raised_error, stable_id,
}
use zediot_hub_connector.RuleRuntime.Events.{
  Clock, base_of, dispatched, execute_rule, finalize_with, finish, is_readable, key_of,
}

module _ {P : Numbers} {J : Json} (K : Hooks P J) (H : Home) (str : ℕ → String) where
  action-store : (a : Entries P) (m : State K H) → (dispatch_action K H a m).1.store ≡ m.store
  unfolding dispatch_action
  action-store a m = ground arith

  dispatch-store :
      (id : String) (index : ℕ) (xs : Elements P) (m : State K H)
      → (dispatch_actions K H str id index xs m).1.store ≡ m.store
  unfolding dispatch_actions
  dispatch-store id index no_more m = refl
  dispatch-store id index (element v rest) m =
      let m' = (dispatch_action K H (entries_of v) m).1 in
      dispatch-store id (suc index) rest m' ∙ action-store (entries_of v) m

  -- The key of the event has a row in the store.
  abbrev pub HasRow : String → State K H → Type 0
  HasRow key m = (r : ExecutionRow J.Encoded) × (find_execution key m.store.executions ≡ some r)

  dispatched-store :
      (payload : Entries P) (base : Evidence P) (m : State K H)
      → (dispatched K H str payload base m).1.store ≡ m.store
  unfolding dispatched
  dispatched-store payload base m =
      let actions = elements_of K.tools (get "actions" (entries_of (get "runtime_plan" payload))) in
      let same = dispatch-store base.execution_id 0 actions m in ground (arith, same)

  finalized-HasRow :
      (clock : Clock) (key : String) (encoded : J.Value) (m : State K H)
      → length m.store.executions ≤ m.store.evidence_max_rows
      → HasRow key m
      → HasRow key (finalize_with K H str clock key encoded m).1
  unfolding finalize_with
  finalized-HasRow clock key encoded m room (r, found) =
      elim (Option-cases
        (finalize_execution J m.store clock.finalized_at clock.finalize_pruned_at key encoded)) [
          | inl e ↦ rw (finalize_with, e) (r, found)
          | inr (store, e) ↦
              rw (finalize_with, e)
                (
                  finalize_row J key encoded clock.finalized_at r,
                  find-finalized J m.store store clock.finalized_at clock.finalize_pruned_at key
                      encoded r room found e,
                )
        ]

  finish-HasRow :
      (payload : Entries P) (base : Evidence P) (clock : Clock) (m : State K H)
      → length m.store.executions ≤ m.store.evidence_max_rows
      → HasRow base.idempotency_key m
      → HasRow base.idempotency_key (finish K H str payload base clock m).1
  unfolding finish
  finish-HasRow payload base clock m room has =
      let same = dispatched-store payload base m in
      finalized-HasRow clock base.idempotency_key (K.encode (dispatched K H str payload base m).0)
        (dispatched K H str payload base m).1
        (subst (λ s. length s.executions ≤ s.evidence_max_rows) (sym same) room)
        (subst
          (λ s.
            (r : ExecutionRow J.Encoded) × (find_execution base.idempotency_key s.executions
              ≡ some r))
          (sym same) has)

  module _ (rule_package : VerifiedRulePackage P) (source_event_id : String) (change : Change)
      (event_time : ℕ) where
    abbrev key : String
    key = key_of K H str rule_package.payload source_event_id

    -- Calls are the same whenever the key has a row.
    replay-quiet :
        (connectivity : String) (clock : Clock) (m : State K H)
        → HasRow key m
        → (execute_rule K H str rule_package source_event_id change event_time connectivity clock
            m).1.calls
          ≡ m.calls
    unfolding execute_rule base_of reserve_execution
    replay-quiet connectivity clock m (r, found) =
        elim (Bool-cases (is_readable K H str rule_package.payload)) [
          | inr n ↦ rw (execute_rule, n) refl
          | inl y ↦ rw (execute_rule, y, reserve_execution, found) refl
        ]

    abbrev run_rule : String → Clock → State K H → Ran J.Value × State K H
    run_rule connectivity clock m =
        execute_rule K H str rule_package source_event_id change event_time connectivity clock m

    abbrev id : String
    id = stable_id K.tools.sha256 "lrex" key

    unreadable-same :
        (connectivity : String) (clock : Clock) (m : State K H)
        → is_readable K H str rule_package.payload ≡ false
        → run_rule connectivity clock m ≡ (raised_error, m)
    unfolding execute_rule
    unreadable-same connectivity clock m n = rw (execute_rule, n) refl

    taken-same :
        (connectivity : String) (clock : Clock) (m : State K H)
        → is_readable K H str rule_package.payload ≡ true
        → find_execution key m.store.executions ≡ none
        → has_execution id m.store.executions ≡ true
        → run_rule connectivity clock m ≡ (raised_error, m)
    unfolding execute_rule base_of reserve_execution reserve_new
    taken-same connectivity clock m y fresh taken =
        rw (execute_rule, y, reserve_execution, fresh, reserve_new, taken) refl

    first-HasRow :
        (connectivity : String) (clock : Clock) (m : State K H)
        → is_readable K H str rule_package.payload ≡ true
        → find_execution key m.store.executions ≡ none
        → has_execution id m.store.executions ≡ false
        → length m.store.executions < m.store.evidence_max_rows
        → HasRow key (run_rule connectivity clock m).1
    unfolding execute_rule base_of reserve_execution reserve_new
    first-HasRow connectivity clock m y fresh free room =
        let base =
          base_of K H str rule_package source_event_id change event_time connectivity clock in
        let encoded = K.encode base in
        let row = execution_row J key id encoded clock.reserved_at in
        let added : RuleStore J.Encoded = record m.store {
          executions = m.store.executions ++ row ∷ [];
        } in
        let next : State K H = record m { store = prune added clock.reserve_pruned_at } in
        rw (execute_rule, y, reserve_execution, fresh, reserve_new, free)
          (finish-HasRow rule_package.payload base clock next
            (prune_bound added clock.reserve_pruned_at)
            (
              row,
              find-reserved J m.store clock.reserve_pruned_at key id encoded clock.reserved_at fresh
                  room,
            ))

    -- When an event that is new to a store with room has run a rule, however that ended, a second
    -- run of the rule for the event calls no service.
    pub execute_rule-once :
        (connectivity connectivity' : String) (clock clock' : Clock) (m : State K H)
        → find_execution key m.store.executions ≡ none
        → length m.store.executions < m.store.evidence_max_rows
        → let m' = (run_rule connectivity clock m).1 in
          (run_rule connectivity' clock' m').1.calls ≡ m'.calls
    execute_rule-once connectivity connectivity' clock clock' m fresh room =
        elim (Bool-cases (is_readable K H str rule_package.payload)) [
          | inr n ↦
              ap (λ p. p.1.calls)
                (unreadable-same connectivity' clock' (run_rule connectivity clock m).1 n)
          | inl y ↦ elim (Bool-cases (has_execution id m.store.executions)) [
            | inl taken ↦
                let first = ap (λ p. p.1) (taken-same connectivity clock m y fresh taken) in
                subst (λ z. (run_rule connectivity' clock' z).1.calls ≡ z.calls) (sym first)
                  (ap (λ p. p.1.calls) (taken-same connectivity' clock' m y fresh taken))
            | inr free ↦
                replay-quiet connectivity' clock' (run_rule connectivity clock m).1
                  (first-HasRow connectivity clock m y fresh free room)
          ]
        ]
