-- ===== src/Runtime/Events.antt =====
-- `enqueue_event` of runtime.py: a change of state runs the local rules and joins the queue.
use zediot_hub_connector.Common.{
  Bool, Bool-cases, List, Option, Option-cases, String, false, if◌then◌else◌, inl, inr, mem_text,
  none, not, refl, some, suc, true, ℕ, ◌=ₛ◌, ◌∷◌, ◌≡◌,
}
use zediot_hub_connector.Queue.{Json, Queue, QueueItem, enqueue}
use zediot_hub_connector.Reliability.{CircuitBreaker, current_state}
use zediot_hub_connector.EventIdentity.{Change, build_source_event_id}
use zediot_hub_connector.Executor.World.{Home}
use zediot_hub_connector.Condition.Documents.{Numbers, get}
use zediot_hub_connector.RuleStore.{active_documents}
use zediot_hub_connector.RulePackage.{PackageError, is_text}
use zediot_hub_connector.RulePackage.Trust.{Verified-cases, rejected, verify_stored_rule_package}
use zediot_hub_connector.RuleRuntime.{Event, Hooks, Machine, Ran, State, raised_error, ran}
use zediot_hub_connector.RuleRuntime.Events.{
  Clock, binding_of, execute_rule, join_results, prepend, process_documents, process_event,
}
use zediot_hub_connector.Runtime.Intake.{is_closed}

-- The part of the runtime that an event meets; `rules` is none without the grant for local rules.
pub record EventHub (J : Json) (W : Type 0) : Type 0 where
  pub breaker : CircuitBreaker
  pub queue : Queue J.Encoded
  pub session : Option (List String)
  pub has_rules : Bool
  pub machine : Machine J W

pub data EventResult (V : Type 0) : Type 0 where
  event_queued : QueueItem V → EventResult V
  not_granted : EventResult V
  event_raised : EventResult V

-- The readings of the clock that one event takes.
pub record EventClock : Type 0 where
  pub documents_at : ℕ
  pub rule_clock : ℕ → Clock
  pub queued_at : ℕ

-- `self.session and not (self.session.effective_grants & _EVENT_UPLINK_GRANTS)`
unfoldable pub uplink_refused : Option (List String) → Bool
uplink_refused none = false
uplink_refused (some grants) = not (mem_text "state_uplink" grants)

module _ {P : Numbers} (J : Json) (K : Hooks P J) (H : Home) (str : ℕ → String)
    (payload_of : Event → String → Bool → J.Value) (instance_id : String)
    (trusted : List String) where
  abbrev pub Site : Type 0
  Site = EventHub J H.World

  unfoldable pub connectivity_of : Site → String
  connectivity_of s = if is_closed (current_state s.breaker) then "connected" else "offline"

  -- `enqueue_event` behind the local rules. The payload is made of the event, its id and whether it
  -- is a replay.
  unfoldable pub queue_event : Event → ℕ → Site → EventResult J.Value × Site
  unfolding uplink_refused build_source_event_id
  queue_event event now s =
      let payload =
        payload_of event (build_source_event_id K.tools.sha256 event.change)
          (not (is_closed (current_state s.breaker))) in
      if uplink_refused s.session
      then (not_granted, s)
      else elim (enqueue J s.queue now "event" payload) [
        | none ↦ (event_raised, s)
        | some (q, item) ↦ (event_queued item, record s { queue = q })
      ]

  -- The first argument is whether `new_state` is a dictionary.
  unfoldable pub enqueue_event : Bool → Event → EventClock → Site → EventResult J.Value × Site
  unfolding connectivity_of process_event queue_event
  enqueue_event has_new_state event clock s =
      let (r, m) =
        process_event K H str instance_id trusted event (connectivity_of s) clock.documents_at
          clock.rule_clock s.machine in
      if not has_new_state
      then (event_raised, s)
      else if not s.has_rules
      then queue_event event clock.queued_at s
      else elim r [
        | raised_error ↦ (event_raised, record s { machine = m })
        | ran results ↦ queue_event event clock.queued_at (record s { machine = m })
      ]

  -- One of the stored documents is not accepted at the time it is read.
  pub data Refuses (clock : ℕ → Clock) : ℕ → List J.Value → Type 0 where
    at_first :
        {n : ℕ} {document : J.Value} {documents : List J.Value} {reason : PackageError}
        → verify_stored_rule_package K.tools instance_id trusted
            (clock n).verified_at
            (K.document_of document)
          ≡ rejected reason
        → Refuses clock n (document ∷ documents)
    further_on :
        {n : ℕ} {document : J.Value} {documents : List J.Value}
        → Refuses clock (suc n) documents
        → Refuses clock n (document ∷ documents)

  join-raises :
      (r : Ran J.Value) (m : State K H) (rest : State K H → Ran (List J.Value) × State K H)
      → ((m : State K H) → (rest m).0 ≡ raised_error)
      → (join_results K H str r m rest).0 ≡ raised_error
  unfolding join_results prepend
  join-raises raised_error m rest h = refl
  join-raises (ran evidence) m rest h = rw (join_results, h m) refl

  documents-raise :
      (source_event_id : String) (change : Change) (event_time : ℕ) (connectivity : String)
      (clock : ℕ → Clock) (n : ℕ) (documents : List J.Value) (m : State K H)
      → Refuses clock n documents
      → (process_documents K H str instance_id trusted source_event_id change event_time
          connectivity clock n documents m).0
        ≡ raised_error
  unfolding process_documents
  documents-raise source_event_id change event_time connectivity clock n _ m (at_first e) =
      rw (process_documents, e) refl
  documents-raise source_event_id change event_time connectivity clock n _ m
        (further_on {document = document} {documents = documents} h) =
      let rest =
        process_documents K H str instance_id trusted source_event_id change event_time connectivity
          clock (suc n) documents in
      let raises : (m : State K H) → (rest m).0 ≡ raised_error = λ m.
        documents-raise source_event_id change event_time connectivity clock (suc n) documents m
          h in
      elim (Verified-cases (
        verify_stored_rule_package K.tools instance_id trusted (clock n).verified_at
          (K.document_of document))) [
            | inr (reason, e) ↦ rw (process_documents, e) refl
            | inl (p, e) ↦
                let (r, m') =
                  execute_rule K H str p source_event_id change event_time connectivity (clock n)
                    m in
                elim (Bool-cases (
                  is_text (get "provider_entity_id" (binding_of K H str p.payload))
                    change.entity_id)) [
                      | inl y ↦ rw (process_documents, e, y) (join-raises r m' rest raises)
                      | inr n ↦ rw (process_documents, e, n) (raises m)
                    ]
          ]

  event-raises :
      (event : Event) (connectivity : String) (read_at : ℕ) (clock : ℕ → Clock) (m : State K H)
      → Refuses clock 0 (active_documents J K.text_before m.store read_at).1
      → (process_event K H str instance_id trusted event connectivity read_at clock m).0
        ≡ raised_error
  unfolding process_event
  event-raises event connectivity read_at clock m h =
      elim (Bool-cases (event.change.entity_id =ₛ "")) [
        | inl y ↦ rw (process_event, y) refl
        | inr n ↦ elim (Option-cases event.event_time) [
          | inl untimed ↦ rw (process_event, n, untimed) refl
          | inr (event_time, timed) ↦
              let (store, documents) = active_documents J K.text_before m.store read_at in
              rw (process_event, n, timed)
                (documents-raise (build_source_event_id K.tools.sha256 event.change) event.change
                  event_time connectivity clock 0 documents (record m { store = store }) h)
        ]
      ]

  -- While the rules run and one of the stored packages is not accepted, no event reaches the queue:
  -- `enqueue_event` raises, and the queue is as before.
  pub enqueue_event-blocked :
      (has_new_state : Bool) (event : Event) (clock : EventClock) (s : Site)
      → s.has_rules ≡ true
      → Refuses clock.rule_clock 0
          (active_documents J K.text_before s.machine.store clock.documents_at).1
      → let (r, s') = enqueue_event has_new_state event clock s in
        (r ≡ event_raised) × (s'.queue ≡ s.queue)
  unfolding enqueue_event process_event
  enqueue_event-blocked false event clock s rules refuses = (refl, refl)
  enqueue_event-blocked true event clock s rules refuses =
      let e =
        event-raises event (connectivity_of s) clock.documents_at clock.rule_clock s.machine
          refuses in
      rw (enqueue_event, rules, e) (refl, refl)
