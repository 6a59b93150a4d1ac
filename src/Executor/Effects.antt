-- ===== src/Executor/Effects.antt =====
-- Which actions of command_executor.py call a service.
use zediot_hub_connector.Common.{
  Bool, Bool-cases, Option, String, ap, arith, eq_iff, false, if◌then◌else◌, inl, inr, none, refl,
  some, starts_with, suc, true, zero, ℕ, ◌=ₛ◌, ◌∙◌, ◌∷◌, ◌≡◌, ◌⊎◌,
}
use zediot_hub_connector.Receipts.{Receipt, Request, Times}
use zediot_hub_connector.Executor.{
  Action, Delivery, Envelope, Evidence, Field, Home, Library, Machine, RawEnvelope, Reading, Result,
  ServiceCall, ServiceOutcome, accepted, after_call, after_readback, after_reading, attempt,
  attempt_by, call_failed, call_service, dispatch, err, execute, execute_valid, get_receipt,
  is_allowlisted, is_terminal, is_text, lookup, missing, nothing, now, observed, ok, only_entity_id,
  other, poll, poll_rounds, request, round, save_at, save_receipt, sleep, text, timed_out,
  unless_expired, unless_terminal, unreadable, validate_command_envelope, wait_for_readback, ◌>>=◌,
  ◌>>◌,
}

-- The envelope names the domain, one of two services, an entity under its prefix, and a
-- `service_data` of that entity alone.
abbrev pub IsAllowed : RawEnvelope → Type 0
IsAllowed e =
    (e.domain ≡ "light")
    × ((e.service ≡ "turn_on") ⊎ (e.service ≡ "turn_off"))
    × (starts_with e.entity_id "light." ≡ true)
    × (only_entity_id e.service_data ≡ true)
    × (lookup "entity_id" e.service_data ≡ some (text e.entity_id))

is_text-eq : (o : Option Field) (t : String) → is_text o t ≡ true → o ≡ some (text t)
unfolding is_text
is_text-eq none t h = cc
is_text-eq (some other) t h = cc
is_text-eq (some (text s)) t h = ap (λ x. some (text x)) ((eq_iff s t).0 h)

is_allowlisted-IsAllowed : (e : RawEnvelope) → is_allowlisted e ≡ true → IsAllowed e
unfolding is_allowlisted
is_allowlisted-IsAllowed e h = ground (
  arith,
  eq_iff e.domain "light",
  eq_iff e.service "turn_on",
  eq_iff e.service "turn_off",
  is_text-eq (lookup "entity_id" e.service_data) e.entity_id,
)

module _ (L : Library) (H : Home) where
  -- The action makes no service call.
  abbrev pub IsQuiet : {A : Type 0} → Action L H A → Type 0
  IsQuiet a = (m : Machine L H) → (a m).1.calls ≡ m.calls

  bind-IsQuiet :
      {A B : Type 0} (a : Action L H A) (f : A → Action L H B)
      → IsQuiet a
      → ((x : A) → IsQuiet (f x))
      → IsQuiet (◌>>=◌ L H a f)
  bind-IsQuiet {A} {B} a f qa qf m = go (a m).0 (a m).1 (qa m)
    where
      go :
          (r : Result A) (m' : Machine L H)
          → m'.calls ≡ m.calls
          → (elim r as (λ _. Result B × Machine L H) [
            | ok x ↦ f x m'
            | err e ↦ (err e, m')
          ]).1.calls
            ≡ m.calls
      go (ok x) m' h = qf x m' ∙ h
      go (err e) m' h = h

  pub get_receipt-IsQuiet : (id : String) → IsQuiet (get_receipt L H id)
  unfolding get_receipt now
  get_receipt-IsQuiet id m = refl

  save_at-IsQuiet : (t : Times) (q : Request Evidence) → IsQuiet (save_at L H t q)
  unfolding save_at
  save_at-IsQuiet t q m = ground arith

  pub save_receipt-IsQuiet : (q : Request Evidence) → IsQuiet (save_receipt L H q)
  unfolding save_receipt
  save_receipt-IsQuiet q m = save_at-IsQuiet _ q _

  after_reading-IsQuiet :
      (r : Reading) (expected : String) (rest : Action L H (Option String))
      → IsQuiet rest
      → IsQuiet (after_reading L H r expected rest)
  unfolding after_reading
  after_reading-IsQuiet (observed state) expected rest h m = ground (arith, h m)
  after_reading-IsQuiet missing expected rest h m = h m
  after_reading-IsQuiet unreadable expected rest h m = refl

  round-IsQuiet :
      (b : Bool) (entity_id expected : String) (rest : Action L H (Option String))
      → IsQuiet rest
      → IsQuiet (round L H b entity_id expected rest)
  unfolding round
  round-IsQuiet false entity_id expected rest h m = refl
  round-IsQuiet true entity_id expected rest h m = after_reading-IsQuiet _ expected rest h _

  poll-IsQuiet :
      (fuel : ℕ) (entity_id expected : String) (deadline : ℕ)
      → IsQuiet (poll L H fuel entity_id expected deadline)
  unfolding poll
  poll-IsQuiet zero entity_id expected deadline m = refl
  poll-IsQuiet (suc fuel) entity_id expected deadline m =
      round-IsQuiet _ entity_id expected
        (◌>>◌ L H (sleep L H 200_000) (poll L H fuel entity_id expected deadline))
        (λ m'. poll-IsQuiet fuel entity_id expected deadline _) _

  wait-IsQuiet :
      (entity_id expected : String) (deadline : ℕ)
      → IsQuiet (wait_for_readback L H entity_id expected deadline)
  unfolding wait_for_readback
  wait-IsQuiet entity_id expected deadline m = poll-IsQuiet poll_rounds entity_id expected _ _

  after_readback-IsQuiet :
      (d : Delivery) (e : Envelope) (request_id : String) (o : Option String)
      → IsQuiet (after_readback L H d e request_id o)
  unfolding after_readback
  after_readback-IsQuiet d e request_id none m = save_receipt-IsQuiet _ _
  after_readback-IsQuiet d e request_id (some state) m = save_receipt-IsQuiet _ _

  pub after_call-IsQuiet :
      (d : Delivery) (e : Envelope) (deadline : ℕ) (o : ServiceOutcome)
      → IsQuiet (after_call L H d e deadline o)
  unfolding after_call
  after_call-IsQuiet d e deadline timed_out m = save_receipt-IsQuiet _ m
  after_call-IsQuiet d e deadline call_failed m = save_receipt-IsQuiet _ m
  after_call-IsQuiet d e deadline (accepted request_id) m =
      bind-IsQuiet
        (wait_for_readback L H e.entity_id (if e.service =ₛ "turn_on" then "on" else "off")
          deadline)
        (after_readback L H d e request_id)
        (wait-IsQuiet e.entity_id (if e.service =ₛ "turn_on" then "on" else "off") deadline)
        (after_readback-IsQuiet d e request_id) m

  -- The action makes at most the one service call.
  abbrev pub CallsAtMost : {A : Type 0} → ServiceCall → Action L H A → Type 0
  CallsAtMost c a = (m : Machine L H) → ((a m).1.calls ≡ m.calls) ⊎ ((a m).1.calls ≡ c ∷ m.calls)

  abbrev pub call_of : Envelope → ServiceCall
  call_of e = record { domain = e.domain; service = e.service; entity_id = e.entity_id }

  dispatch-CallsAtMost :
      (d : Delivery) (e : Envelope) (deadline : ℕ)
      → CallsAtMost (call_of e) (dispatch L H d e deadline)
  unfolding dispatch call_service
  dispatch-CallsAtMost d e deadline m =
      go (save_receipt L H q m).0 (save_receipt L H q m).1 (save_receipt-IsQuiet q m)
    where
      q : Request Evidence
      q = request L H d e "accepted" none nothing

      go :
          (r : Result (Option (Receipt Evidence))) (m' : Machine L H)
          → m'.calls ≡ m.calls
          → let after =
              (elim r as (λ _. Result (Option (Receipt Evidence)) × Machine L H) [
                | ok x ↦ ◌>>=◌ L H (call_service L H (call_of e)) (after_call L H d e deadline) m'
                | err x ↦ (err x, m')
              ]).1.calls in
            (after ≡ m.calls) ⊎ (after ≡ call_of e ∷ m.calls)
      go (ok x) m' h = inr (after_call-IsQuiet d e deadline _ _ ∙ ap (◌∷◌ (call_of e)) h)
      go (err x) m' h = inl h

  unless_expired-CallsAtMost :
      (b : Bool) (d : Delivery) (e : Envelope) (deadline : ℕ)
      → CallsAtMost (call_of e) (unless_expired L H b d e deadline)
  unfolding unless_expired
  unless_expired-CallsAtMost true d e deadline m = inl (save_receipt-IsQuiet _ m)
  unless_expired-CallsAtMost false d e deadline m = dispatch-CallsAtMost d e deadline m

  attempt_by-CallsAtMost :
      (d : Delivery) (e : Envelope) (o : Option ℕ) → CallsAtMost (call_of e) (attempt_by L H d e o)
  unfolding attempt_by
  attempt_by-CallsAtMost d e none m = inl refl
  attempt_by-CallsAtMost d e (some deadline) m = unless_expired-CallsAtMost _ d e deadline _

  unless_terminal-CallsAtMost :
      (d : Delivery) (e : Envelope) (o : Option (Receipt Evidence))
      → CallsAtMost (call_of e) (unless_terminal L H d e o)
  unfolding unless_terminal attempt
  unless_terminal-CallsAtMost d e none m = attempt_by-CallsAtMost d e (L.deadline d.deadline_at) m
  unless_terminal-CallsAtMost d e (some r) m = elim (Bool-cases (is_terminal r.status)) [
    | inl over ↦ rw over (inl refl)
    | inr open_ ↦ rw open_ (attempt_by-CallsAtMost d e (L.deadline d.deadline_at) m)
  ]

  valid-CallsAtMost :
      (d : Delivery) (e : Envelope) → CallsAtMost (call_of e) (execute_valid L H d (some e))
  unfolding execute_valid get_receipt now
  valid-CallsAtMost d e m = unless_terminal-CallsAtMost d e _ _

  -- Whatever the world does, an `execute` makes no service call, or makes one call, with the fields
  -- of an envelope that has passed the allowlist.
  pub execute_calls :
      (d : Delivery) (m : Machine L H)
      → ((execute L H d m).1.calls ≡ m.calls)
        ⊎ (IsAllowed d.envelope
            × ((execute L H d m).1.calls
                ≡ record {
                  domain = d.envelope.domain;
                  service = d.envelope.service;
                  entity_id = d.envelope.entity_id;
                }
                  ∷ m.calls))
  unfolding execute execute_valid validate_command_envelope
  execute_calls d m = elim (Bool-cases (is_allowlisted d.envelope)) [
    | inl passed ↦
        rw passed
          (elim (valid-CallsAtMost d
            (record {
              domain = d.envelope.domain;
              service = d.envelope.service;
              entity_id = d.envelope.entity_id;
            })
            m) [
              | inl none_made ↦ inl none_made
              | inr one_made ↦ inr (is_allowlisted-IsAllowed d.envelope passed, one_made)
            ])
    | inr refused ↦ rw refused (inl refl)
  ]
