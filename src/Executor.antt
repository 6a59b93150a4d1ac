-- ===== src/Executor.antt =====
-- `HubCommandExecutor` (src/zediot_ha_hub_connector/command_executor.py). A method is an action on
-- the machine: the receipt store, the world behind the Home Assistant client and the clock, and the
-- service calls that have been made, newest first. Times are in microseconds.
pub mod World
pub mod Validation
pub mod Effects
pub mod Termination
pub mod Memory
unfoldable pub use World.*
unfoldable pub use Validation.*
use zediot_hub_connector.Common.{
  Bool, List, Option, String, [], false, if◌then◌else◌, leb, ltb, mem_text, min, none, some, suc,
  true, zero, ℕ, ◌+◌, ◌=ₛ◌, ◌∷◌,
}
use zediot_hub_connector.Queue.{Json}
use zediot_hub_connector.Receipts.{Store, Receipt, Request, Times, saved, conflict, get, save}
use zediot_hub_connector.Executor.World.{
  Error, Home, Reading, Result, ServiceCall, ServiceOutcome, accepted, bad_deadline, call_failed,
  err, idempotency_conflict, missing, no_fuel, not_allowlisted, observed, ok, readback_raised,
  timed_out, unreadable,
}
use zediot_hub_connector.Executor.Validation.{Envelope, RawEnvelope, validate_command_envelope}

-- A command as it is delivered. `deadline_at` is a text.
pub record Delivery : Type 0 where
  pub command_id : String
  pub idempotency_key : String
  pub envelope : RawEnvelope
  pub deadline_at : String

-- What an evidence dictionary is made of.
pub data Evidence : Type 0 where
  nothing : Evidence
  not_observed : String → ℕ → Evidence
  readback_confirmed : String → Bool → ℕ → Evidence

-- `status in TERMINAL_STATUSES`
unfoldable pub is_terminal : String → Bool
is_terminal status = mem_text status ("executed" ∷ "failed" ∷ "timeout" ∷ [])

-- `dumps` and `loads` of an evidence dictionary, the digest of an envelope, and `_deadline`, which
-- rests on `datetime.fromisoformat` and gives `none` where that raises.
pub record Library : Type 1 where
  pub Encoded : Type 0
  pub dumps : Evidence → Encoded
  pub loads : Encoded → Evidence
  pub digest : Envelope → String
  pub deadline : String → Option ℕ

abbrev pub json : Library → Json
json L = record {
  Value = Evidence;
  Encoded = L.Encoded;
  dumps = L.dumps;
  loads = L.loads;
  byte_length = λ _. 0;
}

pub record Machine (L : Library) (H : Home) : Type 0 where
  pub receipts : Store L.Encoded
  pub world : H.World
  pub calls : List ServiceCall

-- A round lasts at least 0.2 seconds and the loop 5 at most.
abbrev pub poll_rounds : ℕ
poll_rounds = 26

module _ (L : Library) (H : Home) where
  abbrev pub Action : Type 0 → Type 0
  Action A = Machine L H → Result A × Machine L H

  infixl 5 ◌>>=◌ ◌>>◌
  abbrev pub ◌>>=◌ : {A B : Type 0} → Action A → (A → Action B) → Action B
  ◌>>=◌ a f m = let (r, m') = a m in elim r [ ok x ↦ f x m' | err e ↦ (err e, m') ]

  abbrev pub ◌>>◌ : {A B : Type 0} → Action A → Action B → Action B
  a >> b = a >>= λ _. b

  abbrev pub pure : {A : Type 0} → A → Action A
  pure x m = (ok x, m)

  abbrev pub raise : {A : Type 0} → Error → Action A
  raise e m = (err e, m)

  abbrev pub or_raise : {A : Type 0} → Option A → Error → Action A
  or_raise none e = raise e
  or_raise (some x) e = pure x

  -- `datetime.now(UTC)`
  unfoldable pub now : Action ℕ
  now m = let (t, w) = H.now m.world in (ok t, record m { world = w })

  unfoldable pub get_receipt : String → Action (Option (Receipt Evidence))
  get_receipt id = do
    t ← now
    λ m. let (s, r) = get (json L) m.receipts t id in (ok r, record m { receipts = s })

  unfoldable pub save_at : Times → Request Evidence → Action (Option (Receipt Evidence))
  save_at t q m =
      let (s, r) = save (json L) m.receipts t q in
      let m' = record m { receipts = s } in
      elim r [ saved x ↦ (ok x, m') | conflict ↦ (err idempotency_conflict, m') ]

  -- The three readings stand in a row; on a conflict the source takes the first alone.
  unfoldable pub save_receipt : Request Evidence → Action (Option (Receipt Evidence))
  unfolding now save_at
  save_receipt q = do
    before ← now
    written ← now
    after ← now
    save_at (record { before = before; written = written; after = after }) q

  unfoldable pub call_service : ServiceCall → Action ServiceOutcome
  call_service c m =
      let (r, w) = H.call_service m.world c in (ok r, record m { world = w; calls = c ∷ m.calls })

  unfoldable pub read_state : String → Action Reading
  read_state entity_id m =
      let (r, w) = H.read_entity_state m.world entity_id in (ok r, record m { world = w })

  unfoldable pub sleep : ℕ → Action (Unit {0})
  sleep d m = (ok tt, record m { world = H.sleep m.world d })

  -- A round of the loop behind its reading; `rest` sleeps and goes on.
  unfoldable pub after_reading : Reading → String → Action (Option String) → Action (Option String)
  after_reading (observed state) expected rest =
      if state =ₛ expected then pure (some state) else rest
  after_reading missing expected rest = rest
  after_reading unreadable expected rest = raise readback_raised

  unfoldable pub round : Bool → String → String → Action (Option String) → Action (Option String)
  unfolding read_state after_reading
  round false entity_id expected rest = pure none
  round true entity_id expected rest = do
    reading ← read_state entity_id
    after_reading reading expected rest

  -- The `while` loop of `_wait_for_readback`, with a bound on its rounds.
  unfoldable pub poll : ℕ → String → String → ℕ → Action (Option String)
  unfolding now read_state sleep
  poll zero entity_id expected deadline = raise no_fuel
  poll (suc fuel) entity_id expected deadline = do
    t ← now
    round (ltb t deadline) entity_id expected
        (sleep 200_000 >> poll fuel entity_id expected deadline)

  unfoldable pub wait_for_readback : String → String → ℕ → Action (Option String)
  unfolding now
  wait_for_readback entity_id expected command_deadline = do
    t ← now
    poll poll_rounds entity_id expected (min command_deadline (t + 5_000_000))

  unfoldable pub request :
      Delivery → Envelope → String → Option String → Evidence → Request Evidence
  request d e status reason evidence = record {
    command_id = d.command_id;
    idempotency_key = d.idempotency_key;
    digest = L.digest e;
    status = status;
    reason_code = reason;
    evidence = evidence;
  }

  unfoldable pub after_readback :
      Delivery → Envelope → String → Option String → Action (Option (Receipt Evidence))
  unfolding now
  after_readback d e request_id none = do
    t ← now
    save_receipt (request d e "timeout" (some "ha_readback_timeout") (not_observed request_id t))
  after_readback d e request_id (some state) = do
    t ← now
    save_receipt (request d e "executed" none (readback_confirmed request_id (state =ₛ "on") t))

  unfoldable pub after_call :
      Delivery → Envelope → ℕ → ServiceOutcome → Action (Option (Receipt Evidence))
  after_call d e deadline timed_out =
      save_receipt (request d e "timeout" (some "ha_service_timeout") nothing)
  after_call d e deadline call_failed =
      save_receipt (request d e "failed" (some "ha_service_call_failed") nothing)
  after_call d e deadline (accepted request_id) = do
    readback ←
        wait_for_readback e.entity_id (if e.service =ₛ "turn_on" then "on" else "off") deadline
    after_readback d e request_id readback

  -- The part of `execute` behind the deadline test.
  unfoldable pub dispatch : Delivery → Envelope → ℕ → Action (Option (Receipt Evidence))
  dispatch d e deadline = do
    save_receipt (request d e "accepted" none nothing)
    outcome ←
        call_service (record { domain = e.domain; service = e.service; entity_id = e.entity_id })
    after_call d e deadline outcome

  -- `if _deadline(…) <= datetime.now(UTC)`
  unfoldable pub unless_expired :
      Bool → Delivery → Envelope → ℕ → Action (Option (Receipt Evidence))
  unless_expired true d e deadline =
      save_receipt (request d e "timeout" (some "command_deadline_expired") nothing)
  unless_expired false d e deadline = dispatch d e deadline

  -- With the value of `_deadline(delivery["deadline_at"])`.
  unfoldable pub attempt_by : Delivery → Envelope → Option ℕ → Action (Option (Receipt Evidence))
  unfolding now
  attempt_by d e none = raise bad_deadline
  attempt_by d e (some deadline) = do t ← now; unless_expired (leb deadline t) d e deadline

  unfoldable pub attempt : Delivery → Envelope → Action (Option (Receipt Evidence))
  unfolding attempt_by
  attempt d e = attempt_by d e (L.deadline d.deadline_at)

  unfoldable pub unless_terminal :
      Delivery → Envelope → Option (Receipt Evidence) → Action (Option (Receipt Evidence))
  unless_terminal d e none = attempt d e
  unless_terminal d e (some r) = if is_terminal r.status then pure (some r) else attempt d e

  -- With the value of `validate_command_envelope`.
  unfoldable pub execute_valid : Delivery → Option Envelope → Action (Option (Receipt Evidence))
  execute_valid d none = raise not_allowlisted
  execute_valid d (some e) = do existing ← get_receipt d.command_id; unless_terminal d e existing

  unfoldable pub execute : Delivery → Action (Option (Receipt Evidence))
  unfolding execute_valid
  execute d = execute_valid d (validate_command_envelope d.envelope)
