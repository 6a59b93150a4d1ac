-- ===== src/Executor/Termination.antt =====
-- The readback loop of command_executor.py ends within its bound.
use zediot_hub_connector.Common.{
  Bool, Option, String, arith, false, if◌then◌else◌, ltb→lt, none, refl, some, suc, true, zero, ℕ,
  ◌*◌, ◌+◌, ◌=ₛ◌, ◌≡◌, ◌≢◌, ◌≤◌,
}
use zediot_hub_connector.Receipts.{Receipt, Request}
use zediot_hub_connector.Executor.{
  Action, Delivery, Envelope, Evidence, Home, Library, Machine, Reading, Result, ServiceOutcome,
  accepted, after_call, after_readback, after_reading, attempt, attempt_by, call_failed,
  call_service, dispatch, err, execute, execute_valid, get_receipt, missing, no_fuel, nothing, now,
  observed, ok, poll, request, round, save_receipt, sleep, timed_out, unless_expired,
  unless_terminal, unreadable, validate_command_envelope, wait_for_readback, ◌>>=◌,
}
use zediot_hub_connector.Executor.Effects.{call_of}

-- What is asked of the clock: a reading is the present time, time never goes back, and a sleep
-- lasts at least as long as it is told to.
pub record IsClock (H : Home) : Type 0 where
  pub time : H.World → ℕ
  pub now_reads : (w : H.World) → (H.now w).0 ≡ time w
  pub now_time : (w : H.World) → time w ≤ time (H.now w).1
  pub read_time :
      (w : H.World) (entity_id : String) → time w ≤ time (H.read_entity_state w entity_id).1
  pub sleep_time : (w : H.World) (d : ℕ) → time w + d ≤ time (H.sleep w d)

module _ (L : Library) (H : Home) where
  abbrev pub Ends : {A : Type 0} → Action L H A → Machine L H → Type 0
  Ends a m = (a m).0 ≢ err no_fuel

  bind-Ends :
      {A B : Type 0} (a : Action L H A) (f : A → Action L H B) (m : Machine L H)
      → Ends a m
      → ((x : A) (m' : Machine L H) → Ends (f x) m')
      → Ends (◌>>=◌ L H a f) m
  bind-Ends {A} {B} a f m ea ef = go (a m).0 (a m).1 ea
    where
      go :
          (r : Result A) (m' : Machine L H)
          → r ≢ err no_fuel
          → (elim r as (λ _. Result B × Machine L H) [ ok x ↦ f x m' | err e ↦ (err e, m') ]).0
            ≢ err no_fuel
      go (ok x) m' h = ef x m'
      go (err e) m' h = λ p. h (cc)

  save_receipt-Ends : (q : Request Evidence) (m : Machine L H) → Ends (save_receipt L H q) m
  unfolding save_receipt
  save_receipt-Ends q m = ground arith

  module _ (clock : IsClock H) where
    open clock use {time, now_reads, now_time, read_time, sleep_time}

    after_reading-Ends :
        (r : Reading) (expected : String) (rest : Action L H (Option String)) (m : Machine L H)
        → Ends rest m
        → Ends (after_reading L H r expected rest) m
    unfolding after_reading
    after_reading-Ends (observed state) expected rest m h = ground arith
    after_reading-Ends missing expected rest m h = h
    after_reading-Ends unreadable expected rest m h = λ p. cc

    round-Ends :
        (b : Bool) (entity_id expected : String) (rest : Action L H (Option String))
        (m : Machine L H)
        → (b ≡ true → (m' : Machine L H) → time m.world ≤ time m'.world → Ends rest m')
        → Ends (round L H b entity_id expected rest) m
    unfolding round
    round-Ends false entity_id expected rest m h = λ p. cc
    round-Ends true entity_id expected rest m h =
        after_reading-Ends _ expected rest _ (h refl _ (read_time m.world entity_id))

    -- With a round for every 0.2 seconds up to the deadline, and one more, the loop ends.
    poll-Ends :
        (fuel : ℕ) (entity_id expected : String) (deadline : ℕ) (m : Machine L H)
        → deadline ≤ time m.world + fuel * 200_000
        → Ends (poll L H (suc fuel) entity_id expected deadline) m
    unfolding poll sleep
    poll-Ends zero entity_id expected deadline m h =
        round-Ends _ entity_id expected _ _
          (λ b m' t. absurd (omega (arith, ltb→lt _ _ b, now_reads m.world)))
    poll-Ends (suc fuel) entity_id expected deadline m h =
        round-Ends _ entity_id expected _ _ (λ b m' t.
          poll-Ends fuel entity_id expected deadline _
            (omega (arith, t, now_time m.world, sleep_time m'.world 200_000)))

    wait-Ends :
        (entity_id expected : String) (deadline : ℕ) (m : Machine L H)
        → Ends (wait_for_readback L H entity_id expected deadline) m
    unfolding wait_for_readback
    wait-Ends entity_id expected deadline m =
        poll-Ends 25 entity_id expected _ _ (omega (arith, now_reads m.world, now_time m.world))

    after_readback-Ends :
        (d : Delivery) (e : Envelope) (request_id : String) (o : Option String) (m : Machine L H)
        → Ends (after_readback L H d e request_id o) m
    unfolding after_readback
    after_readback-Ends d e request_id none m = save_receipt-Ends _ _
    after_readback-Ends d e request_id (some state) m = save_receipt-Ends _ _

    after_call-Ends :
        (d : Delivery) (e : Envelope) (deadline : ℕ) (o : ServiceOutcome) (m : Machine L H)
        → Ends (after_call L H d e deadline o) m
    unfolding after_call
    after_call-Ends d e deadline timed_out m = save_receipt-Ends _ m
    after_call-Ends d e deadline call_failed m = save_receipt-Ends _ m
    after_call-Ends d e deadline (accepted request_id) m =
        bind-Ends
          (wait_for_readback L H e.entity_id (if e.service =ₛ "turn_on" then "on" else "off")
            deadline)
          (after_readback L H d e request_id) m
          (wait-Ends e.entity_id (if e.service =ₛ "turn_on" then "on" else "off") deadline m)
          (after_readback-Ends d e request_id)

    dispatch-Ends :
        (d : Delivery) (e : Envelope) (deadline : ℕ) (m : Machine L H)
        → Ends (dispatch L H d e deadline) m
    unfolding dispatch call_service
    dispatch-Ends d e deadline m =
        bind-Ends (save_receipt L H (request L H d e "accepted" none nothing))
          (λ _. ◌>>=◌ L H (call_service L H (call_of L H e)) (after_call L H d e deadline)) m
          (save_receipt-Ends _ m) (λ x m'. after_call-Ends d e deadline _ _)

    unless_expired-Ends :
        (b : Bool) (d : Delivery) (e : Envelope) (deadline : ℕ) (m : Machine L H)
        → Ends (unless_expired L H b d e deadline) m
    unfolding unless_expired
    unless_expired-Ends true d e deadline m = save_receipt-Ends _ m
    unless_expired-Ends false d e deadline m = dispatch-Ends d e deadline m

    attempt_by-Ends :
        (d : Delivery) (e : Envelope) (o : Option ℕ) (m : Machine L H)
        → Ends (attempt_by L H d e o) m
    unfolding attempt_by
    attempt_by-Ends d e none m = λ p. cc
    attempt_by-Ends d e (some deadline) m = unless_expired-Ends _ d e deadline _

    unless_terminal-Ends :
        (d : Delivery) (e : Envelope) (o : Option (Receipt Evidence)) (m : Machine L H)
        → Ends (unless_terminal L H d e o) m
    unfolding unless_terminal attempt
    unless_terminal-Ends d e none m = attempt_by-Ends d e (L.deadline d.deadline_at) m
    unless_terminal-Ends d e (some r) m =
        ground (arith, attempt_by-Ends d e (L.deadline d.deadline_at) m)

    execute_valid-Ends :
        (d : Delivery) (o : Option Envelope) (m : Machine L H) → Ends (execute_valid L H d o) m
    unfolding execute_valid get_receipt now
    execute_valid-Ends d none m = λ p. cc
    execute_valid-Ends d (some e) m = unless_terminal-Ends d e _ _

    -- On a clock that does not go back and sleeps that last, `execute` returns or raises one of its
    -- exceptions: the bound of 26 rounds on the readback loop is never met.
    pub execute-Ends : (d : Delivery) (m : Machine L H) → (execute L H d m).0 ≢ err no_fuel
    unfolding execute
    execute-Ends d m = execute_valid-Ends d (validate_command_envelope d.envelope) m
