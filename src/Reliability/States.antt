-- ===== src/Reliability/States.antt =====
-- The states of the circuit breaker of reliability.py.
use zediot_hub_connector.Common.{
  List, [], arith, none, refl, some, subst, true, ℕ, ◌+◌, ◌<◌, ◌↔◌, ◌∷◌, ◌≡◌, ◌≢◌, ◌≤◌,
}
use zediot_hub_connector.Reliability.{
  Call, CircuitBreaker, CircuitPermit, CircuitState, allow, allow_in, allow_probe, allows, close,
  closed, fails, failure, half_open, new, observes, open_, run, step, succeeds, success,
}

-- A closed circuit has counted fewer failures than the threshold and no opening time; an open or
-- half-open one has an opening time.
abbrev pub IsCoherent : CircuitState → CircuitBreaker → Type 0
IsCoherent closed b = (b.failure_count < b.failure_threshold) × (b.opened_at ≡ none)
IsCoherent _ b = b.opened_at ≢ none

abbrev pub IsSound : CircuitBreaker → Type 0
IsSound b = (0 < b.failure_threshold) × IsCoherent b.state b

step-IsSound : (b : CircuitBreaker) (c : Call) → IsSound b → IsSound (step b c)
unfolding step allow allow_in allow_probe success close failure
step-IsSound b (allows now) v = ground arith
step-IsSound b observes v = v
step-IsSound b (succeeds permit) v = ground arith
step-IsSound b (fails now) v = ground arith

run-IsSound : (b : CircuitBreaker) (cs : List Call) → IsSound b → IsSound (run b cs)
unfolding run
run-IsSound b [] v = v
run-IsSound b (c ∷ cs) v = run-IsSound (step b c) cs (step-IsSound b c v)

-- With a positive threshold, after any calls a closed circuit has counted fewer failures than the
-- threshold and no opening time, and an open or half-open circuit has an opening time.
pub run-new-IsSound :
    (threshold recovery : ℕ) (cs : List Call)
    → 0 < threshold
    → IsSound (run (new threshold recovery) cs)
unfolding new
run-new-IsSound threshold recovery cs h = run-IsSound (new threshold recovery) cs (h, (h, refl))

-- Whether a call ends a probe: a failure, or a success that counts.
abbrev pub EndsProbe : CircuitBreaker → Call → Type 0
EndsProbe b (allows now) = ⊥
EndsProbe b observes = ⊥
EndsProbe b (succeeds permit) = permit.generation ≡ b.generation
EndsProbe b (fails now) = Unit {0}

-- No call of the list ends the probe that is under way when it is made.
abbrev pub NoneEnds : CircuitBreaker → List Call → Type 0
NoneEnds b [] = Unit {0}
NoneEnds b (c ∷ cs) = (¬ EndsProbe b c) × NoneEnds (step b c) cs

probing_step :
    (b : CircuitBreaker) (c : Call) → b.state ≡ half_open → ¬ EndsProbe b c → step b c ≡ b
unfolding step allow allow_in allow_probe success
probing_step b (allows now) p n = ground arith
probing_step b observes p n = refl
probing_step b (succeeds permit) p n = ground arith
probing_step b (fails now) p n = absurd (n tt)

probing_run :
    (b : CircuitBreaker) (cs : List Call) → b.state ≡ half_open → NoneEnds b cs → run b cs ≡ b
unfolding run
probing_run b [] p n = refl
probing_run b (c ∷ cs) p n =
    let same = probing_step b c p n.0 in
    rw same (probing_run b cs p (subst (λ x. NoneEnds x cs) same n.1))

probe_state :
    (b : CircuitBreaker) (now : ℕ) {p : CircuitPermit}
    → (allow b now).1 ≡ some p
    → p.half_open_probe ≡ true
    → (allow b now).0.state ≡ half_open
unfolding allow allow_in allow_probe
probe_state b now e h = ground arith

half_open_refuses : (b : CircuitBreaker) (now : ℕ) → b.state ≡ half_open → (allow b now).1 ≡ none
unfolding allow allow_in
half_open_refuses b now h = ground arith

-- Once `allow` has granted a half-open probe, no other permit is granted, by whatever thread and at
-- whatever time, until a failure or a success of the current generation ends the probe.
pub one_probe :
    (b : CircuitBreaker) (now later : ℕ) (cs : List Call) {p : CircuitPermit}
    → (allow b now).1 ≡ some p
    → p.half_open_probe ≡ true
    → NoneEnds (allow b now).0 cs
    → (allow (run (allow b now).0 cs) later).1 ≡ none
one_probe b now later cs e h n =
    rw (probing_run (allow b now).0 cs (probe_state b now e h) n)
      (half_open_refuses (allow b now).0 later (probe_state b now e h))

-- A circuit that is open grants a probe as soon as the recovery time has passed since its opening,
-- and nothing before.
pub allow_open :
    (b : CircuitBreaker) (now opened : ℕ)
    → b.state ≡ open_
    → b.opened_at ≡ some opened
    → ((allow b now).1 ≢ none) ↔ (opened + b.recovery_seconds ≤ now)
unfolding allow allow_in allow_probe
allow_open b now opened s o = ground arith

-- After a failure of a half-open circuit nothing is granted until the recovery time has passed since
-- that failure, whatever the count.
pub failure_reopens :
    (b : CircuitBreaker) (now later : ℕ)
    → b.state ≡ half_open
    → later < now + b.recovery_seconds
    → (allow (failure b now) later).1 ≡ none
unfolding allow allow_in allow_probe failure
failure_reopens b now later s h = ground arith
