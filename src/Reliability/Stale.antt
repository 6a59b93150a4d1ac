-- ===== src/Reliability/Stale.antt =====
-- A success that was overtaken by a failure does not close the circuit of reliability.py.
use zediot_hub_connector.Common.{
  List, [], arith, false, refl, some, ℕ, ◌++◌, ◌+◌, ◌<◌, ◌∷◌, ◌≡◌, ◌≤◌,
}
use zediot_hub_connector.Reliability.{
  Call, CircuitBreaker, CircuitPermit, allow, allow_in, allow_probe, allows, close, fails, failure,
  observes, run, step, succeeds, success,
}

step_generation : (b : CircuitBreaker) (c : Call) → b.generation ≤ (step b c).generation
unfolding step allow allow_in allow_probe success close failure
step_generation b (allows now) = ground arith
step_generation b observes = omega arith
step_generation b (succeeds permit) = ground arith
step_generation b (fails now) = ground arith

run_generation : (b : CircuitBreaker) (cs : List Call) → b.generation ≤ (run b cs).generation
unfolding run
run_generation b [] = omega arith
run_generation b (c ∷ cs) = omega (arith, step_generation b c, run_generation (step b c) cs)

-- A permit of an earlier generation.
abbrev pub IsStale : CircuitBreaker → CircuitPermit → Type 0
IsStale b p = p.generation < b.generation

success_stale : (b : CircuitBreaker) (p : CircuitPermit) → IsStale b p → success b p ≡ (b, false)
unfolding success
success_stale b p h = ground arith

pub failure_generation :
    (b : CircuitBreaker) (now : ℕ) → (failure b now).generation ≡ b.generation + 1
unfolding failure
failure_generation b now = ground arith

run-append : (b : CircuitBreaker) (cs ds : List Call) → run b (cs ++ ds) ≡ run (run b cs) ds
unfolding run
run-append b [] ds = refl
run-append b (c ∷ cs) ds = run-append (step b c) cs ds

permit_generation :
    (b : CircuitBreaker) (now : ℕ) {p : CircuitPermit}
    → (allow b now).1 ≡ some p
    → p.generation ≡ (allow b now).0.generation
unfolding allow allow_in allow_probe
permit_generation b now e = ground arith

later_generation :
    (b : CircuitBreaker) (failed : ℕ) (after : List Call)
    → b.generation < (run b (fails failed ∷ after)).generation
unfolding run step
later_generation b failed after =
    omega (arith, failure_generation b failed, run_generation (failure b failed) after)

-- If any failure is recorded between the grant of a permit and its success, whatever the other
-- calls in between, then the success is ignored: it returns false and changes nothing.
pub success_after_failure :
    (b : CircuitBreaker) (now failed : ℕ) (before after : List Call) {p : CircuitPermit}
    → (allow b now).1 ≡ some p
    → let c = run (allow b now).0 (before ++ fails failed ∷ after) in success c p ≡ (c, false)
success_after_failure b now failed before after {p} e =
    let a = (allow b now).0 in
    let x = run a before in
    success_stale _ p (
      rw (run-append a before (fails failed ∷ after)) (
        omega (
          arith,
          permit_generation b now e,
          run_generation a before,
          later_generation x failed after,
        )))
