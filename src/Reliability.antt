-- ===== src/Reliability.antt =====
-- reliability.py (src/zediot_ha_hub_connector): the circuit breaker in front of the server, and
-- `retry_bounded`. A reading of the monotonic clock is an argument, in a unit that divides all.
pub mod Retry
pub mod Stale
pub mod States
use zediot_hub_connector.Common.{
  Bool, List, Option, [], false, if◌then◌else◌, leb, ltb, none, not, some, true, ℕ, ◌+◌, ◌==◌, ◌||◌,
  ◌∷◌,
}

pub data CircuitState : Type 0 where
  closed open_ half_open : CircuitState

pub record CircuitPermit : Type 0 where
  pub generation : ℕ
  pub half_open_probe : Bool

pub record CircuitBreaker : Type 0 where
  pub failure_threshold : ℕ
  pub recovery_seconds : ℕ
  pub state : CircuitState
  pub failure_count : ℕ
  pub opened_at : Option ℕ
  pub generation : ℕ

abbrev pub is_half_open : CircuitState → Bool
is_half_open half_open = true
is_half_open _ = false

unfoldable pub new : ℕ → ℕ → CircuitBreaker
new threshold recovery = record {
  failure_threshold = threshold;
  recovery_seconds = recovery;
  state = closed;
  failure_count = 0;
  opened_at = none;
  generation = 0;
}

-- The rest of `allow` behind its tests of the state. `clock() - opened_at < recovery_seconds`.
unfoldable pub allow_probe : CircuitBreaker → ℕ → Option ℕ → CircuitBreaker × Option CircuitPermit
allow_probe b now none = (b, none)
allow_probe b now (some opened) = if ltb now (opened + b.recovery_seconds) then (b, none) else (
  record b { state = half_open },
  some (record { generation = b.generation; half_open_probe = true }),
)

unfoldable pub allow_in : CircuitState → CircuitBreaker → ℕ → CircuitBreaker × Option CircuitPermit
allow_in closed b now = (b, some (record { generation = b.generation; half_open_probe = false }))
allow_in half_open b now = (b, none)
allow_in open_ b now = allow_probe b now b.opened_at

-- `allow`
unfoldable pub allow : CircuitBreaker → ℕ → CircuitBreaker × Option CircuitPermit
unfolding allow_in allow_probe
allow b now = allow_in b.state b now

unfoldable pub observe : CircuitBreaker → CircuitPermit
observe b = record { generation = b.generation; half_open_probe = is_half_open b.state }

-- `_close`
unfoldable pub close : CircuitBreaker → CircuitBreaker
close b = record b { state = closed; failure_count = 0; opened_at = none }

unfoldable pub success : CircuitBreaker → CircuitPermit → CircuitBreaker × Bool
success b permit = if not (permit.generation == b.generation) then (b, false) else (close b, true)

unfoldable pub failure : CircuitBreaker → ℕ → CircuitBreaker
failure b now =
    let b' = record b { generation = b.generation + 1; failure_count = b.failure_count + 1 } in
    if is_half_open b'.state || leb b'.failure_threshold b'.failure_count
    then record b' { state = open_; opened_at = some now }
    else b'

unfoldable pub current_state : CircuitBreaker → CircuitState
current_state b = b.state

-- The calls of several threads, in the order in which they take the lock.
pub data Call : Type 0 where
  allows : ℕ → Call
  observes : Call
  succeeds : CircuitPermit → Call
  fails : ℕ → Call

unfoldable pub step : CircuitBreaker → Call → CircuitBreaker
step b (allows now) = (allow b now).0
step b observes = b
step b (succeeds permit) = (success b permit).0
step b (fails now) = failure b now

unfoldable pub run : CircuitBreaker → List Call → CircuitBreaker
run b [] = b
run b (c ∷ cs) = run (step b c) cs
