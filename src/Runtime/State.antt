-- ===== src/Runtime/State.antt =====
-- The state that `flush_once` of runtime.py works on, and what lies outside: the client of the core
-- service (core_client.py), the clock and `random`, over a world of any type.
use zediot_hub_connector.Common.{Bool, List, Option, String, ℕ, ℤ}
use zediot_hub_connector.Queue.{Queue}
use zediot_hub_connector.Reliability.{CircuitBreaker}
use zediot_hub_connector.Reliability.Retry.{Outcome}

-- An upload ends with `int(receipt["cursor_after"])`, where none is that this raises, or raises itself; `session_invalid` is `HubSessionInvalidError`.
pub data CoreError : Type 0 where
  session_invalid other_error : CoreError

-- The keys of a payload that the runtime reads.
pub record Keys (V : Type 0) : Type 0 where
  pub source_event_id : V → Option String
  pub delivery_mode : V → Option String
  pub is_replay : V → Bool

-- What is sent: a snapshot's payload under its sequence, or the payloads of events under theirs
-- with the first and the last; and whether it is marked as a replay. The version and the time of an
-- upload of events are read off its last event.
pub data Upload (V : Type 0) : Type 0 where
  snapshot : ℕ → V → Bool → Upload V
  events : ℕ → ℕ → List (ℕ × V) → Bool → Upload V

pub record Core (V : Type 0) : Type 1 where
  pub World : Type 0
  pub now : World → ℕ × World
  pub monotonic : World → ℕ × World
  pub upload : World → Upload V → Outcome (Option ℤ) CoreError × World
  pub heartbeat : World → Outcome (Unit {0}) CoreError × World
  pub sleep : World → ℕ → World
  pub random : ℕ → ℕ

-- The settings that the upload reads.
pub record Config : Type 0 where
  pub event_batch_size : ℕ
  pub retry_max_attempts : ℕ
  pub retry_base : ℕ

-- `session` is none while the identity or the session is missing; else it holds the grants.
pub record State (T : Type 0) (V : Type 0) (W : Type 0) : Type 0 where
  pub breaker : CircuitBreaker
  pub queue : Queue T
  pub session : Option (List String)
  pub cursor : ℤ
  pub world : W
  pub sent : List (Upload V)
