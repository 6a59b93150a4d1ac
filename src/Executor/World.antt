-- ===== src/Executor/World.antt =====
-- The machine of command_executor.py: the Home Assistant client (ha_client.py) and the clock are
-- parameters, over a world of any type.
use zediot_hub_connector.Common.{String, ℕ}

pub record ServiceCall : Type 0 where
  pub domain : String
  pub service : String
  pub entity_id : String

-- `call_service` returns a result with its request id, raises a `TimeoutError`, or raises another
-- exception.
pub data ServiceOutcome : Type 0 where
  accepted : String → ServiceOutcome
  timed_out : ServiceOutcome
  call_failed : ServiceOutcome

-- `read_entity_state` returns a state, returns nothing, or raises.
pub data Reading : Type 0 where
  observed : String → Reading
  missing : Reading
  unreadable : Reading

pub record Home : Type 1 where
  pub World : Type 0
  pub now : World → ℕ × World
  pub call_service : World → ServiceCall → ServiceOutcome × World
  pub read_entity_state : World → String → Reading × World
  pub sleep : World → ℕ → World

-- The exceptions that leave `execute`; `no_fuel` is none of them, and marks that the bound of the
-- readback loop ran out.
pub data Error : Type 0 where
  not_allowlisted bad_deadline idempotency_conflict readback_raised no_fuel : Error

pub data Result (A : Type 0) : Type 0 where
  ok : A → Result A
  err : Error → Result A
