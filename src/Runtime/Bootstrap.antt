-- ===== src/Runtime/Bootstrap.antt =====
-- The start of the connector: `prepare` of runtime.py with the three ways to a session, and
-- `authenticate` of core_client.py as far as its guard. The core service, the stop event and the
-- Ed25519 library are parameters.
use zediot_hub_connector.Common.{Bool, List, Option, String, ℕ, ℤ, ◌∷◌}
use zediot_hub_connector.Identity.{Codec, ConnectorIdentity, Disk, device_secret, pairing_code}
use zediot_hub_connector.Identity.Saves.{Exchange}
use zediot_hub_connector.Queue.{Queue}
use zediot_hub_connector.Runtime.Waiting.{Fault}
pub mod Sessions
pub mod Prepare
pub mod Quiet
pub mod Unenrolled
pub mod Recovery

-- What `activate` answers with; the names are the keys of the answer.
pub record Activation : Type 0 where
  pub identity_id : Option String
  pub binding_state : Option String
  pub bound_space_node_id : Option String
  pub connector_id : Option String
  pub credential_id : Option String

-- The second is `HubActivationError` with `detail` and `terminal`, the last any other exception.
pub data Activate : Type 0 where
  activation : Activation → Activate
  refused : String → Bool → Activate
  not_reached : String → Activate

pub record Session : Type 0 where
  pub session_id : String
  pub grants : List String
  pub resume_cursor : Option ℤ

-- A `RuntimeError` with its text, an exception of the HTTP client, or an exception of the files or
-- of the queue.
pub data Error : Type 0 where
  runtime_error : String → Error
  http_error : Fault → Error
  storage_error : Error

-- `connect_session`: a session, `HubLeaseConflictError` with its milliseconds, or another error.
pub data Connect : Type 0 where
  connected : Session → Connect
  lease_conflict : Option ℕ → Connect
  not_connected : Fault → Connect

-- How a call ends: it returns, is told to stop while it waits, or raises; the last marks that the
-- bound on a loop ran out.
pub data Result (A : Type 0) : Type 0 where
  ok : A → Result A
  stopped_waiting : Result A
  raises : Error → Result A
  no_fuel : Result A

pub data Request (A : Type 0) : Type 0 where
  answered : A → Request A
  failed_with : Fault → Request A

-- The calls that leave the connector, and the waits, in milliseconds.
pub data Call : Type 0 where
  activates exchanges checks_enrollment authenticates connects : Call
  waits : ℕ → Call

pub record Settings : Type 0 where
  pub tenant_id : Option String
  pub product_key : Option String
  pub device_name : Option String
  pub device_secret : Option String
  pub pairing_code : Option String
  pub binding_poll_initial : ℕ
  pub binding_poll_max : ℕ

-- The identity is an argument where the source sends its key or its ids. `stop_is_set` is
-- `stop_event.is_set`, `stop_wait` is `stop_event.wait`, `fresh_key` is what `generate` would give,
-- `upper` is `str.upper`, and `Encoded` what the queue stores of a
-- payload; `take_claim_code` reads, strips and deletes the file of a claim code, with "" for none.
pub record Service (K : Type 0) : Type 1 where
  pub World : Type 0
  pub fresh_key : K
  pub Encoded : Type 0
  pub upper : String → String
  pub activate : World → ConnectorIdentity K → Activate × World
  pub exchange : World → ConnectorIdentity K → Request Exchange × World
  pub enrollment_status : World → String → String → Request String × World
  pub authenticate : World → ConnectorIdentity K → Option Fault × World
  pub connect_session : World → ConnectorIdentity K → ℤ → Connect × World
  pub take_claim_code : World → String × World
  pub stop_is_set : World → Bool
  pub stop_wait : World → ℕ → Bool × World

-- The fields of `HubConnectorRuntime` that the start uses, with the calls made so far, the last one
-- first.
pub record Hub (K : Type 0) (B : Type 0) (T : Type 0) (W : Type 0) : Type 0 where
  pub world : W
  pub disk : Disk B
  pub queue : Queue T
  pub identity : Option (ConnectorIdentity K)
  pub session : Option Session
  pub has_rule_runtime : Bool
  pub cursor : ℤ
  pub binding_state : String
  pub binding_failure : Option String
  pub calls : List Call

module _ (C : Codec) (S : Service C.Key) where
  abbrev pub Runtime : Type 0
  Runtime = Hub C.Key C.Bytes S.Encoded S.World

  abbrev pub Identity : Type 0
  Identity = ConnectorIdentity C.Key

  unfoldable pub called : Call → S.World → Runtime → Runtime
  called c w s = record s { world = w; calls = c ∷ s.calls }
