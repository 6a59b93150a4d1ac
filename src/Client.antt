-- ===== src/Client.antt =====
-- core_client.py: how an answer of the core becomes a result or an error. The HTTP library is a
-- parameter; a path is taken apart into what the tests on it look for.
use zediot_hub_connector.Common.{
  Bool, List, Option, String, [], false, if◌then◌else◌, mem_text, none, not, some, true, ℕ, ◌&&◌,
  ◌==◌, ◌=ₛ◌, ◌||◌, ◌∷◌,
}
use text.Mathlib.Text.{starts_with}
pub mod Token
pub mod Binding

-- `/api/hub/v1/sessions`, a path below it with its session id and what follows, or another path.
pub data RequestPath : Type 0 where
  sessions : RequestPath
  below_session : String → String → RequestPath
  other_path : RequestPath

-- What `response.json()` has under `data`: it raises, the answer is no object or its `data` is
-- neither a text nor an object, a text, or an object with the keys that are read; a number below 0
-- or a Boolean in `retry_after_seconds` is none, and its unit is the millisecond.
pub data Shape : Type 0 where
  no_json : Shape
  other_data : Shape
  text_data : String → Shape
  object_data : Option String → Option String → Option ℕ → Shape

pub record Response (A : Type 0) : Type 0 where
  pub status_code : ℕ
  pub shape : Shape
  pub data_of : A

-- The exceptions of a request: `HubSessionInvalidError`, `HubLeaseConflictError`,
-- `httpx.HTTPStatusError`, `httpx.TransportError`, and a `RuntimeError`.
pub data RequestError : Type 0 where
  session_invalid : String → String → RequestError
  lease_conflict : Option ℕ → RequestError
  status_error : ℕ → RequestError
  transport_error : RequestError
  runtime_error : String → RequestError

-- The five details of a session that has to be established again.
abbrev invalid_details : List String
invalid_details =
    "Hub session is not active" ∷ "stale Hub session lease generation" ∷ "Hub session lease expired"
    ∷ "Hub session token binding mismatch" ∷ "Hub session has no token binding" ∷ []

-- The local `detail` of `_invalid_session_detail`.
unfoldable pub detail_of : Shape → Option String
detail_of (text_data detail) = some detail
detail_of (object_data detail reason_code retry_after) = detail
detail_of no_json = none
detail_of other_data = none

unfoldable pub is_below_session : RequestPath → Bool
is_below_session (below_session session_id rest) = true
is_below_session sessions = false
is_below_session other_path = false

unfoldable pub listed_detail : Option String → Option String
listed_detail none = none
listed_detail (some detail) = if mem_text detail invalid_details then some detail else none

unfoldable pub invalid_session_detail : {A : Type 0} → Response A → RequestPath → Option String
unfolding is_below_session detail_of listed_detail
invalid_session_detail response path =
    if not (is_below_session path)
    then none
    else if not (response.status_code == 403 || response.status_code == 409)
    then none
    else listed_detail (detail_of response.shape)

unfoldable pub is_sessions : RequestPath → Bool
is_sessions sessions = true
is_sessions (below_session session_id rest) = false
is_sessions other_path = false

-- The tests of `_lease_conflict` on the data.
unfoldable pub conflict_of : Shape → Option (Option ℕ)
conflict_of (text_data detail) =
    if detail =ₛ "Hub connector already has an active session lease" then some none else none
conflict_of (object_data detail none retry_after) = none
conflict_of (object_data detail (some reason_code) retry_after) =
    if reason_code =ₛ "active_lease_conflict" then some retry_after else none
conflict_of no_json = none
conflict_of other_data = none

unfoldable pub lease_conflict_of : {A : Type 0} → Response A → RequestPath → Option (Option ℕ)
unfolding is_sessions conflict_of
lease_conflict_of response path =
    if not (is_sessions path) || not (response.status_code == 409)
    then none
    else conflict_of response.shape

unfoldable pub session_id_from_path : RequestPath → String
session_id_from_path (below_session session_id rest) = session_id
session_id_from_path sessions = ""
session_id_from_path other_path = ""

pub data Answer (A : Type 0) : Type 0 where
  answered : A → Answer A
  failed : RequestError → Answer A

-- `_request` behind the request itself; `none` is an `httpx.TransportError`, and `is_success` is the
-- test of `raise_for_status`.
unfoldable pub settle_request :
    {A : Type 0} → (ℕ → Bool) → RequestPath → Option (Response A) → Answer A
unfolding invalid_session_detail lease_conflict_of session_id_from_path
settle_request is_success path none = failed transport_error
settle_request is_success path (some response) = elim (invalid_session_detail response path) [
  | some detail ↦ failed (session_invalid (session_id_from_path path) detail)
  | none ↦ elim (lease_conflict_of response path) [
    | some retry_after ↦ failed (lease_conflict retry_after)
    | none ↦
        if is_success response.status_code
        then answered response.data_of
        else failed (status_error response.status_code)
  ]
]

-- `needle in text`
unfoldable pub contains : String → String → Bool
contains needle String.[] = starts_with "" needle
contains needle (String.◌∷◌ c s) =
    let rest = contains needle s in starts_with (String.◌∷◌ c s) needle || rest

unfoldable pub is_terminal_status : ℕ → Bool
is_terminal_status n = n == 400 || (n == 403 || (n == 404 || (n == 409 || n == 422)))

-- The field `terminal` of `_activation_error`, of a status and the detail.
unfoldable pub is_terminal : ℕ → String → Bool
unfolding is_terminal_status contains
is_terminal status_code detail =
    is_terminal_status status_code && not (contains "too many failed" detail)
