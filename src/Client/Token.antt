-- ===== src/Client/Token.antt =====
-- `IoTCoreHubClient` of core_client.py: `authenticate`, `_ensure_token`, `_rebind_session_token`,
-- `connect_session`, `disconnect_session` and the requests below a session. What is posted is a
-- parameter, and a log keeps what was posted, the last first. Times are in seconds.
use zediot_hub_connector.Common.{
  Bool, List, Option, String, [], false, if◌then◌else◌, leb, none, not, some, ℕ, ℤ, ◌+◌, ◌=ₛ◌, ◌||◌,
  ◌∷◌,
}
use zediot_hub_connector.Identity.{ConnectorIdentity, ed25519, given_or, is_given}
use zediot_hub_connector.Client.{
  Answer, Response, answered, below_session, failed, other_path, runtime_error, sessions,
  settle_request,
}

pub record HubSession : Type 0 where
  pub session_id : String
  pub integration_instance_id : String
  pub lease_generation : ℕ
  pub lease_expires_at : ℕ
  pub resume_cursor : Option ℤ
  pub effective_grants : List String

-- The keys of an answer to a challenge request.
pub record Challenge : Type 0 where
  pub challenge_id : String
  pub nonce : String
  pub canonical_message : String
  pub signature_algorithm : Option String

pub record Issued : Type 0 where
  pub access_token : String
  pub expires_at : ℕ

-- `none` is an `httpx.TransportError`. The last operation is any other request below a session; its
-- texts are the token and what follows the session in the path.
pub record Transport (K : Type 0) : Type 1 where
  pub World : Type 0
  pub Data : Type 0
  pub now : World → ℕ
  pub is_success : ℕ → Bool
  pub sign : K → String → String
  pub post_challenge : World → String → String → Option (Response Challenge) × World
  pub post_token : World → Challenge → String → Option (Response Issued) × World
  pub post_sessions : World → String → Option ℤ → Option (Response HubSession) × World
  pub post_rebind : World → String → HubSession → Option (Response (Unit {0})) × World
  pub post_below : World → String → HubSession → String → Option (Response Data) × World

-- What was posted, with the token, and with whether the core has bound the session to it.
pub data Sent : Type 0 where
  asked : Sent
  opened : String → String → Sent
  not_opened : Sent
  rebound : String → String → Sent
  not_rebound : Sent
  below : String → String → String → Sent

pub record Client (W : Type 0) : Type 0 where
  pub world : W
  pub token : Option String
  pub token_expires_at : Option ℕ
  pub sent : List Sent

-- The first test of `_ensure_token`.
unfoldable pub is_fresh : ℕ → Option String → Option ℕ → Bool
is_fresh now none expires = false
is_fresh now (some token) none = false
is_fresh now (some token) (some expires) = leb (now + 60) expires

unfoldable pub rebind_result : String → HubSession → Answer (Unit {0}) → Sent
rebind_result token session (answered _) = rebound token session.session_id
rebind_result token session (failed _) = not_rebound

unfoldable pub open_result : String → Answer HubSession → Sent
open_result token (answered session) = opened token session.session_id
open_result token (failed _) = not_opened

-- The requests that the runtime makes of one session.
pub data Op : Type 0 where
  calls : String → Op
  disconnects : Op

module _ {K : Type 0} (T : Transport K) where
  abbrev pub State : Type 0
  State = Client T.World

  unfoldable pub posted : Sent → T.World → State → State
  posted event w s = record s { world = w; sent = event ∷ s.sent }

  -- `authenticate` behind the challenge.
  unfoldable pub prove : ConnectorIdentity K → Answer Challenge → State → Answer (Unit {0}) × State
  unfolding posted given_or settle_request
  prove identity (failed error) s = (failed error, s)
  prove identity (answered challenge) s =
      let signature = T.sign identity.private_key challenge.canonical_message in
      let (r, w) = T.post_token s.world challenge signature in
      let s' = posted asked w s in
      if not (given_or challenge.signature_algorithm ed25519 =ₛ identity.signature_algorithm)
      then (failed (runtime_error "HUB_SIGNATURE_ALGORITHM_MISMATCH"), s)
      else elim (settle_request T.is_success other_path r) [
        | failed error ↦ (failed error, s')
        | answered issued ↦ (
          answered tt,
          record s' { token = some issued.access_token; token_expires_at = some issued.expires_at },
        )
      ]

  unfoldable pub authenticate : ConnectorIdentity K → State → Answer (Unit {0}) × State
  unfolding posted prove settle_request is_given given_or
  authenticate identity s =
      let (r, w) =
        T.post_challenge s.world (given_or identity.connector_id "")
          (given_or identity.credential_id "") in
      if not (is_given identity.connector_id) || not (is_given identity.credential_id)
      then (failed (runtime_error "HUB_IDENTITY_NOT_ENROLLED"), s)
      else prove identity (settle_request T.is_success other_path r) (posted asked w s)

  -- `_rebind_session_token`, with the guard of `_request` on the token.
  unfoldable pub rebind_session_token : HubSession → State → Answer (Unit {0}) × State
  unfolding posted settle_request is_given given_or rebind_result
  rebind_session_token session s =
      let token = given_or s.token "" in
      let (r, w) = T.post_rebind s.world token session in
      let answer = settle_request T.is_success (below_session session.session_id "token") r in
      if not (is_given s.token)
      then (failed (runtime_error "HUB_TOKEN_MISSING"), s)
      else (answer, posted (rebind_result token session answer) w s)

  -- `_ensure_token` behind `authenticate`.
  unfoldable pub rebind_when :
      Option HubSession → Answer (Unit {0}) → State → Answer (Unit {0}) × State
  unfolding rebind_session_token
  rebind_when session (failed error) s = (failed error, s)
  rebind_when none (answered _) s = (answered tt, s)
  rebind_when (some session) (answered _) s = rebind_session_token session s

  unfoldable pub ensure_token :
      ConnectorIdentity K → Option HubSession → State → Answer (Unit {0}) × State
  unfolding is_fresh authenticate rebind_when
  ensure_token identity session s =
      let (r, s') = authenticate identity s in
      if is_fresh (T.now s.world) s.token s.token_expires_at
      then (answered tt, s)
      else rebind_when session r s'

  unfoldable pub post_open : Option ℤ → State → Answer HubSession × State
  unfolding posted settle_request is_given given_or open_result
  post_open resume_cursor s =
      let token = given_or s.token "" in
      let (r, w) = T.post_sessions s.world token resume_cursor in
      let answer = settle_request T.is_success sessions r in
      if not (is_given s.token)
      then (failed (runtime_error "HUB_TOKEN_MISSING"), s)
      else (answer, posted (open_result token answer) w s)

  unfoldable pub connect_session :
      ConnectorIdentity K → Option ℤ → State → Answer HubSession × State
  unfolding ensure_token post_open
  connect_session identity resume_cursor s =
      let (r, s') = ensure_token identity none s in
      elim r [ failed error ↦ (failed error, s') | answered _ ↦ post_open resume_cursor s' ]

  -- `_request` on a path below the session.
  unfoldable pub request_below : HubSession → String → State → Answer T.Data × State
  unfolding posted settle_request is_given given_or
  request_below session rest s =
      let token = given_or s.token "" in
      let (r, w) = T.post_below s.world token session rest in
      if not (is_given s.token) then (failed (runtime_error "HUB_TOKEN_MISSING"), s) else (
        settle_request T.is_success (below_session session.session_id rest) r,
        posted (below token session.session_id rest) w s,
      )

  -- `heartbeat`, the uploads, the claims and the acknowledgements.
  unfoldable pub call_session :
      ConnectorIdentity K → HubSession → String → State → Answer T.Data × State
  unfolding ensure_token request_below
  call_session identity session rest s =
      let (r, s') = ensure_token identity (some session) s in
      elim r [ failed error ↦ (failed error, s') | answered _ ↦ request_below session rest s' ]

  unfoldable pub disconnect_session : HubSession → State → Answer T.Data × State
  unfolding request_below
  disconnect_session session s = request_below session "disconnect" s

  unfoldable pub step : ConnectorIdentity K → HubSession → Op → State → State
  unfolding call_session disconnect_session
  step identity session (calls rest) s = (call_session identity session rest s).1
  step identity session disconnects s = (disconnect_session session s).1

  unfoldable pub run : ConnectorIdentity K → HubSession → List Op → State → State
  unfolding step
  run identity session [] s = s
  run identity session (op ∷ ops) s = run identity session ops (step identity session op s)
