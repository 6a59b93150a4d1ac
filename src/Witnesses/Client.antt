-- ===== src/Witnesses/Client.antt =====
-- A core that gives a token for 100 seconds, with a second for each request.
use zediot_hub_connector.Common.{
  List, Option, String, [], if◌then◌else◌, leb, ltb, none, refl, some, ℕ, ◌&&◌, ◌+◌, ◌∷◌, ◌≡◌,
}
use zediot_hub_connector.Client.{
  Response, answered, invalid_session_detail, is_below_session, is_sessions, lease_conflict_of,
  other_data, settle_request,
}
use zediot_hub_connector.Client.Token.{
  HubSession, Op, State, Transport, asked, authenticate, calls, connect_session, disconnects,
  ensure_token, is_fresh, open_result, opened, post_open, posted, prove, rebind_when, run,
}
use zediot_hub_connector.Client.Binding.{IsBound, IsRebinding, run-IsBound}
use zediot_hub_connector.Identity.{given_or, is_given}
use zediot_hub_connector.Witnesses.Bootstrap.{old_identity}

abbrev session : HubSession
session = record {
  session_id = "s1";
  integration_instance_id = "i1";
  lease_generation = 1;
  lease_expires_at = 90;
  resume_cursor = none;
  effective_grants = [];
}

abbrev token_at : ℕ → String
token_at n = if ltb n 30 then "t1" else "t2"

abbrev served : {A : Type 0} → A → Option (Response A)
served a = some (record { status_code = 200; shape = other_data; data_of = a })

abbrev transport : Transport ℕ
transport = record {
  World = ℕ;
  Data = Unit;
  now = λ w. w;
  is_success = λ n. leb 200 n && ltb n 300;
  sign = λ key message. message;
  post_challenge = λ w connector credential. (
    served (record {
      challenge_id = "c";
      nonce = "n";
      canonical_message = "m";
      signature_algorithm = none;
    }),
    w + 1,
  );
  post_token = λ w challenge signature.
      (served (record { access_token = token_at w; expires_at = w + 100 }), w + 1);
  post_sessions = λ w token cursor. (served session, w + 1);
  post_rebind = λ w token session. (served tt, w + 1);
  post_below = λ w token session rest. (served tt, w + 50);
}

abbrev client : State transport
client = record { world = 0; token = none; token_expires_at = none; sent = [] }

abbrev connected : State transport
connected = record {
  world = 3;
  token = some "t1";
  token_expires_at = some 101;
  sent = opened "t1" "s1" ∷ asked ∷ asked ∷ [];
}

client_connects : connect_session transport old_identity none client ≡ (answered session, connected)
unfolding connect_session ensure_token is_fresh authenticate prove posted rebind_when post_open
    open_result settle_request invalid_session_detail is_below_session lease_conflict_of is_sessions
    is_given given_or
client_connects = refl

transport-IsRebinding : IsRebinding transport
unfolding settle_request invalid_session_detail is_below_session lease_conflict_of is_sessions
transport-IsRebinding w token _ = refl

abbrev requests : List Op
requests = calls "heartbeat" ∷ calls "events" ∷ calls "heartbeat" ∷ disconnects ∷ []

run-IsBound_example : IsBound (run transport old_identity session requests connected).sent
run-IsBound_example =
    run-IsBound transport old_identity none session requests client connected transport-IsRebinding
      tt client_connects
