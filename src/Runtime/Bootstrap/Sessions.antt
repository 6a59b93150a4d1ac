-- ===== src/Runtime/Bootstrap/Sessions.antt =====
-- `_go_live`, `_establish_session`, `_recover_session` and `_call_while_core_unavailable` of
-- runtime.py, and the guard of
-- `authenticate` of core_client.py.
use zediot_hub_connector.Common.{
  Bool, Option, String, false, if◌then◌else◌, mem_text, min, none, not, pos, some, suc, zero, ℕ, ℤ,
  ◌*◌, ◌=ₛ◌, ◌||◌,
}
use zediot_hub_connector.Identity.{Codec, is_given, ready}
use zediot_hub_connector.Queue.{synchronize_with_server_cursor}
use zediot_hub_connector.Runtime.Waiting.{core_temporarily_unavailable, lease_conflict_wait}
use zediot_hub_connector.Runtime.Bootstrap.{
  Error, Identity, Result, Runtime, Service, Session, Settings, authenticates, called, connected,
  connects, http_error, lease_conflict, no_fuel, not_connected, ok, raises, runtime_error,
  stopped_waiting, storage_error, waits,
}

unfoldable pub is_temporary : Error → Bool
unfolding core_temporarily_unavailable
is_temporary (http_error fault) = core_temporarily_unavailable fault
is_temporary (runtime_error _) = false
is_temporary storage_error = false

-- A stop during the wait makes `_go_live` return like any other end.
unfoldable pub returns_anyway : Result (Unit {0}) → Result (Unit {0})
returns_anyway (ok _) = ok tt
returns_anyway stopped_waiting = ok tt
returns_anyway (raises error) = raises error
returns_anyway no_fuel = no_fuel

-- `int((resume_cursor or {}).get("uplink_sequence") or 0)`
unfoldable pub resume_sequence : Option ℤ → ℤ
resume_sequence none = pos 0
resume_sequence (some n) = n

-- `self.session and self.session.session_id != stale_session_id`
unfoldable pub is_renewed : String → Option Session → Bool
is_renewed stale none = false
is_renewed stale (some session) = not (session.session_id =ₛ stale)

module _ (C : Codec) (S : Service C.Key) where
  unfoldable pub core_authenticate : Identity C S → Runtime C S → Result (Unit {0}) × Runtime C S
  unfolding called is_given
  core_authenticate identity s =
      let (r, w) = S.authenticate s.world identity in
      if not (is_given identity.connector_id) || not (is_given identity.credential_id)
      then (raises (runtime_error "HUB_IDENTITY_NOT_ENROLLED"), s)
      else elim r [
        | none ↦ (ok tt, called C S authenticates w s)
        | some fault ↦ (raises (http_error fault), called C S authenticates w s)
      ]

  -- The rest of `_establish_session` once there is a session.
  unfoldable pub adopt_session : Session → Runtime C S → Result (Unit {0}) × Runtime C S
  unfolding synchronize_with_server_cursor resume_sequence
  adopt_session session s =
      let acknowledged = resume_sequence session.resume_cursor in
      let s' = record s {
        session = some session;
        has_rule_runtime = mem_text "local_rule_runtime" session.grants;
        cursor = acknowledged;
      } in
      elim (synchronize_with_server_cursor s.queue acknowledged) [
        | none ↦ (raises storage_error, s')
        | some (q, _) ↦ (ok tt, record s' { queue = q })
      ]

  -- The loop of `_establish_session`.
  unfoldable pub connect : ℕ → Identity C S → Runtime C S → Result (Unit {0}) × Runtime C S
  unfolding called adopt_session lease_conflict_wait
  connect zero identity s = (no_fuel, s)
  connect (suc fuel) identity s =
      let (r, w) = S.connect_session s.world identity s.cursor in
      let s' = called C S connects w s in
      elim r [
        | connected session ↦ adopt_session session s'
        | not_connected fault ↦ (raises (http_error fault), s')
        | lease_conflict retry_after ↦
            let ms = lease_conflict_wait retry_after in
            let (stop, w') = S.stop_wait w ms in
            let s'' = called C S (waits ms) w' s' in
            let rest = connect fuel identity s'' in if stop then (ok tt, s'') else rest
      ]

  unfoldable pub establish_session :
      ℕ → Identity C S → Runtime C S → Result (Unit {0}) × Runtime C S
  unfolding connect
  establish_session fuel identity s = connect fuel identity (record s { binding_state = ready })

  -- `_call_while_core_unavailable` around an action on the runtime.
  unfoldable pub while_unavailable :
      {A : Type 0}
      → ℕ
      → ℕ
      → (Runtime C S → Result A × Runtime C S)
      → Runtime C S
      → Result A × Runtime C S
  unfolding is_temporary called
  while_unavailable zero delay action s = (no_fuel, s)
  while_unavailable (suc fuel) delay action s =
      let (r, s') = action s in
      elim r [
        | ok a ↦ (ok a, s')
        | stopped_waiting ↦ (stopped_waiting, s')
        | no_fuel ↦ (no_fuel, s')
        | raises error ↦
            let (stop, w) = S.stop_wait s'.world delay in
            let s'' = called C S (waits delay) w s' in
            let rest = while_unavailable fuel (min (delay * 2) 60_000) action s'' in
            if not (is_temporary error)
            then (raises error, s')
            else if stop
            then (stopped_waiting, s'')
            else rest
      ]

  -- The action of `_go_live`.
  unfoldable pub authenticate_and_connect :
      ℕ → Identity C S → Runtime C S → Result (Unit {0}) × Runtime C S
  unfolding core_authenticate establish_session
  authenticate_and_connect fuel identity s =
      let (r, s') = core_authenticate identity s in
      elim r [
        | ok _ ↦ establish_session fuel identity s'
        | stopped_waiting ↦ (stopped_waiting, s')
        | raises error ↦ (raises error, s')
        | no_fuel ↦ (no_fuel, s')
      ]

  unfoldable pub recover_session : ℕ → String → Runtime C S → Result (Unit {0}) × Runtime C S
  unfolding is_renewed authenticate_and_connect
  recover_session fuel stale s =
      if is_renewed stale s.session then (ok tt, s) else elim s.identity [
        | none ↦ (raises (runtime_error "HUB_IDENTITY_NOT_READY"), s)
        | some identity ↦ authenticate_and_connect fuel identity s
      ]

  unfoldable pub go_live :
      ℕ → Settings → Identity C S → Runtime C S → Result (Unit {0}) × Runtime C S
  unfolding while_unavailable authenticate_and_connect returns_anyway
  go_live fuel c identity s =
      let (r, s') =
        while_unavailable fuel c.binding_poll_initial (authenticate_and_connect fuel identity)
          (record s { binding_state = ready }) in
      (returns_anyway r, s')
