-- ===== src/Runtime/Bootstrap/Quiet.antt =====
-- The calls that `prepare` of runtime.py makes for a connector that has its id.
use zediot_hub_connector.Common.{All, String, arith, min, some, suc, true, zero, ℕ, ◌*◌, ◌≡◌}
use zediot_hub_connector.Identity.{Codec, given_or, is_given, load_or_create, ready}
use zediot_hub_connector.Runtime.Bootstrap.{
  Call, Identity, Result, Runtime, Service, Session, Settings, activates, called, exchanges,
  no_fuel, ok, raises, stopped_waiting,
}
use zediot_hub_connector.Runtime.Bootstrap.Sessions.{
  adopt_session, authenticate_and_connect, connect, core_authenticate, establish_session, go_live,
  while_unavailable,
}
use zediot_hub_connector.Runtime.Bootstrap.Prepare.{
  after_status, check_enrollment, choose_path, prepare, prepare_existing, prepare_paired_existing,
}

-- A call that neither activates nor pairs.
abbrev pub IsQuiet : Call → Type 0
IsQuiet activates = ⊥
IsQuiet exchanges = ⊥
IsQuiet _ = Unit

module _ (C : Codec) (S : Service C.Key) where
  abbrev pub Quiet : Runtime C S → Type 0
  Quiet s = All IsQuiet s.calls

  authenticate-Quiet :
      (identity : Identity C S) (s : Runtime C S)
      → Quiet s
      → Quiet (core_authenticate C S identity s).1
  unfolding core_authenticate called
  authenticate-Quiet identity s h = ground arith

  adopt-Quiet :
      (session : Session) (s : Runtime C S) → Quiet s → Quiet (adopt_session C S session s).1
  unfolding adopt_session
  adopt-Quiet session s h = ground arith

  connect-Quiet :
      (fuel : ℕ) (identity : Identity C S) (s : Runtime C S)
      → Quiet s
      → Quiet (connect C S fuel identity s).1
  unfolding connect called
  connect-Quiet zero identity s h = h
  connect-Quiet (suc fuel) identity s h = grind (arith, adopt-Quiet, connect-Quiet fuel)

  while-Quiet :
      {A : Type 0} (fuel delay : ℕ) (action : Runtime C S → Result A × Runtime C S)
      → ((s : Runtime C S) → Quiet s → Quiet (action s).1)
      → (s : Runtime C S) → Quiet s
      → Quiet (while_unavailable C S fuel delay action s).1
  unfolding while_unavailable called
  while-Quiet zero delay action keeps s h = h
  while-Quiet (suc fuel) delay action keeps s h =
      let kept = keeps s h in grind (arith, while-Quiet fuel (min (delay * 2) 60_000) action keeps)

  live_action-Quiet :
      (fuel : ℕ) (identity : Identity C S) (s : Runtime C S)
      → Quiet s
      → Quiet (authenticate_and_connect C S fuel identity s).1
  unfolding authenticate_and_connect establish_session
  live_action-Quiet fuel identity s h =
      let kept = authenticate-Quiet identity s h in grind (arith, kept, connect-Quiet fuel identity)

  go_live-Quiet :
      (fuel : ℕ) (c : Settings) (identity : Identity C S) (s : Runtime C S)
      → Quiet s
      → Quiet (go_live C S fuel c identity s).1
  unfolding go_live
  go_live-Quiet fuel c identity s h =
      while-Quiet fuel c.binding_poll_initial (authenticate_and_connect C S fuel identity)
        (live_action-Quiet fuel identity) (record s { binding_state = ready }) h

  check-Quiet :
      (enrollment_id exchange_receipt : String) (s : Runtime C S)
      → Quiet s
      → Quiet (check_enrollment C S enrollment_id exchange_receipt s).1
  unfolding check_enrollment called
  check-Quiet enrollment_id exchange_receipt s h = ground arith

  status-Quiet :
      (fuel : ℕ) (c : Settings) (identity : Identity C S) (r : Result String) (s : Runtime C S)
      → Quiet s
      → Quiet (after_status C S fuel c identity r s).1
  unfolding after_status
  status-Quiet fuel c identity (ok status) s h =
      let live =
        go_live-Quiet fuel c identity (record s { identity = some identity; binding_state = ready })
          h in
      ground (arith, live)
  status-Quiet fuel c identity stopped_waiting s h = h
  status-Quiet fuel c identity (raises error) s h = h
  status-Quiet fuel c identity no_fuel s h = h

  paired_existing-Quiet :
      (fuel : ℕ) (c : Settings) (identity : Identity C S) (s : Runtime C S)
      → Quiet s
      → Quiet (prepare_paired_existing C S fuel c identity s).1
  unfolding prepare_paired_existing
  paired_existing-Quiet fuel c identity s h =
      let action =
        check_enrollment C S (given_or identity.enrollment_id "")
          (given_or identity.exchange_receipt "") in
      let checked =
        while-Quiet fuel c.binding_poll_initial action
          (check-Quiet (given_or identity.enrollment_id "") (given_or identity.exchange_receipt ""))
          s h in
      let r = while_unavailable C S fuel c.binding_poll_initial action s in
      let after = status-Quiet fuel c identity r.0 r.1 checked in ground (arith, after)

  existing-Quiet :
      (fuel : ℕ) (c : Settings) (identity : Identity C S) (s : Runtime C S)
      → Quiet s
      → Quiet (prepare_existing C S fuel c identity s).1
  unfolding prepare_existing
  existing-Quiet fuel c identity s h =
      let live =
        go_live-Quiet fuel c identity
          (record s {
            identity = some identity;
            binding_state = given_or identity.binding_state ready;
          })
          h in
      let paired = paired_existing-Quiet fuel c identity s h in ground (arith, live, paired)

  -- A connector whose stored identity has a connector id neither activates nor pairs when it
  -- starts, whatever the settings, the answers of the core, the way it was enrolled and the
  -- number of retries.
  pub prepare-Quiet :
      (fuel : ℕ) (c : Settings) (s : Runtime C S) (identity : Identity C S)
      → (load_or_create C S.fresh_key s.disk).0 ≡ some identity
      → is_given identity.connector_id ≡ true
      → Quiet s
      → Quiet (prepare C S fuel c s).1
  unfolding prepare choose_path
  prepare-Quiet fuel c s identity e given h =
      rw (prepare, e, choose_path, given)
        (existing-Quiet fuel c identity
          (record s { disk = (load_or_create C S.fresh_key s.disk).1 }) h)
