-- ===== src/Runtime/Threads/Opening.antt =====
-- How `run_forever` of runtime.py ends while Core cannot be reached.
use zediot_hub_connector.Common.{
  Bool-cases, String, false, inl, inr, refl, some, subst, suc, sym, true, zero, ℕ, ◌≡◌, ◌⊎◌,
}
use zediot_hub_connector.Identity.{Codec, awaiting_activation, is_given, load_or_create}
use zediot_hub_connector.Runtime.Bootstrap.{
  Identity, Result, Runtime, Service, Settings, activates, called, no_fuel, not_reached, ok, raises,
  runtime_error,
}
use zediot_hub_connector.Runtime.Bootstrap.Prepare.{
  choose_path, has_provisioning_triple, poll, prepare, prepare_provisioned, wait_before_retry,
}
use zediot_hub_connector.Runtime.Threads.{after_prepare, ensure_data_plane_open, start}

module _ (C : Codec) (S : Service C.Key) where
  -- How the polling ends while Core cannot be reached: at a stop, or at the bound.
  data Waited : Result (Unit {0}) × Runtime C S → Type 0 where
    gave_up : {s : Runtime C S} → s.binding_state ≡ awaiting_activation → Waited (ok tt, s)
    goes_on : {s : Runtime C S} → Waited (no_fuel, s)

  -- `activate` raises something other than `HubActivationError`.
  abbrev pub IsUnreachable : Type 0
  IsUnreachable =
      (w : S.World) (identity : Identity C S)
      → (text : String) × ((S.activate w identity).0 ≡ not_reached text)

  poll-Waited :
      (limit fuel : ℕ) (c : Settings) (identity : Identity C S) (delay : ℕ) (s : Runtime C S)
      → IsUnreachable
      → s.binding_state ≡ awaiting_activation
      → Waited (poll C S limit fuel c identity delay s)
  unfolding poll wait_before_retry called
  poll-Waited limit zero c identity delay s away h = goes_on
  poll-Waited limit (suc fuel) c identity delay s away h =
      let (text, e) = away s.world identity in
      elim (Bool-cases (S.stop_is_set s.world)) [
        | inl stop ↦ rw (poll, stop) (gave_up h)
        | inr running ↦
            let (r, w) = S.activate s.world identity in
            let failing = record (called C S activates w s) { binding_failure = some text } in
            let (delay', later) = wait_before_retry C S c delay failing in
            rw (poll, running, e) (poll-Waited limit fuel c identity delay' later away h)
      ]

  after-Waited :
      (p : Result (Unit {0}) × Runtime C S)
      → Waited p
      → (after_prepare C S p.0 p.1 ≡ no_fuel)
        ⊎ (after_prepare C S p.0 p.1
            ≡ raises (runtime_error "HUB_DATA_PLANE_CLOSED: awaiting_activation"))
  unfolding after_prepare ensure_data_plane_open
  after-Waited _ (gave_up h) = inr (rw (after_prepare, ensure_data_plane_open, h) refl)
  after-Waited _ goes_on = inl refl

  -- While Core cannot be reached, a start of a provisioned device that has no connector id yet
  -- does not end in order, even if a stop is asked for: it raises HUB_DATA_PLANE_CLOSED, unless
  -- the bound on the number of polls is met.
  pub start-unreachable :
      (fuel : ℕ) (c : Settings) (s : Runtime C S) (identity : Identity C S)
      → IsUnreachable
      → (load_or_create C S.fresh_key s.disk).0 ≡ some identity
      → is_given identity.connector_id ≡ false
      → has_provisioning_triple c ≡ true
      → ((start C S fuel c s).0 ≡ no_fuel)
        ⊎ ((start C S fuel c s).0
            ≡ raises (runtime_error "HUB_DATA_PLANE_CLOSED: awaiting_activation"))
  unfolding start prepare choose_path prepare_provisioned
  start-unreachable fuel c s identity away e new triple =
      let s' : Runtime C S = record s {
        disk = (load_or_create C S.fresh_key s.disk).1;
        binding_state = awaiting_activation;
      } in
      let waited = poll-Waited fuel fuel c identity c.binding_poll_initial s' away refl in
      let path : prepare C S fuel c s ≡ poll C S fuel fuel c identity c.binding_poll_initial s' =
        rw (prepare, e, choose_path, new, triple) refl in
      after-Waited (prepare C S fuel c s) (subst Waited (sym path) waited)
