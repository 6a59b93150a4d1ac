-- ===== src/Runtime/Bootstrap/Prepare.antt =====
-- `prepare` of runtime.py: a stored identity, a pairing code, or a provisioned device.
use Prim.Native.String.{◌++◌ as ◌+ₛ◌}
use zediot_hub_connector.Common.{
  Bool, String, if◌then◌else◌, min, none, not, some, suc, zero, ℕ, ◌&&◌, ◌*◌, ◌=ₛ◌, ◌||◌,
}
use zediot_hub_connector.Identity.{
  Codec, awaiting_activation, awaiting_binding, device_secret, effective_bootstrap_mode, given_or,
  is_given, load_or_create, ready,
}
use zediot_hub_connector.Identity.Saves.{
  Activated, save_activation, save_binding_state, save_exchange,
}
use zediot_hub_connector.Runtime.Bootstrap.{
  Activation, Identity, Result, Runtime, Service, Settings, activates, activation, answered, called,
  checks_enrollment, exchanges, failed_with, http_error, no_fuel, not_reached, ok, raises, refused,
  runtime_error, stopped_waiting, storage_error, waits,
}
use zediot_hub_connector.Runtime.Bootstrap.Sessions.{go_live, while_unavailable}

unfoldable pub has_provisioning_triple : Settings → Bool
unfolding is_given
has_provisioning_triple c =
    is_given c.tenant_id
    && is_given c.product_key
    && is_given c.device_name
    && is_given c.device_secret

unfoldable pub activated_of : Settings → Activation → Activated
unfolding given_or
activated_of c a = record {
  tenant_id = given_or c.tenant_id "";
  product_key = given_or c.product_key "";
  device_name = given_or c.device_name "";
  identity_id = a.identity_id;
  binding_state = given_or a.binding_state awaiting_binding;
  bound_space_node_id = a.bound_space_node_id;
  connector_id = a.connector_id;
  credential_id = none;
}

abbrev claim_code_hint : String
claim_code_hint =
    "claim code received locally but this build binds through the IoT Core app: ask the end user to enter it there. Device-side claim submission needs a hub-facing endpoint (provisioning mode C, not in this release)."

module _ (C : Codec) (S : Service C.Key) where
  -- The action around `enrollment_status`.
  unfoldable pub check_enrollment : String → String → Runtime C S → Result String × Runtime C S
  unfolding called
  check_enrollment enrollment_id exchange_receipt s =
      let (r, w) = S.enrollment_status s.world enrollment_id exchange_receipt in
      elim r [
        | answered status ↦ (ok status, called C S checks_enrollment w s)
        | failed_with fault ↦ (raises (http_error fault), called C S checks_enrollment w s)
      ]

  -- `_prepare_existing` behind `enrollment_status`.
  unfoldable pub after_status :
      ℕ → Settings → Identity C S → Result String → Runtime C S → Result (Unit {0}) × Runtime C S
  unfolding go_live
  after_status fuel c identity (ok status) s =
      if not (status =ₛ "approved")
      then (raises (runtime_error ("HUB_APPROVAL_" +ₛ S.upper status)), s)
      else go_live C S fuel c identity
          (record s { identity = some identity; binding_state = ready })
  after_status fuel c identity stopped_waiting s = (ok tt, s)
  after_status fuel c identity (raises error) s = (raises error, s)
  after_status fuel c identity no_fuel s = (no_fuel, s)

  unfoldable pub prepare_paired_existing :
      ℕ → Settings → Identity C S → Runtime C S → Result (Unit {0}) × Runtime C S
  unfolding while_unavailable check_enrollment after_status is_given given_or
  prepare_paired_existing fuel c identity s =
      let (r, s') =
        while_unavailable C S fuel c.binding_poll_initial
          (check_enrollment (given_or identity.enrollment_id "")
            (given_or identity.exchange_receipt ""))
          s in
      if not (is_given identity.enrollment_id) || not (is_given identity.exchange_receipt)
      then (raises (runtime_error "HUB_ENROLLMENT_STATE_INVALID"), s)
      else after_status fuel c identity r s'

  unfoldable pub prepare_existing :
      ℕ → Settings → Identity C S → Runtime C S → Result (Unit {0}) × Runtime C S
  unfolding effective_bootstrap_mode go_live prepare_paired_existing given_or
  prepare_existing fuel c identity s =
      if effective_bootstrap_mode identity =ₛ device_secret
      then go_live C S fuel c identity (record s {
        identity = some identity;
        binding_state = given_or identity.binding_state ready;
      })
      else prepare_paired_existing fuel c identity s

  unfoldable pub prepare_paired :
      ℕ → Settings → Identity C S → Runtime C S → Result (Unit {0}) × Runtime C S
  unfolding called save_exchange prepare_existing
  prepare_paired fuel c identity s =
      let (r, w) = S.exchange s.world identity in
      let s' = called C S exchanges w s in
      elim r [
        | failed_with fault ↦ (raises (http_error fault), s')
        | answered exchanged ↦
            let (saved, disk) = save_exchange C exchanged S.fresh_key s'.disk in
            elim saved [
              | none ↦ (raises storage_error, record s' { disk = disk })
              | some identity' ↦ prepare_existing fuel c identity' (record s' { disk = disk })
            ]
      ]

  -- `_wait_before_retry`, with the delay after it.
  unfoldable pub wait_before_retry : Settings → ℕ → Runtime C S → ℕ × Runtime C S
  unfolding called
  wait_before_retry c delay s =
      let (_, w) = S.stop_wait s.world delay in
      (min (delay * 2) c.binding_poll_max, called C S (waits delay) w s)

  -- The end of the loop of `_prepare_provisioned` once the binding is complete, with
  -- `_resolve_credential_id`.
  unfoldable pub bind : ℕ → Settings → Activation → Runtime C S → Result (Unit {0}) × Runtime C S
  unfolding save_binding_state go_live
  bind fuel c a s =
      let (saved, disk) =
        save_binding_state C
          (record {
            binding_state = ready;
            bound_space_node_id = none;
            connector_id = a.connector_id;
            credential_id = a.credential_id;
          })
          S.fresh_key s.disk in
      let s' = record s { disk = disk } in
      elim saved [
        | none ↦ (raises storage_error, s')
        | some identity ↦ go_live C S fuel c identity (record s' { identity = some identity })
      ]

  -- `_consume_claim_code_if_present`
  unfoldable pub consume_claim_code : Runtime C S → Runtime C S
  consume_claim_code s =
      let (code, w) = S.take_claim_code s.world in
      if code =ₛ ""
      then record s { world = w }
      else record s { world = w; binding_failure = some claim_code_hint }

  -- The loop of `_prepare_provisioned`; `limit` bounds the loops inside.
  unfoldable pub poll :
      ℕ → ℕ → Settings → Identity C S → ℕ → Runtime C S → Result (Unit {0}) × Runtime C S
  unfolding called wait_before_retry save_activation activated_of consume_claim_code bind is_given
      given_or
  poll limit zero c identity delay s = (no_fuel, s)
  poll limit (suc fuel) c identity delay s =
      let (r, w) = S.activate s.world identity in
      let s' = called C S activates w s in
      if S.stop_is_set s.world then (ok tt, s) else elim r [
        | refused detail terminal ↦
            let failing = record s' { binding_failure = some detail } in
            let (delay', later) = wait_before_retry c delay failing in
            let rest = poll limit fuel c identity delay' later in
            if terminal
            then (raises (runtime_error ("HUB_ACTIVATION_REJECTED: " +ₛ detail)), failing)
            else rest
        | not_reached text ↦
            let failing = record s' { binding_failure = some text } in
            let (delay', later) = wait_before_retry c delay failing in
            poll limit fuel c identity delay' later
        | activation a ↦
            let (saved, disk) = save_activation C (activated_of c a) S.fresh_key s'.disk in
            let kept = record s' { binding_failure = none; disk = disk } in
            elim saved [
              | none ↦ (raises storage_error, kept)
              | some identity' ↦
                  let state = given_or identity'.binding_state awaiting_binding in
                  let bound = record kept { binding_state = state } in
                  let (delay', later) = wait_before_retry c delay (consume_claim_code bound) in
                  let rest = poll limit fuel c identity' delay' later in
                  if (state =ₛ ready) && is_given a.connector_id then bind limit c a bound else rest
            ]
      ]

  unfoldable pub prepare_provisioned :
      ℕ → Settings → Identity C S → Runtime C S → Result (Unit {0}) × Runtime C S
  unfolding poll
  prepare_provisioned fuel c identity s =
      poll fuel fuel c identity c.binding_poll_initial
        (record s { binding_state = awaiting_activation })

  -- `prepare` behind `load_or_create`.
  unfoldable pub choose_path :
      ℕ → Settings → Identity C S → Runtime C S → Result (Unit {0}) × Runtime C S
  unfolding prepare_existing prepare_provisioned prepare_paired has_provisioning_triple is_given
  choose_path fuel c identity s =
      if is_given identity.connector_id
      then prepare_existing fuel c identity s
      else if has_provisioning_triple c
      then prepare_provisioned fuel c identity s
      else if is_given c.pairing_code
      then prepare_paired fuel c identity s
      else (raises (runtime_error "HUB_PAIRING_REQUIRED"), s)

  unfoldable pub prepare : ℕ → Settings → Runtime C S → Result (Unit {0}) × Runtime C S
  unfolding load_or_create choose_path
  prepare fuel c s =
      let (loaded, disk) = load_or_create C S.fresh_key s.disk in
      let s' = record s { disk = disk } in
      elim loaded [
        | none ↦ (raises storage_error, s')
        | some identity ↦ choose_path fuel c identity s'
      ]
