-- ===== src/Runtime/Bootstrap/Unenrolled.antt =====
-- A provisioned identity with a connector id and no credential id: how runtime.py comes to store
-- it, and how it starts from it.
use zediot_hub_connector.Common.{
  Bool-cases, List, [], ap, false, inl, inr, none, refl, some, subst, suc, sym, true, ℕ, ◌++◌, ◌=ₛ◌,
  ◌∙◌, ◌∷◌, ◌≡◌,
}
use zediot_hub_connector.Identity.{
  Codec, Dict, Store, awaiting_binding, device_secret, ed25519, effective_bootstrap_mode, given_or,
  is_given, pairing_code, ready, save,
}
use zediot_hub_connector.Identity.Saves.{
  Bound, activation_changes, activation_payload, binding_changes, save_activation,
  save_binding_state, when_given,
}
use zediot_hub_connector.Identity.Merging.{last_of}
use zediot_hub_connector.Identity.Laws.{Holds, Holds-load, IsJson}
use zediot_hub_connector.Identity.Held.{Follows, save-Saved}
use zediot_hub_connector.Runtime.Bootstrap.{
  Activation, Call, Identity, Result, Runtime, Service, Settings, activates, activation, called,
  raises, runtime_error,
}
use zediot_hub_connector.Runtime.Bootstrap.Sessions.{
  authenticate_and_connect, core_authenticate, go_live, is_temporary, returns_anyway,
  while_unavailable,
}
use zediot_hub_connector.Runtime.Bootstrap.Prepare.{
  activated_of, bind, choose_path, poll, prepare, prepare_existing,
}

abbrev pub not_enrolled : Result (Unit {0})
not_enrolled = raises (runtime_error "HUB_IDENTITY_NOT_ENROLLED")

module _ (C : Codec) (S : Service C.Key) where
  authenticate-unenrolled :
      (identity : Identity C S) (s : Runtime C S)
      → is_given identity.credential_id ≡ false
      → core_authenticate C S identity s ≡ (not_enrolled, s)
  unfolding core_authenticate
  authenticate-unenrolled identity s h = elim (Bool-cases (is_given identity.connector_id)) [
    | inl y ↦ rw (core_authenticate, y, h) refl
    | inr n ↦ rw (core_authenticate, n) refl
  ]

  live_action-unenrolled :
      (fuel : ℕ) (identity : Identity C S) (s : Runtime C S)
      → is_given identity.credential_id ≡ false
      → authenticate_and_connect C S fuel identity s ≡ (not_enrolled, s)
  unfolding authenticate_and_connect
  live_action-unenrolled fuel identity s h =
      let e = authenticate-unenrolled identity s h in rw (authenticate_and_connect, e, e) refl

  go_live-unenrolled :
      (fuel : ℕ) (c : Settings) (identity : Identity C S) (s : Runtime C S)
      → is_given identity.credential_id ≡ false
      → go_live C S (suc fuel) c identity s ≡ (not_enrolled, record s { binding_state = ready })
  unfolding go_live while_unavailable returns_anyway is_temporary
  go_live-unenrolled fuel c identity s h =
      let e = live_action-unenrolled (suc fuel) identity (record s { binding_state = ready }) h in
      rw (go_live, while_unavailable, e, e) refl

  -- How a provisioned identity that has a connector id starts.
  existing-provisioned :
      (fuel : ℕ) (c : Settings) (identity : Identity C S) (s : Runtime C S)
      → identity.bootstrap_mode ≡ some device_secret
      → prepare_existing C S fuel c identity s
        ≡ go_live C S fuel c identity (record s {
          identity = some identity;
          binding_state = given_or identity.binding_state ready;
        })
  unfolding prepare_existing effective_bootstrap_mode given_or
  existing-provisioned fuel c identity s mode =
      let test : (effective_bootstrap_mode identity =ₛ device_secret) ≡ true =
        ap (λ m. given_or m pairing_code =ₛ device_secret) mode in
      rw (prepare_existing, test) refl

  prepare-held :
      (fuel : ℕ) (c : Settings) (s : Runtime C S) (identity : Identity C S)
      → Holds C identity s.disk
      → is_given identity.connector_id ≡ true
      → prepare C S fuel c s ≡ prepare_existing C S fuel c identity s
  unfolding prepare choose_path
  prepare-held fuel c s identity held connector =
      let e = Holds-load C identity s.disk S.fresh_key held in
      rw (prepare, e, choose_path, connector, e) refl

  prepare-unenrolled :
      (fuel : ℕ) (c : Settings) (s : Runtime C S) (identity : Identity C S)
      → Holds C identity s.disk
      → identity.bootstrap_mode ≡ some device_secret
      → is_given identity.connector_id ≡ true
      → is_given identity.credential_id ≡ false
      → (prepare C S (suc fuel) c s).0 ≡ not_enrolled
  prepare-unenrolled fuel c s identity held mode connector credential =
      ap (λ p. p.0)
        (prepare-held (suc fuel) c s identity held connector
          ∙ existing-provisioned (suc fuel) c identity s mode
          ∙ go_live-unenrolled fuel c identity
              (record s {
                identity = some identity;
                binding_state = given_or identity.binding_state ready;
              })
              credential)

  -- An answer that the binding is complete, with a connector id and without a credential id.
  module _ (c : Settings) (a : Activation) (connector : is_given a.connector_id ≡ true)
      (credential : is_given a.credential_id ≡ false) where
    -- `bind` saves these changes.
    abbrev binding : Bound
    binding = record {
      binding_state = ready;
      bound_space_node_id = none;
      connector_id = a.connector_id;
      credential_id = a.credential_id;
    }

    abbrev activating : Dict
    activating = activation_changes (activated_of c a)

    activation_list :
        activating
        ≡ activation_payload (activated_of c a) ++ (("connector_id", a.connector_id) ∷ [])
    unfolding activation_changes activated_of when_given is_given
    activation_list = rw (when_given, connector) refl

    binding_list :
        binding_changes binding
        ≡ ("binding_state", some ready) ∷ ("connector_id", a.connector_id) ∷ []
    unfolding binding_changes when_given is_given
    binding_list = rw (when_given, connector, credential) refl

    -- The identity behind both saves.
    record Bare (before : Identity C S) : Type 0 where
      mode : before.bootstrap_mode ≡ some device_secret
      has_connector : is_given before.connector_id ≡ true
      no_credential : is_given before.credential_id ≡ false

    activated-Bare :
        (before after : Identity C S)
        → Follows C activating before after
        → is_given before.credential_id ≡ false
        → Bare after
    unfolding activation_payload activated_of last_of
    activated-Bare before after f h = record {
      mode =
          f.mode_follows
          ∙ ap (λ d. last_of d "bootstrap_mode" before.bootstrap_mode) activation_list;
      has_connector =
          ap is_given (
            f.connector_follows
            ∙ ap (λ d. last_of d "connector_id" before.connector_id) activation_list)
          ∙ connector;
      no_credential =
          ap is_given (
            f.credential_follows
            ∙ ap (λ d. last_of d "credential_id" before.credential_id) activation_list)
          ∙ h;
    }

    bound-Bare :
        (before after : Identity C S)
        → Follows C (binding_changes binding) before after
        → Bare before
        → Bare after
    unfolding last_of
    bound-Bare before after f h = record {
      mode =
          f.mode_follows
          ∙ ap (λ d. last_of d "bootstrap_mode" before.bootstrap_mode) binding_list
          ∙ h.mode;
      has_connector =
          ap is_given (
            f.connector_follows
            ∙ ap (λ d. last_of d "connector_id" before.connector_id) binding_list)
          ∙ connector;
      no_credential =
          ap is_given (
            f.credential_follows
            ∙ ap (λ d. last_of d "credential_id" before.credential_id) binding_list)
          ∙ h.no_credential;
    }

    -- It raises, and the files hold an identity that is bare.
    record Stuck (calls : List Call) (p : Result (Unit {0}) × Runtime C S) : Type 0 where
      has_raised : p.0 ≡ not_enrolled
      has_called : p.1.calls ≡ calls
      identity : Identity C S
      is_stored : Holds C identity p.1.disk
      is_bare : Bare identity

    bind-Stuck :
        (limit : ℕ) (before : Identity C S) (s : Runtime C S)
        → IsJson C
        → Holds C before s.disk
        → Bare before
        → Stuck s.calls (bind C S (suc limit) c a s)
    unfolding bind save_binding_state last_of
    bind-Stuck limit before s json held bare =
        let unmarked = ap (λ d. last_of d "signature_algorithm" (some ed25519)) binding_list in
        let saved =
          save-Saved C (binding_changes binding) S.fresh_key before s.disk json unmarked held in
        let after = bound-Bare before saved.after saved.follows bare in
        let e = saved.is_result in
        let live =
          go_live-unenrolled limit c saved.after
            (record s { disk = saved.disk; identity = some saved.after }) after.no_credential in
        let path : bind C S (suc limit) c a s ≡ (
          not_enrolled,
          record s { disk = saved.disk; identity = some saved.after; binding_state = ready },
        ) =
          rw (bind, save_binding_state, e, e) live in
        subst (Stuck s.calls) (sym path) (record {
          has_raised = refl;
          has_called = refl;
          identity = saved.after;
          is_stored = saved.is_held;
          is_bare = after;
        })

    -- Where the loop goes on from once the answer has been saved.
    abbrev activated_hub : S.World → Runtime C S → Store C → Runtime C S
    activated_hub w s disk = record (called C S activates w s) {
      binding_failure = none;
      disk = disk;
      binding_state = ready;
    }

    poll-binds :
        (limit fuel delay : ℕ) (before after : Identity C S) (disk : Store C) (w : S.World)
        (s : Runtime C S)
        → S.stop_is_set s.world ≡ false
        → S.activate s.world before ≡ (activation a, w)
        → save C activating S.fresh_key s.disk ≡ (some after, disk)
        → given_or after.binding_state awaiting_binding ≡ ready
        → poll C S limit (suc fuel) c before delay s ≡ bind C S limit c a (activated_hub w s disk)
    unfolding poll save_activation called
    poll-binds limit fuel delay before after disk w s stop act saved state =
        rw (poll, stop, act, save_activation, saved, state, connector, act, saved) refl

    poll-Stuck :
        (limit fuel delay : ℕ) (before : Identity C S) (w : S.World) (s : Runtime C S)
        → IsJson C
        → Holds C before s.disk
        → is_given before.credential_id ≡ false
        → S.stop_is_set s.world ≡ false
        → S.activate s.world before ≡ (activation a, w)
        → a.binding_state ≡ some ready
        → Stuck (activates ∷ s.calls) (poll C S (suc limit) (suc fuel) c before delay s)
    unfolding last_of activation_payload activated_of given_or called
    poll-Stuck limit fuel delay before w s json held h stop act complete =
        let unmarked = ap (λ d. last_of d "signature_algorithm" (some ed25519)) activation_list in
        let saved = save-Saved C activating S.fresh_key before s.disk json unmarked held in
        let after = activated-Bare before saved.after saved.follows h in
        let state : given_or saved.after.binding_state awaiting_binding ≡ ready =
          ap (λ o. given_or o awaiting_binding)
            (saved.follows.binding_follows
              ∙ ap (λ d. last_of d "binding_state" before.binding_state) activation_list)
          ∙ ap (λ o. given_or (some (given_or o awaiting_binding)) awaiting_binding) complete in
        subst (Stuck (activates ∷ s.calls))
          (sym (
            poll-binds (suc limit) fuel delay before saved.after saved.disk w s stop act
              saved.is_result state))
          (bind-Stuck limit saved.after (activated_hub w s saved.disk) json saved.is_held after)

    -- If Core answers that the binding is complete with a connector id and without a credential
    -- id, then `_prepare_provisioned` polls no further but raises HUB_IDENTITY_NOT_ENROLLED, and
    -- so does every later start from the files that it leaves, with any settings and any number of
    -- retries; here the credential was not stored before, no stop is asked for, and `json` decodes
    -- what it encodes up to the order of keys.
    pub poll-unenrolled :
        (limit fuel delay retries : ℕ) (before : Identity C S) (w : S.World) (s later : Runtime C S)
        (c' : Settings)
        → IsJson C
        → Holds C before s.disk
        → is_given before.credential_id ≡ false
        → S.stop_is_set s.world ≡ false
        → S.activate s.world before ≡ (activation a, w)
        → a.binding_state ≡ some ready
        → let (r, s') = poll C S (suc limit) (suc fuel) c before delay s in
          (r ≡ not_enrolled)
          × (s'.calls ≡ activates ∷ s.calls)
          × ((prepare C S (suc retries) c' (record later { disk = s'.disk })).0 ≡ not_enrolled)
    poll-unenrolled limit fuel delay retries before w s later c' json held h stop act complete =
        let stuck = poll-Stuck limit fuel delay before w s json held h stop act complete in
        let bare = stuck.is_bare in
        let s' = (poll C S (suc limit) (suc fuel) c before delay s).1 in
        (
          stuck.has_raised,
          stuck.has_called,
          prepare-unenrolled retries c' (record later { disk = s'.disk }) stuck.identity
              stuck.is_stored bare.mode bare.has_connector bare.no_credential,
        )
