-- ===== src/Runtime/Bootstrap/Recovery.antt =====
-- `_recover_session` of runtime.py when several threads find the same session invalid.
use zediot_hub_connector.Common.{
  Bool-cases, Option, Option-cases, String, ap, false, inl, inr, not, refl, some, subst, suc, true,
  zero, ℕ, ℤ, ◌=ₛ◌, ◌||◌, ◌≡◌, ◌⊎◌,
}
use zediot_hub_connector.Identity.{Codec, is_given, ready}
use zediot_hub_connector.Queue.{synchronize_with_server_cursor}
use zediot_hub_connector.Runtime.Waiting.{Fault, lease_conflict_wait}
use zediot_hub_connector.Runtime.Bootstrap.{
  Connect, Error, Identity, Result, Runtime, Service, Session, called, connected, connects,
  lease_conflict, no_fuel, not_connected, ok, raises, stopped_waiting, waits,
}
use zediot_hub_connector.Runtime.Bootstrap.Sessions.{
  adopt_session, authenticate_and_connect, connect, core_authenticate, establish_session,
  is_renewed, recover_session, resume_sequence,
}

module _ (C : Codec) (S : Service C.Key) (stale : String) where
  -- The core opens no session under the id of the stale one.
  abbrev pub IsFresh : Type 0
  IsFresh =
      (w : S.World) (identity : Identity C S) (cursor : ℤ) (session : Session)
      → (S.connect_session w identity cursor).0 ≡ connected session
      → (session.session_id =ₛ stale) ≡ false

  -- The session is the one of before, or a renewed one.
  abbrev pub Renews : Option Session → Option Session → Type 0
  Renews before after = (after ≡ before) ⊎ (is_renewed stale after ≡ true)

  adopt_session-Renews :
      (session : Session) (s : Runtime C S) → (adopt_session C S session s).1.session ≡ some session
  unfolding adopt_session
  adopt_session-Renews session s =
      elim (Option-cases
        (synchronize_with_server_cursor s.queue (resume_sequence session.resume_cursor))) [
          | inl e ↦ rw (adopt_session, e) refl
          | inr (q, e) ↦ rw (adopt_session, e) refl
        ]

  Connect-cases :
      (r : Connect)
      → ((session : Session) × (r ≡ connected session))
        ⊎ ((fault : Fault) × (r ≡ not_connected fault))
        ⊎ ((after : Option ℕ) × (r ≡ lease_conflict after))
  Connect-cases (connected session) = inl (session, refl)
  Connect-cases (not_connected fault) = inr (inl (fault, refl))
  Connect-cases (lease_conflict after) = inr (inr (after, refl))

  connect-Renews :
      IsFresh
      → (fuel : ℕ) (identity : Identity C S) (s : Runtime C S)
      → Renews s.session (connect C S fuel identity s).1.session
  unfolding connect called is_renewed
  connect-Renews fresh zero identity s = inl refl
  connect-Renews fresh (suc fuel) identity s =
      elim (Connect-cases (S.connect_session s.world identity s.cursor).0) [
        | inl (session, e) ↦
            rw (connect, e)
              (inr (
                rw
                  (adopt_session-Renews session
                    (called C S connects (S.connect_session s.world identity s.cursor).1 s))
                  (ap not (fresh s.world identity s.cursor session e))))
        | inr (inl (fault, e)) ↦ rw (connect, e) (inl refl)
        | inr (inr (after, e)) ↦
            let w = (S.connect_session s.world identity s.cursor).1 in
            let ms = lease_conflict_wait after in
            let s' = called C S (waits ms) (S.stop_wait w ms).1 (called C S connects w s) in
            elim (Bool-cases (S.stop_wait w ms).0) [
              | inl y ↦ rw (connect, e, y) (inl refl)
              | inr n ↦ rw (connect, e, n) (connect-Renews fresh fuel identity s')
            ]
      ]

  core_authenticate-session :
      (identity : Identity C S) (s : Runtime C S)
      → (core_authenticate C S identity s).1.session ≡ s.session
  unfolding core_authenticate called
  core_authenticate-session identity s =
      elim (Bool-cases
        (not (is_given identity.connector_id) || not (is_given identity.credential_id))) [
          | inl y ↦ rw (core_authenticate, y) refl
          | inr n ↦ elim (Option-cases (S.authenticate s.world identity).0) [
            | inl e ↦ rw (core_authenticate, n, e) refl
            | inr (fault, e) ↦ rw (core_authenticate, n, e) refl
          ]
        ]

  Result-cases :
      (r : Result (Unit {0}))
      → (r ≡ ok tt)
        ⊎ (((error : Error) × (r ≡ raises error)) ⊎ ((r ≡ stopped_waiting) ⊎ (r ≡ no_fuel)))
  Result-cases (ok tt) = inl refl
  Result-cases (raises error) = inr (inl (error, refl))
  Result-cases stopped_waiting = inr (inr (inl refl))
  Result-cases no_fuel = inr (inr (inr refl))

  authenticate_and_connect-Renews :
      IsFresh
      → (fuel : ℕ) (identity : Identity C S) (s : Runtime C S)
      → Renews s.session (authenticate_and_connect C S fuel identity s).1.session
  unfolding authenticate_and_connect establish_session
  authenticate_and_connect-Renews fresh fuel identity s =
      let s' = (core_authenticate C S identity s).1 in
      let same = core_authenticate-session identity s in
      elim (Result-cases (core_authenticate C S identity s).0) [
        | inl e ↦
            rw (authenticate_and_connect, e)
              (subst
                (λ z.
                  Renews z
                    (connect C S fuel identity (record s' { binding_state = ready })).1.session)
                same (connect-Renews fresh fuel identity (record s' { binding_state = ready })))
        | inr (inl (error, e)) ↦ rw (authenticate_and_connect, e) (inl same)
        | inr (inr (inl e)) ↦ rw (authenticate_and_connect, e) (inl same)
        | inr (inr (inr e)) ↦ rw (authenticate_and_connect, e) (inl same)
      ]

  -- When the core opens no session under the id of the stale one, a recovery leaves the session as
  -- it is, or every further recovery of the same stale session does nothing.
  pub recover_session-again :
      IsFresh
      → (fuel more : ℕ) (s : Runtime C S)
      → let after = (recover_session C S fuel stale s).1 in
        (after.session ≡ s.session) ⊎ (recover_session C S more stale after ≡ (ok tt, after))
  unfolding recover_session
  recover_session-again fresh fuel more s = elim (Bool-cases (is_renewed stale s.session)) [
    | inl y ↦ rw (recover_session, y) (inl refl)
    | inr n ↦ elim (Option-cases s.identity) [
      | inl e ↦ rw (recover_session, n, e) (inl refl)
      | inr (identity, e) ↦
          rw (recover_session, n, e)
            (elim (authenticate_and_connect-Renews fresh fuel identity s) [
              | inl same ↦ inl same
              | inr renewed ↦ inr (rw (recover_session, renewed) refl)
            ])
    ]
  ]
