-- ===== src/Client/Binding.antt =====
-- The token that a request below a session carries, and the token that core_client.py has bound
-- the session to.
use zediot_hub_connector.Common.{
  Bool-cases, List, Option, Option-cases, String, [], ap, eq_iff, false, inl, inr, none, not, refl,
  some, subst, sym, ℤ, ◌=ₛ◌, ◌||◌, ◌∙◌, ◌∷◌, ◌≡◌, ◌⊎◌,
}
use zediot_hub_connector.Identity.{ConnectorIdentity, ed25519, given_or, is_given}
use zediot_hub_connector.Client.{
  Answer, RequestError, answered, below_session, failed, other_path, sessions, settle_request,
}
use zediot_hub_connector.Client.Token.{
  Challenge, HubSession, Op, Sent, State, Transport, asked, authenticate, below, call_session,
  calls, connect_session, disconnect_session, disconnects, ensure_token, is_fresh, not_opened,
  not_rebound, open_result, opened, post_open, posted, prove, rebind_result, rebind_session_token,
  rebind_when, rebound, request_below, run, step,
}

-- The session and the token that the core has bound last.
unfoldable pub bound_of : List Sent → Option (String × String)
bound_of [] = none
bound_of (opened token session ∷ log) = some (session, token)
bound_of (rebound token session ∷ log) = some (session, token)
bound_of (asked ∷ log) = bound_of log
bound_of (not_opened ∷ log) = bound_of log
bound_of (not_rebound ∷ log) = bound_of log
bound_of (below token session rest ∷ log) = bound_of log

-- Each request below a session carried the token that the session was bound to.
abbrev pub IsBound : List Sent → Type 0
IsBound [] = Unit
IsBound (below token session rest ∷ log) = (bound_of log ≡ some (session, token)) × IsBound log
IsBound (opened token session ∷ log) = IsBound log
IsBound (rebound token session ∷ log) = IsBound log
IsBound (asked ∷ log) = IsBound log
IsBound (not_opened ∷ log) = IsBound log
IsBound (not_rebound ∷ log) = IsBound log

Answer-cases :
    {A : Type 0} (r : Answer A)
    → ((a : A) × (r ≡ answered a)) ⊎ ((error : RequestError) × (r ≡ failed error))
Answer-cases (answered a) = inl (a, refl)
Answer-cases (failed error) = inr (error, refl)

given_or_empty : (s : String) → given_or (some s) "" ≡ s
unfolding given_or
given_or_empty s = elim (Bool-cases (s =ₛ "")) [
  | inl y ↦ rw (given_or, y) (sym ((eq_iff s "").0 y))
  | inr n ↦ rw (given_or, n) refl
]

module _ {K : Type 0} (T : Transport K) where
  -- The session is bound to the token that the client holds, or the client holds none.
  abbrev pub Matches : HubSession → State T → Type 0
  Matches session s =
      ((held : String) × (s.token ≡ some held)
        × (bound_of s.sent ≡ some (session.session_id, held)))
      ⊎ (is_given s.token ≡ false)

  abbrev pub Fits : HubSession → State T → Type 0
  Fits session s = IsBound s.sent × Matches session s

  -- Every rebind is answered.
  abbrev pub IsRebinding : Type 0
  IsRebinding =
      (w : T.World) (token : String) (session : HubSession)
      → settle_request T.is_success (below_session session.session_id "token")
          (T.post_rebind w token session).0
        ≡ answered tt

  below-Fits :
      (session : HubSession) (rest : String) (s : State T)
      → Fits session s
      → Fits session (request_below T session rest s).1
  unfolding request_below posted bound_of
  below-Fits session rest s (log, inr none_held) =
      rw (request_below, none_held) (log, inr none_held)
  below-Fits session rest s (log, inl (held, has, bound)) = elim (Bool-cases (is_given s.token)) [
    | inr n ↦ rw (request_below, n) (log, inl (held, has, bound))
    | inl y ↦
        let token : given_or s.token "" ≡ held =
          ap (λ o. given_or o "") has ∙ given_or_empty held in
        rw (request_below, y)
          (
            (bound ∙ ap (λ t. some (session.session_id, t)) (sym token), log),
            inl (held, has, bound),
          )
  ]

  -- How `authenticate` leaves the token and the log.
  data Authenticated (s : State T) : Answer (Unit {0}) × State T → Type 0 where
    still :
        {error : RequestError} {s' : State T}
        → s'.token ≡ s.token
        → bound_of s'.sent ≡ bound_of s.sent
        → IsBound s'.sent
        → Authenticated s (failed error, s')
    renewed :
        {s' : State T} (token : String)
        → s'.token ≡ some token
        → IsBound s'.sent
        → Authenticated s (answered tt, s')

  proven :
      (s s' : State T) (identity : ConnectorIdentity K) (r : Answer Challenge)
      → s'.token ≡ s.token
      → bound_of s'.sent ≡ bound_of s.sent
      → IsBound s'.sent
      → Authenticated s (prove T identity r s')
  unfolding prove posted bound_of
  proven s s' identity (failed error) t b l = still t b l
  proven s s' identity (answered challenge) t b l =
      elim (Bool-cases
        (given_or challenge.signature_algorithm ed25519 =ₛ identity.signature_algorithm)) [
          | inr n ↦ rw (prove, n) (still t b l)
          | inl y ↦
              let signature = T.sign identity.private_key challenge.canonical_message in
              elim (Answer-cases (
                settle_request T.is_success other_path
                  (T.post_token s'.world challenge signature).0)) [
                    | inl (issued, e) ↦ rw (prove, y, e) (renewed issued.access_token refl l)
                    | inr (error, e) ↦ rw (prove, y, e) (still t b l)
                  ]
        ]

  authenticate-Authenticated :
      (identity : ConnectorIdentity K) (s : State T)
      → IsBound s.sent
      → Authenticated s (authenticate T identity s)
  unfolding authenticate posted bound_of
  authenticate-Authenticated identity s l =
      let (r, w) =
        T.post_challenge s.world (given_or identity.connector_id "")
          (given_or identity.credential_id "") in
      elim (Bool-cases
        (not (is_given identity.connector_id) || not (is_given identity.credential_id))) [
          | inl y ↦ rw (authenticate, y) (still refl refl l)
          | inr n ↦
              rw (authenticate, n)
                (proven s (posted T asked w s) identity (settle_request T.is_success other_path r)
                  refl refl l)
        ]

  rebind-Fits :
      (session : HubSession) (s : State T) (token : String)
      → IsRebinding
      → s.token ≡ some token
      → IsBound s.sent
      → Fits session (rebind_session_token T session s).1
  unfolding rebind_session_token posted bound_of rebind_result
  rebind-Fits session s token rebinds has log = elim (Bool-cases (is_given s.token)) [
    | inr n ↦ rw (rebind_session_token, n) (log, inr n)
    | inl y ↦
        rw (rebind_session_token, y, rebinds s.world (given_or s.token "") session)
          (
            log,
            inl (
              token,
              has,
              ap (λ t. some (session.session_id, t))
                  (ap (λ o. given_or o "") has ∙ given_or_empty token),
            ),
          )
  ]

  rebound-Fits :
      (session : HubSession) (s : State T) (p : Answer (Unit {0}) × State T)
      → IsRebinding
      → Matches session s
      → Authenticated s p
      → Fits session (rebind_when T (some session) p.0 p.1).1
  unfolding rebind_when
  rebound-Fits session s _ rebinds (inl (held, has, bound)) (still t b l) =
      (l, inl (held, t ∙ has, b ∙ bound))
  rebound-Fits session s _ rebinds (inr none_held) (still t b l) =
      (l, inr (ap is_given t ∙ none_held))
  rebound-Fits session s _ rebinds m (renewed {s' = s'} token has l) =
      rebind-Fits session s' token rebinds has l

  ensure-Fits :
      (identity : ConnectorIdentity K) (session : HubSession) (s : State T)
      → IsRebinding
      → Fits session s
      → Fits session (ensure_token T identity (some session) s).1
  unfolding ensure_token
  ensure-Fits identity session s rebinds f =
      elim (Bool-cases (is_fresh (T.now s.world) s.token s.token_expires_at)) [
        | inl y ↦ rw (ensure_token, y) f
        | inr n ↦
            rw (ensure_token, n)
              (rebound-Fits session s (authenticate T identity s) rebinds f.1
                (authenticate-Authenticated identity s f.0))
      ]

  after-Fits :
      (session : HubSession) (rest : String) (p : Answer (Unit {0}) × State T)
      → Fits session p.1
      → let r : Answer T.Data × State T = elim p.0 [
        | failed error ↦ (failed error, p.1)
        | answered _ ↦ request_below T session rest p.1
      ] in
        Fits session r.1
  after-Fits session rest (failed error, s) f = f
  after-Fits session rest (answered u, s) f = below-Fits session rest s f

  step-Fits :
      (identity : ConnectorIdentity K) (session : HubSession) (op : Op) (s : State T)
      → IsRebinding
      → Fits session s
      → Fits session (step T identity session op s)
  unfolding step call_session disconnect_session
  step-Fits identity session (calls rest) s rebinds f =
      after-Fits session rest (ensure_token T identity (some session) s)
        (ensure-Fits identity session s rebinds f)
  step-Fits identity session disconnects s rebinds f = below-Fits session "disconnect" s f

  run-Fits :
      (identity : ConnectorIdentity K) (session : HubSession) (ops : List Op) (s : State T)
      → IsRebinding
      → Fits session s
      → Fits session (run T identity session ops s)
  unfolding run
  run-Fits identity session [] s rebinds f = f
  run-Fits identity session (op ∷ ops) s rebinds f =
      run-Fits identity session ops (step T identity session op s) rebinds
        (step-Fits identity session op s rebinds f)

  data Opens : Answer HubSession × State T → Type 0 where
    refused : {error : RequestError} {s : State T} → Opens (failed error, s)
    accepted : {session : HubSession} {s : State T} → Fits session s → Opens (answered session, s)

  open-Opens :
      (resume_cursor : Option ℤ) (s : State T)
      → IsBound s.sent
      → Opens (post_open T resume_cursor s)
  unfolding post_open posted open_result bound_of
  open-Opens resume_cursor s log = elim (Bool-cases (is_given s.token)) [
    | inr n ↦ rw (post_open, n) refused
    | inl y ↦ elim (Option-cases s.token) [
      | inl none_held ↦ let no_token : is_given s.token ≡ false = ap is_given none_held in absurd cc
      | inr (token, has) ↦
          elim (Answer-cases (
            settle_request T.is_success sessions
              (T.post_sessions s.world (given_or s.token "") resume_cursor).0)) [
                | inr (error, e) ↦ rw (post_open, y, e) refused
                | inl (session, e) ↦
                    rw (post_open, y, e)
                      (accepted (
                        log,
                        inl (
                          token,
                          has,
                          ap (λ t. some (session.session_id, t))
                              (ap (λ o. given_or o "") has ∙ given_or_empty token),
                        ),
                      ))
              ]
    ]
  ]

  opened-Opens :
      (resume_cursor : Option ℤ) (p : Answer (Unit {0}) × State T)
      → IsBound p.1.sent
      → let r : Answer HubSession × State T = elim p.0 [
        | failed error ↦ (failed error, p.1)
        | answered _ ↦ post_open T resume_cursor p.1
      ] in
        Opens r
  opened-Opens resume_cursor (failed error, s) log = refused
  opened-Opens resume_cursor (answered u, s) log = open-Opens resume_cursor s log

  Authenticated-log :
      (s : State T) (p : Answer (Unit {0}) × State T)
      → Authenticated s p
      → IsBound (rebind_when T none p.0 p.1).1.sent
  unfolding rebind_when
  Authenticated-log s _ (still t b l) = l
  Authenticated-log s _ (renewed token has l) = l

  ensure-log :
      (identity : ConnectorIdentity K) (s : State T)
      → IsBound s.sent
      → IsBound (ensure_token T identity none s).1.sent
  unfolding ensure_token
  ensure-log identity s log =
      elim (Bool-cases (is_fresh (T.now s.world) s.token s.token_expires_at)) [
        | inl y ↦ rw (ensure_token, y) log
        | inr n ↦
            rw (ensure_token, n)
              (Authenticated-log s (authenticate T identity s)
                (authenticate-Authenticated identity s log))
      ]

  Opens-Fits : {session : HubSession} {s : State T} → Opens (answered session, s) → Fits session s
  Opens-Fits (accepted f) = f

  -- After a session has been established, each request below it carries the token that the
  -- session is bound to, also when a token has expired and another one was issued in between, if
  -- every rebind is answered.
  pub run-IsBound :
      (identity : ConnectorIdentity K) (resume_cursor : Option ℤ) (session : HubSession)
      (ops : List Op) (s s' : State T)
      → IsRebinding
      → IsBound s.sent
      → connect_session T identity resume_cursor s ≡ (answered session, s')
      → IsBound (run T identity session ops s').sent
  unfolding connect_session
  run-IsBound identity resume_cursor session ops s s' rebinds log e =
      let opens : Opens (connect_session T identity resume_cursor s) =
        opened-Opens resume_cursor (ensure_token T identity none s) (ensure-log identity s log) in
      (run-Fits identity session ops s' rebinds (Opens-Fits (subst Opens e opens))).0
