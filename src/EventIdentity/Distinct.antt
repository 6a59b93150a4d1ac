-- ===== src/EventIdentity/Distinct.antt =====
-- When two changes share a source event id of event_identity.py.
use Prim.Native.String.{◌++◌ as ◌+ₛ◌}
use text.Mathlib.TextLemmas.{append_cancel_left}
use zediot_hub_connector.Common.{
  Bool-cases, String, ap, eq_iff, if◌then◌else◌, inl, inr, refl, sym, ◌=ₛ◌, ◌↔◌, ◌∙◌, ◌≡◌, ◌≢◌,
}
use zediot_hub_connector.EventIdentity.{
  Change, build_source_event_id, context_id_of, digest_of, event_last_updated, identity_text,
  or_text,
}

-- When the state was last updated, or else when the event was fired.
abbrev pub time_of : Change → String
time_of c = if c.state_last_updated =ₛ "" then c.time_fired else c.state_last_updated

-- What tells two changes under one context apart.
abbrev pub content : Change → String
content c = c.entity_id +ₛ (":" +ₛ time_of c)

identity_text-content : (c : Change) → identity_text c ≡ content c
unfolding identity_text event_last_updated or_text
identity_text-content c = refl

module _ (sha256 : String → String) where
  id_within :
      (c : Change)
      → context_id_of c ≢ ""
      → build_source_event_id sha256 c
        ≡ "ha:" +ₛ (context_id_of c +ₛ (":" +ₛ digest_of sha256 16 (identity_text c)))
  unfolding build_source_event_id
  id_within c n = elim (Bool-cases (context_id_of c =ₛ "")) [
    | inl empty ↦ absurd (n ((eq_iff (context_id_of c) "").0 empty))
    | inr full ↦ rw (build_source_event_id, full) refl
  ]

  id_without :
      (c : Change)
      → context_id_of c ≡ ""
      → build_source_event_id sha256 c
        ≡ "haevt:" +ₛ digest_of sha256 24 (identity_text c +ₛ (":" +ₛ c.state))
  unfolding build_source_event_id
  id_without c e =
      let empty = (eq_iff (context_id_of c) "").1 e in rw (build_source_event_id, empty) refl

  same_digest :
      (a b : Change)
      → context_id_of a ≡ context_id_of b
      → context_id_of a ≢ ""
      → (build_source_event_id sha256 a ≡ build_source_event_id sha256 b)
        ↔ (digest_of sha256 16 (identity_text a) ≡ digest_of sha256 16 (identity_text b))
  same_digest a b same n =
      let ida = id_within a n in
      let idb = id_within b (λ e. n (same ∙ e)) in
      let swap = ap (λ id. "ha:" +ₛ (id +ₛ (":" +ₛ digest_of sha256 16 (identity_text b)))) same in
      (
        λ e. append_cancel_left ":" _ _ (
            append_cancel_left (context_id_of a) _ _
              (append_cancel_left "ha:" _ _ (sym ida ∙ e ∙ idb ∙ sym swap))),
        λ e. ida ∙ ap (λ d. "ha:" +ₛ (context_id_of a +ₛ (":" +ₛ d))) e ∙ swap ∙ sym idb,
      )

  -- Two changes of one entity under one context id share their source event id exactly when they
  -- have the same time, which is that of the last update or else of the event, unless the digests
  -- of two different texts of entity and time agree in 16 digits.
  pub shared_context :
      (a b : Change)
      → context_id_of a ≡ context_id_of b
      → context_id_of a ≢ ""
      → a.entity_id ≡ b.entity_id
      → (digest_of sha256 16 (content a) ≡ digest_of sha256 16 (content b) → content a ≡ content b)
      → (build_source_event_id sha256 a ≡ build_source_event_id sha256 b) ↔ (time_of a ≡ time_of b)
  shared_context a b same n entity apart =
      let (there, back) = same_digest a b same n in
      (
        λ e.
            let digests : digest_of sha256 16 (content a) ≡ digest_of sha256 16 (content b) =
              ap (digest_of sha256 16) (sym (identity_text-content a))
              ∙ there e
              ∙ ap (digest_of sha256 16) (identity_text-content b) in
            append_cancel_left ":" _ _ (
              append_cancel_left b.entity_id _ _
                (sym (ap (λ t. t +ₛ (":" +ₛ time_of a)) entity) ∙ apart digests)),
        λ e. back (
            ap (digest_of sha256 16) (
              identity_text-content a
              ∙ ap (λ t. t +ₛ (":" +ₛ time_of a)) entity
              ∙ ap (λ t. b.entity_id +ₛ (":" +ₛ t)) e
              ∙ sym (identity_text-content b))),
      )

  -- Two changes without a context id share their source event id exactly when the digests of their
  -- entity ids, times of change and states agree in 24 digits.
  pub no_context :
      (a b : Change)
      → context_id_of a ≡ ""
      → context_id_of b ≡ ""
      → (build_source_event_id sha256 a ≡ build_source_event_id sha256 b) ↔ (
          digest_of sha256 24 (identity_text a +ₛ (":" +ₛ a.state))
          ≡ digest_of sha256 24 (identity_text b +ₛ (":" +ₛ b.state)))
  no_context a b n m =
      let ida = id_without a n in
      let idb = id_without b m in
      (
        λ e. append_cancel_left "haevt:" _ _ (sym ida ∙ e ∙ idb),
        λ e. ida ∙ ap (λ d. "haevt:" +ₛ d) e ∙ sym idb,
      )
