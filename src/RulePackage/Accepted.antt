-- ===== src/RulePackage/Accepted.antt =====
-- What a package that rule_package.py has verified fulfils, and that it is verified again when it
-- is read back from the store.
use zediot_hub_connector.Common.{
  All-append, List, Option, Option-cases, String, ap, arith, eq_refl, false, inl, inr, lt→ltb,
  mem_text, none, refl, some, subst, sym, true, ℕ, ◌++◌, ◌<◌, ◌∙◌, ◌≡◌, ◌≤◌,
}
use zediot_hub_connector.Condition.Documents.{Elements, Entries, Numbers, get, has, object, string}
use zediot_hub_connector.RulePackage.{
  Check, Tools, VerifiedRulePackage, agrees, dict_of, entries_of, first_error, forbidden_keys,
  hash_of, id_of, is_dict, is_text, metadata_agrees, text_of,
}
use zediot_hub_connector.RulePackage.Plan.{elements_of}
use zediot_hub_connector.RulePackage.Trust.{
  all_checks, as_document, delivery_checks, is_some, not_ahead, not_expired, or_zero, package_of,
  rejected, stored_delivery, time_checks, trust_checks, verified, verify_rule_package_delivery,
  verify_stored_rule_package,
}
use zediot_hub_connector.RulePackage.Safe.{KeyIn}
use zediot_hub_connector.RulePackage.Reviewed.{
  AreReviewed, Passes, Passes-first_error, Passes-split, first_error-Passes,
}
use Prim.Native.String.{slice, ◌++◌ as ◌+ₛ◌}

module _ {P : Numbers} (T : Tools P) where
  module _ (instance_id : String) (trusted : List String) where
    -- The plan that the runtime reads its actions from.
    abbrev pub actions_of : VerifiedRulePackage P → Elements P
    actions_of p = elements_of T (get "actions" (entries_of (get "runtime_plan" p.payload)))

    -- What the delivery says of its payload, and what the payload is.
    pub record Trusted (now : ℕ) (d : Entries P) (p : VerifiedRulePackage P) : Type 0 where
      is_payload : dict_of (get "payload" d) ≡ some p.payload
      has_hash : p.package_hash ≡ T.sha256 (T.canonical p.payload)
      has_id : p.package_id ≡ "rpkg_" +ₛ slice p.package_hash 0 24
      names_hash : get "payload_hash" d ≡ string p.package_hash
      names_id : get "package_id" d ≡ string p.package_id
      key_trusted : mem_text p.signature_key_id trusted ≡ true
      is_signed : T.verifies p.signing_public_key_pem p.signature (T.canonical p.payload) ≡ true
      has_no_forbidden :
          (key : String)
          → KeyIn key (object p.payload)
          → mem_text (T.normalize key) forbidden_keys ≡ false
      is_ours : get "integration_instance_id" p.payload ≡ string instance_id
      is_live : now < p.valid_until
      are_reviewed : AreReviewed T (actions_of p)

    verified-checks :
        (now : ℕ) (d : Entries P) (p : VerifiedRulePackage P)
        → verify_rule_package_delivery T instance_id trusted now d ≡ verified p
        → Passes (all_checks T instance_id trusted now d)
          × (package_of T instance_id trusted d (entries_of (get "payload" d)) ≡ p)
    unfolding verify_rule_package_delivery
    verified-checks now d p e =
        elim (Option-cases (first_error (all_checks T instance_id trusted now d))) [
          | inl passes ↦
              let found : verify_rule_package_delivery T instance_id trusted now d
                  ≡ verified (package_of T instance_id trusted d (entries_of (get "payload" d))) =
                rw (verify_rule_package_delivery, passes) refl in
              (first_error-Passes (all_checks T instance_id trusted now d) passes, cc)
          | inr (error, fails) ↦
              let found : verify_rule_package_delivery T instance_id trusted now d
                  ≡ rejected error =
                rw (verify_rule_package_delivery, fails) refl in
              absurd cc
        ]

    -- The three parts of the checks, for a delivery whose payload is known.
    abbrev delivered : Entries P → List Check
    delivered d = delivery_checks T instance_id trusted d (entries_of (get "payload" d))

    abbrev trusting : Entries P → List Check
    trusting d =
        trust_checks T instance_id trusted (entries_of (get "payload" d))
          (text_of T (get "signature_key_id" d))

    abbrev timed : ℕ → Entries P → List Check
    timed now d =
        time_checks T instance_id trusted now (entries_of (get "payload" d))
          (text_of T (get "signature" d)) (text_of T (get "signing_public_key_pem" d))

    all_checks-split :
        (now : ℕ) (d : Entries P)
        → Passes (all_checks T instance_id trusted now d)
        → Passes (delivered d) × Passes (trusting d) × Passes (timed now d)
    unfolding all_checks
    all_checks-split now d h =
        let (a, b) = Passes-split (delivered d) (trusting d ++ timed now d) h in
        let (c, e) = Passes-split (trusting d) (timed now d) b in (a, c, e)

    not_ahead-later :
        (now later : ℕ) (o : Option ℕ)
        → now ≤ later
        → not_ahead now o ≡ true
        → not_ahead later o ≡ true
    unfolding not_ahead
    not_ahead-later now later none h e = e
    not_ahead-later now later (some n) h e = ground arith

    not_expired-before :
        (later : ℕ) (o : Option ℕ)
        → is_some o ≡ true
        → later < or_zero o
        → not_expired later o ≡ true
    unfolding not_expired or_zero is_some
    not_expired-before later none s h = s
    not_expired-before later (some n) s h = lt→ltb later n h

    stored_again : Entries P → Entries P
    stored_again d =
        stored_delivery T instance_id trusted
          (as_document (package_of T instance_id trusted d (entries_of (get "payload" d))))

    stored-delivered : (d : Entries P) → Passes (delivered d) → Passes (delivered (stored_again d))
    unfolding delivery_checks stored_again stored_delivery as_document package_of get entries_of
        is_dict dict_of is_text metadata_agrees agrees has
    stored-delivered d (d1, (d2, _)) =
        let payload = entries_of (get "payload" d) in
        (refl, (d2, (eq_refl (id_of T payload), (eq_refl (hash_of T payload), (refl, tt)))))

    stored-trusting : (d : Entries P) → Passes (trusting d) → Passes (trusting (stored_again d))
    unfolding stored_again stored_delivery as_document package_of get entries_of dict_of text_of
    stored-trusting d h = h

    stored-timed :
        (now later : ℕ) (d : Entries P)
        → now ≤ later
        → later < or_zero (T.parse_time (get "valid_until" (entries_of (get "payload" d))))
        → Passes (timed now d)
        → Passes (timed later (stored_again d))
    unfolding stored_again stored_delivery as_document package_of get entries_of dict_of text_of
        time_checks
    stored-timed now later d le live (s1, (s2, (s3, (s4, (s5, _))))) =
        let payload = entries_of (get "payload" d) in
        (
          s1,
          (
            s2,
            (
              not_ahead-later now later (T.parse_time (get "issued_at" payload)) le s3,
              (
                not_expired-before later (T.parse_time (get "valid_until" payload)) s2 live,
                (s5, tt),
              ),
            ),
          ),
        )

    package-stored :
        (d : Entries P)
        → package_of T instance_id trusted
            (stored_again d)
            (entries_of (get "payload" (stored_again d)))
          ≡ package_of T instance_id trusted d (entries_of (get "payload" d))
    unfolding stored_again stored_delivery as_document package_of get entries_of dict_of text_of
    package-stored d = refl

    -- A delivered package that is accepted is accepted again, with the same result, from the
    -- document that is stored of it, at every later time before it expires.
    pub stored-verified :
        (now later : ℕ) (d : Entries P) (p : VerifiedRulePackage P)
        → verify_rule_package_delivery T instance_id trusted now d ≡ verified p
        → now ≤ later
        → later < p.valid_until
        → verify_stored_rule_package T instance_id trusted later (as_document p) ≡ verified p
    unfolding verify_stored_rule_package verify_rule_package_delivery all_checks stored_again
        package_of
    stored-verified now later d p e le live =
        let (passes, same) = verified-checks now d p e in
        let (a, b, c) = all_checks-split now d passes in
        let live' : later
            < (package_of T instance_id trusted d (entries_of (get "payload" d))).valid_until =
          subst (λ q. later < q.valid_until) (sym same) live in
        let again = stored_again d in
        let checks : Passes (all_checks T instance_id trusted later again) =
          All-append (λ c. c.0 ≡ true) (delivered again) (trusting again ++ timed later again)
            (stored-delivered d a)
            (All-append (λ c. c.0 ≡ true) (trusting again) (timed later again) (stored-trusting d b)
              (stored-timed now later d le live' c)) in
        let accepted : verify_rule_package_delivery T instance_id trusted later again
            ≡ verified (package_of T instance_id trusted again (entries_of (get "payload" again))) =
          rw
            (
              verify_rule_package_delivery,
              Passes-first_error (all_checks T instance_id trusted later again) checks,
            )
            refl in
        subst
          (λ q. verify_stored_rule_package T instance_id trusted later (as_document q) ≡ verified q)
          same (accepted ∙ ap verified (package-stored d))
