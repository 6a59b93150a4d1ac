-- ===== src/RulePackage/Trust.antt =====
-- `verify_rule_package_delivery` and `verify_stored_rule_package` of rule_package.py. The clock is an
-- argument, in microseconds.
use zediot_hub_connector.Common.{
  Bool, List, Option, String, [], false, inl, inr, leb, ltb, mem_text, none, refl, some, true, ℕ,
  ◌++◌, ◌+◌, ◌∷◌, ◌≡◌, ◌⊎◌,
}
use zediot_hub_connector.Condition.Documents.{
  Entries, Numbers, entry, get, no_entry, object, string,
}
use zediot_hub_connector.RulePackage.{
  Check, PackageError, Tools, VerifiedRulePackage, clock_skew, entries_of, entries_safe, expired,
  first_error, forbidden_field, hash_mismatch, hash_of, id_mismatch, id_of, instance_mismatch,
  is_dict, is_text, key_untrusted, malformed, metadata_agrees, metadata_mismatch, plan_invalid,
  profile_mismatch, runtime_version, runtime_version_unsupported, signature_invalid, text_of,
  version_unsupported,
}
use zediot_hub_connector.RulePackage.Plan.{plan_checks}

pub data Verified (P : Numbers) : Type 0 where
  verified : VerifiedRulePackage P → Verified P
  rejected : PackageError → Verified P

-- `issued_at > current + MAX_CLOCK_SKEW`
unfoldable pub not_ahead : ℕ → Option ℕ → Bool
not_ahead now none = false
not_ahead now (some issued_at) = leb issued_at (now + 300_000_000)

unfoldable pub not_expired : ℕ → Option ℕ → Bool
not_expired now none = false
not_expired now (some valid_until) = ltb now valid_until

unfoldable pub is_some : Option ℕ → Bool
is_some none = false
is_some (some n) = true

unfoldable pub or_zero : Option ℕ → ℕ
or_zero none = 0
or_zero (some n) = n

module _ {P : Numbers} (T : Tools P) (integration_instance_id : String)
    (trusted : List String) where
  -- The tests from the key to the runtime plan, in the order of the code.
  unfoldable pub trust_checks : Entries P → String → List Check
  unfolding get is_text entries_of is_dict plan_checks
  trust_checks payload key_id =
      let plan = entries_of (get "runtime_plan" payload) in
      (mem_text key_id trusted, key_untrusted)
      ∷ (is_text (get "package_version" payload) "1.0", version_unsupported)
      ∷ (is_text (get "runtime_version" payload) runtime_version, runtime_version_unsupported)
      ∷ (is_text (get "profile_key" payload) "home_assistant", profile_mismatch)
      ∷ (is_text (get "integration_instance_id" payload) integration_instance_id, instance_mismatch)
      ∷ (is_dict (get "runtime_plan" payload), malformed)
      ∷ (is_text (get "runtime" plan) "home_assistant", plan_invalid)
      ∷ (is_text (get "runtime_version" plan) runtime_version, plan_invalid)
      ∷ plan_checks T plan

  -- The tests behind them.
  unfoldable pub time_checks : ℕ → Entries P → String → String → List Check
  unfolding get not_ahead not_expired is_some
  time_checks now payload signature pem =
      let issued_at = T.parse_time (get "issued_at" payload) in
      let valid_until = T.parse_time (get "valid_until" payload) in
      (is_some issued_at, malformed)
      ∷ (is_some valid_until, malformed)
      ∷ (not_ahead now issued_at, clock_skew)
      ∷ (not_expired now valid_until, expired)
      ∷ (T.verifies pem signature (T.canonical payload), signature_invalid)
      ∷ []

  unfoldable pub delivery_checks : Entries P → Entries P → List Check
  unfolding get is_text is_dict entries_safe id_of hash_of metadata_agrees
  delivery_checks delivery payload =
      (is_dict (get "payload" delivery), malformed)
      ∷ (entries_safe T payload, forbidden_field)
      ∷ (is_text (get "package_id" delivery) (id_of T payload), id_mismatch)
      ∷ (is_text (get "payload_hash" delivery) (hash_of T payload), hash_mismatch)
      ∷ (metadata_agrees T delivery payload, metadata_mismatch)
      ∷ []

  unfoldable pub package_of : Entries P → Entries P → VerifiedRulePackage P
  unfolding id_of hash_of text_of get or_zero
  package_of delivery payload = record {
    package_id = id_of T payload;
    package_hash = hash_of T payload;
    signature = text_of T (get "signature" delivery);
    signature_key_id = text_of T (get "signature_key_id" delivery);
    signing_public_key_pem = text_of T (get "signing_public_key_pem" delivery);
    payload = payload;
    valid_until = or_zero (T.parse_time (get "valid_until" payload));
  }

  unfoldable pub all_checks : ℕ → Entries P → List Check
  unfolding get entries_of delivery_checks trust_checks time_checks text_of
  all_checks now delivery =
      let payload = entries_of (get "payload" delivery) in
      delivery_checks delivery payload
      ++ (trust_checks payload (text_of T (get "signature_key_id" delivery))
          ++ time_checks now payload (text_of T (get "signature" delivery))
              (text_of T (get "signing_public_key_pem" delivery)))

  unfoldable pub verify_rule_package_delivery : ℕ → Entries P → Verified P
  unfolding get entries_of all_checks first_error package_of
  verify_rule_package_delivery now delivery = elim (first_error (all_checks now delivery)) [
    | some error ↦ rejected error
    | none ↦ verified (package_of delivery (entries_of (get "payload" delivery)))
  ]

  -- The dictionary that `verify_stored_rule_package` makes of a stored document.
  unfoldable pub stored_delivery : Entries P → Entries P
  unfolding get
  stored_delivery document = entry "package_id" (get "package_id" document) (
      entry "payload_hash" (get "payload_hash" document) (
        entry "signature" (get "signature" document) (
          entry "signature_key_id" (get "signature_key_id" document) (
            entry "signing_public_key_pem" (get "signing_public_key_pem" document)
              (entry "payload" (get "payload" document) no_entry)))))

  unfoldable pub verify_stored_rule_package : ℕ → Entries P → Verified P
  unfolding stored_delivery verify_rule_package_delivery
  verify_stored_rule_package now document =
      verify_rule_package_delivery now (stored_delivery document)

-- `as_document`
unfoldable pub as_document : {P : Numbers} → VerifiedRulePackage P → Entries P
as_document p = entry "package_id" (string p.package_id) (
    entry "payload_hash" (string p.package_hash) (
      entry "signature" (string p.signature) (
        entry "signature_key_id" (string p.signature_key_id) (
          entry "signing_public_key_pem" (string p.signing_public_key_pem)
            (entry "payload" (object p.payload) no_entry)))))

pub Verified-cases :
    {P : Numbers} (v : Verified P)
    → ((p : VerifiedRulePackage P) × (v ≡ verified p))
      ⊎ ((reason : PackageError) × (v ≡ rejected reason))
Verified-cases (verified p) = inl (p, refl)
Verified-cases (rejected reason) = inr (reason, refl)
