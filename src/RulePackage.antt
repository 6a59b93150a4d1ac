-- ===== src/RulePackage.antt =====
-- rule_package.py: the checks of a delivered rule package. The canonical text of a payload, SHA-256,
-- Ed25519, `datetime` and Python's `==` and `str` are parameters.
use Prim.Native.String.{slice, ◌++◌ as ◌+ₛ◌}
use zediot_hub_connector.Common.{
  Bool, List, Option, String, [], false, if◌then◌else◌, mem_text, none, not, some, true, ℕ, ◌&&◌,
  ◌=ₛ◌, ◌||◌, ◌∷◌,
}
use zediot_hub_connector.Condition.Documents.{
  Document, Elements, Entries, Numbers, absent, array, boolean, element, entry, get, has, no_entry,
  no_more, number, object, string, truthy,
}
pub mod Plan
pub mod Trust
pub mod Safe
pub mod Reviewed
pub mod Accepted

-- `parse_time` gives microseconds or raises; `verifies` is the whole `try` on a key, a signature and
-- a text; `normalize` is `str(key).strip().lower()`, and `str_of` is `str` of a value that is
-- neither a text nor false.
pub record Tools (P : Numbers) : Type 0 where
  pub canonical : Entries P → String
  pub sha256 : String → String
  pub verifies : String → String → String → Bool
  pub parse_time : Document P → Option ℕ
  pub normalize : String → String
  pub same : Document P → Document P → Bool
  pub str_of : Document P → String

-- The texts of the `RuntimeError`s; the last is an exception of `dict(…)` or of `parse_time`.
pub data PackageError : Type 0 where
  forbidden_field id_mismatch hash_mismatch metadata_mismatch key_untrusted : PackageError
  version_unsupported runtime_version_unsupported profile_mismatch instance_mismatch : PackageError
  plan_invalid event_binding_invalid action_plan_invalid action_safety_invalid : PackageError
  clock_skew expired signature_invalid malformed : PackageError

pub record VerifiedRulePackage (P : Numbers) : Type 0 where
  pub package_id : String
  pub package_hash : String
  pub signature : String
  pub signature_key_id : String
  pub signing_public_key_pem : String
  pub payload : Entries P
  pub valid_until : ℕ

abbrev pub runtime_version : String
runtime_version = "zediot-ha-rule-runtime-v1"

-- A condition that a check asks for, with the error it raises otherwise.
abbrev pub Check : Type 0
Check = Bool × PackageError

unfoldable pub first_error : List Check → Option PackageError
first_error [] = none
first_error ((passes, error) ∷ checks) =
    let rest = first_error checks in if passes then rest else some error

abbrev pub forbidden_keys : List String
forbidden_keys =
    "access_token" ∷ "refresh_token" ∷ "raw_token" ∷ "credential" ∷ "credentials" ∷ "secret"
    ∷ "private_key" ∷ "provider_payload" ∷ "provider_raw" ∷ "raw" ∷ "raw_payload" ∷ "source_payload"
    ∷ "yaml" ∷ "jinja" ∷ "script" ∷ []

module _ {P : Numbers} where
  -- `value == "…"`
  unfoldable pub is_text : Document P → String → Bool
  is_text (string s) t = s =ₛ t
  is_text absent t = false
  is_text (boolean b) t = false
  is_text (number n) t = false
  is_text (array xs) t = false
  is_text (object d) t = false

  -- A list of a text and a value, as a pair.
  unfoldable pub text_key : Document P → Option String
  text_key (string s) = some s
  text_key absent = none
  text_key (boolean b) = none
  text_key (number n) = none
  text_key (array xs) = none
  text_key (object d) = none

  unfoldable pub only_element : Elements P → Option (Document P)
  only_element no_more = none
  only_element (element v no_more) = some v
  only_element (element v (element x xs)) = none

  unfoldable pub pair_in : Elements P → Option (String × Document P)
  unfolding text_key only_element
  pair_in no_more = none
  pair_in (element key rest) = elim (text_key key) [
    | none ↦ none
    | some k ↦ elim (only_element rest) [ none ↦ none | some v ↦ some (k, v) ]
  ]

  unfoldable pub pair_of : Document P → Option (String × Document P)
  unfolding pair_in
  pair_of (array xs) = pair_in xs
  pair_of absent = none
  pair_of (boolean b) = none
  pair_of (number n) = none
  pair_of (string s) = none
  pair_of (object d) = none

  -- `dict` of a list of pairs, in which the last pair of a key counts.
  unfoldable pub dict_of_pairs : Elements P → Option (Entries P)
  unfolding pair_of has
  dict_of_pairs no_more = some no_entry
  dict_of_pairs (element x xs) =
      let rest = dict_of_pairs xs in
      elim (pair_of x) [
        | none ↦ none
        | some pair ↦ elim rest [
          | none ↦ none
          | some d ↦ some (if has pair.0 d then d else entry pair.0 pair.1 d)
        ]
      ]

  -- `dict(value or {})`; `none` is an exception. A list is read as pairs where each of its elements
  -- is a list of a text and a value; Python also takes a pair with another key, and a text or a
  -- dictionary of length two for a pair, which are exceptions here.
  unfoldable pub dict_of : Document P → Option (Entries P)
  unfolding truthy dict_of_pairs
  dict_of (object d) = some d
  dict_of absent = some no_entry
  dict_of (boolean b) = if b then none else some no_entry
  dict_of (number n) = if truthy {P = P} (number n) then none else some no_entry
  dict_of (string s) = if s =ₛ "" then some no_entry else none
  dict_of (array xs) = dict_of_pairs xs

  unfoldable pub is_boolean : Document P → Bool
  is_boolean (boolean b) = true
  is_boolean absent = false
  is_boolean (number n) = false
  is_boolean (string s) = false
  is_boolean (array xs) = false
  is_boolean (object d) = false

  -- The entries of a dictionary, none for an exception.
  unfoldable pub entries_of : Document P → Entries P
  unfolding dict_of
  entries_of v = elim (dict_of v) [ none ↦ no_entry | some d ↦ d ]

  unfoldable pub is_dict : Document P → Bool
  unfolding dict_of
  is_dict v = elim (dict_of v) [ none ↦ false | some d ↦ true ]

module _ {P : Numbers} (T : Tools P) where
  -- `str(value or "")`
  unfoldable pub text_of : Document P → String
  unfolding truthy
  text_of (string s) = s
  text_of absent = ""
  text_of (boolean b) = if b then T.str_of (boolean b) else ""
  text_of (number n) = if truthy {P = P} (number n) then T.str_of (number n) else ""
  text_of (array xs) = if truthy {P = P} (array xs) then T.str_of (array xs) else ""
  text_of (object d) = if truthy {P = P} (object d) then T.str_of (object d) else ""

  -- `ensure_safe`, as a test.
  unfoldable mutual
    pub is_safe : Document P → Bool
    is_safe absent = true
    is_safe (boolean b) = true
    is_safe (number n) = true
    is_safe (string s) = true
    is_safe (array xs) = are_safe xs
    is_safe (object d) = entries_safe d

    pub are_safe : Elements P → Bool
    are_safe no_more = true
    are_safe (element v rest) = is_safe v && are_safe rest

    pub entries_safe : Entries P → Bool
    entries_safe no_entry = true
    entries_safe (entry k v rest) =
        not (mem_text (T.normalize k) forbidden_keys) && (is_safe v && entries_safe rest)

  unfoldable pub hash_of : Entries P → String
  hash_of payload = T.sha256 (T.canonical payload)

  unfoldable pub id_of : Entries P → String
  unfolding hash_of
  id_of payload = "rpkg_" +ₛ slice (hash_of payload) 0 24

  -- One round of the loop over the field names.
  unfoldable pub agrees : Entries P → Entries P → String → Bool
  unfolding has get
  agrees delivery payload field =
      not (has field delivery) || T.same (get field delivery) (get field payload)

  unfoldable pub metadata_agrees : Entries P → Entries P → Bool
  unfolding agrees
  metadata_agrees delivery payload =
      agrees delivery payload "deployment_id"
      && (agrees delivery payload "rule_id"
          && (agrees delivery payload "version_id"
              && (agrees delivery payload "version_no"
                  && agrees delivery payload "integration_instance_id")))
