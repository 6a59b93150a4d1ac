-- ===== src/RuleStore/Packages.antt =====
-- The methods of `LocalRuleStore` (rule_store.py) on rule packages.
use zediot_hub_connector.Common.{
  Bool, List, Option, String, [], false, if◌then◌else◌, ltb, map, mem_text, none, not, some, ℕ,
  ◌++◌, ◌=ₛ◌, ◌||◌, ◌∷◌,
}
use zediot_hub_connector.Queue.{Json}
use zediot_hub_connector.RuleStore.Table.{PackageRow, RuleStore, order_by, where_}

-- What a `VerifiedRulePackage` gives the store; `document` is `as_document()`.
pub record Package (V : Type 0) : Type 0 where
  pub package_id : String
  pub rule_id : String
  pub package_hash : String
  pub document : V
  pub valid_until : ℕ

module _ {T : Type 0} where
  -- Whether a `PRIMARY KEY` is taken.
  unfoldable pub has_package : String → List (PackageRow T) → Bool
  has_package id [] = false
  has_package id (r ∷ rows) = r.package_id =ₛ id || has_package id rows

  -- `apply_control`: `none` is the error RULE_PACKAGE_CONTROL_INVALID; the Boolean is whether a row
  -- was deleted.
  unfoldable pub apply_control : RuleStore T → String → String → Option (RuleStore T × Bool)
  unfolding where_ has_package
  apply_control s status package_id =
      if not (mem_text status ("revoked" ∷ "expired" ∷ []))
      then none
      else some (
        record s { packages = where_ (λ r. not (r.package_id =ₛ package_id)) s.packages },
        has_package package_id s.packages,
      )

module _ (J : Json) where
  unfoldable pub package_row : Package J.Value → ℕ → PackageRow J.Encoded
  package_row p now = record {
    package_id = p.package_id;
    rule_id = p.rule_id;
    package_hash = p.package_hash;
    document_json = J.dumps p.document;
    valid_until = p.valid_until;
    updated_at = now;
  }

  -- `apply_package`: the package of the same rule goes, then the new one is inserted. `none` is an
  -- `IntegrityError` of the `INSERT`, which rolls the transaction back.
  unfoldable pub apply_package :
      RuleStore J.Encoded → ℕ → Package J.Value → Option (RuleStore J.Encoded)
  unfolding where_ has_package package_row
  apply_package s now p =
      let kept = where_ (λ r. not (r.rule_id =ₛ p.rule_id)) s.packages in
      if has_package p.package_id kept
      then none
      else some (record s { packages = kept ++ package_row p now ∷ [] })

  -- `active_documents`, with SQLite's order of texts.
  unfoldable pub active_documents :
      (String → String → Bool) → RuleStore J.Encoded → ℕ → RuleStore J.Encoded × List J.Value
  unfolding where_ order_by
  active_documents text_before s now =
      let live = where_ (λ r. ltb now r.valid_until) s.packages in
      (
        record s { packages = live },
        map (λ r. J.loads r.document_json)
            (order_by (λ r r'. text_before r.rule_id r'.rule_id) live),
      )
