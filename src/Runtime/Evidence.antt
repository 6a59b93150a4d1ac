-- ===== src/Runtime/Evidence.antt =====
-- `flush_rule_evidence_once` of runtime.py: the evidence of the rules on its way to the core.
use zediot_hub_connector.Common.{
  Bool, List, Option, String, [], false, if◌then◌else◌, length, map, mem_text, none, not, some, ℕ,
  ◌=ₛ◌, ◌∷◌,
}
use zediot_hub_connector.Queue.{Json}
use zediot_hub_connector.Condition.Documents.{
  Document, Entries, Numbers, absent, array, boolean, entry, get, has, no_entry, number, object,
  string,
}
use zediot_hub_connector.RuleStore.{RuleStore, mark_uploaded, order_by, pending_evidence}
use zediot_hub_connector.RuleRuntime.{Hooks}
use zediot_hub_connector.RuleRuntime.Events.{str_value}
use zediot_hub_connector.Runtime.Rules.{Progress, progress_raised, progressed}
pub mod Kept

-- `upload_rule_evidence` of the core with its retries; none is an exception that leaves them.
pub record EvidenceCore (P : Numbers) : Type 1 where
  pub World : Type 0
  pub upload_rule_evidence : World → List (Entries P) → Option (List (Entries P)) × World

-- `status in {"accepted", "duplicate"}`, where none is the `TypeError` of a value with no hash.
unfoldable pub is_accepted : {P : Numbers} → Document P → Option Bool
is_accepted (string s) = some (mem_text s ("accepted" ∷ "duplicate" ∷ []))
is_accepted absent = some false
is_accepted (boolean b) = some false
is_accepted (number n) = some false
is_accepted (array xs) = none
is_accepted (object d) = none

-- An item with every key but the given one.
unfoldable pub without : {P : Numbers} → String → Entries P → Entries P
without key no_entry = no_entry
without key (entry k v d) = let rest = without key d in if k =ₛ key then rest else entry k v rest

-- A set of texts, with each of its members once.
unfoldable pub add_text : String → List String → List String
add_text id ids = if mem_text id ids then ids else id ∷ ids

module _ {P : Numbers} {J : Json} (K : Hooks P J) where
  -- `accepted_ids`, where none is an exception.
  unfoldable pub accepted_ids : List (Entries P) → Option (List String)
  unfolding is_accepted add_text str_value has get
  accepted_ids [] = some []
  accepted_ids (item ∷ items) =
      let rest = accepted_ids items in
      elim (is_accepted (get "ingest_status" item)) [
        | none ↦ none
        | some accepted ↦
            if not accepted
            then rest
            else if has "execution_id" item
            then elim rest [
              | none ↦ none
              | some ids ↦ some (add_text (str_value K (get "execution_id" item)) ids)
            ]
            else none
      ]

  module _ (E : EvidenceCore P) where
    abbrev pub Site : Type 0
    Site = RuleStore J.Encoded × E.World

    -- The upload, with the ids that the core has taken.
    unfoldable pub confirm : List J.Value → E.World → Option (List String) × E.World
    unfolding accepted_ids without
    confirm items w =
        let (response, w') =
          E.upload_rule_evidence w
            (map (λ v. without "connectivity_state" (K.document_of v)) items) in
        (elim response [ none ↦ none | some answers ↦ accepted_ids answers ], w')

    -- The part behind the `SELECT`. `now` and `pruned_at` are the clock readings of the store.
    unfoldable pub flush_items : ℕ → ℕ → List J.Value → Site → Progress × Site
    unfolding confirm order_by mark_uploaded
    flush_items now pruned_at [] s = (progressed 0, s)
    flush_items now pruned_at (item ∷ items) (s, w) =
        let (taken, w') = confirm (item ∷ items) w in
        elim taken [
          | none ↦ (progress_raised, (s, w'))
          | some ids ↦ (
            progressed (length ids),
            (mark_uploaded s now pruned_at (order_by K.text_before ids), w'),
          )
        ]

    -- The grants are those of the session, where none is no identity or no session.
    unfoldable pub flush_rule_evidence_once : ℕ → ℕ → Option (List String) → Site → Progress × Site
    unfolding flush_items pending_evidence
    flush_rule_evidence_once now pruned_at none s = (progress_raised, s)
    flush_rule_evidence_once now pruned_at (some grants) s =
        if mem_text "local_rule_runtime" grants
        then flush_items now pruned_at (pending_evidence J s.0 100) s
        else (progressed 0, s)
