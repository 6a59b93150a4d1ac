-- ===== src/Runtime/Evidence/Kept.antt =====
-- Evidence that the core has not taken is still in the store after a flush.
use zediot_hub_connector.Common.{
  Bool, Bool-cases, List, Option, Option-cases, String, [], ap, arith, false, inl, inr, length,
  length-map, map, mem_text, none, refl, some, true, ℕ, ◌*◌, ◌-◌, ◌∙◌, ◌∷◌, ◌≡◌, ◌≤◌,
}
use zediot_hub_connector.Queue.{Json}
use zediot_hub_connector.Condition.Documents.{Numbers}
use zediot_hub_connector.RuleStore.{
  ExecutionRow, RuleStore, find_execution, insert_by, is_uploaded, mark_uploaded, order_by,
  pending_evidence, retained, upload_row,
}
use zediot_hub_connector.RuleStore.Finalized.{find-kept, find-mapped}
use zediot_hub_connector.RuleStore.Reservation.{prune_room}
use zediot_hub_connector.RuleRuntime.{Hooks}
use zediot_hub_connector.Runtime.Evidence.{
  EvidenceCore, Site, confirm, flush_items, flush_rule_evidence_once,
}

module _ (text_before : String → String → Bool) where
  mem-insert :
      (id x : String) (ids : List String)
      → mem_text id (insert_by text_before x ids) ≡ mem_text id (x ∷ ids)
  unfolding insert_by
  mem-insert id x [] = refl
  mem-insert id x (y ∷ ids) = ground (arith, mem-insert id x ids)

  mem-order :
      (id : String) (ids : List String) → mem_text id (order_by text_before ids) ≡ mem_text id ids
  unfolding order_by
  mem-order id [] = refl
  mem-order id (x ∷ ids) =
      ground (arith, mem-insert id x (order_by text_before ids), mem-order id ids)

module _ {T : Type 0} where
  upload_row-key :
      (now : ℕ) (ids : List String) (r : ExecutionRow T)
      → (upload_row now ids r).idempotency_key ≡ r.idempotency_key
  unfolding upload_row
  upload_row-key now ids r = elim (Bool-cases (mem_text r.execution_id ids)) [
    | inl y ↦ rw (upload_row, y) refl
    | inr n ↦ rw (upload_row, n) refl
  ]

  -- `mark_uploaded` leaves a row alone that it has not named and that is not uploaded before.
  find-mark_uploaded :
      (s : RuleStore T) (now pruned_at : ℕ) (ids : List String) (key : String) (r : ExecutionRow T)
      → length s.executions ≤ s.evidence_max_rows
      → find_execution key s.executions ≡ some r
      → is_uploaded r.upload_status ≡ false
      → mem_text r.execution_id ids ≡ false
      → find_execution key (mark_uploaded s now pruned_at ids).executions ≡ some r
  unfolding mark_uploaded
  find-mark_uploaded s now pruned_at [] key r room found waiting unnamed = found
  find-mark_uploaded s now pruned_at (id ∷ ids) key r room found waiting unnamed =
      let f = upload_row now (id ∷ ids) in
      let mapped : RuleStore T = record s { executions = map f s.executions } in
      let cutoff = pruned_at - s.evidence_retention_seconds * 1_000_000 in
      let same : f r ≡ r = rw (upload_row, unnamed) refl in
      let stays : retained cutoff r ≡ true = rw (retained, waiting) refl in
      rw (prune_room mapped pruned_at (rw (length-map f s.executions) room)) (
        find-kept key (retained cutoff) (map f s.executions) r
          (find-mapped key f s.executions r (upload_row-key now (id ∷ ids)) found ∙ ap some same)
          stays)

module _ {P : Numbers} {J : Json} (K : Hooks P J) (E : EvidenceCore P) where
  -- The row of the key `key` waits for its upload, and the core has not taken its execution.
  abbrev pub Waits : String → ExecutionRow J.Encoded → Site K E → Type 0
  Waits key r (s, w) =
      (find_execution key s.executions ≡ some r)
      × (is_uploaded r.upload_status ≡ false)
      × ((ids : List String)
          → (confirm K E (pending_evidence J s 100) w).0 ≡ some ids
          → mem_text r.execution_id ids ≡ false)

  flush_items-keeps :
      (now pruned_at : ℕ) (items : List J.Value) (s : RuleStore J.Encoded) (w : E.World)
      (key : String) (r : ExecutionRow J.Encoded)
      → length s.executions ≤ s.evidence_max_rows
      → find_execution key s.executions ≡ some r
      → is_uploaded r.upload_status ≡ false
      → ((ids : List String)
          → (confirm K E items w).0 ≡ some ids
          → mem_text r.execution_id ids ≡ false)
      → find_execution key (flush_items K E now pruned_at items (s, w)).1.0.executions ≡ some r
  unfolding flush_items
  flush_items-keeps now pruned_at [] s w key r room found waiting untaken = found
  flush_items-keeps now pruned_at (item ∷ items) s w key r room found waiting untaken =
      elim (Option-cases (confirm K E (item ∷ items) w).0) [
        | inl e ↦ rw (flush_items, e) found
        | inr (ids, e) ↦
            rw (flush_items, e)
              (find-mark_uploaded s now pruned_at (order_by K.text_before ids) key r room found
                waiting (mem-order K.text_before r.execution_id ids ∙ untaken ids e))
      ]

  -- Evidence is not lost: with room in the table, an execution whose evidence is not uploaded and
  -- is not among those that the core takes in this flush is in the store afterwards as it was
  -- before, whatever the core answers and also when the request fails.
  pub flush_rule_evidence_once-keeps :
      (now pruned_at : ℕ) (grants : Option (List String)) (s : RuleStore J.Encoded) (w : E.World)
      (key : String) (r : ExecutionRow J.Encoded)
      → length s.executions ≤ s.evidence_max_rows
      → Waits key r (s, w)
      → let after = (flush_rule_evidence_once K E now pruned_at grants (s, w)).1.0 in
        find_execution key after.executions ≡ some r
  unfolding flush_rule_evidence_once find_execution
  flush_rule_evidence_once-keeps now pruned_at none s w key r room (found, _, _) = found
  flush_rule_evidence_once-keeps now pruned_at (some grants) s w key r room
        (found, waiting, untaken) =
      elim (Bool-cases (mem_text "local_rule_runtime" grants)) [
        | inl y ↦
            rw (flush_rule_evidence_once, y)
              (flush_items-keeps now pruned_at (pending_evidence J s 100) s w key r room found
                waiting untaken)
        | inr n ↦ rw (flush_rule_evidence_once, n) found
      ]
