-- ===== src/RuleStore/Invariant.antt =====
-- The invariant of the rule store of rule_store.py: its keys are unique and its evidence is bounded.
use zediot_hub_connector.Common.{
  Bool, Bool-cases, List, Option-cases, String, [], arith, inl, inr, length, ltb, map, mem_text,
  none, not, some, ℕ, ◌=ₛ◌, ◌∷◌, ◌≡◌, ◌≤◌,
}
use zediot_hub_connector.Queue.{Json}
use zediot_hub_connector.RuleStore.{
  ExecutionRow, Package, PackageRow, RuleStore, active_documents, apply_control, apply_package,
  execution_row, finalize_execution, finalize_row, find_execution, has_execution, has_package,
  mark_uploaded, package_row, prune, reserve_execution, reserve_new, trim, upload_row, where_,
}
use zediot_hub_connector.RuleStore.Step.{
  Call, applies, controls, finalizes, new_store, reads_active, reserves, run, step, uploads,
}
use zediot_hub_connector.RuleStore.Bounds.{prune_bound}
use zediot_hub_connector.RuleStore.Keys.{
  Distinct, Distinct-map, Distinct-snoc, find_execution-Apart, has_execution-Apart,
  has_package-Apart, where_-Distinct, where_-gone,
}

-- The two keys of a table of executions.
abbrev pub AreKeyed : {T : Type 0} → List (ExecutionRow T) → Type 0
AreKeyed rows = Distinct (λ r. r.idempotency_key) rows × Distinct (λ r. r.execution_id) rows

-- One row for a package id, a rule, an idempotency key and an execution id, and no more executions
-- than are allowed.
pub record IsValid {T : Type 0} (s : RuleStore T) : Type 0 where
  pub by_package : Distinct (λ r. r.package_id) s.packages
  pub by_rule : Distinct (λ r. r.rule_id) s.packages
  pub by_key : AreKeyed s.executions
  pub bounded : length s.executions ≤ s.evidence_max_rows

module _ {T : Type 0} where
  -- A pruned table is valid again.
  prune-IsValid :
      (s : RuleStore T) (now : ℕ)
      → Distinct (λ r. r.package_id) s.packages
      → Distinct (λ r. r.rule_id) s.packages
      → AreKeyed s.executions
      → IsValid (prune s now)
  unfolding prune trim
  prune-IsValid s now p r k = record {
    by_package = p;
    by_rule = r;
    by_key = (
      where_-Distinct _ _ _ (where_-Distinct _ _ s.executions k.0),
      where_-Distinct _ _ _ (where_-Distinct _ _ s.executions k.1),
    );
    bounded = unfold prune trim in prune_bound s now;
  }

module _ (J : Json) where
  apply_package-IsValid :
      (s : RuleStore J.Encoded) (now : ℕ) (p : Package J.Value)
      → IsValid s
      → IsValid (elim (apply_package J s now p) [ none ↦ s | some s' ↦ s' ])
  unfolding apply_package package_row
  apply_package-IsValid s now p v =
      let kept = where_ (λ r. not (r.rule_id =ₛ p.rule_id)) s.packages in
      elim (Bool-cases (has_package p.package_id kept)) [
        | inl taken ↦ rw taken v
        | inr free ↦ rw free (record {
          by_package =
              Distinct-snoc (λ r. r.package_id) _ kept
                (where_-Distinct (λ r. r.package_id) _ s.packages v.by_package)
                (has_package-Apart p.package_id kept free);
          by_rule =
              Distinct-snoc (λ r. r.rule_id) _ kept
                (where_-Distinct (λ r. r.rule_id) _ s.packages v.by_rule)
                (where_-gone (λ r. r.rule_id) p.rule_id s.packages);
          by_key = v.by_key;
          bounded = v.bounded;
        })
      ]

  filtered-IsValid :
      (s : RuleStore J.Encoded) (test : PackageRow J.Encoded → Bool)
      → IsValid s
      → IsValid (record s { packages = where_ test s.packages })
  filtered-IsValid s test v = record {
    by_package = where_-Distinct (λ r. r.package_id) test s.packages v.by_package;
    by_rule = where_-Distinct (λ r. r.rule_id) test s.packages v.by_rule;
    by_key = v.by_key;
    bounded = v.bounded;
  }

  apply_control-IsValid :
      (s : RuleStore J.Encoded) (status id : String)
      → IsValid s
      → IsValid (elim (apply_control s status id) [ none ↦ s | some (s', _) ↦ s' ])
  unfolding apply_control
  apply_control-IsValid s status id v =
      elim (Bool-cases (mem_text status ("revoked" ∷ "expired" ∷ []))) [
        | inl known ↦ rw known (filtered-IsValid s (λ r. not (r.package_id =ₛ id)) v)
        | inr unknown ↦ rw unknown v
      ]

  reserve-IsValid :
      (s : RuleStore J.Encoded) (now pruned_at : ℕ) (key id : String) (evidence : J.Value)
      → IsValid s
      → IsValid (elim (reserve_execution J s now pruned_at key id evidence) [
        | none ↦ s
        | some (s', _) ↦ s'
      ])
  unfolding reserve_execution reserve_new execution_row
  reserve-IsValid s now pruned_at key id evidence v =
      elim (Option-cases (find_execution key s.executions)) [
        | inr (r, found) ↦ rw found v
        | inl fresh ↦ elim (Bool-cases (has_execution id s.executions)) [
          | inl taken ↦ rw (fresh, taken) v
          | inr free ↦
              rw (fresh, free)
                (prune-IsValid _ pruned_at v.by_package v.by_rule (
                  Distinct-snoc (λ r. r.idempotency_key) _ s.executions v.by_key.0
                      (find_execution-Apart key s.executions fresh),
                  Distinct-snoc (λ r. r.execution_id) _ s.executions v.by_key.1
                      (has_execution-Apart id s.executions free),
                ))
        ]
      ]

  mapped-IsValid :
      (s : RuleStore J.Encoded) (now : ℕ) (f : ExecutionRow J.Encoded → ExecutionRow J.Encoded)
      → ((r : ExecutionRow J.Encoded) → (f r).idempotency_key ≡ r.idempotency_key)
      → ((r : ExecutionRow J.Encoded) → (f r).execution_id ≡ r.execution_id)
      → IsValid s
      → IsValid (prune (record s { executions = map f s.executions }) now)
  mapped-IsValid s now f same_key same_id v = prune-IsValid _ now v.by_package v.by_rule (
    Distinct-map (λ r. r.idempotency_key) f same_key s.executions v.by_key.0,
    Distinct-map (λ r. r.execution_id) f same_id s.executions v.by_key.1,
  )

  finalize-IsValid :
      (s : RuleStore J.Encoded) (now pruned_at : ℕ) (key : String) (evidence : J.Value)
      → IsValid s
      → IsValid
          (elim (finalize_execution J s now pruned_at key evidence) [ none ↦ s | some s' ↦ s' ])
  unfolding finalize_execution finalize_row
  finalize-IsValid s now pruned_at key evidence v =
      elim (Option-cases (find_execution key s.executions)) [
        | inl missing ↦ rw missing v
        | inr (r, found) ↦ rw found (
            mapped-IsValid s pruned_at (finalize_row J key evidence now) (λ x. ground arith)
              (λ x. ground arith) v)
      ]

  uploaded-IsValid :
      (s : RuleStore J.Encoded) (now pruned_at : ℕ) (ids : List String)
      → IsValid s
      → IsValid (mark_uploaded s now pruned_at ids)
  unfolding mark_uploaded upload_row
  uploaded-IsValid s now pruned_at [] v = v
  uploaded-IsValid s now pruned_at (id ∷ ids) v =
      mapped-IsValid s pruned_at (upload_row now (id ∷ ids)) (λ x. ground arith) (λ x. ground arith)
        v

  module _ (text_before : String → String → Bool) where
    step-IsValid :
        (s : RuleStore J.Encoded) (c : Call J text_before)
        → IsValid s
        → IsValid (step J text_before s c)
    unfolding step active_documents
    step-IsValid s (applies now p) v = apply_package-IsValid s now p v
    step-IsValid s (controls status id) v = apply_control-IsValid s status id v
    step-IsValid s (reads_active now) v = filtered-IsValid s (λ r. ltb now r.valid_until) v
    step-IsValid s (reserves now pruned_at key id evidence) v =
        reserve-IsValid s now pruned_at key id evidence v
    step-IsValid s (finalizes now pruned_at key evidence) v =
        finalize-IsValid s now pruned_at key evidence v
    step-IsValid s (uploads now pruned_at ids) v = uploaded-IsValid s now pruned_at ids v

    run-IsValid :
        (s : RuleStore J.Encoded) (cs : List (Call J text_before))
        → IsValid s
        → IsValid (run J text_before s cs)
    unfolding run
    run-IsValid s [] v = v
    run-IsValid s (c ∷ cs) v = run-IsValid (step J text_before s c) cs (step-IsValid s c v)

    -- After any calls on a new store no two packages share a package id or a rule, no two
    -- executions share an idempotency key or an execution id, and there are at most
    -- `evidence_max_rows` executions.
    pub run-new_store-IsValid :
        (max_rows retention : ℕ) (cs : List (Call J text_before))
        → IsValid (run J text_before (new_store max_rows retention) cs)
    unfolding new_store
    run-new_store-IsValid max_rows retention cs =
        run-IsValid (new_store max_rows retention) cs
          (record { by_package = tt; by_rule = tt; by_key = (tt, tt); bounded = omega arith })
