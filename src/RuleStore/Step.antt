-- ===== src/RuleStore/Step.antt =====
-- The calls that the connector makes on its rule store, as steps.
use zediot_hub_connector.Common.{Bool, List, String, [], none, some, ℕ, ◌∷◌}
use zediot_hub_connector.Queue.{Json}
use zediot_hub_connector.RuleStore.{
  Package, RuleStore, active_documents, apply_control, apply_package, finalize_execution,
  mark_uploaded, reserve_execution,
}

-- `__init__` on a new file.
unfoldable pub new_store : {T : Type 0} → ℕ → ℕ → RuleStore T
new_store max_rows retention = record {
  evidence_max_rows = max_rows;
  evidence_retention_seconds = retention;
  packages = [];
  executions = [];
}

module _ (J : Json) (text_before : String → String → Bool) where
  pub data Call : Type 0 where
    applies : ℕ → Package J.Value → Call
    controls : String → String → Call
    reads_active : ℕ → Call
    reserves : ℕ → ℕ → String → String → J.Value → Call
    finalizes : ℕ → ℕ → String → J.Value → Call
    uploads : ℕ → ℕ → List String → Call

  -- A call that raises rolls back.
  unfoldable pub step : RuleStore J.Encoded → Call → RuleStore J.Encoded
  unfolding apply_package apply_control active_documents reserve_execution finalize_execution
      mark_uploaded
  step s (applies now p) = elim (apply_package J s now p) [ none ↦ s | some s' ↦ s' ]
  step s (controls status id) = elim (apply_control s status id) [ none ↦ s | some (s', _) ↦ s' ]
  step s (reads_active now) = (active_documents J text_before s now).0
  step s (reserves now pruned_at key id evidence) =
      elim (reserve_execution J s now pruned_at key id evidence) [ none ↦ s | some (s', _) ↦ s' ]
  step s (finalizes now pruned_at key evidence) =
      elim (finalize_execution J s now pruned_at key evidence) [ none ↦ s | some s' ↦ s' ]
  step s (uploads now pruned_at ids) = mark_uploaded s now pruned_at ids

  unfoldable pub run : RuleStore J.Encoded → List Call → RuleStore J.Encoded
  unfolding step
  run s [] = s
  run s (c ∷ cs) = run (step s c) cs
