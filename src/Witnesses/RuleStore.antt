-- ===== src/Witnesses/RuleStore.antt =====
-- A rule store of ten executions whose evidence is a number.
use zediot_hub_connector.Common.{Bool, List, String, [], false, ℕ, ◌∷◌}
use zediot_hub_connector.RuleStore.{Package}
use zediot_hub_connector.RuleStore.Step.{
  Call, applies, finalizes, new_store, reserves, run, uploads,
}
use zediot_hub_connector.RuleStore.Invariant.{IsValid, run-new_store-IsValid}
use zediot_hub_connector.Witnesses.Queue.{numbers}

abbrev before : String → String → Bool
before s t = false

abbrev hall_rule : Package ℕ
hall_rule = record {
  package_id = "p1";
  rule_id = "r1";
  package_hash = "h1";
  document = 5;
  valid_until = 90;
}

abbrev calls : List (Call numbers before)
calls =
    applies 10 hall_rule
    ∷ applies 20 (record hall_rule { package_id = "p2" })
    ∷ reserves 30 31 "k1" "x1" 7
    ∷ reserves 40 41 "k1" "x2" 8
    ∷ finalizes 50 51 "k1" 9
    ∷ uploads 60 61 ("x1" ∷ [])
    ∷ []

run-new_store-IsValid_example : IsValid (run numbers before (new_store 10 60) calls)
run-new_store-IsValid_example = run-new_store-IsValid numbers before 10 60 calls
