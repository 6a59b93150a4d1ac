-- ===== src/Witnesses/Rounds.antt =====
-- A core that delivers one command, and one that takes the first of two pieces of evidence.
use mathlib.Core.Option.{some_inj}
use zediot_hub_connector.Common.{
  String, [], arith, false, mem_text, refl, some, subst, sym, true, ℕ, ◌+◌, ◌∙◌, ◌∷◌, ◌≡◌,
}
use zediot_hub_connector.Condition.Documents.{entry, get, has, no_entry, string}
use zediot_hub_connector.RuleStore.{
  ExecutionRow, RuleStore, complete, find_execution, insert_by, order_by, pending, pending_evidence,
  where_,
}
use zediot_hub_connector.RuleRuntime.Events.{str_value}
use zediot_hub_connector.Runtime.Commands.{CommandCore, process_commands_once}
use zediot_hub_connector.Runtime.Commands.Issued.{Issued, process_commands_once-Issued}
use zediot_hub_connector.Runtime.Evidence.{
  EvidenceCore, accepted_ids, add_text, confirm, flush_rule_evidence_once, is_accepted, without,
}
use zediot_hub_connector.Runtime.Evidence.Kept.{Waits, flush_rule_evidence_once-keeps}
use zediot_hub_connector.Witnesses.Condition.{naturals}
use zediot_hub_connector.Witnesses.Rules.{Kept, document, hooks, json}
use zediot_hub_connector.Witnesses.Executor.{delivery, home, library, machine}

abbrev commands : CommandCore
commands = record {
  World = ℕ;
  claim_commands = λ w. (some (("d1", delivery) ∷ []), w);
  acknowledge_command = λ w id r. (true, w + 1);
}

process_commands_once-Issued_example :
    Issued
      (("d1", delivery) ∷ [])
      []
      (process_commands_once library home commands
        (some ("command_downlink" ∷ []))
        (machine, 0)).1.0.calls
process_commands_once-Issued_example =
    process_commands_once-Issued library home commands (some ("command_downlink" ∷ [])) machine 0

abbrev core : EvidenceCore naturals
core = record {
  World = ℕ;
  upload_rule_evidence = λ w items. (
    some (
        entry "execution_id" (string "x1") (entry "ingest_status" (string "accepted") no_entry)
        ∷ entry "execution_id" (string "x2") (entry "ingest_status" (string "rejected") no_entry)
        ∷ []),
    w,
  );
}

abbrev row : String → String → ExecutionRow Kept
row key id = record {
  idempotency_key = key;
  execution_id = id;
  evidence_json = document no_entry;
  execution_status = complete;
  upload_status = pending;
  created_at = 1;
  updated_at = 1;
}

abbrev store : RuleStore Kept
store = record {
  evidence_max_rows = 10;
  evidence_retention_seconds = 60;
  packages = [];
  executions = row "k1" "x1" ∷ row "k2" "x2" ∷ [];
}

taken : (confirm hooks core (pending_evidence json store 100) 0).0 ≡ some ("x1" ∷ [])
unfolding confirm accepted_ids is_accepted add_text without pending_evidence where_ order_by
    insert_by str_value has get
taken = refl

left_behind : Waits hooks core "k2" (row "k2" "x2") (store, 0)
unfolding find_execution
left_behind =
    (refl, refl, λ ids e. subst (λ z. mem_text "x2" z ≡ false) (some_inj.0 (sym taken ∙ e)) refl)

flush_rule_evidence_once-keeps_example :
    let after =
      (flush_rule_evidence_once hooks core 5 6 (some ("local_rule_runtime" ∷ [])) (store, 0)).1.0 in
    find_execution "k2" after.executions ≡ some (row "k2" "x2")
flush_rule_evidence_once-keeps_example =
    flush_rule_evidence_once-keeps hooks core 5 6 (some ("local_rule_runtime" ∷ [])) store 0 "k2"
      (row "k2" "x2") (omega arith) left_behind
