-- ===== src/Runtime/Commands.antt =====
-- `process_commands_once` of runtime.py: the commands that the core delivers, and their answers.
use zediot_hub_connector.Common.{
  Bool, List, Option, String, [], if◌then◌else◌, mem_text, none, not, some, ◌∷◌,
}
use zediot_hub_connector.Receipts.{Receipt}
use zediot_hub_connector.Executor.{
  Delivery, Evidence, Home, Library, Machine, Result, err, execute, ok,
}
use zediot_hub_connector.Runtime.Rules.{Progress, add_progress, progress_raised, progressed}
pub mod Issued

-- A claim with its retries gives each command with its `delivery_id`, where none is an exception;
-- an acknowledgement, of a delivery id with the receipt of its command, gives false where it raises.
pub record CommandCore : Type 1 where
  pub World : Type 0
  pub claim_commands : World → Option (List (String × Delivery)) × World
  pub acknowledge_command : World → String → Receipt Evidence → Bool × World

module _ (L : Library) (H : Home) (C : CommandCore) where
  abbrev pub Site : Type 0
  Site = Machine L H × C.World

  -- The answer to one delivery and the rest of the loop. `execute` may raise, and a receipt that is
  -- not found again is no dictionary.
  unfoldable pub answer :
      Result (Option (Receipt Evidence))
      → String
      → Machine L H
      → (C.World → Progress × Site)
      → C.World
      → Progress × Site
  unfolding add_progress
  answer (err e) id m next w = (progress_raised, (m, w))
  answer (ok none) id m next w = (progress_raised, (m, w))
  answer (ok (some r)) id m next w =
      let (sent, w') = C.acknowledge_command w id r in
      let (rest, after) = next w' in
      if sent then (add_progress 1 rest, after) else (progress_raised, (m, w'))

  -- The loop over the deliveries.
  unfoldable pub process_deliveries : List (String × Delivery) → Site → Progress × Site
  unfolding execute answer
  process_deliveries [] s = (progressed 0, s)
  process_deliveries ((id, d) ∷ deliveries) (m, w) =
      let (result, m') = execute L H d m in
      answer result id m' (λ w'. process_deliveries deliveries (m', w')) w

  -- The grants are those of the session, where none is no identity or no session.
  unfoldable pub process_commands_once : Option (List String) → Site → Progress × Site
  unfolding process_deliveries
  process_commands_once none s = (progress_raised, s)
  process_commands_once (some grants) (m, w) =
      let (claimed, w') = C.claim_commands w in
      if not (mem_text "command_downlink" grants) then (progressed 0, (m, w)) else elim claimed [
        | none ↦ (progress_raised, (m, w'))
        | some deliveries ↦ process_deliveries deliveries (m, w')
      ]
