-- ===== src/Runtime/Commands/Issued.antt =====
-- The service calls of `process_commands_once` of runtime.py.
use zediot_hub_connector.Common.{
  Bool-cases, List, Option, Option-cases, String, [], if◌then◌else◌, inl, inr, mem_text, none, some,
  subst, ◌∷◌,
}
use zediot_hub_connector.Receipts.{Receipt}
use zediot_hub_connector.Executor.{
  Delivery, Evidence, Home, Library, Machine, Result, ServiceCall, err, execute, ok,
}
use zediot_hub_connector.Executor.Effects.{IsAllowed, execute_calls}
use zediot_hub_connector.Runtime.Rules.{Progress}
use zediot_hub_connector.Runtime.Commands.{
  CommandCore, Site, answer, process_commands_once, process_deliveries,
}

abbrev pub named_call : Delivery → ServiceCall
named_call d = record {
  domain = d.envelope.domain;
  service = d.envelope.service;
  entity_id = d.envelope.entity_id;
}

abbrev claimed_of : Option (List (String × Delivery)) → List (String × Delivery)
claimed_of none = []
claimed_of (some deliveries) = deliveries

-- What a claim delivers: nothing where it raises, without a session, and where the session does not
-- grant the commands.
abbrev pub delivered : (C : CommandCore) → Option (List String) → C.World → List (String × Delivery)
delivered C none w = []
delivered C (some grants) w =
    if mem_text "command_downlink" grants then claimed_of (C.claim_commands w).0 else []

-- From the calls `before` to the calls `after`, both newest first: in the order of the deliveries,
-- each makes no call or the one call that its allowlisted envelope names, and the last of them may
-- be left out.
pub data Issued : List (String × Delivery) → List ServiceCall → List ServiceCall → Type 0 where
  left : {ds : List (String × Delivery)} {calls : List ServiceCall} → Issued ds calls calls
  quiet :
      {id : String} {d : Delivery} {ds : List (String × Delivery)} {calls after : List ServiceCall}
      → Issued ds calls after
      → Issued ((id, d) ∷ ds) calls after
  issued :
      {id : String} {d : Delivery} {ds : List (String × Delivery)} {calls after : List ServiceCall}
      → IsAllowed d.envelope
      → Issued ds (named_call d ∷ calls) after
      → Issued ((id, d) ∷ ds) calls after

module _ (L : Library) (H : Home) (C : CommandCore) where
  -- What an `execute` has done with the calls, in front of what the loop does after it.
  Issued-execute :
      (id : String) (d : Delivery) (ds : List (String × Delivery)) (m : Machine L H)
      {after : List ServiceCall}
      → Issued ds (execute L H d m).1.calls after
      → Issued ((id, d) ∷ ds) m.calls after
  Issued-execute id d ds m {after} rest = elim (execute_calls L H d m) [
    | inl none_made ↦ quiet (subst (λ c. Issued ds c after) none_made rest)
    | inr (allowed, made) ↦ issued allowed (subst (λ c. Issued ds c after) made rest)
  ]

  answer-Issued :
      (r : Result (Option (Receipt Evidence))) (id : String) (m : Machine L H)
      (next : C.World → Progress × Site L H C) (w : C.World) (ds : List (String × Delivery))
      → ((w' : C.World) → Issued ds m.calls (next w').1.0.calls)
      → Issued ds m.calls (answer L H C r id m next w).1.0.calls
  unfolding answer
  answer-Issued (err e) id m next w ds h = left
  answer-Issued (ok none) id m next w ds h = left
  answer-Issued (ok (some r)) id m next w ds h =
      elim (Bool-cases (C.acknowledge_command w id r).0) [
        | inl y ↦ rw (answer, y) (h (C.acknowledge_command w id r).1)
        | inr n ↦ rw (answer, n) left
      ]

  process_deliveries-Issued :
      (deliveries : List (String × Delivery)) (m : Machine L H) (w : C.World)
      → Issued deliveries m.calls (process_deliveries L H C deliveries (m, w)).1.0.calls
  unfolding process_deliveries
  process_deliveries-Issued [] m w = left
  process_deliveries-Issued ((id, d) ∷ deliveries) m w =
      let m' = (execute L H d m).1 in
      Issued-execute id d deliveries m (
        answer-Issued (execute L H d m).0 id m' (λ w'. process_deliveries L H C deliveries (m', w'))
          w deliveries (λ w'. process_deliveries-Issued deliveries m' w'))

  -- Whatever the core delivers and whatever the world does, a round of commands makes its service
  -- calls in the order of the deliveries, at most one for each delivery, and each with the fields of
  -- the envelope of its delivery, which has passed the allowlist. Where the claim
  -- fails, the session does not grant commands or there is none, no call is made.
  pub process_commands_once-Issued :
      (grants : Option (List String)) (m : Machine L H) (w : C.World)
      → Issued (delivered C grants w) m.calls (process_commands_once L H C grants (m, w)).1.0.calls
  unfolding process_commands_once
  process_commands_once-Issued none m w = left
  process_commands_once-Issued (some grants) m w =
      elim (Bool-cases (mem_text "command_downlink" grants)) [
        | inr n ↦ rw (process_commands_once, n) left
        | inl y ↦ elim (Option-cases (C.claim_commands w).0) [
          | inl e ↦ rw (process_commands_once, y, e) left
          | inr (deliveries, e) ↦
              rw (process_commands_once, y, e)
                (process_deliveries-Issued deliveries m (C.claim_commands w).1)
        ]
      ]
