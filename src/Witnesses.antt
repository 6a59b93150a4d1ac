-- ===== src/Witnesses.antt =====
-- The theorems at concrete inputs.
mod Queue
mod Reliability
mod Receipts
mod Executor
mod Runtime
mod RuleStore
mod Condition
mod Intake
mod EventIdentity
mod Bootstrap
mod Client
mod Rules
mod Rounds
