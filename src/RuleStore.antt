-- ===== src/RuleStore.antt =====
-- `LocalRuleStore` (src/zediot_ha_hub_connector/rule_store.py): the active rule packages and the
-- executions of local rules with their evidence. Each method is one function on the state of the
-- database file.
mod Table
mod Packages
mod Executions
pub mod Step
pub mod Bounds
pub mod Keys
pub mod Invariant
pub mod Reservation
pub mod Finalized
unfoldable pub use Table.*
unfoldable pub use Packages.*
unfoldable pub use Executions.*
