-- ===== src/Condition.antt =====
-- `evaluate_condition` of rule_runtime.py (src/zediot_ha_hub_connector): the interpreter for the
-- conditions of local rules, which are JSON documents.
pub mod Documents
mod Path
mod Compare
mod Evaluate
pub mod Depth
pub mod Isolation
unfoldable pub use Documents.*
unfoldable pub use Path.*
unfoldable pub use Compare.*
unfoldable pub use Evaluate.*
