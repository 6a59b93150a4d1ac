-- ===== src/Runtime.antt =====
-- `HubConnectorRuntime` (src/zediot_ha_hub_connector/runtime.py): the part that uploads the queue.
pub mod Batch
pub mod State
pub mod Flush
pub mod Attempts
pub mod Outcomes
pub mod Sends
pub mod Intake
pub mod Reconciliation
pub mod Waiting
pub mod Bootstrap
pub mod Threads
pub mod Events
pub mod Commands
pub mod Evidence
pub mod Rules
