-- ===== src/Queue.antt =====
-- `BoundedUplinkQueue` (src/zediot_ha_hub_connector/queue.py): the durable store-and-forward queue.
-- Each method is one function on the state of the database file.
mod Codec
mod Table
mod State
mod Delivery
mod Uplink
pub mod Rows
pub mod Step
pub mod Invariant
pub mod Expiry
pub mod Enqueue
pub mod History
pub mod Cursor
pub mod Remaining
pub mod Accounting
pub mod Replay
unfoldable pub use Codec.*
unfoldable pub use Table.*
unfoldable pub use State.*
unfoldable pub use Delivery.*
unfoldable pub use Uplink.*
