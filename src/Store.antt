-- ===== src/Store.antt =====
-- internal/store and the tables that it keeps.
pub mod Schema
pub mod Sql
pub mod Tx
pub mod Products
pub mod Orders
pub mod Purchases
pub mod Claims
pub mod Replays
pub mod Retries
pub mod Writes
pub mod Committed
pub mod Sound
pub mod Stock
pub mod Paging
pub mod Outbox
pub mod Privacy
pub mod Ownership
pub mod Refusals
