-- ===== src/Store/Sql.antt =====
-- The statements of internal/store/queries.go, as functions on the tables.
pub mod Products
pub mod Keyset
pub mod Orders
pub mod Keys
pub mod Outbox
pub mod Rows
pub mod Effects
