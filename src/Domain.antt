-- ===== src/Domain.antt =====
-- internal/domain: money, products, orders, pages and cursors. A UUID is its 128-bit value, which is
-- also its order in Postgres.
pub mod Money
pub mod Products
pub mod Orders
pub mod Pages
pub mod Laws
