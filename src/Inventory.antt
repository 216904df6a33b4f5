-- ===== src/Inventory.antt =====
-- apps/inventory: balances, alerts, packs, the reservations of orders and supplier orders.
pub mod Models
pub mod Bulk
pub mod Balance
pub mod Alerts
pub mod Reserve
pub mod Replenish
