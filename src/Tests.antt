-- ===== src/Tests.antt =====
-- Runs of the services on sample tables, and the theorems at concrete inputs.
mod Data
mod Access
mod Inventory
mod Maintenance
mod Orders
mod Payments
mod Sync
mod Transfers
