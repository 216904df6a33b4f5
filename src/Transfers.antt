-- ===== src/Transfers.antt =====
-- Supply transfers of apps/inventory/services.py over the tables of apps/supply_hubs/models.py.
pub mod Models
pub mod Source
pub mod Request
pub mod Lifecycle
