-- ===== src/Sync.antt =====
-- apps/sync: outbox events and audit logs, the projections of the receivers, and the pushes to peers.
pub mod Models
pub mod Events
pub mod Stages
pub mod Projections
pub mod Peers
pub mod Dispatch
pub mod Processing
pub mod Resolution
