-- ===== src/Maintenance.antt =====
-- apps/maintenance: machines, their repair assignments, and the policies that escalate them.
pub mod Models
pub mod Priority
pub mod Assignments
pub mod Escalation
pub mod Repairs
