-- ===== src/Users.antt =====
-- apps/users: who the users are and what they may do.
pub mod Models
pub mod Permissions
pub mod Access
