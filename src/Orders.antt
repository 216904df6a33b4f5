-- ===== src/Orders.antt =====
-- apps/orders/services.py: pricing, creation, status transitions and refund eligibility.
pub mod Models
pub mod Pricing
pub mod Status
pub mod Services
