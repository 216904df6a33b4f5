-- ===== src/Payments.antt =====
-- apps/payments/services.py: payments of orders, refunds and the revenue ledger.
pub mod Models
pub mod Record
pub mod Checkout
pub mod Refund
