-- ===== src/Payments/Models.antt =====
-- apps/payments/models.py: one payment transaction per order, and the revenue ledger.
use codepop.Base.{ℕ, Option}
use codepop.Base.Int.{ℤ}

pub data Provider : Type 0 where
  mock stripe : Provider

pub data PaymentStatus : Type 0 where
  pending succeeded failed refunded partially_refunded : PaymentStatus

-- Blank text fields are `none`.
pub record PaymentTransaction : Type 0 where
  pub store : ℕ
  pub provider : Provider
  pub status : PaymentStatus
  pub amount_authorized : ℤ
  pub amount_captured : ℤ
  pub amount_refunded : ℤ
  pub stripe_payment_intent_id : Option ℕ
  pub checkout_session_id : Option ℕ
  pub captured_at : Option ℕ
  pub last_webhook_at : Option ℕ

pub data EntryType : Type 0 where
  sale refund adjustment : EntryType

pub record RevenueEntry : Type 0 where
  pub store : ℕ
  pub order : ℕ
  pub entry_type : EntryType
  pub gross_amount : ℤ
  pub net_amount : ℤ
