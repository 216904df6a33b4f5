-- ===== src/Payments/Refund.antt =====
-- apps/payments/services.py, `record_refund`. What Stripe does with a refund is the argument
-- `remote`: whether the refund of an amount on a payment intent comes back as succeeded.
pub mod Remote
pub mod Amounts
pub mod Settle
pub mod Outcome
use codepop.Base.{Bool, Option, false, if◌then◌else◌, none, not, some, true, ℕ, ◌||◌, ◌∷◌}
use codepop.Base.Exec.{atomic, err, ok, pure, raise, raise_if, ◌>>=◌, ◌>>◌}
use codepop.Base.Int.{leb_ℤ, neg, ℤ, ◌+ℤ◌}
use codepop.Base.Table.{lookup}
use codepop.Db.{Call, save_payment}
use codepop.Errors.{Error, PaymentFault}
use codepop.Inventory.Reserve.{reverse_order_inventory}
use codepop.Orders.Models.{Order, OrderStatus}
use codepop.Orders.Services.{ensure_refund_allowed, transition_order_status}
use codepop.Payments.Models.{EntryType, PaymentStatus, PaymentTransaction, Provider, RevenueEntry}
use codepop.Payments.Record.{amount_or, ensure_sale_entry}
use codepop.Sync.Events.{create_audit_log}
use codepop.Sync.Models.{AuditAction}
use codepop.Users.Models.{Requester}

abbrev pub is_stripe : Provider → Bool
is_stripe Provider.stripe = true
is_stripe Provider.mock = false

-- `status in {QUEUED, PREPARING, READY}`
abbrev pub holds_inventory : OrderStatus → Bool
holds_inventory OrderStatus.queued = true
holds_inventory OrderStatus.preparing = true
holds_inventory OrderStatus.ready = true
holds_inventory _ = false

-- `amount or payment.amount_captured or order.total_amount`
unfoldable pub refund_amount_of : Option ℤ → PaymentTransaction → Order → ℤ
refund_amount_of amount payment order =
    amount_or amount (amount_or (some payment.amount_captured) order.total_amount)

abbrev pub refund_entry : Order → ℤ → RevenueEntry
refund_entry order amount = record {
  store = order.store.id;
  order = order.id;
  entry_type = EntryType.refund;
  gross_amount = amount;
  net_amount = neg amount;
}

unfoldable pub add_revenue : RevenueEntry → Call (Unit {0})
add_revenue e db = (ok tt, record db { revenue = e ∷ db.revenue })

-- `getattr(order, "payment_transaction", None)`
unfoldable pub require_payment : Order → Call PaymentTransaction
require_payment order db = elim (lookup order.id db.payments) [
  | some payment ↦ (ok payment, db)
  | none ↦ (err (Error.payment PaymentFault.transaction_missing), db)
]

abbrev pub refunded_payment : PaymentTransaction → ℤ → PaymentTransaction
refunded_payment payment amount =
    let refunded = payment.amount_refunded +ℤ amount in
    record payment {
      amount_refunded = refunded;
      status =
          if leb_ℤ payment.amount_captured refunded
          then PaymentStatus.refunded
          else PaymentStatus.partially_refunded;
    }

module _ (remote : ℕ → ℤ → Bool) (mode : Provider) where
  -- `_ensure_remote_refund_succeeded`
  unfoldable pub ensure_remote_refund_succeeded : PaymentTransaction → ℤ → Call (Unit {0})
  ensure_remote_refund_succeeded payment amount =
      if not (is_stripe mode) || not (is_stripe payment.provider)
      then pure tt
      else elim payment.stripe_payment_intent_id [
        | none ↦ raise (Error.payment PaymentFault.intent_missing)
        | some intent ↦
            raise_if (not (remote intent amount)) (Error.payment PaymentFault.refund_failed)
      ]

  module _ (in_catalog : ℕ → Bool) (now combo : ℕ) where
    unfoldable pub restore_inventory : Order → Call (Unit {0})
    restore_inventory order =
        if holds_inventory order.status
        then reverse_order_inventory in_catalog now order
        else pure tt

    -- `actor` is the requester, whose key goes into the logs.
    unfoldable pub record_refund :
        Order → Option Requester → Option ℕ → Option ℤ → Call (Order × PaymentTransaction)
    record_refund order actor actor_id amount = atomic (do
      ensure_refund_allowed order actor
      payment ← require_payment order
      restore_inventory order
      let refund_amount = refund_amount_of amount payment order
      ensure_sale_entry order (amount_or (some payment.amount_captured) order.total_amount)
      ensure_remote_refund_succeeded payment refund_amount
      pending ←
          transition_order_status in_catalog now combo order OrderStatus.refund_pending actor_id
      save_payment order.id (refunded_payment payment refund_amount)
      add_revenue (refund_entry order refund_amount)
      refunded ← transition_order_status in_catalog now combo pending OrderStatus.refunded actor_id
      create_audit_log actor_id AuditAction.payment_refunded order.id
      pure (refunded, refunded_payment payment refund_amount))
