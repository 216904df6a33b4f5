-- ===== src/Payments/Record.antt =====
-- apps/payments/services.py: recording that a payment is pending, has succeeded or has failed. An
-- amount of zero, like `None`, stands for the order's total.
pub mod Success
use codepop.Base.{
  Bool, List, Option, [], false, if◌then◌else◌, none, or_else, some, suc, true, zero, ℕ, ◌&&◌, ◌==◌,
  ◌∷◌,
}
use codepop.Base.Exec.{atomic, err, gets, ok, pure, ◌>>=◌, ◌>>◌}
use codepop.Base.Int.{eqb_ℤ, pos, ℤ}
use codepop.Base.Table.{lookup}
use codepop.Db.{Call, Db, save_payment}
use codepop.Errors.{Error}
use codepop.Inventory.Balance.Loops.{total}
use codepop.Orders.Models.{Order, OrderStatus}
use codepop.Orders.Services.{transition_order_status}
use codepop.Payments.Models.{EntryType, PaymentStatus, PaymentTransaction, Provider, RevenueEntry}
use codepop.Sync.Events.{create_audit_log, create_outbox_event, store_scope}
use codepop.Sync.Models.{AggregateType, AuditAction, EventType}

-- `amount or order.total_amount`
abbrev pub amount_or : Option ℤ → ℤ → ℤ
amount_or none total = total
amount_or (some a) total = if eqb_ℤ a (pos 0) then total else a

abbrev pub is_sale_of : ℕ → ℕ → RevenueEntry → Bool
is_sale_of store order e = elim e.entry_type [
  | EntryType.sale ↦ (e.store == store) && (e.order == order)
  | _ ↦ false
]

unfoldable pub count_sales : ℕ → ℕ → List RevenueEntry → ℕ
count_sales store order [] = 0
count_sales store order (e ∷ entries) =
    let rest = count_sales store order entries in
    if is_sale_of store order e then suc rest else rest

abbrev pub sale_entry : Order → ℤ → RevenueEntry
sale_entry order amount = record {
  store = order.store.id;
  order = order.id;
  entry_type = EntryType.sale;
  gross_amount = amount;
  net_amount = amount;
}

-- `RevenueLedgerEntry.objects.get_or_create(store, order, SALE)`, by the number that is there; it
-- raises where there are several.
unfoldable pub with_sale : ℕ → Order → ℤ → List RevenueEntry → Option (List RevenueEntry)
with_sale zero order amount entries = some (sale_entry order amount ∷ entries)
with_sale (suc zero) order amount entries = some entries
with_sale (suc (suc n)) order amount entries = none

unfoldable pub ensure_sale_entry : Order → ℤ → Call (Unit {0})
ensure_sale_entry order amount db =
    elim (with_sale (count_sales order.store.id order.id db.revenue) order amount db.revenue) [
      | some entries ↦ (ok tt, record db { revenue = entries })
      | none ↦ (err Error.multiple_objects, db)
    ]

-- What `update_or_create` starts from: the payment of the order, or the defaults of the table.
abbrev pub blank_payment : Order → PaymentTransaction
blank_payment order = record {
  store = order.store.id;
  provider = Provider.stripe;
  status = PaymentStatus.pending;
  amount_authorized = pos 0;
  amount_captured = pos 0;
  amount_refunded = pos 0;
  stripe_payment_intent_id = none;
  checkout_session_id = none;
  captured_at = none;
  last_webhook_at = none;
}

unfoldable pub payment_of : Order → Db → PaymentTransaction
payment_of order db = or_else (lookup order.id db.payments) (blank_payment order)

abbrev pub is_pricing_validated : OrderStatus → Bool
is_pricing_validated OrderStatus.pricing_validated = true
is_pricing_validated _ = false

abbrev pub is_payment_pending : OrderStatus → Bool
is_payment_pending OrderStatus.payment_pending = true
is_payment_pending _ = false

abbrev pub is_paid : OrderStatus → Bool
is_paid OrderStatus.paid = true
is_paid _ = false

module _ (in_catalog : ℕ → Bool) (now combo : ℕ) where
  -- The services return the payment; the order object that they change is returned beside it.
  unfoldable pub record_payment_pending :
      Order → Option ℕ → Option ℤ → Provider → Option ℕ → Call (Order × PaymentTransaction)
  record_payment_pending order intent amount provider session = atomic (do
    old ← gets (payment_of order)
    let payment : PaymentTransaction = record old {
      store = order.store.id;
      provider = provider;
      status = PaymentStatus.pending;
      amount_authorized = amount_or amount order.total_amount;
      stripe_payment_intent_id = intent;
      checkout_session_id = session;
    }
    save_payment order.id payment
    order' ←
        (if is_pricing_validated order.status
          then transition_order_status in_catalog now combo order OrderStatus.payment_pending none
          else pure order)
    pure (order', payment))

  unfoldable pub record_payment_success :
      Order
      → Option ℕ
      → Option ℤ
      → Option ℕ
      → Provider
      → Option ℕ
      → Call (Order × PaymentTransaction)
  record_payment_success order intent captured actor provider session = atomic (do
    old ← gets (payment_of order)
    let payment : PaymentTransaction = record old {
      store = order.store.id;
      provider = provider;
      status = PaymentStatus.succeeded;
      amount_authorized = amount_or captured order.total_amount;
      amount_captured = amount_or captured order.total_amount;
      stripe_payment_intent_id = intent;
      checkout_session_id = session;
      captured_at = some now;
    }
    save_payment order.id payment
    order' ←
        (if is_payment_pending order.status
          then transition_order_status in_catalog now combo order OrderStatus.paid actor
          else pure order)
    ensure_sale_entry order (amount_or captured order.total_amount)
    create_audit_log actor AuditAction.payment_succeeded order.id
    pure (order', payment))

  -- `mode` is what `get_payment_mode()` returns.
  unfoldable pub record_payment_failure :
      Provider → Order → Option ℕ → Option ℕ → Option ℕ → Call (Order × PaymentTransaction)
  record_payment_failure mode order actor intent session = atomic (do
    old ← gets (payment_of order)
    let payment : PaymentTransaction = record old {
      store = order.store.id;
      provider = mode;
      status = PaymentStatus.failed;
      amount_authorized = order.total_amount;
      stripe_payment_intent_id = intent;
      checkout_session_id = session;
    }
    save_payment order.id payment
    order' ←
        (if is_payment_pending order.status
          then transition_order_status in_catalog now combo order OrderStatus.canceled actor
          else pure order)
    create_outbox_event EventType.order_failed AggregateType.order order.id
        (store_scope order.store)
    create_audit_log actor AuditAction.payment_failed order.id
    pure (order', payment))

  -- `order.refresh_from_db()`
  unfoldable pub refresh_order : Order → Call Order
  refresh_order order db = elim (lookup order.id db.orders) [
    | some o ↦ (ok o, db)
    | none ↦ (err Error.does_not_exist, db)
  ]

  unfoldable pub complete_checkout_payment :
      Order → Option ℕ → Option ℕ → Provider → Option ℕ → Call (Order × PaymentTransaction)
  complete_checkout_payment order actor intent provider session = atomic (do
    success ← record_payment_success order intent none actor provider session
    fresh ← refresh_order order
    order' ←
        (if is_paid fresh.status
          then transition_order_status in_catalog now combo fresh OrderStatus.queued actor
          else pure fresh)
    pure (order', success.1))
