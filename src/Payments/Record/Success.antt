-- ===== src/Payments/Record/Success.antt =====
-- What `record_payment_success` does.
use codepop.Base.{
  ==_refl, Bool, Bool-cases, List, Option, arith, if◌then◌else◌, inl, inr, refl, some, true, ℕ,
  ℕ_discrete, ◌∙◌, ◌∷◌, ◌≡◌, ◌≤◌,
}
use codepop.Base.Exec.{ok, pure}
use codepop.Base.Int.{int_laws, ℤ}
use codepop.Base.Table.{insert, lookup, lookup-insert}
use codepop.Db.{Call, Db, save_payment}
use codepop.Inventory.Balance.Bounds.{Quantities-eq}
use codepop.Inventory.Balance.Shelf.{IsSound, shelf}
use codepop.Orders.Models.{Order, OrderStatus}
use codepop.Orders.Services.{transition_order_status}
use codepop.Orders.Services.Transition.{transition_goes_through}
use codepop.Orders.Status.{allowed_order_transitions, is_allowed}
use codepop.Payments.Models.{PaymentStatus, PaymentTransaction, Provider, RevenueEntry}
use codepop.Payments.Record.{
  amount_or, count_sales, ensure_sale_entry, is_payment_pending, payment_of, record_payment_success,
  sale_entry, with_sale,
}
use codepop.Sync.Events.{create_audit_log}
use codepop.Sync.Models.{AuditAction}

-- With at most one sale entry of the order in the ledger, there is one afterwards.
pub ensure_sale_entry_lem :
    (order : Order) (amount : ℤ) (db : Db)
    → count_sales order.store.id order.id db.revenue ≤ 1
    → (entries : List RevenueEntry) × (ensure_sale_entry order amount db
        ≡ (ok tt, record db { revenue = entries }))
      × (count_sales order.store.id order.id entries ≡ 1)
unfolding ensure_sale_entry with_sale count_sales
ensure_sale_entry_lem order amount db h =
    elim (ℕ_discrete (count_sales order.store.id order.id db.revenue) 0) [
      | yes e ↦ (
        sale_entry order amount ∷ db.revenue,
        rw (e, ensure_sale_entry),
        rw (==_refl order.store.id, ==_refl order.id, e),
      )
      | no ne ↦
          let e : count_sales order.store.id order.id db.revenue ≡ 1 = omega arith in
          (db.revenue, rw (e, ensure_sale_entry), e)
    ]

-- The status of an order after its payment has come in.
abbrev pub after_payment : OrderStatus → OrderStatus
after_payment status = if is_payment_pending status then OrderStatus.paid else status

-- The whole effect of a payment of `amount` for the order, from `db` to `db'`.
pub record Captured (now : ℕ) (order : Order) (amount : ℤ) (db : Db) (o : Order)
    (payment : PaymentTransaction) (db' : Db) : Type 0 where
  pub status : o.status ≡ after_payment order.status
  pub succeeded : payment.status ≡ PaymentStatus.succeeded
  pub captured : payment.amount_captured ≡ amount
  pub stored : lookup order.id db'.payments ≡ some payment
  pub sold_once : count_sales order.store.id order.id db'.revenue ≡ 1
  pub on_hand : (s i : ℕ) → shelf db' s i ≡ shelf db s i
  pub sound : IsSound db'

payment_pending_of :
    (status : OrderStatus) → is_payment_pending status ≡ true → status ≡ OrderStatus.payment_pending
payment_pending_of OrderStatus.payment_pending h = refl
payment_pending_of _ h = ground arith

module _ (in_catalog : ℕ → Bool) (now combo : ℕ) where
  -- The move to PAID, if it is due.
  pay_if_pending : Order → Option ℕ → Call Order
  pay_if_pending order actor =
      if is_payment_pending order.status
      then transition_order_status in_catalog now combo order OrderStatus.paid actor
      else pure order

  pay_if_pending_lem :
      (order : Order) (actor : Option ℕ) (db : Db)
      → IsSound db
      → (o : Order) × (db' : Db) × (pay_if_pending order actor db ≡ (ok o, db'))
        × (o.status ≡ after_payment order.status)
        × (db'.payments ≡ db.payments)
        × (db'.revenue ≡ db.revenue)
        × ((s i : ℕ) → shelf db' s i ≡ shelf db s i)
        × IsSound db'
  unfolding pay_if_pending
  pay_if_pending_lem order actor db h = elim (Bool-cases (is_payment_pending order.status)) [
    | inl p ↦
        let e = payment_pending_of order.status p in
        let (o, db', done, t) =
          transition_goes_through in_catalog now combo order OrderStatus.paid actor db h
            (unfold is_allowed allowed_order_transitions in rw e) refl in
        (
          o,
          db',
          rw (p, if◌then◌else◌) done,
          rw (p, if◌then◌else◌) t.status,
          t.payments,
          t.revenue,
          λ s i.
              Quantities-eq (shelf db' s i) (shelf db s i) (t.on_hand s i ∙ omega int_laws)
                (t.reserved s i),
          t.sound,
        )
    | inr p ↦ (order, db, rw (p, if◌then◌else◌), rw (p, if◌then◌else◌), refl, refl, λ s i. refl, h)
  ]

  -- From sound tables with at most one sale entry of the order, recording a successful payment cannot
  -- fail: the payment is stored as succeeded with the amount, an order that waited for it is paid and
  -- any other keeps its status, the ledger has exactly one sale entry of the order however often this
  -- is repeated, and no shelf changes.
  pub record_payment_success_lem :
      (order : Order) (intent : Option ℕ) (captured : Option ℤ) (actor : Option ℕ)
      (provider : Provider) (session : Option ℕ) (db : Db)
      → IsSound db
      → count_sales order.store.id order.id db.revenue ≤ 1
      → (o : Order) × (payment : PaymentTransaction) × (db' : Db) × (record_payment_success
            in_catalog now combo order intent captured actor provider session db
          ≡ (ok (o, payment), db'))
        × Captured now order (amount_or captured order.total_amount) db o payment db'
  unfolding record_payment_success save_payment create_audit_log pay_if_pending
  record_payment_success_lem order intent captured actor provider session db h one =
      let payment : PaymentTransaction = record (payment_of order db) {
        store = order.store.id;
        provider = provider;
        status = PaymentStatus.succeeded;
        amount_authorized = amount_or captured order.total_amount;
        amount_captured = amount_or captured order.total_amount;
        stripe_payment_intent_id = intent;
        checkout_session_id = session;
        captured_at = some now;
      } in
      let (o, db1, paid, status, pays, revenue, shelves, sound) =
        pay_if_pending_lem order actor
          (record db { payments = insert order.id payment db.payments })
          (record { shelves = h.shelves; alerts = h.alerts }) in
      let (entries, sale, once) =
        ensure_sale_entry_lem order (amount_or captured order.total_amount) db1 (rw revenue one) in
      (
        o,
        payment,
        record db1 {
          revenue = entries;
          audit =
              (record {
                actor = actor;
                action = AuditAction.payment_succeeded;
                entity_id = order.id;
              })
              ∷ db1.audit;
        },
        rw (paid, sale),
        record {
          status = status;
          succeeded = refl;
          captured = refl;
          stored = rw (pays, lookup-insert, ==_refl order.id);
          sold_once = once;
          on_hand = shelves;
          sound = record { shelves = sound.shelves; alerts = sound.alerts };
        },
      )
