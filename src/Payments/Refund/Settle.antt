-- ===== src/Payments/Refund/Settle.antt =====
-- The steps of `record_refund` that change tables: stock comes back, and the order is refunded.
use codepop.Base.{
  ==_refl, Bool, Bool-cases, List, Option, [], any, arith, false, if◌then◌else◌, inl, inr, refl,
  some, true, ℕ, ◌∙◌, ◌∷◌, ◌≡◌,
}
use codepop.Base.Exec.{err, ok, pure, ◌>>=◌, ◌>>◌}
use codepop.Base.Int.{int_laws, pos, ℤ, ◌+ℤ◌}
use codepop.Base.Table.{insert, lookup, lookup-insert}
use codepop.Db.{Call, Db, save_payment}
use codepop.Errors.{Error, OrderFault}
use codepop.Inventory.Balance.Bounds.{Quantities-eq}
use codepop.Inventory.Balance.Loops.{in_store}
use codepop.Inventory.Balance.Shelf.{IsSound, Moved, Moved-eq, Moved-zero, shelf}
use codepop.Inventory.Reserve.Needs.{AllKnown, order_needs}
use codepop.Inventory.Reserve.RoundTrip.{reverse_order_gives_back}
use codepop.Maintenance.Repairs.{actor_id}
use codepop.Orders.Models.{Order, OrderStatus}
use codepop.Orders.Services.{transition_order_status}
use codepop.Orders.Services.Effects.{IsSameOrder, IsSameOrder-trans, transition_denied}
use codepop.Orders.Services.Transition.{transition_goes_through}
use codepop.Orders.Status.{
  allowed_order_transitions, get_refund_eligibility, is_allowed, is_order_status,
}
use codepop.Payments.Models.{PaymentTransaction, Provider, RevenueEntry}
use codepop.Payments.Record.{count_sales}
use codepop.Payments.Refund.{
  add_revenue, holds_inventory, refund_amount_of, refund_entry, refunded_payment, restore_inventory,
}
use codepop.Payments.Refund.Amounts.{IsPaidBack, IsRefundAmount, IsRefundEntry}
use codepop.Payments.Refund.Remote.{RemoteRefunds}
use codepop.Sync.Events.{create_audit_log}
use codepop.Sync.Models.{AuditAction}
use codepop.Users.Models.{Requester}

-- What a refund of the order needs: it is eligible, its status leads to REFUND_PENDING, it has a
-- payment, and Stripe refunds the amount.
abbrev pub Refundable :
    (ℕ → ℤ → Bool) → Provider → Order → Option Requester → Option ℤ → Db → Type 0
Refundable remote mode order actor amount db =
    (get_refund_eligibility order.status actor ≡ true)
    × (is_allowed order.status OrderStatus.refund_pending ≡ true)
    × ((payment : PaymentTransaction) × (lookup order.id db.payments ≡ some payment)
        × RemoteRefunds remote mode payment (refund_amount_of amount payment order))

-- The statuses in which the stock of an order is out of its store.
unfoldable pub is_stocked : OrderStatus → Bool
is_stocked s =
    any (is_order_status s) (OrderStatus.queued ∷ OrderStatus.preparing ∷ OrderStatus.ready ∷ [])

is_stocked-holds_inventory : (s : OrderStatus) → is_stocked s ≡ holds_inventory s
unfolding is_stocked
is_stocked-holds_inventory s = ground arith

-- What comes back to the shelves: what the order needs, if it still held it.
abbrev pub stock_returned : Order → Db → ℕ → ℕ → ℤ
stock_returned order db s i =
    if is_stocked order.status
    then in_store order.store.id (order_needs db.items order) s i
    else pos 0

-- The whole effect of a refund from `db` to `db'`.
pub record Refunded (order : Order) (amount : Option ℤ) (db : Db) (o : Order)
    (paid : PaymentTransaction) (db' : Db) : Type 0 where
  pub status : o.status ≡ OrderStatus.refunded
  pub same : IsSameOrder order o
  pub payment :
      (old : PaymentTransaction) × (x : ℤ) × (lookup order.id db.payments ≡ some old)
      × IsRefundAmount amount old order x
      × IsPaidBack old x paid
      × ((e : RevenueEntry) × (entries : List RevenueEntry) × (db'.revenue ≡ e ∷ entries)
          × IsRefundEntry order x e
          × (count_sales order.store.id order.id entries ≡ 1))
  pub stored : lookup order.id db'.payments ≡ some paid
  pub on_hand :
      (s i : ℕ)
      → (shelf db' s i).on_hand_quantity
        ≡ (shelf db s i).on_hand_quantity +ℤ stock_returned order db s i
  pub reserved : (s i : ℕ) → (shelf db' s i).reserved_quantity ≡ (shelf db s i).reserved_quantity
  pub sound : IsSound db'

module _ (remote : ℕ → ℤ → Bool) (mode : Provider) (in_catalog : ℕ → Bool) (now combo : ℕ) where
  pub restore_inventory-Moved :
      (order : Order) (db : Db)
      → IsSound db
      → AllKnown db.items order
      → (db1 : Db) × (restore_inventory remote mode in_catalog now combo order db ≡ (ok tt, db1))
        × Moved (stock_returned order db) db db1
  unfolding restore_inventory
  restore_inventory-Moved order db h known =
      let same = is_stocked-holds_inventory order.status in
      elim (Bool-cases (holds_inventory order.status)) [
        | inr p ↦ (
          db,
          rw (p, if◌then◌else◌),
          Moved-eq (Moved-zero db h) (λ s i. rw (same, p, if◌then◌else◌)),
        )
        | inl p ↦
            let (db1, done, m) = reverse_order_gives_back in_catalog now order db h known in
            (db1, rw (p, if◌then◌else◌) done, Moved-eq m (λ s i. rw (same, p, if◌then◌else◌)))
      ]

  -- From the move to REFUND_PENDING on.
  unfoldable pub settle_refund :
      Order → Option ℕ → PaymentTransaction → ℤ → Call (Order × PaymentTransaction)
  settle_refund order actor_id payment amount = do
    pending ← transition_order_status in_catalog now combo order OrderStatus.refund_pending actor_id
    save_payment order.id (refunded_payment payment amount)
    add_revenue (refund_entry order amount)
    refunded ← transition_order_status in_catalog now combo pending OrderStatus.refunded actor_id
    create_audit_log actor_id AuditAction.payment_refunded order.id
    pure (refunded, refunded_payment payment amount)

  pub settle_refund_lem :
      (order : Order) (actor_id : Option ℕ) (payment : PaymentTransaction) (amount : ℤ) (db : Db)
      → IsSound db
      → is_allowed order.status OrderStatus.refund_pending ≡ true
      → (o : Order) × (db' : Db) × (settle_refund order actor_id payment amount db
          ≡ (ok (o, refunded_payment payment amount), db'))
        × (o.status ≡ OrderStatus.refunded)
        × IsSameOrder order o
        × (lookup order.id db'.payments ≡ some (refunded_payment payment amount))
        × (db'.revenue ≡ refund_entry order amount ∷ db.revenue)
        × ((s i : ℕ) → shelf db' s i ≡ shelf db s i)
        × IsSound db'
  unfolding settle_refund save_payment add_revenue create_audit_log
  settle_refund_lem order actor_id payment amount db h p =
      let (o1, db1, e1, t1) =
        transition_goes_through in_catalog now combo order OrderStatus.refund_pending actor_id db h
          p refl in
      let db2 : Db = record db1 {
        payments = insert order.id (refunded_payment payment amount) db1.payments;
        revenue = refund_entry order amount ∷ db1.revenue;
      } in
      let (o2, db3, e2, t2) =
        transition_goes_through in_catalog now combo o1 OrderStatus.refunded actor_id db2
          (record { shelves = t1.sound.shelves; alerts = t1.sound.alerts })
          (unfold is_allowed allowed_order_transitions in rw t1.status) refl in
      (
        o2,
        record db3 {
          audit =
              (record {
                actor = actor_id;
                action = AuditAction.payment_refunded;
                entity_id = order.id;
              })
              ∷ db3.audit;
        },
        rw (e1, e2),
        t2.status,
        IsSameOrder-trans t1.same t2.same,
        rw (t2.payments, lookup-insert, ==_refl order.id),
        rw (t2.revenue, t1.revenue),
        λ s i.
            Quantities-eq (shelf db3 s i) (shelf db s i)
              (rw (t2.on_hand s i, t1.on_hand s i) (omega int_laws))
              (t2.reserved s i ∙ t1.reserved s i),
        record { shelves = t2.sound.shelves; alerts = t2.sound.alerts },
      )

  pub settle_refund_denied :
      (order : Order) (actor_id : Option ℕ) (payment : PaymentTransaction) (amount : ℤ) (db : Db)
      → is_allowed order.status OrderStatus.refund_pending ≡ false
      → settle_refund order actor_id payment amount db
        ≡ (err (Error.order OrderFault.transition_denied), db)
  unfolding settle_refund
  settle_refund_denied order actor_id payment amount db p =
      rw (transition_denied in_catalog now combo order OrderStatus.refund_pending actor_id db p)
