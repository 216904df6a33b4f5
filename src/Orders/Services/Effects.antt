-- ===== src/Orders/Services/Effects.antt =====
-- The steps of `transition_order_status`, and its effect on the tables as a record.
use codepop.Base.{
  Bool, Bool-cases, Option, arith, false, if◌then◌else◌, inl, inr, refl, some, true, ℕ, ◌==◌, ◌∷◌,
  ◌≡◌, ◌⊎◌,
}
use codepop.Base.Exec.{err, err-ne-ok, ok, ◌>>=◌}
use codepop.Base.Int.{neg, pos, ℤ, ◌+ℤ◌}
use codepop.Base.Table.{insert, lookup, lookup-insert}
use codepop.Db.{Db, save_order}
use codepop.Errors.{Error, OrderFault}
use codepop.Inventory.Balance.Loops.{Fits, in_store}
use codepop.Inventory.Balance.Shelf.{IsSound, Moved, Moved-eq, Moved-zero, shelf}
use codepop.Inventory.Reserve.{reserve_order_inventory}
use codepop.Inventory.Reserve.Needs.{AllKnown, order_needs}
use codepop.Inventory.Reserve.Orders.{reserve_order_iff, reserve_order_outcome}
use codepop.Orders.Models.{Order, OrderStatus}
use codepop.Orders.Services.{
  assign_pickup_locker, enter_status, reserve_if_due, takes_stock, transition_order_status,
}
use codepop.Orders.Status.{is_allowed}
use codepop.Sync.Events.{create_audit_log, create_outbox_event, new_event, store_scope}
use codepop.Sync.Models.{AggregateType, AuditAction, EventType}

-- What a transition leaves alone in the order itself.
pub record IsSameOrder (a b : Order) : Type 0 where
  pub id : b.id ≡ a.id
  pub public_order_code : b.public_order_code ≡ a.public_order_code
  pub store : b.store ≡ a.store
  pub customer : b.customer ≡ a.customer
  pub items : b.items ≡ a.items
  pub total_amount : b.total_amount ≡ a.total_amount

pub IsSameOrder-trans : {a b c : Order} → IsSameOrder a b → IsSameOrder b c → IsSameOrder a c
IsSameOrder-trans p q = ground arith

-- The stock that leaves the store of the order.
abbrev pub stock_taken : Order → OrderStatus → Db → ℕ → ℕ → ℤ
stock_taken order new_status db s i =
    if takes_stock order new_status
    then in_store order.store.id (λ j. neg (order_needs db.items order j)) s i
    else pos 0

-- The tables once an order object has been saved, and the event and the log written.
abbrev pub saved_db : Order → OrderStatus → Option ℕ → Order → Db → Db
saved_db order new_status actor saved db = record db {
  orders = insert saved.id saved db.orders;
  outbox =
      new_event (EventType.order_entered new_status) AggregateType.order order.id
        (store_scope order.store) db.outbox
      ∷ db.outbox;
  audit =
      (record {
        actor = actor;
        action = AuditAction.order_transition new_status;
        entity_id = order.id;
      })
      ∷ db.audit;
}

pub saved_order : ℕ → ℕ → Order → OrderStatus → Db → Order
saved_order now combo order new_status db =
    record (enter_status now combo new_status db.orders order) { status = new_status }

saved_order-IsSameOrder :
    (now combo : ℕ) (order : Order) (new_status : OrderStatus) (db : Db)
    → IsSameOrder order (saved_order now combo order new_status db)
unfolding saved_order enter_status assign_pickup_locker
saved_order-IsSameOrder now combo order OrderStatus.paid db = ground arith
saved_order-IsSameOrder now combo order _ db = ground arith

module _ (in_catalog : ℕ → Bool) (now combo : ℕ) where
  -- A transition that the table does not list is refused, with nothing written.
  pub transition_denied :
      (order : Order) (new_status : OrderStatus) (actor : Option ℕ) (db : Db)
      → is_allowed order.status new_status ≡ false
      → transition_order_status in_catalog now combo order new_status actor db
        ≡ (err (Error.order OrderFault.transition_denied), db)
  unfolding transition_order_status
  transition_denied order new_status actor db h = rw (h, ◌>>=◌)

  -- What follows the reservation.
  pub transition-eq :
      (order : Order) (new_status : OrderStatus) (actor : Option ℕ) (db db1 : Db)
      → is_allowed order.status new_status ≡ true
      → reserve_if_due in_catalog now combo order new_status db ≡ (ok tt, db1)
      → transition_order_status in_catalog now combo order new_status actor db ≡ (
        ok (saved_order now combo order new_status db1),
        saved_db order new_status actor (saved_order now combo order new_status db1) db1,
      )
  unfolding transition_order_status saved_order save_order create_outbox_event create_audit_log
  transition-eq order new_status actor db db1 h e = ground (arith, e)

  pub transition_failed :
      (order : Order) (new_status : OrderStatus) (actor : Option ℕ) (db db1 : Db) (er : Error)
      → is_allowed order.status new_status ≡ true
      → reserve_if_due in_catalog now combo order new_status db ≡ (err er, db1)
      → transition_order_status in_catalog now combo order new_status actor db ≡ (err er, db)
  unfolding transition_order_status
  transition_failed order new_status actor db db1 er h e = ground (arith, e)

  -- The reservation that is due, if one is, as a movement of stock.
  pub reserve_if_due_cases :
      (order : Order) (new_status : OrderStatus) (db : Db)
      → IsSound db
      → ((db1 : Db) × (reserve_if_due in_catalog now combo order new_status db ≡ (ok tt, db1))
          × Moved (stock_taken order new_status db) db db1)
        ⊎ ((takes_stock order new_status ≡ true)
            × (¬ (AllKnown db.items order × Fits order.store.id (order_needs db.items order) db))
            × ((e : Error) × (reserve_if_due in_catalog now combo order new_status db
                  ≡ (err e, db))))
  unfolding reserve_if_due
  reserve_if_due_cases order new_status db h = elim (Bool-cases (takes_stock order new_status)) [
    | inr p ↦
        inl (db, rw (p, if◌then◌else◌), Moved-eq (Moved-zero db h) (λ s i. rw (p, if◌then◌else◌)))
    | inl p ↦ elim (reserve_order_outcome in_catalog now order db h) [
      | inl (db1, done, m) ↦
          inl (db1, rw (p, if◌then◌else◌) done, Moved-eq m (λ s i. rw (p, if◌then◌else◌)))
      | inr (e, stop) ↦ inr (
        p,
        λ w.
            err-ne-ok {e = e} (reserve_order_inventory in_catalog now order db) db stop
              ((reserve_order_iff in_catalog now order db h).1 w),
        (e, rw (p, if◌then◌else◌) stop),
      )
    ]
  ]

-- The whole effect of a transition from `db` to `db'` that returned the order `o`.
pub record Transitioned (order : Order) (new_status : OrderStatus) (db : Db) (o : Order) (db' : Db)
    : Type 0 where
  pub status : o.status ≡ new_status
  pub same : IsSameOrder order o
  pub stored :
      (j : ℕ) → lookup j db'.orders ≡ (if order.id == j then some o else lookup j db.orders)
  pub event :
      db'.outbox
      ≡ new_event
          (EventType.order_entered new_status)
          AggregateType.order
          order.id
          (store_scope order.store)
          db.outbox
        ∷ db.outbox
  pub on_hand :
      (s i : ℕ)
      → (shelf db' s i).on_hand_quantity
        ≡ (shelf db s i).on_hand_quantity +ℤ stock_taken order new_status db s i
  pub reserved : (s i : ℕ) → (shelf db' s i).reserved_quantity ≡ (shelf db s i).reserved_quantity
  pub items : db'.items ≡ db.items
  pub payments : db'.payments ≡ db.payments
  pub revenue : db'.revenue ≡ db.revenue
  pub transfers : db'.transfers ≡ db.transfers
  pub hub_balances : db'.hub_balances ≡ db.hub_balances
  pub sound : IsSound db'

pub saved_db-Transitioned :
    (now combo : ℕ) (order : Order) (new_status : OrderStatus) (actor : Option ℕ) (db db1 : Db)
    → Moved (stock_taken order new_status db) db db1
    → let o = saved_order now combo order new_status db1 in
      Transitioned order new_status db o (saved_db order new_status actor o db1)
saved_db-Transitioned now combo order new_status actor db db1 m =
    let o = saved_order now combo order new_status db1 in
    let same = saved_order-IsSameOrder now combo order new_status db1 in
    record {
      status = unfold saved_order in refl;
      same = same;
      stored = λ j. rw (lookup-insert, same.id, m.frame.orders);
      event = rw m.frame.outbox;
      on_hand = m.on_hand;
      reserved = m.reserved;
      items = m.frame.items;
      payments = m.frame.payments;
      revenue = m.frame.revenue;
      transfers = m.frame.transfers;
      hub_balances = m.frame.hub_balances;
      sound = record { shelves = m.sound.shelves; alerts = m.sound.alerts };
    }
