-- ===== src/Orders/Services/Transition.antt =====
-- What `transition_order_status` does, whatever it returns.
use codepop.Base.{
  Bool, Bool-cases, Option, ap, false, if◌then◌else◌, inl, inr, true, ℕ, ◌↔◌, ◌≡◌, ◌⊎◌,
}
use codepop.Base.Exec.{Result, err, err-ne-ok, ok}
use codepop.Db.{Db}
use codepop.Errors.{Error, OrderFault}
use codepop.Inventory.Balance.Loops.{Fits}
use codepop.Inventory.Balance.Shelf.{IsSound}
use codepop.Inventory.Reserve.Needs.{AllKnown, order_needs}
use codepop.Inventory.Reserve.Orders.{reserve_order_iff}
use codepop.Orders.Models.{Order, OrderStatus}
use codepop.Orders.Services.{reserve_if_due, takes_stock, transition_order_status}
use codepop.Orders.Services.Effects.{
  Transitioned, reserve_if_due_cases, saved_db, saved_db-Transitioned, saved_order, transition-eq,
  transition_denied, transition_failed,
}
use codepop.Orders.Status.{is_allowed}

module _ (in_catalog : ℕ → Bool) (now combo : ℕ) where
  -- From sound tables a transition either goes through, and then the order is stored with its new
  -- status, one numbered event is added, and stock leaves the order's store only on its first entry
  -- into the queue; or it raises, and then the tables are as they were.
  pub transition_outcome :
      (order : Order) (new_status : OrderStatus) (actor : Option ℕ) (db : Db)
      → IsSound db
      → ((o : Order) × (db' : Db) × (transition_order_status in_catalog now combo order new_status
              actor db
            ≡ (ok o, db'))
          × Transitioned order new_status db o db')
        ⊎ ((e : Error) × (transition_order_status in_catalog now combo order new_status actor db
              ≡ (err e, db)))
  transition_outcome order new_status actor db h =
      elim (Bool-cases (is_allowed order.status new_status)) [
        | inr p ↦ inr (
          Error.order OrderFault.transition_denied,
          transition_denied in_catalog now combo order new_status actor db p,
        )
        | inl p ↦ elim (reserve_if_due_cases in_catalog now combo order new_status db h) [
          | inl (db1, done, m) ↦ inl (
            saved_order now combo order new_status db1,
            saved_db order new_status actor (saved_order now combo order new_status db1) db1,
            transition-eq in_catalog now combo order new_status actor db db1 p done,
            saved_db-Transitioned now combo order new_status actor db db1 m,
          )
          | inr t ↦ inr (
            t.2.0,
            transition_failed in_catalog now combo order new_status actor db db t.2.0 p t.2.1,
          )
        ]
      ]

  due_cases :
      (order : Order) (new_status : OrderStatus) (db db1 : Db)
      → IsSound db
      → reserve_if_due in_catalog now combo order new_status db ≡ (ok tt, db1)
      → (takes_stock order new_status ≡ false)
        ⊎ (AllKnown db.items order × Fits order.store.id (order_needs db.items order) db)
  unfolding reserve_if_due
  due_cases order new_status db db1 h done = elim (Bool-cases (takes_stock order new_status)) [
    | inr p ↦ inl p
    | inl p ↦ inr (
        (reserve_order_iff in_catalog now order db h).0
          (ap (λ (r : Result Error (Unit {0}) × Db). r.0) (rw (p, if◌then◌else◌) at done)))
  ]

  -- From sound tables a transition goes through exactly when the table of transitions lists it and
  -- it either takes no stock or the SKUs of the order are known and its store has the stock.
  pub transition_iff :
      (order : Order) (new_status : OrderStatus) (actor : Option ℕ) (db : Db)
      → IsSound db
      → ((o : Order) × ((transition_order_status in_catalog now combo order new_status actor db).0
            ≡ ok o))
        ↔ ((is_allowed order.status new_status ≡ true)
            × ((takes_stock order new_status ≡ false)
                ⊎ (AllKnown db.items order × Fits order.store.id (order_needs db.items order) db)))
  transition_iff order new_status actor db h =
      elim (Bool-cases (is_allowed order.status new_status)) [
        | inr p ↦ (
          λ (o, e). absurd (
              err-ne-ok (transition_order_status in_catalog now combo order new_status actor db) db
                (transition_denied in_catalog now combo order new_status actor db p) e),
          λ w. let q = w.0 in absurd cc,
        )
        | inl p ↦ elim (reserve_if_due_cases in_catalog now combo order new_status db h) [
          | inl (db1, done, m) ↦ (
            λ _. (p, due_cases order new_status db db1 h done),
            λ _. (
              saved_order now combo order new_status db1,
              ap (λ (r : Result Error Order × Db). r.0)
                  (transition-eq in_catalog now combo order new_status actor db db1 p done),
            ),
          )
          | inr t ↦ (
            λ (o, e). absurd (
                err-ne-ok (transition_order_status in_catalog now combo order new_status actor db)
                  db
                  (transition_failed in_catalog now combo order new_status actor db db t.2.0 p
                    t.2.1)
                  e),
            λ w. elim w.1 [ inl u ↦ let v = t.0 in absurd cc | inr k ↦ absurd (t.1 k) ],
          )
        ]
      ]

  -- A listed transition that takes no stock cannot fail.
  pub transition_goes_through :
      (order : Order) (new_status : OrderStatus) (actor : Option ℕ) (db : Db)
      → IsSound db
      → is_allowed order.status new_status ≡ true
      → takes_stock order new_status ≡ false
      → (o : Order) × (db' : Db) × (transition_order_status in_catalog now combo order new_status
            actor db
          ≡ (ok o, db'))
        × Transitioned order new_status db o db'
  transition_goes_through order new_status actor db h p q =
      elim (transition_outcome order new_status actor db h) [
        | inl t ↦ t
        | inr (e, stop) ↦
            let (o, done) = (transition_iff order new_status actor db h).1 (p, inl q) in
            absurd (
              err-ne-ok (transition_order_status in_catalog now combo order new_status actor db) db
                stop done)
      ]
