-- ===== src/Inventory/Reserve/Orders.antt =====
-- What `reserve_order_inventory` does to the shelves as a whole.
use codepop.Base.{
  ==_refl, All, Bool, List, ap, if◌then◌else◌, inl, inr, refl, subst, sym, ℕ, ◌↔◌, ◌∙◌, ◌≡◌, ◌⊎◌,
}
use codepop.Base.Exec.{Result, err, err-ne-ok, for_each, ok, rollback}
use codepop.Base.Int.{int_laws, neg, ℤ, ◌+ℤ◌, ◌≤ℤ◌}
use codepop.Db.{Call, Db}
use codepop.Errors.{Error}
use codepop.Inventory.Balance.Bounds.{IsValid}
use codepop.Inventory.Balance.Loops.{Fits, Takes, for_each-Takes, in_store}
use codepop.Inventory.Balance.Shelf.{IsSound, Moved, shelf}
use codepop.Inventory.Models.{InventoryItem, Quantities}
use codepop.Inventory.Reserve.{reserve_item, reserve_order_inventory, reserve_requirement}
use codepop.Inventory.Reserve.Needs.{
  AllKnown, IsKnown, item_needs, item_needs_nonneg, order_needs, requirement_of,
  requirement_of_nonneg,
}
use codepop.Inventory.Reserve.Shelf.{reserve_requirement-Takes}
use codepop.Orders.Models.{Order, OrderItem}
use codepop.Stores.{Store}

module _ (in_catalog : ℕ → Bool) (now : ℕ) where
  reserve_item-Takes :
      (store : Store) (items : List (ℕ × InventoryItem)) (x : OrderItem) (db : Db)
      → IsSound db
      → db.items ≡ items
      → Takes store.id
          (All (IsKnown items x.quantity) x.requirements)
          (item_needs items x)
          (reserve_item in_catalog now store x)
          db
  unfolding reserve_item item_needs
  reserve_item-Takes store items x =
      for_each-Takes (λ r i. requirement_of items x.quantity i r)
        (λ r i. requirement_of_nonneg items x.quantity i r) store.id items
        (IsKnown items x.quantity) (reserve_requirement in_catalog now store x.quantity)
        (reserve_requirement-Takes in_catalog now store x.quantity items) x.requirements

  -- The loop of `reserve_order_inventory`.
  abbrev pub reserve_loop : Order → Call (Unit {0})
  reserve_loop order = for_each (reserve_item in_catalog now order.store) order.items

  reserve_loop-Takes :
      (order : Order) (db : Db)
      → IsSound db
      → Takes order.store.id
          (AllKnown db.items order)
          (order_needs db.items order)
          (reserve_loop order)
          db
  unfolding order_needs
  reserve_loop-Takes order db h =
      for_each-Takes (item_needs db.items) (item_needs_nonneg db.items) order.store.id db.items
        (λ (x : OrderItem). All (IsKnown db.items x.quantity) x.requirements)
        (reserve_item in_catalog now order.store) (reserve_item-Takes order.store db.items)
        order.items db h refl

  -- From sound tables the reservation of an order either succeeds, and the order's store loses
  -- exactly what the order needs of each item while no other shelf, no reserved quantity and no
  -- table but balances and alerts changes; or it raises and leaves the tables as they were.
  pub reserve_order_outcome :
      (order : Order) (db : Db)
      → IsSound db
      → ((db' : Db) × (reserve_order_inventory in_catalog now order db ≡ (ok tt, db'))
          × Moved (in_store order.store.id (λ i. neg (order_needs db.items order i))) db db')
        ⊎ ((e : Error) × (reserve_order_inventory in_catalog now order db ≡ (err e, db)))
  unfolding reserve_order_inventory
  reserve_order_outcome order db h = elim (reserve_loop-Takes order db h) [
    | inl t ↦ let (k, u) = t in let (db', done, m) = u in inl (db', rw (done, rollback), m)
    | inr t ↦ let (short, u) = t in let (e, db', stop) = u in inr (e, rw (stop, rollback))
  ]

  fits_of_parts :
      (q q' : Quantities) (x : ℤ)
      → q'.on_hand_quantity ≡ q.on_hand_quantity +ℤ neg x
      → q'.reserved_quantity ≡ q.reserved_quantity
      → IsValid q'
      → q.reserved_quantity +ℤ x ≤ℤ q.on_hand_quantity
  fits_of_parts q q' x e f v =
      let w : q.reserved_quantity ≤ℤ q.on_hand_quantity +ℤ neg x =
        rw (← f, ← e) v.reserved_within in
      omega int_laws

  Fits-of_Moved :
      (store : ℕ) (need : ℕ → ℤ) (db db' : Db)
      → Moved (in_store store (λ i. neg (need i))) db db'
      → Fits store need db
  Fits-of_Moved store need db db' m i =
      let on : (shelf db' store i).on_hand_quantity
          ≡ (shelf db store i).on_hand_quantity +ℤ neg (need i) =
        rw (==_refl store, if◌then◌else◌) at (m.on_hand store i) in
      let res : (shelf db' store i).reserved_quantity ≡ (shelf db store i).reserved_quantity =
        m.reserved store i in
      let v : IsValid (shelf db' store i) = m.sound.shelves store i in
      fits_of_parts (shelf db store i) (shelf db' store i) (need i) on res v

  -- From sound tables an order is reserved exactly when each SKU that it needs is an inventory item
  -- and its store has, on hand and not reserved, what the order needs of each item in total.
  pub reserve_order_iff :
      (order : Order) (db : Db)
      → IsSound db
      → ((reserve_order_inventory in_catalog now order db).0 ≡ ok tt)
        ↔ (AllKnown db.items order × Fits order.store.id (order_needs db.items order) db)
  unfolding reserve_order_inventory
  reserve_order_iff order db h = elim (reserve_loop-Takes order db h) [
    | inl t ↦
        let (k, u) = t in
        let (db', done, m) = u in
        (
          λ _. (k, Fits-of_Moved order.store.id (order_needs db.items order) db db' m),
          λ _. rw (done, rollback),
        )
    | inr t ↦
        let (short, u) = t in
        let (e, db', stop) = u in
        (
          λ z. absurd (
              err-ne-ok {e = e} (reserve_order_inventory in_catalog now order db) db
                (rw (stop, rollback)) z),
          λ w. absurd (short w),
        )
  ]

  -- What a reservation that went through has done.
  pub reserve_order_ok :
      (order : Order) (db db1 : Db)
      → IsSound db
      → reserve_order_inventory in_catalog now order db ≡ (ok tt, db1)
      → AllKnown db.items order
        × Moved (in_store order.store.id (λ i. neg (order_needs db.items order i))) db db1
  reserve_order_ok order db db1 h done = (
    ((reserve_order_iff order db h).0 (ap (λ (p : Result Error (Unit {0}) × Db). p.0) done)).0,
    elim (reserve_order_outcome order db h) [
      | inl (db', done', m) ↦
          subst
            (λ x. Moved (in_store order.store.id (λ i. neg (order_needs db.items order i))) db x)
            (ap (λ (p : Result Error (Unit {0}) × Db). p.1) (sym done' ∙ done)) m
      | inr (e, stop) ↦ absurd (
          err-ne-ok {e = e} (reserve_order_inventory in_catalog now order db) db stop
            (ap (λ (p : Result Error (Unit {0}) × Db). p.0) done))
    ],
  )
