-- ===== src/Inventory/Reserve/RoundTrip.antt =====
-- `reverse_order_inventory` gives back what `reserve_order_inventory` took.
use codepop.Base.{
  All, Bool, Bool-cases, List, Option-cases, arith, if◌then◌else◌, inl, inr, refl, some, sym, ℕ,
  ◌==◌, ◌∙◌, ◌≡◌,
}
use codepop.Base.Exec.{ok, rollback}
use codepop.Base.Int.{int_laws, leb_ℤ, neg, pos, ℤ, ◌+ℤ◌, ◌·ℤ◌, ◌≤ℤ◌}
use codepop.Base.Table.{lookup}
use codepop.Db.{Db}
use codepop.Inventory.Balance.{get_store_balance}
use codepop.Inventory.Balance.Bounds.{IsValid, Quantities-eq}
use codepop.Inventory.Balance.Loops.{Returns, for_each-Returns, in_store}
use codepop.Inventory.Balance.Settle.{settle, settle-Moved}
use codepop.Inventory.Balance.Shelf.{
  IsSound, Moved, Moved-eq, Moved-of_IsSame, Moved-zero, at, get_store_balance-IsSame, shelf,
}
use codepop.Inventory.Models.{InventoryItem, StoreBalance}
use codepop.Inventory.Reserve.{
  inventory_item_for_reservation, reserve_order_inventory, return_to_shelf, reverse_item,
  reverse_order_inventory, reverse_requirement,
}
use codepop.Inventory.Reserve.Needs.{
  AllKnown, IsKnown, item_needs, order_needs, requirement_of, requirement_of_item,
  requirement_of_skipped,
}
use codepop.Inventory.Reserve.Orders.{reserve_order_ok}
use codepop.Orders.Models.{Order, OrderItem, Requirement}
use codepop.Stores.{Store}

in_store_undo :
    (store : ℕ) (x q : ℤ) (s : ℕ)
    → q +ℤ (if store == s then neg x else pos 0) +ℤ (if store == s then x else pos 0) ≡ q
in_store_undo store x q s = elim (Bool-cases (store == s)) [
  | inl p ↦ rw p (omega int_laws)
  | inr p ↦ rw p (omega int_laws)
]

module _ (in_catalog : ℕ → Bool) (now : ℕ) where
  return_to_shelf-eq :
      (store : Store) (sku : ℕ) (q : ℤ) (item : InventoryItem) (b : StoreBalance) (db db' : Db)
      → lookup sku db.items ≡ some item
      → get_store_balance store.id item db ≡ (ok b, db')
      → return_to_shelf in_catalog now store sku q db ≡ settle now store.id item.id b q db'
  unfolding return_to_shelf inventory_item_for_reservation
  return_to_shelf-eq store sku q item b db db' e got = ground arith

  return_to_shelf-Moved :
      (store : Store) (sku : ℕ) (q : ℤ) (item : InventoryItem) (db : Db)
      → IsSound db
      → lookup sku db.items ≡ some item
      → pos 0 ≤ℤ q
      → (db' : Db) × (return_to_shelf in_catalog now store sku q db ≡ (ok tt, db'))
        × Moved (at store.id item.id q) db db'
  return_to_shelf-Moved store sku q item db h e nonneg =
      let (b, db1, got, same, r) = get_store_balance-IsSame store.id item db h in
      let v : IsValid (shelf db1 store.id item.id) = r.sound.shelves store.id item.id in
      let (db2, done, m) =
        settle-Moved now store.id item.id b q db1 r.sound (same ∙ sym (r.shelves store.id item.id))
          (omega (int_laws, v)) in
      (db2, return_to_shelf-eq store sku q item b db db1 e got ∙ done, Moved-of_IsSame r m)

  reverse_requirement-Returns :
      (store : Store) (count : ℕ) (items : List (ℕ × InventoryItem)) (r : Requirement) (db : Db)
      → IsSound db
      → db.items ≡ items
      → IsKnown items count r
      → Returns store.id
          (λ i. requirement_of items count i r)
          (reverse_requirement in_catalog now store count r)
          db
  unfolding reverse_requirement
  reverse_requirement-Returns store count items r db h e known =
      elim (Bool-cases (leb_ℤ (count ·ℤ r.quantity) (pos 0))) [
        | inl p ↦ (
          db,
          rw (p, if◌then◌else◌),
          Moved-eq (Moved-zero db h)
              (λ s i. rw (requirement_of_skipped items count i r p) (ground arith)),
        )
        | inr p ↦ elim (Option-cases (lookup r.sku items)) [
          | inl miss ↦ absurd (elim known [ inl q ↦ cc | inr k ↦ k miss ])
          | inr (item, found) ↦
              let (db', done, m) =
                return_to_shelf-Moved store r.sku (count ·ℤ r.quantity) item db h (rw e found)
                  (ground arith) in
              (
                db',
                rw (p, if◌then◌else◌) done,
                Moved-eq m
                    (λ s i. rw (requirement_of_item items count i r item p found) (ground arith)),
              )
        ]
      ]

  reverse_item-Returns :
      (store : Store) (items : List (ℕ × InventoryItem)) (x : OrderItem) (db : Db)
      → IsSound db
      → db.items ≡ items
      → All (IsKnown items x.quantity) x.requirements
      → Returns store.id (item_needs items x) (reverse_item in_catalog now store x) db
  unfolding reverse_item item_needs
  reverse_item-Returns store items x =
      for_each-Returns (λ r i. requirement_of items x.quantity i r) store.id items
        (IsKnown items x.quantity) (reverse_requirement in_catalog now store x.quantity)
        (reverse_requirement-Returns store x.quantity items) x.requirements

  -- From sound tables in which each SKU that an order needs is an inventory item, its reversal
  -- succeeds: the order's store gains exactly what the order needs of each item, and no other
  -- shelf, no reserved quantity and no table but balances and alerts changes.
  pub reverse_order_gives_back :
      (order : Order) (db : Db)
      → IsSound db
      → AllKnown db.items order
      → (db' : Db) × (reverse_order_inventory in_catalog now order db ≡ (ok tt, db'))
        × Moved (in_store order.store.id (order_needs db.items order)) db db'
  unfolding reverse_order_inventory order_needs
  reverse_order_gives_back order db h known =
      let (db', done, m) =
        for_each-Returns (item_needs db.items) order.store.id db.items
          (λ (x : OrderItem). All (IsKnown db.items x.quantity) x.requirements)
          (reverse_item in_catalog now order.store) (reverse_item-Returns order.store db.items)
          order.items db h refl known in
      (db', rw (done, rollback), m)

  -- From sound tables, once an order has been reserved its reversal cannot fail, and then every
  -- shelf of every store holds and reserves what it did before the reservation.
  pub reverse-reserve :
      (order : Order) (db db1 : Db)
      → IsSound db
      → reserve_order_inventory in_catalog now order db ≡ (ok tt, db1)
      → (db2 : Db) × (reverse_order_inventory in_catalog now order db1 ≡ (ok tt, db2))
        × ((s i : ℕ) → shelf db2 s i ≡ shelf db s i)
  reverse-reserve order db db1 h done =
      let (known, m) = reserve_order_ok in_catalog now order db db1 h done in
      let (db2, undone, n) = reverse_order_gives_back order db1 m.sound (rw m.frame.items known) in
      (
        db2,
        undone,
        λ s i.
            Quantities-eq (shelf db2 s i) (shelf db s i)
              (n.on_hand s i
                ∙ rw (m.on_hand s i, m.frame.items)
                    (in_store_undo order.store.id (order_needs db.items order i)
                      (shelf db s i).on_hand_quantity s))
              (n.reserved s i ∙ m.reserved s i),
      )
