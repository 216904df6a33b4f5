-- ===== src/Inventory/Reserve/Shelf.antt =====
-- What reserving one requirement takes from the shelf, or why it raises.
use codepop.Base.{
  ==_refl, Bool, Bool-cases, List, Option-cases, arith, false, if◌then◌else◌, inl, inr, none, some,
  sym, true, ℕ, ◌∙◌, ◌≡◌, ◌⊎◌,
}
use codepop.Base.Exec.{err, ok}
use codepop.Base.Int.{int_laws, leb_ℤ, ltb_ℤ, neg, pos, ℤ, ◌+ℤ◌, ◌·ℤ◌, ◌≤ℤ◌}
use codepop.Base.Table.{lookup}
use codepop.Db.{Db}
use codepop.Errors.{Error, InventoryFault}
use codepop.Inventory.Balance.{available_quantity, get_store_balance}
use codepop.Inventory.Balance.Bounds.{available_quantity_iff}
use codepop.Inventory.Balance.Loops.{Takes, neg-zero}
use codepop.Inventory.Balance.Settle.{settle, settle-Moved}
use codepop.Inventory.Balance.Shelf.{
  IsSound, Moved, Moved-eq, Moved-of_IsSame, Moved-zero, at, get_store_balance-IsSame, shelf,
}
use codepop.Inventory.Models.{InventoryItem, StoreBalance}
use codepop.Inventory.Reserve.{inventory_item_for_reservation, reserve_requirement, take_from_shelf}
use codepop.Inventory.Reserve.Needs.{
  IsKnown, at-eq-in_store, requirement_of, requirement_of_item, requirement_of_skipped,
}
use codepop.Orders.Models.{Requirement}
use codepop.Stores.{Store}

module _ (in_catalog : ℕ → Bool) (now : ℕ) where
  -- The body with its two reads done.
  take_from_shelf-eq :
      (store : Store) (sku : ℕ) (q : ℤ) (item : InventoryItem) (b : StoreBalance) (db db' : Db)
      → lookup sku db.items ≡ some item
      → get_store_balance store.id item db ≡ (ok b, db')
      → take_from_shelf in_catalog now store sku q db ≡ (
          if ltb_ℤ (available_quantity b.quantities) q
          then (err (Error.inventory InventoryFault.insufficient_stock), db')
          else settle now store.id item.id b (neg q) db')
  unfolding take_from_shelf inventory_item_for_reservation
  take_from_shelf-eq store sku q item b db db' e got = ground arith

  pub take_from_shelf-Moved :
      (store : Store) (sku : ℕ) (q : ℤ) (item : InventoryItem) (db : Db)
      → IsSound db
      → lookup sku db.items ≡ some item
      → (shelf db store.id item.id).reserved_quantity +ℤ q
        ≤ℤ (shelf db store.id item.id).on_hand_quantity
      → (db' : Db) × (take_from_shelf in_catalog now store sku q db ≡ (ok tt, db'))
        × Moved (at store.id item.id (neg q)) db db'
  take_from_shelf-Moved store sku q item db h e fits =
      let (b, db1, got, same, r) = get_store_balance-IsSame store.id item db h in
      let there : b.quantities ≡ shelf db1 store.id item.id =
        same ∙ sym (r.shelves store.id item.id) in
      let covered : ltb_ℤ (available_quantity b.quantities) q ≡ false =
        rw same ((available_quantity_iff (shelf db store.id item.id) q).1 fits) in
      let (db2, done, m) =
        settle-Moved now store.id item.id b (neg q) db1 r.sound there
          (rw (r.shelves store.id item.id) (omega int_laws)) in
      (
        db2,
        take_from_shelf-eq store sku q item b db db1 e got ∙ rw (covered, if◌then◌else◌) done,
        Moved-of_IsSame r m,
      )

  -- Without that much available, or with an unknown SKU, the call raises.
  take_from_shelf_short :
      (store : Store) (sku : ℕ) (q : ℤ) (item : InventoryItem) (db : Db)
      → IsSound db
      → lookup sku db.items ≡ some item
      → ltb_ℤ (available_quantity (shelf db store.id item.id)) q ≡ true
      → (e : Error) × (db' : Db) × (take_from_shelf in_catalog now store sku q db ≡ (err e, db'))
  take_from_shelf_short store sku q item db h e short =
      let (b, db1, got, same, r) = get_store_balance-IsSame store.id item db h in
      let short' : ltb_ℤ (available_quantity b.quantities) q ≡ true = rw same short in
      (
        Error.inventory InventoryFault.insufficient_stock,
        db1,
        take_from_shelf-eq store sku q item b db db1 e got ∙ rw (short', if◌then◌else◌),
      )

  take_from_shelf_unknown :
      (store : Store) (sku : ℕ) (q : ℤ) (db : Db)
      → lookup sku db.items ≡ none
      → (e : Error) × (db' : Db) × (take_from_shelf in_catalog now store sku q db ≡ (err e, db'))
  unfolding take_from_shelf inventory_item_for_reservation
  take_from_shelf_unknown store sku q db e = (
    Error.inventory (
        if in_catalog sku
        then InventoryFault.catalog_incomplete
        else InventoryFault.outdated_recipe),
    db,
    ground arith,
  )

  reserve_found :
      (store : Store) (count : ℕ) (items : List (ℕ × InventoryItem)) (r : Requirement)
      (item : InventoryItem) (db : Db)
      → IsSound db
      → db.items ≡ items
      → leb_ℤ (count ·ℤ r.quantity) (pos 0) ≡ false
      → lookup r.sku items ≡ some item
      → let short = ltb_ℤ (available_quantity (shelf db store.id item.id)) (count ·ℤ r.quantity) in
        (short ≡ true) ⊎ (short ≡ false)
        → Takes store.id
            (IsKnown items count r)
            (λ i. requirement_of items count i r)
            (reserve_requirement in_catalog now store count r)
            db
  unfolding reserve_requirement
  reserve_found store count items r item db h e p found (inl short) =
      let (er, db', stop) =
        take_from_shelf_short store r.sku (count ·ℤ r.quantity) item db h (rw e found) short in
      inr (
        λ w.
            let fit =
              rw (requirement_of_item items count item.id r item p found, ==_refl item.id) at
                (w.1 item.id) in
            cc (
              short,
              (available_quantity_iff (shelf db store.id item.id) (count ·ℤ r.quantity)).1 fit,
            ),
        (er, db', rw (p, if◌then◌else◌) stop),
      )
  reserve_found store count items r item db h e p found (inr enough) =
      let (db', done, m) =
        take_from_shelf-Moved store r.sku (count ·ℤ r.quantity) item db h (rw e found)
          ((available_quantity_iff (shelf db store.id item.id) (count ·ℤ r.quantity)).0 enough) in
      inl (
        inr (λ z. cc),
        (
          db',
          rw (p, if◌then◌else◌) done,
          Moved-eq m (λ s i.
              at-eq-in_store store.id item.id (count ·ℤ r.quantity) s i
              ∙ rw (requirement_of_item items count i r item p found)),
        ),
      )

  pub reserve_requirement-Takes :
      (store : Store) (count : ℕ) (items : List (ℕ × InventoryItem)) (r : Requirement) (db : Db)
      → IsSound db
      → db.items ≡ items
      → Takes store.id
          (IsKnown items count r)
          (λ i. requirement_of items count i r)
          (reserve_requirement in_catalog now store count r)
          db
  unfolding reserve_requirement
  reserve_requirement-Takes store count items r db h e =
      elim (Bool-cases (leb_ℤ (count ·ℤ r.quantity) (pos 0))) [
        | inl p ↦ inl (
          inl p,
          (
            db,
            rw (p, if◌then◌else◌),
            Moved-eq (Moved-zero db h)
                (λ s i. rw (requirement_of_skipped items count i r p) (neg-zero store.id s)),
          ),
        )
        | inr p ↦ elim (Option-cases (lookup r.sku items)) [
          | inl miss ↦
              let (er, db', stop) =
                take_from_shelf_unknown store r.sku (count ·ℤ r.quantity) db (rw e miss) in
              inr (
                λ w. elim w.0 [ inl q ↦ cc | inr k ↦ k miss ],
                (er, db', rw (p, if◌then◌else◌) stop),
              )
          | inr (item, found) ↦ reserve_found store count items r item db h e p found (
              Bool-cases
                (ltb_ℤ (available_quantity (shelf db store.id item.id)) (count ·ℤ r.quantity)))
        ]
      ]
