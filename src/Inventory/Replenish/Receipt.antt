-- ===== src/Inventory/Replenish/Receipt.antt =====
-- What the receipt of a supplier order does, whatever it returns.
use codepop.Base.{
  ==_refl, Bool-cases, Option, arith, false, inl, inr, none, refl, some, sym, true, ℕ, ◌∙◌, ◌≡◌,
  ◌⊎◌,
}
use codepop.Base.Exec.{Result, err, next, ok, ◌>>◌}
use codepop.Base.Int.{int_laws, ltb_ℤ, pos, ℤ, ◌+ℤ◌, ◌<ℤ◌, ◌≤ℤ◌}
use codepop.Base.Table.{lookup, lookup-insert}
use codepop.Db.{Call, Db}
use codepop.Errors.{Error, InventoryFault}
use codepop.Inventory.Alerts.{evaluate_restock_alert}
use codepop.Inventory.Balance.{change_store_balance, get_store_balance}
use codepop.Inventory.Balance.Bounds.{IsValid}
use codepop.Inventory.Balance.Settle.{settle, settle-Moved}
use codepop.Inventory.Balance.Shelf.{
  IsSound, Moved, Moved-of_IsSame, at, get_store_balance-IsSame, shelf,
}
use codepop.Inventory.Models.{
  InventoryItem, Quantities, ReplenishmentStatus, StoreBalance, SupplierReplenishment,
}
use codepop.Inventory.Replenish.{
  announce_replenishment, is_ordered, quantity_to_receive, receive_supplier_replenishment,
  save_replenishment,
}
use codepop.Sync.Events.{create_audit_log, create_outbox_event}
use codepop.Sync.Models.{EventType}
use codepop.Users.Models.{User, signed_in}
use codepop.Users.Permissions.{user_can_manage_supplier_order}

-- What a receipt needs: the right, a supplier order that is still ordered, and a positive quantity.
abbrev pub Receivable : SupplierReplenishment → User → Option ℤ → Db → Type 0
Receivable r actor received db =
    (user_can_manage_supplier_order db.grants (signed_in actor) r.store ≡ true)
    × (is_ordered r.status ≡ true)
    × (pos 0 <ℤ quantity_to_receive received r)

-- The whole effect of a receipt.
pub record Received (r : SupplierReplenishment) (received : Option ℤ) (db : Db)
    (r' : SupplierReplenishment) (db' : Db) : Type 0 where
  pub status : r'.status ≡ ReplenishmentStatus.received
  pub quantity : r'.quantity_received ≡ quantity_to_receive received r
  pub stored : lookup r'.id db'.replenishments ≡ some r'
  pub on_hand :
      (s i : ℕ)
      → (shelf db' s i).on_hand_quantity
        ≡ (shelf db s i).on_hand_quantity
          +ℤ at r.store.id r.inventory_item.id (quantity_to_receive received r) s i
  pub reserved : (s i : ℕ) → (shelf db' s i).reserved_quantity ≡ (shelf db s i).reserved_quantity
  pub sound : IsSound db'

-- A positive quantity put on a shelf leaves it valid.
fits_more :
    (q : Quantities) (x : ℤ)
    → IsValid q
    → pos 0 <ℤ x
    → q.reserved_quantity ≤ℤ q.on_hand_quantity +ℤ x
fits_more q x v h = omega (int_laws, v.reserved_within)

ltb_above : (a b : ℤ) → ltb_ℤ a b ≡ true → a <ℤ b
ltb_above a b h = ground arith

ltb_not_above : (a b : ℤ) → ltb_ℤ a b ≡ false → ¬ (a <ℤ b)
ltb_not_above a b h = ground arith

-- The stock comes in as one movement.
bring_in :
    (now store : ℕ) (item : InventoryItem) (x : ℤ) (db : Db)
    → IsSound db
    → pos 0 <ℤ x
    → (b : StoreBalance) × (db1 db2 : Db) × (get_store_balance store item db ≡ (ok b, db1))
      × (settle now store item.id b x db1 ≡ (ok tt, db2))
      × Moved (at store item.id x) db db2
bring_in now store item x db h positive =
    let (b, db1, got, same, r) = get_store_balance-IsSame store item db h in
    let (db2, done, m) =
      settle-Moved now store item.id b x db1 r.sound (same ∙ sym (r.shelves store item.id))
        (fits_more (shelf db1 store item.id) x (r.sound.shelves store item.id) positive) in
    (b, db1, db2, got, done, Moved-of_IsSame r m)

next_assoc :
    {A B C : Type 0} (p : Result Error A × Db) (f : A → Call B) (g : Call C)
    → next p (λ a. f a >> g) ≡ next (next p f) (λ _. g)
next_assoc (ok a, db) f g = refl
next_assoc (err e, db) f g = refl

received_row : ℕ → SupplierReplenishment → User → Option ℤ → Option ℤ → SupplierReplenishment
received_row now r actor received unit_cost = record r {
  quantity_received = quantity_to_receive received r;
  received_at = some now;
  recorded_by = actor.id;
  status = ReplenishmentStatus.received;
  unit_cost = elim unit_cost [ none ↦ r.unit_cost | some c ↦ some c ];
}

announce_replenishment_lem :
    (event : EventType) (actor : User) (r : SupplierReplenishment) (db : Db)
    → (db' : Db) × (announce_replenishment event actor r db ≡ (ok r, db'))
      × (lookup r.id db'.replenishments ≡ some r)
      × (db'.store_balances ≡ db.store_balances)
      × (db'.alerts ≡ db.alerts)
unfolding announce_replenishment save_replenishment create_outbox_event create_audit_log
announce_replenishment_lem event actor r db =
    (_, refl, rw (lookup-insert, ==_refl r.id), refl, refl)

-- From sound tables a receipt that has what it needs goes through: the supplier order is stored as
-- received and its store has that much more of the item; any other raises with the tables as they
-- were.
pub receive_supplier_replenishment_outcome :
    (now : ℕ) (r : SupplierReplenishment) (actor : User) (received unit_cost : Option ℤ) (db : Db)
    → IsSound db
    → (Receivable r actor received db
        × (r' : SupplierReplenishment) × (db' : Db) × (receive_supplier_replenishment now r actor
              received unit_cost db
            ≡ (ok r', db'))
        × Received r received db r' db')
      ⊎ ((¬ Receivable r actor received db)
          × (e : Error) × (receive_supplier_replenishment now r actor received unit_cost db
              ≡ (err e, db)))
unfolding receive_supplier_replenishment received_row
receive_supplier_replenishment_outcome now r actor received unit_cost db h =
    let x = quantity_to_receive received r in
    elim (Bool-cases (user_can_manage_supplier_order db.grants (signed_in actor) r.store)) [
      | inr g ↦
          inr (λ w. let q = w.0 in absurd cc, Error.inventory InventoryFault.supplier_denied, rw g)
      | inl g ↦ elim (Bool-cases (is_ordered r.status)) [
        | inr o ↦
            inr
              (λ w. let q = w.1 in absurd cc, Error.inventory InventoryFault.not_ordered, rw (g, o))
        | inl o ↦ elim (Bool-cases (ltb_ℤ (pos 0) x)) [
          | inr p ↦ inr (
            λ w. ltb_not_above (pos 0) x p w.2,
            Error.inventory InventoryFault.receipt_not_positive,
            rw (g, o, p),
          )
          | inl p ↦
              let (b, db1, db2, got, done, m) =
                bring_in now r.store.id r.inventory_item x db h (ltb_above (pos 0) x p) in
              let r' = received_row now r actor received unit_cost in
              let (db3, told, stored, rows, alerts) =
                announce_replenishment_lem EventType.replenishment_received actor r' db2 in
              inl (
                (g, o, ltb_above (pos 0) x p),
                r',
                db3,
                rw (
                  g,
                  o,
                  p,
                  got,
                  next_assoc (change_store_balance r.store.id r.inventory_item.id b x (pos 0) db1)
                      (evaluate_restock_alert now r.store.id r.inventory_item.id)
                      (announce_replenishment EventType.replenishment_received actor r'),
                  done,
                  told,
                ),
                record {
                  status = refl;
                  quantity = refl;
                  stored = stored;
                  on_hand = λ s i. rw rows (m.on_hand s i);
                  reserved = λ s i. rw rows (m.reserved s i);
                  sound = record {
                    shelves = λ s i. rw rows (m.sound.shelves s i);
                    alerts = λ s i. rw alerts (m.sound.alerts s i);
                  };
                },
              )
        ]
      ]
    ]
