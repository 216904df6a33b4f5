-- ===== src/Inventory/Balance/Settle.antt =====
-- A change of what is on hand, saved, with the restock alert evaluated: the step that reservations,
-- refunds, receipts and adjustments share.
use codepop.Base.{List, arith, if◌then◌else◌, none, refl, some, ℕ, ◌&&◌, ◌==◌, ◌≡◌, ◌≤◌}
use codepop.Base.Exec.{err, ok, ◌>>=◌}
use codepop.Base.Int.{+ℤ_zero, int_laws, pos, ℤ, ◌+ℤ◌, ◌≤ℤ◌}
use codepop.Base.Table.{insert2}
use codepop.Db.{Call, Db}
use codepop.Errors.{Error, InventoryFault}
use codepop.Inventory.Alerts.{count_open, evaluate_restock_alert, next_alerts}
use codepop.Inventory.Alerts.Single.{next_alerts-count_open}
use codepop.Inventory.Balance.{apply_balance_change, change_store_balance}
use codepop.Inventory.Balance.Bounds.{IsValid, apply_balance_change_iff}
use codepop.Inventory.Balance.Shelf.{IsSound, Moved, at, shelf, shelf-insert2}
use codepop.Inventory.Models.{Quantities, RestockAlert, StoreBalance}

-- A balance that is read from the shelf and then changed, with its alert evaluated.
abbrev pub settle : ℕ → ℕ → ℕ → StoreBalance → ℤ → Call (Unit {0})
settle now store item b delta =
    change_store_balance store item b delta (pos 0) >>= evaluate_restock_alert now store item

-- The quantities after a change of what is on hand.
abbrev shifted : Quantities → ℤ → Quantities
shifted q delta = record {
  on_hand_quantity = q.on_hand_quantity +ℤ delta;
  reserved_quantity = q.reserved_quantity +ℤ pos 0;
}

shifted-IsValid :
    (q : Quantities) (delta : ℤ)
    → IsValid q
    → q.reserved_quantity ≤ℤ q.on_hand_quantity +ℤ delta
    → IsValid (shifted q delta)
shifted-IsValid q delta v fits = record {
  on_hand_nonneg = omega int_laws;
  reserved_nonneg = omega int_laws;
  reserved_within = omega int_laws;
}

-- The tables after the balance is saved and its alert evaluated.
abbrev settled : ℕ → ℕ → StoreBalance → ℤ → List RestockAlert → Db → Db
settled store item b delta alerts db = record db {
  store_balances =
      insert2 store item (record b { quantities = shifted b.quantities delta }) db.store_balances;
  alerts = alerts;
}

settle-eq :
    (now store item : ℕ) (b : StoreBalance) (delta : ℤ) (db : Db) (alerts : List RestockAlert)
    → apply_balance_change delta (pos 0) b.quantities ≡ some (shifted b.quantities delta)
    → next_alerts now store item (record b { quantities = shifted b.quantities delta }) db.alerts
      ≡ some alerts
    → settle now store item b delta db ≡ (ok tt, settled store item b delta alerts db)
unfolding change_store_balance evaluate_restock_alert
settle-eq now store item b delta db alerts changed evaluated =
    rw (changed, change_store_balance) (rw (evaluated, evaluate_restock_alert))

settled-shelf :
    (store item : ℕ) (b : StoreBalance) (delta : ℤ) (alerts : List RestockAlert) (db : Db) (s i : ℕ)
    → b.quantities ≡ shelf db store item
    → shelf (settled store item b delta alerts db) s i
      ≡ (if (store == s) && (item == i) then shifted (shelf db s i) delta else shelf db s i)
settled-shelf store item b delta alerts db s i e = ground (
  arith,
  shelf-insert2 store item (record b { quantities = shifted b.quantities delta }) db.store_balances
      s i,
)

settled-Moved :
    (store item : ℕ) (b : StoreBalance) (delta : ℤ) (alerts : List RestockAlert) (db : Db)
    → IsSound db
    → b.quantities ≡ shelf db store item
    → (shelf db store item).reserved_quantity ≤ℤ (shelf db store item).on_hand_quantity +ℤ delta
    → ((s i : ℕ) → count_open s i alerts ≤ 1)
    → Moved (at store item delta) db (settled store item b delta alerts db)
settled-Moved store item b delta alerts db h e fits single = record {
  on_hand = λ s i.
      rw (settled-shelf store item b delta alerts db s i e)
        (ground (arith, +ℤ_zero (shelf db s i).on_hand_quantity));
  reserved = λ s i.
      rw (settled-shelf store item b delta alerts db s i e)
        (ground (arith, +ℤ_zero (shelf db s i).reserved_quantity));
  frame = ground arith;
  sound = record {
    shelves = λ s i.
        rw (settled-shelf store item b delta alerts db s i e)
          (ground (arith, shifted-IsValid (shelf db s i) delta (h.shelves s i), h.shelves s i));
    alerts = single;
  };
}

pub settle-Moved :
    (now store item : ℕ) (b : StoreBalance) (delta : ℤ) (db : Db)
    → IsSound db
    → b.quantities ≡ shelf db store item
    → (shelf db store item).reserved_quantity ≤ℤ (shelf db store item).on_hand_quantity +ℤ delta
    → (db' : Db) × (settle now store item b delta db ≡ (ok tt, db'))
      × Moved (at store item delta) db db'
settle-Moved now store item b delta db h e fits =
    let b' : StoreBalance = record b { quantities = shifted b.quantities delta } in
    let v : IsValid (shifted b.quantities delta) =
      rw e (shifted-IsValid (shelf db store item) delta (h.shelves store item) fits) in
    let (alerts, evaluated, counts) =
      next_alerts-count_open now store item b' db.alerts (h.alerts store item) in
    (
      settled store item b delta alerts db,
      settle-eq now store item b delta db alerts
          ((apply_balance_change_iff delta (pos 0) b.quantities (shifted b.quantities delta)).1
            (refl, refl, v))
          evaluated,
      settled-Moved store item b delta alerts db h e fits
          (λ s i. ground (arith, counts s i, h.alerts s i)),
    )

apply_balance_change_refused :
    (delta : ℤ) (q : Quantities)
    → ¬ (q.reserved_quantity ≤ℤ q.on_hand_quantity +ℤ delta)
    → apply_balance_change delta (pos 0) q ≡ none
unfolding apply_balance_change
apply_balance_change_refused delta q short = ground (arith, +ℤ_zero q.reserved_quantity)

pub settle_refused :
    (now store item : ℕ) (b : StoreBalance) (delta : ℤ) (db : Db)
    → IsSound db
    → b.quantities ≡ shelf db store item
    → ¬ ((shelf db store item).reserved_quantity ≤ℤ (shelf db store item).on_hand_quantity +ℤ delta)
    → settle now store item b delta db
      ≡ (err (Error.inventory InventoryFault.invalid_quantities), db)
unfolding change_store_balance
settle_refused now store item b delta db h e short =
    rw (apply_balance_change_refused delta b.quantities (rw e short), change_store_balance)
