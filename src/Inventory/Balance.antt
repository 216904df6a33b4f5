-- ===== src/Inventory/Balance.antt =====
-- apps/inventory/services.py: balances of stores and hubs, and the one way they change.
pub mod Bounds
pub mod Shelf
pub mod Settle
pub mod Loops
use codepop.Base.{Option, if◌then◌else◌, none, some, ℕ, ◌||◌}
use codepop.Base.Exec.{err, ok}
use codepop.Base.Int.{ltb_ℤ, pos, ℤ, ◌+ℤ◌, ◌-ℤ◌}
use codepop.Base.Table.{insert2, lookup2}
use codepop.Db.{Call}
use codepop.Errors.{Error, InventoryFault}
use codepop.Inventory.Models.{InventoryItem, Quantities, StoreBalance}

abbrev pub no_quantities : Quantities
no_quantities = record { on_hand_quantity = pos 0; reserved_quantity = pos 0 }

unfoldable pub available_quantity : Quantities → ℤ
available_quantity q = q.on_hand_quantity -ℤ q.reserved_quantity

-- The body of `apply_balance_change`: the new quantities, or `none` where it raises.
unfoldable pub apply_balance_change : ℤ → ℤ → Quantities → Option Quantities
apply_balance_change on_hand_delta reserved_delta q =
    let new_on_hand = q.on_hand_quantity +ℤ on_hand_delta in
    let new_reserved = q.reserved_quantity +ℤ reserved_delta in
    if ltb_ℤ new_on_hand (pos 0) || (ltb_ℤ new_reserved (pos 0) || ltb_ℤ new_on_hand new_reserved)
    then none
    else some (record { on_hand_quantity = new_on_hand; reserved_quantity = new_reserved })

-- `StoreInventoryBalance.objects.get_or_create(…)`: the row, and the table with it.
abbrev pub new_store_balance : InventoryItem → StoreBalance
new_store_balance item = record {
  quantities = no_quantities;
  reorder_threshold = item.default_low_stock_threshold;
}

unfoldable pub get_store_balance : ℕ → InventoryItem → Call StoreBalance
get_store_balance store item db = elim (lookup2 store item.id db.store_balances) [
  | some balance ↦ (ok balance, db)
  | none ↦ (
    ok (new_store_balance item),
    record db { store_balances = insert2 store item.id (new_store_balance item) db.store_balances },
  )
]

unfoldable pub get_hub_balance : ℕ → InventoryItem → Call Quantities
get_hub_balance hub item db = elim (lookup2 hub item.id db.hub_balances) [
  | some balance ↦ (ok balance, db)
  | none ↦ (
    ok no_quantities,
    record db { hub_balances = insert2 hub item.id no_quantities db.hub_balances },
  )
]

abbrev with_quantities : StoreBalance → Quantities → StoreBalance
with_quantities balance q = record balance { quantities = q }

-- `apply_balance_change(balance, …)` on a store's balance, saved, and on a hub's.
unfoldable pub change_store_balance : ℕ → ℕ → StoreBalance → ℤ → ℤ → Call StoreBalance
change_store_balance store item balance on_hand_delta reserved_delta db =
    elim (apply_balance_change on_hand_delta reserved_delta balance.quantities) [
      | none ↦ (err (Error.inventory InventoryFault.invalid_quantities), db)
      | some q ↦ (
        ok (with_quantities balance q),
        record db {
          store_balances = insert2 store item (with_quantities balance q) db.store_balances;
        },
      )
    ]

unfoldable pub change_hub_balance : ℕ → ℕ → Quantities → ℤ → ℤ → Call Quantities
change_hub_balance hub item balance on_hand_delta reserved_delta db =
    elim (apply_balance_change on_hand_delta reserved_delta balance) [
      | none ↦ (err (Error.inventory InventoryFault.invalid_quantities), db)
      | some q ↦ (ok q, record db { hub_balances = insert2 hub item q db.hub_balances })
    ]
