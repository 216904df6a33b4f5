-- ===== src/Inventory/Reserve.antt =====
-- apps/inventory/services.py: an order takes its requirements from the shelf when it is queued, and
-- gives them back when it is refunded. The catalogue that tells the two errors about a missing item
-- apart is the argument `in_catalog`.
pub mod Needs
pub mod Shelf
pub mod Orders
pub mod RoundTrip
use codepop.Base.{Bool, if◌then◌else◌, none, some, ℕ}
use codepop.Base.Exec.{atomic, err, for_each, ok, pure, raise_if, ◌>>=◌, ◌>>◌}
use codepop.Base.Int.{leb_ℤ, ltb_ℤ, neg, pos, ℤ, ◌·ℤ◌}
use codepop.Base.Table.{lookup}
use codepop.Db.{Call}
use codepop.Errors.{Error, InventoryFault}
use codepop.Inventory.Alerts.{evaluate_restock_alert}
use codepop.Inventory.Balance.{available_quantity, change_store_balance, get_store_balance}
use codepop.Inventory.Models.{InventoryItem}
use codepop.Orders.Models.{Order, OrderItem, Requirement}
use codepop.Stores.{Store}

module _ (in_catalog : ℕ → Bool) (now : ℕ) where
  unfoldable pub inventory_item_for_reservation : ℕ → Call InventoryItem
  inventory_item_for_reservation sku db = elim (lookup sku db.items) [
    | some item ↦ (ok item, db)
    | none ↦ (
      err (
          Error.inventory (
            if in_catalog sku
            then InventoryFault.catalog_incomplete
            else InventoryFault.outdated_recipe)),
      db,
    )
  ]

  -- The body of the loop of `reserve_order_inventory`, from the lookup of the item on.
  unfoldable pub take_from_shelf : Store → ℕ → ℤ → Call (Unit {0})
  take_from_shelf store sku quantity = do
    item ← inventory_item_for_reservation sku
    balance ← get_store_balance store.id item
    raise_if (ltb_ℤ (available_quantity balance.quantities) quantity)
        (Error.inventory InventoryFault.insufficient_stock)
    changed ← change_store_balance store.id item.id balance (neg quantity) (pos 0)
    evaluate_restock_alert now store.id item.id changed

  -- The same of `reverse_order_inventory`.
  unfoldable pub return_to_shelf : Store → ℕ → ℤ → Call (Unit {0})
  return_to_shelf store sku quantity = do
    item ← inventory_item_for_reservation sku
    balance ← get_store_balance store.id item
    changed ← change_store_balance store.id item.id balance quantity (pos 0)
    evaluate_restock_alert now store.id item.id changed

  -- One requirement of an item that is ordered `count` times; `if quantity <= 0: continue`.
  unfoldable pub reserve_requirement : Store → ℕ → Requirement → Call (Unit {0})
  reserve_requirement store count r =
      if leb_ℤ (count ·ℤ r.quantity) (pos 0)
      then pure tt
      else take_from_shelf store r.sku (count ·ℤ r.quantity)

  unfoldable pub reverse_requirement : Store → ℕ → Requirement → Call (Unit {0})
  reverse_requirement store count r =
      if leb_ℤ (count ·ℤ r.quantity) (pos 0)
      then pure tt
      else return_to_shelf store r.sku (count ·ℤ r.quantity)

  unfoldable pub reserve_item : Store → OrderItem → Call (Unit {0})
  reserve_item store item = for_each (reserve_requirement store item.quantity) item.requirements

  unfoldable pub reverse_item : Store → OrderItem → Call (Unit {0})
  reverse_item store item = for_each (reverse_requirement store item.quantity) item.requirements

  unfoldable pub reserve_order_inventory : Order → Call (Unit {0})
  reserve_order_inventory order = atomic (for_each (reserve_item order.store) order.items)

  unfoldable pub reverse_order_inventory : Order → Call (Unit {0})
  reverse_order_inventory order = atomic (for_each (reverse_item order.store) order.items)
