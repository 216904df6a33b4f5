-- ===== src/Tests/Inventory.antt =====
-- The inventory services on the sample tables.
use codepop.Base.{
  List, [], arith, if◌then◌else◌, none, refl, some, ℕ, ◌&&◌, ◌*◌, ◌==◌, ◌↔◌, ◌≡◌, ◌≤◌, ◌⊎◌,
}
use codepop.Base.Exec.{err, ok}
use codepop.Base.Int.{neg, pos, ◌+ℤ◌, ◌-ℤ◌, ◌·ℤ◌, ◌≤ℤ◌}
use codepop.Base.Table.{insert2, lookup, lookup2}
use codepop.Db.{Call, Db}
use codepop.Errors.{Error}
use codepop.Inventory.Alerts.{
  alert_severity, count_open, evaluate_restock_alert, next_alerts, resolve_open, set_severity,
  upsert_alert,
}
use codepop.Inventory.Alerts.Single.{is_low, next_alerts-count_open}
use codepop.Inventory.Balance.{
  apply_balance_change, available_quantity, change_store_balance, get_store_balance,
}
use codepop.Inventory.Balance.Bounds.{IsValid, apply_balance_change_iff}
use codepop.Inventory.Balance.Loops.{Fits, in_store}
use codepop.Inventory.Balance.Shelf.{Moved, shelf, shelf_of}
use codepop.Inventory.Bulk.{normalize_bulk_order_quantity, pack_size_for_item}
use codepop.Inventory.Bulk.Packs.{normalize_bulk_order_quantity_least}
use codepop.Inventory.Models.{
  Quantities, ReplenishmentStatus, RestockAlert, StoreBalance, SupplierReplenishment,
}
use codepop.Inventory.Replenish.{receive_supplier_replenishment}
use codepop.Inventory.Replenish.Receipt.{
  Receivable, Received, receive_supplier_replenishment_outcome,
}
use codepop.Inventory.Reserve.{
  inventory_item_for_reservation, reserve_item, reserve_order_inventory, reserve_requirement,
  reverse_order_inventory, take_from_shelf,
}
use codepop.Inventory.Reserve.Needs.{AllKnown, order_needs}
use codepop.Inventory.Reserve.Orders.{reserve_order_iff, reserve_order_outcome}
use codepop.Inventory.Reserve.RoundTrip.{reverse-reserve, reverse_order_gives_back}
use codepop.Orders.Models.{Order, OrderStatus}
use codepop.Tests.Data.{
  cola, cola_balance, downtown, no_catalog, order_in, tables_in, tables_in-AllKnown,
  tables_in-IsSound,
}
use codepop.Users.Models.{Role, User}

abbrev paid_order : Order
paid_order = order_in OrderStatus.paid

abbrev sample : Db
sample = tables_in OrderStatus.paid

-- The shelf of the store after a call.
abbrev cola_after : Call (Unit {0}) → Quantities
cola_after call = shelf (call sample).1 1 10

reserve_takes_three :
    cola_after (reserve_order_inventory no_catalog 20 paid_order)
    ≡ record { on_hand_quantity = pos 700; reserved_quantity = pos 100 }
unfolding reserve_order_inventory reserve_item reserve_requirement take_from_shelf
    inventory_item_for_reservation get_store_balance available_quantity change_store_balance
    apply_balance_change evaluate_restock_alert next_alerts upsert_alert count_open alert_severity
    shelf_of lookup lookup2 insert2 set_severity resolve_open ◌·ℤ◌ ◌-ℤ◌ ◌+ℤ◌ neg
reserve_takes_three = refl

-- What the reservation of the sample order leaves.
reserved_tables :
    (db1 : Db) × (reserve_order_inventory no_catalog 20 paid_order sample ≡ (ok tt, db1))
unfolding reserve_order_inventory reserve_item reserve_requirement take_from_shelf
    inventory_item_for_reservation get_store_balance available_quantity change_store_balance
    apply_balance_change evaluate_restock_alert next_alerts upsert_alert count_open alert_severity
    lookup lookup2 insert2 set_severity resolve_open ◌·ℤ◌ ◌-ℤ◌ ◌+ℤ◌ neg
reserved_tables = (_, refl)

reserve_order_outcome_example :
    ((db' : Db) × (reserve_order_inventory no_catalog 20 paid_order sample ≡ (ok tt, db'))
      × Moved (in_store 1 (λ i. neg (order_needs sample.items paid_order i))) sample db')
    ⊎ ((e : Error) × (reserve_order_inventory no_catalog 20 paid_order sample ≡ (err e, sample)))
reserve_order_outcome_example =
    reserve_order_outcome no_catalog 20 paid_order sample (tables_in-IsSound OrderStatus.paid)

reserve_order_iff_example :
    ((reserve_order_inventory no_catalog 20 paid_order sample).0 ≡ ok tt)
    ↔ (AllKnown sample.items paid_order × Fits 1 (order_needs sample.items paid_order) sample)
reserve_order_iff_example =
    reserve_order_iff no_catalog 20 paid_order sample (tables_in-IsSound OrderStatus.paid)

reverse_order_gives_back_example :
    (db' : Db) × (reverse_order_inventory no_catalog 20 paid_order sample ≡ (ok tt, db'))
    × Moved (in_store 1 (order_needs sample.items paid_order)) sample db'
reverse_order_gives_back_example =
    reverse_order_gives_back no_catalog 20 paid_order sample (tables_in-IsSound OrderStatus.paid)
      (tables_in-AllKnown OrderStatus.paid)

reverse-reserve_example :
    (db2 : Db) × (reverse_order_inventory no_catalog 20 paid_order reserved_tables.0 ≡ (ok tt, db2))
    × ((s i : ℕ) → shelf db2 s i ≡ shelf sample s i)
reverse-reserve_example =
    reverse-reserve no_catalog 20 paid_order sample reserved_tables.0
      (tables_in-IsSound OrderStatus.paid) reserved_tables.1

apply_balance_change_iff_example :
    (apply_balance_change (neg (pos 300)) (pos 0) cola_balance.quantities
      ≡ some (record { on_hand_quantity = pos 700; reserved_quantity = pos 100 }))
    ↔ ((pos 700 ≡ pos 1000 +ℤ neg (pos 300))
        × (pos 100 ≡ pos 100 +ℤ pos 0)
        × IsValid (record { on_hand_quantity = pos 700; reserved_quantity = pos 100 }))
apply_balance_change_iff_example =
    apply_balance_change_iff (neg (pos 300)) (pos 0) cola_balance.quantities
      (record { on_hand_quantity = pos 700; reserved_quantity = pos 100 })

abbrev low_balance : StoreBalance
low_balance = record cola_balance {
  quantities = record { on_hand_quantity = pos 700; reserved_quantity = pos 100 };
}

no_alerts : count_open 1 10 [] ≤ 1
unfolding count_open
no_alerts = omega arith

next_alerts-count_open_example :
    (alerts' : List RestockAlert) × (next_alerts 20 1 10 low_balance [] ≡ some alerts')
    × ((s i : ℕ)
        → count_open s i alerts' ≡ (
            if (1 == s) && (10 == i)
            then (if is_low low_balance then 1 else 0)
            else count_open s i []))
next_alerts-count_open_example = next_alerts-count_open 20 1 10 low_balance [] no_alerts

normalize_bulk_order_quantity_least_example :
    let pack = pack_size_for_item cola.category in
    let q = normalize_bulk_order_quantity cola (pos 1250) in
    (n : ℕ) × (q ≡ n * pack)
    × (pos 1250 ≤ℤ pos q)
    × (pack ≤ q)
    × ((k : ℕ) → pos 1250 ≤ℤ pos (k * pack) → pack ≤ k * pack → n ≤ k)
normalize_bulk_order_quantity_least_example = normalize_bulk_order_quantity_least cola (pos 1250)

abbrev cola_delivery : SupplierReplenishment
cola_delivery = record {
  id = 8;
  supplier = 2;
  store = downtown;
  inventory_item = cola;
  quantity_requested = pos 1200;
  quantity_received = pos 0;
  requested_by = 1;
  recorded_by = 1;
  ordered_at = 4;
  received_at = none;
  expected_delivery_date = none;
  unit_cost = none;
  status = ReplenishmentStatus.ordered;
}

abbrev owner : User
owner = record { id = 1; role = Role.super_admin }

receive_supplier_replenishment_outcome_example :
    (Receivable cola_delivery owner none sample
      × (r' : SupplierReplenishment) × (db' : Db) × (receive_supplier_replenishment 20 cola_delivery
            owner none
            (some (pos 7))
            sample
          ≡ (ok r', db'))
      × Received cola_delivery none sample r' db')
    ⊎ ((¬ Receivable cola_delivery owner none sample)
        × (e : Error) × (receive_supplier_replenishment 20 cola_delivery owner none
              (some (pos 7))
              sample
            ≡ (err e, sample)))
receive_supplier_replenishment_outcome_example =
    receive_supplier_replenishment_outcome 20 cola_delivery owner none (some (pos 7)) sample
      (tables_in-IsSound OrderStatus.paid)
