-- ===== src/Inventory/Replenish.antt =====
-- apps/inventory/services.py: supplier orders, supply schedules and manual adjustments. The key of
-- a new supplier order, a fresh UUID in the code, is the argument `id`; notes are left out.
pub mod Receipt
use codepop.Base.{Bool, Option, false, if◌then◌else◌, none, not, some, true, ℕ, ◌==◌, ◌||◌}
use codepop.Base.Exec.{atomic, gets, ok, pure, raise_if, ◌>>=◌, ◌>>◌}
use codepop.Base.Int.{eqb_ℤ, ltb_ℤ, pos, ℤ}
use codepop.Base.Table.{insert, insert2}
use codepop.Db.{Call}
use codepop.Errors.{Error, InventoryFault}
use codepop.Inventory.Alerts.{evaluate_restock_alert}
use codepop.Inventory.Balance.{change_store_balance, get_store_balance}
use codepop.Inventory.Bulk.{normalize_bulk_order_quantity, recommended_bulk_quantity}
use codepop.Inventory.Models.{
  InventoryItem, LocalSupplier, RecommendedSource, ReplenishmentStatus, ScheduleStatus,
  StoreBalance, SupplierReplenishment, SupplySchedule,
}
use codepop.Stores.{Store}
use codepop.Sync.Events.{create_audit_log, create_outbox_event, region_scope}
use codepop.Sync.Models.{AggregateType, AuditAction, EventType}
use codepop.Users.Models.{User, is_logistics_manager, is_super_admin, signed_in}
use codepop.Users.Permissions.{user_can_manage_supplier_order}

abbrev pub is_ordered : ReplenishmentStatus → Bool
is_ordered ReplenishmentStatus.ordered = true
is_ordered _ = false

unfoldable pub save_replenishment : SupplierReplenishment → Call (Unit {0})
save_replenishment r db = (ok tt, record db { replenishments = insert r.id r db.replenishments })

-- The save, the event and the log that end each of the three services.
unfoldable pub announce_replenishment :
    EventType → User → SupplierReplenishment → Call SupplierReplenishment
announce_replenishment event actor r = do
  save_replenishment r
  create_outbox_event event AggregateType.replenishment r.id (region_scope r.store)
  create_audit_log (some actor.id) (AuditAction.event event) r.id
  pure r

-- `supplier.service_region_id and supplier.service_region_id != store.region_id`
abbrev pub serves_elsewhere : Option ℕ → ℕ → Bool
serves_elsewhere none region = false
serves_elsewhere (some r) region = not (r == region)

unfoldable pub create_supplier_replenishment_order :
    ℕ
    → ℕ
    → User
    → LocalSupplier
    → Store
    → InventoryItem
    → ℤ
    → Option ℕ
    → Option ℤ
    → Call SupplierReplenishment
create_supplier_replenishment_order now id actor supplier store item requested expected unit_cost =
    atomic (do
      grants ← gets (λ db. db.grants)
      raise_if (not (user_can_manage_supplier_order grants (signed_in actor) store))
          (Error.inventory InventoryFault.supplier_denied)
      raise_if (serves_elsewhere supplier.service_region store.region.id)
          (Error.inventory InventoryFault.supplier_region)
      announce_replenishment EventType.replenishment_ordered actor (record {
        id = id;
        supplier = supplier.id;
        store = store;
        inventory_item = item;
        quantity_requested = pos (normalize_bulk_order_quantity item requested);
        quantity_received = pos 0;
        requested_by = actor.id;
        recorded_by = actor.id;
        ordered_at = now;
        received_at = none;
        expected_delivery_date = expected;
        unit_cost = unit_cost;
        status = ReplenishmentStatus.ordered;
      }))

-- `quantity_received or replenishment.quantity_requested`
unfoldable pub quantity_to_receive : Option ℤ → SupplierReplenishment → ℤ
quantity_to_receive none r = r.quantity_requested
quantity_to_receive (some q) r = if eqb_ℤ q (pos 0) then r.quantity_requested else q

-- `replenishment` is the caller's object, which the code does not read anew.
unfoldable pub receive_supplier_replenishment :
    ℕ → SupplierReplenishment → User → Option ℤ → Option ℤ → Call SupplierReplenishment
receive_supplier_replenishment now r actor received unit_cost = atomic (do
  grants ← gets (λ db. db.grants)
  raise_if (not (user_can_manage_supplier_order grants (signed_in actor) r.store))
      (Error.inventory InventoryFault.supplier_denied)
  raise_if (not (is_ordered r.status)) (Error.inventory InventoryFault.not_ordered)
  raise_if (not (ltb_ℤ (pos 0) (quantity_to_receive received r)))
      (Error.inventory InventoryFault.receipt_not_positive)
  balance ← get_store_balance r.store.id r.inventory_item
  changed ←
      change_store_balance r.store.id r.inventory_item.id balance (quantity_to_receive received r)
        (pos 0)
  evaluate_restock_alert now r.store.id r.inventory_item.id changed
  announce_replenishment EventType.replenishment_received actor (record r {
    quantity_received = quantity_to_receive received r;
    received_at = some now;
    recorded_by = actor.id;
    status = ReplenishmentStatus.received;
    unit_cost = elim unit_cost [ none ↦ r.unit_cost | some c ↦ some c ];
  }))

unfoldable pub cancel_supplier_replenishment :
    SupplierReplenishment → User → Call SupplierReplenishment
cancel_supplier_replenishment r actor = atomic (do
  grants ← gets (λ db. db.grants)
  raise_if (not (user_can_manage_supplier_order grants (signed_in actor) r.store))
      (Error.inventory InventoryFault.supplier_denied)
  raise_if (not (is_ordered r.status)) (Error.inventory InventoryFault.not_ordered)
  announce_replenishment EventType.replenishment_canceled actor
      (record r { status = ReplenishmentStatus.canceled }))

unfoldable pub save_schedule : ℕ → ℕ → SupplySchedule → Call SupplySchedule
save_schedule store item schedule db =
    (ok schedule, record db { schedules = insert2 store item schedule db.schedules })

-- `approver.role in {LOGISTICS_MANAGER, SUPER_ADMIN}`
unfoldable pub approve_supply_schedule : ℕ → ℕ → SupplySchedule → User → Call SupplySchedule
approve_supply_schedule store item schedule approver = do
  raise_if (not (is_logistics_manager approver.role || is_super_admin approver.role))
      (Error.inventory InventoryFault.schedule_denied)
  save_schedule store item
      (record schedule { status = ScheduleStatus.approved; approved_by = some approver.id })

-- `update_or_create(store=…, inventory_item=…, defaults=…)`; the defaults set every field.
unfoldable pub draft_supply_schedule_from_usage :
    Store → InventoryItem → ℤ → RecommendedSource → Call SupplySchedule
draft_supply_schedule_from_usage store item quantity_used source_type =
    save_schedule store.id item.id (record {
      recommended_source_type = source_type;
      recommended_quantity = pos (recommended_bulk_quantity item quantity_used);
      recommended_frequency_days = if item.is_perishable then 21 else 30;
      created_by_ai = true;
      approved_by = none;
      status = ScheduleStatus.draft;
    })

-- Not atomic in the code; `balance` is the caller's object.
unfoldable pub adjust_store_inventory : ℕ → ℕ → ℕ → StoreBalance → ℤ → Option ℕ → Call StoreBalance
adjust_store_inventory now store item balance delta actor = do
  changed ← change_store_balance store item balance delta (pos 0)
  evaluate_restock_alert now store item changed
  create_audit_log actor AuditAction.inventory_adjusted item
  pure changed
