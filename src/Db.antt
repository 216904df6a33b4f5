-- ===== src/Db.antt =====
-- The tables that the services share.
use codepop.Base.{List, ℕ}
use codepop.Base.Exec.{Exec, ok}
use codepop.Base.Table.{insert}
use codepop.Errors.{Error}
use codepop.Inventory.Models.{
  InventoryItem, Quantities, RestockAlert, StoreBalance, SupplierReplenishment, SupplySchedule,
}
use codepop.Maintenance.Models.{
  Machine, MachineStatusEvent, MaintenancePolicy, RepairAssignment, StaffMember,
}
use codepop.Orders.Models.{Order}
use codepop.Payments.Models.{PaymentTransaction, RevenueEntry}
use codepop.Stores.{Store, SupplyHub}
use codepop.Sync.Models.{AuditLog, OutboxEvent}
use codepop.Transfers.Models.{Transfer}
use codepop.Users.Models.{Grants}

pub record Db : Type 0 where
  pub grants : Grants
  pub stores : List (ℕ × Store)
  pub hubs : List (ℕ × SupplyHub)
  -- `InventoryItem`, by SKU.
  pub items : List (ℕ × InventoryItem)
  -- By store or hub, and item.
  pub store_balances : List (ℕ × ℕ × StoreBalance)
  pub hub_balances : List (ℕ × ℕ × Quantities)
  pub schedules : List (ℕ × ℕ × SupplySchedule)
  pub alerts : List RestockAlert
  pub transfers : List (ℕ × Transfer)
  pub replenishments : List (ℕ × SupplierReplenishment)
  pub orders : List (ℕ × Order)
  -- By order: the lookup code of its guest, and its payment, both one-to-one.
  pub guest_contacts : List (ℕ × ℕ)
  pub payments : List (ℕ × PaymentTransaction)
  pub revenue : List RevenueEntry
  pub staff : List StaffMember
  pub machines : List (ℕ × Machine)
  -- Newest first.
  pub status_events : List MachineStatusEvent
  pub repairs : List (ℕ × RepairAssignment)
  pub policies : List MaintenancePolicy
  -- The events that the services recorded here, newest first; those taken in from peers, which share
  -- the table in the code, are rows of a `Station`.
  pub outbox : List OutboxEvent
  pub audit : List AuditLog

-- A service call over the tables.
abbrev pub Call : Type 0 → Type 0
Call A = Exec Db Error A

-- `transfer.save()`, `order.save()`, `payment.save()`
unfoldable pub save_transfer : Transfer → Call (Unit {0})
save_transfer t db = (ok tt, record db { transfers = insert t.id t db.transfers })

unfoldable pub save_order : Order → Call (Unit {0})
save_order o db = (ok tt, record db { orders = insert o.id o db.orders })

unfoldable pub save_payment : ℕ → PaymentTransaction → Call (Unit {0})
save_payment order p db = (ok tt, record db { payments = insert order p db.payments })
