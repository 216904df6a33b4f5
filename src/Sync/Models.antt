-- ===== src/Sync/Models.antt =====
-- apps/sync/models.py: outbox events and audit logs. An event type or an action, a text in the
-- code, is a constructor; the JSON payloads and snapshots are left out.
use codepop.Base.{Option, ℕ}
use codepop.Maintenance.Models.{MachineStatus, RepairStatus}
use codepop.Orders.Models.{OrderStatus}

pub data AggregateType : Type 0 where
  order transfer replenishment machine repair_assignment : AggregateType

-- `order_entered s` is "order.{s}", `machine_entered s` is "machine.{s}", and `repair_entered s` is
-- the event of `REPAIR_STATUS_EVENT_TYPES`.
pub data EventType : Type 0 where
  order_created order_failed : EventType
  order_entered : OrderStatus → EventType
  transfer_requested transfer_approved transfer_reserved transfer_shipped : EventType
  transfer_delivered transfer_received : EventType
  replenishment_ordered replenishment_received replenishment_canceled : EventType
  machine_entered : MachineStatus → EventType
  repair_created repair_updated : EventType
  repair_entered : RepairStatus → EventType

pub record SourceScope : Type 0 where
  pub store_id : Option ℕ
  pub region_code : Option ℕ

pub record OutboxEvent : Type 0 where
  pub event_type : EventType
  pub aggregate_type : AggregateType
  pub aggregate_id : ℕ
  pub entity_version : ℕ
  pub source_scope : SourceScope

pub data AuditAction : Type 0 where
  event : EventType → AuditAction
  order_transition : OrderStatus → AuditAction
  payment_succeeded payment_failed payment_refunded inventory_adjusted : AuditAction
  machine_status_recorded repair_reprioritized : AuditAction

pub record AuditLog : Type 0 where
  pub actor : Option ℕ
  pub action : AuditAction
  pub entity_id : ℕ
