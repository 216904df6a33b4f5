-- ===== src/Sync/Stages.antt =====
-- apps/sync/services.py, `EVENT_STAGE_ORDER`, and the text of an event's type as a code.
pub mod Codes
use codepop.Base.{Option, none, some, ℕ, ◌+◌}
use codepop.Maintenance.Models.{MachineStatus, RepairStatus}
use codepop.Maintenance.Repairs.{repair_code}
use codepop.Orders.Models.{OrderStatus}
use codepop.Sync.Models.{EventType}

abbrev pub order_stage : OrderStatus → Option ℕ
order_stage OrderStatus.payment_pending = some 1
order_stage OrderStatus.paid = some 2
order_stage OrderStatus.queued = some 3
order_stage OrderStatus.preparing = some 4
order_stage OrderStatus.ready = some 5
order_stage OrderStatus.picked_up = some 6
order_stage OrderStatus.expired = some 6
order_stage OrderStatus.refund_pending = some 7
order_stage OrderStatus.refunded = some 8
order_stage OrderStatus.canceled = some 8
order_stage _ = none

abbrev pub repair_stage : RepairStatus → Option ℕ
repair_stage RepairStatus.scheduled = none
repair_stage RepairStatus.acknowledged = some 1
repair_stage RepairStatus.in_progress = some 2
repair_stage RepairStatus.blocked = some 3
repair_stage RepairStatus.completed = some 4
repair_stage RepairStatus.closed = some 5
repair_stage RepairStatus.canceled = some 5

unfoldable pub event_stage : EventType → Option ℕ
event_stage EventType.order_created = some 0
event_stage EventType.order_failed = some 8
event_stage (EventType.order_entered s) = order_stage s
event_stage EventType.transfer_requested = some 0
event_stage EventType.transfer_approved = some 1
event_stage EventType.transfer_reserved = some 2
event_stage EventType.transfer_shipped = some 3
event_stage EventType.transfer_delivered = some 4
event_stage EventType.transfer_received = some 5
event_stage EventType.repair_created = some 0
event_stage EventType.repair_updated = some 2
event_stage (EventType.repair_entered s) = repair_stage s
event_stage _ = none

abbrev pub order_code : OrderStatus → ℕ
order_code OrderStatus.draft = 0
order_code OrderStatus.pricing_validated = 1
order_code OrderStatus.payment_pending = 2
order_code OrderStatus.paid = 3
order_code OrderStatus.queued = 4
order_code OrderStatus.preparing = 5
order_code OrderStatus.ready = 6
order_code OrderStatus.picked_up = 7
order_code OrderStatus.refund_pending = 8
order_code OrderStatus.refunded = 9
order_code OrderStatus.canceled = 10
order_code OrderStatus.expired = 11

abbrev pub machine_code : MachineStatus → ℕ
machine_code MachineStatus.normal = 0
machine_code MachineStatus.repair_start = 1
machine_code MachineStatus.repair_end = 2
machine_code MachineStatus.schedule_service = 3
machine_code MachineStatus.warning = 4
machine_code MachineStatus.error = 5
machine_code MachineStatus.out_of_order = 6

-- Different texts have different codes.
unfoldable pub event_code : EventType → ℕ
event_code EventType.order_created = 20
event_code EventType.order_failed = 21
event_code (EventType.order_entered s) = order_code s
event_code EventType.transfer_requested = 22
event_code EventType.transfer_approved = 23
event_code EventType.transfer_reserved = 24
event_code EventType.transfer_shipped = 25
event_code EventType.transfer_delivered = 26
event_code EventType.transfer_received = 27
event_code EventType.replenishment_ordered = 28
event_code EventType.replenishment_received = 29
event_code EventType.replenishment_canceled = 30
event_code EventType.repair_created = 31
event_code EventType.repair_updated = 32
event_code (EventType.repair_entered s) = 40 + repair_code s
event_code (EventType.machine_entered s) = 50 + machine_code s
