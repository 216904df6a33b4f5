-- ===== src/Sync/Stages/Codes.antt =====
-- The codes that stand for the texts of event types, apps/sync/services.py, tell the types apart.
-- The event types under their codes.
use codepop.Base.{List, [], ap, refl, some, sym, ℕ, ◌∙◌, ◌∷◌, ◌≡◌}
use codepop.Base.Table.{lookup}
use codepop.Maintenance.Models.{MachineStatus, RepairStatus}
use codepop.Orders.Models.{OrderStatus}
use codepop.Sync.Models.{EventType}
use codepop.Sync.Stages.{event_code}

abbrev coded_types : List (ℕ × EventType)
coded_types =
    (20, EventType.order_created)
    ∷ (21, EventType.order_failed)
    ∷ (22, EventType.transfer_requested)
    ∷ (23, EventType.transfer_approved)
    ∷ (24, EventType.transfer_reserved)
    ∷ (25, EventType.transfer_shipped)
    ∷ (26, EventType.transfer_delivered)
    ∷ (27, EventType.transfer_received)
    ∷ (28, EventType.replenishment_ordered)
    ∷ (29, EventType.replenishment_received)
    ∷ (30, EventType.replenishment_canceled)
    ∷ (31, EventType.repair_created)
    ∷ (32, EventType.repair_updated)
    ∷ (0, EventType.order_entered OrderStatus.draft)
    ∷ (1, EventType.order_entered OrderStatus.pricing_validated)
    ∷ (2, EventType.order_entered OrderStatus.payment_pending)
    ∷ (3, EventType.order_entered OrderStatus.paid)
    ∷ (4, EventType.order_entered OrderStatus.queued)
    ∷ (5, EventType.order_entered OrderStatus.preparing)
    ∷ (6, EventType.order_entered OrderStatus.ready)
    ∷ (7, EventType.order_entered OrderStatus.picked_up)
    ∷ (8, EventType.order_entered OrderStatus.refund_pending)
    ∷ (9, EventType.order_entered OrderStatus.refunded)
    ∷ (10, EventType.order_entered OrderStatus.canceled)
    ∷ (11, EventType.order_entered OrderStatus.expired)
    ∷ (40, EventType.repair_entered RepairStatus.scheduled)
    ∷ (41, EventType.repair_entered RepairStatus.acknowledged)
    ∷ (42, EventType.repair_entered RepairStatus.in_progress)
    ∷ (43, EventType.repair_entered RepairStatus.blocked)
    ∷ (44, EventType.repair_entered RepairStatus.completed)
    ∷ (45, EventType.repair_entered RepairStatus.closed)
    ∷ (46, EventType.repair_entered RepairStatus.canceled)
    ∷ (50, EventType.machine_entered MachineStatus.normal)
    ∷ (51, EventType.machine_entered MachineStatus.repair_start)
    ∷ (52, EventType.machine_entered MachineStatus.repair_end)
    ∷ (53, EventType.machine_entered MachineStatus.schedule_service)
    ∷ (54, EventType.machine_entered MachineStatus.warning)
    ∷ (55, EventType.machine_entered MachineStatus.error)
    ∷ (56, EventType.machine_entered MachineStatus.out_of_order)
    ∷ []

lookup-event_code : (t : EventType) → lookup (event_code t) coded_types ≡ some t
unfolding lookup event_code
lookup-event_code EventType.order_created = refl
lookup-event_code EventType.order_failed = refl
lookup-event_code EventType.transfer_requested = refl
lookup-event_code EventType.transfer_approved = refl
lookup-event_code EventType.transfer_reserved = refl
lookup-event_code EventType.transfer_shipped = refl
lookup-event_code EventType.transfer_delivered = refl
lookup-event_code EventType.transfer_received = refl
lookup-event_code EventType.replenishment_ordered = refl
lookup-event_code EventType.replenishment_received = refl
lookup-event_code EventType.replenishment_canceled = refl
lookup-event_code EventType.repair_created = refl
lookup-event_code EventType.repair_updated = refl
lookup-event_code (EventType.order_entered OrderStatus.draft) = refl
lookup-event_code (EventType.order_entered OrderStatus.pricing_validated) = refl
lookup-event_code (EventType.order_entered OrderStatus.payment_pending) = refl
lookup-event_code (EventType.order_entered OrderStatus.paid) = refl
lookup-event_code (EventType.order_entered OrderStatus.queued) = refl
lookup-event_code (EventType.order_entered OrderStatus.preparing) = refl
lookup-event_code (EventType.order_entered OrderStatus.ready) = refl
lookup-event_code (EventType.order_entered OrderStatus.picked_up) = refl
lookup-event_code (EventType.order_entered OrderStatus.refund_pending) = refl
lookup-event_code (EventType.order_entered OrderStatus.refunded) = refl
lookup-event_code (EventType.order_entered OrderStatus.canceled) = refl
lookup-event_code (EventType.order_entered OrderStatus.expired) = refl
lookup-event_code (EventType.repair_entered RepairStatus.scheduled) = refl
lookup-event_code (EventType.repair_entered RepairStatus.acknowledged) = refl
lookup-event_code (EventType.repair_entered RepairStatus.in_progress) = refl
lookup-event_code (EventType.repair_entered RepairStatus.blocked) = refl
lookup-event_code (EventType.repair_entered RepairStatus.completed) = refl
lookup-event_code (EventType.repair_entered RepairStatus.closed) = refl
lookup-event_code (EventType.repair_entered RepairStatus.canceled) = refl
lookup-event_code (EventType.machine_entered MachineStatus.normal) = refl
lookup-event_code (EventType.machine_entered MachineStatus.repair_start) = refl
lookup-event_code (EventType.machine_entered MachineStatus.repair_end) = refl
lookup-event_code (EventType.machine_entered MachineStatus.schedule_service) = refl
lookup-event_code (EventType.machine_entered MachineStatus.warning) = refl
lookup-event_code (EventType.machine_entered MachineStatus.error) = refl
lookup-event_code (EventType.machine_entered MachineStatus.out_of_order) = refl

pub event_code-injective : (s t : EventType) → event_code s ≡ event_code t → s ≡ t
event_code-injective s t e =
    let p : some s ≡ some t =
      sym (lookup-event_code s) ∙ ap (λ c. lookup c coded_types) e ∙ lookup-event_code t in
    cc
