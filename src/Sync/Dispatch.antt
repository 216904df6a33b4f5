-- ===== src/Sync/Dispatch.antt =====
-- apps/sync/services.py: the notifications that an outbox event sends. `none` is the `KeyError` of an
-- event type that has no title; events of imports are left out.
use codepop.Base.{Bool, List, Option, [], if◌then◌else◌, none, some, ℕ, ◌++◌, ◌==◌, ◌||◌, ◌∷◌}
use codepop.Base.Table.{lookup}
use codepop.Db.{Db}
use codepop.Maintenance.Models.{MachineStatus, RepairStatus}
use codepop.Notifications.{
  Account, Notification, NotificationCategory, NotificationType, notify, notify_users,
  users_for_region_roles, users_for_store_roles,
}
use codepop.Orders.Models.{OrderStatus}
use codepop.Stores.{Region, Store}
use codepop.Sync.Models.{EventType}
use codepop.Transfers.Models.{Transfer}
use codepop.Users.Models.{Role, is_logistics_manager, is_manager_or_admin, is_repair_staff}

-- `[User.Role.MANAGER, User.Role.ADMIN]`, with repair staff, and logistics managers alone.
abbrev pub is_store_team : Role → Bool
is_store_team role = is_repair_staff role || is_manager_or_admin role

module _ (accounts : List Account) (db : Db) where
  abbrev pub region_managers : Region → List ℕ
  region_managers region = users_for_region_roles db.grants region is_logistics_manager accounts

  abbrev pub store_managers : Store → List ℕ
  store_managers store = users_for_store_roles db.grants store is_manager_or_admin accounts

  abbrev pub other_region_managers : Region → Region → List ℕ
  other_region_managers home region = if region.id == home.id then [] else region_managers region

  unfoldable pub source_recipients : Transfer → List ℕ
  source_recipients t =
      let home = t.destination_store.region in
      let of_store : List ℕ = elim t.source_store [
        | none ↦ []
        | some s ↦ store_managers s ++ other_region_managers home s.region
      ] in
      let of_hub : List ℕ = elim t.source_hub [
        | none ↦ []
        | some h ↦ other_region_managers home h.region
      ] in
      of_store ++ of_hub

  unfoldable pub transfer_notification_recipients : Transfer → List ℕ
  transfer_notification_recipients t =
      t.requested_by ∷ store_managers t.destination_store
      ++ (region_managers t.destination_store.region ++ source_recipients t)

  -- `not order.customer_id`
  unfoldable pub notify_order_event : NotificationCategory → ℕ → List Notification
  notify_order_event category id = elim (lookup id db.orders) [
    | none ↦ []
    | some o ↦ elim o.customer [
      | none ↦ []
      | some user ↦ notify category NotificationType.order_update user ∷ []
    ]
  ]

  unfoldable pub notify_transfer_event : NotificationCategory → ℕ → List Notification
  notify_transfer_event category id = elim (lookup id db.transfers) [
    | none ↦ []
    | some t ↦
        notify_users category NotificationType.transfer_update (transfer_notification_recipients t)
  ]

  abbrev pub machine_category : MachineStatus → Option NotificationCategory
  machine_category MachineStatus.schedule_service = some NotificationCategory.task
  machine_category MachineStatus.warning = some NotificationCategory.task
  machine_category MachineStatus.error = some NotificationCategory.alert
  machine_category MachineStatus.out_of_order = some NotificationCategory.alert
  machine_category _ = none

  unfoldable pub notify_machine_event : MachineStatus → ℕ → Option (List Notification)
  notify_machine_event status id = elim (lookup id db.machines) [
    | none ↦ some []
    | some m ↦ elim (machine_category status) [
      | none ↦ none
      | some category ↦ some (
          notify_users category NotificationType.machine_alert
            (users_for_store_roles db.grants m.store is_store_team accounts))
    ]
  ]

  unfoldable pub notify_repair_created : ℕ → List Notification
  notify_repair_created id = elim (lookup id db.repairs) [
    | none ↦ []
    | some a ↦ notify NotificationCategory.task NotificationType.repair_update a.assigned_to ∷ []
  ]

  abbrev pub repair_category : RepairStatus → Option NotificationCategory
  repair_category RepairStatus.scheduled = none
  repair_category RepairStatus.blocked = some NotificationCategory.alert
  repair_category _ = some NotificationCategory.info

  unfoldable pub notify_repair_event : Option NotificationCategory → ℕ → Option (List Notification)
  notify_repair_event category id = elim (lookup id db.repairs) [
    | none ↦ some []
    | some a ↦ elim category [
      | none ↦ none
      | some c ↦ some (notify_users c NotificationType.repair_update (store_managers a.store))
    ]
  ]

  unfoldable pub dispatch_outbox_event : EventType → ℕ → Option (List Notification)
  dispatch_outbox_event (EventType.order_entered OrderStatus.ready) id =
      some (notify_order_event NotificationCategory.task id)
  dispatch_outbox_event (EventType.order_entered OrderStatus.refunded) id =
      some (notify_order_event NotificationCategory.info id)
  dispatch_outbox_event EventType.order_failed id =
      some (notify_order_event NotificationCategory.alert id)
  dispatch_outbox_event EventType.transfer_requested id =
      some (notify_transfer_event NotificationCategory.task id)
  dispatch_outbox_event EventType.transfer_approved id =
      some (notify_transfer_event NotificationCategory.task id)
  dispatch_outbox_event EventType.transfer_reserved id =
      some (notify_transfer_event NotificationCategory.info id)
  dispatch_outbox_event EventType.transfer_shipped id =
      some (notify_transfer_event NotificationCategory.info id)
  dispatch_outbox_event EventType.transfer_delivered id =
      some (notify_transfer_event NotificationCategory.info id)
  dispatch_outbox_event EventType.transfer_received id =
      some (notify_transfer_event NotificationCategory.info id)
  dispatch_outbox_event (EventType.machine_entered status) id = notify_machine_event status id
  dispatch_outbox_event EventType.repair_created id = some (notify_repair_created id)
  dispatch_outbox_event EventType.repair_updated id =
      notify_repair_event (some NotificationCategory.info) id
  dispatch_outbox_event (EventType.repair_entered status) id =
      notify_repair_event (repair_category status) id
  dispatch_outbox_event _ id = some []
