-- ===== src/Transfers/Lifecycle.antt =====
-- apps/inventory/services.py: approval, reservation, shipping, delivery and receipt of a transfer.
-- Each reads the transfer anew under a lock, and is atomic.
pub mod Steps
pub mod Progress
pub mod Approval
use codepop.Base.{
  Bool, List, Option, [], false, if◌then◌else◌, none, not, or_else, some, true, ℕ, ◌∷◌,
}
use codepop.Base.Exec.{
  Result, atomic, err, for_each, gets, lift, ok, or_raise, pure, raise, raise_if, ◌>>=◌, ◌>>◌,
}
use codepop.Base.Int.{eqb_ℤ, ltb_ℤ, neg, pos, ℤ}
use codepop.Base.Table.{lookup}
use codepop.Db.{Call, save_transfer}
use codepop.Errors.{Error, InventoryFault}
use codepop.Inventory.Alerts.{evaluate_restock_alert}
use codepop.Inventory.Balance.{
  available_quantity, change_hub_balance, change_store_balance, get_hub_balance, get_store_balance,
}
use codepop.Inventory.Models.{InventoryItem, Quantities}
use codepop.Stores.{Store, SupplyHub}
use codepop.Sync.Events.{create_audit_log, create_outbox_event, region_scope}
use codepop.Sync.Models.{AggregateType, AuditAction, EventType}
use codepop.Transfers.Models.{LineItem, Transfer, TransferStatus}
use codepop.Transfers.Source.{is_positive}
use codepop.Users.Models.{Grants, User, signed_in}
use codepop.Users.Permissions.{
  user_can_approve_transfer, user_can_progress_transfer, user_can_receive_transfer,
}

-- `_lock_transfer`: `get(pk=…)`.
unfoldable pub lock_transfer : ℕ → Call Transfer
lock_transfer id db = elim (lookup id db.transfers) [
  | some transfer ↦ (ok transfer, db)
  | none ↦ (err Error.does_not_exist, db)
]

-- The event and the log of a change of status.
unfoldable pub announce : EventType → Option ℕ → Transfer → Call Transfer
announce event actor transfer = do
  save_transfer transfer
  create_outbox_event event AggregateType.transfer transfer.id
      (region_scope transfer.destination_store)
  create_audit_log actor (AuditAction.event event) transfer.id
  pure transfer

abbrev pub is_status : TransferStatus → TransferStatus → Bool
is_status TransferStatus.requested TransferStatus.requested = true
is_status TransferStatus.approved TransferStatus.approved = true
is_status TransferStatus.reserved TransferStatus.reserved = true
is_status TransferStatus.in_transit TransferStatus.in_transit = true
is_status TransferStatus.delivered TransferStatus.delivered = true
is_status TransferStatus.received TransferStatus.received = true
is_status TransferStatus.rejected TransferStatus.rejected = true
is_status TransferStatus.canceled TransferStatus.canceled = true
is_status _ _ = false

-- `approved_quantities.get(str(item_id), line.quantity_requested)`, on the dict as a function.
unfoldable pub approve_lines : (ℕ → Option ℤ) → List LineItem → Result Error (List LineItem)
approve_lines approved [] = ok []
approve_lines approved (line ∷ lines) =
    let rest = approve_lines approved lines in
    let quantity = or_else (approved line.inventory_item.id) line.quantity_requested in
    if not (is_positive quantity)
    then err (Error.inventory InventoryFault.approval_not_positive)
    else if ltb_ℤ line.quantity_requested quantity
    then err (Error.inventory InventoryFault.approval_exceeds_request)
    else elim rest [
      | ok items ↦ ok (record line { quantity_approved = quantity } ∷ items)
      | err e ↦ err e
    ]

unfoldable pub approve_transfer : ℕ → ℕ → User → (ℕ → Option ℤ) → Call Transfer
approve_transfer now id approver approved = atomic (do
  transfer ← lock_transfer id
  grants ← gets (λ db. db.grants)
  raise_if (not (user_can_approve_transfer grants (signed_in approver) transfer.destination_store))
      (Error.inventory InventoryFault.approval_denied)
  raise_if (not (is_status transfer.status TransferStatus.requested))
      (Error.inventory InventoryFault.not_requested)
  lines ← lift (approve_lines approved transfer.line_items)
  announce EventType.transfer_approved (some approver.id) (record transfer {
    line_items = lines;
    status = TransferStatus.approved;
    approved_by = some approver.id;
    approved_at = some now;
  }))

-- The source of a transfer: `source_store_id` if it is set, else the hub.
pub data Source : Type 0 where
  of_store : Store → Source
  of_hub : SupplyHub → Source

unfoldable pub source_of : Transfer → Option Source
source_of transfer = elim transfer.source_store [
  | some store ↦ some (Source.of_store store)
  | none ↦ elim transfer.source_hub [ some hub ↦ some (Source.of_hub hub) | none ↦ none ]
]

-- `_locked_store_balance` or `_locked_hub_balance`, a test of what is available, and the change.
unfoldable pub change_source :
    Source → InventoryItem → (Quantities → Bool) → ℤ → ℤ → Call (Unit {0})
change_source (Source.of_store store) item short on_hand_delta reserved_delta = do
  balance ← get_store_balance store.id item
  raise_if (short balance.quantities) (Error.inventory InventoryFault.oversubscribed)
  change_store_balance store.id item.id balance on_hand_delta reserved_delta
  pure tt
change_source (Source.of_hub hub) item short on_hand_delta reserved_delta = do
  balance ← get_hub_balance hub.id item
  raise_if (short balance) (Error.inventory InventoryFault.oversubscribed)
  change_hub_balance hub.id item.id balance on_hand_delta reserved_delta
  pure tt

unfoldable pub reserve_line : Source → LineItem → Call (Unit {0})
reserve_line source line = do
  raise_if (not (is_positive line.quantity_approved))
      (Error.inventory InventoryFault.reservation_not_positive)
  change_source source line.inventory_item
      (λ q. ltb_ℤ (available_quantity q) line.quantity_approved) (pos 0) line.quantity_approved

unfoldable pub reserve_transfer_inventory : ℕ → Call Transfer
reserve_transfer_inventory id = atomic (do
  transfer ← lock_transfer id
  raise_if (not (is_status transfer.status TransferStatus.approved))
      (Error.inventory InventoryFault.not_approved)
  source ← or_raise (source_of transfer) Error.does_not_exist
  for_each (reserve_line source) transfer.line_items
  announce EventType.transfer_reserved none (record transfer { status = TransferStatus.reserved }))

unfoldable pub ship_line : Source → LineItem → Call (Unit {0})
ship_line source line =
    change_source source line.inventory_item (λ q. false) (neg line.quantity_approved)
      (neg line.quantity_approved)

unfoldable pub ship_transfer : ℕ → Call Transfer
ship_transfer id = atomic (do
  transfer ← lock_transfer id
  raise_if (not (is_status transfer.status TransferStatus.reserved))
      (Error.inventory InventoryFault.not_reserved)
  source ← or_raise (source_of transfer) Error.does_not_exist
  for_each (ship_line source) transfer.line_items
  announce EventType.transfer_shipped none (record transfer { status = TransferStatus.in_transit }))

unfoldable pub deliver_transfer : ℕ → ℕ → Call Transfer
deliver_transfer now id = atomic (do
  transfer ← lock_transfer id
  raise_if (not (is_status transfer.status TransferStatus.in_transit))
      (Error.inventory InventoryFault.not_in_transit)
  announce EventType.transfer_delivered none
      (record transfer { status = TransferStatus.delivered; delivered_at = some now }))

-- `line.quantity_received or line.quantity_approved`
unfoldable pub received_quantity : LineItem → ℤ
received_quantity line =
    if eqb_ℤ line.quantity_received (pos 0) then line.quantity_approved else line.quantity_received

unfoldable pub receive_line : ℕ → Store → LineItem → Call (Unit {0})
receive_line now destination line = do
  raise_if (not (is_positive (received_quantity line)))
      (Error.inventory InventoryFault.receipt_not_positive)
  raise_if (ltb_ℤ line.quantity_approved (received_quantity line))
      (Error.inventory InventoryFault.receipt_exceeds_approval)
  balance ← get_store_balance destination.id line.inventory_item
  changed ←
      change_store_balance destination.id line.inventory_item.id balance (received_quantity line)
        (pos 0)
  evaluate_restock_alert now destination.id line.inventory_item.id changed

unfoldable pub receive_transfer : ℕ → ℕ → Option ℕ → Call Transfer
receive_transfer now id actor = atomic (do
  transfer ← lock_transfer id
  raise_if (not (is_status transfer.status TransferStatus.delivered))
      (Error.inventory InventoryFault.not_delivered)
  for_each (receive_line now transfer.destination_store) transfer.line_items
  announce EventType.transfer_received actor
      (record transfer { status = TransferStatus.received; received_at = some now }))

-- `action`; `unsupported` is any other text.
pub data TransferAction : Type 0 where
  approve reserve ship deliver receive unsupported : TransferAction

abbrev pub may_progress : Grants → User → Transfer → Bool
may_progress grants actor transfer =
    user_can_progress_transfer grants (signed_in actor) transfer.destination_store
      transfer.source_store transfer.source_hub

abbrev pub may_receive : Grants → User → Transfer → Bool
may_receive grants actor transfer =
    user_can_receive_transfer grants (signed_in actor) transfer.destination_store
      transfer.source_store transfer.source_hub

unfoldable pub progress_transfer : ℕ → Transfer → User → TransferAction → Call Transfer
progress_transfer now transfer actor TransferAction.approve =
    approve_transfer now transfer.id actor (λ item. none)
progress_transfer now transfer actor TransferAction.reserve = do
  grants ← gets (λ db. db.grants)
  raise_if (not (may_progress grants actor transfer))
      (Error.inventory InventoryFault.progress_denied)
  reserve_transfer_inventory transfer.id
progress_transfer now transfer actor TransferAction.ship = do
  grants ← gets (λ db. db.grants)
  raise_if (not (may_progress grants actor transfer))
      (Error.inventory InventoryFault.progress_denied)
  ship_transfer transfer.id
progress_transfer now transfer actor TransferAction.deliver = do
  grants ← gets (λ db. db.grants)
  raise_if (not (may_progress grants actor transfer))
      (Error.inventory InventoryFault.progress_denied)
  deliver_transfer now transfer.id
progress_transfer now transfer actor TransferAction.receive = do
  grants ← gets (λ db. db.grants)
  raise_if (not (may_receive grants actor transfer)) (Error.inventory InventoryFault.receive_denied)
  receive_transfer now transfer.id (some actor.id)
progress_transfer now transfer actor TransferAction.unsupported =
    raise (Error.inventory InventoryFault.action_unknown)
