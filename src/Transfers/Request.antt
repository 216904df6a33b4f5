-- ===== src/Transfers/Request.antt =====
-- apps/inventory/services.py, `create_transfer_request` and `request_transfer`. The key of the new
-- transfer, a fresh UUID in the code, is the argument `id`; notes are left out.
use codepop.Base.{List, Option, [], if◌then◌else◌, none, not, some, ℕ, ◌∷◌}
use codepop.Base.Exec.{Result, atomic, err, gets, lift, ok, pure, raise, raise_if, ◌>>=◌, ◌>>◌}
use codepop.Base.Int.{ltb_ℤ, pos, ℤ}
use codepop.Db.{Call, Db, save_transfer}
use codepop.Errors.{Error, InventoryFault}
use codepop.Inventory.Balance.{available_quantity, get_hub_balance, get_store_balance}
use codepop.Inventory.Models.{InventoryItem, Quantities}
use codepop.Stores.{Coordinates, Store, SupplyHub}
use codepop.Sync.Events.{create_audit_log, create_outbox_event, region_scope}
use codepop.Sync.Models.{AggregateType, AuditAction, EventType}
use codepop.Transfers.Models.{
  LineItem, SourceKind, SourceType, Transfer, TransferScope, TransferStatus,
}
use codepop.Transfers.Source.{
  SourceChoice, choose_internal_transfer_source, determine_transfer_scope, is_positive,
}
use codepop.Users.Models.{User, signed_in}
use codepop.Users.Permissions.{user_can_request_transfer}

abbrev pub new_line_item : InventoryItem × ℤ → LineItem
new_line_item (item, quantity) = record {
  inventory_item = item;
  quantity_requested = quantity;
  quantity_approved = pos 0;
  quantity_received = pos 0;
}

-- The loop that creates the line items, each with a positive quantity.
unfoldable pub new_line_items : List (InventoryItem × ℤ) → Result Error (List LineItem)
new_line_items [] = ok []
new_line_items (line ∷ lines) =
    let rest = new_line_items lines in
    if not (is_positive line.1)
    then err (Error.inventory InventoryFault.not_positive)
    else elim rest [ ok items ↦ ok (new_line_item line ∷ items) | err e ↦ err e ]

abbrev pub source_type_of : Option Store → SourceType
source_type_of (some store) = SourceType.store
source_type_of none = SourceType.hub

module _ (miles : Coordinates → Coordinates → ℤ) where
  unfoldable pub new_transfer :
      ℕ
      → User
      → Store
      → Option Store
      → Option SupplyHub
      → TransferScope × ℤ
      → List LineItem
      → Transfer
  new_transfer id requested_by destination source_store source_hub (scope, distance) lines =
      record {
        id = id;
        source_type = source_type_of source_store;
        source_store = source_store;
        source_hub = source_hub;
        destination_store = destination;
        requested_by = requested_by.id;
        approved_by = none;
        status = TransferStatus.requested;
        transfer_scope = scope;
        distance_miles = distance;
        approved_at = none;
        delivered_at = none;
        received_at = none;
        line_items = lines;
      }

  unfoldable pub request_transfer :
      ℕ → User → Store → List (InventoryItem × ℤ) → Option Store → Option SupplyHub → Call Transfer
  request_transfer id requested_by destination lines source_store source_hub = atomic (do
    scope ← lift (determine_transfer_scope miles source_store source_hub destination)
    items ← lift (new_line_items lines)
    let transfer = new_transfer id requested_by destination source_store source_hub scope items
    save_transfer transfer
    create_outbox_event EventType.transfer_requested AggregateType.transfer id
        (region_scope destination)
    create_audit_log (some requested_by.id) (AuditAction.event EventType.transfer_requested) id
    pure transfer)

  -- The source store and hub, by the kind of source that is asked for.
  unfoldable pub pick_source :
      Store
      → InventoryItem
      → ℤ
      → SourceKind
      → Option Store
      → Option SupplyHub
      → Db
      → Result Error (Option Store × Option SupplyHub)
  pick_source destination item quantity SourceKind.automatic source_store source_hub db =
      elim (choose_internal_transfer_source miles destination item quantity db) [
        | ok (SourceChoice.from_store store) ↦ ok (some store, none)
        | ok (SourceChoice.from_hub hub) ↦ ok (none, some hub)
        | err e ↦ err e
      ]
  pick_source destination item quantity SourceKind.store none source_hub db =
      err (Error.inventory InventoryFault.source_store_missing)
  pick_source destination item quantity SourceKind.store (some store) source_hub db =
      ok (some store, source_hub)
  pick_source destination item quantity SourceKind.hub source_store none db =
      err (Error.inventory InventoryFault.source_hub_missing)
  pick_source destination item quantity SourceKind.hub source_store (some hub) db =
      ok (source_store, some hub)
  pick_source destination item quantity SourceKind.unsupported source_store source_hub db =
      err (Error.inventory InventoryFault.source_kind_unknown)

  -- The balance of the source: of the store, if there is one, else of the hub.
  unfoldable pub get_source_balance :
      Option Store × Option SupplyHub → InventoryItem → Call Quantities
  get_source_balance (some store, hub) item = do
    balance ← get_store_balance store.id item
    pure balance.quantities
  get_source_balance (none, some hub) item = get_hub_balance hub.id item
  get_source_balance (none, none) item = raise Error.does_not_exist

  unfoldable pub create_transfer_request :
      ℕ
      → User
      → Store
      → InventoryItem
      → ℤ
      → SourceKind
      → Option Store
      → Option SupplyHub
      → Call Transfer
  create_transfer_request id actor destination item quantity kind source_store source_hub = do
    grants ← gets (λ db. db.grants)
    raise_if (not (user_can_request_transfer grants (signed_in actor) destination))
        (Error.inventory InventoryFault.request_denied)
    raise_if (not (is_positive quantity)) (Error.inventory InventoryFault.not_positive)
    choice ← gets (pick_source destination item quantity kind source_store source_hub)
    source ← lift choice
    balance ← get_source_balance source item
    raise_if (ltb_ℤ (available_quantity balance) quantity)
        (Error.inventory InventoryFault.source_short)
    request_transfer id actor destination ((item, quantity) ∷ []) source.0 source.1
