-- ===== src/Transfers/Models.antt =====
-- apps/supply_hubs/models.py: transfers between stores and hubs. The line items of a transfer, a
-- table of their own in the code, stand in its row.
use codepop.Base.{ℕ, Option, List}
use codepop.Base.Int.{ℤ}
use codepop.Stores.{Store, SupplyHub}
use codepop.Inventory.Models.{InventoryItem}

pub data TransferStatus : Type 0 where
  requested approved reserved in_transit delivered received rejected canceled : TransferStatus

pub data TransferScope : Type 0 where
  same_region_store hub_to_store cross_region_hub : TransferScope

pub data SourceType : Type 0 where
  store hub : SourceType

pub record LineItem : Type 0 where
  pub inventory_item : InventoryItem
  pub quantity_requested : ℤ
  pub quantity_approved : ℤ
  pub quantity_received : ℤ

pub record Transfer : Type 0 where
  pub id : ℕ
  pub source_type : SourceType
  pub source_store : Option Store
  pub source_hub : Option SupplyHub
  pub destination_store : Store
  pub requested_by : ℕ
  pub approved_by : Option ℕ
  pub status : TransferStatus
  pub transfer_scope : TransferScope
  pub distance_miles : ℤ
  pub approved_at : Option ℕ
  pub delivered_at : Option ℕ
  pub received_at : Option ℕ
  pub line_items : List LineItem

-- The argument `source_kind` of a request; `unsupported` is any other text.
pub data SourceKind : Type 0 where
  automatic store hub unsupported : SourceKind
