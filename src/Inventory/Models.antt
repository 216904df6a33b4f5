-- ===== src/Inventory/Models.antt =====
-- apps/inventory/models.py: items, balances, restock alerts and supplier orders.
use codepop.Base.{Bool, Option, ℕ}
use codepop.Base.Int.{ℤ}
use codepop.Stores.{Store}

pub data Category : Type 0 where
  soda syrup add_in dairy cups lids ice_cream cleaning equipment packaging other : Category

pub record InventoryItem : Type 0 where
  pub id : ℕ
  pub sku : ℕ
  pub category : Category
  pub is_perishable : Bool
  pub default_low_stock_threshold : ℤ

-- What a store balance and a hub balance share.
pub record Quantities : Type 0 where
  pub on_hand_quantity : ℤ
  pub reserved_quantity : ℤ

pub record StoreBalance : Type 0 where
  pub quantities : Quantities
  pub reorder_threshold : ℤ

pub data Severity : Type 0 where
  info warning critical : Severity

pub data AlertStatus : Type 0 where
  opened acknowledged resolved : AlertStatus

pub record RestockAlert : Type 0 where
  pub store : ℕ
  pub item : ℕ
  pub severity : Severity
  pub status : AlertStatus
  pub resolved_at : Option ℕ

pub record LocalSupplier : Type 0 where
  pub id : ℕ
  pub service_region : Option ℕ

pub data ReplenishmentStatus : Type 0 where
  ordered received canceled : ReplenishmentStatus

pub record SupplierReplenishment : Type 0 where
  pub id : ℕ
  pub supplier : ℕ
  pub store : Store
  pub inventory_item : InventoryItem
  pub quantity_requested : ℤ
  pub quantity_received : ℤ
  pub requested_by : ℕ
  pub recorded_by : ℕ
  pub ordered_at : ℕ
  pub received_at : Option ℕ
  pub expected_delivery_date : Option ℕ
  pub unit_cost : Option ℤ
  pub status : ReplenishmentStatus

pub data ScheduleStatus : Type 0 where
  draft approved inactive : ScheduleStatus

pub data RecommendedSource : Type 0 where
  hub local_supplier local_store : RecommendedSource

pub record SupplySchedule : Type 0 where
  pub recommended_source_type : RecommendedSource
  pub recommended_quantity : ℤ
  pub recommended_frequency_days : ℕ
  pub created_by_ai : Bool
  pub approved_by : Option ℕ
  pub status : ScheduleStatus
