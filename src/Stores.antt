-- ===== src/Stores.antt =====
-- apps/stores/models.py and the hub of apps/supply_hubs/models.py: the fields that the services
-- read. Keys (UUIDs, codes) are only compared, so they are naturals; a foreign key is the row.
use codepop.Base.{ℕ}
use codepop.Base.Int.{ℤ}

pub record Region : Type 0 where
  pub id : ℕ
  pub code : ℕ

-- Degrees with six decimals, in millionths.
pub record Coordinates : Type 0 where
  pub latitude : ℤ
  pub longitude : ℤ

pub record Store : Type 0 where
  pub id : ℕ
  pub store_code : ℕ
  pub region : Region
  pub place : Coordinates

pub record SupplyHub : Type 0 where
  pub id : ℕ
  pub region : Region
  pub place : Coordinates
