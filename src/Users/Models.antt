-- ===== src/Users/Models.antt =====
-- apps/users/models.py: roles, users and their assignments to stores and regions.
use codepop.Base.{Bool, List, false, true, ℕ}

pub data Role : Type 0 where
  account_user manager admin logistics_manager repair_staff super_admin : Role

pub record User : Type 0 where
  pub id : ℕ
  pub role : Role

-- `request.user`: an anonymous visitor, for whom `is_authenticated` is false, or a user.
pub data Requester : Type 0 where
  anonymous : Requester
  signed_in : User → Requester

-- The rows (user, store) of `UserStoreAssignment` and (user, region) of `UserRegionAssignment`.
pub record Grants : Type 0 where
  pub store_assignments : List (ℕ × ℕ)
  pub region_assignments : List (ℕ × ℕ)

abbrev pub is_super_admin : Role → Bool
is_super_admin Role.super_admin = true
is_super_admin _ = false

abbrev pub is_logistics_manager : Role → Bool
is_logistics_manager Role.logistics_manager = true
is_logistics_manager _ = false

abbrev pub is_repair_staff : Role → Bool
is_repair_staff Role.repair_staff = true
is_repair_staff _ = false

abbrev pub is_account_user : Role → Bool
is_account_user Role.account_user = true
is_account_user _ = false

-- `role in {MANAGER, ADMIN}`
abbrev pub is_manager_or_admin : Role → Bool
is_manager_or_admin Role.manager = true
is_manager_or_admin Role.admin = true
is_manager_or_admin _ = false
