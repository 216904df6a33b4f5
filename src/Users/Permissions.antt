-- ===== src/Users/Permissions.antt =====
-- apps/users/permissions.py: who may do what, from the role and the assignments.
use codepop.Base.{
  Bool, List, Option, any, false, if◌then◌else◌, none, not, some, true, ℕ, ◌&&◌, ◌==◌, ◌||◌,
}
use codepop.Stores.{Region, Store, SupplyHub}
use codepop.Users.Models.{
  Grants, Requester, Role, anonymous, is_account_user, is_logistics_manager, is_manager_or_admin,
  is_repair_staff, is_super_admin, signed_in,
}

-- `objects.filter(user=user, store=store).exists()`
abbrev pub is_assigned : ℕ → ℕ → List (ℕ × ℕ) → Bool
is_assigned user place rows = any (λ row. (row.0 == user) && (row.1 == place)) rows

unfoldable pub user_has_global_access : Requester → Bool
user_has_global_access anonymous = false
user_has_global_access (signed_in u) = is_super_admin u.role

unfoldable pub user_can_use_customer_ordering : Requester → Bool
user_can_use_customer_ordering anonymous = true
user_can_use_customer_ordering (signed_in u) = is_account_user u.role

-- `user_can_view_payments_workspace`
unfoldable pub user_can_view_payments_workspace : Requester → Bool
user_can_view_payments_workspace anonymous = false
user_can_view_payments_workspace (signed_in u) = elim u.role [
  | Role.manager ↦ true
  | Role.super_admin ↦ true
  | _ ↦ false
]

module _ (g : Grants) where
  unfoldable pub user_has_store_scope : Requester → Store → Bool
  unfolding user_has_global_access
  user_has_store_scope anonymous store = false
  user_has_store_scope (signed_in u) store =
      if user_has_global_access (signed_in u)
      then true
      else is_assigned u.id store.id g.store_assignments

  unfoldable pub user_has_region_scope : Requester → Region → Bool
  unfolding user_has_global_access
  user_has_region_scope anonymous region = false
  user_has_region_scope (signed_in u) region =
      if user_has_global_access (signed_in u)
      then true
      else is_assigned u.id region.id g.region_assignments

  unfoldable pub user_can_view_region : Requester → Region → Bool
  unfolding user_has_region_scope
  user_can_view_region user region = user_has_region_scope user region

  unfoldable pub user_can_manage_store : Requester → Store → Bool
  unfolding user_has_global_access
  user_can_manage_store anonymous store = false
  user_can_manage_store (signed_in u) store =
      if user_has_global_access (signed_in u)
      then true
      else if not (is_manager_or_admin u.role)
      then false
      else is_assigned u.id store.id g.store_assignments

  -- `user_can_manage_machine`, given the store of the machine.
  unfoldable pub user_can_manage_machine : Requester → Store → Bool
  unfolding user_has_global_access user_can_manage_store
  user_can_manage_machine anonymous store = false
  user_can_manage_machine (signed_in u) store =
      if user_has_global_access (signed_in u)
      then true
      else if is_manager_or_admin u.role
      then user_can_manage_store (signed_in u) store
      else if is_repair_staff u.role
      then is_assigned u.id store.id g.store_assignments
      else false

  -- `user_can_approve_transfer`, given the destination store of the transfer.
  unfoldable pub user_can_approve_transfer : Requester → Store → Bool
  unfolding user_has_global_access user_has_region_scope
  user_can_approve_transfer anonymous destination = false
  user_can_approve_transfer (signed_in u) destination =
      if user_has_global_access (signed_in u)
      then true
      else is_logistics_manager u.role && user_has_region_scope (signed_in u) destination.region

  unfoldable pub user_can_request_transfer : Requester → Store → Bool
  unfolding user_has_global_access user_has_region_scope user_can_manage_store
  user_can_request_transfer anonymous destination = false
  user_can_request_transfer (signed_in u) destination =
      if user_has_global_access (signed_in u)
      then true
      else if is_logistics_manager u.role
      then user_has_region_scope (signed_in u) destination.region
      else user_can_manage_store (signed_in u) destination

  -- `source and user_has_region_scope(user, source.region)`, for a source store or hub.
  abbrev pub source_store_in_scope : Requester → Option Store → Bool
  source_store_in_scope user none = false
  source_store_in_scope user (some store) = user_has_region_scope user store.region

  abbrev pub source_hub_in_scope : Requester → Option SupplyHub → Bool
  source_hub_in_scope user none = false
  source_hub_in_scope user (some hub) = user_has_region_scope user hub.region

  abbrev pub source_store_managed : Requester → Option Store → Bool
  source_store_managed user none = false
  source_store_managed user (some store) = user_can_manage_store user store

  -- The arguments are the transfer's destination, source store and source hub.
  unfoldable pub user_can_progress_transfer :
      Requester → Store → Option Store → Option SupplyHub → Bool
  unfolding user_has_global_access user_has_region_scope user_can_manage_store
  user_can_progress_transfer anonymous destination source_store source_hub = false
  user_can_progress_transfer (signed_in u) destination source_store source_hub =
      if user_has_global_access (signed_in u)
      then true
      else if is_logistics_manager u.role
      then user_has_region_scope (signed_in u) destination.region
        || (source_store_in_scope (signed_in u) source_store
            || source_hub_in_scope (signed_in u) source_hub)
      else if is_manager_or_admin u.role
      then user_can_manage_store (signed_in u) destination
        || source_store_managed (signed_in u) source_store
      else false

  unfoldable pub user_can_receive_transfer :
      Requester → Store → Option Store → Option SupplyHub → Bool
  unfolding user_can_progress_transfer
  user_can_receive_transfer anonymous destination source_store source_hub =
      if user_can_progress_transfer anonymous destination source_store source_hub
      then true
      else false
  user_can_receive_transfer (signed_in u) destination source_store source_hub =
      if user_can_progress_transfer (signed_in u) destination source_store source_hub
      then true
      else is_manager_or_admin u.role && user_can_manage_store (signed_in u) destination

  unfoldable pub user_can_manage_supplier_order : Requester → Store → Bool
  unfolding user_has_global_access user_has_region_scope
  user_can_manage_supplier_order anonymous store = false
  user_can_manage_supplier_order (signed_in u) store =
      if user_has_global_access (signed_in u)
      then true
      else is_logistics_manager u.role && user_has_region_scope (signed_in u) store.region
