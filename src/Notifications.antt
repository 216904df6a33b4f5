-- ===== src/Notifications.antt =====
-- apps/notifications: who is told what. Titles, messages and payloads are left out, and so is the
-- delivery to devices.
use codepop.Base.{
  Bool, List, Option, [], any, false, if◌then◌else◌, map, none, some, ℕ, ◌&&◌, ◌==◌, ◌||◌, ◌∷◌,
}
use codepop.Stores.{Region, Store}
use codepop.Users.Models.{Grants, Role, User}
use codepop.Users.Permissions.{is_assigned}

pub data NotificationCategory : Type 0 where
  info alert task : NotificationCategory

pub data NotificationType : Type 0 where
  import_result machine_alert order_update repair_update transfer_update : NotificationType

pub record Notification : Type 0 where
  pub user : ℕ
  pub category : NotificationCategory
  pub notification_type : NotificationType

-- A row of users, with the places that a user chose.
pub record Account : Type 0 where
  pub user : User
  pub is_active : Bool
  pub preferred_store : Option ℕ
  pub default_region : Option ℕ

abbrev pub is_place : ℕ → Option ℕ → Bool
is_place place none = false
is_place place (some p) = p == place

-- `users_for_store_roles` and `users_for_region_roles`, each user once.
unfoldable pub users_for_store_roles : Grants → Store → (Role → Bool) → List Account → List ℕ
users_for_store_roles grants store roles [] = []
users_for_store_roles grants store roles (a ∷ accounts) =
    let rest = users_for_store_roles grants store roles accounts in
    if (is_assigned a.user.id store.id grants.store_assignments
        || is_place store.id a.preferred_store)
      && (roles a.user.role && a.is_active)
    then a.user.id ∷ rest
    else rest

unfoldable pub users_for_region_roles : Grants → Region → (Role → Bool) → List Account → List ℕ
users_for_region_roles grants region roles [] = []
users_for_region_roles grants region roles (a ∷ accounts) =
    let rest = users_for_region_roles grants region roles accounts in
    if (is_assigned a.user.id region.id grants.region_assignments
        || is_place region.id a.default_region)
      && (roles a.user.role && a.is_active)
    then a.user.id ∷ rest
    else rest

-- `notify_users`: the first row of each user.
unfoldable pub distinct_users : List ℕ → List ℕ → List ℕ
distinct_users seen [] = []
distinct_users seen (u ∷ users) =
    let rest = distinct_users (u ∷ seen) users in
    let others = distinct_users seen users in if any (λ s. s == u) seen then others else u ∷ rest

abbrev pub notify : NotificationCategory → NotificationType → ℕ → Notification
notify category kind user = record { user = user; category = category; notification_type = kind }

unfoldable pub notify_users : NotificationCategory → NotificationType → List ℕ → List Notification
notify_users category kind users = map (notify category kind) (distinct_users [] users)
