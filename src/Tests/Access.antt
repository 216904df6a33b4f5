-- ===== src/Tests/Access.antt =====
-- The permissions of sample users.
use codepop.Base.{[], false, inr, none, refl, true, ◌∷◌, ◌≡◌}
use codepop.Tests.Data.{downtown}
use codepop.Users.Access.{approve_covers, outsiders_barred}
use codepop.Users.Models.{Grants, Role, User, signed_in}
use codepop.Users.Permissions.{
  user_can_approve_transfer, user_can_manage_supplier_order, user_can_progress_transfer,
  user_can_receive_transfer, user_can_request_transfer, user_has_region_scope,
}

abbrev assigned : Grants
assigned = record { store_assignments = (3, 1) ∷ []; region_assignments = (4, 1) ∷ [] }

abbrev store_manager : User
store_manager = record { id = 3; role = Role.manager }

abbrev logistics : User
logistics = record { id = 4; role = Role.logistics_manager }

abbrev technician : User
technician = record { id = 3; role = Role.repair_staff }

logistics_approves : user_can_approve_transfer assigned (signed_in logistics) downtown ≡ true
unfolding user_can_approve_transfer user_has_region_scope
logistics_approves = refl

approve_covers_example :
    (user_can_progress_transfer assigned (signed_in logistics) downtown none none ≡ true)
    × (user_can_receive_transfer assigned (signed_in logistics) downtown none none ≡ true)
    × (user_can_request_transfer assigned (signed_in logistics) downtown ≡ true)
    × (user_can_manage_supplier_order assigned (signed_in logistics) downtown ≡ true)
approve_covers_example =
    approve_covers assigned (signed_in logistics) downtown none none logistics_approves

outsiders_barred_example :
    (user_can_request_transfer assigned (signed_in technician) downtown ≡ false)
    × (user_can_approve_transfer assigned (signed_in technician) downtown ≡ false)
    × (user_can_progress_transfer assigned (signed_in technician) downtown none none ≡ false)
    × (user_can_receive_transfer assigned (signed_in technician) downtown none none ≡ false)
    × (user_can_manage_supplier_order assigned (signed_in technician) downtown ≡ false)
outsiders_barred_example =
    outsiders_barred assigned (signed_in technician) downtown none none
      (inr (technician, refl, inr refl))
