-- ===== src/Users/Access.antt =====
-- What the permission rules amount to, for every assignment table.
use codepop.Base.{Option, arith, false, refl, true, ◌↔◌, ◌≡◌, ◌⊎◌}
use codepop.Stores.{Store, SupplyHub}
use codepop.Users.Models.{Grants, Requester, Role, User, anonymous, signed_in}
use codepop.Users.Permissions.{
  user_can_approve_transfer, user_can_manage_machine, user_can_manage_supplier_order,
  user_can_progress_transfer, user_can_receive_transfer, user_can_request_transfer,
  user_has_store_scope,
}

module _ (g : Grants) where
  -- Receiving a transfer needs exactly the right that progressing it needs: the further clause of
  -- `user_can_receive_transfer` for managers and admins of the destination grants nothing new.
  receive-eq-progress :
      (user : Requester) (destination : Store) (source : Option Store) (hub : Option SupplyHub)
      → user_can_receive_transfer g user destination source hub
        ≡ user_can_progress_transfer g user destination source hub
  unfolding user_can_receive_transfer
  receive-eq-progress anonymous d s h = refl
  receive-eq-progress (signed_in u) d s h = ground arith

  -- Whoever may approve a transfer may also progress, receive and request it for that destination,
  -- and may manage supplier orders of that store.
  pub approve_covers :
      (user : Requester) (destination : Store) (source : Option Store) (hub : Option SupplyHub)
      → user_can_approve_transfer g user destination ≡ true
      → (user_can_progress_transfer g user destination source hub ≡ true)
        × (user_can_receive_transfer g user destination source hub ≡ true)
        × (user_can_request_transfer g user destination ≡ true)
        × (user_can_manage_supplier_order g user destination ≡ true)
  unfolding user_can_receive_transfer user_can_approve_transfer user_can_request_transfer
      user_can_manage_supplier_order
  approve_covers anonymous d s h p = ground arith
  approve_covers (signed_in u) d s h p = ground arith

  -- A customer account, repair staff or an anonymous visitor can take no part in a transfer and
  -- in no supplier order, whatever is assigned to them.
  pub outsiders_barred :
      (user : Requester) (destination : Store) (source : Option Store) (hub : Option SupplyHub)
      → (user ≡ anonymous)
        ⊎ ((u : User) × (user ≡ signed_in u)
            × ((u.role ≡ Role.account_user) ⊎ (u.role ≡ Role.repair_staff)))
      → (user_can_request_transfer g user destination ≡ false)
        × (user_can_approve_transfer g user destination ≡ false)
        × (user_can_progress_transfer g user destination source hub ≡ false)
        × (user_can_receive_transfer g user destination source hub ≡ false)
        × (user_can_manage_supplier_order g user destination ≡ false)
  unfolding user_can_receive_transfer user_can_approve_transfer user_can_request_transfer
      user_can_manage_supplier_order
  outsiders_barred anonymous d s h p = ground arith
  outsiders_barred (signed_in u) d s h p = ground arith

  -- A signed-in user may manage a machine exactly when the user has scope over its store and is a
  -- manager, an admin, repair staff or a super admin.
  manage_machine_iff :
      (u : User) (store : Store)
      → (user_can_manage_machine g (signed_in u) store ≡ true) ↔ (
          (user_has_store_scope g (signed_in u) store ≡ true)
          × ((u.role ≡ Role.manager)
              ⊎ ((u.role ≡ Role.admin)
                  ⊎ ((u.role ≡ Role.repair_staff) ⊎ (u.role ≡ Role.super_admin)))))
  unfolding user_can_manage_machine user_has_store_scope
  manage_machine_iff u store = (λ h. ground arith, λ h. ground arith)
