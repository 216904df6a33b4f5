-- ===== src/Maintenance/Assignments/Staff.antt =====
-- Who is picked to repair a machine: repair staff with scope over its store.
use codepop.Base.{
  All, Bool-cases, Exists, List, Option, [], and-true, ap, false, inl, inr, none, refl, some, subst,
  sym, true, ℕ, ◌∙◌, ◌∷◌, ◌≡◌, ◌⊎◌,
}
use codepop.Db.{Db}
use codepop.Maintenance.Assignments.{
  first_staff, is_candidate, is_less_busy, pick_assignee, select_repair_assignee, user_of,
}
use codepop.Maintenance.Models.{Machine, RepairAssignment, StaffMember}
use codepop.Stores.{Store}
use codepop.Users.Models.{Grants, Role, User, is_repair_staff, is_super_admin, signed_in}
use codepop.Users.Permissions.{is_assigned, user_has_global_access, user_has_store_scope}

-- Repair staff with scope over the store, or nobody.
abbrev pub IsFit : Grants → Store → Option User → Type 0
IsFit grants store none = Unit
IsFit grants store (some u) =
    (is_repair_staff u.role ≡ true) × (user_has_store_scope grants (signed_in u) store ≡ true)

first_staff-cases :
    (repairs : List (ℕ × RepairAssignment)) (a b : StaffMember)
    → (first_staff repairs a (some b) ≡ some a) ⊎ (first_staff repairs a (some b) ≡ some b)
first_staff-cases repairs a b = elim (Bool-cases (is_less_busy repairs b a)) [
  | inl p ↦ inr (rw p refl)
  | inr p ↦ inl (rw p refl)
]

-- The member that is selected is one of the staff who may repair there.
pub select_cases :
    (grants : Grants) (store : Store) (repairs : List (ℕ × RepairAssignment))
    (staff : List StaffMember)
    → (select_repair_assignee grants store repairs staff ≡ none)
      ⊎ ((m : StaffMember) × (select_repair_assignee grants store repairs staff ≡ some m)
          × (is_candidate grants store m ≡ true))
unfolding select_repair_assignee
select_cases grants store repairs [] = inl refl
select_cases grants store repairs (m ∷ staff) = elim (Bool-cases (is_candidate grants store m)) [
  | inl p ↦ elim (select_cases grants store repairs staff) [
    | inl e ↦ inr (m, rw (p, e) refl, p)
    | inr (b, e, q) ↦ elim (first_staff-cases repairs m b) [
      | inl w ↦ inr (m, rw (p, e) w, p)
      | inr w ↦ inr (b, rw (p, e) w, q)
    ]
  ]
  | inr p ↦ elim (select_cases grants store repairs staff) [
    | inl e ↦ inl (rw p e)
    | inr (b, e, q) ↦ inr (b, rw p e, q)
  ]
]

repair_staff-not_admin : (role : Role) → is_repair_staff role ≡ true → is_super_admin role ≡ false
repair_staff-not_admin Role.repair_staff h = refl
repair_staff-not_admin Role.account_user h = absurd (cc)
repair_staff-not_admin Role.manager h = absurd (cc)
repair_staff-not_admin Role.admin h = absurd (cc)
repair_staff-not_admin Role.logistics_manager h = absurd (cc)
repair_staff-not_admin Role.super_admin h = absurd (cc)

is_candidate-IsFit :
    (grants : Grants) (store : Store) (m : StaffMember)
    → is_candidate grants store m ≡ true
    → IsFit grants store (some m.user)
unfolding user_has_store_scope user_has_global_access
is_candidate-IsFit grants store m h =
    let (staff, rest) = and-true _ _ h in
    (staff, rw (repair_staff-not_admin m.user.role staff) (and-true _ _ rest).1)

-- A preferred assignee, if there is one, belongs to the repair staff.
abbrev pub IsStaff : Option User → Type 0
IsStaff none = Unit
IsStaff (some u) = is_repair_staff u.role ≡ true

module _ (slug : Store → ℕ) (fresh : List (ℕ × RepairAssignment) → ℕ) (now today : ℕ) where
  chosen-IsFit :
      (store : Store) (db : Db)
      → IsFit db.grants store (user_of (select_repair_assignee db.grants store db.repairs db.staff))
  chosen-IsFit store db = elim (select_cases db.grants store db.repairs db.staff) [
    | inl e ↦ subst (λ c. IsFit db.grants store (user_of c)) (sym e) tt
    | inr (m, e, q) ↦
        subst (λ c. IsFit db.grants store (user_of c)) (sym e)
          (is_candidate-IsFit db.grants store m q)
  ]

  -- Nobody but repair staff with scope over the store is picked.
  pub pick_assignee-IsFit :
      (machine : Machine) (preferred : Option User) (db : Db)
      → IsStaff preferred
      → IsFit db.grants machine.store (pick_assignee slug fresh now today machine preferred db)
  unfolding pick_assignee
  pick_assignee-IsFit machine none db h = chosen-IsFit machine.store db
  pick_assignee-IsFit machine (some u) db h =
      elim (Bool-cases (user_has_store_scope db.grants (signed_in u) machine.store)) [
        | inl p ↦ rw p (h, p)
        | inr p ↦ rw p (chosen-IsFit machine.store db)
      ]

-- Active repair staff who are assigned to the store.
abbrev pub MayRepair : Grants → Store → StaffMember → Type 0
MayRepair grants store m =
    (is_repair_staff m.user.role ≡ true)
    × (m.is_active ≡ true)
    × (is_assigned m.user.id store.id grants.store_assignments ≡ true)

MayRepair-cases :
    (grants : Grants) (store : Store) (m : StaffMember)
    → (is_candidate grants store m ≡ true → MayRepair grants store m)
      × (is_candidate grants store m ≡ false → ¬ MayRepair grants store m)
MayRepair-cases grants store m = (
  λ h. let (a, b) = and-true _ _ h in let (c, d) = and-true _ _ b in (a, c, d),
  λ h w. let (a, b, c) = w in absurd (cc (rw (a, b, c) at h)),
)

-- Nobody is selected if nobody may repair there; else one of those who may.
abbrev Selected : Grants → Store → List StaffMember → Option StaffMember → Type 0
Selected grants store staff chosen =
    ((chosen ≡ none) × All (λ m. ¬ MayRepair grants store m) staff)
    ⊎ ((m : StaffMember) × (chosen ≡ some m)
        × Exists (λ n. MayRepair grants store n × (n.user ≡ m.user)) staff)

select_repair_assignee-Selected :
    (grants : Grants) (store : Store) (repairs : List (ℕ × RepairAssignment))
    (staff : List StaffMember)
    → Selected grants store staff (select_repair_assignee grants store repairs staff)
unfolding select_repair_assignee
select_repair_assignee-Selected grants store repairs [] = inl (refl, tt)
select_repair_assignee-Selected grants store repairs (m ∷ staff) =
    let reading = MayRepair-cases grants store m in
    elim (Bool-cases (is_candidate grants store m)) [
      | inl p ↦ elim (select_repair_assignee-Selected grants store repairs staff) [
        | inl (e, none_fit) ↦ inr (m, rw (p, e) refl, inl (reading.0 p, refl))
        | inr (b, e, q) ↦ elim (first_staff-cases repairs m b) [
          | inl w ↦ inr (m, rw (p, e) w, inl (reading.0 p, refl))
          | inr w ↦ inr (b, rw (p, e) w, inr q)
        ]
      ]
      | inr p ↦ elim (select_repair_assignee-Selected grants store repairs staff) [
        | inl (e, none_fit) ↦ inl (rw p e, (reading.1 p, none_fit))
        | inr (b, e, q) ↦ inr (b, rw p e, inr q)
      ]
    ]

-- There is no preferred assignee, or one without scope over the store.
abbrev pub IsUnfit : Grants → Store → Option User → Type 0
IsUnfit grants store none = Unit
IsUnfit grants store (some u) = user_has_store_scope grants (signed_in u) store ≡ false

-- A preferred assignee with scope over the store, or else one of the staff who may repair there.
abbrev pub IsPicked : Grants → Store → List StaffMember → Option User → User → Type 0
IsPicked grants store staff preferred u =
    ((preferred ≡ some u) × (user_has_store_scope grants (signed_in u) store ≡ true))
    ⊎ (IsUnfit grants store preferred × Exists (λ n. MayRepair grants store n × (n.user ≡ u)) staff)

-- Nobody can be picked.
abbrev pub IsNobody : Grants → Store → List StaffMember → Option User → Type 0
IsNobody grants store staff preferred =
    IsUnfit grants store preferred × All (λ m. ¬ MayRepair grants store m) staff

module _ (slug : Store → ℕ) (fresh : List (ℕ × RepairAssignment) → ℕ) (now today : ℕ) where
  chosen_cases :
      (grants : Grants) (store : Store) (staff : List StaffMember) (preferred : Option User)
      (chosen : Option StaffMember)
      → IsUnfit grants store preferred
      → Selected grants store staff chosen
      → ((user_of chosen ≡ none) × IsNobody grants store staff preferred)
        ⊎ ((u : User) × (user_of chosen ≡ some u) × IsPicked grants store staff preferred u)
  chosen_cases grants store staff preferred chosen h (inl (e, a)) = inl (ap user_of e, (h, a))
  chosen_cases grants store staff preferred chosen h (inr (m, e, q)) =
      inr (m.user, ap user_of e, inr (h, q))

  pub pick_assignee-cases :
      (machine : Machine) (preferred : Option User) (db : Db)
      → let picked = pick_assignee slug fresh now today machine preferred db in
        ((picked ≡ none) × IsNobody db.grants machine.store db.staff preferred)
        ⊎ ((u : User) × (picked ≡ some u) × IsPicked db.grants machine.store db.staff preferred u)
  unfolding pick_assignee
  pick_assignee-cases machine none db =
      chosen_cases db.grants machine.store db.staff none
        (select_repair_assignee db.grants machine.store db.repairs db.staff) tt
        (select_repair_assignee-Selected db.grants machine.store db.repairs db.staff)
  pick_assignee-cases machine (some u) db =
      elim (Bool-cases (user_has_store_scope db.grants (signed_in u) machine.store)) [
        | inl p ↦ inr (u, rw p refl, inl (refl, p))
        | inr p ↦
            let chosen = select_repair_assignee db.grants machine.store db.repairs db.staff in
            let e : pick_assignee slug fresh now today machine (some u) db ≡ user_of chosen =
              rw p refl in
            elim (chosen_cases db.grants machine.store db.staff (some u) chosen p
              (select_repair_assignee-Selected db.grants machine.store db.repairs db.staff)) [
                | inl (none_chosen, nobody) ↦ inl (e ∙ none_chosen, nobody)
                | inr (v, some_chosen, q) ↦ inr (v, e ∙ some_chosen, q)
              ]
      ]
