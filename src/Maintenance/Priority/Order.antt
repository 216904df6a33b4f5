-- ===== src/Maintenance/Priority/Order.antt =====
-- How `calculate_machine_priority` and `resolve_effective_policy` of apps/maintenance/services.py
-- depend on their arguments.
use codepop.Base.{
  Bool, Bool-cases, List, Option, [], arith, false, if◌then◌else◌, inl, inr, is_some, none, not,
  refl, some, ℕ, ◌&&◌, ◌*◌, ◌+◌, ◌-◌, ◌<◌, ◌==◌, ◌∷◌, ◌≡◌, ◌≤◌,
}
use codepop.Db.{Db}
use codepop.Maintenance.Models.{Machine, MachineStatus, MaintenancePolicy, RepairAssignment}
use codepop.Maintenance.Priority.{
  calculate_machine_priority, elapsed_score, get_active_repair_assignment, is_actionable_machine,
  is_of_region, is_policy_for, overdue_score, priority_base_score, resolve_effective_policy,
  unassigned_score, urgency_multiplier,
}

-- How bad a status is.
abbrev pub severity : MachineStatus → ℕ
severity MachineStatus.schedule_service = 1
severity MachineStatus.warning = 2
severity MachineStatus.error = 3
severity MachineStatus.out_of_order = 4
severity _ = 0

urgency_mono :
    (s t : MachineStatus) → severity s ≤ severity t → urgency_multiplier s ≤ urgency_multiplier t
urgency_mono s t h = ground arith

base-gap :
    (s t : MachineStatus)
    → severity s < severity t
    → priority_base_score s + 2000 ≤ priority_base_score t
base-gap s t h = ground arith

elapsed_mono :
    (as_of : ℕ) (m : Machine) (s t : MachineStatus)
    → severity s ≤ severity t
    → elapsed_score as_of (record m { current_status = s })
      ≤ elapsed_score as_of (record m { current_status = t })
unfolding elapsed_score
elapsed_mono as_of m s t h = elapsed_by m.current_status_date
  where
    elapsed_by :
        (d : Option ℕ)
        → (elim d [ none ↦ 0 | some date ↦ (as_of - date) * urgency_multiplier s ])
          ≤ (elim d [ none ↦ 0 | some date ↦ (as_of - date) * urgency_multiplier t ])
    elapsed_by none = omega arith
    elapsed_by (some date) = ground arith

unassigned_mono :
    (m : Machine) (s t : MachineStatus) (rows : List (ℕ × RepairAssignment))
    → severity s ≤ severity t
    → unassigned_score (record m { current_status = s }) rows
      ≤ unassigned_score (record m { current_status = t }) rows
unfolding unassigned_score
unassigned_mono m s t rows h =
    unassigned_by (not (is_some (get_active_repair_assignment m.id rows)))
  where
    unassigned_by :
        (b : Bool)
        → (if b && is_actionable_machine s then 500 else 0)
          ≤ (if b && is_actionable_machine t then 500 else 0)
    unassigned_by b = ground arith

-- A worse status puts the same machine 20.00 ahead at least.
pub calculate_machine_priority_mono :
    (as_of : ℕ) (m : Machine) (s t : MachineStatus) (db : Db)
    → severity s < severity t
    → calculate_machine_priority as_of (record m { current_status = s }) db + 2000
      ≤ calculate_machine_priority as_of (record m { current_status = t }) db
unfolding calculate_machine_priority overdue_score
calculate_machine_priority_mono as_of m s t db h =
    let le : severity s ≤ severity t = omega arith in
    omega (arith, base-gap s t h, elapsed_mono as_of m s t le, unassigned_mono m s t db.repairs le)

-- Without the policies that name no region.
abbrev pub regional : List MaintenancePolicy → List MaintenancePolicy
regional [] = []
regional (p ∷ policies) =
    let rest = regional policies in if is_some p.region then p ∷ rest else rest

no_region : (r : ℕ) (o : Option ℕ) → is_some o ≡ false → is_of_region r o ≡ false
no_region r none h = refl
no_region r (some x) h = absurd (cc)

default_denied :
    (machine : Machine) (p : MaintenancePolicy)
    → is_some p.region ≡ false
    → is_policy_for machine p ≡ false
default_denied machine p h =
    let q : is_of_region machine.store.region.id p.region ≡ false =
      no_region machine.store.region.id p.region h in
    elim (Bool-cases (p.machine_type == machine.machine_type.id)) [
      | inl e ↦ rw (e, q) refl
      | inr e ↦ rw e refl
    ]

-- A policy without a region is never the one that holds.
pub resolve_effective_policy-regional :
    (machine : Machine) (policies : List MaintenancePolicy)
    → resolve_effective_policy machine policies
      ≡ resolve_effective_policy machine (regional policies)
unfolding resolve_effective_policy
resolve_effective_policy-regional machine [] = refl
resolve_effective_policy-regional machine (p ∷ policies) =
    let rest = resolve_effective_policy-regional machine policies in
    elim (Bool-cases (is_some p.region)) [
      | inl h ↦ rw (h, rest) refl
      | inr h ↦ rw (h, default_denied machine p h) rest
    ]
