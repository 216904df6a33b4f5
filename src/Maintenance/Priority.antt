-- ===== src/Maintenance/Priority.antt =====
-- apps/maintenance/services.py: the policy that holds for a machine, and how urgent it is. Scores are
-- in hundredths.
pub mod Order
use codepop.Base.{
  Bool, List, Option, [], false, if◌then◌else◌, is_some, leb, ltb, min, none, not, some, true, ℕ,
  ◌&&◌, ◌*◌, ◌+◌, ◌-◌, ◌==◌, ◌∷◌,
}
use codepop.Db.{Db}
use codepop.Maintenance.Models.{
  Machine, MachineStatus, MachineStatusEvent, MaintenancePolicy, RepairAssignment,
  is_actionable_repair,
}

-- `ACTIONABLE_MACHINE_STATUSES`
abbrev pub is_actionable_machine : MachineStatus → Bool
is_actionable_machine MachineStatus.schedule_service = true
is_actionable_machine MachineStatus.warning = true
is_actionable_machine MachineStatus.error = true
is_actionable_machine MachineStatus.out_of_order = true
is_actionable_machine _ = false

-- `PRIORITY_BASE_SCORES`; a status that it lacks scores nothing.
abbrev pub priority_base_score : MachineStatus → ℕ
priority_base_score MachineStatus.schedule_service = 2000
priority_base_score MachineStatus.warning = 5000
priority_base_score MachineStatus.error = 8000
priority_base_score MachineStatus.out_of_order = 10000
priority_base_score _ = 0

-- The days of a policy, or of the machine's type where there is none.
pub record PolicyDays : Type 0 where
  pub max_days_between_service : ℕ
  pub warning_shutdown_days : ℕ
  pub schedule_service_window_days : ℕ

abbrev pub is_of_region : ℕ → Option ℕ → Bool
is_of_region region none = false
is_of_region region (some r) = r == region

-- `filter(machine_type=…, region=machine.store.region, is_active=True)`
abbrev pub is_policy_for : Machine → MaintenancePolicy → Bool
is_policy_for machine p =
    (p.machine_type == machine.machine_type.id)
    && (is_of_region machine.store.region.id p.region && p.is_active)

unfoldable pub resolve_effective_policy : Machine → List MaintenancePolicy → PolicyDays
resolve_effective_policy machine [] = record {
  max_days_between_service = machine.machine_type.default_service_interval_days;
  warning_shutdown_days = machine.machine_type.warning_max_operational_days;
  schedule_service_window_days = machine.machine_type.default_service_interval_days;
}
resolve_effective_policy machine (p ∷ policies) =
    let rest = resolve_effective_policy machine policies in
    if is_policy_for machine p
    then record {
      max_days_between_service = p.max_days_between_service;
      warning_shutdown_days = p.warning_shutdown_days;
      schedule_service_window_days = p.schedule_service_window_days;
    }
    else rest

-- `.order_by("-priority_score", "scheduled_for", "-created_at")`: `a` stands before `b`.
abbrev pub precedes : RepairAssignment → RepairAssignment → Bool
precedes a b =
    if ltb b.priority_score a.priority_score
    then true
    else if ltb a.priority_score b.priority_score
    then false
    else if ltb a.scheduled_for b.scheduled_for
    then true
    else if ltb b.scheduled_for a.scheduled_for
    then false
    else ltb b.created_at a.created_at

-- The assignments of a machine that are still open.
abbrev pub is_active_for : ℕ → RepairAssignment → Bool
is_active_for machine a = (a.machine == machine) && is_actionable_repair a.status

-- The first of a row and the first of the rest, which follows it in the table.
abbrev pub first_of : RepairAssignment → Option RepairAssignment → Option RepairAssignment
first_of a none = some a
first_of a (some b) = if precedes b a then some b else some a

unfoldable pub get_active_repair_assignment :
    ℕ → List (ℕ × RepairAssignment) → Option RepairAssignment
get_active_repair_assignment machine [] = none
get_active_repair_assignment machine ((id, a) ∷ rows) =
    let rest = get_active_repair_assignment machine rows in
    if is_active_for machine a then first_of a rest else rest

-- 3.00 a day, or 5.00 for a machine that has failed.
abbrev pub urgency_multiplier : MachineStatus → ℕ
urgency_multiplier MachineStatus.error = 500
urgency_multiplier MachineStatus.out_of_order = 500
urgency_multiplier _ = 300

-- `max((as_of_date - status_date).days, 0)` times the multiplier, where the date is known.
unfoldable pub elapsed_score : ℕ → Machine → ℕ
elapsed_score as_of machine = elim machine.current_status_date [
  | none ↦ 0
  | some date ↦ (as_of - date) * urgency_multiplier machine.current_status
]

unfoldable pub overdue_score : ℕ → Machine → ℕ
overdue_score as_of machine = elim machine.next_service_due_date [
  | none ↦ 0
  | some due ↦ if ltb due as_of then min ((as_of - due) * 400) 2500 else 0
]

abbrev pub is_failure : MachineStatus → Bool
is_failure MachineStatus.warning = true
is_failure MachineStatus.error = true
is_failure MachineStatus.out_of_order = true
is_failure _ = false

-- `status_date__gte=as_of_date - timedelta(days=30)`
unfoldable pub count_recent_failures : ℕ → ℕ → List MachineStatusEvent → ℕ
count_recent_failures as_of machine [] = 0
count_recent_failures as_of machine (e ∷ events) =
    (if (e.machine == machine) && (is_failure e.status && leb as_of (e.status_date + 30))
      then 1
      else 0)
    + count_recent_failures as_of machine events

unfoldable pub failure_score : ℕ → ℕ → List MachineStatusEvent → ℕ
failure_score as_of machine events = min (count_recent_failures as_of machine events * 200) 1000

-- 5.00 more while nobody is assigned.
unfoldable pub unassigned_score : Machine → List (ℕ × RepairAssignment) → ℕ
unassigned_score machine repairs =
    if not (is_some (get_active_repair_assignment machine.id repairs))
      && is_actionable_machine machine.current_status
    then 500
    else 0

unfoldable pub calculate_machine_priority : ℕ → Machine → Db → ℕ
calculate_machine_priority as_of machine db =
    priority_base_score machine.current_status
    + elapsed_score as_of machine
    + overdue_score as_of machine
    + failure_score as_of machine.id db.status_events
    + unassigned_score machine db.repairs

abbrev pub offset_hours : MachineStatus → ℕ
offset_hours MachineStatus.out_of_order = 1
offset_hours MachineStatus.error = 4
offset_hours MachineStatus.warning = 12
offset_hours MachineStatus.schedule_service = 36
offset_hours _ = 24

-- In seconds.
unfoldable pub recommended_assignment_time : ℕ → MachineStatus → ℕ
recommended_assignment_time now status = now + offset_hours status * 3600
