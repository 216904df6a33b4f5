-- ===== src/Tests/Maintenance.antt =====
-- A freezer that has been in WARNING since day 10, its technician, and a repair that is under way.
use codepop.Base.{
  List, [], arith, false, inl, length, max, none, refl, some, true, ℕ, ◌+◌, ◌==◌, ◌∷◌, ◌≡◌, ◌≤◌,
  ◌⊎◌,
}
use codepop.Base.Exec.{ReturnsWith, err}
use codepop.Base.Table.{lookup}
use codepop.Db.{Db}
use codepop.Errors.{Error, MaintenanceFault}
use codepop.Maintenance.Assignments.{ensure_repair_assignment}
use codepop.Maintenance.Assignments.Ensure.{ensure_repair_assignment-ReturnsWith}
use codepop.Maintenance.Assignments.Ensured.{IsEnsured, IsFresh, IsUpkeep}
use codepop.Maintenance.Assignments.Rows.{IsTidy, count_active}
use codepop.Maintenance.Escalation.{check_machine, or_all, run_maintenance_policy_checks}
use codepop.Maintenance.Escalation.Overdue.{IsOut, check_machine-IsOut}
use codepop.Maintenance.Escalation.Status.{IsMaintained}
use codepop.Maintenance.Escalation.Total.{
  all_escalations, run_maintenance_policy_checks-ReturnsWith,
}
use codepop.Maintenance.Models.{
  Machine, MachineStatus, MachineType, MaintenancePolicy, Note, RepairAssignment, RepairStatus,
}
use codepop.Maintenance.Priority.{calculate_machine_priority, resolve_effective_policy}
use codepop.Maintenance.Priority.Order.{
  calculate_machine_priority_mono, resolve_effective_policy-regional,
}
use codepop.Maintenance.Repairs.{
  complete_repair_assignment, is_valid_actor, may_become, repair_transitions, transition_assignment,
}
use codepop.Maintenance.Repairs.Transition.{IsEntered, transition_assignment-cases}
use codepop.Maintenance.Repairs.Work.{IsServiced, complete_repair_assignment-IsServiced}
use codepop.Orders.Models.{OrderStatus}
use codepop.Stores.{Store}
use codepop.Tests.Data.{downtown, tables_in}
use codepop.Users.Models.{Role, User}

-- One more than the largest key.
abbrev next_key : List (ℕ × RepairAssignment) → ℕ
next_key [] = 1
next_key ((k, a) ∷ rows) = max (k + 1) (next_key rows)

unused_key : (k : ℕ) (rows : List (ℕ × RepairAssignment)) → next_key rows ≤ k → lookup k rows ≡ none
unfolding lookup
unused_key k [] h = refl
unused_key k ((j, a) ∷ rows) h =
    let e : (j == k) ≡ false = ground arith in rw e (unused_key k rows (omega arith))

next_key-IsFresh : IsFresh next_key
next_key-IsFresh rows = unused_key (next_key rows) rows (omega arith)

abbrev one_city : Store → ℕ
one_city store = 0

abbrev freezer_type : MachineType
freezer_type = record {
  id = 4;
  default_service_interval_days = 90;
  warning_max_operational_days = 3;
  error_max_days = 2;
}

abbrev freezer : MachineStatus → Machine
freezer status = record {
  id = 2;
  store = downtown;
  machine_type = freezer_type;
  current_status = status;
  current_status_date = some 10;
  last_service_date = none;
  next_service_due_date = some 40;
}

abbrev technician : User
technician = record { id = 3; role = Role.repair_staff }

abbrev visit : RepairAssignment
visit = record {
  id = 1;
  assigned_to = 3;
  machine = 2;
  store = downtown;
  priority_score = 5000;
  status = RepairStatus.in_progress;
  scheduled_for = 100;
  acknowledged_at = some 200;
  started_at = some 300;
  blocked_at = none;
  completed_at = none;
  closed_at = none;
  created_by_system = true;
  route_batch_key = (1, 0);
  follow_up_required = false;
  created_at = 50;
}

abbrev default_policy : MaintenancePolicy
default_policy = record {
  machine_type = 4;
  region = none;
  max_days_between_service = 30;
  warning_shutdown_days = 1;
  schedule_service_window_days = 5;
  is_active = true;
}

abbrev workshop : List (ℕ × RepairAssignment) → Db
workshop rows = record (tables_in OrderStatus.paid) {
  staff = (record { user = technician; is_active = true; name = 0 }) ∷ [];
  machines = (2, freezer MachineStatus.warning) ∷ [];
  repairs = rows;
}

empty-IsTidy : IsTidy []
unfolding count_active
empty-IsTidy = record { keyed = tt; single = λ m. omega arith }

visit-IsTidy : IsTidy ((1, visit) ∷ [])
unfolding count_active lookup
visit-IsTidy = record { keyed = (refl, refl, tt); single = λ m. ground arith }

ensure_repair_assignment-ReturnsWith_example :
    ReturnsWith
      (ensure_repair_assignment one_city next_key 1000 20
        (freezer MachineStatus.warning)
        none
        none
        Note.text
        (workshop []))
      (λ r db'.
        IsUpkeep (workshop []) db'
        × IsEnsured 1000 20 (freezer MachineStatus.warning) none (workshop []) r db')
ensure_repair_assignment-ReturnsWith_example =
    ensure_repair_assignment-ReturnsWith one_city next_key 1000 20 (freezer MachineStatus.warning)
      none none Note.text (workshop []) next_key-IsFresh tt empty-IsTidy

run_maintenance_policy_checks-ReturnsWith_example :
    ReturnsWith
      (run_maintenance_policy_checks one_city next_key 1000 20 [] 20 none (workshop []))
      (λ s db'.
        IsMaintained (workshop []) db' × (all_escalations s ≤ length (or_all [] (workshop []))))
run_maintenance_policy_checks-ReturnsWith_example =
    run_maintenance_policy_checks-ReturnsWith one_city next_key 1000 20 next_key-IsFresh [] 20 none
      (workshop []) empty-IsTidy

warning-overdue :
    (resolve_effective_policy (freezer MachineStatus.warning) []).warning_shutdown_days ≡ 3
unfolding resolve_effective_policy
warning-overdue = refl

check_machine-IsOut_example :
    ReturnsWith
      (check_machine one_city next_key 1000 20 20 none
        (freezer MachineStatus.warning)
        (workshop []))
      (λ r db'. IsOut 2 db')
check_machine-IsOut_example =
    check_machine-IsOut one_city next_key 1000 20 next_key-IsFresh 20 none
      (freezer MachineStatus.warning) (workshop []) empty-IsTidy
      (10, refl, inl (refl, omega (arith, warning-overdue)))

transition_assignment-cases_example :
    ((may_become RepairStatus.in_progress RepairStatus.blocked ≡ true)
      × ReturnsWith
          (transition_assignment 900 visit RepairStatus.blocked
            (some technician)
            (some true)
            (workshop ((1, visit) ∷ [])))
          (IsEntered RepairStatus.blocked visit (workshop ((1, visit) ∷ []))))
    ⊎ ((may_become RepairStatus.in_progress RepairStatus.blocked ≡ false)
        × (transition_assignment 900 visit RepairStatus.blocked
              (some technician)
              (some true)
              (workshop ((1, visit) ∷ []))
            ≡ (
              err (Error.maintenance MaintenanceFault.transition_denied),
              workshop ((1, visit) ∷ []),
            )))
transition_assignment-cases_example =
    transition_assignment-cases 900 visit RepairStatus.blocked (some technician) (some true)
      (workshop ((1, visit) ∷ []))

visit-found : lookup 1 (workshop ((1, visit) ∷ [])).repairs ≡ some visit
unfolding lookup
visit-found = refl

freezer-found :
    lookup 2 (workshop ((1, visit) ∷ [])).machines ≡ some (freezer MachineStatus.warning)
unfolding lookup
freezer-found = refl

technician_may :
    is_valid_actor (tables_in OrderStatus.paid).grants visit (some technician) false ≡ true
unfolding is_valid_actor
technician_may = refl

visit_may_end : may_become RepairStatus.in_progress RepairStatus.completed ≡ true
unfolding may_become repair_transitions
visit_may_end = refl

complete_repair_assignment-IsServiced_example :
    ReturnsWith
      (complete_repair_assignment one_city next_key 1000 20 visit
        (some technician)
        (workshop ((1, visit) ∷ [])))
      (λ b db'.
        (b.status ≡ RepairStatus.completed)
        × IsTidy db'.repairs
        × ((m : Machine) × (lookup 2 db'.machines ≡ some m)
            × IsServiced
                (freezer MachineStatus.warning)
                (resolve_effective_policy
                  (freezer MachineStatus.warning)
                  []).max_days_between_service
                20
                m))
complete_repair_assignment-IsServiced_example =
    complete_repair_assignment-IsServiced one_city next_key 1000 20 next_key-IsFresh visit
      (some technician) (freezer MachineStatus.warning) (workshop ((1, visit) ∷ [])) visit-IsTidy
      visit-found freezer-found refl technician_may visit_may_end

calculate_machine_priority_mono_example :
    calculate_machine_priority 20 (freezer MachineStatus.warning) (workshop []) + 2000
    ≤ calculate_machine_priority 20 (freezer MachineStatus.error) (workshop [])
calculate_machine_priority_mono_example =
    calculate_machine_priority_mono 20 (freezer MachineStatus.normal) MachineStatus.warning
      MachineStatus.error (workshop []) (omega arith)

resolve_effective_policy-regional_example :
    resolve_effective_policy (freezer MachineStatus.warning) (default_policy ∷ [])
    ≡ resolve_effective_policy (freezer MachineStatus.warning) []
resolve_effective_policy-regional_example =
    resolve_effective_policy-regional (freezer MachineStatus.warning) (default_policy ∷ [])
