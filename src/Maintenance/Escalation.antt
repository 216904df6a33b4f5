-- ===== src/Maintenance/Escalation.antt =====
-- apps/maintenance/services.py: status events of machines, and the policy checks that escalate them.
-- `day` is the date of an event, `as_of` that of a check; a service changes the machine object that it
-- is given, so the machine as it leaves it is returned.
pub mod Status
pub mod Checks
pub mod Total
pub mod Overdue
use codepop.Base.{
  Bool, List, Option, [], false, if◌then◌else◌, is_some, ltb, map, none, some, true, ℕ, ◌+◌, ◌==◌,
  ◌∷◌,
}
use codepop.Base.Exec.{atomic, gets, ok, pure, ◌>>=◌, ◌>>◌}
use codepop.Base.Table.{insert}
use codepop.Db.{Call, Db}
use codepop.Maintenance.Assignments.{ensure_repair_assignment}
use codepop.Maintenance.Models.{
  Machine, MachineStatus, MachineStatusEvent, Note, RepairAssignment, or_text,
}
use codepop.Maintenance.Priority.{PolicyDays, is_actionable_machine, resolve_effective_policy}
use codepop.Stores.{Store}
use codepop.Sync.Events.{create_audit_log, create_outbox_event, store_scope}
use codepop.Sync.Models.{AggregateType, AuditAction, EventType}

unfoldable pub save_machine : Machine → Call (Unit {0})
save_machine m db = (ok tt, record db { machines = insert m.id m db.machines })

unfoldable pub add_status_event : MachineStatusEvent → Call (Unit {0})
add_status_event e db = (ok tt, record db { status_events = e ∷ db.status_events })

-- `status in {REPAIR_END, NORMAL}`: the machine has been serviced.
abbrev pub ends_service : MachineStatus → Bool
ends_service MachineStatus.repair_end = true
ends_service MachineStatus.normal = true
ends_service _ = false

unfoldable pub machine_after : Machine → MachineStatus → ℕ → PolicyDays → Machine
machine_after machine status day policy =
    if ends_service status
    then record machine {
      current_status = status;
      current_status_date = some day;
      last_service_date = some day;
      next_service_due_date = some (day + policy.max_days_between_service);
    }
    else record machine { current_status = status; current_status_date = some day }

abbrev pub is_warning : MachineStatus → Bool
is_warning MachineStatus.warning = true
is_warning _ = false

abbrev pub is_error : MachineStatus → Bool
is_error MachineStatus.error = true
is_error _ = false

-- The statuses that the window leaves alone.
abbrev pub skips_window : MachineStatus → Bool
skips_window MachineStatus.warning = true
skips_window MachineStatus.error = true
skips_window MachineStatus.out_of_order = true
skips_window MachineStatus.repair_start = true
skips_window _ = false

-- What a check returns: the machine, and whether its result is true for Python.
abbrev pub Checked : Type 0
Checked = Machine × Bool

-- The counters of `run_maintenance_policy_checks`.
pub record Summary : Type 0 where
  pub service_window : ℕ
  pub warning_escalation : ℕ
  pub error_escalation : ℕ

abbrev pub tick : Bool → ℕ
tick b = if b then 1 else 0

abbrev pub count_in : Summary → Bool × Bool × Bool → Summary
count_in s (window, warned, failed) = record {
  service_window = s.service_window + tick window;
  warning_escalation = s.warning_escalation + tick warned;
  error_escalation = s.error_escalation + tick failed;
}

abbrev pub nothing_yet : Summary
nothing_yet = record { service_window = 0; warning_escalation = 0; error_escalation = 0 }

-- `machines or Machine.objects…`
abbrev pub or_all : List Machine → Db → List Machine
or_all [] db = map (λ (row : ℕ × Machine). row.1) db.machines
or_all (m ∷ machines) db = m ∷ machines

module _ (slug : Store → ℕ) (fresh : List (ℕ × RepairAssignment) → ℕ) (now today : ℕ) where
  -- The event and the assignment that an actionable status brings.
  unfoldable pub follow_up : Machine → MachineStatus → Note → Option ℕ → Call (Unit {0})
  follow_up machine status note actor =
      if is_actionable_machine status
      then (create_outbox_event (EventType.machine_entered status) AggregateType.machine machine.id
            (store_scope machine.store)
          >> ensure_repair_assignment slug fresh now today machine actor none (or_text note)
          >> pure tt)
      else pure tt

  unfoldable pub append_machine_status_event :
      Machine → MachineStatus → ℕ → Note → Option ℕ → Call Machine
  append_machine_status_event machine status day note actor = atomic (do
    add_status_event (record { machine = machine.id; status = status; status_date = day })
    policy ← gets (λ db. resolve_effective_policy machine db.policies)
    let after = machine_after machine status day policy
    save_machine after
    follow_up after status note actor
    create_audit_log actor AuditAction.machine_status_recorded machine.id
    pure after)

  -- `return append_machine_status_event(…)`, whose event is true.
  unfoldable pub escalate : Machine → MachineStatus → ℕ → Option ℕ → Call Checked
  escalate machine status day actor = do
    after ← append_machine_status_event machine status day Note.text actor
    pure (after, true)

  -- `ensure_repair_assignment(machine, actor=actor)`, and `return None`.
  unfoldable pub keep_assigned : Machine → Option ℕ → Call Checked
  keep_assigned machine actor = do
    ensure_repair_assignment slug fresh now today machine actor none Note.empty
    pure (machine, false)

  -- A machine that has had a status since a date, `limit` days and no longer.
  unfoldable pub escalate_after : Machine → Option ℕ → ℕ → ℕ → Option ℕ → Call Checked
  escalate_after machine none limit as_of actor = pure (machine, false)
  escalate_after machine (some date) limit as_of actor =
      if ltb as_of (date + limit)
      then keep_assigned machine actor
      else escalate machine MachineStatus.out_of_order as_of actor

  unfoldable pub evaluate_warning_escalation : Machine → ℕ → Option ℕ → Call Checked
  evaluate_warning_escalation machine as_of actor =
      if is_warning machine.current_status
      then atomic (do
        policy ← gets (λ db. resolve_effective_policy machine db.policies)
        escalate_after machine machine.current_status_date policy.warning_shutdown_days as_of actor)
      else pure (machine, false)

  -- A type without a limit, `error_max_days <= 0`, is never escalated.
  unfoldable pub error_limit : Machine → Option ℕ → ℕ → Option ℕ → Call Checked
  error_limit machine none as_of actor = pure (machine, false)
  error_limit machine (some date) as_of actor =
      if machine.machine_type.error_max_days == 0
      then keep_assigned machine actor
      else escalate_after machine (some date) machine.machine_type.error_max_days as_of actor

  unfoldable pub evaluate_error_escalation : Machine → ℕ → Option ℕ → Call Checked
  evaluate_error_escalation machine as_of actor =
      if is_error machine.current_status
      then atomic (error_limit machine machine.current_status_date as_of actor)
      else pure (machine, false)

  -- Inside the window: a machine that is scheduled keeps its assignment, any other is scheduled now.
  unfoldable pub enter_service_window : Machine → MachineStatus → ℕ → Option ℕ → Call Checked
  enter_service_window machine MachineStatus.schedule_service as_of actor = do
    a ← ensure_repair_assignment slug fresh now today machine actor none Note.text
    pure (machine, is_some a)
  enter_service_window machine _ as_of actor =
      escalate machine MachineStatus.schedule_service as_of actor

  unfoldable pub check_window : Machine → ℕ → ℕ → Option ℕ → Call Checked
  check_window machine due as_of actor = do
    policy ← gets (λ db. resolve_effective_policy machine db.policies)
    (if ltb (as_of + policy.schedule_service_window_days) due
        then pure (machine, false)
        else enter_service_window machine machine.current_status as_of actor)

  unfoldable pub open_window : Machine → Option ℕ → ℕ → Option ℕ → Call Checked
  open_window machine none as_of actor = pure (machine, false)
  open_window machine (some due) as_of actor =
      if skips_window machine.current_status
      then pure (machine, false)
      else atomic (check_window machine due as_of actor)

  unfoldable pub evaluate_service_window : Machine → ℕ → Option ℕ → Call Checked
  evaluate_service_window machine as_of actor =
      open_window machine machine.next_service_due_date as_of actor

  -- The three checks of one machine, each on the machine as the one before left it.
  unfoldable pub check_machine : ℕ → Option ℕ → Machine → Call (Bool × Bool × Bool)
  check_machine as_of actor machine = do
    window ← evaluate_service_window machine as_of actor
    warned ← evaluate_warning_escalation window.0 as_of actor
    failed ← evaluate_error_escalation warned.0 as_of actor
    pure (window.1, warned.1, failed.1)

  -- The loop; it is not atomic as a whole.
  unfoldable pub check_machines : ℕ → Option ℕ → Summary → List Machine → Call Summary
  check_machines as_of actor summary [] = pure summary
  check_machines as_of actor summary (m ∷ machines) = do
    checked ← check_machine as_of actor m
    check_machines as_of actor (count_in summary checked) machines

  unfoldable pub run_maintenance_policy_checks : List Machine → ℕ → Option ℕ → Call Summary
  run_maintenance_policy_checks machines as_of actor = do
    chosen ← gets (or_all machines)
    check_machines as_of actor nothing_yet chosen
