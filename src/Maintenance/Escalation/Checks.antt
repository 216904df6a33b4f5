-- ===== src/Maintenance/Escalation/Checks.antt =====
-- The policy checks of apps/maintenance/services.py: they never raise, and what they count.
use codepop.Base.{
  Bool-cases, List, Option, ap, false, inl, inr, is_some, ltb, none, refl, some, true, ℕ, ◌+◌, ◌==◌,
  ◌∙◌, ◌≡◌,
}
use codepop.Base.Exec.{ReturnsWith}
use codepop.Db.{Db}
use codepop.Maintenance.Assignments.Ensure.{ensure_repair_assignment-ReturnsWith}
use codepop.Maintenance.Assignments.Ensured.{IsFresh, IsUpkeep}
use codepop.Maintenance.Assignments.Rows.{IsTidy}
use codepop.Maintenance.Escalation.{
  Checked, check_window, ends_service, enter_service_window, error_limit, escalate, escalate_after,
  evaluate_error_escalation, evaluate_warning_escalation, is_error, is_warning, keep_assigned,
  machine_after, open_window, skips_window,
}
use codepop.Maintenance.Escalation.Status.{IsMaintained, append_machine_status_event-ReturnsWith}
use codepop.Maintenance.Models.{Machine, MachineStatus, Note, RepairAssignment}
use codepop.Maintenance.Priority.{resolve_effective_policy}
use codepop.Stores.{Store}

pub upkeep-IsMaintained : (db db' : Db) → IsUpkeep db db' → IsMaintained db db'
upkeep-IsMaintained db db' k = record {
  grants = k.grants;
  staff = k.staff;
  policies = k.policies;
  tidy = k.tidy;
}

pub IsMaintained-refl : (db : Db) → IsTidy db.repairs → IsMaintained db db
IsMaintained-refl db t = record { grants = refl; staff = refl; policies = refl; tidy = t }

pub IsMaintained-trans : (a b c : Db) → IsMaintained a b → IsMaintained b c → IsMaintained a c
IsMaintained-trans a b c h k = record {
  grants = k.grants ∙ h.grants;
  staff = k.staff ∙ h.staff;
  policies = k.policies ∙ h.policies;
  tidy = k.tidy;
}

-- A check whose result counts leaves the machine in a given status.
pub record IsChecked (status : MachineStatus) (db : Db) (c : Checked) (db' : Db) : Type 0 where
  pub upkeep : IsMaintained db db'
  pub moved : c.1 ≡ true → c.0.current_status ≡ status

pub idle-IsChecked :
    (status : MachineStatus) (machine : Machine) (db : Db)
    → IsTidy db.repairs
    → IsChecked status db (machine, false) db
idle-IsChecked status machine db t = record {
  upkeep = IsMaintained-refl db t;
  moved = λ h. absurd (cc);
}

module _ (slug : Store → ℕ) (fresh : List (ℕ × RepairAssignment) → ℕ) (now today : ℕ)
    (new : IsFresh fresh) where
  pub machine_after-status :
      (machine : Machine) (status : MachineStatus) (day : ℕ) (db : Db) (m : Machine)
      → m ≡ machine_after machine status day (resolve_effective_policy machine db.policies)
      → m.current_status ≡ status
  unfolding machine_after
  machine_after-status machine status day db m e = elim (Bool-cases (ends_service status)) [
    | inl p ↦ ap (λ x. x.current_status) (rw p at e)
    | inr p ↦ ap (λ x. x.current_status) (rw p at e)
  ]

  escalate_returns :
      (machine : Machine) (status : MachineStatus) (day : ℕ) (actor : Option ℕ) (db : Db)
      → IsTidy db.repairs
      → ReturnsWith
          (escalate slug fresh now today machine status day actor db)
          (IsChecked status db)
  unfolding escalate machine_after
  escalate_returns machine status day actor db t =
      let (m, db', e, k) =
        append_machine_status_event-ReturnsWith slug fresh now today new machine status day
          Note.text actor db t in
      (
        (m, true),
        db',
        rw e refl,
        record {
          upkeep = k.upkeep;
          moved = λ h. machine_after-status machine status day db m k.is_after;
        },
      )

  keep_assigned_returns :
      (status : MachineStatus) (machine : Machine) (actor : Option ℕ) (db : Db)
      → IsTidy db.repairs
      → ReturnsWith (keep_assigned slug fresh now today machine actor db) (IsChecked status db)
  unfolding keep_assigned
  keep_assigned_returns status machine actor db t =
      let (a, db', e, (k, o)) =
        ensure_repair_assignment-ReturnsWith slug fresh now today machine actor none Note.empty db
          new tt t in
      (
        (machine, false),
        db',
        rw e refl,
        record { upkeep = upkeep-IsMaintained db db' k; moved = λ h. absurd (cc) },
      )

  escalate_after_returns :
      (machine : Machine) (date : Option ℕ) (limit as_of : ℕ) (actor : Option ℕ) (db : Db)
      → IsTidy db.repairs
      → ReturnsWith
          (escalate_after slug fresh now today machine date limit as_of actor db)
          (IsChecked MachineStatus.out_of_order db)
  unfolding escalate_after
  escalate_after_returns machine none limit as_of actor db t =
      ((machine, false), db, refl, idle-IsChecked MachineStatus.out_of_order machine db t)
  escalate_after_returns machine (some date) limit as_of actor db t =
      elim (Bool-cases (ltb as_of (date + limit))) [
        | inl p ↦ rw p (keep_assigned_returns MachineStatus.out_of_order machine actor db t)
        | inr p ↦ rw p (escalate_returns machine MachineStatus.out_of_order as_of actor db t)
      ]

  pub evaluate_warning_returns :
      (machine : Machine) (as_of : ℕ) (actor : Option ℕ) (db : Db)
      → IsTidy db.repairs
      → ReturnsWith
          (evaluate_warning_escalation slug fresh now today machine as_of actor db)
          (IsChecked MachineStatus.out_of_order db)
  unfolding evaluate_warning_escalation
  evaluate_warning_returns machine as_of actor db t =
      elim (Bool-cases (is_warning machine.current_status)) [
        | inl p ↦
            let limit = (resolve_effective_policy machine db.policies).warning_shutdown_days in
            let (c, db', e, k) =
              escalate_after_returns machine machine.current_status_date limit as_of actor db t in
            (c, db', rw (p, e) refl, k)
        | inr p ↦ (
          (machine, false),
          db,
          rw p refl,
          idle-IsChecked MachineStatus.out_of_order machine db t,
        )
      ]

  error_limit_returns :
      (machine : Machine) (date : Option ℕ) (as_of : ℕ) (actor : Option ℕ) (db : Db)
      → IsTidy db.repairs
      → ReturnsWith
          (error_limit slug fresh now today machine date as_of actor db)
          (IsChecked MachineStatus.out_of_order db)
  unfolding error_limit
  error_limit_returns machine none as_of actor db t =
      ((machine, false), db, refl, idle-IsChecked MachineStatus.out_of_order machine db t)
  error_limit_returns machine (some date) as_of actor db t =
      let limit = machine.machine_type.error_max_days in
      elim (Bool-cases (limit == 0)) [
        | inl p ↦ rw p (keep_assigned_returns MachineStatus.out_of_order machine actor db t)
        | inr p ↦ rw p (escalate_after_returns machine (some date) limit as_of actor db t)
      ]

  pub evaluate_error_returns :
      (machine : Machine) (as_of : ℕ) (actor : Option ℕ) (db : Db)
      → IsTidy db.repairs
      → ReturnsWith
          (evaluate_error_escalation slug fresh now today machine as_of actor db)
          (IsChecked MachineStatus.out_of_order db)
  unfolding evaluate_error_escalation
  evaluate_error_returns machine as_of actor db t =
      elim (Bool-cases (is_error machine.current_status)) [
        | inl p ↦
            let (c, db', e, k) =
              error_limit_returns machine machine.current_status_date as_of actor db t in
            (c, db', rw (p, e) refl, k)
        | inr p ↦ (
          (machine, false),
          db,
          rw p refl,
          idle-IsChecked MachineStatus.out_of_order machine db t,
        )
      ]

  enter_window_returns :
      (machine : Machine) (status : MachineStatus) (as_of : ℕ) (actor : Option ℕ) (db : Db)
      → IsTidy db.repairs
      → machine.current_status ≡ status
      → ReturnsWith
          (enter_service_window slug fresh now today machine status as_of actor db)
          (IsChecked MachineStatus.schedule_service db)
  unfolding enter_service_window
  enter_window_returns machine MachineStatus.schedule_service as_of actor db t s =
      let (a, db', e, (k, o)) =
        ensure_repair_assignment-ReturnsWith slug fresh now today machine actor none Note.text db
          new tt t in
      (
        (machine, is_some a),
        db',
        rw e refl,
        record { upkeep = upkeep-IsMaintained db db' k; moved = λ h. s },
      )
  enter_window_returns machine MachineStatus.normal as_of actor db t s =
      escalate_returns machine MachineStatus.schedule_service as_of actor db t
  enter_window_returns machine MachineStatus.repair_start as_of actor db t s =
      escalate_returns machine MachineStatus.schedule_service as_of actor db t
  enter_window_returns machine MachineStatus.repair_end as_of actor db t s =
      escalate_returns machine MachineStatus.schedule_service as_of actor db t
  enter_window_returns machine MachineStatus.warning as_of actor db t s =
      escalate_returns machine MachineStatus.schedule_service as_of actor db t
  enter_window_returns machine MachineStatus.error as_of actor db t s =
      escalate_returns machine MachineStatus.schedule_service as_of actor db t
  enter_window_returns machine MachineStatus.out_of_order as_of actor db t s =
      escalate_returns machine MachineStatus.schedule_service as_of actor db t

  check_window_returns :
      (machine : Machine) (due as_of : ℕ) (actor : Option ℕ) (db : Db)
      → IsTidy db.repairs
      → ReturnsWith
          (check_window slug fresh now today machine due as_of actor db)
          (IsChecked MachineStatus.schedule_service db)
  unfolding check_window
  check_window_returns machine due as_of actor db t =
      let days = (resolve_effective_policy machine db.policies).schedule_service_window_days in
      elim (Bool-cases (ltb (as_of + days) due)) [
        | inl p ↦ (
          (machine, false),
          db,
          rw p refl,
          idle-IsChecked MachineStatus.schedule_service machine db t,
        )
        | inr p ↦ rw p (enter_window_returns machine machine.current_status as_of actor db t refl)
      ]

  pub open_window_returns :
      (machine : Machine) (due : Option ℕ) (as_of : ℕ) (actor : Option ℕ) (db : Db)
      → IsTidy db.repairs
      → ReturnsWith
          (open_window slug fresh now today machine due as_of actor db)
          (IsChecked MachineStatus.schedule_service db)
  unfolding open_window
  open_window_returns machine none as_of actor db t =
      ((machine, false), db, refl, idle-IsChecked MachineStatus.schedule_service machine db t)
  open_window_returns machine (some due) as_of actor db t =
      elim (Bool-cases (skips_window machine.current_status)) [
        | inl p ↦ (
          (machine, false),
          db,
          rw p refl,
          idle-IsChecked MachineStatus.schedule_service machine db t,
        )
        | inr p ↦
            let (c, db', e, k) = check_window_returns machine due as_of actor db t in
            (c, db', rw (p, e) refl, k)
      ]
