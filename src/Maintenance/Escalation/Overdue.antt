-- ===== src/Maintenance/Escalation/Overdue.antt =====
-- The limits of the policy checks of apps/maintenance/services.py: what becomes of a machine that has
-- been in WARNING or ERROR for too long.
use codepop.Base.{
  ==_refl, Bool-cases, List, Option, ap, arith, false, inl, inr, ltb, none, refl, some, subst, sym,
  true, ℕ, ◌+◌, ◌==◌, ◌≡◌, ◌≢◌, ◌≤◌, ◌⊎◌,
}
use codepop.Base.Exec.{ReturnsWith, ok}
use codepop.Base.Table.{lookup, lookup-insert}
use codepop.Db.{Db}
use codepop.Maintenance.Assignments.Ensured.{IsFresh}
use codepop.Maintenance.Assignments.Rows.{IsTidy}
use codepop.Maintenance.Escalation.{
  check_machine, ends_service, error_limit, escalate, escalate_after, evaluate_error_escalation,
  evaluate_service_window, evaluate_warning_escalation, is_error, is_warning, machine_after,
  open_window, skips_window,
}
use codepop.Maintenance.Escalation.Checks.{machine_after-status}
use codepop.Maintenance.Escalation.Status.{append_machine_status_event-ReturnsWith}
use codepop.Maintenance.Escalation.Total.{error_idle, warning_idle}
use codepop.Maintenance.Models.{Machine, MachineStatus, MaintenancePolicy, Note, RepairAssignment}
use codepop.Maintenance.Priority.{resolve_effective_policy}
use codepop.Stores.{Store}

-- A machine whose warning or error has lasted as long as it may.
abbrev pub IsOverdue : Machine → List MaintenancePolicy → ℕ → Type 0
IsOverdue machine policies as_of =
    (date : ℕ) × (machine.current_status_date ≡ some date)
    × (((machine.current_status ≡ MachineStatus.warning)
          × (date + (resolve_effective_policy machine policies).warning_shutdown_days ≤ as_of))
        ⊎ ((machine.current_status ≡ MachineStatus.error)
            × (machine.machine_type.error_max_days ≢ 0)
            × (date + machine.machine_type.error_max_days ≤ as_of)))

-- The machine that is stored is out of order.
abbrev pub IsOut : ℕ → Db → Type 0
IsOut id db =
    (m : Machine) × (lookup id db.machines ≡ some m)
    × (m.current_status ≡ MachineStatus.out_of_order)

module _ (slug : Store → ℕ) (fresh : List (ℕ × RepairAssignment) → ℕ) (now today : ℕ)
    (new : IsFresh fresh) where
  machine_after-id :
      (machine : Machine) (status : MachineStatus) (day : ℕ) (db : Db) (m : Machine)
      → m ≡ machine_after machine status day (resolve_effective_policy machine db.policies)
      → m.id ≡ machine.id
  unfolding machine_after
  machine_after-id machine status day db m e = elim (Bool-cases (ends_service status)) [
    | inl p ↦ ap (λ x. x.id) (rw p at e)
    | inr p ↦ ap (λ x. x.id) (rw p at e)
  ]

  escalate_after-IsOut :
      (machine : Machine) (date limit as_of : ℕ) (actor : Option ℕ) (db : Db)
      → IsTidy db.repairs
      → date + limit ≤ as_of
      → ReturnsWith
          (escalate_after slug fresh now today machine (some date) limit as_of actor db)
          (λ c db'. (c.0.current_status ≡ MachineStatus.out_of_order) × IsOut machine.id db')
  unfolding escalate_after escalate
  escalate_after-IsOut machine date limit as_of actor db t l =
      let (m, db', e, k) =
        append_machine_status_event-ReturnsWith slug fresh now today new machine
          MachineStatus.out_of_order as_of Note.text actor db t in
      let p : ltb as_of (date + limit) ≡ false = ground arith in
      let o =
        machine_after-status slug fresh now today new machine MachineStatus.out_of_order as_of db m
          k.is_after in
      let i = machine_after-id machine MachineStatus.out_of_order as_of db m k.is_after in
      let f : lookup machine.id db'.machines ≡ some m =
        rw (k.is_saved, lookup-insert, i, ==_refl) refl in
      ((m, true), db', rw (p, e) refl, (o, (m, f, o)))

  window_idle :
      (machine : Machine) (due : Option ℕ) (as_of : ℕ) (actor : Option ℕ) (db : Db)
      → skips_window machine.current_status ≡ true
      → open_window slug fresh now today machine due as_of actor db ≡ (ok (machine, false), db)
  unfolding open_window
  window_idle machine none as_of actor db p = refl
  window_idle machine (some due) as_of actor db p = rw p refl

  warning-IsOut :
      (machine : Machine) (date as_of : ℕ) (actor : Option ℕ) (db : Db)
      → IsTidy db.repairs
      → machine.current_status_date ≡ some date
      → machine.current_status ≡ MachineStatus.warning
      → date + (resolve_effective_policy machine db.policies).warning_shutdown_days ≤ as_of
      → ReturnsWith
          (evaluate_warning_escalation slug fresh now today machine as_of actor db)
          (λ c db'. (c.0.current_status ≡ MachineStatus.out_of_order) × IsOut machine.id db')
  unfolding evaluate_warning_escalation
  warning-IsOut machine date as_of actor db t d s l =
      let limit = (resolve_effective_policy machine db.policies).warning_shutdown_days in
      let (c, db', e, k) =
        subst
          (λ x.
            ReturnsWith (escalate_after slug fresh now today machine x limit as_of actor db)
              (λ c db'. (c.0.current_status ≡ MachineStatus.out_of_order) × IsOut machine.id db'))
          (sym d) (escalate_after-IsOut machine date limit as_of actor db t l) in
      let p : is_warning machine.current_status ≡ true = ap is_warning s in
      (c, db', rw (p, e) refl, k)

  error-IsOut :
      (machine : Machine) (date as_of : ℕ) (actor : Option ℕ) (db : Db)
      → IsTidy db.repairs
      → machine.current_status_date ≡ some date
      → machine.current_status ≡ MachineStatus.error
      → machine.machine_type.error_max_days ≢ 0
      → date + machine.machine_type.error_max_days ≤ as_of
      → ReturnsWith
          (evaluate_error_escalation slug fresh now today machine as_of actor db)
          (λ c db'. (c.0.current_status ≡ MachineStatus.out_of_order) × IsOut machine.id db')
  unfolding evaluate_error_escalation error_limit
  error-IsOut machine date as_of actor db t d s z l =
      let limit = machine.machine_type.error_max_days in
      let n : (limit == 0) ≡ false = ground arith in
      let (c, db', e, k) = escalate_after-IsOut machine date limit as_of actor db t l in
      let e' : error_limit slug fresh now today machine machine.current_status_date as_of actor db
          ≡ (ok c, db') =
        subst (λ x. error_limit slug fresh now today machine x as_of actor db ≡ (ok c, db')) (sym d)
          (rw (n, e) refl) in
      let p : is_error machine.current_status ≡ true = ap is_error s in (c, db', rw (p, e') refl, k)

  -- If keys are fresh and machines have one open assignment at most, the check of a machine that has
  -- been in WARNING or ERROR for its limit returns, and the machine is stored as out of order.
  pub check_machine-IsOut :
      (as_of : ℕ) (actor : Option ℕ) (machine : Machine) (db : Db)
      → IsTidy db.repairs
      → IsOverdue machine db.policies as_of
      → ReturnsWith
          (check_machine slug fresh now today as_of actor machine db)
          (λ r db'. IsOut machine.id db')
  unfolding check_machine evaluate_service_window
  check_machine-IsOut as_of actor machine db t (date, d, inl (s, l)) =
      let e1 =
        window_idle machine machine.next_service_due_date as_of actor db (ap skips_window s) in
      let (c, db', e2, (o, k)) = warning-IsOut machine date as_of actor db t d s l in
      let e3 = error_idle slug fresh now today new c.0 as_of actor db' (ap is_error o) in
      ((false, c.1, false), db', rw (e1, e2, e3) refl, k)
  check_machine-IsOut as_of actor machine db t (date, d, inr (s, z, l)) =
      let e1 =
        window_idle machine machine.next_service_due_date as_of actor db (ap skips_window s) in
      let e2 = warning_idle slug fresh now today new machine as_of actor db (ap is_warning s) in
      let (c, db', e3, (o, k)) = error-IsOut machine date as_of actor db t d s z l in
      ((false, false, c.1), db', rw (e1, e2, e3) refl, k)
