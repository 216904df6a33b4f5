-- ===== src/Maintenance/Escalation/Total.antt =====
-- `run_maintenance_policy_checks` of apps/maintenance/services.py: it never raises, and a machine
-- counts once at most.
use codepop.Base.{
  Bool, Bool-cases, List, Option, [], ap, arith, false, inl, inr, length, refl, true, ℕ, ◌+◌, ◌∷◌,
  ◌≡◌, ◌≤◌,
}
use codepop.Base.Exec.{ReturnsWith, ok}
use codepop.Db.{Db}
use codepop.Maintenance.Assignments.Ensured.{IsFresh}
use codepop.Maintenance.Assignments.Rows.{IsTidy}
use codepop.Maintenance.Escalation.{
  Summary, check_machine, check_machines, count_in, evaluate_error_escalation,
  evaluate_service_window, evaluate_warning_escalation, is_error, is_warning, nothing_yet, or_all,
  run_maintenance_policy_checks, tick,
}
use codepop.Maintenance.Escalation.Checks.{
  IsMaintained-refl, IsMaintained-trans, evaluate_error_returns, evaluate_warning_returns,
  open_window_returns,
}
use codepop.Maintenance.Escalation.Status.{IsMaintained}
use codepop.Maintenance.Models.{Machine, RepairAssignment}
use codepop.Stores.{Store}

abbrev pub escalations : Bool × Bool × Bool → ℕ
escalations (window, warned, failed) = tick window + tick warned + tick failed

abbrev pub all_escalations : Summary → ℕ
all_escalations s = s.service_window + s.warning_escalation + s.error_escalation

tick_le : (b : Bool) → tick b ≤ 1
tick_le true = omega arith
tick_le false = omega arith

module _ (slug : Store → ℕ) (fresh : List (ℕ × RepairAssignment) → ℕ) (now today : ℕ)
    (new : IsFresh fresh) where
  pub warning_idle :
      (machine : Machine) (as_of : ℕ) (actor : Option ℕ) (db : Db)
      → is_warning machine.current_status ≡ false
      → evaluate_warning_escalation slug fresh now today machine as_of actor db
        ≡ (ok (machine, false), db)
  unfolding evaluate_warning_escalation
  warning_idle machine as_of actor db p = rw p refl

  pub error_idle :
      (machine : Machine) (as_of : ℕ) (actor : Option ℕ) (db : Db)
      → is_error machine.current_status ≡ false
      → evaluate_error_escalation slug fresh now today machine as_of actor db
        ≡ (ok (machine, false), db)
  unfolding evaluate_error_escalation
  error_idle machine as_of actor db p = rw p refl

  -- One machine: one escalation at most.
  check_machine_returns :
      (as_of : ℕ) (actor : Option ℕ) (machine : Machine) (db : Db)
      → IsTidy db.repairs
      → ReturnsWith
          (check_machine slug fresh now today as_of actor machine db)
          (λ r db'. IsMaintained db db' × (escalations r ≤ 1))
  unfolding check_machine evaluate_service_window
  check_machine_returns as_of actor machine db t =
      let (w, db1, e1, k1) =
        open_window_returns slug fresh now today new machine machine.next_service_due_date as_of
          actor db t in
      elim (Bool-cases w.1) [
        | inl p ↦
            let s = k1.moved p in
            let e2 = warning_idle w.0 as_of actor db1 (ap is_warning s) in
            let e3 = error_idle w.0 as_of actor db1 (ap is_error s) in
            ((w.1, false, false), db1, rw (e1, e2, e3) refl, (k1.upkeep, rw p omega arith))
        | inr p ↦
            let (v, db2, e2, k2) =
              evaluate_warning_returns slug fresh now today new w.0 as_of actor db1
                k1.upkeep.tidy in
            let k = IsMaintained-trans db db1 db2 k1.upkeep k2.upkeep in
            elim (Bool-cases v.1) [
              | inl q ↦
                  let e3 = error_idle v.0 as_of actor db2 (ap is_error (k2.moved q)) in
                  ((w.1, v.1, false), db2, rw (e1, e2, e3) refl, (k, rw (p, q) omega arith))
              | inr q ↦
                  let (x, db3, e3, k3) =
                    evaluate_error_returns slug fresh now today new v.0 as_of actor db2
                      k2.upkeep.tidy in
                  (
                    (w.1, v.1, x.1),
                    db3,
                    rw (e1, e2, e3) refl,
                    (
                      IsMaintained-trans db db2 db3 k k3.upkeep,
                      rw (p, q) omega (arith, tick_le x.1),
                    ),
                  )
            ]
      ]

  check_machines_returns :
      (as_of : ℕ) (actor : Option ℕ) (s : Summary) (machines : List Machine) (db : Db)
      → IsTidy db.repairs
      → ReturnsWith (check_machines slug fresh now today as_of actor s machines db) (λ s' db'.
        IsMaintained db db' × (all_escalations s' ≤ all_escalations s + length machines))
  unfolding check_machines
  check_machines_returns as_of actor s [] db t =
      (s, db, refl, (IsMaintained-refl db t, omega arith))
  check_machines_returns as_of actor s (m ∷ machines) db t =
      let (r, db1, e1, (k1, l1)) = check_machine_returns as_of actor m db t in
      let (s', db2, e2, (k2, l2)) =
        check_machines_returns as_of actor (count_in s r) machines db1 k1.tidy in
      (s', db2, rw (e1, e2) refl, (IsMaintained-trans db db1 db2 k1 k2, omega (arith, l1, l2)))

  -- If keys are fresh and machines have one open assignment at most, the checks return: that stays so,
  -- the grants, staff and policies stay as they are, and no more escalations are counted than machines
  -- are checked.
  pub run_maintenance_policy_checks-ReturnsWith :
      (machines : List Machine) (as_of : ℕ) (actor : Option ℕ) (db : Db)
      → IsTidy db.repairs
      → ReturnsWith
          (run_maintenance_policy_checks slug fresh now today machines as_of actor db)
          (λ s db'. IsMaintained db db' × (all_escalations s ≤ length (or_all machines db)))
  unfolding run_maintenance_policy_checks
  run_maintenance_policy_checks-ReturnsWith machines as_of actor db t =
      let (s, db', e, (k, l)) =
        check_machines_returns as_of actor nothing_yet (or_all machines db) db t in
      (s, db', e, (k, omega (arith, l)))
