-- ===== src/Maintenance/Repairs/Work.antt =====
-- Completing a repair, apps/maintenance/services.py: the machine is back in normal operation, and its
-- next service is due after the interval of its policy.
use codepop.Base.{
  ==_refl, Bool-cases, List, Option, [], ap, ap₂, arith, false, inl, inr, refl, some, subst, sym,
  true, ℕ, ◌+◌, ◌==◌, ◌∙◌, ◌∷◌, ◌≡◌, ◌≤◌,
}
use codepop.Base.Exec.{ReturnsWith, ok, pure, ◌>>=◌, ◌>>◌}
use codepop.Base.Table.{lookup, lookup-insert}
use codepop.Db.{Db}
use codepop.Maintenance.Assignments.Ensured.{IsFresh}
use codepop.Maintenance.Assignments.Rows.{IsTidy, open_one}
use codepop.Maintenance.Assignments.Tidy.{saved_repair-IsTidy}
use codepop.Maintenance.Escalation.{append_machine_status_event, machine_after}
use codepop.Maintenance.Escalation.Status.{append_machine_status_event-ReturnsWith}
use codepop.Maintenance.Models.{
  Machine, MachineStatus, MaintenancePolicy, Note, RepairAssignment, RepairStatus,
  is_actionable_repair,
}
use codepop.Maintenance.Priority.{PolicyDays, resolve_effective_policy}
use codepop.Maintenance.Repairs.{
  actor_id, complete_repair_assignment, is_valid_actor, machine_of, may_become,
  validate_assignment_actor,
}
use codepop.Maintenance.Repairs.Transition.{transition_assignment-cases}
use codepop.Stores.{Store}
use codepop.Users.Models.{User}

-- The machine as a completed service leaves it.
pub record IsServiced (machine : Machine) (days today : ℕ) (m : Machine) : Type 0 where
  pub id : m.id ≡ machine.id
  pub status : m.current_status ≡ MachineStatus.normal
  pub status_date : m.current_status_date ≡ some today
  pub last_service : m.last_service_date ≡ some today
  pub next_service : m.next_service_due_date ≡ some (today + days)

-- The policy of a machine does not depend on its status.
resolve_ended :
    (m : Machine) (day : ℕ) (p : PolicyDays) (policies : List MaintenancePolicy)
    → resolve_effective_policy (machine_after m MachineStatus.repair_end day p) policies
      ≡ resolve_effective_policy m policies
unfolding resolve_effective_policy machine_after
resolve_ended m day p [] = refl
resolve_ended m day p (q ∷ policies) = rw (resolve_ended m day p policies) refl

machine_after-IsServiced :
    (m : Machine) (today : ℕ) (p : PolicyDays) (policies : List MaintenancePolicy)
    → let ended = machine_after m MachineStatus.repair_end today p in
      IsServiced m
        (resolve_effective_policy m policies).max_days_between_service
        today
        (machine_after ended MachineStatus.normal today (resolve_effective_policy ended policies))
unfolding machine_after
machine_after-IsServiced m today p policies = record {
  id = refl;
  status = refl;
  status_date = refl;
  last_service = refl;
  next_service =
      ap (λ (d : PolicyDays). some (today + d.max_days_between_service))
        (resolve_ended m today p policies);
}

module _ (slug : Store → ℕ) (fresh : List (ℕ × RepairAssignment) → ℕ) (now today : ℕ)
    (new : IsFresh fresh) where
  -- The two status events of a completed repair.
  IsServiced-returns :
      (machine : Machine) (actor : Option ℕ) (done : RepairAssignment) (db : Db)
      → IsTidy db.repairs
      → ReturnsWith
          ((append_machine_status_event slug fresh now today machine MachineStatus.repair_end today
                Note.text actor
              >>= λ m.
                  (append_machine_status_event slug fresh now today m MachineStatus.normal today
                      Note.text actor
                    >> pure done))
            db)
          (λ b db'.
            (b ≡ done)
            × IsTidy db'.repairs
            × ((m : Machine) × (lookup machine.id db'.machines ≡ some m)
                × IsServiced machine
                    (resolve_effective_policy machine db.policies).max_days_between_service
                    today
                    m))
  IsServiced-returns machine actor done db t =
      let (m1, db1, e1, k1) =
        append_machine_status_event-ReturnsWith slug fresh now today new machine
          MachineStatus.repair_end today Note.text actor db t in
      let (m2, db2, e2, k2) =
        append_machine_status_event-ReturnsWith slug fresh now today new m1 MachineStatus.normal
          today Note.text actor db1 k1.upkeep.tidy in
      let s : IsServiced machine
          (resolve_effective_policy machine db.policies).max_days_between_service today m2 =
        subst
          (IsServiced machine
            (resolve_effective_policy machine db.policies).max_days_between_service today)
          (sym (
            k2.is_after
            ∙ ap₂
                (λ m ps. machine_after m MachineStatus.normal today (resolve_effective_policy m ps))
                k1.is_after k1.upkeep.policies))
          (machine_after-IsServiced machine today (resolve_effective_policy machine db.policies)
            db.policies) in
      (
        done,
        db2,
        rw (e1, e2) refl,
        (refl, k2.upkeep.tidy, (m2, rw (k2.is_saved, lookup-insert, s.id, ==_refl) refl, s)),
      )

  machine_of_found :
      (a : RepairAssignment) (machine : Machine) (db : Db)
      → lookup a.machine db.machines ≡ some machine
      → machine_of a db ≡ (ok machine, db)
  unfolding machine_of
  machine_of_found a machine db l = rw (machine_of, l) refl

  done-not_open :
      (m : ℕ) (a b : RepairAssignment)
      → b.status ≡ RepairStatus.completed
      → open_one m b ≤ open_one m a
  done-not_open m a b s =
      let c : is_actionable_repair b.status ≡ false = ap is_actionable_repair s in
      elim (Bool-cases (b.machine == m)) [
        | inl p ↦ rw (p, c) (omega arith)
        | inr p ↦ rw p (omega arith)
      ]

  -- If keys are fresh, machines have one open assignment at most, the assignment and its machine are
  -- stored, the actor is valid and the assignment may be completed, then the call returns it as
  -- completed, machines still have one open assignment at most, and the machine is stored as normal,
  -- serviced today and due again after the interval of its policy.
  pub complete_repair_assignment-IsServiced :
      (a : RepairAssignment) (actor : Option User) (machine : Machine) (db : Db)
      → IsTidy db.repairs
      → lookup a.id db.repairs ≡ some a
      → lookup a.machine db.machines ≡ some machine
      → machine.id ≡ a.machine
      → is_valid_actor db.grants a actor false ≡ true
      → may_become a.status RepairStatus.completed ≡ true
      → ReturnsWith (complete_repair_assignment slug fresh now today a actor db) (λ b db'.
        (b.status ≡ RepairStatus.completed)
        × IsTidy db'.repairs
        × ((m : Machine) × (lookup a.machine db'.machines ≡ some m)
            × IsServiced machine
                (resolve_effective_policy machine db.policies).max_days_between_service
                today
                m))
  unfolding complete_repair_assignment validate_assignment_actor
  complete_repair_assignment-IsServiced a actor machine db t f l i v p =
      elim (transition_assignment-cases now a RepairStatus.completed actor (some false) db) [
        | inr (q, e) ↦ absurd (cc)
        | inl (q, (b, db1, e, k)) ↦
            let l1 : lookup b.machine db1.machines ≡ some machine = rw (k.machines, k.machine) l in
            let t1 : IsTidy db1.repairs =
              subst IsTidy (sym k.repairs)
                (saved_repair-IsTidy a b db.repairs k.id (λ m. done-not_open m a b k.status) f t) in
            let (d, db2, e2, (w, t2, (m, l2, s))) =
              IsServiced-returns machine (actor_id actor) b db1 t1 in
            (
              d,
              db2,
              rw (v, e, machine_of_found b machine db1 l1, e2) refl,
              (
                ap (λ x. x.status) w ∙ k.status,
                t2,
                (
                  m,
                  subst (λ x. lookup x db2.machines ≡ some m) i l2,
                  subst
                      (λ ps.
                        IsServiced machine
                          (resolve_effective_policy machine ps).max_days_between_service today m)
                      k.policies s,
                ),
              ),
            )
      ]
