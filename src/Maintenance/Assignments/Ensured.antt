-- ===== src/Maintenance/Assignments/Ensured.antt =====
-- What `ensure_repair_assignment` of apps/maintenance/services.py promises: the assignment that it
-- returns, when it returns none, and the tables that it leaves alone.
use codepop.Base.{
  ==→eq, Bool-cases, List, Option, false, inl, inr, none, refl, some, true, ℕ, ◌==◌, ◌≡◌, ◌⊎◌,
}
use codepop.Base.Table.{insert, lookup, lookup-insert}
use codepop.Db.{Db}
use codepop.Maintenance.Assignments.Rows.{IsTidy, count_active}
use codepop.Maintenance.Assignments.Staff.{IsFit, IsNobody, IsPicked}
use codepop.Maintenance.Models.{Machine, MachineStatus, RepairAssignment, RepairStatus}
use codepop.Maintenance.Priority.{
  calculate_machine_priority, is_actionable_machine, is_active_for, recommended_assignment_time,
}
use codepop.Users.Models.{User}

-- What upkeep of the assignments leaves alone.
pub record IsUpkeep (db db' : Db) : Type 0 where
  pub grants : db'.grants ≡ db.grants
  pub staff : db'.staff ≡ db.staff
  pub policies : db'.policies ≡ db.policies
  pub machines : db'.machines ≡ db.machines
  pub status_events : db'.status_events ≡ db.status_events
  -- No table changes but the assignments, the outbox and the audit log.
  pub rest : db' ≡ record db { repairs = db'.repairs; outbox = db'.outbox; audit = db'.audit }
  pub tidy : IsTidy db'.repairs

-- The key of a new row is not in use.
abbrev pub IsFresh : (List (ℕ × RepairAssignment) → ℕ) → Type 0
IsFresh fresh = (rows : List (ℕ × RepairAssignment)) → lookup (fresh rows) rows ≡ none

-- The machine works, or is being repaired.
abbrev pub IsSettledMachine : MachineStatus → Type 0
IsSettledMachine status =
    (status ≡ MachineStatus.normal)
    ⊎ ((status ≡ MachineStatus.repair_start) ⊎ (status ≡ MachineStatus.repair_end))

-- The open assignment of the machine that was there, with the one who repairs it.
abbrev pub IsKeptFrom : Machine → Db → RepairAssignment → Type 0
IsKeptFrom machine db a =
    (old : RepairAssignment) × (lookup a.id db.repairs ≡ some old)
    × (is_active_for machine.id old ≡ true)
    × (a.assigned_to ≡ old.assigned_to)
    × (a.status ≡ old.status)

-- A new assignment, of a machine that had none open, to one who is fit for it.
abbrev pub IsNewFor : Machine → Option User → Db → RepairAssignment → Type 0
IsNewFor machine preferred db a =
    (count_active machine.id db.repairs ≡ 0)
    × (lookup a.id db.repairs ≡ none)
    × (a.status ≡ RepairStatus.scheduled)
    × ((u : User) × (a.assigned_to ≡ u.id)
        × IsPicked db.grants machine.store db.staff preferred u
        × IsFit db.grants machine.store (some u))

-- The assignment that is returned: an open one of the machine, up to date, and stored so, while the
-- other rows stay.
pub record IsAssignment (now today : ℕ) (machine : Machine) (preferred : Option User) (db : Db)
    (a : RepairAssignment) (db' : Db) : Type 0 where
  pub is_due : ¬ IsSettledMachine machine.current_status
  pub is_open : is_active_for machine.id a ≡ true
  pub priority_score : a.priority_score ≡ calculate_machine_priority today machine db
  pub scheduled_for : a.scheduled_for ≡ recommended_assignment_time now machine.current_status
  pub stored : lookup a.id db'.repairs ≡ some a
  pub others : (k : ℕ) → ¬ (a.id ≡ k) → lookup k db'.repairs ≡ lookup k db.repairs
  pub origin : IsKeptFrom machine db a ⊎ IsNewFor machine preferred db a

-- No assignment is returned: the machine needs none, or it has none open and nobody can be picked.
abbrev pub IsLeft : Machine → Option User → Db → Type 0
IsLeft machine preferred db =
    IsSettledMachine machine.current_status
    ⊎ ((count_active machine.id db.repairs ≡ 0)
        × IsNobody db.grants machine.store db.staff preferred)

-- What the service returns, with the tables after it.
abbrev pub IsEnsured : ℕ → ℕ → Machine → Option User → Db → Option RepairAssignment → Db → Type 0
IsEnsured now today machine preferred db none db' = (db' ≡ db) × IsLeft machine preferred db
IsEnsured now today machine preferred db (some a) db' =
    IsAssignment now today machine preferred db a db'

-- A call that leaves the tables as they are.
pub unchanged : (db : Db) → IsTidy db.repairs → IsUpkeep db db
unchanged db t = record {
  grants = refl;
  staff = refl;
  policies = refl;
  machines = refl;
  status_events = refl;
  rest = refl;
  tidy = t;
}

pub settled_reading :
    (s : MachineStatus)
    → (is_actionable_machine s ≡ true → ¬ IsSettledMachine s)
      × (is_actionable_machine s ≡ false → IsSettledMachine s)
settled_reading MachineStatus.normal = (λ h. absurd cc, λ h. inl refl)
settled_reading MachineStatus.repair_start = (λ h. absurd cc, λ h. inr (inl refl))
settled_reading MachineStatus.repair_end = (λ h. absurd cc, λ h. inr (inr refl))
settled_reading MachineStatus.schedule_service = (
  λ h w. elim w [ inl e ↦ absurd cc | inr x ↦ elim x [ inl e ↦ absurd cc | inr e ↦ absurd cc ] ],
  λ h. absurd cc,
)
settled_reading MachineStatus.warning = (
  λ h w. elim w [ inl e ↦ absurd cc | inr x ↦ elim x [ inl e ↦ absurd cc | inr e ↦ absurd cc ] ],
  λ h. absurd cc,
)
settled_reading MachineStatus.error = (
  λ h w. elim w [ inl e ↦ absurd cc | inr x ↦ elim x [ inl e ↦ absurd cc | inr e ↦ absurd cc ] ],
  λ h. absurd cc,
)
settled_reading MachineStatus.out_of_order = (
  λ h w. elim w [ inl e ↦ absurd cc | inr x ↦ elim x [ inl e ↦ absurd cc | inr e ↦ absurd cc ] ],
  λ h. absurd cc,
)

pub lookup-insert_other :
    (a : RepairAssignment) (k : ℕ) (rows : List (ℕ × RepairAssignment))
    → ¬ (a.id ≡ k)
    → lookup k (insert a.id a rows) ≡ lookup k rows
lookup-insert_other a k rows n = elim (Bool-cases (a.id == k)) [
  | inl p ↦ absurd (n (==→eq a.id k p))
  | inr p ↦ rw (lookup-insert a.id k a rows, p) refl
]
