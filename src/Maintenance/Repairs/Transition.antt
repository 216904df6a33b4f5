-- ===== src/Maintenance/Repairs/Transition.antt =====
-- The state machine of repair assignments, apps/maintenance/services.py: what a transition does, and
-- what the time stamps of an assignment tell.
use codepop.Base.{
  Bool, Bool-cases, Option, false, inl, inr, is_some, length, none, refl, some, suc, true, ℕ, ◌||◌,
  ◌≡◌, ◌⊎◌,
}
use codepop.Base.Exec.{ReturnsWith, err}
use codepop.Base.Table.{insert}
use codepop.Db.{Db}
use codepop.Errors.{Error, MaintenanceFault}
use codepop.Maintenance.Assignments.{announce_repair}
use codepop.Maintenance.Models.{RepairAssignment, RepairStatus}
use codepop.Maintenance.Repairs.{
  actor_id, enter_repair_status, may_become, repair_transitions, set_follow_up, stamp,
  transition_assignment,
}
use codepop.Sync.Events.{create_audit_log, create_outbox_event}
use codepop.Sync.Models.{EventType}
use codepop.Users.Models.{User}

-- A status that is entered leaves its time stamp.
abbrev pub IsStampedAs : RepairStatus → RepairAssignment → Type 0
IsStampedAs RepairStatus.scheduled a = Unit
IsStampedAs RepairStatus.acknowledged a = is_some a.acknowledged_at ≡ true
IsStampedAs RepairStatus.in_progress a =
    (is_some a.acknowledged_at ≡ true) × (is_some a.started_at ≡ true)
IsStampedAs RepairStatus.blocked a =
    (is_some a.acknowledged_at ≡ true) × (is_some a.blocked_at ≡ true)
IsStampedAs RepairStatus.completed a =
    (is_some a.acknowledged_at ≡ true) × (is_some a.completed_at ≡ true)
IsStampedAs RepairStatus.closed a =
    (is_some a.acknowledged_at ≡ true)
    × (is_some a.completed_at ≡ true)
    × (is_some a.closed_at ≡ true)
IsStampedAs RepairStatus.canceled a = Unit

abbrev pub IsStamped : RepairAssignment → Type 0
IsStamped a = IsStampedAs a.status a

stamp_some : (o : Option ℕ) (now : ℕ) → is_some (stamp o now) ≡ true
stamp_some none now = refl
stamp_some (some t) now = refl

-- Work that is blocked or completed was accepted before.
accepted_before :
    (s : RepairStatus) (a : RepairAssignment)
    → (may_become s RepairStatus.blocked || may_become s RepairStatus.completed) ≡ true
    → IsStampedAs s a
    → is_some a.acknowledged_at ≡ true
unfolding may_become repair_transitions
accepted_before RepairStatus.scheduled a h k = absurd (cc)
accepted_before RepairStatus.acknowledged a h k = k
accepted_before RepairStatus.in_progress a h k = k.0
accepted_before RepairStatus.blocked a h k = k.0
accepted_before RepairStatus.completed a h k = absurd (cc)
accepted_before RepairStatus.closed a h k = absurd (cc)
accepted_before RepairStatus.canceled a h k = absurd (cc)

completed_before :
    (s : RepairStatus) (a : RepairAssignment)
    → may_become s RepairStatus.closed ≡ true
    → IsStampedAs s a
    → IsStampedAs RepairStatus.completed a
unfolding may_become repair_transitions
completed_before RepairStatus.scheduled a h k = absurd (cc)
completed_before RepairStatus.acknowledged a h k = absurd (cc)
completed_before RepairStatus.in_progress a h k = absurd (cc)
completed_before RepairStatus.blocked a h k = absurd (cc)
completed_before RepairStatus.completed a h k = k
completed_before RepairStatus.closed a h k = absurd (cc)
completed_before RepairStatus.canceled a h k = absurd (cc)

or_left : (a b : Bool) → a ≡ true → (a || b) ≡ true
or_left a b h = rw h refl

or_right : (a b : Bool) → b ≡ true → (a || b) ≡ true
or_right true b h = refl
or_right false b h = h

enter_repair_status-IsStamped :
    (now : ℕ) (s t : RepairStatus) (a : RepairAssignment)
    → may_become s t ≡ true
    → IsStampedAs s a
    → IsStamped (enter_repair_status now t a)
unfolding enter_repair_status
enter_repair_status-IsStamped now s RepairStatus.scheduled a h k = tt
enter_repair_status-IsStamped now s RepairStatus.acknowledged a h k =
    stamp_some a.acknowledged_at now
enter_repair_status-IsStamped now s RepairStatus.in_progress a h k =
    (stamp_some a.acknowledged_at now, stamp_some a.started_at now)
enter_repair_status-IsStamped now s RepairStatus.blocked a h k =
    (accepted_before s a (or_left _ (may_become s RepairStatus.completed) h) k, refl)
enter_repair_status-IsStamped now s RepairStatus.completed a h k =
    (accepted_before s a (or_right (may_become s RepairStatus.blocked) _ h) k, refl)
enter_repair_status-IsStamped now s RepairStatus.closed a h k =
    let (x, y) = completed_before s a h k in (x, y, refl)
enter_repair_status-IsStamped now s RepairStatus.canceled a h k = tt

follow_up_keeps :
    (s : RepairStatus) (a : RepairAssignment) (b : Bool)
    → IsStampedAs s a
    → IsStampedAs s (record a { follow_up_required = b })
follow_up_keeps RepairStatus.scheduled a b k = k
follow_up_keeps RepairStatus.acknowledged a b k = k
follow_up_keeps RepairStatus.in_progress a b k = k
follow_up_keeps RepairStatus.blocked a b k = k
follow_up_keeps RepairStatus.completed a b k = k
follow_up_keeps RepairStatus.closed a b k = k
follow_up_keeps RepairStatus.canceled a b k = k

set_follow_up-IsStamped :
    (o : Option Bool) (a : RepairAssignment) → IsStamped a → IsStamped (set_follow_up o a)
set_follow_up-IsStamped none a k = k
set_follow_up-IsStamped (some b) a k = follow_up_keeps a.status a b k

-- What a transition leaves, if it is allowed: the assignment, with the status and the stamps, under
-- its key, and the newest event and log about it.
pub record IsEntered (t : RepairStatus) (a : RepairAssignment) (db : Db) (b : RepairAssignment)
    (db' : Db) : Type 0 where
  pub status : b.status ≡ t
  pub id : b.id ≡ a.id
  pub machine : b.machine ≡ a.machine
  pub assigned_to : b.assigned_to ≡ a.assigned_to
  pub stamped : IsStamped a → IsStamped b
  pub repairs : db'.repairs ≡ insert b.id b db.repairs
  pub machines : db'.machines ≡ db.machines
  pub policies : db'.policies ≡ db.policies
  pub outbox : length db'.outbox ≡ suc (length db.outbox)
  pub audit : length db'.audit ≡ suc (length db.audit)

entered_fields :
    (now : ℕ) (t : RepairStatus) (a : RepairAssignment) (o : Option Bool)
    → let b = set_follow_up o (enter_repair_status now t a) in
      (b.status ≡ t) × (b.id ≡ a.id) × (b.machine ≡ a.machine) × (b.assigned_to ≡ a.assigned_to)
unfolding enter_repair_status
entered_fields now RepairStatus.scheduled a none = (refl, refl, refl, refl)
entered_fields now RepairStatus.scheduled a (some b) = (refl, refl, refl, refl)
entered_fields now RepairStatus.acknowledged a none = (refl, refl, refl, refl)
entered_fields now RepairStatus.acknowledged a (some b) = (refl, refl, refl, refl)
entered_fields now RepairStatus.in_progress a none = (refl, refl, refl, refl)
entered_fields now RepairStatus.in_progress a (some b) = (refl, refl, refl, refl)
entered_fields now RepairStatus.blocked a none = (refl, refl, refl, refl)
entered_fields now RepairStatus.blocked a (some b) = (refl, refl, refl, refl)
entered_fields now RepairStatus.completed a none = (refl, refl, refl, refl)
entered_fields now RepairStatus.completed a (some b) = (refl, refl, refl, refl)
entered_fields now RepairStatus.closed a none = (refl, refl, refl, refl)
entered_fields now RepairStatus.closed a (some b) = (refl, refl, refl, refl)
entered_fields now RepairStatus.canceled a none = (refl, refl, refl, refl)
entered_fields now RepairStatus.canceled a (some b) = (refl, refl, refl, refl)

-- A transition that the table of transitions allows returns the assignment in its new status, stored,
-- with one more event and log, stamped as its status asks if it was before. Any other transition
-- raises and writes nothing.
pub transition_assignment-cases :
    (now : ℕ) (a : RepairAssignment) (t : RepairStatus) (actor : Option User) (o : Option Bool)
    (db : Db)
    → ((may_become a.status t ≡ true)
        × ReturnsWith (transition_assignment now a t actor o db) (IsEntered t a db))
      ⊎ ((may_become a.status t ≡ false)
          × (transition_assignment now a t actor o db
              ≡ (err (Error.maintenance MaintenanceFault.transition_denied), db)))
unfolding transition_assignment announce_repair create_outbox_event create_audit_log
transition_assignment-cases now a t actor o db = elim (Bool-cases (may_become a.status t)) [
  | inr p ↦ inr (p, rw p refl)
  | inl p ↦
      let b = set_follow_up o (enter_repair_status now t a) in
      let (s, i, m, u) = entered_fields now t a o in
      let called = announce_repair (EventType.repair_entered t) (actor_id actor) b db in
      inl (
        p,
        (
          b,
          called.1,
          rw p refl,
          record {
            status = s;
            id = i;
            machine = m;
            assigned_to = u;
            stamped = λ k.
                set_follow_up-IsStamped o (enter_repair_status now t a)
                  (enter_repair_status-IsStamped now a.status t a p k);
            repairs = refl;
            machines = refl;
            policies = refl;
            outbox = refl;
            audit = refl;
          },
        ),
      )
]
