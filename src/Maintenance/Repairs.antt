-- ===== src/Maintenance/Repairs.antt =====
-- apps/maintenance/services.py: the work on a repair assignment. `actor` is the user who acts, or
-- `none` for the system; the assignment is the caller's object.
pub mod Transition
pub mod Work
use codepop.Base.{
  Bool, List, Option, [], any, false, none, not, some, true, ℕ, ◌&&◌, ◌==◌, ◌||◌, ◌∷◌,
}
use codepop.Base.Exec.{atomic, err, gets, ok, pure, raise_if, ◌>>=◌, ◌>>◌}
use codepop.Base.Table.{lookup}
use codepop.Db.{Call}
use codepop.Errors.{Error, MaintenanceFault}
use codepop.Maintenance.Assignments.{announce_repair, ensure_repair_assignment}
use codepop.Maintenance.Escalation.{append_machine_status_event}
use codepop.Maintenance.Models.{
  Machine, MachineStatus, Note, RepairAssignment, RepairStatus, is_clean,
}
use codepop.Stores.{Store}
use codepop.Sync.Models.{EventType}
use codepop.Users.Models.{
  Grants, User, is_manager_or_admin, is_repair_staff, is_super_admin, signed_in,
}
use codepop.Users.Permissions.{user_can_manage_store, user_has_store_scope}

-- `REPAIR_ASSIGNMENT_TRANSITIONS`
unfoldable pub repair_transitions : RepairStatus → List RepairStatus
repair_transitions RepairStatus.scheduled =
    RepairStatus.acknowledged ∷ RepairStatus.in_progress ∷ RepairStatus.canceled ∷ []
repair_transitions RepairStatus.acknowledged =
    RepairStatus.in_progress ∷ RepairStatus.blocked ∷ RepairStatus.canceled ∷ []
repair_transitions RepairStatus.in_progress =
    RepairStatus.blocked ∷ RepairStatus.completed ∷ RepairStatus.canceled ∷ []
repair_transitions RepairStatus.blocked =
    RepairStatus.acknowledged ∷ RepairStatus.in_progress ∷ RepairStatus.completed
    ∷ RepairStatus.canceled ∷ []
repair_transitions RepairStatus.completed = RepairStatus.closed ∷ []
repair_transitions _ = []

abbrev pub repair_code : RepairStatus → ℕ
repair_code RepairStatus.scheduled = 0
repair_code RepairStatus.acknowledged = 1
repair_code RepairStatus.in_progress = 2
repair_code RepairStatus.blocked = 3
repair_code RepairStatus.completed = 4
repair_code RepairStatus.closed = 5
repair_code RepairStatus.canceled = 6

-- `new_status not in allowed`
unfoldable pub may_become : RepairStatus → RepairStatus → Bool
may_become from to = any (λ s. repair_code to == repair_code s) (repair_transitions from)

abbrev pub actor_id : Option User → Option ℕ
actor_id none = none
actor_id (some u) = some u.id

-- The actor is the system, a super admin, the assignee, or, where that is allowed, one who manages
-- the store.
unfoldable pub is_valid_actor : Grants → RepairAssignment → Option User → Bool → Bool
is_valid_actor grants a none oversight = true
is_valid_actor grants a (some u) oversight =
    is_super_admin u.role
    || ((is_repair_staff u.role && (u.id == a.assigned_to))
        || (oversight && user_can_manage_store grants (signed_in u) a.store))

unfoldable pub validate_assignment_actor : RepairAssignment → Option User → Bool → Call (Unit {0})
validate_assignment_actor a actor oversight = do
  grants ← gets (λ db. db.grants)
  raise_if (not (is_valid_actor grants a actor oversight))
      (Error.maintenance MaintenanceFault.not_your_assignment)

-- The first time stamp stays.
abbrev pub stamp : Option ℕ → ℕ → Option ℕ
stamp none now = some now
stamp (some t) now = some t

-- The fields that a status sets on entry.
unfoldable pub enter_repair_status : ℕ → RepairStatus → RepairAssignment → RepairAssignment
enter_repair_status now RepairStatus.acknowledged a = record a {
  status = RepairStatus.acknowledged;
  acknowledged_at = stamp a.acknowledged_at now;
}
enter_repair_status now RepairStatus.in_progress a = record a {
  status = RepairStatus.in_progress;
  acknowledged_at = stamp a.acknowledged_at now;
  started_at = stamp a.started_at now;
}
enter_repair_status now RepairStatus.blocked a = record a {
  status = RepairStatus.blocked;
  blocked_at = some now;
}
enter_repair_status now RepairStatus.completed a = record a {
  status = RepairStatus.completed;
  completed_at = some now;
}
enter_repair_status now RepairStatus.closed a = record a {
  status = RepairStatus.closed;
  closed_at = some now;
  follow_up_required = false;
}
enter_repair_status now status a = record a { status = status }

-- `if follow_up_required is not None:`
abbrev pub set_follow_up : Option Bool → RepairAssignment → RepairAssignment
set_follow_up none a = a
set_follow_up (some b) a = record a { follow_up_required = b }

unfoldable pub transition_assignment :
    ℕ → RepairAssignment → RepairStatus → Option User → Option Bool → Call RepairAssignment
transition_assignment now a new_status actor follow_up_required = do
  raise_if (not (may_become a.status new_status))
      (Error.maintenance MaintenanceFault.transition_denied)
  announce_repair (EventType.repair_entered new_status) (actor_id actor)
      (set_follow_up follow_up_required (enter_repair_status now new_status a))

-- `assignment.machine`
unfoldable pub machine_of : RepairAssignment → Call Machine
machine_of a db = elim (lookup a.machine db.machines) [
  | some m ↦ (ok m, db)
  | none ↦ (err Error.does_not_exist, db)
]

module _ (slug : Store → ℕ) (fresh : List (ℕ × RepairAssignment) → ℕ) (now today : ℕ) where
  unfoldable pub acknowledge_repair_assignment :
      RepairAssignment → Option User → Call RepairAssignment
  acknowledge_repair_assignment a actor = atomic (do
    validate_assignment_actor a actor false
    transition_assignment now a RepairStatus.acknowledged actor none)

  unfoldable pub start_repair_assignment : RepairAssignment → Option User → Call RepairAssignment
  start_repair_assignment a actor = atomic (do
    validate_assignment_actor a actor false
    started ← transition_assignment now a RepairStatus.in_progress actor none
    machine ← machine_of started
    append_machine_status_event slug fresh now today machine MachineStatus.repair_start today
        Note.text (actor_id actor)
    pure started)

  unfoldable pub block_repair_assignment :
      RepairAssignment → Option User → Option Bool → Call RepairAssignment
  block_repair_assignment a actor follow_up_required = atomic (do
    validate_assignment_actor a actor false
    transition_assignment now a RepairStatus.blocked actor follow_up_required)

  unfoldable pub add_repair_assignment_note :
      RepairAssignment → Option User → Note → Option Bool → Call RepairAssignment
  add_repair_assignment_note a actor note follow_up_required = atomic (do
    validate_assignment_actor a actor true
    raise_if (not (is_clean note)) (Error.maintenance MaintenanceFault.note_missing)
    announce_repair EventType.repair_updated (actor_id actor) (set_follow_up follow_up_required a))

  unfoldable pub complete_repair_assignment : RepairAssignment → Option User → Call RepairAssignment
  complete_repair_assignment a actor = atomic (do
    validate_assignment_actor a actor false
    done ← transition_assignment now a RepairStatus.completed actor (some false)
    machine ← machine_of done
    repaired ←
        append_machine_status_event slug fresh now today machine MachineStatus.repair_end today
          Note.text (actor_id actor)
    append_machine_status_event slug fresh now today repaired MachineStatus.normal today Note.text
        (actor_id actor)
    pure done)

  unfoldable pub close_repair_assignment : RepairAssignment → Option User → Call RepairAssignment
  close_repair_assignment a actor = atomic (do
    validate_assignment_actor a actor true
    transition_assignment now a RepairStatus.closed actor none)

  unfoldable pub claim_machine_for_repair : Machine → User → Call (Option RepairAssignment)
  claim_machine_for_repair machine actor = atomic (do
    raise_if (not (is_repair_staff actor.role)) (Error.maintenance MaintenanceFault.claim_denied)
    grants ← gets (λ db. db.grants)
    raise_if (not (user_has_store_scope grants (signed_in actor) machine.store))
        (Error.maintenance MaintenanceFault.claim_out_of_scope)
    ensure_repair_assignment slug fresh now today machine (some actor.id) (some actor) Note.text)

  -- The role and the scope of the actor, if there is one.
  unfoldable pub may_assign : Machine → Option User → Call (Unit {0})
  may_assign machine none = pure tt
  may_assign machine (some u) = do
    grants ← gets (λ db. db.grants)
    raise_if (not (is_manager_or_admin u.role || is_super_admin u.role))
        (Error.maintenance MaintenanceFault.assign_denied)
    raise_if
        (not (is_super_admin u.role || user_can_manage_store grants (signed_in u) machine.store))
        (Error.maintenance MaintenanceFault.assign_out_of_scope)

  unfoldable pub auto_assign_machine : Machine → Option User → Call (Option RepairAssignment)
  auto_assign_machine machine actor = atomic (do
    may_assign machine actor
    ensure_repair_assignment slug fresh now today machine (actor_id actor) none Note.text)
