-- ===== src/Maintenance/Assignments.antt =====
-- apps/maintenance/services.py: choosing who repairs a machine, and the assignment itself. `slug` is
-- the slug of a store's city, `fresh` the key of a row that is added to a table.
pub mod Rows
pub mod Tidy
pub mod Staff
pub mod Ensured
pub mod Ensure
use codepop.Base.{
  Bool, List, Option, [], false, if◌then◌else◌, ltb, none, not, some, true, ℕ, ◌&&◌, ◌+◌, ◌==◌,
  ◌||◌, ◌∷◌,
}
use codepop.Base.Exec.{atomic, gets, ok, pure, raise_if, ◌>>=◌, ◌>>◌}
use codepop.Base.Table.{insert}
use codepop.Db.{Call, Db}
use codepop.Errors.{Error, MaintenanceFault}
use codepop.Maintenance.Models.{
  Machine, Note, RepairAssignment, RepairStatus, StaffMember, is_actionable_repair, is_clean,
}
use codepop.Maintenance.Priority.{
  calculate_machine_priority, get_active_repair_assignment, is_actionable_machine,
  recommended_assignment_time,
}
use codepop.Stores.{Store}
use codepop.Sync.Events.{create_audit_log, create_outbox_event, store_scope}
use codepop.Sync.Models.{AggregateType, AuditAction, EventType}
use codepop.Users.Models.{Grants, User, is_repair_staff, signed_in}
use codepop.Users.Permissions.{is_assigned, user_has_store_scope}

-- `Count("repair_assignments", filter=Q(status in actionable))`
unfoldable pub count_open_assignments : ℕ → List (ℕ × RepairAssignment) → ℕ
count_open_assignments user [] = 0
count_open_assignments user ((id, a) ∷ rows) =
    (if (a.assigned_to == user) && is_actionable_repair a.status then 1 else 0)
    + count_open_assignments user rows

-- Active repair staff who are assigned to the store.
abbrev pub is_candidate : Grants → Store → StaffMember → Bool
is_candidate grants store m =
    is_repair_staff m.user.role
    && (m.is_active && is_assigned m.user.id store.id grants.store_assignments)

-- `.order_by("open_assignment_count", "last_name", "first_name", "email")`
abbrev pub is_less_busy : List (ℕ × RepairAssignment) → StaffMember → StaffMember → Bool
is_less_busy repairs a b =
    let x = count_open_assignments a.user.id repairs in
    let y = count_open_assignments b.user.id repairs in
    if ltb x y then true else if ltb y x then false else ltb a.name b.name

abbrev pub first_staff :
    List (ℕ × RepairAssignment) → StaffMember → Option StaffMember → Option StaffMember
first_staff repairs a none = some a
first_staff repairs a (some b) = if is_less_busy repairs b a then some b else some a

unfoldable pub select_repair_assignee :
    Grants → Store → List (ℕ × RepairAssignment) → List StaffMember → Option StaffMember
select_repair_assignee grants store repairs [] = none
select_repair_assignee grants store repairs (m ∷ staff) =
    let rest = select_repair_assignee grants store repairs staff in
    if is_candidate grants store m then first_staff repairs m rest else rest

abbrev pub user_of : Option StaffMember → Option User
user_of none = none
user_of (some m) = some m.user

-- `assignment.save()`
abbrev pub save_repair : RepairAssignment → Call (Unit {0})
save_repair a db = (ok tt, record db { repairs = insert a.id a db.repairs })

-- The save, the event and the log that end a service. The scope of the event is
-- `_assignment_scope_payload`, without the assignee.
unfoldable pub announce_repair : EventType → Option ℕ → RepairAssignment → Call RepairAssignment
announce_repair event actor a = do
  save_repair a
  create_outbox_event event AggregateType.repair_assignment a.id (store_scope a.store)
  create_audit_log actor (AuditAction.event event) a.id
  pure a

abbrev pub same_key : ℕ × ℕ → ℕ × ℕ → Bool
same_key a b = (a.0 == b.0) && (a.1 == b.1)

module _ (slug : Store → ℕ) (fresh : List (ℕ × RepairAssignment) → ℕ) (now today : ℕ) where
  abbrev pub route_batch_key_for_machine : Machine → ℕ × ℕ
  route_batch_key_for_machine machine = (machine.store.region.code, slug machine.store)

  -- The row of a new assignment; the score and the time are given by the caller, or computed.
  unfoldable pub new_repair_assignment :
      ℕ → Machine → User → Option ℕ → Option ℕ → Bool → Db → RepairAssignment
  new_repair_assignment id machine assigned_to priority_score scheduled_for by_system db = record {
    id = id;
    assigned_to = assigned_to.id;
    machine = machine.id;
    store = machine.store;
    priority_score = elim priority_score [
      | some score ↦ score
      | none ↦ calculate_machine_priority today machine db
    ];
    status = RepairStatus.scheduled;
    scheduled_for = elim scheduled_for [
      | some time ↦ time
      | none ↦ recommended_assignment_time now machine.current_status
    ];
    acknowledged_at = none;
    started_at = none;
    blocked_at = none;
    completed_at = none;
    closed_at = none;
    created_by_system = by_system;
    route_batch_key = route_batch_key_for_machine machine;
    follow_up_required = false;
    created_at = now;
  }

  unfoldable pub create_repair_assignment :
      Machine → User → Option ℕ → Option ℕ → Bool → Option ℕ → Call RepairAssignment
  create_repair_assignment machine assigned_to priority_score scheduled_for by_system actor =
      atomic (do
        raise_if (not (is_repair_staff assigned_to.role))
            (Error.maintenance MaintenanceFault.assignee_not_repair_staff)
        grants ← gets (λ db. db.grants)
        raise_if (not (user_has_store_scope grants (signed_in assigned_to) machine.store))
            (Error.maintenance MaintenanceFault.assignee_out_of_scope)
        a ← gets (λ db.
            new_repair_assignment (fresh db.repairs) machine assigned_to priority_score
              scheduled_for by_system db)
        announce_repair EventType.repair_created actor a)

  -- An assignment brought up to date, and whether that changed a field of it.
  abbrev pub reprioritized : Machine → ℕ → RepairAssignment → RepairAssignment
  reprioritized machine score a = record a {
    priority_score = score;
    route_batch_key = route_batch_key_for_machine machine;
    scheduled_for = recommended_assignment_time now machine.current_status;
  }

  abbrev pub has_changed : RepairAssignment → RepairAssignment → Bool
  has_changed a b =
      not (a.priority_score == b.priority_score)
      || (not (same_key a.route_batch_key b.route_batch_key)
          || not (a.scheduled_for == b.scheduled_for))

  unfoldable pub refresh_repair :
      Machine → ℕ → RepairAssignment → Option ℕ → Note → Call (Option RepairAssignment)
  refresh_repair machine score a actor note =
      let b = reprioritized machine score a in
      if has_changed a b || is_clean note
      then (save_repair b
          >> create_audit_log actor AuditAction.repair_reprioritized a.id
          >> pure (some b))
      else pure (some b)

  -- `preferred_assignee`, if it has scope over the store, or else the choice of the service.
  unfoldable pub pick_assignee : Machine → Option User → Db → Option User
  pick_assignee machine preferred db =
      let chosen = user_of (select_repair_assignee db.grants machine.store db.repairs db.staff) in
      elim preferred [
        | none ↦ chosen
        | some u ↦
            if user_has_store_scope db.grants (signed_in u) machine.store then some u else chosen
      ]

  unfoldable pub assign_repair :
      Machine → ℕ → Option ℕ → Option User → Call (Option RepairAssignment)
  assign_repair machine score actor none = pure none
  assign_repair machine score actor (some assignee) = do
    a ←
        create_repair_assignment machine assignee (some score)
          (some (recommended_assignment_time now machine.current_status)) true actor
    pure (some a)

  unfoldable pub ensure_open_assignment :
      Machine → Option ℕ → Option User → Note → Call (Option RepairAssignment)
  ensure_open_assignment machine actor preferred note = do
    score ← gets (calculate_machine_priority today machine)
    active ← gets (λ db. get_active_repair_assignment machine.id db.repairs)
    assignee ← gets (pick_assignee machine preferred)
    (elim active [
      | some a ↦ refresh_repair machine score a actor note
      | none ↦ assign_repair machine score actor assignee
    ])

  unfoldable pub ensure_repair_assignment :
      Machine → Option ℕ → Option User → Note → Call (Option RepairAssignment)
  ensure_repair_assignment machine actor preferred note =
      if is_actionable_machine machine.current_status
      then atomic (ensure_open_assignment machine actor preferred note)
      else pure none
