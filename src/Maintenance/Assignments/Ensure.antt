-- ===== src/Maintenance/Assignments/Ensure.antt =====
-- `ensure_repair_assignment` of apps/maintenance/services.py: it returns, and a machine keeps at most
-- one open assignment.
use codepop.Base.{
  ==_refl, Bool, Bool-cases, List, Option, ap, ap₂, arith, false, inl, inr, none, refl, some, subst,
  true, ℕ, ◌||◌, ◌∙◌, ◌∷◌, ◌≡◌,
}
use codepop.Base.Exec.{ReturnsWith}
use codepop.Base.Table.{insert, lookup}
use codepop.Db.{Db}
use codepop.Maintenance.Assignments.{
  announce_repair, assign_repair, create_repair_assignment, ensure_open_assignment,
  ensure_repair_assignment, has_changed, new_repair_assignment, pick_assignee, refresh_repair,
  reprioritized, route_batch_key_for_machine,
}
use codepop.Maintenance.Assignments.Ensured.{
  IsAssignment, IsEnsured, IsFresh, IsSettledMachine, IsUpkeep, lookup-insert_other,
  settled_reading, unchanged,
}
use codepop.Maintenance.Assignments.Rows.{IsTidy, active_cases, count_active}
use codepop.Maintenance.Assignments.Staff.{
  IsFit, IsPicked, IsStaff, pick_assignee-IsFit, pick_assignee-cases,
}
use codepop.Maintenance.Assignments.Tidy.{lookup-inserted, new_repair-IsTidy, saved_repair-IsTidy}
use codepop.Maintenance.Models.{Machine, Note, RepairAssignment, is_clean}
use codepop.Maintenance.Priority.{
  calculate_machine_priority, is_actionable_machine, is_active_for, recommended_assignment_time,
}
use codepop.Stores.{Store}
use codepop.Sync.Events.{create_audit_log, create_outbox_event}
use codepop.Sync.Models.{AuditAction, EventType}
use codepop.Users.Models.{User}

or_false : (x y : Bool) → (x || y) ≡ false → x ≡ false
or_false x y h = ground arith

module _ (slug : Store → ℕ) (fresh : List (ℕ × RepairAssignment) → ℕ) (now today : ℕ) where
  announce_returns :
      (event : EventType) (actor : Option ℕ) (a : RepairAssignment) (db : Db)
      → IsTidy (insert a.id a db.repairs)
      → ReturnsWith
          (announce_repair event actor a db)
          (λ b db'. IsUpkeep db db' × (b ≡ a) × (db'.repairs ≡ insert a.id a db.repairs))
  unfolding announce_repair create_outbox_event create_audit_log
  announce_returns event actor a db t = (
    a,
    _,
    refl,
    (
      record {
        grants = refl;
        staff = refl;
        policies = refl;
        machines = refl;
        status_events = refl;
        rest = refl;
        tidy = t;
      },
      refl,
      refl,
    ),
  )

  create_returns :
      (machine : Machine) (preferred : Option User) (u : User) (actor : Option ℕ) (db : Db)
      → ¬ IsSettledMachine machine.current_status
      → lookup (fresh db.repairs) db.repairs ≡ none
      → count_active machine.id db.repairs ≡ 0
      → IsTidy db.repairs
      → IsFit db.grants machine.store (some u)
      → IsPicked db.grants machine.store db.staff preferred u
      → let score = calculate_machine_priority today machine db in
        let time = recommended_assignment_time now machine.current_status in
        ReturnsWith
          (create_repair_assignment slug fresh now today machine u
            (some score)
            (some time)
            true
            actor
            db)
          (λ b db'. IsUpkeep db db' × IsAssignment now today machine preferred db b db')
  unfolding create_repair_assignment new_repair_assignment
  create_returns machine preferred u actor db due f z t (p, q) picked =
      let score = calculate_machine_priority today machine db in
      let time = recommended_assignment_time now machine.current_status in
      let a =
        new_repair_assignment slug fresh now today (fresh db.repairs) machine u (some score)
          (some time) true db in
      let (b, db', e, (k, same, rows)) =
        announce_returns EventType.repair_created actor a db
          (new_repair-IsTidy a (fresh db.repairs) db.repairs refl f z t) in
      (
        a,
        db',
        rw (p, q, e, same) refl,
        (
          k,
          record {
            is_due = due;
            is_open = rw ==_refl refl;
            priority_score = refl;
            scheduled_for = refl;
            stored = rw rows (lookup-inserted a db.repairs);
            others = λ j n. rw rows (lookup-insert_other a j db.repairs n);
            origin = inr (z, f, refl, (u, refl, picked, (p, q)));
          },
        ),
      )

  -- A row that has not changed is stored as it is returned.
  same_row :
      (machine : Machine) (score : ℕ) (a : RepairAssignment) (rows : List (ℕ × RepairAssignment))
      → has_changed slug fresh now today a (reprioritized slug fresh now today machine score a)
        ≡ false
      → lookup a.id rows ≡ some a
      → lookup a.id rows ≡ some (reprioritized slug fresh now today machine score a)
  same_row machine score a rows h f =
      let key = route_batch_key_for_machine slug fresh now today machine in
      let time = recommended_assignment_time now machine.current_status in
      let e : a.priority_score ≡ score = ground arith in
      let x : a.route_batch_key.0 ≡ key.0 = ground arith in
      let y : a.route_batch_key.1 ≡ key.1 = ground arith in
      let t : a.scheduled_for ≡ time = ground arith in
      let k : a.route_batch_key ≡ key = ap₂ (λ i j. (i, j)) x y in
      f
      ∙ ap (λ s. some (record a { priority_score = s })) e
      ∙ ap (λ s. some (record a { priority_score = score; route_batch_key = s })) k
      ∙ ap
          (λ s.
            some (record a { priority_score = score; route_batch_key = key; scheduled_for = s }))
          t

  refresh_returns :
      (machine : Machine) (preferred : Option User) (a : RepairAssignment) (actor : Option ℕ)
      (note : Note) (db : Db)
      → ¬ IsSettledMachine machine.current_status
      → IsTidy db.repairs
      → is_active_for machine.id a ≡ true
      → lookup a.id db.repairs ≡ some a
      → ReturnsWith
          (refresh_repair slug fresh now today machine
            (calculate_machine_priority today machine db)
            a
            actor
            note
            db)
          (λ r db'. IsUpkeep db db' × IsEnsured now today machine preferred db r db')
  unfolding refresh_repair create_audit_log
  refresh_returns machine preferred a actor note db due t o f =
      let score = calculate_machine_priority today machine db in
      let b = reprioritized slug fresh now today machine score a in
      elim (Bool-cases (has_changed slug fresh now today a b || is_clean note)) [
        | inl p ↦ (
          some b,
          record db {
            repairs = insert b.id b db.repairs;
            audit =
                (record {
                  actor = actor;
                  action = AuditAction.repair_reprioritized;
                  entity_id = a.id;
                })
                ∷ db.audit;
          },
          rw p refl,
          (
            record {
              grants = refl;
              staff = refl;
              policies = refl;
              machines = refl;
              status_events = refl;
              rest = refl;
              tidy = saved_repair-IsTidy a b db.repairs refl (λ m. omega arith) f t;
            },
            record {
              is_due = due;
              is_open = o;
              priority_score = refl;
              scheduled_for = refl;
              stored = lookup-inserted b db.repairs;
              others = λ j n. lookup-insert_other b j db.repairs n;
              origin = inl (a, f, o, refl, refl);
            },
          ),
        )
        | inr p ↦ (
          some b,
          db,
          rw p refl,
          (
            unchanged db t,
            record {
              is_due = due;
              is_open = o;
              priority_score = refl;
              scheduled_for = refl;
              stored = same_row machine score a db.repairs (or_false _ _ p) f;
              others = λ j n. refl;
              origin = inl (a, f, o, refl, refl);
            },
          ),
        )
      ]

  assign_returns :
      (machine : Machine) (preferred : Option User) (actor : Option ℕ) (db : Db)
      → ¬ IsSettledMachine machine.current_status
      → lookup (fresh db.repairs) db.repairs ≡ none
      → count_active machine.id db.repairs ≡ 0
      → IsTidy db.repairs
      → IsStaff preferred
      → ReturnsWith
          (assign_repair slug fresh now today machine
            (calculate_machine_priority today machine db)
            actor
            (pick_assignee slug fresh now today machine preferred db)
            db)
          (λ r db'. IsUpkeep db db' × IsEnsured now today machine preferred db r db')
  unfolding assign_repair
  assign_returns machine preferred actor db due f z t s =
      elim (pick_assignee-cases slug fresh now today machine preferred db) [
        | inl (e, nobody) ↦ (none, db, rw e refl, (unchanged db t, (refl, inr (z, nobody))))
        | inr (u, e, picked) ↦
            let fit =
              subst (IsFit db.grants machine.store) e
                (pick_assignee-IsFit slug fresh now today machine preferred db s) in
            let (a, db', g, k) = create_returns machine preferred u actor db due f z t fit picked in
            (some a, db', rw (e, g) refl, k)
      ]

  -- If keys are fresh, a preferred assignee is of the repair staff, and machines have one open
  -- assignment at most, the call returns, that stays so, and no table changes but the assignments, the
  -- outbox and the audit log. It returns none, and changes nothing, only if the machine works or is
  -- being repaired, or has no open assignment and nobody can be picked. What it returns otherwise is an
  -- open assignment of the machine, with its score and time up to date, stored so while the other rows
  -- stay: the one that was there, or a new one, for the preferred assignee if that has scope over the
  -- store, and else for one of the active repair staff of the store.
  pub ensure_repair_assignment-ReturnsWith :
      (machine : Machine) (actor : Option ℕ) (preferred : Option User) (note : Note) (db : Db)
      → IsFresh fresh
      → IsStaff preferred
      → IsTidy db.repairs
      → ReturnsWith
          (ensure_repair_assignment slug fresh now today machine actor preferred note db)
          (λ r db'. IsUpkeep db db' × IsEnsured now today machine preferred db r db')
  unfolding ensure_repair_assignment ensure_open_assignment
  ensure_repair_assignment-ReturnsWith machine actor preferred note db new s t =
      let f = new db.repairs in
      elim (Bool-cases (is_actionable_machine machine.current_status)) [
        | inr p ↦ (
          none,
          db,
          rw p refl,
          (unchanged db t, (refl, inl ((settled_reading machine.current_status).1 p))),
        )
        | inl p ↦
            let due = (settled_reading machine.current_status).0 p in
            elim (active_cases machine.id db.repairs t.keyed) [
              | inl (a, g, o, l) ↦
                  let (r, db', e, k) =
                    refresh_returns machine preferred a actor note db due t o l in
                  (r, db', rw (p, g, e) refl, k)
              | inr (g, z) ↦
                  let (r, db', e, k) = assign_returns machine preferred actor db due f z t s in
                  (r, db', rw (p, g, e) refl, k)
            ]
      ]
