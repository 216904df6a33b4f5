-- ===== src/Maintenance/Escalation/Status.antt =====
-- `append_machine_status_event` of apps/maintenance/services.py: it returns, and what it leaves.
use codepop.Base.{Bool-cases, List, Option, inl, inr, none, refl, ℕ, ◌∷◌, ◌≡◌}
use codepop.Base.Exec.{ReturnsWith}
use codepop.Base.Table.{insert}
use codepop.Db.{Db}
use codepop.Maintenance.Assignments.Ensure.{ensure_repair_assignment-ReturnsWith}
use codepop.Maintenance.Assignments.Ensured.{IsFresh, IsUpkeep, unchanged}
use codepop.Maintenance.Assignments.Rows.{IsTidy}
use codepop.Maintenance.Escalation.{
  add_status_event, append_machine_status_event, follow_up, machine_after, save_machine,
}
use codepop.Maintenance.Models.{Machine, MachineStatus, Note, RepairAssignment, or_text}
use codepop.Maintenance.Priority.{is_actionable_machine, resolve_effective_policy}
use codepop.Stores.{Store}
use codepop.Sync.Events.{create_audit_log, create_outbox_event, store_scope}
use codepop.Sync.Models.{AggregateType, AuditAction, EventType}

-- What a status event leaves alone.
pub record IsMaintained (db db' : Db) : Type 0 where
  pub grants : db'.grants ≡ db.grants
  pub staff : db'.staff ≡ db.staff
  pub policies : db'.policies ≡ db.policies
  pub tidy : IsTidy db'.repairs

-- The event is recorded, and the machine is stored as the event leaves it.
pub record IsRecorded (machine : Machine) (status : MachineStatus) (day : ℕ) (db : Db)
    (after : Machine) (db' : Db) : Type 0 where
  pub upkeep : IsMaintained db db'
  pub is_after :
      after ≡ machine_after machine status day (resolve_effective_policy machine db.policies)
  pub is_saved : db'.machines ≡ insert after.id after db.machines
  pub is_logged :
      db'.status_events
      ≡ (record { machine = machine.id; status = status; status_date = day }) ∷ db.status_events

module _ (slug : Store → ℕ) (fresh : List (ℕ × RepairAssignment) → ℕ) (now today : ℕ)
    (new : IsFresh fresh) where
  follow_up_returns :
      (machine : Machine) (status : MachineStatus) (note : Note) (actor : Option ℕ) (db : Db)
      → IsTidy db.repairs
      → ReturnsWith
          (follow_up slug fresh now today machine status note actor db)
          (λ _ db'. IsUpkeep db db')
  unfolding follow_up create_outbox_event
  follow_up_returns machine status note actor db t =
      elim (Bool-cases (is_actionable_machine status)) [
        | inl p ↦
            let scope = store_scope machine.store in
            let db1 : Db =
              (create_outbox_event (EventType.machine_entered status) AggregateType.machine
                machine.id scope db).1 in
            let (a, db', e, (k, o)) =
              ensure_repair_assignment-ReturnsWith slug fresh now today machine actor none
                (or_text note) db1 new tt t in
            (
              tt,
              db',
              rw (p, e) refl,
              record {
                grants = k.grants;
                staff = k.staff;
                policies = k.policies;
                machines = k.machines;
                status_events = k.status_events;
                rest = k.rest;
                tidy = k.tidy;
              },
            )
        | inr p ↦ (tt, db, rw p refl, unchanged db t)
      ]

  pub append_machine_status_event-ReturnsWith :
      (machine : Machine) (status : MachineStatus) (day : ℕ) (note : Note) (actor : Option ℕ)
      (db : Db)
      → IsTidy db.repairs
      → ReturnsWith
          (append_machine_status_event slug fresh now today machine status day note actor db)
          (IsRecorded machine status day db)
  unfolding append_machine_status_event add_status_event save_machine create_audit_log
  append_machine_status_event-ReturnsWith machine status day note actor db t =
      let after = machine_after machine status day (resolve_effective_policy machine db.policies) in
      let db1 : Db = record db {
        machines = insert after.id after db.machines;
        status_events =
            (record { machine = machine.id; status = status; status_date = day })
            ∷ db.status_events;
      } in
      let (u, db', e, k) = follow_up_returns after status note actor db1 t in
      (
        after,
        record db' {
          audit =
              (record {
                actor = actor;
                action = AuditAction.machine_status_recorded;
                entity_id = machine.id;
              })
              ∷ db'.audit;
        },
        rw e refl,
        record {
          upkeep = record {
            grants = k.grants;
            staff = k.staff;
            policies = k.policies;
            tidy = k.tidy;
          };
          is_after = refl;
          is_saved = k.machines;
          is_logged = k.status_events;
        },
      )
