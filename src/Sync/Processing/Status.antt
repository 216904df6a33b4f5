-- ===== src/Sync/Processing/Status.antt =====
-- `process_outbox_event` of apps/sync/services.py: what becomes of a row of the outbox.
use codepop.Base.{Bool, List, Option, false, inl, inr, none, refl, some, true, ℕ, ◌≡◌}
use codepop.Base.Exec.{Result, err, ok}
use codepop.Db.{Db}
use codepop.Notifications.{Account, Notification}
use codepop.Sync.Processing.{
  Station, StoredEvent, complete_event, fail_event, finish_event, is_dispatched, log_processed,
  process_outbox_event, run_event, save_event, settle_event, start_processing,
}
use codepop.Sync.Processing.Settled.{IsProcessed, dispatched_for, received_by}
use codepop.Sync.Projections.{ProjectionConflict}

module _ (accounts : List Account) (db : Db) (enabled : Bool) (peers : List (ℕ × ℕ)) (now : ℕ) where
  -- The row and the tables where the receivers are done.
  abbrev started_with : StoredEvent → Station → Station
  started_with row st = record (save_event (start_processing row) st) {
    node = (received_by accounts db enabled peers now row st).1;
  }

  quiet_case :
      (row : StoredEvent) (st : Station)
      → (received_by accounts db enabled peers now row st).0 ≡ ok false
      → let r =
          settle_event accounts db enabled peers now
            (ok false)
            (start_processing row)
            (started_with row st) in
        IsProcessed accounts db enabled peers now row st (r.0, log_processed r.1)
  unfolding settle_event complete_event start_processing finish_event
  quiet_case row st h = record {
    id = refl;
    event = refl;
    remote = refl;
    attempt_count = refl;
    events = refl;
    projections = refl;
    conflicts = refl;
    settled = inr (
        inl (
          h,
          record {
            status = refl;
            next_attempt_at = refl;
            last_error = refl;
            notifications = refl;
            deliveries = refl;
          },
        ));
  }

  applied_case :
      (row : StoredEvent) (st : Station) (o : Option (List Notification))
      → (received_by accounts db enabled peers now row st).0 ≡ ok true
      → dispatched_for accounts db enabled peers now row ≡ o
      → let r =
          complete_event accounts db enabled peers now o
            (start_processing row)
            (started_with row st) in
        IsProcessed accounts db enabled peers now row st (r.0, log_processed r.1)
  unfolding complete_event start_processing finish_event fail_event
  applied_case row st (some sent) h e = record {
    id = refl;
    event = refl;
    remote = refl;
    attempt_count = refl;
    events = refl;
    projections = refl;
    conflicts = refl;
    settled = inr (
        inr (
          inl (
            h,
            (
              sent,
              e,
              record {
                status = refl;
                next_attempt_at = refl;
                last_error = refl;
                notifications = refl;
                deliveries = refl;
              },
            ),
          )));
  }
  applied_case row st none h e = record {
    id = refl;
    event = refl;
    remote = refl;
    attempt_count = refl;
    events = refl;
    projections = refl;
    conflicts = refl;
    settled = inr (
        inr (
          inr (
            h,
            e,
            record {
              status = refl;
              next_attempt_at = refl;
              last_error = refl;
              notifications = refl;
              deliveries = refl;
            },
          )));
  }

  conflict_case :
      (row : StoredEvent) (st : Station) (fault : ProjectionConflict)
      → (received_by accounts db enabled peers now row st).0 ≡ err fault
      → let r =
          settle_event accounts db enabled peers now
            (err fault)
            (start_processing row)
            (started_with row st) in
        IsProcessed accounts db enabled peers now row st (r.0, log_processed r.1)
  unfolding settle_event start_processing fail_event
  conflict_case row st fault h = record {
    id = refl;
    event = refl;
    remote = refl;
    attempt_count = refl;
    events = refl;
    projections = refl;
    conflicts = refl;
    settled = inl (
      fault,
      h,
      record {
        status = refl;
        next_attempt_at = refl;
        last_error = refl;
        notifications = refl;
        deliveries = refl;
      },
    );
  }

  settle_cases :
      (row : StoredEvent) (st : Station) (result : Result ProjectionConflict Bool)
      → (received_by accounts db enabled peers now row st).0 ≡ result
      → let r =
          settle_event accounts db enabled peers now result
            (start_processing row)
            (started_with row st) in
        IsProcessed accounts db enabled peers now row st (r.0, log_processed r.1)
  settle_cases row st (err fault) h = conflict_case row st fault h
  settle_cases row st (ok false) h = quiet_case row st h
  settle_cases row st (ok true) h =
      unfold settle_event start_processing in
      applied_case row st (dispatched_for accounts db enabled peers now row) h refl

  pub process_outbox_event-IsProcessed :
      (row : StoredEvent) (st : Station)
      → let r = process_outbox_event accounts db enabled peers now row st in
        (is_dispatched row.status ≡ true → r ≡ (row, st))
        × (is_dispatched row.status ≡ false → IsProcessed accounts db enabled peers now row st r)
  unfolding process_outbox_event run_event
  process_outbox_event-IsProcessed row st = (
    λ h. rw h refl,
    λ h. rw h (settle_cases row st (received_by accounts db enabled peers now row st).0 refl),
  )
