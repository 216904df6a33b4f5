-- ===== src/Sync/Processing/Settled.antt =====
-- What `process_outbox_event` of apps/sync/services.py promises of a row, by what the receivers make of
-- its event.
use codepop.Base.{Bool, List, Option, [], false, none, some, true, ℕ, ◌++◌, ◌+◌, ◌≡◌, ◌⊎◌}
use codepop.Base.Exec.{Result, err, ok}
use codepop.Base.Table.{insert}
use codepop.Db.{Db}
use codepop.Notifications.{Account, Notification}
use codepop.Sync.Dispatch.{dispatch_outbox_event}
use codepop.Sync.Peers.{push_event_to_all_peers}
use codepop.Sync.Processing.{
  EventStatus, Failure, Station, StoredEvent, origin_of, start_processing,
}
use codepop.Sync.Projections.{Node, ProjectionConflict, apply_event_to_receivers}

-- Dispatched: the notifications are sent, and the deliveries to the peers are created.
pub record IsSent (enabled : Bool) (peers : List (ℕ × ℕ)) (sent : List Notification)
    (row : StoredEvent) (st st' : Station) : Type 0 where
  pub status : row.status ≡ EventStatus.dispatched
  pub next_attempt_at : row.next_attempt_at ≡ none
  pub last_error : row.last_error ≡ none
  pub notifications : st'.notifications ≡ sent ++ st.notifications
  pub deliveries :
      st'.deliveries ≡ push_event_to_all_peers enabled peers row.id (origin_of row) st.deliveries

-- Failed: nobody is notified, and the next attempt is set for a later time.
pub record IsDelayed (wait now : ℕ) (failure : Failure) (row : StoredEvent) (st st' : Station)
    : Type 0 where
  pub status : row.status ≡ EventStatus.failed
  pub next_attempt_at : row.next_attempt_at ≡ some (now + wait)
  pub last_error : row.last_error ≡ some failure
  pub notifications : st'.notifications ≡ st.notifications
  pub deliveries : st'.deliveries ≡ st.deliveries

module _ (accounts : List Account) (db : Db) (enabled : Bool) (peers : List (ℕ × ℕ)) (now : ℕ) where
  -- What the receivers make of the event of a row.
  abbrev pub received_by : StoredEvent → Station → Result ProjectionConflict Bool × Node
  received_by row st = apply_event_to_receivers db.transfers row.event st.node

  abbrev pub dispatched_for : StoredEvent → Option (List Notification)
  dispatched_for row = dispatch_outbox_event accounts db row.event.event_type row.event.aggregate_id

  -- A receiver refused the event.
  abbrev pub IsConflict : StoredEvent → StoredEvent → Station → Station → Type 0
  IsConflict row after st st' =
      (fault : ProjectionConflict) × ((received_by row st).0 ≡ err fault)
      × IsDelayed 900 now (Failure.conflict fault) after st st'

  -- No receiver refused it, and none applied it.
  abbrev pub IsQuiet : StoredEvent → StoredEvent → Station → Station → Type 0
  IsQuiet row after st st' =
      ((received_by row st).0 ≡ ok false) × IsSent enabled peers [] after st st'

  -- A receiver applied it, and the notifications of its type go out.
  abbrev pub IsNews : StoredEvent → StoredEvent → Station → Station → Type 0
  IsNews row after st st' =
      ((received_by row st).0 ≡ ok true)
      × ((sent : List Notification) × (dispatched_for row ≡ some sent)
          × IsSent enabled peers sent after st st')

  -- A receiver applied it, and its type has no notifications to make.
  abbrev pub IsMute : StoredEvent → StoredEvent → Station → Station → Type 0
  IsMute row after st st' =
      ((received_by row st).0 ≡ ok true)
      × (dispatched_for row ≡ none)
      × IsDelayed 300 now Failure.unexpected after st st'

  -- What becomes of the row, by what the receivers made of its event.
  abbrev pub IsSettled : StoredEvent → StoredEvent → Station → Station → Type 0
  IsSettled row after st st' =
      IsConflict row after st st'
      ⊎ (IsQuiet row after st st' ⊎ (IsNews row after st st' ⊎ IsMute row after st st'))

pub record IsProcessed (accounts : List Account) (db : Db) (enabled : Bool) (peers : List (ℕ × ℕ))
    (now : ℕ) (row : StoredEvent) (st : Station) (r : StoredEvent × Station) : Type 0 where
  pub id : r.0.id ≡ row.id
  pub event : r.0.event ≡ row.event
  pub remote : r.0.remote ≡ row.remote
  pub attempt_count : r.0.attempt_count ≡ row.attempt_count + 1
  pub events : r.1.events ≡ insert row.id r.0 (insert row.id (start_processing row) st.events)
  pub projections :
      r.1.node.projections ≡ (received_by accounts db enabled peers now row st).1.projections
  pub conflicts :
      r.1.node.conflicts ≡ (received_by accounts db enabled peers now row st).1.conflicts
  pub settled : IsSettled accounts db enabled peers now row r.0 st r.1
