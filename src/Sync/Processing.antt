-- ===== src/Sync/Processing.antt =====
-- apps/sync/services.py: the loop that takes events out of the outbox, and the events that peers push.
-- A row's `remote` is the node that it came from with the key that it has there; seconds stand for times.
pub mod Settled
pub mod Status
pub mod Ingest
pub mod Pending
use codepop.Base.{
  Bool, List, Option, [], false, if◌then◌else◌, length, none, some, suc, true, zero, ℕ, ◌&&◌, ◌++◌,
  ◌+◌, ◌==◌, ◌∷◌,
}
use codepop.Base.Exec.{Result, err, next, ok}
use codepop.Base.Table.{insert}
use codepop.Db.{Db}
use codepop.Notifications.{Account, Notification}
use codepop.Sync.Dispatch.{dispatch_outbox_event}
use codepop.Sync.Models.{OutboxEvent}
use codepop.Sync.Peers.{PeerDelivery, push_event_to_all_peers}
use codepop.Sync.Projections.{Node, ProjectionConflict, SyncAction, apply_event_to_receivers}

pub data EventStatus : Type 0 where
  pending processing dispatched failed : EventStatus

pub data Failure : Type 0 where
  conflict : ProjectionConflict → Failure
  unexpected : Failure

pub record StoredEvent : Type 0 where
  pub id : ℕ
  pub event : OutboxEvent
  pub status : EventStatus
  pub attempt_count : ℕ
  pub next_attempt_at : Option ℕ
  pub last_error : Option Failure
  pub remote : Option (ℕ × ℕ)

-- The tables of a node that the outbox is taken from.
pub record Station : Type 0 where
  pub node : Node
  pub events : List (ℕ × StoredEvent)
  pub notifications : List Notification
  pub deliveries : List PeerDelivery

abbrev pub is_dispatched : EventStatus → Bool
is_dispatched EventStatus.dispatched = true
is_dispatched _ = false

abbrev pub is_pending_event : EventStatus → Bool
is_pending_event EventStatus.pending = true
is_pending_event _ = false

abbrev pub is_failed_event : EventStatus → Bool
is_failed_event EventStatus.failed = true
is_failed_event _ = false

abbrev pub save_event : StoredEvent → Station → Station
save_event row st = record st { events = insert row.id row st.events }

unfoldable pub start_processing : StoredEvent → StoredEvent
start_processing row = record row {
  status = EventStatus.processing;
  attempt_count = row.attempt_count + 1;
  last_error = none;
}

unfoldable pub fail_event : ℕ → Failure → StoredEvent → StoredEvent
fail_event next failure row = record row {
  status = EventStatus.failed;
  last_error = some failure;
  next_attempt_at = some next;
}

unfoldable pub finish_event : StoredEvent → StoredEvent
finish_event row = record row { status = EventStatus.dispatched; next_attempt_at = none }

abbrev pub log_processed : Station → Station
log_processed st = record st {
  node = record st.node { audit = SyncAction.outbox_processed ∷ st.node.audit };
}

abbrev pub origin_of : StoredEvent → Option ℕ
origin_of row = elim row.remote [ none ↦ none | some r ↦ some r.0 ]

-- `filter(origin_node_id=…, remote_event_id=…)`
abbrev pub is_from : ℕ → ℕ → Option (ℕ × ℕ) → Bool
is_from origin remote none = false
is_from origin remote (some r) = (r.0 == origin) && (r.1 == remote)

unfoldable pub find_remote : ℕ → ℕ → List (ℕ × StoredEvent) → Option StoredEvent
find_remote origin remote [] = none
find_remote origin remote ((k, row) ∷ rows) =
    let rest = find_remote origin remote rows in
    if is_from origin remote row.remote then some row else rest

unfoldable pub new_remote_event : ℕ → ℕ → ℕ → OutboxEvent → StoredEvent
new_remote_event id origin remote event = record {
  id = id;
  event = event;
  status = EventStatus.pending;
  attempt_count = 0;
  next_attempt_at = none;
  last_error = none;
  remote = some (origin, remote);
}

-- `filter(status=…).order_by("created_at")[:limit]`; the rows stand in the order of their creation.
unfoldable pub first_events : (EventStatus → Bool) → ℕ → List (ℕ × StoredEvent) → List StoredEvent
first_events test limit [] = []
first_events test zero ((k, row) ∷ rows) = []
first_events test (suc limit) ((k, row) ∷ rows) =
    let taken = first_events test limit rows in
    let skipped = first_events test (suc limit) rows in
    if test row.status then row ∷ taken else skipped

abbrev pub renewed : StoredEvent → StoredEvent
renewed row = record row { status = EventStatus.pending; next_attempt_at = none; last_error = none }

unfoldable pub renew_events : List StoredEvent → Station → Station
renew_events [] st = st
renew_events (row ∷ rows) st = renew_events rows (save_event (renewed row) st)

unfoldable pub retry_failed_outbox_events : ℕ → Station → ℕ × Station
retry_failed_outbox_events limit st =
    let rows = first_events is_failed_event limit st.events in (length rows, renew_events rows st)

-- `accounts` and `db` are what the notifications read; `enabled` and `peers` the settings
-- `SYNC_PUSH_ENABLED` and `PEER_STORES`.
module _ (accounts : List Account) (db : Db) (enabled : Bool) (peers : List (ℕ × ℕ)) (now : ℕ) where
  -- The notifications are sent where a receiver has applied the event.
  abbrev pub notifications_of : Bool → OutboxEvent → Option (List Notification)
  notifications_of true event =
      dispatch_outbox_event accounts db event.event_type event.aggregate_id
  notifications_of false event = some []

  unfoldable pub complete_event :
      Option (List Notification) → StoredEvent → Station → StoredEvent × Station
  complete_event none row st =
      let after = fail_event (now + 300) Failure.unexpected row in (after, save_event after st)
  complete_event (some sent) row st =
      let after = finish_event row in
      (
        after,
        save_event after (record st {
          notifications = sent ++ st.notifications;
          deliveries = push_event_to_all_peers enabled peers row.id (origin_of row) st.deliveries;
        }),
      )

  unfoldable pub settle_event :
      Result ProjectionConflict Bool → StoredEvent → Station → StoredEvent × Station
  settle_event (err fault) row st =
      let after = fail_event (now + 900) (Failure.conflict fault) row in
      (after, save_event after st)
  settle_event (ok applied) row st = complete_event (notifications_of applied row.event) row st

  unfoldable pub run_event : StoredEvent → Station → StoredEvent × Station
  run_event row st =
      let started = start_processing row in
      let received = apply_event_to_receivers db.transfers row.event st.node in
      let settled =
        settle_event received.0 started (record (save_event started st) { node = received.1 }) in
      (settled.0, log_processed settled.1)

  unfoldable pub process_outbox_event : StoredEvent → Station → StoredEvent × Station
  process_outbox_event row st = if is_dispatched row.status then (row, st) else run_event row st

  unfoldable pub process_events : List StoredEvent → Station → Station
  process_events [] st = st
  process_events (row ∷ rows) st = process_events rows (process_outbox_event row st).1

  unfoldable pub process_pending_outbox_events : ℕ → Station → ℕ × Station
  process_pending_outbox_events limit st =
      let rows = first_events is_pending_event limit st.events in
      (length rows, process_events rows st)

  unfoldable pub ingest_found :
      Option StoredEvent → ℕ → ℕ → ℕ → OutboxEvent → Station → StoredEvent × Station
  ingest_found (some existing) id origin remote event st = (existing, st)
  ingest_found none id origin remote event st =
      let row = new_remote_event id origin remote event in
      process_outbox_event row (save_event row st)

  -- `id` is the key of the row, if one is created.
  unfoldable pub ingest_event_from_peer : ℕ → ℕ → ℕ → OutboxEvent → Station → StoredEvent × Station
  ingest_event_from_peer id origin remote event st =
      ingest_found (find_remote origin remote st.events) id origin remote event st
