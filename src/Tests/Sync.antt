-- ===== src/Tests/Sync.antt =====
-- Events about an order that reach the store, its region and the oversight.
use codepop.Base.{All, [], false, none, refl, some, true, ℕ, ◌∷◌, ◌≡◌, ◌≤◌}
use codepop.Base.Exec.{ok}
use codepop.Db.{Db}
use codepop.Orders.Models.{OrderStatus}
use codepop.Sync.Dispatch.{dispatch_outbox_event}
use codepop.Sync.Models.{AggregateType, EventType, OutboxEvent, SourceScope}
use codepop.Sync.Peers.{push_event_to_all_peers}
use codepop.Sync.Peers.Once.{push_event_to_all_peers_idem}
use codepop.Sync.Processing.{
  EventStatus, Station, StoredEvent, complete_event, finish_event, first_events,
  ingest_event_from_peer, is_pending_event, process_outbox_event, process_pending_outbox_events,
  run_event, settle_event, start_processing,
}
use codepop.Sync.Processing.Ingest.{ingest_event_from_peer_idem}
use codepop.Sync.Processing.Pending.{IsTaken, process_pending_outbox_events-IsTaken}
use codepop.Sync.Projections.{
  Node, Target, add_targets, apply_event_to_each, apply_event_to_projection,
  apply_event_to_receivers, apply_to_existing, find_projection, ignore_event, is_projection_of,
  log_sync_conflict, projection_targets_for_event, put_projection, store_projection,
  validate_projection_scope,
}
use codepop.Sync.Projections.History.{Delivers, received_version, received_version_mono}
use codepop.Sync.Projections.Receivers.{
  IsDistinct, projection_targets_for_event-IsDistinct, reaches,
}
use codepop.Sync.Projections.Redelivery.{apply_event_to_receivers_idem}
use codepop.Sync.Projections.Verdict.{Verdict, apply_event_to_projection-Verdict}
use codepop.Tests.Data.{tables_in}

abbrev scope : SourceScope
scope = record { store_id = some 1; region_code = some 1 }

abbrev queued_event : OutboxEvent
queued_event = record {
  event_type = EventType.order_entered OrderStatus.queued;
  aggregate_type = AggregateType.order;
  aggregate_id = 5;
  entity_version = 4;
  source_scope = scope;
}

abbrev paid_event : OutboxEvent
paid_event = record queued_event {
  event_type = EventType.order_entered OrderStatus.paid;
  entity_version = 3;
}

abbrev new_node : Node
new_node = record { projections = []; conflicts = []; audit = [] }

abbrev here : Target
here = Target.store 1

abbrev after_queued : Node
after_queued = (apply_event_to_projection queued_event here new_node).1

apply_event_to_projection-Verdict_example :
    Verdict paid_event here after_queued (apply_event_to_projection paid_event here after_queued)
apply_event_to_projection-Verdict_example =
    apply_event_to_projection-Verdict paid_event here after_queued

-- The older event comes later, and is ignored.
overtaken : (apply_event_to_projection paid_event here after_queued).0 ≡ ok false
unfolding apply_event_to_projection validate_projection_scope apply_to_existing find_projection
    store_projection put_projection is_projection_of ignore_event log_sync_conflict
overtaken = refl

received_version_mono_example :
    received_version here AggregateType.order 5 after_queued.projections
    ≤ received_version here AggregateType.order 5
        (apply_event_to_projection paid_event here after_queued).1.projections
received_version_mono_example =
    received_version_mono here AggregateType.order 5 after_queued
      (apply_event_to_projection paid_event here after_queued).1
      (Delivers.deliver paid_event here Delivers.idle)

queued_received : (apply_event_to_receivers [] queued_event new_node).0 ≡ ok true
unfolding apply_event_to_receivers projection_targets_for_event add_targets apply_event_to_each
    apply_event_to_projection validate_projection_scope apply_to_existing find_projection
    store_projection put_projection is_projection_of
queued_received = refl

apply_event_to_receivers_idem_example :
    let after = (apply_event_to_receivers [] queued_event new_node).1 in
    let again = apply_event_to_receivers [] queued_event after in
    (again.0 ≡ ok false) × (again.1.projections ≡ after.projections)
apply_event_to_receivers_idem_example =
    apply_event_to_receivers_idem [] queued_event new_node true queued_received

projection_targets_for_event-IsDistinct_example :
    IsDistinct (projection_targets_for_event [] queued_event)
    × (reaches Target.oversight (projection_targets_for_event [] queued_event) ≡ true)
    × ((id : ℕ)
        → some 1 ≡ some id
        → reaches (Target.store id) (projection_targets_for_event [] queued_event) ≡ true)
    × ((code : ℕ)
        → some 1 ≡ some code
        → reaches (Target.region code) (projection_targets_for_event [] queued_event) ≡ true)
projection_targets_for_event-IsDistinct_example =
    projection_targets_for_event-IsDistinct [] queued_event

push_event_to_all_peers_idem_example :
    push_event_to_all_peers true
      ((1, 11) ∷ (2, 12) ∷ [])
      7
      none
      (push_event_to_all_peers true ((1, 11) ∷ (2, 12) ∷ []) 7 none [])
    ≡ push_event_to_all_peers true ((1, 11) ∷ (2, 12) ∷ []) 7 none []
push_event_to_all_peers_idem_example =
    push_event_to_all_peers_idem true ((1, 11) ∷ (2, 12) ∷ []) 7 none []

abbrev queued_row : StoredEvent
queued_row = record {
  id = 1;
  event = queued_event;
  status = EventStatus.pending;
  attempt_count = 0;
  next_attempt_at = none;
  last_error = none;
  remote = none;
}

abbrev one_pending : Station
one_pending = record {
  node = new_node;
  events = (1, queued_row) ∷ [];
  notifications = [];
  deliveries = [];
}

abbrev tables : Db
tables = tables_in OrderStatus.queued

-- All three receivers apply the event, so the row is dispatched and pushed to the peer.
queued_dispatched :
    (process_outbox_event [] tables true ((2, 12) ∷ []) 1000 queued_row one_pending).0.status
    ≡ EventStatus.dispatched
unfolding process_outbox_event run_event apply_event_to_receivers projection_targets_for_event
    add_targets apply_event_to_each apply_event_to_projection validate_projection_scope
    apply_to_existing find_projection store_projection put_projection is_projection_of settle_event
    complete_event finish_event start_processing dispatch_outbox_event
queued_dispatched = refl

process_pending_outbox_events-IsTaken_example :
    let r = process_pending_outbox_events [] tables true ((2, 12) ∷ []) 1000 25 one_pending in
    (r.0 ≤ 25) × All (IsTaken r.1) (first_events is_pending_event 25 one_pending.events)
process_pending_outbox_events-IsTaken_example =
    process_pending_outbox_events-IsTaken [] tables true ((2, 12) ∷ []) 1000 25 one_pending

ingest_event_from_peer_idem_example :
    let ingest = ingest_event_from_peer [] tables false [] 1000 in
    let first = ingest 9 3 44 queued_event one_pending in ingest 10 3 44 paid_event first.1 ≡ first
ingest_event_from_peer_idem_example =
    ingest_event_from_peer_idem [] tables false [] 1000 9 10 3 44 queued_event paid_event
      one_pending
