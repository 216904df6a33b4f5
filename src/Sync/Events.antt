-- ===== src/Sync/Events.antt =====
-- apps/sync/services.py, `create_outbox_event` and `create_audit_log`: every service records what
-- it did. Events carry a version that counts up for each aggregate. `events` are the rows of the
-- table: where the services run on a `Db`, that is a node that has taken in no event from a peer, since
-- `_next_entity_version` counts those as well.
pub mod Versions
use codepop.Base.{
  Bool, List, Option, [], false, if◌then◌else◌, max, none, some, true, ℕ, ◌&&◌, ◌+◌, ◌==◌, ◌∷◌,
}
use codepop.Base.Exec.{ok}
use codepop.Db.{Call}
use codepop.Stores.{Store}
use codepop.Sync.Models.{AggregateType, AuditAction, EventType, OutboxEvent, SourceScope}

abbrev pub same_type : AggregateType → AggregateType → Bool
same_type AggregateType.order AggregateType.order = true
same_type AggregateType.transfer AggregateType.transfer = true
same_type AggregateType.replenishment AggregateType.replenishment = true
same_type AggregateType.machine AggregateType.machine = true
same_type AggregateType.repair_assignment AggregateType.repair_assignment = true
same_type _ _ = false

-- `filter(aggregate_type=…, aggregate_id=…)`
abbrev pub is_about : AggregateType → ℕ → OutboxEvent → Bool
is_about kind id e = same_type kind e.aggregate_type && (id == e.aggregate_id)

-- `aggregate(max_version=Max("entity_version"))["max_version"] or 0`
unfoldable pub latest_version : AggregateType → ℕ → List OutboxEvent → ℕ
latest_version kind id [] = 0
latest_version kind id (e ∷ events) =
    let rest = latest_version kind id events in
    if is_about kind id e then max e.entity_version rest else rest

unfoldable pub next_entity_version : AggregateType → ℕ → List OutboxEvent → ℕ
unfolding latest_version
next_entity_version kind id events = latest_version kind id events + 1

-- The row that `create_outbox_event` adds when the caller gives no version.
unfoldable pub new_event :
    EventType → AggregateType → ℕ → SourceScope → List OutboxEvent → OutboxEvent
unfolding next_entity_version
new_event event_type kind id scope events = record {
  event_type = event_type;
  aggregate_type = kind;
  aggregate_id = id;
  entity_version = next_entity_version kind id events;
  source_scope = scope;
}

unfoldable pub create_outbox_event : EventType → AggregateType → ℕ → SourceScope → Call (Unit {0})
unfolding new_event
create_outbox_event event_type kind id scope db =
    (ok tt, record db { outbox = new_event event_type kind id scope db.outbox ∷ db.outbox })

unfoldable pub create_audit_log : Option ℕ → AuditAction → ℕ → Call (Unit {0})
create_audit_log actor action id db = (
  ok tt,
  record db { audit = (record { actor = actor; action = action; entity_id = id }) ∷ db.audit },
)

-- `{"store_id": …, "region_code": …}` and `{"region_code": …}`
abbrev pub store_scope : Store → SourceScope
store_scope store = record { store_id = some store.id; region_code = some store.region.code }

abbrev pub region_scope : Store → SourceScope
region_scope store = record { store_id = none; region_code = some store.region.code }
