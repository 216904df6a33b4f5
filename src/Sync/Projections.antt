-- ===== src/Sync/Projections.antt =====
-- apps/sync/services.py: what a receiver of an outbox event knows of the event's aggregate, and the
-- conflicts that are logged. Labels, payloads and the details of a conflict are left out.
pub mod Keys
pub mod Outcome
pub mod Reading
pub mod Verdict
pub mod History
pub mod Receivers
pub mod Again
pub mod Redelivery
use codepop.Base.{
  Bool, List, Option, [], any, false, if◌then◌else◌, is_some, ltb, none, not, some, true, ℕ, ◌&&◌,
  ◌++◌, ◌==◌, ◌||◌, ◌∷◌,
}
use codepop.Base.Exec.{Exec, gets, ok, pure, raise, ◌>>=◌, ◌>>◌}
use codepop.Base.Table.{lookup}
use codepop.Stores.{Store, SupplyHub}
use codepop.Sync.Events.{same_type}
use codepop.Sync.Models.{AggregateType, EventType, OutboxEvent, SourceScope}
use codepop.Sync.Stages.{event_code, event_stage}
use codepop.Transfers.Models.{Transfer}

-- `ProjectionTarget`: the scope of a receiver and its key.
pub data Target : Type 0 where
  store region : ℕ → Target
  oversight : Target

abbrev pub same_target : Target → Target → Bool
same_target (Target.store a) (Target.store b) = a == b
same_target (Target.region a) (Target.region b) = a == b
same_target Target.oversight Target.oversight = true
same_target _ _ = false

pub record ProjectionState : Type 0 where
  pub receiver : Target
  pub aggregate_type : AggregateType
  pub aggregate_id : ℕ
  pub last_event_type : EventType
  pub last_entity_version : ℕ
  pub source_scope : SourceScope

pub data ConflictType : Type 0 where
  stale_event invalid_scope ownership_mismatch invalid_transition : ConflictType

pub data ResolutionStatus : Type 0 where
  open_conflict resolved ignored : ResolutionStatus

pub record ConflictLog : Type 0 where
  pub event : OutboxEvent
  pub receiver : Target
  pub conflict_type : ConflictType
  pub resolution_status : ResolutionStatus

pub data SyncAction : Type 0 where
  projection_applied conflict_logged conflict_resolved outbox_processed : SyncAction

-- The tables of a node that the receivers share.
pub record Node : Type 0 where
  pub projections : List ProjectionState
  -- Newest first.
  pub conflicts : List ConflictLog
  pub audit : List SyncAction

-- `SyncProjectionConflictError`, by its message.
pub data ProjectionConflict : Type 0 where
  scope_incomplete owner_mismatch stale_transition : ProjectionConflict

abbrev pub Receive : Type 0 → Type 0
Receive A = Exec Node ProjectionConflict A

-- `filter(receiver_scope_type=…, receiver_scope_key=…, aggregate_type=…, aggregate_id=…)`
unfoldable pub is_projection_of : Target → AggregateType → ℕ → ProjectionState → Bool
is_projection_of target kind id p =
    same_target target p.receiver && (same_type kind p.aggregate_type && (id == p.aggregate_id))

unfoldable pub find_projection :
    Target → AggregateType → ℕ → List ProjectionState → Option ProjectionState
find_projection target kind id [] = none
find_projection target kind id (p ∷ rows) =
    if is_projection_of target kind id p then some p else find_projection target kind id rows

-- `projection.save()`, or a created row.
unfoldable pub put_projection : ProjectionState → List ProjectionState → List ProjectionState
put_projection p [] = p ∷ []
put_projection p (q ∷ rows) =
    if is_projection_of p.receiver p.aggregate_type p.aggregate_id q
    then p ∷ rows
    else q ∷ put_projection p rows

unfoldable pub log_sync_conflict :
    OutboxEvent → Target → ConflictType → ResolutionStatus → Receive (Unit {0})
log_sync_conflict event target kind status node = (
  ok tt,
  record node {
    conflicts =
        (record {
          event = event;
          receiver = target;
          conflict_type = kind;
          resolution_status = status;
        })
        ∷ node.conflicts;
    audit = SyncAction.conflict_logged ∷ node.audit;
  },
)

-- The conflict stays logged when the error is raised.
abbrev pub refuse : OutboxEvent → Target → ConflictType → ProjectionConflict → Receive (Unit {0})
refuse event target kind fault =
    log_sync_conflict event target kind ResolutionStatus.open_conflict >> raise fault

-- No key of `_required_source_scope_keys` is missing.
abbrev pub has_required_scope : AggregateType → SourceScope → Bool
has_required_scope AggregateType.order scope = is_some scope.store_id && is_some scope.region_code
has_required_scope AggregateType.machine scope = is_some scope.store_id && is_some scope.region_code
has_required_scope AggregateType.repair_assignment scope =
    is_some scope.store_id && is_some scope.region_code
has_required_scope AggregateType.transfer scope = is_some scope.region_code
has_required_scope AggregateType.replenishment scope = is_some scope.region_code

-- `projected_value and incoming_value and projected_value != incoming_value`
abbrev pub differ : Option ℕ → Option ℕ → Bool
differ none b = false
differ (some a) none = false
differ (some a) (some b) = not (a == b)

abbrev pub is_of_other_owner : SourceScope → SourceScope → Bool
is_of_other_owner a b = differ a.store_id b.store_id || differ a.region_code b.region_code

abbrev pub check_owner : OutboxEvent → Target → Option ProjectionState → Receive (Unit {0})
check_owner event target none = pure tt
check_owner event target (some p) =
    if is_of_other_owner p.source_scope event.source_scope
    then refuse event target ConflictType.ownership_mismatch ProjectionConflict.owner_mismatch
    else pure tt

unfoldable pub validate_projection_scope :
    OutboxEvent → Target → Option ProjectionState → Receive (Unit {0})
validate_projection_scope event target projection =
    if has_required_scope event.aggregate_type event.source_scope
    then check_owner event target projection
    else refuse event target ConflictType.invalid_scope ProjectionConflict.scope_incomplete

-- `incoming_stage < previous_stage`, where both are known.
abbrev pub regresses : Option ℕ → Option ℕ → Bool
regresses none incoming = false
regresses (some previous) none = false
regresses (some previous) (some incoming) = ltb incoming previous

unfoldable pub validate_transition : OutboxEvent → ProjectionState → Target → Receive (Unit {0})
validate_transition event p target =
    if regresses (event_stage p.last_event_type) (event_stage event.event_type)
    then refuse event target ConflictType.invalid_transition ProjectionConflict.stale_transition
    else pure tt

-- The row that an applied event leaves.
abbrev pub projected : OutboxEvent → Target → ProjectionState
projected event target = record {
  receiver = target;
  aggregate_type = event.aggregate_type;
  aggregate_id = event.aggregate_id;
  last_event_type = event.event_type;
  last_entity_version = event.entity_version;
  source_scope = event.source_scope;
}

unfoldable pub store_projection : OutboxEvent → Target → Receive Bool
store_projection event target node = (
  ok true,
  record node {
    projections = put_projection (projected event target) node.projections;
    audit = SyncAction.projection_applied ∷ node.audit;
  },
)

unfoldable pub ignore_event : OutboxEvent → Target → Receive Bool
ignore_event event target =
    log_sync_conflict event target ConflictType.stale_event ResolutionStatus.ignored >> pure false

-- An event that the receiver has applied already.
abbrev pub is_duplicate : OutboxEvent → ProjectionState → Bool
is_duplicate event p =
    (event.entity_version == p.last_entity_version)
    && (event_code p.last_event_type == event_code event.event_type)

unfoldable pub apply_to_existing : OutboxEvent → Target → Option ProjectionState → Receive Bool
apply_to_existing event target none = store_projection event target
apply_to_existing event target (some p) =
    if ltb event.entity_version p.last_entity_version
    then ignore_event event target
    else if is_duplicate event p
    then ignore_event event target
    else (validate_transition event p target >> store_projection event target)

unfoldable pub apply_event_to_projection : OutboxEvent → Target → Receive Bool
apply_event_to_projection event target = do
  projection ←
      gets (λ node. find_projection target event.aggregate_type event.aggregate_id node.projections)
  validate_projection_scope event target projection
  apply_to_existing event target projection

-- The dictionary keeps the place of a key that is added again.
abbrev pub add_target : List Target → Target → List Target
add_target targets t = if any (same_target t) targets then targets else targets ++ t ∷ []

unfoldable pub add_targets : List Target → List Target → List Target
add_targets targets [] = targets
add_targets targets (t ∷ more) = add_targets (add_target targets t) more

abbrev pub optional_target : {A : Type 0} → (A → Target) → Option A → List Target
optional_target f none = []
optional_target f (some a) = f a ∷ []

-- The places of a transfer, if it is there.
abbrev pub transfer_targets : Option Transfer → List Target
transfer_targets none = []
transfer_targets (some t) =
    Target.store t.destination_store.id
      ∷ Target.region t.destination_store.region.code
      ∷ optional_target (λ (s : Store). Target.region s.region.code) t.source_store
    ++ optional_target (λ (h : SupplyHub). Target.region h.region.code) t.source_hub

abbrev pub targets_of_kind : AggregateType → ℕ → List (ℕ × Transfer) → List Target
targets_of_kind AggregateType.transfer id transfers = transfer_targets (lookup id transfers)
targets_of_kind _ id transfers = []

unfoldable pub projection_targets_for_event : List (ℕ × Transfer) → OutboxEvent → List Target
projection_targets_for_event transfers event = add_targets [] (
    optional_target Target.store event.source_scope.store_id
    ++ (optional_target Target.region event.source_scope.region_code
        ++ (targets_of_kind event.aggregate_type event.aggregate_id transfers
            ++ Target.oversight ∷ [])))

unfoldable pub apply_event_to_each : OutboxEvent → Bool → List Target → Receive Bool
apply_event_to_each event any_applied [] = pure any_applied
apply_event_to_each event any_applied (t ∷ targets) = do
  applied ← apply_event_to_projection event t
  apply_event_to_each event (applied || any_applied) targets

unfoldable pub apply_event_to_receivers : List (ℕ × Transfer) → OutboxEvent → Receive Bool
apply_event_to_receivers transfers event =
    apply_event_to_each event false (projection_targets_for_event transfers event)
