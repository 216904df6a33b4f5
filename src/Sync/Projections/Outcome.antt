-- ===== src/Sync/Projections/Outcome.antt =====
-- What one event does to one receiver, apps/sync/services.py: it is applied, ignored or refused.
use codepop.Base.{
  Bool, Bool-cases, Option, arith, false, inl, inr, ltb, none, refl, some, subst, sym, true, ◌∷◌,
  ◌≡◌, ◌≤◌, ◌⊎◌,
}
use codepop.Base.Exec.{Result, err, ok, ◌>>=◌}
use codepop.Sync.Models.{OutboxEvent}
use codepop.Sync.Projections.{
  ConflictType, Node, ProjectionConflict, ProjectionState, ResolutionStatus, Target,
  apply_event_to_projection, apply_to_existing, check_owner, find_projection, has_required_scope,
  ignore_event, is_duplicate, is_of_other_owner, log_sync_conflict, projected, put_projection,
  regresses, store_projection, validate_projection_scope, validate_transition,
}
use codepop.Sync.Stages.{event_stage}

-- An event that the receiver's state admits: no older version, no earlier stage, no other owner.
abbrev pub IsNewFor : OutboxEvent → Option ProjectionState → Type 0
IsNewFor event none = Unit
IsNewFor event (some p) =
    (p.last_entity_version ≤ event.entity_version)
    × (regresses (event_stage p.last_event_type) (event_stage event.event_type) ≡ false)
    × (is_of_other_owner p.source_scope event.source_scope ≡ false)
    × (is_duplicate event p ≡ false)

abbrev pub projection_for : OutboxEvent → Target → Node → Option ProjectionState
projection_for event target node =
    find_projection target event.aggregate_type event.aggregate_id node.projections

pub record IsApplied (event : OutboxEvent) (target : Target) (node : Node)
    (r : Result ProjectionConflict Bool × Node) : Type 0 where
  pub result : r.0 ≡ ok true
  pub scope : has_required_scope event.aggregate_type event.source_scope ≡ true
  pub is_new : IsNewFor event (projection_for event target node)
  pub projections : r.1.projections ≡ put_projection (projected event target) node.projections
  pub conflicts : r.1.conflicts ≡ node.conflicts

-- An event that the receiver has applied, or that is older than one that it has applied.
abbrev pub IsKnownTo : OutboxEvent → Option ProjectionState → Type 0
IsKnownTo event none = ⊥
IsKnownTo event (some p) =
    (is_of_other_owner p.source_scope event.source_scope ≡ false)
    × ((ltb event.entity_version p.last_entity_version ≡ true) ⊎ (is_duplicate event p ≡ true))

pub record IsIgnored (event : OutboxEvent) (target : Target) (node : Node)
    (r : Result ProjectionConflict Bool × Node) : Type 0 where
  pub result : r.0 ≡ ok false
  pub scope : has_required_scope event.aggregate_type event.source_scope ≡ true
  pub is_known : IsKnownTo event (projection_for event target node)
  pub projections : r.1.projections ≡ node.projections
  pub conflicts :
      r.1.conflicts
      ≡ (record {
        event = event;
        receiver = target;
        conflict_type = ConflictType.stale_event;
        resolution_status = ResolutionStatus.ignored;
      })
        ∷ node.conflicts

-- Why an event is refused: by its scope, its owner or its stage.
abbrev pub IsReason :
    OutboxEvent → Option ProjectionState → ProjectionConflict → ConflictType → Type 0
IsReason event found fault kind =
    ((has_required_scope event.aggregate_type event.source_scope ≡ false)
      × (fault ≡ ProjectionConflict.scope_incomplete)
      × (kind ≡ ConflictType.invalid_scope))
    ⊎ ((has_required_scope event.aggregate_type event.source_scope ≡ true)
        × ((p : ProjectionState) × (found ≡ some p)
            × (((is_of_other_owner p.source_scope event.source_scope ≡ true)
                  × (fault ≡ ProjectionConflict.owner_mismatch)
                  × (kind ≡ ConflictType.ownership_mismatch))
                ⊎ ((is_of_other_owner p.source_scope event.source_scope ≡ false)
                    × (ltb event.entity_version p.last_entity_version ≡ false)
                    × (is_duplicate event p ≡ false)
                    × (regresses (event_stage p.last_event_type) (event_stage event.event_type)
                        ≡ true)
                    × (fault ≡ ProjectionConflict.stale_transition)
                    × (kind ≡ ConflictType.invalid_transition)))))

pub record IsRefused (event : OutboxEvent) (target : Target) (node : Node)
    (r : Result ProjectionConflict Bool × Node) : Type 0 where
  pub fault : ProjectionConflict
  pub kind : ConflictType
  pub reason : IsReason event (projection_for event target node) fault kind
  pub result : r.0 ≡ err fault
  pub projections : r.1.projections ≡ node.projections
  pub conflicts :
      r.1.conflicts
      ≡ (record {
        event = event;
        receiver = target;
        conflict_type = kind;
        resolution_status = ResolutionStatus.open_conflict;
      })
        ∷ node.conflicts

abbrev pub Outcome : OutboxEvent → Target → Node → Result ProjectionConflict Bool × Node → Type 0
Outcome event target node r =
    IsApplied event target node r ⊎ (IsIgnored event target node r ⊎ IsRefused event target node r)

IsApplied-new :
    (event : OutboxEvent) (target : Target) (node : Node)
    → has_required_scope event.aggregate_type event.source_scope ≡ true
    → IsNewFor event (projection_for event target node)
    → IsApplied event target node (store_projection event target node)
unfolding store_projection
IsApplied-new event target node s n = record {
  result = refl;
  scope = s;
  is_new = n;
  projections = refl;
  conflicts = refl;
}

pub IsIgnored-here :
    (event : OutboxEvent) (target : Target) (node : Node)
    → has_required_scope event.aggregate_type event.source_scope ≡ true
    → IsKnownTo event (projection_for event target node)
    → IsIgnored event target node (ignore_event event target node)
unfolding ignore_event log_sync_conflict
IsIgnored-here event target node s k = record {
  result = refl;
  scope = s;
  is_known = k;
  projections = refl;
  conflicts = refl;
}

existing_cases :
    (event : OutboxEvent) (target : Target) (node : Node) (p : ProjectionState)
    → has_required_scope event.aggregate_type event.source_scope ≡ true
    → is_of_other_owner p.source_scope event.source_scope ≡ false
    → projection_for event target node ≡ some p
    → Outcome event target node (apply_to_existing event target (some p) node)
unfolding apply_to_existing validate_transition log_sync_conflict
existing_cases event target node p s o f =
    elim (Bool-cases (ltb event.entity_version p.last_entity_version)) [
      | inl a ↦
          let k : IsKnownTo event (some p) = (o, inl a) in
          rw a (inr (inl (IsIgnored-here event target node s (subst (IsKnownTo event) (sym f) k))))
      | inr a ↦ elim (Bool-cases (is_duplicate event p)) [
        | inl b ↦
            let k : IsKnownTo event (some p) = (o, inr b) in
            rw (a, b)
              (inr (inl (IsIgnored-here event target node s (subst (IsKnownTo event) (sym f) k))))
        | inr b ↦
            elim (Bool-cases
              (regresses (event_stage p.last_event_type) (event_stage event.event_type))) [
                | inl c ↦
                    rw (a, b, c)
                      (inr (
                        inr (record {
                          fault = ProjectionConflict.stale_transition;
                          kind = ConflictType.invalid_transition;
                          reason = inr (s, (p, f, inr (o, a, b, c, refl, refl)));
                          result = refl;
                          projections = refl;
                          conflicts = refl;
                        })))
                | inr c ↦
                    let n : IsNewFor event (some p) = (ground arith, c, o, b) in
                    rw (a, b, c)
                      (inl (IsApplied-new event target node s (subst (IsNewFor event) (sym f) n)))
              ]
      ]
    ]

owner_cases :
    (event : OutboxEvent) (target : Target) (node : Node) (o : Option ProjectionState)
    → projection_for event target node ≡ o
    → has_required_scope event.aggregate_type event.source_scope ≡ true
    → Outcome event target node
        ((check_owner event target o >>= λ _. apply_to_existing event target o) node)
unfolding log_sync_conflict
owner_cases event target node none f s =
    unfold apply_to_existing in
    inl (IsApplied-new event target node s (subst (IsNewFor event) (sym f) tt))
owner_cases event target node (some p) f s =
    elim (Bool-cases (is_of_other_owner p.source_scope event.source_scope)) [
      | inl a ↦ rw a (
          inr (
            inr (record {
              fault = ProjectionConflict.owner_mismatch;
              kind = ConflictType.ownership_mismatch;
              reason = inr (s, (p, f, inl (a, refl, refl)));
              result = refl;
              projections = refl;
              conflicts = refl;
            })))
      | inr a ↦ rw a (existing_cases event target node p s a f)
    ]

found_cases :
    (event : OutboxEvent) (target : Target) (node : Node) (o : Option ProjectionState)
    → projection_for event target node ≡ o
    → Outcome event target node
        ((validate_projection_scope event target o >>= λ _. apply_to_existing event target o) node)
unfolding validate_projection_scope log_sync_conflict
found_cases event target node o f =
    elim (Bool-cases (has_required_scope event.aggregate_type event.source_scope)) [
      | inr s ↦ rw s (
          inr (
            inr (record {
              fault = ProjectionConflict.scope_incomplete;
              kind = ConflictType.invalid_scope;
              reason = inl (s, refl, refl);
              result = refl;
              projections = refl;
              conflicts = refl;
            })))
      | inl s ↦ rw s (owner_cases event target node o f s)
    ]

-- The three ways, by the tests of the code.
pub apply_event_to_projection-Outcome :
    (event : OutboxEvent) (target : Target) (node : Node)
    → Outcome event target node (apply_event_to_projection event target node)
unfolding apply_event_to_projection
apply_event_to_projection-Outcome event target node =
    found_cases event target node (projection_for event target node) refl
