-- ===== src/Sync/Projections/Verdict.antt =====
-- What a receiver makes of one event, apps/sync/services.py, by the fields of the event and of the row
-- that it has.
use codepop.Base.{
  ==→eq, Bool, Bool-cases, Option, and-true, arith, false, inl, inr, none, refl, some, subst, true,
  ℕ, ◌∷◌, ◌≡◌, ◌⊎◌,
}
use codepop.Base.Exec.{Result, err, ok}
use codepop.Sync.Events.Versions.{same_type_lem}
use codepop.Sync.Models.{AggregateType, OutboxEvent}
use codepop.Sync.Projections.{
  ConflictType, Node, ProjectionConflict, ProjectionState, ResolutionStatus, Target,
  apply_event_to_projection, find_projection, is_projection_of, projected, put_projection,
}
use codepop.Sync.Projections.Keys.{find-put, projected_own, same_target_lem}
use codepop.Sync.Projections.Outcome.{
  IsApplied, IsKnownTo, IsNewFor, IsRefused, apply_event_to_projection-Outcome, projection_for,
}
use codepop.Sync.Projections.Reading.{
  IsEarlier, IsForeign, IsOlder, IsRepeat, IsScoped, owner_reading, IsRepeat-reading, scope_reading,
  stage_reading,
}

-- The row of the event is stored, no other row changes, and no conflict is logged.
pub record IsStored (event : OutboxEvent) (target : Target) (node : Node)
    (r : Result ProjectionConflict Bool × Node) : Type 0 where
  pub result : r.0 ≡ ok true
  pub found :
      projection_for event target r.1
      ≡ some (record {
        receiver = target;
        aggregate_type = event.aggregate_type;
        aggregate_id = event.aggregate_id;
        last_event_type = event.event_type;
        last_entity_version = event.entity_version;
        source_scope = event.source_scope;
      })
  pub others :
      (t : Target) (k : AggregateType) (i : ℕ)
      → ¬ ((t ≡ target) × (k ≡ event.aggregate_type) × (i ≡ event.aggregate_id))
      → find_projection t k i r.1.projections ≡ find_projection t k i node.projections
  pub conflicts : r.1.conflicts ≡ node.conflicts

-- No row changes, and one conflict is logged.
pub record IsLogged (event : OutboxEvent) (target : Target) (node : Node)
    (result : Result ProjectionConflict Bool) (kind : ConflictType) (status : ResolutionStatus)
    (r : Result ProjectionConflict Bool × Node) : Type 0 where
  pub returned : r.0 ≡ result
  pub projections : r.1.projections ≡ node.projections
  pub conflicts :
      r.1.conflicts
      ≡ (record {
        event = event;
        receiver = target;
        conflict_type = kind;
        resolution_status = status;
      })
        ∷ node.conflicts

-- The receiver has a row of the same owner.
abbrev pub Owned : OutboxEvent → Option ProjectionState → (ProjectionState → Type 0) → Type 0
Owned event found Q = (p : ProjectionState) × (found ≡ some p) × (¬ IsForeign event p) × Q p

-- The receiver has no row of the aggregate, or one of the same owner that the event goes beyond.
abbrev pub IsAdmitted : OutboxEvent → Option ProjectionState → Type 0
IsAdmitted event found =
    (found ≡ none)
    ⊎ Owned event found (λ p. (¬ IsOlder event p) × (¬ IsRepeat event p) × (¬ IsEarlier event p))

abbrev pub IsStale : OutboxEvent → Option ProjectionState → Type 0
IsStale event found = Owned event found (λ p. IsOlder event p ⊎ IsRepeat event p)

abbrev pub IsBackward : OutboxEvent → Option ProjectionState → Type 0
IsBackward event found =
    Owned event found (λ p. (¬ IsOlder event p) × (¬ IsRepeat event p) × IsEarlier event p)

abbrev pub IsStolen : OutboxEvent → Option ProjectionState → Type 0
IsStolen event found = (p : ProjectionState) × (found ≡ some p) × IsForeign event p

-- The five things that can happen, each with its condition.
abbrev pub Verdict : OutboxEvent → Target → Node → Result ProjectionConflict Bool × Node → Type 0
Verdict event target node r =
    let found = projection_for event target node in
    let refused = λ (fault : ProjectionConflict) (kind : ConflictType).
      IsLogged event target node (err fault) kind ResolutionStatus.open_conflict r in
    ((¬ IsScoped event.aggregate_type event.source_scope)
      × refused ProjectionConflict.scope_incomplete ConflictType.invalid_scope)
    ⊎ (IsScoped event.aggregate_type event.source_scope
        × ((IsAdmitted event found × IsStored event target node r)
            ⊎ ((IsStale event found
                  × IsLogged event target node (ok false) ConflictType.stale_event
                      ResolutionStatus.ignored r)
                ⊎ ((IsStolen event found
                      × refused ProjectionConflict.owner_mismatch ConflictType.ownership_mismatch)
                    ⊎ (IsBackward event found
                        × refused ProjectionConflict.stale_transition
                            ConflictType.invalid_transition)))))

IsAdmitted-reading :
    (event : OutboxEvent) (found : Option ProjectionState)
    → IsNewFor event found
    → IsAdmitted event found
IsAdmitted-reading event none n = inl refl
IsAdmitted-reading event (some p) (v, e, o, d) = inr (
  p,
  refl,
  (owner_reading event p).1 o,
  (λ h. absurd (omega arith), (IsRepeat-reading event p).1 d, (stage_reading event p).1 e),
)

IsStale-reading :
    (event : OutboxEvent) (found : Option ProjectionState)
    → IsKnownTo event found
    → IsStale event found
IsStale-reading event none n = absurd n
IsStale-reading event (some p) (o, k) = (
  p,
  refl,
  (owner_reading event p).1 o,
  elim k [ inl a ↦ inl (ground arith) | inr b ↦ inr ((IsRepeat-reading event p).0 b) ],
)

stored_found :
    (event : OutboxEvent) (target : Target) (node : Node)
    → find_projection target event.aggregate_type event.aggregate_id
        (put_projection (projected event target) node.projections)
      ≡ some (projected event target)
stored_found event target node =
    rw
      (
        find-put target event.aggregate_type event.aggregate_id event target node.projections,
        projected_own event target,
      )
      refl

other_key :
    (event : OutboxEvent) (target t : Target) (k : AggregateType) (i : ℕ)
    → ¬ ((t ≡ target) × (k ≡ event.aggregate_type) × (i ≡ event.aggregate_id))
    → is_projection_of t k i (projected event target) ≡ false
unfolding is_projection_of
other_key event target t k i n =
    elim (Bool-cases (is_projection_of t k i (projected event target))) [
      | inr q ↦ q
      | inl q ↦
          let (a, b) = and-true _ _ q in
          let (c, d) = and-true _ _ b in
          absurd (
            n (
              same_target_lem t target a,
              same_type_lem k event.aggregate_type c,
              ==→eq i event.aggregate_id d,
            ))
    ]

IsApplied-IsStored :
    (event : OutboxEvent) (target : Target) (node : Node)
    (r : Result ProjectionConflict Bool × Node)
    → IsApplied event target node r
    → IsStored event target node r
IsApplied-IsStored event target node r a = record {
  result = a.result;
  found = rw a.projections (stored_found event target node);
  others = λ t k i n.
      rw
        (
          a.projections,
          find-put t k i event target node.projections,
          other_key event target t k i n,
        )
        refl;
  conflicts = a.conflicts;
}

refused-Verdict :
    (event : OutboxEvent) (target : Target) (node : Node)
    (r : Result ProjectionConflict Bool × Node)
    → IsRefused event target node r
    → Verdict event target node r
refused-Verdict event target node r a =
    let logged : IsLogged event target node (err a.fault) a.kind ResolutionStatus.open_conflict r =
      record { returned = a.result; projections = a.projections; conflicts = a.conflicts } in
    let moved : (f : ProjectionConflict) (k : ConflictType)
        → a.fault ≡ f
        → a.kind ≡ k
        → IsLogged event target node (err f) k ResolutionStatus.open_conflict r =
      λ f k e g.
        subst (λ x. IsLogged event target node (err x) k ResolutionStatus.open_conflict r) e
          (subst (λ x. IsLogged event target node (err a.fault) x ResolutionStatus.open_conflict r)
            g logged) in
    let scope = scope_reading event.aggregate_type event.source_scope in
    elim a.reason [
      | inl (s, f, k) ↦ inl (scope.1 s, moved _ _ f k)
      | inr (s, (p, e, inl (o, f, k))) ↦
          inr (scope.0 s, inr (inr (inl ((p, e, (owner_reading event p).0 o), moved _ _ f k))))
      | inr (s, (p, e, inr (o, v, d, g, f, k))) ↦ inr (
        scope.0 s,
        inr (
            inr (
              inr (
                (
                  p,
                  e,
                  (owner_reading event p).1 o,
                  (
                    λ h. absurd (ground arith),
                    (IsRepeat-reading event p).1 d,
                    (stage_reading event p).0 g,
                  ),
                ),
                moved _ _ f k,
              ))),
      )
    ]

-- An event without the scope that its kind requires is refused. Any other is applied if the receiver
-- has no row of its aggregate, or one of the same owner with no newer version, no later stage and not
-- this event: then its row is stored and no other row changes. It is ignored as stale if the row is of
-- the same owner and the event is older or repeats it. It is refused if the row is of another owner,
-- or if the event is neither older nor a repeat, and of an earlier stage than the row. What is ignored
-- or refused changes no row and logs one conflict of its kind.
pub apply_event_to_projection-Verdict :
    (event : OutboxEvent) (target : Target) (node : Node)
    → Verdict event target node (apply_event_to_projection event target node)
apply_event_to_projection-Verdict event target node =
    let r = apply_event_to_projection event target node in
    let found = projection_for event target node in
    let scope = scope_reading event.aggregate_type event.source_scope in
    elim (apply_event_to_projection-Outcome event target node) [
      | inl a ↦ inr (
        scope.0 a.scope,
        inl (IsAdmitted-reading event found a.is_new, IsApplied-IsStored event target node r a),
      )
      | inr (inl a) ↦ inr (
        scope.0 a.scope,
        inr (
            inl (
              IsStale-reading event found a.is_known,
              record { returned = a.result; projections = a.projections; conflicts = a.conflicts },
            )),
      )
      | inr (inr a) ↦ refused-Verdict event target node r a
    ]
