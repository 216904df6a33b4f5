-- ===== src/Sync/Projections/Reading.antt =====
-- The tests of a receiver on an event, apps/sync/services.py, and what they say of its fields.
use codepop.Base.{
  ==→eq, Bool-cases, Option, and-true, ap, arith, false, inl, inr, is_some, none, refl, some, true,
  ℕ, ◌&&◌, ◌<◌, ◌≡◌, ◌⊎◌,
}
use codepop.Sync.Models.{AggregateType, OutboxEvent, SourceScope}
use codepop.Sync.Projections.{
  ProjectionState, differ, has_required_scope, is_duplicate, is_of_other_owner, regresses,
}
use codepop.Sync.Stages.{event_code, event_stage}
use codepop.Sync.Stages.Codes.{event_code-injective}

-- The fields of a scope that the kind of aggregate requires.
abbrev pub IsScoped : AggregateType → SourceScope → Type 0
IsScoped AggregateType.transfer scope = (r : ℕ) × (scope.region_code ≡ some r)
IsScoped AggregateType.replenishment scope = (r : ℕ) × (scope.region_code ≡ some r)
IsScoped _ scope = ((s : ℕ) × (scope.store_id ≡ some s)) × ((r : ℕ) × (scope.region_code ≡ some r))

-- Both are known, and they are different.
abbrev pub IsOther : Option ℕ → Option ℕ → Type 0
IsOther a b = (x : ℕ) × (y : ℕ) × (a ≡ some x) × (b ≡ some y) × (¬ (x ≡ y))

-- The row belongs to another store or to another region than the event.
abbrev pub IsForeign : OutboxEvent → ProjectionState → Type 0
IsForeign event p =
    IsOther p.source_scope.store_id event.source_scope.store_id
    ⊎ IsOther p.source_scope.region_code event.source_scope.region_code

abbrev pub IsOlder : OutboxEvent → ProjectionState → Type 0
IsOlder event p = event.entity_version < p.last_entity_version

abbrev pub IsRepeat : OutboxEvent → ProjectionState → Type 0
IsRepeat event p =
    (event.entity_version ≡ p.last_entity_version) × (p.last_event_type ≡ event.event_type)

-- The event belongs to an earlier stage than the last event of the row.
abbrev pub IsEarlier : OutboxEvent → ProjectionState → Type 0
IsEarlier event p =
    (a : ℕ) × (b : ℕ) × (event_stage p.last_event_type ≡ some a)
    × (event_stage event.event_type ≡ some b)
    × (b < a)

known_reading :
    (o : Option ℕ)
    → (is_some o ≡ true → (x : ℕ) × (o ≡ some x)) × (is_some o ≡ false → ¬ ((x : ℕ) × (o ≡ some x)))
known_reading none = (λ h. absurd cc, λ h (x, e). absurd cc)
known_reading (some a) = (λ h. (a, refl), λ h w. absurd cc)

both_reading :
    (a b : Option ℕ)
    → ((is_some a && is_some b) ≡ true → ((x : ℕ) × (a ≡ some x)) × ((y : ℕ) × (b ≡ some y)))
      × ((is_some a && is_some b) ≡ false → ¬ (((x : ℕ) × (a ≡ some x)) × ((y : ℕ) × (b ≡ some y))))
both_reading none b = (λ h. absurd cc, λ h w. let e = w.0.1 in absurd cc)
both_reading (some a) none = (λ h. absurd cc, λ h w. let e = w.1.1 in absurd cc)
both_reading (some a) (some b) = (λ h. ((a, refl), (b, refl)), λ h w. absurd cc)

pub scope_reading :
    (kind : AggregateType) (scope : SourceScope)
    → (has_required_scope kind scope ≡ true → IsScoped kind scope)
      × (has_required_scope kind scope ≡ false → ¬ IsScoped kind scope)
scope_reading AggregateType.transfer scope = known_reading scope.region_code
scope_reading AggregateType.replenishment scope = known_reading scope.region_code
scope_reading AggregateType.order scope = both_reading scope.store_id scope.region_code
scope_reading AggregateType.machine scope = both_reading scope.store_id scope.region_code
scope_reading AggregateType.repair_assignment scope = both_reading scope.store_id scope.region_code

differ_reading :
    (a b : Option ℕ) → (differ a b ≡ true → IsOther a b) × (differ a b ≡ false → ¬ IsOther a b)
differ_reading none b = (λ h. absurd cc, λ h w. let e = w.2 in absurd cc)
differ_reading (some a) none = (λ h. absurd cc, λ h w. let e = w.3 in absurd cc)
differ_reading (some a) (some b) = (
  λ h. (a, b, refl, refl, λ e. absurd (ground arith)),
  λ h w. let e = w.2 in let f = w.3 in let q : a ≡ b = ground arith in absurd (w.4 (cc)),
)

pub owner_reading :
    (event : OutboxEvent) (p : ProjectionState)
    → (is_of_other_owner p.source_scope event.source_scope ≡ true → IsForeign event p)
      × (is_of_other_owner p.source_scope event.source_scope ≡ false → ¬ IsForeign event p)
owner_reading event p =
    let a = differ_reading p.source_scope.store_id event.source_scope.store_id in
    let b = differ_reading p.source_scope.region_code event.source_scope.region_code in
    elim (Bool-cases (differ p.source_scope.store_id event.source_scope.store_id)) [
      | inl q ↦ (λ h. inl (a.0 q), λ h. absurd (cc (rw q at h)))
      | inr q ↦ (
        λ h. inr (b.0 (rw q at h)),
        λ h w. elim w [ inl x ↦ a.1 q x | inr y ↦ b.1 (rw q at h) y ],
      )
    ]

pub IsRepeat-reading :
    (event : OutboxEvent) (p : ProjectionState)
    → (is_duplicate event p ≡ true → IsRepeat event p)
      × (is_duplicate event p ≡ false → ¬ IsRepeat event p)
IsRepeat-reading event p = (
  λ h.
      let (a, b) = and-true _ _ h in
      (
        ==→eq event.entity_version p.last_entity_version a,
        event_code-injective p.last_event_type event.event_type (==→eq _ _ b),
      ),
  λ h w. let a = w.0 in let b = ap event_code w.1 in absurd (ground arith),
)

stages_reading :
    (a b : Option ℕ)
    → (regresses a b ≡ true → (x : ℕ) × (y : ℕ) × (a ≡ some x) × (b ≡ some y) × (y < x))
      × (regresses a b ≡ false → ¬ ((x : ℕ) × (y : ℕ) × (a ≡ some x) × (b ≡ some y) × (y < x)))
stages_reading none b = (λ h. absurd cc, λ h w. let e = w.2 in absurd cc)
stages_reading (some a) none = (λ h. absurd cc, λ h w. let e = w.3 in absurd cc)
stages_reading (some a) (some b) = (
  λ h. (a, b, refl, refl, ground arith),
  λ h w.
      let x : a ≡ w.0 = let e = w.2 in cc in
      let y : b ≡ w.1 = let e = w.3 in cc in let l = w.4 in absurd (ground arith),
)

pub stage_reading :
    (event : OutboxEvent) (p : ProjectionState)
    → (regresses (event_stage p.last_event_type) (event_stage event.event_type) ≡ true
        → IsEarlier event p)
      × (regresses (event_stage p.last_event_type) (event_stage event.event_type) ≡ false
          → ¬ IsEarlier event p)
stage_reading event p =
    stages_reading (event_stage p.last_event_type) (event_stage event.event_type)
