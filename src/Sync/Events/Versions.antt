-- ===== src/Sync/Events/Versions.antt =====
-- The versions of the events of one aggregate count up from 1 without a gap.
use codepop.Base.{
  ==_refl, Bool-cases, List, [], ap₂, arith, if◌then◌else◌, inl, inr, refl, suc, true, zero, ℕ, ◌+◌,
  ◌∷◌, ◌≡◌,
}
use codepop.Sync.Events.{is_about, latest_version, new_event, next_entity_version, same_type}
use codepop.Sync.Models.{AggregateType, EventType, OutboxEvent, SourceScope}

-- The versions of an aggregate's events, newest first.
unfoldable pub versions_of : AggregateType → ℕ → List OutboxEvent → List ℕ
versions_of kind id [] = []
versions_of kind id (e ∷ events) =
    let rest = versions_of kind id events in
    if is_about kind id e then e.entity_version ∷ rest else rest

-- n, n - 1, …, 1
abbrev pub down_from : ℕ → List ℕ
down_from zero = []
down_from (suc n) = suc n ∷ down_from n

-- Each aggregate's events are numbered by `create_outbox_event`.
pub record IsNumbered (events : List OutboxEvent) : Type 0 where
  pub at :
      (kind : AggregateType) (id : ℕ)
      → versions_of kind id events ≡ down_from (latest_version kind id events)

pub IsNumbered-empty : IsNumbered []
unfolding versions_of latest_version
IsNumbered-empty = record { at = λ kind id. refl }

pub same_type_lem : (a b : AggregateType) → same_type a b ≡ true → a ≡ b
same_type_lem AggregateType.order b h = ground arith
same_type_lem _ b h = ground arith

pub same_type_refl : (a : AggregateType) → same_type a a ≡ true
same_type_refl AggregateType.order = refl
same_type_refl AggregateType.transfer = refl
same_type_refl AggregateType.replenishment = refl
same_type_refl AggregateType.machine = refl
same_type_refl AggregateType.repair_assignment = refl

-- What counts a new event counts as its own aggregate.
new_event-latest :
    (event : EventType) (kind k : AggregateType) (id i : ℕ) (scope : SourceScope)
    (events : List OutboxEvent)
    → is_about k i (new_event event kind id scope events) ≡ true
    → latest_version k i events ≡ latest_version kind id events
unfolding new_event
new_event-latest event kind k id i scope events h =
    let e : k ≡ kind = same_type_lem k kind (ground arith) in
    let f : i ≡ id = ground arith in ap₂ (λ x y. latest_version x y events) e f

module _ (event : EventType) (kind : AggregateType) (id : ℕ) (scope : SourceScope)
    (events : List OutboxEvent) where
  latest-new_event :
      (k : AggregateType) (i : ℕ)
      → latest_version k i (new_event event kind id scope events ∷ events) ≡ (
          if is_about k i (new_event event kind id scope events)
          then suc (latest_version k i events)
          else latest_version k i events)
  unfolding latest_version
  latest-new_event k i = elim (Bool-cases (is_about k i (new_event event kind id scope events))) [
    | inl p ↦ rw p (
        unfold new_event next_entity_version in
        omega (arith, new_event-latest event kind k id i scope events p))
    | inr p ↦ rw p
  ]

  new_version :
      (k : AggregateType) (i : ℕ)
      → is_about k i (new_event event kind id scope events) ≡ true
      → (new_event event kind id scope events).entity_version ≡ suc (latest_version k i events)
  new_version k i p =
      let e = new_event-latest event kind k id i scope events p in
      unfold new_event next_entity_version in omega (arith, e)

  about_itself : is_about kind id (new_event event kind id scope events) ≡ true
  unfolding new_event
  about_itself = rw (same_type_refl kind) (==_refl id)

  numbered :
      (k : AggregateType) (i : ℕ)
      → IsNumbered events
      → versions_of k i (new_event event kind id scope events ∷ events)
        ≡ down_from (latest_version k i (new_event event kind id scope events ∷ events))
  unfolding versions_of
  numbered k i h = elim (Bool-cases (is_about k i (new_event event kind id scope events))) [
    | inl p ↦ rw (latest-new_event k i) (rw p (ap₂ (λ x xs. x ∷ xs) (new_version k i p) (h.at k i)))
    | inr p ↦ rw (latest-new_event k i) (rw p (h.at k i))
  ]

  -- An event that `create_outbox_event` adds keeps the numbering of every aggregate, and the latest
  -- version of its own goes up by one.
  pub new_event-IsNumbered :
      IsNumbered events
      → IsNumbered (new_event event kind id scope events ∷ events)
        × (latest_version kind id (new_event event kind id scope events ∷ events)
            ≡ latest_version kind id events + 1)
  new_event-IsNumbered h = (
    record { at = λ k i. numbered k i h },
    rw (latest-new_event kind id, about_itself) (omega arith),
  )
