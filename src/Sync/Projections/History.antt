-- ===== src/Sync/Projections/History.antt =====
-- The projections of a node over any sequence of deliveries, apps/sync/services.py.
use codepop.Base.{
  ==→eq, Bool-cases, List, Option, and-true, ap₂, arith, inl, inr, none, some, ℕ, ◌≡◌, ◌≤◌,
}
use codepop.Sync.Events.Versions.{same_type_lem}
use codepop.Sync.Models.{AggregateType, OutboxEvent}
use codepop.Sync.Projections.{
  Node, ProjectionState, Target, apply_event_to_projection, find_projection, is_projection_of,
  projected, put_projection,
}
use codepop.Sync.Projections.Keys.{find-put, same_target_lem}
use codepop.Sync.Projections.Outcome.{IsNewFor, apply_event_to_projection-Outcome, projection_for}

abbrev pub version_in : Option ProjectionState → ℕ
version_in none = 0
version_in (some p) = p.last_entity_version

-- The version that a receiver has of an aggregate, 0 before the first event.
unfoldable pub received_version : Target → AggregateType → ℕ → List ProjectionState → ℕ
received_version t k i rows = version_in (find_projection t k i rows)

-- A node after more deliveries, each to a receiver of its own and with any result.
pub data Delivers : Node → Node → Type 0 where
  idle : {a : Node} → Delivers a a
  deliver :
      {a b : Node} (event : OutboxEvent) (target : Target)
      → Delivers a b
      → Delivers a (apply_event_to_projection event target b).1

new-version :
    (event : OutboxEvent) (o : Option ProjectionState)
    → IsNewFor event o
    → version_in o ≤ event.entity_version
new-version event none h = omega arith
new-version event (some p) h = h.0

put-version :
    (t : Target) (k : AggregateType) (i : ℕ) (event : OutboxEvent) (target : Target) (node : Node)
    → IsNewFor event (projection_for event target node)
    → received_version t k i node.projections
      ≤ received_version t k i (put_projection (projected event target) node.projections)
unfolding received_version is_projection_of
put-version t k i event target node h =
    let p = projected event target in
    rw (find-put t k i event target node.projections)
      (elim (Bool-cases (is_projection_of t k i p)) [
        | inr b ↦ rw b (omega arith)
        | inl b ↦
            let (b0, b1) = and-true _ _ b in
            let (b2, b3) = and-true _ _ b1 in
            let same : find_projection t k i node.projections ≡ projection_for event target node =
              ap₂ (λ x (y : AggregateType × ℕ). find_projection x y.0 y.1 node.projections)
                (same_target_lem t target b0)
                (ap₂ (λ x y. (x, y)) (same_type_lem k event.aggregate_type b2)
                  (==→eq i event.aggregate_id b3)) in
            rw (b, same) (new-version event (projection_for event target node) h)
      ])

version-step :
    (t : Target) (k : AggregateType) (i : ℕ) (event : OutboxEvent) (target : Target) (node : Node)
    → received_version t k i node.projections
      ≤ received_version t k i (apply_event_to_projection event target node).1.projections
version-step t k i event target node = elim (apply_event_to_projection-Outcome event target node) [
  | inl r ↦ rw r.projections (put-version t k i event target node r.is_new)
  | inr (inl r) ↦ rw r.projections (omega arith)
  | inr (inr r) ↦ rw r.projections (omega arith)
]

-- Whatever is delivered, and in whatever order, no receiver falls back to an older version.
pub received_version_mono :
    (t : Target) (k : AggregateType) (i : ℕ) (a b : Node)
    → Delivers a b
    → received_version t k i a.projections ≤ received_version t k i b.projections
received_version_mono t k i a b Delivers.idle = omega arith
received_version_mono t k i a b (Delivers.deliver {b = m} event target d) =
    omega (arith, received_version_mono t k i a m d, version-step t k i event target m)
