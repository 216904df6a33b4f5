-- ===== src/Sync/Projections/Again.antt =====
-- An event that is delivered again, apps/sync/services.py: its receivers know it, and ignore it.
use codepop.Base.{
  ==_refl, Bool, Bool-cases, Option, arith, false, inl, inr, ltb, none, refl, some, subst, sym,
  true, ℕ, ◌≡◌,
}
use codepop.Base.Exec.{ok, ◌>>=◌}
use codepop.Sync.Models.{OutboxEvent, SourceScope}
use codepop.Sync.Projections.{
  Node, ProjectionState, Target, apply_event_to_projection, apply_to_existing, differ,
  find_projection, has_required_scope, ignore_event, is_duplicate, is_of_other_owner,
  is_projection_of, projected, put_projection, validate_projection_scope,
}
use codepop.Sync.Projections.Keys.{find-put, projected_own}
use codepop.Sync.Projections.Outcome.{IsKnownTo, apply_event_to_projection-Outcome, projection_for}
use codepop.Sync.Stages.{event_code}

differ_self : (a : Option ℕ) → differ a a ≡ false
differ_self none = refl
differ_self (some x) = rw (==_refl x) refl

owner_self : (s : SourceScope) → is_of_other_owner s s ≡ false
owner_self s = rw (differ_self s.store_id, differ_self s.region_code) refl

duplicate_self :
    (event : OutboxEvent) (target : Target) → is_duplicate event (projected event target) ≡ true
duplicate_self event target =
    rw (==_refl event.entity_version, ==_refl (event_code event.event_type)) refl

ltb_self : (n : ℕ) → ltb n n ≡ false
ltb_self n = ground arith

projected_known :
    (event : OutboxEvent) (target : Target) → IsKnownTo event (some (projected event target))
projected_known event target = (owner_self event.source_scope, inr (duplicate_self event target))

known_ignored :
    (event : OutboxEvent) (target : Target) (node : Node) (o : Option ProjectionState)
    → IsKnownTo event o
    → has_required_scope event.aggregate_type event.source_scope ≡ true
    → (validate_projection_scope event target o >>= λ _. apply_to_existing event target o) node
      ≡ ignore_event event target node
unfolding validate_projection_scope apply_to_existing
known_ignored event target node none k s = absurd k
known_ignored event target node (some p) (o, inl a) s = rw (s, o, a) refl
known_ignored event target node (some p) (o, inr b) s =
    elim (Bool-cases (ltb event.entity_version p.last_entity_version)) [
      | inl a ↦ rw (s, o, a) refl
      | inr a ↦ rw (s, o, a, b) refl
    ]

abbrev pub Knows : OutboxEvent → Node → Target → Type 0
Knows event node target = IsKnownTo event (projection_for event target node)

pub Knows-ignores :
    (event : OutboxEvent) (target : Target) (node : Node)
    → Knows event node target
    → has_required_scope event.aggregate_type event.source_scope ≡ true
    → apply_event_to_projection event target node ≡ ignore_event event target node
unfolding apply_event_to_projection
Knows-ignores event target node k s =
    known_ignored event target node (projection_for event target node) k s

-- With the same projections, a node knows the same events.
Knows-same :
    (event : OutboxEvent) (t : Target) (a b : Node)
    → b.projections ≡ a.projections
    → Knows event a t
    → Knows event b t
Knows-same event t a b e k =
    subst (λ rows. IsKnownTo event (find_projection t event.aggregate_type event.aggregate_id rows))
      (sym e) k

put-Knows :
    (event : OutboxEvent) (t u : Target) (a b : Node)
    → b.projections ≡ put_projection (projected event u) a.projections
    → (is_projection_of t event.aggregate_type event.aggregate_id (projected event u) ≡ false
        → Knows event a t)
    → Knows event b t
put-Knows event t u a b e k =
    let f = find-put t event.aggregate_type event.aggregate_id event u a.projections in
    subst (λ rows. IsKnownTo event (find_projection t event.aggregate_type event.aggregate_id rows))
      (sym e)
      (subst (IsKnownTo event) (sym f)
        (elim (Bool-cases
          (is_projection_of t event.aggregate_type event.aggregate_id (projected event u))) [
            | inl p ↦ rw p (projected_known event u)
            | inr p ↦ rw p (k p)
          ]))

-- Whatever a delivery does, who knows the event still knows it.
pub Knows-kept :
    (event : OutboxEvent) (t u : Target) (node : Node)
    → Knows event node t
    → Knows event (apply_event_to_projection event u node).1 t
Knows-kept event t u node k =
    let after = (apply_event_to_projection event u node).1 in
    elim (apply_event_to_projection-Outcome event u node) [
      | inl r ↦ put-Knows event t u node after r.projections (λ p. k)
      | inr (inl r) ↦ Knows-same event t node after r.projections k
      | inr (inr r) ↦ Knows-same event t node after r.projections k
    ]

-- A receiver that has not refused an event knows it.
pub accepted-Knows :
    (event : OutboxEvent) (t : Target) (node : Node) (b : Bool)
    → (apply_event_to_projection event t node).0 ≡ ok b
    → Knows event (apply_event_to_projection event t node).1 t
accepted-Knows event t node b h =
    let after = (apply_event_to_projection event t node).1 in
    elim (apply_event_to_projection-Outcome event t node) [
      | inl r ↦
          put-Knows event t t node after r.projections (λ p. absurd (cc (projected_own event t, p)))
      | inr (inl r) ↦ Knows-same event t node after r.projections r.is_known
      | inr (inr r) ↦ absurd (cc (r.result, h))
    ]
