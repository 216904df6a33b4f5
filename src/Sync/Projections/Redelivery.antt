-- ===== src/Sync/Projections/Redelivery.antt =====
-- An event that its receivers have taken is delivered to all of them again, apps/sync/services.py.
use codepop.Base.{
  All, Bool, List, [], ap, false, inl, inr, refl, subst, sym, true, ℕ, ◌||◌, ◌∷◌, ◌≡◌, ◌⊎◌,
}
use codepop.Base.Exec.{Result, err, ok}
use codepop.Sync.Models.{OutboxEvent}
use codepop.Sync.Projections.{
  Node, ProjectionConflict, Target, apply_event_to_each, apply_event_to_projection,
  apply_event_to_receivers, has_required_scope, ignore_event, log_sync_conflict,
  projection_targets_for_event,
}
use codepop.Sync.Projections.Again.{Knows, accepted-Knows, Knows-ignores, Knows-kept}
use codepop.Sync.Projections.Outcome.{apply_event_to_projection-Outcome}
use codepop.Transfers.Models.{Transfer}

-- The receiver ignores the event from now on.
abbrev pub IsPast : OutboxEvent → Node → Target → Type 0
IsPast event node t =
    Knows event node t × (has_required_scope event.aggregate_type event.source_scope ≡ true)

-- A delivery is accepted or refused.
accepted_or_refused :
    (event : OutboxEvent) (t : Target) (node : Node)
    → ((b : Bool) × (s : Node) × (apply_event_to_projection event t node ≡ (ok b, s))
        × IsPast event s t
        × ((u : Target) → IsPast event node u → IsPast event s u))
      ⊎ ((f : ProjectionConflict) × (s : Node) × (apply_event_to_projection event t node
            ≡ (err f, s)))
accepted_or_refused event t node =
    let after = (apply_event_to_projection event t node).1 in
    let kept : (u : Target) → IsPast event node u → IsPast event after u =
      λ u k. (Knows-kept event u t node k.0, k.1) in
    elim (apply_event_to_projection-Outcome event t node) [
      | inl r ↦ inl (
        true,
        after,
        ap (λ x. (x, after)) r.result,
        (accepted-Knows event t node true r.result, r.scope),
        kept,
      )
      | inr (inl r) ↦ inl (
        false,
        after,
        ap (λ x. (x, after)) r.result,
        (accepted-Knows event t node false r.result, r.scope),
        kept,
      )
      | inr (inr r) ↦ inr (r.fault, after, ap (λ x. (x, after)) r.result)
    ]

each_cons :
    (event : OutboxEvent) (any_applied : Bool) (t : Target) (targets : List Target) (node : Node)
    (b : Bool) (s : Node)
    → apply_event_to_projection event t node ≡ (ok b, s)
    → apply_event_to_each event any_applied (t ∷ targets) node
      ≡ apply_event_to_each event (b || any_applied) targets s
unfolding apply_event_to_each
each_cons event any_applied t targets node b s e = rw e refl

-- A loop that returns leaves an event of the past to each of its receivers.
each-IsPast :
    (event : OutboxEvent) (any_applied : Bool) (targets : List Target) (node : Node) (b : Bool)
    → (apply_event_to_each event any_applied targets node).0 ≡ ok b
    → let after = (apply_event_to_each event any_applied targets node).1 in
      All (IsPast event after) targets × ((u : Target) → IsPast event node u → IsPast event after u)
unfolding apply_event_to_each
each-IsPast event any_applied [] node b h = (tt, λ u k. k)
each-IsPast event any_applied (t ∷ targets) node b h = elim (accepted_or_refused event t node) [
  | inl (x, s, e, p, kept) ↦
      let (all, later) = each-IsPast event (x || any_applied) targets s b (rw e at h) in
      subst
        (λ (r : Result ProjectionConflict Bool × Node).
          All (IsPast event r.1) (t ∷ targets)
          × ((u : Target) → IsPast event node u → IsPast event r.1 u))
        (sym (each_cons event any_applied t targets node x s e))
        ((later t p, all), λ u k. later u (kept u k))
  | inr (f, s, e) ↦ absurd (cc (rw e at h))
]

each_ignored :
    (event : OutboxEvent) (any_applied : Bool) (targets : List Target) (node : Node)
    → All (IsPast event node) targets
    → let r = apply_event_to_each event any_applied targets node in
      (r.0 ≡ ok any_applied) × (r.1.projections ≡ node.projections)
unfolding apply_event_to_each ignore_event log_sync_conflict
each_ignored event any_applied [] node h = (refl, refl)
each_ignored event any_applied (t ∷ targets) node (p, h) =
    rw (Knows-ignores event t node p.0 p.1)
      (each_ignored event any_applied targets (ignore_event event t node).1 h)

-- An event that no receiver refused is applied nowhere when it comes again: the call returns `false`,
-- for which nobody is notified, and the projections stay.
pub apply_event_to_receivers_idem :
    (transfers : List (ℕ × Transfer)) (event : OutboxEvent) (node : Node) (b : Bool)
    → (apply_event_to_receivers transfers event node).0 ≡ ok b
    → let after = (apply_event_to_receivers transfers event node).1 in
      let again = apply_event_to_receivers transfers event after in
      (again.0 ≡ ok false) × (again.1.projections ≡ after.projections)
unfolding apply_event_to_receivers
apply_event_to_receivers_idem transfers event node b h =
    let targets = projection_targets_for_event transfers event in
    let after = (apply_event_to_receivers transfers event node).1 in
    each_ignored event false targets after (each-IsPast event false targets node b h).0
