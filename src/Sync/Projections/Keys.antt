-- ===== src/Sync/Projections/Keys.antt =====
-- Finding the projection of a receiver, apps/sync/services.py: rows under one key are found alike.
use codepop.Base.{
  ==_refl, ==→eq, Bool-cases, List, [], and-true, ap, ap₂, if◌then◌else◌, inl, inr, refl, some, sym,
  true, ℕ, ◌&&◌, ◌==◌, ◌∙◌, ◌∷◌, ◌≡◌,
}
use codepop.Sync.Events.{same_type}
use codepop.Sync.Events.Versions.{same_type_lem, same_type_refl}
use codepop.Sync.Models.{AggregateType, OutboxEvent}
use codepop.Sync.Projections.{
  ProjectionState, Target, find_projection, is_projection_of, projected, put_projection,
  same_target,
}

pub same_target_lem : (a b : Target) → same_target a b ≡ true → a ≡ b
same_target_lem (Target.store a) (Target.store b) h = ap Target.store (==→eq a b h)
same_target_lem (Target.region a) (Target.region b) h = ap Target.region (==→eq a b h)
same_target_lem Target.oversight Target.oversight h = refl
same_target_lem (Target.store a) (Target.region b) h = absurd (cc)
same_target_lem (Target.store a) Target.oversight h = absurd (cc)
same_target_lem (Target.region a) (Target.store b) h = absurd (cc)
same_target_lem (Target.region a) Target.oversight h = absurd (cc)
same_target_lem Target.oversight (Target.store b) h = absurd (cc)
same_target_lem Target.oversight (Target.region b) h = absurd (cc)

pub same_target_refl : (a : Target) → same_target a a ≡ true
same_target_refl (Target.store a) = ==_refl a
same_target_refl (Target.region a) = ==_refl a
same_target_refl Target.oversight = refl

pub projected_own :
    (event : OutboxEvent) (target : Target)
    → is_projection_of target event.aggregate_type event.aggregate_id (projected event target)
      ≡ true
unfolding is_projection_of
projected_own event target =
    rw (same_target_refl target, same_type_refl event.aggregate_type, ==_refl event.aggregate_id)
      refl

-- Rows under one key are found alike.
is_projection_of_same :
    (t u : Target) (k l : AggregateType) (i j : ℕ) (p q : ProjectionState)
    → is_projection_of u l j p ≡ true
    → is_projection_of u l j q ≡ true
    → is_projection_of t k i p ≡ is_projection_of t k i q
unfolding is_projection_of
is_projection_of_same t u k l i j p q h g =
    let (h0, h1) = and-true _ _ h in
    let (g0, g1) = and-true _ _ g in
    let (h2, h3) = and-true _ _ h1 in
    let (g2, g3) = and-true _ _ g1 in
    let a = sym (same_target_lem u p.receiver h0) ∙ same_target_lem u q.receiver g0 in
    let b = sym (same_type_lem l p.aggregate_type h2) ∙ same_type_lem l q.aggregate_type g2 in
    let c = sym (==→eq j p.aggregate_id h3) ∙ ==→eq j q.aggregate_id g3 in
    ap₂ (λ x y. same_target t x && y) a (ap₂ (λ x y. same_type k x && (i == y)) b c)

pub find-put :
    (t : Target) (k : AggregateType) (i : ℕ) (event : OutboxEvent) (u : Target)
    (rows : List ProjectionState)
    → find_projection t k i (put_projection (projected event u) rows) ≡ (
        if is_projection_of t k i (projected event u)
        then some (projected event u)
        else find_projection t k i rows)
unfolding find_projection put_projection
find-put t k i event u [] = refl
find-put t k i event u (q ∷ rows) =
    let p = projected event u in
    elim (Bool-cases (is_projection_of u event.aggregate_type event.aggregate_id q)) [
      | inl a ↦
          let same =
            is_projection_of_same t u k event.aggregate_type i event.aggregate_id p q
              (projected_own event u) a in
          elim (Bool-cases (is_projection_of t k i p)) [
            | inl b ↦ rw (a, b) refl
            | inr b ↦ rw (a, b, sym same ∙ b) refl
          ]
      | inr a ↦ elim (Bool-cases (is_projection_of t k i q)) [
        | inl b ↦ elim (Bool-cases (is_projection_of t k i p)) [
          | inl c ↦
              let same =
                is_projection_of_same u t event.aggregate_type k event.aggregate_id i p q c b in
              absurd (cc (sym (projected_own event u) ∙ same ∙ a))
          | inr c ↦ rw (a, b, c) refl
        ]
        | inr b ↦ rw (a, b) (find-put t k i event u rows)
      ]
    ]
