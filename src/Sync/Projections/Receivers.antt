-- ===== src/Sync/Projections/Receivers.antt =====
-- The receivers of an event, `_projection_targets_for_event` of apps/sync/services.py.
use codepop.Base.{
  Bool, Bool-cases, List, Option, [], any, ap, false, inl, inr, refl, some, subst, sym, true, ℕ,
  ◌++◌, ◌||◌, ◌∙◌, ◌∷◌, ◌≡◌,
}
use codepop.Sync.Models.{OutboxEvent}
use codepop.Sync.Projections.{
  Target, add_target, add_targets, optional_target, projection_targets_for_event, same_target,
  targets_of_kind,
}
use codepop.Sync.Projections.Keys.{same_target_lem, same_target_refl}
use codepop.Transfers.Models.{Transfer}

-- No receiver stands in the list twice.
abbrev pub IsDistinct : List Target → Type 0
IsDistinct [] = Unit
IsDistinct (t ∷ targets) = (any (same_target t) targets ≡ false) × IsDistinct targets

abbrev pub reaches : Target → List Target → Bool
reaches t targets = any (same_target t) targets

same_target_sym : (a b : Target) → same_target a b ≡ false → same_target b a ≡ false
same_target_sym a b h = elim (Bool-cases (same_target b a)) [
  | inl p ↦ absurd (cc (ap (λ x. same_target x b) (same_target_lem b a p) ∙ h, same_target_refl b))
  | inr p ↦ p
]

or-false : (a : Bool) → (a || false) ≡ a
or-false true = refl
or-false false = refl

neither : (a b : Bool) → (a || b) ≡ false → (a ≡ false) × (b ≡ false)
neither true b h = absurd (cc)
neither false b h = (refl, h)

reaches-append :
    (t u : Target) (targets : List Target)
    → reaches t (targets ++ u ∷ []) ≡ (reaches t targets || same_target t u)
reaches-append t u [] = or-false (same_target t u)
reaches-append t u (v ∷ targets) = elim (Bool-cases (same_target t v)) [
  | inl p ↦ rw p refl
  | inr p ↦ rw p (reaches-append t u targets)
]

IsDistinct-append :
    (u : Target) (targets : List Target)
    → reaches u targets ≡ false
    → IsDistinct targets
    → IsDistinct (targets ++ u ∷ [])
IsDistinct-append u [] h d = (refl, tt)
IsDistinct-append u (v ∷ targets) h d =
    let (h0, h1) = neither (same_target u v) (reaches u targets) h in
    (
      rw (reaches-append v u targets, d.0) (same_target_sym u v h0),
      IsDistinct-append u targets h1 d.1,
    )

add_target-IsDistinct :
    (targets : List Target) (u : Target) → IsDistinct targets → IsDistinct (add_target targets u)
add_target-IsDistinct targets u d = elim (Bool-cases (reaches u targets)) [
  | inl p ↦ rw p d
  | inr p ↦ rw p (IsDistinct-append u targets p d)
]

add_targets-IsDistinct :
    (targets more : List Target) → IsDistinct targets → IsDistinct (add_targets targets more)
unfolding add_targets
add_targets-IsDistinct targets [] d = d
add_targets-IsDistinct targets (u ∷ more) d =
    add_targets-IsDistinct (add_target targets u) more (add_target-IsDistinct targets u d)

or_absorb : (a b : Bool) → (b ≡ true → a ≡ true) → (a || b) ≡ a
or_absorb true b h = refl
or_absorb false true h = sym (h refl)
or_absorb false false h = refl

or_assoc : (a b c : Bool) → ((a || b) || c) ≡ (a || (b || c))
or_assoc true b c = refl
or_assoc false b c = refl

reaches-add_target :
    (t u : Target) (targets : List Target)
    → reaches t (add_target targets u) ≡ (reaches t targets || same_target t u)
reaches-add_target t u targets = elim (Bool-cases (reaches u targets)) [
  | inl p ↦ rw p (
      sym (
        or_absorb (reaches t targets) (same_target t u)
          (λ e. subst (λ x. reaches x targets ≡ true) (sym (same_target_lem t u e)) p)))
  | inr p ↦ rw p (reaches-append t u targets)
]

reaches-add_targets :
    (t : Target) (targets more : List Target)
    → reaches t (add_targets targets more) ≡ (reaches t targets || reaches t more)
unfolding add_targets
reaches-add_targets t targets [] = sym (or-false (reaches t targets))
reaches-add_targets t targets (u ∷ more) =
    reaches-add_targets t (add_target targets u) more
    ∙ ap (λ x. x || reaches t more) (reaches-add_target t u targets)
    ∙ or_assoc (reaches t targets) (same_target t u) (reaches t more)

reaches_right : (t : Target) (a b : List Target) → reaches t b ≡ true → reaches t (a ++ b) ≡ true
reaches_right t [] b h = h
reaches_right t (v ∷ a) b h = elim (Bool-cases (same_target t v)) [
  | inl p ↦ rw p refl
  | inr p ↦ rw p (reaches_right t a b h)
]

reaches_head :
    (f : ℕ → Target) (o : Option ℕ) (id : ℕ) (b : List Target)
    → o ≡ some id
    → reaches (f id) (optional_target f o ++ b) ≡ true
reaches_head f o id b e =
    subst (λ o. reaches (f id) (optional_target f o ++ b) ≡ true) (sym e)
      (rw (same_target_refl (f id)) refl)

-- The store and the region of the event's scope, if it has them, and the oversight receive it, and
-- nobody receives it twice.
pub projection_targets_for_event-IsDistinct :
    (transfers : List (ℕ × Transfer)) (event : OutboxEvent)
    → IsDistinct (projection_targets_for_event transfers event)
      × (reaches Target.oversight (projection_targets_for_event transfers event) ≡ true)
      × ((id : ℕ)
          → event.source_scope.store_id ≡ some id
          → reaches (Target.store id) (projection_targets_for_event transfers event) ≡ true)
      × ((code : ℕ)
          → event.source_scope.region_code ≡ some code
          → reaches (Target.region code) (projection_targets_for_event transfers event) ≡ true)
unfolding projection_targets_for_event
projection_targets_for_event-IsDistinct transfers event =
    let stores = optional_target Target.store event.source_scope.store_id in
    let regions = optional_target Target.region event.source_scope.region_code in
    let places = targets_of_kind event.aggregate_type event.aggregate_id transfers in
    let rest = places ++ Target.oversight ∷ [] in
    let all = stores ++ (regions ++ rest) in
    (
      add_targets-IsDistinct [] all tt,
      reaches-add_targets Target.oversight [] all
          ∙ reaches_right Target.oversight stores (regions ++ rest) (
              reaches_right Target.oversight regions rest
                (reaches_right Target.oversight places _ refl)),
      λ id e.
          reaches-add_targets (Target.store id) [] all
          ∙ reaches_head Target.store event.source_scope.store_id id (regions ++ rest) e,
      λ code e.
          reaches-add_targets (Target.region code) [] all
          ∙ reaches_right (Target.region code) stores (regions ++ rest)
              (reaches_head Target.region event.source_scope.region_code code rest e),
    )
