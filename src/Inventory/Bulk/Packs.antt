-- ===== src/Inventory/Bulk/Packs.antt =====
-- Bulk quantities are whole packs, and no more packs than the demand needs.
use codepop.Base.{
  ==→eq, ==→ne, Bool-cases, arith, dec_lt, if◌then◌else◌, inl, inr, mod-add-div', mod-lt, ℕ, ◌%◌,
  ◌*◌, ◌+◌, ◌/◌, ◌<◌, ◌==◌, ◌≡◌, ◌≤◌,
}
use codepop.Base.Int.{max_ℤ, pos, pos_part, ℤ, ◌≤ℤ◌}
use codepop.Inventory.Bulk.{normalize_bulk_order_quantity, pack_size_for_item, round_up}
use codepop.Inventory.Models.{Category, InventoryItem}

pack_pos : (c : Category) → 0 < pack_size_for_item c
unfolding pack_size_for_item
pack_pos Category.cups = omega arith
pack_pos _ = omega arith

-- The number of packs that reach a target.
packs : ℕ → ℕ → ℕ
packs pack target = if target % pack == 0 then target / pack else target / pack + 1

round_up-eq-packs : (pack target : ℕ) → 0 < pack → round_up pack target ≡ packs pack target * pack
unfolding round_up packs
round_up-eq-packs pack target h = elim (Bool-cases (target % pack == 0)) [
  | inl e ↦ rw e (omega (arith, mod-add-div' target pack, ==→eq (target % pack) 0 e))
  | inr e ↦ rw e (omega (arith, mod-add-div' target pack, mod-lt target h))
]

mul_mono : (a b p : ℕ) → a ≤ b → a * p ≤ b * p
mul_mono a b p h = grind arith

lt_of_mul : (a b p : ℕ) → a * p < b * p → a < b
lt_of_mul a b p h = elim (dec_lt a b) [
  | yes q ↦ q
  | no q ↦ absurd (omega (arith, mul_mono b a p (omega arith)))
]

-- No fewer packs reach the target.
packs_least : (pack target k : ℕ) → 0 < pack → target ≤ k * pack → packs pack target ≤ k
unfolding packs
packs_least pack target k h reach = elim (Bool-cases (target % pack == 0)) [
  | inl e ↦
      let below : target / pack < k + 1 =
        lt_of_mul (target / pack) (k + 1) pack (omega (arith, mod-add-div' target pack)) in
      rw e (omega arith)
  | inr e ↦
      let below : target / pack < k =
        lt_of_mul (target / pack) k pack
          (omega (arith, mod-add-div' target pack, ==→ne (target % pack) 0 e)) in
      rw e (omega arith)
]

round_up-le : (pack target : ℕ) → 0 < pack → target ≤ round_up pack target
unfolding round_up
round_up-le pack target h = ground arith

-- The quantity of a supplier order, as its pack: a whole number of packs that covers both the
-- request and one pack, and no smaller number of packs does.
pub normalize_bulk_order_quantity_least :
    (item : InventoryItem) (requested : ℤ)
    → let pack = pack_size_for_item item.category in
      let q = normalize_bulk_order_quantity item requested in
      (n : ℕ) × (q ≡ n * pack)
      × (requested ≤ℤ pos q)
      × (pack ≤ q)
      × ((k : ℕ) → requested ≤ℤ pos (k * pack) → pack ≤ k * pack → n ≤ k)
unfolding normalize_bulk_order_quantity
normalize_bulk_order_quantity_least item requested =
    let pack = pack_size_for_item item.category in
    let target : ℕ = pos_part (max_ℤ requested (pos pack)) in
    (
      packs pack target,
      round_up-eq-packs pack target (pack_pos item.category),
      ground (arith, round_up-le pack target (pack_pos item.category)),
      ground (arith, round_up-le pack target (pack_pos item.category)),
      λ k r p. packs_least pack target k (pack_pos item.category) (ground arith),
    )
