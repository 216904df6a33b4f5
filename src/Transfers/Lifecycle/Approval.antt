-- ===== src/Transfers/Lifecycle/Approval.antt =====
-- What may be approved of a request.
use codepop.Base.{
  All, Bool-cases, List, Option, [], ap, arith, false, inl, inr, map, or_else, refl, sym, true, ℕ,
  ◌↔◌, ◌∙◌, ◌∷◌, ◌≡◌, ◌⊎◌,
}
use codepop.Base.Exec.{err, ok}
use codepop.Base.Int.{ltb_ℤ, pos, ℤ, ◌<ℤ◌, ◌≤ℤ◌}
use codepop.Errors.{Error, InventoryFault}
use codepop.Transfers.Lifecycle.{approve_lines}
use codepop.Transfers.Models.{LineItem}

-- The quantity that is approved of a line: the one given for its item, or what was requested.
abbrev pub approved_of : (ℕ → Option ℤ) → LineItem → ℤ
approved_of approved line = or_else (approved line.inventory_item.id) line.quantity_requested

-- More than nothing, and no more than requested.
abbrev pub IsApprovable : (ℕ → Option ℤ) → LineItem → Type 0
IsApprovable approved line =
    (pos 0 <ℤ approved_of approved line) × (approved_of approved line ≤ℤ line.quantity_requested)

abbrev pub approve_line : (ℕ → Option ℤ) → LineItem → LineItem
approve_line approved line = record line { quantity_approved = approved_of approved line }

lt_of_ltb : (a b : ℤ) → ltb_ℤ a b ≡ true → ¬ (b ≤ℤ a)
lt_of_ltb a b h = ground arith

le_of_ltb : (a b : ℤ) → ltb_ℤ a b ≡ false → ¬ (a <ℤ b)
le_of_ltb a b h = ground arith

ltb_above : (a b : ℤ) → ltb_ℤ a b ≡ true → a <ℤ b
ltb_above a b h = ground arith

ltb_below : (a b : ℤ) → ltb_ℤ a b ≡ false → b ≤ℤ a
ltb_below a b h = ground arith

approve_lines_cases :
    (approved : ℕ → Option ℤ) (lines : List LineItem)
    → (All (IsApprovable approved) lines
        × (approve_lines approved lines ≡ ok (map (approve_line approved) lines)))
      ⊎ ((¬ All (IsApprovable approved) lines)
          × (e : Error) × (approve_lines approved lines ≡ err e))
unfolding approve_lines
approve_lines_cases approved [] = inl (tt, refl)
approve_lines_cases approved (line ∷ lines) =
    elim (Bool-cases (ltb_ℤ (pos 0) (approved_of approved line))) [
      | inr p ↦ inr (
        λ w. le_of_ltb (pos 0) (approved_of approved line) p w.0.0,
        Error.inventory InventoryFault.approval_not_positive,
        rw p,
      )
      | inl p ↦ elim (Bool-cases (ltb_ℤ line.quantity_requested (approved_of approved line))) [
        | inl q ↦ inr (
          λ w. lt_of_ltb line.quantity_requested (approved_of approved line) q w.0.1,
          Error.inventory InventoryFault.approval_exceeds_request,
          rw (p, q),
        )
        | inr q ↦ elim (approve_lines_cases approved lines) [
          | inl (all, e) ↦ inl (
            (
              (
                ltb_above (pos 0) (approved_of approved line) p,
                ltb_below line.quantity_requested (approved_of approved line) q,
              ),
              all,
            ),
            rw (p, q, e),
          )
          | inr (some_not, er, e) ↦ inr (λ w. some_not w.1, er, rw (p, q, e))
        ]
      ]
    ]

-- An approval of lines goes through exactly when each quantity is positive and at most what was
-- requested; then the lines hold these quantities and are otherwise as they were.
pub approve_lines_iff :
    (approved : ℕ → Option ℤ) (lines lines' : List LineItem)
    → (approve_lines approved lines ≡ ok lines')
      ↔ (All (IsApprovable approved) lines × (lines' ≡ map (approve_line approved) lines))
approve_lines_iff approved lines lines' = elim (approve_lines_cases approved lines) [
  | inl (all, e) ↦ (λ h. (all, cc), λ w. e ∙ ap ok (sym w.1))
  | inr (some_not, er, e) ↦ (λ h. absurd cc, λ w. absurd (some_not w.0))
]
