-- ===== src/Orders/Pricing/Totals.antt =====
-- What a validated price is made of, and how far rounding moves it.
use codepop.Base.{
  All, Bool-cases, List, [], ap, append-nil, append_assoc, ap₂, arith, false, inl, inr, map, refl,
  sym, true, ℕ, ◌*◌, ◌++◌, ◌+◌, ◌/◌, ◌<◌, ◌↔◌, ◌∙◌, ◌∷◌, ◌≡◌, ◌≢◌, ◌≤◌, ◌⊎◌,
}
use codepop.Base.Exec.{Result, err, ok}
use codepop.Base.Int.{+ℤ_zero, add_assoc_ℤ, ltb_ℤ, lt→ltb_ℤ, pos, zero_+ℤ, ·ℤ_pos, ℤ, ◌+ℤ◌, ◌<ℤ◌}
use codepop.Errors.{Error, OrderFault}
use codepop.Orders.Models.{OrderItem}
use codepop.Orders.Pricing.{
  Pricing, RequestedItem, default_tax_rate, half_up, line_total, normalized_item, price_items,
  price_of, quantize, tax_on, validate_pricing,
}

-- Every item has a name and a positive quantity.
abbrev pub IsPriceable : RequestedItem → Type 0
IsPriceable item = (item.has_name ≡ true) × (pos 0 <ℤ item.quantity)

abbrev pub sum_lines : List RequestedItem → ℤ
sum_lines [] = pos 0
sum_lines (item ∷ items) = line_total item +ℤ sum_lines items

not-IsPriceable :
    (item : RequestedItem)
    → (IsPriceable item)
      ⊎ ((¬ IsPriceable item) × ((item.has_name ≡ false) ⊎ (ltb_ℤ (pos 0) item.quantity ≡ false)))
not-IsPriceable item = elim (Bool-cases item.has_name) [
  | inr p ↦ inr (λ h. cc (p, h.0), inl p)
  | inl p ↦ elim (Bool-cases (ltb_ℤ (pos 0) item.quantity)) [
    | inl q ↦ inl (p, ground arith)
    | inr q ↦ inr (λ h. absurd (ground arith), inr q)
  ]
]

price_items-step :
    (subtotal : ℤ) (done : List OrderItem) (item : RequestedItem) (items : List RequestedItem)
    → IsPriceable item
    → price_items subtotal done (item ∷ items)
      ≡ price_items (subtotal +ℤ line_total item) (done ++ normalized_item item ∷ []) items
unfolding price_items
price_items-step subtotal done item items h = simp (h.0, lt→ltb_ℤ (pos 0) item.quantity h.1)

ok_injective : {E A : Type 0} {a b : A} → ◌≡◌ {A = Result E A} (ok a) (ok b) → a ≡ b
ok_injective h = cc

-- The loop prices every item, or stops at one that cannot be priced.
price_items_cases :
    (subtotal : ℤ) (done : List OrderItem) (items : List RequestedItem)
    → (All IsPriceable items
        × (price_items subtotal done items
            ≡ ok (subtotal +ℤ sum_lines items, done ++ map normalized_item items)))
      ⊎ ((¬ All IsPriceable items) × ((e : Error) × (price_items subtotal done items ≡ err e)))
unfolding price_items
price_items_cases subtotal done [] = inl (tt, rw (+ℤ_zero subtotal, append-nil done))
price_items_cases subtotal done (item ∷ items) = elim (not-IsPriceable item) [
  | inr t ↦ inr (
    λ h. t.0 h.0,
    elim t.1 [
      | inl p ↦ (Error.order OrderFault.name_missing, rw p)
      | inr q ↦ elim (Bool-cases item.has_name) [
        | inl p ↦ (Error.order OrderFault.quantity_not_positive, rw (p, q))
        | inr p ↦ (Error.order OrderFault.name_missing, rw p)
      ]
    ],
  )
  | inl h ↦
      let done' = done ++ normalized_item item ∷ [] in
      elim (price_items_cases (subtotal +ℤ line_total item) done' items) [
        | inl t ↦ inl (
          (h, t.0),
          price_items-step subtotal done item items h
              ∙ t.1
              ∙ ap₂ (λ (x : ℤ) (y : List OrderItem). ok (x, y))
                  (add_assoc_ℤ subtotal (line_total item) (sum_lines items))
                  (append_assoc done (normalized_item item ∷ []) (map normalized_item items)),
        )
        | inr t ↦ inr (λ w. t.0 w.1, (t.1.0, price_items-step subtotal done item items h ∙ t.1.1))
      ]
]

priced_iff :
    (tax_rate : ℕ) (item : RequestedItem) (items : List RequestedItem) (p : Pricing)
    → All IsPriceable (item ∷ items)
    → price_items (pos 0) [] (item ∷ items)
      ≡ ok (sum_lines (item ∷ items), map normalized_item (item ∷ items))
    → (validate_pricing tax_rate (item ∷ items) ≡ ok p) ↔ (
        ((item ∷ items) ≢ [])
        × All IsPriceable (item ∷ items)
        × (p ≡ price_of tax_rate (sum_lines (item ∷ items), map normalized_item (item ∷ items))))
unfolding validate_pricing
priced_iff tax_rate item items p h e = (
  λ q. ((λ z. cc), h, ok_injective (sym (rw (e, validate_pricing) at q))),
  λ w. rw (e, validate_pricing) (ap ok (sym w.2)),
)

-- A request is priced exactly when it has an item and each item has a name and a positive quantity;
-- then the items keep their order, the subtotal is the sum of the line totals and the total adds
-- the tax on it.
pub validate_pricing_iff :
    (tax_rate : ℕ) (items : List RequestedItem) (p : Pricing)
    → (validate_pricing tax_rate items ≡ ok p) ↔ (
        (items ≢ [])
        × All IsPriceable items
        × (p ≡ price_of tax_rate (sum_lines items, map normalized_item items)))
unfolding validate_pricing
validate_pricing_iff tax_rate [] p = (λ h. cc, λ h. absurd (h.0 refl))
validate_pricing_iff tax_rate (item ∷ items) p =
    elim (price_items_cases (pos 0) [] (item ∷ items)) [
      | inl t ↦ priced_iff tax_rate item items p t.0 (t.1 ∙ rw (zero_+ℤ (sum_lines (item ∷ items))))
      | inr t ↦ (λ h. cc (rw (t.1.1, validate_pricing) at h), λ h. absurd (t.0 h.1))
    ]

-- The tax at the default rate, on a subtotal of zero or more, is within half a hundredth of 7.25%
-- of it, and on the tie it is rounded up.
pub tax_rounding :
    (subtotal : ℕ)
    → (t : ℕ) × (tax_on default_tax_rate (pos subtotal) ≡ pos t)
      × (2 * 10000 * t ≤ 2 * 725 * subtotal + 10000)
      × (2 * 725 * subtotal + 10000 < 2 * 10000 * t + 2 * 10000)
unfolding tax_on quantize half_up
tax_rounding subtotal =
    ((2 * (725 * subtotal) + 10000) / 20000, rw (·ℤ_pos 725 subtotal), omega arith, omega arith)
