-- ===== src/Inventory/Balance/Bounds.antt =====
-- What `apply_balance_change` and `get_or_create` do to the quantities on a shelf.
use codepop.Base.{arith, false, some, ◌↔◌, ◌≡◌}
use codepop.Base.Int.{+ℤ_parts, -ℤ_parts, ltb_ℤ, pos, ℤ, ◌+ℤ◌, ◌≤ℤ◌}
use codepop.Inventory.Balance.{apply_balance_change, available_quantity}
use codepop.Inventory.Models.{Quantities}

-- The check constraints of the two balance tables.
pub record IsValid (q : Quantities) : Type 0 where
  pub on_hand_nonneg : pos 0 ≤ℤ q.on_hand_quantity
  pub reserved_nonneg : pos 0 ≤ℤ q.reserved_quantity
  pub reserved_within : q.reserved_quantity ≤ℤ q.on_hand_quantity

pub Quantities-eq :
    (a b : Quantities)
    → a.on_hand_quantity ≡ b.on_hand_quantity
    → a.reserved_quantity ≡ b.reserved_quantity
    → a ≡ b
Quantities-eq a b p q = λ i. record { on_hand_quantity = p i; reserved_quantity = q i }

-- A change goes through with the new quantities exactly when they are the old ones plus the deltas
-- and meet the constraints of the table; every other change is refused.
pub apply_balance_change_iff :
    (d r : ℤ) (q q' : Quantities)
    → (apply_balance_change d r q ≡ some q') ↔ (
        (q'.on_hand_quantity ≡ q.on_hand_quantity +ℤ d)
        × (q'.reserved_quantity ≡ q.reserved_quantity +ℤ r)
        × IsValid q')
unfolding apply_balance_change
apply_balance_change_iff d r q q' = (λ h. ground arith, λ h. ground arith)

-- The test `available_quantity(balance) < x` fails exactly when what is reserved and `x` are
-- together on hand.
pub available_quantity_iff :
    (q : Quantities) (x : ℤ)
    → (ltb_ℤ (available_quantity q) x ≡ false) ↔ (q.reserved_quantity +ℤ x ≤ℤ q.on_hand_quantity)
unfolding available_quantity
available_quantity_iff q x = (
  λ h.
      ground
        (arith, -ℤ_parts q.on_hand_quantity q.reserved_quantity, +ℤ_parts q.reserved_quantity x),
  λ h.
      ground
        (arith, -ℤ_parts q.on_hand_quantity q.reserved_quantity, +ℤ_parts q.reserved_quantity x),
)
