-- ===== src/Orders/Status/Graph.antt =====
-- The graph of order statuses: it has no cycle, and its ends are known.
use codepop.Base.{
  arith, false, inl, inr, refl, suc, true, ℕ, ℕ_discrete, ◌+◌, ◌<◌, ◌↔◌, ◌≡◌, ◌≢◌, ◌≤◌, ◌⊎◌,
}
use codepop.Orders.Models.{OrderStatus}
use codepop.Orders.Status.{allowed_order_transitions, is_allowed}

-- How far an order has come.
rank : OrderStatus → ℕ
rank OrderStatus.draft = 0
rank OrderStatus.pricing_validated = 1
rank OrderStatus.payment_pending = 2
rank OrderStatus.paid = 3
rank OrderStatus.queued = 4
rank OrderStatus.preparing = 5
rank OrderStatus.ready = 6
rank OrderStatus.refund_pending = 6
rank OrderStatus.picked_up = 7
rank OrderStatus.refunded = 7
rank OrderStatus.canceled = 7
rank OrderStatus.expired = 7

rank_lt : (a b : OrderStatus) → is_allowed a b ≡ true → rank a < rank b
unfolding is_allowed allowed_order_transitions rank
rank_lt OrderStatus.draft b h = ground arith
rank_lt OrderStatus.pricing_validated b h = ground arith
rank_lt OrderStatus.payment_pending b h = ground arith
rank_lt OrderStatus.paid b h = ground arith
rank_lt OrderStatus.queued b h = ground arith
rank_lt OrderStatus.preparing b h = ground arith
rank_lt OrderStatus.ready b h = ground arith
rank_lt OrderStatus.refund_pending b h = ground arith
rank_lt _ b h = cc

rank-le : (a : OrderStatus) → rank a ≤ 7
unfolding rank
rank-le OrderStatus.draft = omega arith
rank-le _ = omega arith

-- A sequence of allowed transitions from one status to another, and how many there are.
pub data History (a : OrderStatus) : OrderStatus → ℕ → Type 0 where
  start : History a a 0
  then_to :
      {b : OrderStatus} {n : ℕ} (c : OrderStatus)
      → History a b n
      → is_allowed b c ≡ true
      → History a c (suc n)

History-rank : {a b : OrderStatus} {n : ℕ} → History a b n → rank a + n ≤ rank b
History-rank start = omega arith
History-rank (then_to {b = b} c h step) = omega (arith, History-rank h, rank_lt b c step)

-- However the transitions of an order are chosen, there are at most seven, and after one or more of
-- them the status is another than at the start.
pub History-bounded : {a b : OrderStatus} {n : ℕ} → History a b n → (n ≤ 7) × ((n ≡ 0) ⊎ (a ≢ b))
History-bounded {a} {b} {n} h = (
  omega (arith, History-rank h, rank-le b),
  elim (ℕ_discrete n 0) [
    | yes e ↦ inl e
    | no ne ↦ inr (λ e. let r = rw e at (History-rank h) in absurd (omega (arith, r)))
  ],
)

-- `picked_up`, `refunded`, `canceled` or `expired`
abbrev pub IsFinal : OrderStatus → Type 0
IsFinal s =
    (s ≡ OrderStatus.picked_up)
    ⊎ ((s ≡ OrderStatus.refunded) ⊎ ((s ≡ OrderStatus.canceled) ⊎ (s ≡ OrderStatus.expired)))

final_stuck : (a b : OrderStatus) → IsFinal a → is_allowed a b ≡ false
unfolding is_allowed allowed_order_transitions
final_stuck OrderStatus.picked_up b h = refl
final_stuck OrderStatus.refunded b h = refl
final_stuck OrderStatus.canceled b h = refl
final_stuck OrderStatus.expired b h = refl
final_stuck _ b h = ground arith

stuck-IsFinal : (a : OrderStatus) → ((b : OrderStatus) → is_allowed a b ≡ false) → IsFinal a
unfolding is_allowed allowed_order_transitions
stuck-IsFinal OrderStatus.draft h = cc (h OrderStatus.canceled)
stuck-IsFinal OrderStatus.pricing_validated h = cc (h OrderStatus.canceled)
stuck-IsFinal OrderStatus.payment_pending h = cc (h OrderStatus.canceled)
stuck-IsFinal OrderStatus.paid h = cc (h OrderStatus.canceled)
stuck-IsFinal OrderStatus.queued h = cc (h OrderStatus.canceled)
stuck-IsFinal OrderStatus.preparing h = cc (h OrderStatus.ready)
stuck-IsFinal OrderStatus.ready h = cc (h OrderStatus.expired)
stuck-IsFinal OrderStatus.refund_pending h = cc (h OrderStatus.refunded)
stuck-IsFinal _ h = ground arith

-- An order can leave its status exactly when that is not one of the final four.
IsFinal-iff_stuck : (a : OrderStatus) → IsFinal a ↔ ((b : OrderStatus) → is_allowed a b ≡ false)
IsFinal-iff_stuck a = (λ h b. final_stuck a b h, stuck-IsFinal a)
