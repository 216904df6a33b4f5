-- ===== src/Payments/Refund/Amounts.antt =====
-- The amount of `record_refund`, apps/payments/services.py, and what it leaves of the payment and in
-- the ledger.
use codepop.Base.{
  ==→eq, Bool-cases, Option, ap, arith, false, inl, inr, none, refl, some, true, ◌+◌, ◌≡◌, ◌⊎◌,
}
use codepop.Base.Int.{
  eq_of_parts, eqb_ℤ, int_laws, leb_ℤ, neg_part, pos, pos_part, ℤ, ◌+ℤ◌, ◌<ℤ◌, ◌≤ℤ◌,
}
use codepop.Inventory.Balance.Loops.{total}
use codepop.Orders.Models.{Order}
use codepop.Payments.Models.{EntryType, PaymentStatus, PaymentTransaction, RevenueEntry}
use codepop.Payments.Record.{amount_or}
use codepop.Payments.Refund.{refund_amount_of, refund_entry, refunded_payment}

-- What is refunded: the amount that is asked for, or else what was captured, or else the total; an
-- amount of zero counts as none.
abbrev pub IsRefundAmount : Option ℤ → PaymentTransaction → Order → ℤ → Type 0
IsRefundAmount amount old order x =
    ((a : ℤ) × (amount ≡ some a) × (¬ (a ≡ pos 0)) × (x ≡ a))
    ⊎ (((amount ≡ none) ⊎ (amount ≡ some (pos 0)))
        × (((¬ (old.amount_captured ≡ pos 0)) × (x ≡ old.amount_captured))
            ⊎ ((old.amount_captured ≡ pos 0) × (x ≡ order.total_amount))))

-- The payment once `x` is paid back: it is refunded when all that was captured is.
pub record IsPaidBack (old : PaymentTransaction) (x : ℤ) (paid : PaymentTransaction) : Type 0 where
  pub amount_refunded : paid.amount_refunded ≡ old.amount_refunded +ℤ x
  pub refunded :
      old.amount_captured ≤ℤ (old.amount_refunded +ℤ x) → paid.status ≡ PaymentStatus.refunded
  pub partly :
      (old.amount_refunded +ℤ x) <ℤ old.amount_captured
      → paid.status ≡ PaymentStatus.partially_refunded
  pub amount_captured : paid.amount_captured ≡ old.amount_captured
  pub amount_authorized : paid.amount_authorized ≡ old.amount_authorized
  pub provider : paid.provider ≡ old.provider
  pub intent : paid.stripe_payment_intent_id ≡ old.stripe_payment_intent_id

-- The entry of the ledger: the gross amount and the net amount cancel out.
pub record IsRefundEntry (order : Order) (x : ℤ) (e : RevenueEntry) : Type 0 where
  pub store : e.store ≡ order.store.id
  pub of_order : e.order ≡ order.id
  pub entry_type : e.entry_type ≡ EntryType.refund
  pub gross_amount : e.gross_amount ≡ x
  pub net_amount : e.net_amount +ℤ x ≡ pos 0

zero-eq : (a : ℤ) → eqb_ℤ a (pos 0) ≡ true → a ≡ pos 0
zero-eq a h = eq_of_parts a (pos 0) (==→eq (pos_part a + 0) (0 + neg_part a) h)

zero-ne : (a : ℤ) → eqb_ℤ a (pos 0) ≡ false → ¬ (a ≡ pos 0)
zero-ne a h e = let g = ap (λ x. eqb_ℤ x (pos 0)) e in absurd cc

captured_or_total :
    (captured total : ℤ)
    → ((¬ (captured ≡ pos 0)) × (amount_or (some captured) total ≡ captured))
      ⊎ ((captured ≡ pos 0) × (amount_or (some captured) total ≡ total))
captured_or_total captured total = elim (Bool-cases (eqb_ℤ captured (pos 0))) [
  | inl p ↦ inr (zero-eq captured p, rw p refl)
  | inr p ↦ inl (zero-ne captured p, rw p refl)
]

pub refund_amount_of-IsRefundAmount :
    (amount : Option ℤ) (old : PaymentTransaction) (order : Order)
    → IsRefundAmount amount old order (refund_amount_of amount old order)
unfolding refund_amount_of
refund_amount_of-IsRefundAmount none old order =
    inr (inl refl, captured_or_total old.amount_captured order.total_amount)
refund_amount_of-IsRefundAmount (some a) old order = elim (Bool-cases (eqb_ℤ a (pos 0))) [
  | inl p ↦
      inr (
        inr (ap some (zero-eq a p)),
        rw p (captured_or_total old.amount_captured order.total_amount),
      )
  | inr p ↦ inl (a, refl, zero-ne a p, rw p refl)
]

pub refunded_payment-IsPaidBack :
    (old : PaymentTransaction) (x : ℤ) → IsPaidBack old x (refunded_payment old x)
refunded_payment-IsPaidBack old x =
    let total = old.amount_refunded +ℤ x in
    record {
      amount_refunded = refl;
      refunded = λ h. let p : leb_ℤ old.amount_captured total ≡ true = ground arith in rw p refl;
      partly = λ h. let p : leb_ℤ old.amount_captured total ≡ false = ground arith in rw p refl;
      amount_captured = refl;
      amount_authorized = refl;
      provider = refl;
      intent = refl;
    }

pub refund_entry-IsRefundEntry :
    (order : Order) (x : ℤ) → IsRefundEntry order x (refund_entry order x)
refund_entry-IsRefundEntry order x = record {
  store = refl;
  of_order = refl;
  entry_type = refl;
  gross_amount = refl;
  net_amount = omega int_laws;
}
