-- ===== src/Payments/Refund/Remote.antt =====
-- apps/payments/services.py, `_ensure_remote_refund_succeeded`: what it asks of Stripe.
use codepop.Base.{
  Bool, Bool-cases, Option-cases, false, false≢true, inl, inr, some, sym, true, ℕ, ◌&&◌, ◌∙◌, ◌≡◌,
  ◌⊎◌,
}
use codepop.Base.Exec.{err, ok}
use codepop.Base.Int.{ℤ}
use codepop.Db.{Db}
use codepop.Errors.{Error, PaymentFault}
use codepop.Payments.Models.{PaymentTransaction, Provider}
use codepop.Payments.Refund.{ensure_remote_refund_succeeded, is_stripe}

-- Stripe is not asked, or it is, and the refund comes back as succeeded.
pub RemoteRefunds : (ℕ → ℤ → Bool) → Provider → PaymentTransaction → ℤ → Type 0
RemoteRefunds remote mode payment amount =
    (is_stripe mode && is_stripe payment.provider ≡ false)
    ⊎ ((intent : ℕ) × (payment.stripe_payment_intent_id ≡ some intent)
        × (remote intent amount ≡ true))

asked :
    (remote : ℕ → ℤ → Bool) (mode : Provider) (payment : PaymentTransaction) (amount : ℤ)
    → is_stripe mode ≡ true
    → is_stripe payment.provider ≡ true
    → RemoteRefunds remote mode payment amount
    → (intent : ℕ) × (payment.stripe_payment_intent_id ≡ some intent)
      × (remote intent amount ≡ true)
unfolding RemoteRefunds
asked remote mode payment amount p q (inl u) = absurd (false≢true (sym u ∙ rw (p, q)))
asked remote mode payment amount p q (inr t) = t

pub remote_cases :
    (remote : ℕ → ℤ → Bool) (mode : Provider) (payment : PaymentTransaction) (amount : ℤ) (db : Db)
    → (RemoteRefunds remote mode payment amount
        × (ensure_remote_refund_succeeded remote mode payment amount db ≡ (ok tt, db)))
      ⊎ ((¬ RemoteRefunds remote mode payment amount)
          × (e : Error) × (ensure_remote_refund_succeeded remote mode payment amount db
              ≡ (err e, db)))
unfolding RemoteRefunds ensure_remote_refund_succeeded
remote_cases remote mode payment amount db =
    let ask = asked remote mode payment amount in
    elim (Bool-cases (is_stripe mode)) [
      | inr p ↦ inl (inl (rw p), rw (p, ensure_remote_refund_succeeded))
      | inl p ↦ elim (Bool-cases (is_stripe payment.provider)) [
        | inr q ↦ inl (inl (rw (p, q)), rw (p, q, ensure_remote_refund_succeeded))
        | inl q ↦ elim (Option-cases payment.stripe_payment_intent_id) [
          | inl n ↦ inr (
            λ w. let (i, e, r) = ask p q w in absurd cc,
            Error.payment PaymentFault.intent_missing,
            rw (p, q, n, ensure_remote_refund_succeeded),
          )
          | inr (i, e) ↦ elim (Bool-cases (remote i amount)) [
            | inl r ↦ inl (inr (i, e, r), rw (p, q, e, r, ensure_remote_refund_succeeded))
            | inr r ↦ inr (
              λ w. let (i', e', r') = ask p q w in absurd cc,
              Error.payment PaymentFault.refund_failed,
              rw (p, q, e, r, ensure_remote_refund_succeeded),
            )
          ]
        ]
      ]
    ]
