-- ===== src/Payments/Refund/Outcome.antt =====
-- What `record_refund` does, whatever it returns.
use codepop.Base.{
  Bool, Bool-cases, Option, Option-cases, ap, false≢true, inl, inr, none, some, subst, true, ℕ, ◌∙◌,
  ◌≡◌, ◌≤◌, ◌⊎◌,
}
use codepop.Base.Exec.{Result, err, ok, rollback, ◌>>◌}
use codepop.Base.Int.{ℤ}
use codepop.Base.Table.{lookup}
use codepop.Db.{Call, Db}
use codepop.Errors.{Error, OrderFault, PaymentFault}
use codepop.Inventory.Balance.Shelf.{IsSound}
use codepop.Inventory.Models.{Quantities}
use codepop.Inventory.Reserve.Needs.{AllKnown}
use codepop.Maintenance.Repairs.{actor_id}
use codepop.Orders.Models.{Order, OrderStatus}
use codepop.Orders.Services.{ensure_refund_allowed}
use codepop.Orders.Status.{allowed_order_transitions, get_refund_eligibility, is_allowed}
use codepop.Payments.Models.{PaymentTransaction, Provider}
use codepop.Payments.Record.{amount_or, count_sales, ensure_sale_entry}
use codepop.Payments.Record.Success.{ensure_sale_entry_lem}
use codepop.Payments.Refund.{
  ensure_remote_refund_succeeded, record_refund, refund_amount_of, refund_entry, refunded_payment,
  require_payment, restore_inventory,
}
use codepop.Payments.Refund.Amounts.{
  refund_amount_of-IsRefundAmount, refund_entry-IsRefundEntry, refunded_payment-IsPaidBack,
}
use codepop.Payments.Refund.Remote.{RemoteRefunds, remote_cases}
use codepop.Payments.Refund.Settle.{
  Refundable, Refunded, restore_inventory-Moved, settle_refund, settle_refund_denied,
  settle_refund_lem,
}
use codepop.Users.Models.{Requester}

module _ (remote : ℕ → ℤ → Bool) (mode : Provider) (in_catalog : ℕ → Bool) (now combo : ℕ) where
  -- The rest of a refund once it is known to be eligible and to have a payment.
  refund_rest : Order → Option ℕ → Option ℤ → PaymentTransaction → Call (Order × PaymentTransaction)
  refund_rest order actor_id amount payment = do
    restore_inventory remote mode in_catalog now combo order
    let refund_amount = refund_amount_of amount payment order
    ensure_sale_entry order (amount_or (some payment.amount_captured) order.total_amount)
    ensure_remote_refund_succeeded remote mode payment refund_amount
    settle_refund remote mode in_catalog now combo order actor_id payment refund_amount

  Rest :
      Order
      → Option ℤ
      → PaymentTransaction
      → Db
      → Result Error (Order × PaymentTransaction) × Db
      → Type 0
  Rest order amount payment db r =
      ((is_allowed order.status OrderStatus.refund_pending ≡ true)
        × RemoteRefunds remote mode payment (refund_amount_of amount payment order)
        × (o : Order) × (paid : PaymentTransaction) × (db' : Db) × (r ≡ (ok (o, paid), db'))
        × Refunded order amount db o paid db')
      ⊎ ((¬ (
            (is_allowed order.status OrderStatus.refund_pending ≡ true)
            × RemoteRefunds remote mode payment (refund_amount_of amount payment order)))
          × (e : Error) × (db' : Db) × (r ≡ (err e, db')))

  refund_rest_lem :
      (order : Order) (actor_id : Option ℕ) (amount : Option ℤ) (payment : PaymentTransaction)
      (db : Db)
      → IsSound db
      → AllKnown db.items order
      → count_sales order.store.id order.id db.revenue ≤ 1
      → lookup order.id db.payments ≡ some payment
      → Rest order amount payment db (refund_rest order actor_id amount payment db)
  unfolding Rest refund_rest
  refund_rest_lem order actor_id amount payment db h known one has =
      let x = refund_amount_of amount payment order in
      let (db1, back, m) =
        restore_inventory-Moved remote mode in_catalog now combo order db h known in
      let (entries, sale, once) =
        ensure_sale_entry_lem order (amount_or (some payment.amount_captured) order.total_amount)
          db1 (rw m.frame.revenue one) in
      let db2 : Db = record db1 { revenue = entries } in
      let h2 : IsSound db2 = record { shelves = m.sound.shelves; alerts = m.sound.alerts } in
      elim (remote_cases remote mode payment x db2) [
        | inr (refused, e, stop) ↦ inr (λ w. refused w.1, e, db2, rw (back, sale, stop))
        | inl (yes_remote, went) ↦
            elim (Bool-cases (is_allowed order.status OrderStatus.refund_pending)) [
              | inr p ↦ inr (
                λ w. let q = w.0 in absurd cc,
                Error.order OrderFault.transition_denied,
                db2,
                rw (
                  back,
                  sale,
                  went,
                  settle_refund_denied remote mode in_catalog now combo order actor_id payment x db2
                      p,
                ),
              )
              | inl p ↦
                  let (o, db3, settled, status, same, stored, revenue, shelves, sound) =
                    settle_refund_lem remote mode in_catalog now combo order actor_id payment x db2
                      h2 p in
                  inl (
                    p,
                    yes_remote,
                    o,
                    refunded_payment payment x,
                    db3,
                    rw (back, sale, went, settled),
                    record {
                      status = status;
                      same = same;
                      payment = (
                        payment,
                        x,
                        has,
                        refund_amount_of-IsRefundAmount amount payment order,
                        refunded_payment-IsPaidBack payment x,
                        (
                          refund_entry order x,
                          entries,
                          revenue,
                          refund_entry-IsRefundEntry order x,
                          once,
                        ),
                      );
                      stored = stored;
                      on_hand = λ s i.
                          ap (λ (q : Quantities). q.on_hand_quantity) (shelves s i) ∙ m.on_hand s i;
                      reserved = λ s i.
                          ap (λ (q : Quantities). q.reserved_quantity) (shelves s i)
                          ∙ m.reserved s i;
                      sound = sound;
                    },
                  )
            ]
      ]

  require_payment_cases :
      (order : Order) (db : Db)
      → ((payment : PaymentTransaction) × (lookup order.id db.payments ≡ some payment)
          × (require_payment order db ≡ (ok payment, db)))
        ⊎ ((lookup order.id db.payments ≡ none)
            × (require_payment order db
                ≡ (err (Error.payment PaymentFault.transaction_missing), db)))
  unfolding require_payment
  require_payment_cases order db = elim (Option-cases (lookup order.id db.payments)) [
    | inl n ↦ inr (n, rw (n, require_payment))
    | inr (payment, has) ↦ inl (payment, has, rw (has, require_payment))
  ]

  not-Refundable :
      (order : Order) (actor : Option Requester) (amount : Option ℤ) (payment : PaymentTransaction)
      (db : Db)
      → lookup order.id db.payments ≡ some payment
      → ¬ (
          (is_allowed order.status OrderStatus.refund_pending ≡ true)
          × RemoteRefunds remote mode payment (refund_amount_of amount payment order))
      → ¬ Refundable remote mode order actor amount db
  not-Refundable order actor amount payment db has refused w =
      let (eligible, listed, (found, has', r)) = w in
      let e : found ≡ payment = cc in
      refused
        (listed, subst (λ x. RemoteRefunds remote mode x (refund_amount_of amount x order)) e r)

  record_refund-eq :
      (order : Order) (actor : Option Requester) (actor_id : Option ℕ) (amount : Option ℤ)
      (payment : PaymentTransaction) (db : Db)
      → get_refund_eligibility order.status actor ≡ true
      → require_payment order db ≡ (ok payment, db)
      → record_refund remote mode in_catalog now combo order actor actor_id amount db
        ≡ rollback db (refund_rest order actor_id amount payment db)
  unfolding record_refund ensure_refund_allowed refund_rest settle_refund
  record_refund-eq order actor actor_id amount payment db p e = rw (p, e)

  pub record_refund_outcome :
      (order : Order) (actor : Option Requester) (actor_id : Option ℕ) (amount : Option ℤ) (db : Db)
      → IsSound db
      → AllKnown db.items order
      → count_sales order.store.id order.id db.revenue ≤ 1
      → (Refundable remote mode order actor amount db
          × (o : Order) × (paid : PaymentTransaction) × (db' : Db) × (record_refund remote mode
                in_catalog now combo order actor actor_id amount db
              ≡ (ok (o, paid), db'))
          × Refunded order amount db o paid db')
        ⊎ ((¬ Refundable remote mode order actor amount db)
            × (e : Error) × (record_refund remote mode in_catalog now combo order actor actor_id
                  amount db
                ≡ (err e, db)))
  unfolding record_refund ensure_refund_allowed Rest
  record_refund_outcome order actor actor_id amount db h known one =
      elim (Bool-cases (get_refund_eligibility order.status actor)) [
        | inr p ↦ inr (λ w. let q = w.0 in absurd cc, Error.order OrderFault.refund_denied, rw p)
        | inl p ↦ elim (require_payment_cases order db) [
          | inr (n, e) ↦ inr (
            λ w. let q = w.2.1 in absurd cc,
            Error.payment PaymentFault.transaction_missing,
            rw (p, e),
          )
          | inl (payment, has, e) ↦
              let same = record_refund-eq order actor actor_id amount payment db p e in
              elim (refund_rest_lem order actor_id amount payment db h known one has) [
                | inl (a, r, o, paid, db', done, w) ↦
                    inl ((p, a, (payment, has, r)), o, paid, db', rw (same, done), w)
                | inr (refused, er, db', stop) ↦
                    inr (
                      not-Refundable order actor amount payment db has refused,
                      er,
                      rw (same, stop),
                    )
              ]
        ]
      ]

  -- An order that waits for its payment counts as eligible for a refund, and yet, from sound tables
  -- that know its SKUs and have at most one sale entry of it, the refund always raises, with the
  -- tables as they were.
  pub unpaid_refund_raises :
      (order : Order) (actor : Option Requester) (actor_id : Option ℕ) (amount : Option ℤ) (db : Db)
      → order.status ≡ OrderStatus.payment_pending
      → IsSound db
      → AllKnown db.items order
      → count_sales order.store.id order.id db.revenue ≤ 1
      → (get_refund_eligibility order.status actor ≡ true)
        × ((e : Error) × (record_refund remote mode in_catalog now combo order actor actor_id amount
                db
              ≡ (err e, db)))
  unpaid_refund_raises order actor actor_id amount db s h known one = (
    unfold get_refund_eligibility in rw s,
    elim (record_refund_outcome order actor actor_id amount db h known one) [
      | inr t ↦ (t.1, t.2)
      | inl t ↦
          let listed = rw s at t.0.1 in
          absurd (unfold is_allowed allowed_order_transitions in false≢true listed)
    ],
  )
