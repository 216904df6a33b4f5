-- ===== src/Tests/Payments.antt =====
-- Payments on the sample tables.
use codepop.Base.{arith, none, refl, some, true, ◌≡◌, ◌≤◌}
use codepop.Base.Exec.{Result, err, ok}
use codepop.Base.Int.{pos}
use codepop.Db.{Db}
use codepop.Errors.{Error}
use codepop.Orders.Models.{Order, OrderStatus}
use codepop.Orders.Status.{get_refund_eligibility}
use codepop.Payments.Models.{PaymentTransaction, Provider}
use codepop.Payments.Record.{count_sales, record_payment_success}
use codepop.Payments.Record.Success.{Captured, record_payment_success_lem}
use codepop.Payments.Refund.{record_refund}
use codepop.Payments.Refund.Outcome.{unpaid_refund_raises}
use codepop.Tests.Data.{
  always_refunds, no_catalog, order_in, tables_in, tables_in-AllKnown, tables_in-IsSound,
}

abbrev waiting : Order
waiting = order_in OrderStatus.payment_pending

abbrev queued_order : Order
queued_order = order_in OrderStatus.queued

one_sale_at_most : (status : OrderStatus) → count_sales 1 5 (tables_in status).revenue ≤ 1
unfolding count_sales
one_sale_at_most status = omega arith

record_payment_success_example :
    (o : Order) × (payment : PaymentTransaction) × (db' : Db) × (record_payment_success no_catalog
        20 1234 waiting
        (some 77)
        none
        (some 3)
        Provider.mock
        none
        (tables_in OrderStatus.payment_pending)
      ≡ (ok (o, payment), db'))
    × Captured 20 waiting (pos 858) (tables_in OrderStatus.payment_pending) o payment db'
record_payment_success_example =
    record_payment_success_lem no_catalog 20 1234 waiting (some 77) none (some 3) Provider.mock none
      (tables_in OrderStatus.payment_pending) (tables_in-IsSound OrderStatus.payment_pending)
      (one_sale_at_most OrderStatus.payment_pending)

-- One refund of the sample order.
abbrev refund : OrderStatus → Result Error (Order × PaymentTransaction) × Db
refund status =
    record_refund always_refunds Provider.mock no_catalog 20 1234 (order_in status) none none none
      (tables_in status)

unpaid_refund_raises_example :
    (get_refund_eligibility OrderStatus.payment_pending none ≡ true)
    × ((e : Error) × (refund OrderStatus.payment_pending
          ≡ (err e, tables_in OrderStatus.payment_pending)))
unpaid_refund_raises_example =
    unpaid_refund_raises always_refunds Provider.mock no_catalog 20 1234 waiting none none none
      (tables_in OrderStatus.payment_pending) refl (tables_in-IsSound OrderStatus.payment_pending)
      (tables_in-AllKnown OrderStatus.payment_pending)
      (one_sale_at_most OrderStatus.payment_pending)
