-- ===== src/Payments/Checkout.antt =====
-- apps/payments/services.py: starting and finishing a checkout. What Stripe returns is an argument:
-- the intent or session that it creates, and whether a session has been paid. What a service sends
-- back to the browser (addresses, messages, client secrets) is left out.
use codepop.Base.{
  Bool, List, Option, [], false, if◌then◌else◌, none, not, or_else, some, true, ℕ, ◌&&◌, ◌==◌, ◌||◌,
  ◌∷◌,
}
use codepop.Base.Exec.{catch, gets, ok, or_raise, pure, raise, raise_if, ◌>>=◌, ◌>>◌}
use codepop.Base.Table.{lookup}
use codepop.Db.{Call, save_payment}
use codepop.Errors.{Error, PaymentFault}
use codepop.Orders.Models.{Order, OrderStatus}
use codepop.Payments.Models.{PaymentStatus, PaymentTransaction, Provider}
use codepop.Payments.Record.{
  complete_checkout_payment, is_payment_pending, is_pricing_validated, record_payment_failure,
  record_payment_pending, refresh_order,
}
use codepop.Payments.Refund.{is_stripe}

-- `except InventoryServiceError as exc: raise PaymentGatewayError(str(exc)) from exc`
abbrev pub as_gateway_error : Error → Error
as_gateway_error (Error.inventory fault) = Error.payment (PaymentFault.inventory_failed fault)
as_gateway_error e = e

-- What `initialize_order_checkout` reads of the settings and of Stripe.
pub data Checkout : Type 0 where
  mock : ℕ → Checkout
  elements : Checkout
  hosted : Bool → Option ℕ → ℕ → Checkout

-- `status in {QUEUED, PREPARING, READY, PICKED_UP}`
abbrev pub is_past_payment : OrderStatus → Bool
is_past_payment OrderStatus.queued = true
is_past_payment OrderStatus.preparing = true
is_past_payment OrderStatus.ready = true
is_past_payment OrderStatus.picked_up = true
is_past_payment _ = false

unfoldable pub find_order_by_code : ℕ → List (ℕ × Order) → Option Order
find_order_by_code code [] = none
find_order_by_code code ((id, o) ∷ rows) =
    if o.public_order_code == code then some o else find_order_by_code code rows

-- `payment.last_webhook_at = now`, if the order has a payment.
unfoldable pub touch_webhook : ℕ → Order → Call (Unit {0})
touch_webhook now order db = elim (lookup order.id db.payments) [
  | some payment ↦ save_payment order.id (record payment { last_webhook_at = some now }) db
  | none ↦ (ok tt, db)
]

abbrev pub is_pending : PaymentStatus → Bool
is_pending PaymentStatus.pending = true
is_pending _ = false

module _ (in_catalog : ℕ → Bool) (now combo : ℕ) where
  -- The handler of an inventory error: the payment is recorded as failed, and the error goes on.
  unfoldable pub fail_checkout : Order → Option ℕ → ℕ → Error → Call (Order × PaymentTransaction)
  fail_checkout order actor reference (Error.inventory fault) = do
    fresh ← refresh_order in_catalog now combo order
    record_payment_failure in_catalog now combo Provider.mock fresh actor (some reference) none
    raise (Error.payment (PaymentFault.inventory_failed fault))
  fail_checkout order actor reference e = raise e

  -- In mock mode the order is completed at once; `reference` is made from the order's code.
  unfoldable pub initialize_order_checkout : Checkout → Order → Option ℕ → Call (Unit {0})
  initialize_order_checkout (Checkout.mock reference) order actor = do
    pending ←
        record_payment_pending in_catalog now combo order (some reference) none Provider.mock none
    catch
        (complete_checkout_payment in_catalog now combo pending.0 actor (some reference)
          Provider.mock none)
        (fail_checkout pending.0 actor reference)
    pure tt
  initialize_order_checkout Checkout.elements order actor = pure tt
  initialize_order_checkout (Checkout.hosted has_request intent session) order actor = do
    raise_if (not has_request) (Error.payment PaymentFault.request_missing)
    record_payment_pending in_catalog now combo order (some (or_else intent session)) none
        Provider.stripe (some session)
    pure tt

  -- The rest of both ways to finish: complete, and note the time.
  unfoldable pub finish_checkout : Order → Option ℕ → ℕ → Option ℕ → Call Order
  finish_checkout order actor intent session = do
    done ←
        catch
          (complete_checkout_payment in_catalog now combo order actor (some intent) Provider.stripe
            session)
          (λ e. raise (as_gateway_error e))
    touch_webhook now order
    pure done.0

  -- `session` is the retrieved session: its key, its intent if it has one, and whether it is paid.
  unfoldable pub finalize_stripe_checkout : ℕ → ℕ → Option ℕ → Bool → Option ℕ → Call Order
  finalize_stripe_checkout code session intent is_paid_session actor = do
    rows ← gets (λ db. db.orders)
    order ← or_raise (find_order_by_code code rows) Error.does_not_exist
    if is_past_payment order.status then (touch_webhook now order >> pure order) else do
      raise_if (not is_paid_session) (Error.payment PaymentFault.checkout_unpaid)
      finish_checkout order actor (or_else intent session) (some session)

  unfoldable pub finalize_stripe_payment_intent : ℕ → ℕ → Option ℕ → Call Order
  finalize_stripe_payment_intent code intent actor = do
    rows ← gets (λ db. db.orders)
    order ← or_raise (find_order_by_code code rows) Error.does_not_exist
    let seen : Call Order = touch_webhook now order >> pure order
    if is_past_payment order.status then seen else finish_checkout order actor intent none

  -- A pending Stripe payment whose intent can still be used: `retrieve` gives the key of the intent
  -- if Stripe knows it and it has a client secret.
  unfoldable pub reusable_intent : (ℕ → Option ℕ) → Option PaymentTransaction → Option ℕ
  reusable_intent retrieve none = none
  reusable_intent retrieve (some payment) =
      if is_stripe payment.provider && is_pending payment.status
      then (elim payment.stripe_payment_intent_id [ none ↦ none | some i ↦ retrieve i ])
      else none

  unfoldable pub reuse_or_create : Provider → ℕ → Order → Option ℕ → Call ℕ
  reuse_or_create mode created order (some intent) = pure intent
  reuse_or_create mode created order none = do
    record_payment_pending in_catalog now combo order (some created) none mode none
    pure created

  -- Returns the key of the intent; in mock mode it is made from the order's code, `created`.
  unfoldable pub create_payment_intent_for_order : Provider → (ℕ → Option ℕ) → ℕ → Order → Call ℕ
  create_payment_intent_for_order mode retrieve created order = do
    raise_if (not (is_pricing_validated order.status || is_payment_pending order.status))
        (Error.payment PaymentFault.intent_not_allowed)
    existing ← gets (λ db. lookup order.id db.payments)
    reuse_or_create mode created order
        (if is_stripe mode then reusable_intent retrieve existing else none)
