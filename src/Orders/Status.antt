-- ===== src/Orders/Status.antt =====
-- apps/orders/services.py, `ALLOWED_ORDER_TRANSITIONS` and `get_refund_eligibility`.
pub mod Graph
use codepop.Base.{
  Bool, List, Option, [], any, false, if◌then◌else◌, none, some, true, ℕ, ◌&&◌, ◌==◌, ◌∷◌,
}
use codepop.Orders.Models.{OrderStatus}
use codepop.Users.Models.{Requester, Role, anonymous, signed_in}

unfoldable pub allowed_order_transitions : OrderStatus → List OrderStatus
allowed_order_transitions OrderStatus.draft =
    OrderStatus.pricing_validated ∷ OrderStatus.canceled ∷ []
allowed_order_transitions OrderStatus.pricing_validated =
    OrderStatus.payment_pending ∷ OrderStatus.canceled ∷ []
allowed_order_transitions OrderStatus.payment_pending = OrderStatus.paid ∷ OrderStatus.canceled ∷ []
allowed_order_transitions OrderStatus.paid =
    OrderStatus.queued ∷ OrderStatus.refund_pending ∷ OrderStatus.canceled ∷ []
allowed_order_transitions OrderStatus.queued =
    OrderStatus.preparing ∷ OrderStatus.refund_pending ∷ OrderStatus.canceled ∷ []
allowed_order_transitions OrderStatus.preparing =
    OrderStatus.ready ∷ OrderStatus.refund_pending ∷ []
allowed_order_transitions OrderStatus.ready = OrderStatus.picked_up ∷ OrderStatus.expired ∷ []
allowed_order_transitions OrderStatus.refund_pending = OrderStatus.refunded ∷ []
allowed_order_transitions _ = []

abbrev pub status_code : OrderStatus → ℕ
status_code OrderStatus.draft = 0
status_code OrderStatus.pricing_validated = 1
status_code OrderStatus.payment_pending = 2
status_code OrderStatus.paid = 3
status_code OrderStatus.queued = 4
status_code OrderStatus.preparing = 5
status_code OrderStatus.ready = 6
status_code OrderStatus.picked_up = 7
status_code OrderStatus.refund_pending = 8
status_code OrderStatus.refunded = 9
status_code OrderStatus.canceled = 10
status_code OrderStatus.expired = 11

-- Equality of statuses, and `new_status in allowed`.
abbrev pub is_order_status : OrderStatus → OrderStatus → Bool
is_order_status a b = status_code a == status_code b

unfoldable pub is_allowed : OrderStatus → OrderStatus → Bool
is_allowed from to = any (is_order_status to) (allowed_order_transitions from)

abbrev pub is_refundable_before_prep : OrderStatus → Bool
is_refundable_before_prep OrderStatus.paid = true
is_refundable_before_prep OrderStatus.queued = true
is_refundable_before_prep OrderStatus.payment_pending = true
is_refundable_before_prep _ = false

-- `actor` is `None`, or a requester whose role counts only when signed in.
abbrev pub is_privileged : Option Requester → Bool
is_privileged none = false
is_privileged (some anonymous) = false
is_privileged (some (signed_in u)) = elim u.role [
  | Role.admin ↦ true
  | Role.super_admin ↦ true
  | _ ↦ false
]

-- The verdict of `get_refund_eligibility`, without its text.
unfoldable pub get_refund_eligibility : OrderStatus → Option Requester → Bool
get_refund_eligibility status actor =
    if is_refundable_before_prep status
    then true
    else is_order_status status OrderStatus.preparing && is_privileged actor
