-- ===== src/Orders/Services.antt =====
-- apps/orders/services.py: creating an order, its locker, and its transitions. What the code draws
-- at random or reads from the clock is an argument; texts (names, notes, reasons) are left out.
pub mod Codes
pub mod Effects
pub mod Transition
pub mod Creation
use codepop.Base.{
  Bool, List, Option, [], any, false, if◌then◌else◌, is_some, none, not, or_else, some, suc, true,
  zero, ℕ, ◌%◌, ◌&&◌, ◌+◌, ◌==◌, ◌||◌, ◌∷◌,
}
use codepop.Base.Exec.{atomic, err, gets, lift, ok, or_raise, pure, raise_if, ◌>>=◌, ◌>>◌}
use codepop.Base.Table.{insert}
use codepop.Db.{Call, save_order}
use codepop.Errors.{Error, OrderFault}
use codepop.Inventory.Reserve.{reserve_order_inventory}
use codepop.Orders.Models.{GuestContact, Order, OrderStatus, OrderType, RefundStatus}
use codepop.Orders.Pricing.{Pricing, RequestedItem, default_tax_rate, validate_pricing}
use codepop.Orders.Status.{get_refund_eligibility, is_allowed, is_order_status}
use codepop.Stores.{Store}
use codepop.Sync.Events.{create_audit_log, create_outbox_event, store_scope}
use codepop.Sync.Models.{AggregateType, AuditAction, EventType}
use codepop.Users.Models.{Requester}

-- `ensure_items_match_store`
unfoldable pub items_match_store : Store → List RequestedItem → Bool
items_match_store store [] = true
items_match_store store (item ∷ items) =
    (elim item.store_code_snapshot [ none ↦ true | some code ↦ code == store.store_code ])
    && items_match_store store items

-- `Order.objects.filter(public_order_code=…).exists()`
unfoldable pub code_exists : ℕ → List (ℕ × Order) → Bool
code_exists code [] = false
code_exists code ((id, o) ∷ rows) = (o.public_order_code == code) || code_exists code rows

-- `generate_public_order_code`, with the attempts left and the candidates that are drawn.
unfoldable pub generate_public_order_code : ℕ → (ℕ → ℕ) → List (ℕ × Order) → Option ℕ
generate_public_order_code zero candidate rows = none
generate_public_order_code (suc attempts) candidate rows =
    let rest = generate_public_order_code attempts candidate rows in
    if not (code_exists (candidate attempts) rows) then some (candidate attempts) else rest

-- `exclude(locker_number="")`
abbrev pub add_locker : Option ℕ → List ℕ → List ℕ
add_locker none rest = rest
add_locker (some n) rest = n ∷ rest

-- The lockers of the other READY orders of the store.
unfoldable pub active_lockers : Store → ℕ → List (ℕ × Order) → List ℕ
active_lockers store id [] = []
active_lockers store id ((j, o) ∷ rows) =
    let rest = active_lockers store id rows in
    if (o.store.id == store.id) && (is_order_status o.status OrderStatus.ready && not (j == id))
    then add_locker o.locker_number rest
    else rest

-- The first of `count` lockers from `n` on that is not taken.
unfoldable pub first_free_locker : ℕ → ℕ → List ℕ → Option ℕ
first_free_locker zero n taken = none
first_free_locker (suc count) n taken =
    let rest = first_free_locker count (suc n) taken in
    if any (λ t. t == n) taken then rest else some n

unfoldable pub count_orders : Store → List (ℕ × Order) → ℕ
count_orders store [] = 0
count_orders store ((id, o) ∷ rows) =
    (if o.store.id == store.id then 1 else 0) + count_orders store rows

-- `combo` is the pickup code that is drawn.
unfoldable pub assign_pickup_locker : ℕ → List (ℕ × Order) → Order → Order
assign_pickup_locker combo rows order =
    if is_some order.locker_number && is_some order.locker_code then order else record order {
      locker_number = some (
          or_else (first_free_locker 24 1 (active_lockers order.store order.id rows))
            (or_else order.locker_number (count_orders order.store rows % 24 + 1)));
      locker_code = some (or_else order.locker_code combo);
    }

abbrev pub order_type_of : Option ℕ → OrderType
order_type_of none = OrderType.guest
order_type_of (some customer) = OrderType.account

abbrev pub guest_locker_code : Option GuestContact → ℕ → ℕ
guest_locker_code none combo = combo
guest_locker_code (some g) combo = or_else g.locker_code combo

-- `lookup_code` is unique among the contacts.
unfoldable pub create_guest_contact : ℕ → ℕ → Call (Unit {0})
create_guest_contact id code db =
    if any (λ (row : ℕ × ℕ). row.1 == code) db.guest_contacts
    then (err Error.integrity, db)
    else (ok tt, record db { guest_contacts = insert id code db.guest_contacts })

-- `if guest_contact and not customer:` the contact with its lookup code, given or drawn.
unfoldable pub save_guest_contact : ℕ → Option GuestContact → Option ℕ → ℕ → Call (Unit {0})
save_guest_contact id (some g) none drawn db =
    create_guest_contact id (or_else g.lookup_code drawn) db
save_guest_contact id _ _ drawn db = (ok tt, db)

unfoldable pub new_order : ℕ → ℕ → Store → Option ℕ → Pricing → ℕ → Order
new_order id code store customer pricing locker_code = record {
  id = id;
  public_order_code = code;
  store = store;
  customer = customer;
  order_type = order_type_of customer;
  status = OrderStatus.pricing_validated;
  items = pricing.normalized_items;
  subtotal_amount = pricing.subtotal_amount;
  tax_amount = pricing.tax_amount;
  total_amount = pricing.total_amount;
  placed_at = none;
  queued_at = none;
  preparing_at = none;
  ready_at = none;
  picked_up_at = none;
  expires_at = none;
  locker_number = none;
  locker_code = some locker_code;
  refund_status = RefundStatus.not_requested;
}

-- What `create_order` draws: the key, the candidate codes, the pickup code and the guest's code.
pub record Draws : Type 0 where
  pub id : ℕ
  pub candidate : ℕ → ℕ
  pub combo : ℕ
  pub lookup_code : ℕ

unfoldable pub create_order :
    Draws → Store → List RequestedItem → Option ℕ → Option GuestContact → Option ℕ → Call Order
create_order draws store items customer guest actor = atomic (do
  raise_if (not (items_match_store store items)) (Error.order OrderFault.store_mismatch)
  pricing ← lift (validate_pricing default_tax_rate items)
  rows ← gets (λ db. db.orders)
  code ←
      or_raise (generate_public_order_code 12 draws.candidate rows)
        (Error.order OrderFault.code_exhausted)
  let order = new_order draws.id code store customer pricing (guest_locker_code guest draws.combo)
  save_order order
  save_guest_contact draws.id guest customer draws.lookup_code
  create_outbox_event EventType.order_created AggregateType.order draws.id (store_scope store)
  create_audit_log actor (AuditAction.event EventType.order_created) draws.id
  pure order)

-- `new_status == QUEUED and order.queued_at is None`: only the first entry takes stock.
abbrev pub takes_stock : Order → OrderStatus → Bool
takes_stock order OrderStatus.queued = not (is_some order.queued_at)
takes_stock order _ = false

-- The fields that a status stamps on entry, each time stamp only once; `rows` are the orders.
unfoldable pub enter_status : ℕ → ℕ → OrderStatus → List (ℕ × Order) → Order → Order
enter_status now combo OrderStatus.paid rows order =
    if is_some order.placed_at then order else record order { placed_at = some now }
enter_status now combo OrderStatus.queued rows order =
    if is_some order.queued_at then order else record order { queued_at = some now }
enter_status now combo OrderStatus.preparing rows order =
    if is_some order.preparing_at then order else record order { preparing_at = some now }
enter_status now combo OrderStatus.ready rows order =
    if is_some order.ready_at
    then order
    else assign_pickup_locker combo rows
        (record order { ready_at = some now; expires_at = some (now + 3600) })
enter_status now combo OrderStatus.picked_up rows order =
    if is_some order.picked_up_at then order else record order { picked_up_at = some now }
enter_status now combo OrderStatus.refund_pending rows order = record order {
  refund_status = RefundStatus.requested;
}
enter_status now combo OrderStatus.refunded rows order = record order {
  refund_status = RefundStatus.refunded;
}
enter_status now combo _ rows order = order

module _ (in_catalog : ℕ → Bool) (now combo : ℕ) where
  unfoldable pub reserve_if_due : Order → OrderStatus → Call (Unit {0})
  reserve_if_due order new_status =
      if takes_stock order new_status then reserve_order_inventory in_catalog now order else pure tt

  unfoldable pub transition_order_status : Order → OrderStatus → Option ℕ → Call Order
  transition_order_status order new_status actor = atomic (do
    raise_if (not (is_allowed order.status new_status)) (Error.order OrderFault.transition_denied)
    reserve_if_due order new_status
    rows ← gets (λ db. db.orders)
    let saved : Order = record (enter_status now combo new_status rows order) {
      status = new_status;
    }
    save_order saved
    create_outbox_event (EventType.order_entered new_status) AggregateType.order order.id
        (store_scope order.store)
    create_audit_log actor (AuditAction.order_transition new_status) order.id
    pure saved)

unfoldable pub ensure_refund_allowed : Order → Option Requester → Call (Unit {0})
ensure_refund_allowed order actor =
    raise_if (not (get_refund_eligibility order.status actor))
      (Error.order OrderFault.refund_denied)
