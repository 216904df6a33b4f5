-- ===== src/Tests/Orders.antt =====
-- Orders on the sample tables.
use codepop.Base.{
  All, Exists, List, [], arith, false, if◌then◌else◌, map, none, refl, some, true, ℕ, ◌*◌, ◌+◌, ◌<◌,
  ◌==◌, ◌↔◌, ◌∷◌, ◌≡◌, ◌≢◌, ◌≤◌, ◌⊎◌,
}
use codepop.Base.Exec.{Result, err, ok}
use codepop.Base.Int.{pos}
use codepop.Base.Table.{lookup}
use codepop.Db.{Db}
use codepop.Errors.{Error}
use codepop.Inventory.Balance.Loops.{Fits}
use codepop.Inventory.Reserve.Needs.{AllKnown, order_needs}
use codepop.Orders.Models.{Order, OrderStatus}
use codepop.Orders.Pricing.{
  RequestedItem, default_tax_rate, normalized_item, price_of, tax_on, validate_pricing,
}
use codepop.Orders.Pricing.Totals.{IsPriceable, sum_lines, tax_rounding, validate_pricing_iff}
use codepop.Orders.Services.{
  Draws, assign_pickup_locker, create_order, takes_stock, transition_order_status,
}
use codepop.Orders.Services.Codes.{Drawn, Occupies, assign_pickup_locker_lem, generate-Drawn}
use codepop.Orders.Services.Creation.{
  CodesUnique, Created, create_order-CodesUnique, create_order_outcome,
}
use codepop.Orders.Services.Effects.{Transitioned}
use codepop.Orders.Services.Transition.{transition_iff, transition_outcome}
use codepop.Orders.Status.{allowed_order_transitions, is_allowed}
use codepop.Orders.Status.Graph.{History, History-bounded}
use codepop.Sync.Events.{latest_version, new_event, store_scope}
use codepop.Sync.Events.Versions.{IsNumbered, IsNumbered-empty, new_event-IsNumbered}
use codepop.Sync.Models.{AggregateType, EventType}
use codepop.Tests.Data.{downtown, no_catalog, order_in, tables_in, tables_in-IsSound}

abbrev sample : Db
sample = tables_in OrderStatus.paid

abbrev drink : RequestedItem
drink = record {
  has_name = true;
  store_code_snapshot = some 7;
  quantity = pos 2;
  base_price = record { units = pos 400; places = 2 };
  extras_total = none;
  requirements = [];
}

-- The seventh candidate is free; the first ones are the code of the sample order.
abbrev draws : Draws
draws = record {
  id = 6;
  candidate = λ k. if 6 == k then 600 else 500;
  combo = 1234;
  lookup_code = 99;
}

-- One transition of the sample order.
abbrev enter : OrderStatus → OrderStatus → Result Error Order × Db
enter from to =
    transition_order_status no_catalog 20 1234 (order_in from) to (some 3) (tables_in from)

transition_outcome_example :
    ((o : Order) × (db' : Db) × (enter OrderStatus.paid OrderStatus.queued ≡ (ok o, db'))
      × Transitioned (order_in OrderStatus.paid) OrderStatus.queued sample o db')
    ⊎ ((e : Error) × (enter OrderStatus.paid OrderStatus.queued ≡ (err e, sample)))
transition_outcome_example =
    transition_outcome no_catalog 20 1234 (order_in OrderStatus.paid) OrderStatus.queued (some 3)
      sample (tables_in-IsSound OrderStatus.paid)

transition_iff_example : ((o : Order) × ((enter OrderStatus.paid OrderStatus.queued).0 ≡ ok o)) ↔ (
    (is_allowed OrderStatus.paid OrderStatus.queued ≡ true)
    × ((takes_stock (order_in OrderStatus.paid) OrderStatus.queued ≡ false)
        ⊎ (AllKnown sample.items (order_in OrderStatus.paid)
            × Fits 1 (order_needs sample.items (order_in OrderStatus.paid)) sample)))
transition_iff_example =
    transition_iff no_catalog 20 1234 (order_in OrderStatus.paid) OrderStatus.queued (some 3) sample
      (tables_in-IsSound OrderStatus.paid)

create_order_outcome_example :
    ((o : Order) × (db' : Db) × (create_order draws downtown
          (drink ∷ [])
          (some 3)
          none
          (some 3)
          sample
        ≡ (ok o, db'))
      × Created draws downtown (drink ∷ []) (some 3) sample o db')
    ⊎ ((e : Error) × (create_order draws downtown (drink ∷ []) (some 3) none (some 3) sample
          ≡ (err e, sample)))
create_order_outcome_example =
    create_order_outcome draws downtown (drink ∷ []) (some 3) none (some 3) sample

sample-CodesUnique : CodesUnique sample.orders
unfolding lookup
sample-CodesUnique i j a b la lb e = ground arith

create_order-CodesUnique_example :
    CodesUnique (create_order draws downtown (drink ∷ []) (some 3) none (some 3) sample).1.orders
create_order-CodesUnique_example =
    create_order-CodesUnique draws downtown (drink ∷ []) (some 3) none (some 3) sample
      sample-CodesUnique

generate-Drawn_example : Drawn 12 draws.candidate sample.orders
generate-Drawn_example = generate-Drawn 12 draws.candidate sample.orders

-- Another order of the store is ready in locker 1.
abbrev ready_orders : List (ℕ × Order)
ready_orders =
    (4, record (order_in OrderStatus.ready) { id = 4; locker_number = some 1 }) ∷ sample.orders

assign_pickup_locker_example :
    (m : ℕ) × ((assign_pickup_locker 1234 ready_orders
        (order_in OrderStatus.preparing)).locker_number
      ≡ some m)
    × (1 ≤ m)
    × (m ≤ 24)
    × (All (λ r. ¬ Occupies (order_in OrderStatus.preparing) m r) ready_orders
        ⊎ ((k : ℕ)
            → 1 ≤ k
            → k ≤ 24
            → Exists (Occupies (order_in OrderStatus.preparing) k) ready_orders))
assign_pickup_locker_example =
    assign_pickup_locker_lem 1234 ready_orders (order_in OrderStatus.preparing) refl

validate_pricing_iff_example :
    (validate_pricing 725 (drink ∷ [])
      ≡ ok (price_of 725 (sum_lines (drink ∷ []), map normalized_item (drink ∷ []))))
    ↔ (((drink ∷ []) ≢ [])
        × All IsPriceable (drink ∷ [])
        × (price_of 725 (sum_lines (drink ∷ []), map normalized_item (drink ∷ []))
            ≡ price_of 725 (sum_lines (drink ∷ []), map normalized_item (drink ∷ []))))
validate_pricing_iff_example =
    validate_pricing_iff 725 (drink ∷ [])
      (price_of 725 (sum_lines (drink ∷ []), map normalized_item (drink ∷ [])))

tax_rounding_example :
    (t : ℕ) × (tax_on default_tax_rate (pos 800) ≡ pos t)
    × (2 * 10000 * t ≤ 2 * 725 * 800 + 10000)
    × (2 * 725 * 800 + 10000 < 2 * 10000 * t + 2 * 10000)
tax_rounding_example = tax_rounding 800

queued_then_refunded : History OrderStatus.queued OrderStatus.refund_pending 1
unfolding is_allowed allowed_order_transitions
queued_then_refunded = History.then_to OrderStatus.refund_pending History.start refl

History-bounded_example :
    (1 ≤ 7) × ((◌≡◌ {A = ℕ} 1 0) ⊎ (OrderStatus.queued ≢ OrderStatus.refund_pending))
History-bounded_example = History-bounded queued_then_refunded

new_event-IsNumbered_example :
    IsNumbered
      (new_event EventType.order_created AggregateType.order 5 (store_scope downtown) [] ∷ [])
    × (latest_version AggregateType.order 5
          (new_event EventType.order_created AggregateType.order 5 (store_scope downtown) [] ∷ [])
        ≡ latest_version AggregateType.order 5 [] + 1)
new_event-IsNumbered_example =
    new_event-IsNumbered EventType.order_created AggregateType.order 5 (store_scope downtown) []
      IsNumbered-empty
