-- ===== src/Tests/Data.antt =====
-- A store with one item on its shelf, and an order for two drinks that need three units of it.
use codepop.Base.{Bool, [], arith, false, inr, none, some, true, ℕ, ◌∷◌}
use codepop.Base.Int.{negsuc, pos, ℤ}
use codepop.Base.Table.{lookup, lookup2}
use codepop.Db.{Db}
use codepop.Inventory.Alerts.{count_open}
use codepop.Inventory.Balance.Shelf.{IsSound, shelf_of}
use codepop.Inventory.Models.{Category, InventoryItem, StoreBalance}
use codepop.Inventory.Reserve.Needs.{AllKnown}
use codepop.Orders.Models.{Order, OrderItem, OrderStatus, OrderType, RefundStatus}
use codepop.Payments.Models.{PaymentStatus, PaymentTransaction, Provider}
use codepop.Stores.{Region, Store}

abbrev pub west : Region
west = record { id = 1; code = 1 }

abbrev pub downtown : Store
downtown = record {
  id = 1;
  store_code = 7;
  region = west;
  place = record { latitude = pos 40; longitude = negsuc 110 };
}

abbrev pub cola : InventoryItem
cola = record {
  id = 10;
  sku = 100;
  category = Category.syrup;
  is_perishable = false;
  default_low_stock_threshold = pos 800;
}

abbrev pub cola_balance : StoreBalance
cola_balance = record {
  quantities = record { on_hand_quantity = pos 1000; reserved_quantity = pos 100 };
  reorder_threshold = pos 800;
}

abbrev pub two_drinks : OrderItem
two_drinks = record {
  base_price_snapshot = pos 400;
  requirements = record { sku = 100; quantity = pos 150 } ∷ [];
  quantity = 2;
  line_total = pos 800;
}

abbrev pub order_in : OrderStatus → Order
order_in status = record {
  id = 5;
  public_order_code = 500;
  store = downtown;
  customer = some 3;
  order_type = OrderType.account;
  status = status;
  items = two_drinks ∷ [];
  subtotal_amount = pos 800;
  tax_amount = pos 58;
  total_amount = pos 858;
  placed_at = none;
  queued_at = none;
  preparing_at = none;
  ready_at = none;
  picked_up_at = none;
  expires_at = none;
  locker_number = none;
  locker_code = none;
  refund_status = RefundStatus.not_requested;
}

abbrev pub cola_payment : PaymentTransaction
cola_payment = record {
  store = 1;
  provider = Provider.mock;
  status = PaymentStatus.succeeded;
  amount_authorized = pos 858;
  amount_captured = pos 858;
  amount_refunded = pos 0;
  stripe_payment_intent_id = none;
  checkout_session_id = none;
  captured_at = some 9;
  last_webhook_at = none;
}

-- The tables with the order in a status.
abbrev pub tables_in : OrderStatus → Db
tables_in status = record {
  grants = record { store_assignments = (3, 1) ∷ []; region_assignments = [] };
  stores = (1, downtown) ∷ [];
  hubs = [];
  items = (100, cola) ∷ [];
  store_balances = (1, 10, cola_balance) ∷ [];
  hub_balances = [];
  schedules = [];
  alerts = [];
  transfers = [];
  replenishments = [];
  orders = (5, order_in status) ∷ [];
  guest_contacts = [];
  payments = (5, cola_payment) ∷ [];
  revenue = [];
  staff = [];
  machines = [];
  status_events = [];
  repairs = [];
  policies = [];
  outbox = [];
  audit = [];
}

pub tables_in-IsSound : (status : OrderStatus) → IsSound (tables_in status)
unfolding shelf_of lookup2 count_open
tables_in-IsSound status = record { shelves = λ s i. ground arith; alerts = λ s i. omega arith }

pub tables_in-AllKnown :
    (status : OrderStatus) → AllKnown (tables_in status).items (order_in status)
unfolding lookup
tables_in-AllKnown status = ((inr (λ e. cc), tt), tt)

-- A catalogue that has no SKU.
abbrev pub no_catalog : ℕ → Bool
no_catalog sku = false

-- A Stripe that refunds every amount.
abbrev pub always_refunds : ℕ → ℤ → Bool
always_refunds intent amount = true
