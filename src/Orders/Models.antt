-- ===== src/Orders/Models.antt =====
-- apps/orders/models.py: orders and their items, with the inventory that each item needs.
use codepop.Base.{ℕ, Option, List}
use codepop.Base.Int.{ℤ}
use codepop.Stores.{Store}

pub data OrderType : Type 0 where
  account guest : OrderType

pub data OrderStatus : Type 0 where
  draft pricing_validated payment_pending paid queued preparing ready picked_up refund_pending
        refunded canceled expired :
      OrderStatus

pub data RefundStatus : Type 0 where
  not_requested requested refunded rejected : RefundStatus

-- An entry of `customizations_json["inventory_requirements"]`.
pub record Requirement : Type 0 where
  pub sku : ℕ
  pub quantity : ℤ

pub record OrderItem : Type 0 where
  pub base_price_snapshot : ℤ
  pub requirements : List Requirement
  pub quantity : ℕ
  pub line_total : ℤ

-- `locker_number` and `locker_code` are blank (`none`) until they are assigned; locker L07 is 7.
pub record Order : Type 0 where
  pub id : ℕ
  pub public_order_code : ℕ
  pub store : Store
  pub customer : Option ℕ
  pub order_type : OrderType
  pub status : OrderStatus
  pub items : List OrderItem
  pub subtotal_amount : ℤ
  pub tax_amount : ℤ
  pub total_amount : ℤ
  pub placed_at : Option ℕ
  pub queued_at : Option ℕ
  pub preparing_at : Option ℕ
  pub ready_at : Option ℕ
  pub picked_up_at : Option ℕ
  pub expires_at : Option ℕ
  pub locker_number : Option ℕ
  pub locker_code : Option ℕ
  pub refund_status : RefundStatus

-- `guest_contact`: the codes that the guest's form gives, if any.
pub record GuestContact : Type 0 where
  pub lookup_code : Option ℕ
  pub locker_code : Option ℕ
