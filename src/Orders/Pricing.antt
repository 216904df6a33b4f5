-- ===== src/Orders/Pricing.antt =====
-- apps/orders/services.py, `_money` and `validate_pricing`. A price of the request is a decimal of
-- any scale; `_money` rounds it to whole hundredths, half away from zero.
pub mod Totals
use codepop.Base.{
  Bool, List, Option, [], if◌then◌else◌, not, or_else, suc, ℕ, ◌*◌, ◌++◌, ◌+◌, ◌/◌, ◌^◌, ◌∷◌,
}
use codepop.Base.Exec.{Result, err, ok}
use codepop.Base.Int.{ltb_ℤ, neg, negsuc, pos, pos_part, ℤ, ◌+ℤ◌, ◌·ℤ◌}
use codepop.Errors.{Error, OrderFault}
use codepop.Orders.Models.{OrderItem, Requirement}

-- `units / 10 ^ places`
pub record Decimal : Type 0 where
  pub units : ℤ
  pub places : ℕ

-- `n / d` to the nearest whole number, ties away from zero: ROUND_HALF_UP on the magnitude.
unfoldable pub half_up : ℕ → ℕ → ℕ
half_up n d = (2 * n + d) / (2 * d)

-- `quantize(…, rounding=ROUND_HALF_UP)` of `a / d`.
unfoldable pub quantize : ℤ → ℕ → ℤ
quantize (pos n) d = pos (half_up n d)
quantize (negsuc n) d = neg (pos (half_up (suc n) d))

-- `_money`, in hundredths.
unfoldable pub money : Decimal → ℤ
money v = quantize (100 ·ℤ v.units) (10 ^ v.places)

-- An item of the request: `display_name or name` is blank or not; `extras_total`, if the item or
-- its customizations give one; `store_code_snapshot` is `none` where it is blank.
pub record RequestedItem : Type 0 where
  pub has_name : Bool
  pub store_code_snapshot : Option ℕ
  pub quantity : ℤ
  pub base_price : Decimal
  pub extras_total : Option Decimal
  pub requirements : List Requirement

abbrev pub zero_price : Decimal
zero_price = record { units = pos 0; places = 0 }

unfoldable pub line_total : RequestedItem → ℤ
line_total item =
    pos_part item.quantity
    ·ℤ (money item.base_price +ℤ money (or_else item.extras_total zero_price))

unfoldable pub normalized_item : RequestedItem → OrderItem
normalized_item item = record {
  base_price_snapshot = money item.base_price;
  requirements = item.requirements;
  quantity = pos_part item.quantity;
  line_total = line_total item;
}

pub record Pricing : Type 0 where
  pub normalized_items : List OrderItem
  pub subtotal_amount : ℤ
  pub tax_amount : ℤ
  pub total_amount : ℤ

-- The loop, from the subtotal and the items so far.
unfoldable pub price_items :
    ℤ → List OrderItem → List RequestedItem → Result Error (ℤ × List OrderItem)
price_items subtotal done [] = ok (subtotal, done)
price_items subtotal done (item ∷ items) =
    let rest =
      price_items (subtotal +ℤ line_total item) (done ++ normalized_item item ∷ []) items in
    if not item.has_name
    then err (Error.order OrderFault.name_missing)
    else if not (ltb_ℤ (pos 0) item.quantity)
    then err (Error.order OrderFault.quantity_not_positive)
    else rest

-- `DEFAULT_TAX_RATE`, 0.0725, in ten-thousandths.
abbrev pub default_tax_rate : ℕ
default_tax_rate = 725

unfoldable pub tax_on : ℕ → ℤ → ℤ
tax_on tax_rate subtotal = quantize (tax_rate ·ℤ subtotal) 10000

unfoldable pub price_of : ℕ → ℤ × List OrderItem → Pricing
price_of tax_rate (subtotal, items) = record {
  normalized_items = items;
  subtotal_amount = subtotal;
  tax_amount = tax_on tax_rate subtotal;
  total_amount = subtotal +ℤ tax_on tax_rate subtotal;
}

unfoldable pub validate_pricing : ℕ → List RequestedItem → Result Error Pricing
validate_pricing tax_rate [] = err (Error.order OrderFault.no_items)
validate_pricing tax_rate (item ∷ items) = elim (price_items (pos 0) [] (item ∷ items)) [
  | ok priced ↦ ok (price_of tax_rate priced)
  | err e ↦ err e
]
