-- ===== src/Inventory/Bulk.antt =====
-- apps/inventory/services.py: pack sizes, and the rounding of an order up to whole packs. Amounts
-- are hundredths, so a pack of 24 is 2400.
pub mod Packs
use codepop.Base.{if◌then◌else◌, ℕ, ◌%◌, ◌+◌, ◌-◌, ◌==◌}
use codepop.Base.Int.{max_ℤ, pos, pos_part, ℤ, ◌·ℤ◌}
use codepop.Inventory.Models.{Category, InventoryItem}

unfoldable pub pack_size_for_item : Category → ℕ
pack_size_for_item Category.cups = 25000
pack_size_for_item Category.lids = 25000
pack_size_for_item Category.soda = 2400
pack_size_for_item Category.syrup = 1200
pack_size_for_item Category.add_in = 1200
pack_size_for_item Category.ice_cream = 800
pack_size_for_item Category.dairy = 800
pack_size_for_item Category.packaging = 10000
pack_size_for_item Category.cleaning = 1000
pack_size_for_item Category.equipment = 1000
pack_size_for_item Category.other = 1000

-- `remainder = target % pack; if remainder: target += pack - remainder`, on a target of zero or more.
unfoldable pub round_up : ℕ → ℕ → ℕ
round_up pack target = if target % pack == 0 then target else target + (pack - target % pack)

-- Both maxima have a pack size among their arguments, so they are positive.
unfoldable pub recommended_bulk_quantity : InventoryItem → ℤ → ℕ
recommended_bulk_quantity item projected_usage =
    let pack = pack_size_for_item item.category in
    round_up pack (
      pos_part
        (max_ℤ (max_ℤ (3 ·ℤ projected_usage) (2 ·ℤ item.default_low_stock_threshold)) (pos pack)))

unfoldable pub normalize_bulk_order_quantity : InventoryItem → ℤ → ℕ
normalize_bulk_order_quantity item requested_quantity =
    let pack = pack_size_for_item item.category in
    round_up pack (pos_part (max_ℤ requested_quantity (pos pack)))
