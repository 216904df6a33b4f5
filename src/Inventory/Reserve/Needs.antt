-- ===== src/Inventory/Reserve/Needs.antt =====
-- What an order takes from the shelf: its total requirement of each item, and no more.
use codepop.Base.{
  All, Bool, List, Option, arith, false, if◌then◌else◌, none, some, true, ℕ, ◌==◌, ◌≡◌, ◌≢◌, ◌⊎◌,
}
use codepop.Base.Int.{leb_ℤ, neg, pos, ℤ, ◌·ℤ◌, ◌≤ℤ◌}
use codepop.Base.Table.{lookup}
use codepop.Inventory.Balance.Loops.{neg-zero, total, total_nonneg}
use codepop.Inventory.Balance.Shelf.{at}
use codepop.Inventory.Models.{InventoryItem}
use codepop.Orders.Models.{Order, OrderItem, Requirement}

-- The requirement of one line: its quantity, where that is positive and the SKU is known.
abbrev pub item_id : Option InventoryItem → ℕ → Bool
item_id none i = false
item_id (some item) i = item.id == i

unfoldable pub requirement_of : List (ℕ × InventoryItem) → ℕ → ℕ → Requirement → ℤ
requirement_of items count i r =
    if leb_ℤ (count ·ℤ r.quantity) (pos 0)
    then pos 0
    else if item_id (lookup r.sku items) i
    then count ·ℤ r.quantity
    else pos 0

-- What the order needs of each item.
unfoldable pub item_needs : List (ℕ × InventoryItem) → OrderItem → ℕ → ℤ
item_needs items x = total (λ r i. requirement_of items x.quantity i r) x.requirements

unfoldable pub order_needs : List (ℕ × InventoryItem) → Order → ℕ → ℤ
order_needs items order = total (item_needs items) order.items

-- Every SKU that the order needs is an inventory item.
abbrev pub IsKnown : List (ℕ × InventoryItem) → ℕ → Requirement → Type 0
IsKnown items count r = (leb_ℤ (count ·ℤ r.quantity) (pos 0) ≡ true) ⊎ (lookup r.sku items ≢ none)

abbrev pub AllKnown : List (ℕ × InventoryItem) → Order → Type 0
AllKnown items order =
    All (λ (x : OrderItem). All (IsKnown items x.quantity) x.requirements) order.items

-- The amount where the line is skipped, and where its SKU is found.
pub requirement_of_skipped :
    (items : List (ℕ × InventoryItem)) (count i : ℕ) (r : Requirement)
    → leb_ℤ (count ·ℤ r.quantity) (pos 0) ≡ true
    → requirement_of items count i r ≡ pos 0
unfolding requirement_of
requirement_of_skipped items count i r p = rw p

pub requirement_of_item :
    (items : List (ℕ × InventoryItem)) (count i : ℕ) (r : Requirement) (item : InventoryItem)
    → leb_ℤ (count ·ℤ r.quantity) (pos 0) ≡ false
    → lookup r.sku items ≡ some item
    → requirement_of items count i r ≡ (if item.id == i then count ·ℤ r.quantity else pos 0)
unfolding requirement_of
requirement_of_item items count i r item p e = rw (p, e)

pub at-eq-in_store :
    (store item : ℕ) (q : ℤ) (s i : ℕ)
    → at store item (neg q) s i
      ≡ (if store == s then neg (if item == i then q else pos 0) else pos 0)
at-eq-in_store store item q s i = ground (arith, neg-zero store s)

pub requirement_of_nonneg :
    (items : List (ℕ × InventoryItem)) (count i : ℕ) (r : Requirement)
    → pos 0 ≤ℤ requirement_of items count i r
unfolding requirement_of
requirement_of_nonneg items count i r = ground arith

pub item_needs_nonneg :
    (items : List (ℕ × InventoryItem)) (x : OrderItem) (i : ℕ) → pos 0 ≤ℤ item_needs items x i
unfolding item_needs
item_needs_nonneg items x i =
    total_nonneg (λ r i. requirement_of items x.quantity i r)
      (λ r i. requirement_of_nonneg items x.quantity i r) x.requirements i
