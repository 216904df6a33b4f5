-- ===== src/Transfers/Source.antt =====
-- apps/inventory/services.py, `determine_transfer_scope` and `choose_internal_transfer_source`: from
-- where a transfer may come. Distances, in hundredths of a mile, are the argument `miles`: the code
-- computes them by the floating-point functions of Python's `math`.
use codepop.Base.{Bool, List, Option, [], if◌then◌else◌, none, not, some, true, ℕ, ◌&&◌, ◌==◌, ◌∷◌}
use codepop.Base.Exec.{Result, err, ok}
use codepop.Base.Int.{leb_ℤ, ltb_ℤ, pos, ℤ}
use codepop.Base.Table.{lookup}
use codepop.Db.{Db}
use codepop.Errors.{Error, InventoryFault}
use codepop.Inventory.Balance.{available_quantity}
use codepop.Inventory.Models.{InventoryItem, Quantities, StoreBalance}
use codepop.Stores.{Coordinates, Store, SupplyHub}
use codepop.Transfers.Models.{TransferScope}

-- A thousand miles.
abbrev pub max_distance : ℤ
max_distance = pos 100000

abbrev pub is_positive : ℤ → Bool
is_positive q = ltb_ℤ (pos 0) q

module _ (miles : Coordinates → Coordinates → ℤ) where
  unfoldable pub determine_transfer_scope :
      Option Store → Option SupplyHub → Store → Result Error (TransferScope × ℤ)
  determine_transfer_scope (some store) (some hub) destination =
      err (Error.inventory InventoryFault.one_source_needed)
  determine_transfer_scope none none destination =
      err (Error.inventory InventoryFault.one_source_needed)
  determine_transfer_scope (some store) none destination =
      if store.region.id == destination.region.id
      then ok (TransferScope.same_region_store, miles store.place destination.place)
      else err (Error.inventory InventoryFault.region_mismatch)
  determine_transfer_scope none (some hub) destination =
      let distance = miles hub.place destination.place in
      if hub.region.id == destination.region.id
      then ok (TransferScope.hub_to_store, distance)
      else if leb_ℤ distance max_distance
      then ok (TransferScope.cross_region_hub, distance)
      else err (Error.inventory InventoryFault.too_far)

-- The balances of an item with their stores, or their hubs: a join on the foreign key.
unfoldable pub stores_with :
    ℕ → List (ℕ × Store) → List (ℕ × ℕ × StoreBalance) → List (Store × Quantities)
stores_with item stores [] = []
stores_with item stores ((s, i, b) ∷ rows) =
    let rest = stores_with item stores rows in
    if i == item
    then (elim (lookup s stores) [ none ↦ rest | some store ↦ (store, b.quantities) ∷ rest ])
    else rest

unfoldable pub hubs_with :
    ℕ → List (ℕ × SupplyHub) → List (ℕ × ℕ × Quantities) → List (SupplyHub × Quantities)
hubs_with item hubs [] = []
hubs_with item hubs ((s, i, q) ∷ rows) =
    let rest = hubs_with item hubs rows in
    if i == item then (elim (lookup s hubs) [ none ↦ rest | some hub ↦ (hub, q) ∷ rest ]) else rest

module _ {P : Type 0} where
  unfoldable pub keep : (P × Quantities → Bool) → List (P × Quantities) → List (P × Quantities)
  keep test [] = []
  keep test (x ∷ xs) = let rest = keep test xs in if test x then x ∷ rest else rest

  -- `.order_by("-on_hand_quantity")`; equal quantities keep the order of the table.
  unfoldable pub insert_by_stock : P × Quantities → List (P × Quantities) → List (P × Quantities)
  insert_by_stock x [] = x ∷ []
  insert_by_stock x (y ∷ ys) =
      if ltb_ℤ x.1.on_hand_quantity y.1.on_hand_quantity
      then y ∷ insert_by_stock x ys
      else x ∷ y ∷ ys

  unfoldable pub order_by_stock : List (P × Quantities) → List (P × Quantities)
  order_by_stock [] = []
  order_by_stock (x ∷ xs) = insert_by_stock x (order_by_stock xs)

  -- The first row, if `available_quantity(row) >= quantity`.
  unfoldable pub first_with : ℤ → List (P × Quantities) → Option P
  first_with quantity [] = none
  first_with quantity (x ∷ xs) = if leb_ℤ quantity (available_quantity x.1) then some x.0 else none

-- Where the stock comes from.
pub data SourceChoice : Type 0 where
  from_store : Store → SourceChoice
  from_hub : SupplyHub → SourceChoice

-- `eligible_distance is None or distance < eligible_distance`
abbrev pub is_nearer : ℤ → Option (SupplyHub × ℤ) → Bool
is_nearer distance none = true
is_nearer distance (some (hub, best)) = ltb_ℤ distance best

-- `filter(store__region=…).exclude(store=destination)`, and the hubs of the region.
abbrev pub is_sibling : Store → Store × Quantities → Bool
is_sibling destination row =
    (row.0.region.id == destination.region.id) && not (row.0.id == destination.id)

abbrev pub is_regional : Store → SupplyHub × Quantities → Bool
is_regional destination row = row.0.region.id == destination.region.id

module _ (miles : Coordinates → Coordinates → ℤ) where
  -- The loop over the hubs of other regions, from the best so far.
  unfoldable pub nearest_hub :
      Store → ℤ → Option (SupplyHub × ℤ) → List (SupplyHub × Quantities) → Option (SupplyHub × ℤ)
  nearest_hub destination quantity best [] = best
  nearest_hub destination quantity best ((hub, q) ∷ rows) =
      let distance = miles hub.place destination.place in
      nearest_hub destination quantity
        (if ltb_ℤ (available_quantity q) quantity
          then best
          else if leb_ℤ distance max_distance && is_nearer distance best
          then some (hub, distance)
          else best)
        rows

  -- The three searches in turn.
  unfoldable pub sibling_store : Store → InventoryItem → ℤ → Db → Option Store
  sibling_store destination item quantity db = first_with quantity (
      order_by_stock
        (keep (is_sibling destination) (stores_with item.id db.stores db.store_balances)))

  unfoldable pub regional_hub : Store → InventoryItem → ℤ → Db → Option SupplyHub
  regional_hub destination item quantity db =
      first_with quantity (
        order_by_stock (keep (is_regional destination) (hubs_with item.id db.hubs db.hub_balances)))

  unfoldable pub distant_hub : Store → InventoryItem → ℤ → Db → Option (SupplyHub × ℤ)
  distant_hub destination item quantity db = nearest_hub destination quantity none (
      order_by_stock (
        keep (λ row. not (is_regional destination row))
          (hubs_with item.id db.hubs db.hub_balances)))

  unfoldable pub choose_internal_transfer_source :
      Store → InventoryItem → ℤ → Db → Result Error SourceChoice
  choose_internal_transfer_source destination item quantity db =
      if not (is_positive quantity)
      then err (Error.inventory InventoryFault.not_positive)
      else elim (sibling_store destination item quantity db) [
        | some store ↦ ok (SourceChoice.from_store store)
        | none ↦ elim (regional_hub destination item quantity db) [
          | some hub ↦ ok (SourceChoice.from_hub hub)
          | none ↦ elim (distant_hub destination item quantity db) [
            | some (hub, distance) ↦ ok (SourceChoice.from_hub hub)
            | none ↦ err (Error.inventory InventoryFault.no_internal_source)
          ]
        ]
      ]
