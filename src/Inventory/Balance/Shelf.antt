-- ===== src/Inventory/Balance/Shelf.antt =====
-- The view of the tables that the inventory services share: what each store has of each item, with
-- an absent row read as an empty shelf.
use codepop.Base.{
  List, Option, Option-cases, ap, arith, if◌then◌else◌, inl, inr, none, refl, some, ℕ, ◌&&◌, ◌==◌,
  ◌∙◌, ◌≡◌, ◌≤◌,
}
use codepop.Base.Exec.{ok}
use codepop.Base.Int.{int_laws, pos, ℤ, ◌+ℤ◌}
use codepop.Base.Table.{insert2, lookup-insert2, lookup2}
use codepop.Db.{Db}
use codepop.Inventory.Alerts.{count_open}
use codepop.Inventory.Balance.{get_store_balance, new_store_balance, no_quantities}
use codepop.Inventory.Balance.Bounds.{IsValid}
use codepop.Inventory.Models.{InventoryItem, Quantities, StoreBalance}

abbrev quantities_of : Option StoreBalance → Quantities
quantities_of none = no_quantities
quantities_of (some b) = b.quantities

unfoldable pub shelf_of : List (ℕ × ℕ × StoreBalance) → ℕ → ℕ → Quantities
shelf_of rows store item = quantities_of (lookup2 store item rows)

abbrev pub shelf : Db → ℕ → ℕ → Quantities
shelf db = shelf_of db.store_balances

pub shelf-insert2 :
    (store item : ℕ) (b : StoreBalance) (rows : List (ℕ × ℕ × StoreBalance)) (s i : ℕ)
    → shelf_of (insert2 store item b rows) s i
      ≡ (if (store == s) && (item == i) then b.quantities else shelf_of rows s i)
unfolding shelf_of
shelf-insert2 store item b rows s i = ground (arith, lookup-insert2 store item s i b rows)

-- The tables that no movement of store stock touches.
pub record IsFrame (db db' : Db) : Type 0 where
  pub grants : db'.grants ≡ db.grants
  pub stores : db'.stores ≡ db.stores
  pub hubs : db'.hubs ≡ db.hubs
  pub items : db'.items ≡ db.items
  pub hub_balances : db'.hub_balances ≡ db.hub_balances
  pub schedules : db'.schedules ≡ db.schedules
  pub transfers : db'.transfers ≡ db.transfers
  pub replenishments : db'.replenishments ≡ db.replenishments
  pub orders : db'.orders ≡ db.orders
  pub guest_contacts : db'.guest_contacts ≡ db.guest_contacts
  pub payments : db'.payments ≡ db.payments
  pub revenue : db'.revenue ≡ db.revenue
  pub staff : db'.staff ≡ db.staff
  pub machines : db'.machines ≡ db.machines
  pub status_events : db'.status_events ≡ db.status_events
  pub repairs : db'.repairs ≡ db.repairs
  pub policies : db'.policies ≡ db.policies
  pub outbox : db'.outbox ≡ db.outbox
  pub audit : db'.audit ≡ db.audit

-- Every store balance meets the constraints of its table, and no pair has two open alerts.
pub record IsSound (db : Db) : Type 0 where
  pub shelves : (s i : ℕ) → IsValid (shelf db s i)
  pub alerts : (s i : ℕ) → count_open s i db.alerts ≤ 1

abbrev pub at : ℕ → ℕ → ℤ → ℕ → ℕ → ℤ
at store item q s i = if (store == s) && (item == i) then q else pos 0

-- From `db` to `db'` each store's stock has moved by `delta`, what is reserved has not, and nothing
-- else has but alerts.
pub record Moved (delta : ℕ → ℕ → ℤ) (db db' : Db) : Type 0 where
  pub on_hand :
      (s i : ℕ) → (shelf db' s i).on_hand_quantity ≡ (shelf db s i).on_hand_quantity +ℤ delta s i
  pub reserved : (s i : ℕ) → (shelf db' s i).reserved_quantity ≡ (shelf db s i).reserved_quantity
  pub frame : IsFrame db db'
  pub sound : IsSound db'

-- From `db` to `db'` no shelf has changed at all.
pub record IsSame (db db' : Db) : Type 0 where
  pub shelves : (s i : ℕ) → shelf db' s i ≡ shelf db s i
  pub frame : IsFrame db db'
  pub sound : IsSound db'

pub IsFrame-refl : (db : Db) → IsFrame db db
IsFrame-refl db = ground arith

pub IsFrame-trans : {a b c : Db} → IsFrame a b → IsFrame b c → IsFrame a c
IsFrame-trans f g = ground arith

pub Moved-zero : (db : Db) → IsSound db → Moved (λ s i. pos 0) db db
Moved-zero db h = record {
  on_hand = λ s i. omega int_laws;
  reserved = λ s i. refl;
  frame = IsFrame-refl db;
  sound = h;
}

pub Moved-trans :
    {d e : ℕ → ℕ → ℤ} {a b c : Db} → Moved d a b → Moved e b c → Moved (λ s i. d s i +ℤ e s i) a c
Moved-trans {d} {e} m n = record {
  on_hand = λ s i. rw (n.on_hand s i, m.on_hand s i) (omega int_laws);
  reserved = λ s i. n.reserved s i ∙ m.reserved s i;
  frame = IsFrame-trans m.frame n.frame;
  sound = n.sound;
}

pub Moved-of_IsSame : {d : ℕ → ℕ → ℤ} {a b c : Db} → IsSame a b → Moved d b c → Moved d a c
Moved-of_IsSame {d} r m = record {
  on_hand =
      λ s i. m.on_hand s i ∙ ap (λ (t : Quantities). t.on_hand_quantity +ℤ d s i) (r.shelves s i);
  reserved = λ s i. m.reserved s i ∙ ap (λ (t : Quantities). t.reserved_quantity) (r.shelves s i);
  frame = IsFrame-trans r.frame m.frame;
  sound = m.sound;
}

pub Moved-eq :
    {d e : ℕ → ℕ → ℤ} {a b : Db} → Moved d a b → ((s i : ℕ) → d s i ≡ e s i) → Moved e a b
Moved-eq {a} m h = record {
  on_hand = λ s i. m.on_hand s i ∙ ap (λ (t : ℤ). (shelf a s i).on_hand_quantity +ℤ t) (h s i);
  reserved = m.reserved;
  frame = m.frame;
  sound = m.sound;
}

-- Putting a row in place that holds what the shelf held changes no shelf.
put_same :
    (store item : ℕ) (b : StoreBalance) (db : Db) (s i : ℕ)
    → b.quantities ≡ shelf db store item
    → shelf_of (insert2 store item b db.store_balances) s i ≡ shelf db s i
put_same store item b db s i e = ground (arith, shelf-insert2 store item b db.store_balances s i)

shelf_of-none :
    (store item : ℕ) (rows : List (ℕ × ℕ × StoreBalance))
    → lookup2 store item rows ≡ none
    → no_quantities ≡ shelf_of rows store item
unfolding shelf_of
shelf_of-none store item rows e = ground arith

shelf_of-some :
    (store item : ℕ) (rows : List (ℕ × ℕ × StoreBalance)) (b : StoreBalance)
    → lookup2 store item rows ≡ some b
    → b.quantities ≡ shelf_of rows store item
unfolding shelf_of
shelf_of-some store item rows b e = ground arith

-- A new store table with the same shelves.
IsSame-of_rows :
    (db : Db) (rows : List (ℕ × ℕ × StoreBalance))
    → IsSound db
    → ((s i : ℕ) → shelf_of rows s i ≡ shelf db s i)
    → IsSame db (record db { store_balances = rows })
IsSame-of_rows db rows h same = record {
  shelves = same;
  frame = ground arith;
  sound = record { shelves = λ s i. rw (same s i) (h.shelves s i); alerts = h.alerts };
}

IsSame-refl : (db : Db) → IsSound db → IsSame db db
IsSame-refl db h = record { shelves = λ s i. refl; frame = IsFrame-refl db; sound = h }

-- `get_or_create` returns what is on the shelf, and changes no shelf.
pub get_store_balance-IsSame :
    (store : ℕ) (item : InventoryItem) (db : Db)
    → IsSound db
    → (b : StoreBalance) × (db' : Db) × (get_store_balance store item db ≡ (ok b, db'))
      × (b.quantities ≡ shelf db store item.id)
      × IsSame db db'
unfolding get_store_balance
get_store_balance-IsSame store item db h =
    elim (Option-cases (lookup2 store item.id db.store_balances)) [
      | inl e ↦
          let empty = shelf_of-none store item.id db.store_balances e in
          (
            new_store_balance item,
            record db {
              store_balances = insert2 store item.id (new_store_balance item) db.store_balances;
            },
            rw (e, get_store_balance),
            empty,
            IsSame-of_rows db _ h
                (λ s i. put_same store item.id (new_store_balance item) db s i empty),
          )
      | inr (b, e) ↦ (
        b,
        db,
        rw (e, get_store_balance),
        shelf_of-some store item.id db.store_balances b e,
        IsSame-refl db h,
      )
    ]
