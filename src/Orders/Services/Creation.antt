-- ===== src/Orders/Services/Creation.antt =====
-- What `create_order` does, whatever it returns.
use codepop.Base.{
  ==→eq, Bool-cases, List, Option, [], any, ap, arith, false, if◌then◌else◌, inl, inr, none,
  or_else, refl, some, sym, true, ℕ, ◌==◌, ◌∙◌, ◌∷◌, ◌≡◌, ◌⊎◌,
}
use codepop.Base.Exec.{Result, err, ok}
use codepop.Base.Table.{insert, lookup, lookup-insert}
use codepop.Db.{Db, save_order}
use codepop.Errors.{Error, OrderFault}
use codepop.Orders.Models.{GuestContact, Order, OrderStatus}
use codepop.Orders.Pricing.{Pricing, RequestedItem, default_tax_rate, validate_pricing}
use codepop.Orders.Services.{
  Draws, code_exists, create_guest_contact, create_order, guest_locker_code, items_match_store,
  new_order, save_guest_contact,
}
use codepop.Orders.Services.Codes.{generate-Drawn}
use codepop.Stores.{Store}
use codepop.Sync.Events.{create_audit_log, create_outbox_event, new_event, store_scope}
use codepop.Sync.Models.{AggregateType, AuditAction, EventType}

-- No two orders have the same public code.
abbrev pub CodesUnique : List (ℕ × Order) → Type 0
CodesUnique rows =
    (i j : ℕ) (a b : Order)
    → lookup i rows ≡ some a
    → lookup j rows ≡ some b
    → a.public_order_code ≡ b.public_order_code
    → i ≡ j

-- The whole effect of a creation from `db` to `db'` that returned the order `o`.
pub record Created (draws : Draws) (store : Store) (items : List RequestedItem)
    (customer : Option ℕ) (db : Db) (o : Order) (db' : Db) : Type 0 where
  pub id : o.id ≡ draws.id
  pub status : o.status ≡ OrderStatus.pricing_validated
  pub in_store : o.store ≡ store
  pub matching : items_match_store store items ≡ true
  pub owner : o.customer ≡ customer
  pub priced :
      (p : Pricing) × (validate_pricing default_tax_rate items ≡ ok p)
      × (o.items ≡ p.normalized_items)
      × (o.total_amount ≡ p.total_amount)
  pub fresh_code : code_exists o.public_order_code db.orders ≡ false
  pub stored : db'.orders ≡ insert draws.id o db.orders
  pub event :
      db'.outbox
      ≡ new_event EventType.order_created AggregateType.order draws.id (store_scope store) db.outbox
        ∷ db.outbox
  pub store_balances : db'.store_balances ≡ db.store_balances
  pub payments : db'.payments ≡ db.payments
  pub revenue : db'.revenue ≡ db.revenue

code_exists_lem :
    (code i : ℕ) (o : Order) (rows : List (ℕ × Order))
    → code_exists code rows ≡ false
    → lookup i rows ≡ some o
    → ¬ (o.public_order_code ≡ code)
unfolding code_exists lookup
code_exists_lem code i o [] f l e = cc
code_exists_lem code i o ((j, p) ∷ rows) f l e = ground (arith, code_exists_lem code i o rows)

pub Result-cases :
    {A : Type 0} (r : Result Error A) → ((a : A) × (r ≡ ok a)) ⊎ ((e : Error) × (r ≡ err e))
Result-cases (ok a) = inl (a, refl)
Result-cases (err e) = inr (e, refl)

abbrev created : Draws → Store → Option ℕ → Option GuestContact → Pricing → ℕ → Order
created draws store customer guest p code =
    new_order draws.id code store customer p (guest_locker_code guest draws.combo)

save_guest_contact_cases :
    (id : ℕ) (guest : Option GuestContact) (customer : Option ℕ) (drawn : ℕ) (db : Db)
    → ((contacts : List (ℕ × ℕ)) × (save_guest_contact id guest customer drawn db
          ≡ (ok tt, record db { guest_contacts = contacts })))
      ⊎ (save_guest_contact id guest customer drawn db ≡ (err Error.integrity, db))
unfolding save_guest_contact create_guest_contact
save_guest_contact_cases id none customer drawn db = inl (db.guest_contacts, refl)
save_guest_contact_cases id (some g) (some c) drawn db = inl (db.guest_contacts, refl)
save_guest_contact_cases id (some g) none drawn db =
    let code = or_else g.lookup_code drawn in
    elim (Bool-cases (any (λ (row : ℕ × ℕ). row.1 == code) db.guest_contacts)) [
      | inl p ↦ inr (rw p refl)
      | inr p ↦ inl (insert id code db.guest_contacts, rw p refl)
    ]

abbrev created_db : Order → Store → Option ℕ → List (ℕ × ℕ) → Db → Db
created_db o store actor contacts db = record db {
  orders = insert o.id o db.orders;
  guest_contacts = contacts;
  outbox =
      new_event EventType.order_created AggregateType.order o.id (store_scope store) db.outbox
      ∷ db.outbox;
  audit =
      (record {
        actor = actor;
        action = AuditAction.event EventType.order_created;
        entity_id = o.id;
      })
      ∷ db.audit;
}

-- A creation either goes through, and then the order is stored priced, with a code that no order
-- had, with one numbered event, and neither stock nor payments are touched; or it raises, and then
-- the tables are as they were.
pub create_order_outcome :
    (draws : Draws) (store : Store) (items : List RequestedItem) (customer : Option ℕ)
    (guest : Option GuestContact) (actor : Option ℕ) (db : Db)
    → ((o : Order) × (db' : Db) × (create_order draws store items customer guest actor db
          ≡ (ok o, db'))
        × Created draws store items customer db o db')
      ⊎ ((e : Error) × (create_order draws store items customer guest actor db ≡ (err e, db)))
unfolding create_order create_outbox_event create_audit_log save_order new_order
create_order_outcome draws store items customer guest actor db =
    elim (Bool-cases (items_match_store store items)) [
      | inr p ↦ inr (Error.order OrderFault.store_mismatch, rw (p))
      | inl p ↦ elim (Result-cases (validate_pricing default_tax_rate items)) [
        | inr (e, q) ↦ inr (e, rw (p, q))
        | inl (priced, q) ↦ elim (generate-Drawn 12 draws.candidate db.orders) [
          | inr (all, g) ↦ inr (Error.order OrderFault.code_exhausted, rw (p, q, g))
          | inl (k, l, f, g) ↦
              let o = created draws store customer guest priced (draws.candidate k) in
              let db1 : Db = record db { orders = insert o.id o db.orders } in
              elim (save_guest_contact_cases draws.id guest customer draws.lookup_code db1) [
                | inr c ↦ inr (Error.integrity, rw (p, q, g, c))
                | inl (contacts, c) ↦ inl (
                  o,
                  created_db o store actor contacts db,
                  rw (p, q, g, c),
                  record {
                    id = refl;
                    status = refl;
                    in_store = refl;
                    matching = p;
                    owner = refl;
                    priced = (priced, q, refl, refl);
                    fresh_code = f;
                    stored = refl;
                    event = refl;
                    store_balances = refl;
                    payments = refl;
                    revenue = refl;
                  },
                )
              ]
        ]
      ]
    ]

insert_cases :
    (k i : ℕ) (o a : Order) (rows : List (ℕ × Order))
    → lookup i (insert k o rows) ≡ some a
    → ((k ≡ i) × (o ≡ a)) ⊎ (lookup i rows ≡ some a)
insert_cases k i o a rows h = elim (Bool-cases (k == i)) [
  | inl p ↦ inl (==→eq k i p, (let g = (rw (lookup-insert, p, if◌then◌else◌) at h) in cc))
  | inr p ↦ inr (rw (lookup-insert, p, if◌then◌else◌) at h)
]

insert-CodesUnique :
    (o : Order) (k : ℕ) (rows : List (ℕ × Order))
    → code_exists o.public_order_code rows ≡ false
    → CodesUnique rows
    → CodesUnique (insert k o rows)
insert-CodesUnique o k rows f u i j a b la lb e = elim (insert_cases k i o a rows la) [
  | inl (p, q) ↦ elim (insert_cases k j o b rows lb) [
    | inl (p', q') ↦ sym p ∙ p'
    | inr lb' ↦ absurd (
        code_exists_lem o.public_order_code j b rows f lb'
          (sym e ∙ ap (λ (x : Order). x.public_order_code) (sym q)))
  ]
  | inr la' ↦ elim (insert_cases k j o b rows lb) [
    | inl (p', q') ↦ absurd (
        code_exists_lem o.public_order_code i a rows f la'
          (e ∙ ap (λ (x : Order). x.public_order_code) (sym q')))
    | inr lb' ↦ u i j a b la' lb' e
  ]
]

-- A creation keeps the public codes of the orders different from one another.
pub create_order-CodesUnique :
    (draws : Draws) (store : Store) (items : List RequestedItem) (customer : Option ℕ)
    (guest : Option GuestContact) (actor : Option ℕ) (db : Db)
    → CodesUnique db.orders
    → CodesUnique (create_order draws store items customer guest actor db).1.orders
create_order-CodesUnique draws store items customer guest actor db u =
    elim (create_order_outcome draws store items customer guest actor db) [
      | inr (e, stop) ↦ rw stop u
      | inl (o, db', done, c) ↦
          rw (done, c.stored) (insert-CodesUnique o draws.id db.orders c.fresh_code u)
    ]
