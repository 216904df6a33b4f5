-- ===== src/Transfers/Lifecycle/Steps.antt =====
-- The states of a transfer: each service moves it by one step.
use codepop.Base.{
  ==_refl, Bool-cases, List, Option, Option-cases, arith, inl, inr, none, refl, some, true, ℕ, ◌∙◌,
  ◌≡◌, ◌⊎◌,
}
use codepop.Base.Exec.{Result, err, for_each, ok, rollback}
use codepop.Base.Int.{ℤ}
use codepop.Base.Table.{lookup, lookup-insert}
use codepop.Db.{Db, save_transfer}
use codepop.Errors.{Error, InventoryFault}
use codepop.Sync.Events.{create_audit_log, create_outbox_event}
use codepop.Sync.Models.{EventType}
use codepop.Transfers.Lifecycle.{
  announce, approve_lines, approve_transfer, deliver_transfer, is_status, lock_transfer,
  receive_line, receive_transfer, reserve_line, reserve_transfer_inventory, ship_line,
  ship_transfer, source_of,
}
use codepop.Transfers.Models.{LineItem, Transfer, TransferStatus}
use codepop.Users.Models.{User, signed_in}
use codepop.Users.Permissions.{user_can_approve_transfer}

-- The steps that the services take.
pub data Step : TransferStatus → TransferStatus → Type 0 where
  approval : Step TransferStatus.requested TransferStatus.approved
  reservation : Step TransferStatus.approved TransferStatus.reserved
  shipping : Step TransferStatus.reserved TransferStatus.in_transit
  delivery : Step TransferStatus.in_transit TransferStatus.delivered
  receipt : Step TransferStatus.delivered TransferStatus.received

is_status_lem : (a b : TransferStatus) → is_status a b ≡ true → a ≡ b
is_status_lem a b h = ground arith

run_cases :
    {A : Type 0} (p : Result Error A × Db)
    → ((a : A) × (db : Db) × (p ≡ (ok a, db))) ⊎ ((e : Error) × (db : Db) × (p ≡ (err e, db)))
run_cases (ok a, db) = inl (a, db, refl)
run_cases (err e, db) = inr (e, db, refl)

lock_cases :
    (id : ℕ) (db : Db)
    → ((t : Transfer) × (lookup id db.transfers ≡ some t) × (lock_transfer id db ≡ (ok t, db)))
      ⊎ ((e : Error) × (lock_transfer id db ≡ (err e, db)))
unfolding lock_transfer
lock_cases id db = elim (Option-cases (lookup id db.transfers)) [
  | inl n ↦ inr (Error.does_not_exist, rw (n, lock_transfer))
  | inr (t, e) ↦ inl (t, e, rw (e, lock_transfer))
]

announce_lem :
    (event : EventType) (actor : Option ℕ) (t : Transfer) (db : Db)
    → (db' : Db) × (announce event actor t db ≡ (ok t, db')) × (lookup t.id db'.transfers ≡ some t)
unfolding announce save_transfer create_outbox_event create_audit_log
announce_lem event actor t db = (_, refl, rw (lookup-insert, ==_refl t.id))

-- What a service on the transfer `id` comes to: a step of the stored transfer, stored again; or an
-- error, with the tables as they were.
pub record Stepped (key : ℕ) (db : Db) (t' : Transfer) (db' : Db) : Type 0 where
  pub before : Transfer
  pub found : lookup key db.transfers ≡ some before
  pub step : Step before.status t'.status
  pub id : t'.id ≡ before.id
  pub destination : t'.destination_store ≡ before.destination_store
  pub stored : lookup t'.id db'.transfers ≡ some t'

abbrev pub StepOutcome : ℕ → Db → Result Error Transfer × Db → Type 0
StepOutcome id db r =
    ((t' : Transfer) × (db' : Db) × (r ≡ (ok t', db')) × Stepped id db t' db')
    ⊎ ((e : Error) × (r ≡ (err e, db)))

-- The end of a service: the transfer `t2` is announced from tables `db2`.
announced :
    (id : ℕ) (event : EventType) (actor : Option ℕ) (t t2 : Transfer) (db db2 : Db)
    (r : Result Error Transfer × Db)
    → lookup id db.transfers ≡ some t
    → Step t.status t2.status
    → t2.id ≡ t.id
    → t2.destination_store ≡ t.destination_store
    → r ≡ rollback db (announce event actor t2 db2)
    → StepOutcome id db r
announced id event actor t t2 db db2 r found step same destination e =
    let (db', done, stored) = announce_lem event actor t2 db2 in
    inl (
      t2,
      db',
      e ∙ rw (done, rollback),
      record {
        before = t;
        found = found;
        step = step;
        id = same;
        destination = destination;
        stored = stored;
      },
    )

pub deliver_transfer-Step : (now id : ℕ) (db : Db) → StepOutcome id db (deliver_transfer now id db)
unfolding deliver_transfer
deliver_transfer-Step now id db = elim (lock_cases id db) [
  | inr (e, stop) ↦ inr (e, rw stop)
  | inl (t, found, locked) ↦ elim (Bool-cases (is_status t.status TransferStatus.in_transit)) [
    | inr p ↦ inr (Error.inventory InventoryFault.not_in_transit, rw (locked, p))
    | inl p ↦
        announced id EventType.transfer_delivered none t
          (record t { status = TransferStatus.delivered; delivered_at = some now }) db db _ found
          (rw (is_status_lem t.status TransferStatus.in_transit p) Step.delivery) refl refl
          (rw (locked, p))
  ]
]

pub receive_transfer-Step :
    (now id : ℕ) (actor : Option ℕ) (db : Db) → StepOutcome id db (receive_transfer now id actor db)
unfolding receive_transfer
receive_transfer-Step now id actor db = elim (lock_cases id db) [
  | inr (e, stop) ↦ inr (e, rw stop)
  | inl (t, found, locked) ↦ elim (Bool-cases (is_status t.status TransferStatus.delivered)) [
    | inr p ↦ inr (Error.inventory InventoryFault.not_delivered, rw (locked, p))
    | inl p ↦ elim (run_cases (for_each (receive_line now t.destination_store) t.line_items db)) [
      | inr (e, db1, stop) ↦ inr (e, rw (locked, p, stop))
      | inl (a, db1, went) ↦
          announced id EventType.transfer_received actor t
            (record t { status = TransferStatus.received; received_at = some now }) db db1 _ found
            (rw (is_status_lem t.status TransferStatus.delivered p) Step.receipt) refl refl
            (rw (locked, p, went))
    ]
  ]
]

pub reserve_transfer_inventory-Step :
    (id : ℕ) (db : Db) → StepOutcome id db (reserve_transfer_inventory id db)
unfolding reserve_transfer_inventory
reserve_transfer_inventory-Step id db = elim (lock_cases id db) [
  | inr (e, stop) ↦ inr (e, rw stop)
  | inl (t, found, locked) ↦ elim (Bool-cases (is_status t.status TransferStatus.approved)) [
    | inr p ↦ inr (Error.inventory InventoryFault.not_approved, rw (locked, p))
    | inl p ↦ elim (Option-cases (source_of t)) [
      | inl n ↦ inr (Error.does_not_exist, rw (locked, p, n))
      | inr (source, o) ↦ elim (run_cases (for_each (reserve_line source) t.line_items db)) [
        | inr (e, db1, stop) ↦ inr (e, rw (locked, p, o, stop))
        | inl (a, db1, went) ↦
            announced id EventType.transfer_reserved none t
              (record t { status = TransferStatus.reserved }) db db1 _ found
              (rw (is_status_lem t.status TransferStatus.approved p) Step.reservation) refl refl
              (rw (locked, p, o, went))
      ]
    ]
  ]
]

pub ship_transfer-Step : (id : ℕ) (db : Db) → StepOutcome id db (ship_transfer id db)
unfolding ship_transfer
ship_transfer-Step id db = elim (lock_cases id db) [
  | inr (e, stop) ↦ inr (e, rw stop)
  | inl (t, found, locked) ↦ elim (Bool-cases (is_status t.status TransferStatus.reserved)) [
    | inr p ↦ inr (Error.inventory InventoryFault.not_reserved, rw (locked, p))
    | inl p ↦ elim (Option-cases (source_of t)) [
      | inl n ↦ inr (Error.does_not_exist, rw (locked, p, n))
      | inr (source, o) ↦ elim (run_cases (for_each (ship_line source) t.line_items db)) [
        | inr (e, db1, stop) ↦ inr (e, rw (locked, p, o, stop))
        | inl (a, db1, went) ↦
            announced id EventType.transfer_shipped none t
              (record t { status = TransferStatus.in_transit }) db db1 _ found
              (rw (is_status_lem t.status TransferStatus.reserved p) Step.shipping) refl refl
              (rw (locked, p, o, went))
      ]
    ]
  ]
]

lines_cases :
    (r : Result Error (List LineItem))
    → ((a : List LineItem) × (r ≡ ok a)) ⊎ ((e : Error) × (r ≡ err e))
lines_cases (ok a) = inl (a, refl)
lines_cases (err e) = inr (e, refl)

pub approve_transfer-Step :
    (now id : ℕ) (approver : User) (approved : ℕ → Option ℤ) (db : Db)
    → StepOutcome id db (approve_transfer now id approver approved db)
unfolding approve_transfer
approve_transfer-Step now id approver approved db = elim (lock_cases id db) [
  | inr (e, stop) ↦ inr (e, rw stop)
  | inl (t, found, locked) ↦
      elim (Bool-cases
        (user_can_approve_transfer db.grants (signed_in approver) t.destination_store)) [
          | inr g ↦ inr (Error.inventory InventoryFault.approval_denied, rw (locked, g))
          | inl g ↦ elim (Bool-cases (is_status t.status TransferStatus.requested)) [
            | inr p ↦ inr (Error.inventory InventoryFault.not_requested, rw (locked, g, p))
            | inl p ↦ elim (lines_cases (approve_lines approved t.line_items)) [
              | inr (e, stop) ↦ inr (e, rw (locked, g, p, stop))
              | inl (lines, went) ↦
                  announced id EventType.transfer_approved (some approver.id) t
                    (record t {
                      line_items = lines;
                      status = TransferStatus.approved;
                      approved_by = some approver.id;
                      approved_at = some now;
                    })
                    db db _ found
                    (rw (is_status_lem t.status TransferStatus.requested p) Step.approval) refl refl
                    (rw (locked, g, p, went))
            ]
          ]
        ]
]
