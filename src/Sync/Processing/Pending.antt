-- ===== src/Sync/Processing/Pending.antt =====
-- `process_pending_outbox_events` of apps/sync/services.py: no row that it takes stays pending.
use codepop.Base.{
  ==_refl, All, Bool, Bool-cases, List, [], ap, arith, false, if◌then◌else◌, inl, inr, length, refl,
  some, suc, true, zero, ℕ, ◌==◌, ◌∷◌, ◌≡◌, ◌≤◌,
}
use codepop.Base.Table.{insert, lookup, lookup-insert}
use codepop.Db.{Db}
use codepop.Notifications.{Account}
use codepop.Sync.Processing.{
  EventStatus, Station, StoredEvent, first_events, is_dispatched, is_pending_event, process_events,
  process_outbox_event, process_pending_outbox_events, start_processing,
}
use codepop.Sync.Processing.Settled.{IsSettled}
use codepop.Sync.Processing.Status.{process_outbox_event-IsProcessed}

-- A row that is stored and not pending.
abbrev pub IsTaken : Station → StoredEvent → Type 0
IsTaken st row =
    (r : StoredEvent) × (lookup row.id st.events ≡ some r) × (is_pending_event r.status ≡ false)

first_events-All :
    (test : EventStatus → Bool) (limit : ℕ) (rows : List (ℕ × StoredEvent))
    → All (λ row. test row.status ≡ true) (first_events test limit rows)
unfolding first_events
first_events-All test limit [] = tt
first_events-All test zero ((k, row) ∷ rows) = tt
first_events-All test (suc limit) ((k, row) ∷ rows) = elim (Bool-cases (test row.status)) [
  | inl p ↦ rw p (p, first_events-All test limit rows)
  | inr p ↦ rw p (first_events-All test (suc limit) rows)
]

first_events-length :
    (test : EventStatus → Bool) (limit : ℕ) (rows : List (ℕ × StoredEvent))
    → length (first_events test limit rows) ≤ limit
unfolding first_events
first_events-length test limit [] = omega arith
first_events-length test zero ((k, row) ∷ rows) = omega arith
first_events-length test (suc limit) ((k, row) ∷ rows) = elim (Bool-cases (test row.status)) [
  | inl p ↦ rw p (omega (arith, first_events-length test limit rows))
  | inr p ↦ rw p (first_events-length test (suc limit) rows)
]

pending_not_dispatched : (s : EventStatus) → is_pending_event s ≡ true → is_dispatched s ≡ false
pending_not_dispatched EventStatus.pending h = refl
pending_not_dispatched EventStatus.processing h = absurd (cc)
pending_not_dispatched EventStatus.dispatched h = absurd (cc)
pending_not_dispatched EventStatus.failed h = absurd (cc)

stored_twice :
    (k j : ℕ) (a b : StoredEvent) (rows : List (ℕ × StoredEvent))
    → lookup j (insert k a (insert k b rows)) ≡ (if k == j then some a else lookup j rows)
stored_twice k j a b rows = elim (Bool-cases (k == j)) [
  | inl p ↦ rw (lookup-insert k j a (insert k b rows), p) refl
  | inr p ↦ rw (lookup-insert k j a (insert k b rows), p, lookup-insert k j b rows, p) refl
]

module _ (accounts : List Account) (db : Db) (enabled : Bool) (peers : List (ℕ × ℕ)) (now : ℕ) where
  settled-not_pending :
      (row after : StoredEvent) (st st' : Station)
      → IsSettled accounts db enabled peers now row after st st'
      → is_pending_event after.status ≡ false
  settled-not_pending row after st st' (inl (f, h, s)) = ap is_pending_event s.status
  settled-not_pending row after st st' (inr (inl (h, s))) = ap is_pending_event s.status
  settled-not_pending row after st st' (inr (inr (inl (h, (sent, e, s))))) =
      ap is_pending_event s.status
  settled-not_pending row after st st' (inr (inr (inr (h, e, s)))) = ap is_pending_event s.status

  processed-IsTaken :
      (row : StoredEvent) (st : Station)
      → is_pending_event row.status ≡ true
      → IsTaken (process_outbox_event accounts db enabled peers now row st).1 row
  processed-IsTaken row st h =
      let r = process_outbox_event accounts db enabled peers now row st in
      let k =
        (process_outbox_event-IsProcessed accounts db enabled peers now row st).1
          (pending_not_dispatched row.status h) in
      (
        r.0,
        rw
            (
              k.events,
              stored_twice row.id row.id r.0 (start_processing row) st.events,
              ==_refl row.id,
            )
            refl,
        settled-not_pending row r.0 st r.1 k.settled,
      )

  -- Processing a row leaves the others as they are.
  processed-kept :
      (row other : StoredEvent) (st : Station)
      → is_pending_event row.status ≡ true
      → IsTaken st other
      → IsTaken (process_outbox_event accounts db enabled peers now row st).1 other
  processed-kept row other st h (a, f, n) =
      let r = process_outbox_event accounts db enabled peers now row st in
      let k =
        (process_outbox_event-IsProcessed accounts db enabled peers now row st).1
          (pending_not_dispatched row.status h) in
      let e = stored_twice row.id other.id r.0 (start_processing row) st.events in
      elim (Bool-cases (row.id == other.id)) [
        | inl p ↦ (r.0, rw (k.events, e, p) refl, settled-not_pending row r.0 st r.1 k.settled)
        | inr p ↦ (a, rw (k.events, e, p) f, n)
      ]

  events-kept :
      (rows : List StoredEvent) (other : StoredEvent) (st : Station)
      → All (λ row. is_pending_event row.status ≡ true) rows
      → IsTaken st other
      → IsTaken (process_events accounts db enabled peers now rows st) other
  unfolding process_events
  events-kept [] other st h t = t
  events-kept (row ∷ rows) other st (h, hs) t =
      events-kept rows other (process_outbox_event accounts db enabled peers now row st).1 hs
        (processed-kept row other st h t)

  events-All :
      (rows : List StoredEvent) (st : Station)
      → All (λ row. is_pending_event row.status ≡ true) rows
      → All (IsTaken (process_events accounts db enabled peers now rows st)) rows
  unfolding process_events
  events-All [] st h = tt
  events-All (row ∷ rows) st (h, hs) =
      let next = (process_outbox_event accounts db enabled peers now row st).1 in
      (events-kept rows row next hs (processed-IsTaken row st h), events-All rows next hs)

  -- At most `limit` rows are taken, and each of them is stored afterwards and is not pending.
  pub process_pending_outbox_events-IsTaken :
      (limit : ℕ) (st : Station)
      → let r = process_pending_outbox_events accounts db enabled peers now limit st in
        (r.0 ≤ limit) × All (IsTaken r.1) (first_events is_pending_event limit st.events)
  unfolding process_pending_outbox_events
  process_pending_outbox_events-IsTaken limit st = (
    first_events-length is_pending_event limit st.events,
    events-All (first_events is_pending_event limit st.events) st
        (first_events-All is_pending_event limit st.events),
  )
