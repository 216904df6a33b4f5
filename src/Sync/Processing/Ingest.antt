-- ===== src/Sync/Processing/Ingest.antt =====
-- `ingest_event_from_peer` of apps/sync/services.py: an event of a peer is taken in once.
use codepop.Base.{
  ==_refl, Bool, Bool-cases, List, Option, [], inl, inr, none, refl, some, subst, sym, true, ℕ,
  ◌==◌, ◌∷◌, ◌≡◌,
}
use codepop.Base.Table.{insert}
use codepop.Db.{Db}
use codepop.Notifications.{Account}
use codepop.Sync.Models.{OutboxEvent}
use codepop.Sync.Processing.{
  Station, StoredEvent, find_remote, ingest_event_from_peer, ingest_found, is_from,
  new_remote_event, process_outbox_event, save_event, start_processing,
}
use codepop.Sync.Processing.Status.{process_outbox_event-IsProcessed}

insert_again :
    (k : ℕ) (a b : StoredEvent) (rows : List (ℕ × StoredEvent))
    → insert k a (insert k b rows) ≡ insert k a rows
unfolding insert
insert_again k a b [] = rw (==_refl k) refl
insert_again k a b ((j, c) ∷ rows) = elim (Bool-cases (j == k)) [
  | inl p ↦ rw (p, ==_refl k) refl
  | inr p ↦ rw (p, p, insert_again k a b rows) refl
]

is_from_own :
    (origin remote : ℕ) (o : Option (ℕ × ℕ))
    → o ≡ some (origin, remote)
    → is_from origin remote o ≡ true
is_from_own origin remote o e =
    subst (λ x. is_from origin remote x ≡ true) (sym e) (rw (==_refl origin, ==_refl remote) refl)

find_remote-insert :
    (origin remote k : ℕ) (row : StoredEvent) (rows : List (ℕ × StoredEvent))
    → find_remote origin remote rows ≡ none
    → row.remote ≡ some (origin, remote)
    → find_remote origin remote (insert k row rows) ≡ some row
unfolding find_remote insert
find_remote-insert origin remote k row [] h e = rw (is_from_own origin remote row.remote e) refl
find_remote-insert origin remote k row ((j, c) ∷ rows) h e = elim (Bool-cases (j == k)) [
  | inl p ↦ rw (p, is_from_own origin remote row.remote e) refl
  | inr p ↦ elim (Bool-cases (is_from origin remote c.remote)) [
    | inl q ↦ absurd (cc (rw q at h))
    | inr q ↦ rw (p, q) (find_remote-insert origin remote k row rows (rw q at h) e)
  ]
]

module _ (accounts : List Account) (db : Db) (enabled : Bool) (peers : List (ℕ × ℕ)) (now : ℕ) where
  -- The row is found again after the first call.
  ingested_found :
      (id origin remote : ℕ) (event : OutboxEvent) (st : Station) (o : Option StoredEvent)
      → find_remote origin remote st.events ≡ o
      → let r = ingest_found accounts db enabled peers now o id origin remote event st in
        find_remote origin remote r.1.events ≡ some r.0
  unfolding ingest_found new_remote_event
  ingested_found id origin remote event st (some row) f = f
  ingested_found id origin remote event st none f =
      let row = new_remote_event id origin remote event in
      let r = process_outbox_event accounts db enabled peers now row (save_event row st) in
      let k =
        (process_outbox_event-IsProcessed accounts db enabled peers now row (save_event row st)).1
          refl in
      rw (k.events) (
        rw
          (
            insert_again id r.0 (start_processing row) (insert id row st.events),
            insert_again id r.0 row st.events,
          )
          (find_remote-insert origin remote id r.0 st.events f k.remote))

  -- An event that a peer pushes again, whatever it says now, changes nothing, and the row of the first
  -- push is returned.
  pub ingest_event_from_peer_idem :
      (id id' origin remote : ℕ) (event event' : OutboxEvent) (st : Station)
      → let ingest = ingest_event_from_peer accounts db enabled peers now in
        let first = ingest id origin remote event st in
        ingest id' origin remote event' first.1 ≡ first
  unfolding ingest_event_from_peer
  ingest_event_from_peer_idem id id' origin remote event event' st =
      let first =
        ingest_found accounts db enabled peers now (find_remote origin remote st.events) id origin
          remote event st in
      let f : find_remote origin remote first.1.events ≡ some first.0 =
        ingested_found id origin remote event st (find_remote origin remote st.events) refl in
      subst
        (λ o. ingest_found accounts db enabled peers now o id' origin remote event' first.1 ≡ first)
        (sym f) (unfold ingest_found in refl)
