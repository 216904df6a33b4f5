-- ===== src/Sync/Peers/Once.antt =====
-- The deliveries of an event, apps/sync/services.py: one for each peer, created once.
use codepop.Base.{
  ==_refl, All, Bool, Bool-cases, List, Option, [], any, false, inl, inr, is_some, not, refl, true,
  ℕ, ◌||◌, ◌∷◌, ◌≡◌,
}
use codepop.Sync.Peers.{
  PeerDelivery, create_deliveries, get_or_create_delivery, is_delivery_to, push_event_to_all_peers,
}

IsCreated : ℕ → List PeerDelivery → ℕ × ℕ → Type 0
IsCreated event rows peer = any (is_delivery_to event peer.0) rows ≡ true

or-true : (a b : Bool) → b ≡ true → (a || b) ≡ true
or-true true b h = refl
or-true false b h = h

get_or_create-kept :
    (event : ℕ) (p peer : ℕ × ℕ) (rows : List PeerDelivery)
    → IsCreated event rows p
    → IsCreated event (get_or_create_delivery event peer rows) p
unfolding get_or_create_delivery IsCreated
get_or_create-kept event p (q, url) rows h = elim (Bool-cases (any (is_delivery_to event q) rows)) [
  | inl e ↦ rw e h
  | inr e ↦ rw e (or-true _ (any (is_delivery_to event p.0) rows) h)
]

get_or_create-IsCreated :
    (event : ℕ) (p : ℕ × ℕ) (rows : List PeerDelivery)
    → IsCreated event (get_or_create_delivery event p rows) p
unfolding get_or_create_delivery IsCreated
get_or_create-IsCreated event (q, url) rows =
    elim (Bool-cases (any (is_delivery_to event q) rows)) [
      | inl e ↦ rw (e, e) refl
      | inr e ↦ rw (e, ==_refl event, ==_refl q) refl
    ]

create_deliveries-kept :
    (event : ℕ) (p : ℕ × ℕ) (peers : List (ℕ × ℕ)) (rows : List PeerDelivery)
    → IsCreated event rows p
    → IsCreated event (create_deliveries event peers rows) p
unfolding create_deliveries
create_deliveries-kept event p [] rows h = h
create_deliveries-kept event p (q ∷ peers) rows h =
    create_deliveries-kept event p peers (get_or_create_delivery event q rows)
      (get_or_create-kept event p q rows h)

All-IsCreated :
    (event : ℕ) (peers : List (ℕ × ℕ)) (rows : List PeerDelivery)
    → All (IsCreated event (create_deliveries event peers rows)) peers
unfolding create_deliveries
All-IsCreated event [] rows = tt
All-IsCreated event (q ∷ peers) rows =
    let rest = get_or_create_delivery event q rows in
    (
      create_deliveries-kept event q peers rest (get_or_create-IsCreated event q rows),
      All-IsCreated event peers rest,
    )

nothing_created :
    (event : ℕ) (peers : List (ℕ × ℕ)) (rows : List PeerDelivery)
    → All (IsCreated event rows) peers
    → create_deliveries event peers rows ≡ rows
unfolding create_deliveries get_or_create_delivery IsCreated
nothing_created event [] rows h = refl
nothing_created event ((q, url) ∷ peers) rows (h, t) = rw h (nothing_created event peers rows t)

-- Creating the deliveries of an event again changes nothing.
pub push_event_to_all_peers_idem :
    (enabled : Bool) (peers : List (ℕ × ℕ)) (event : ℕ) (origin : Option ℕ)
    (rows : List PeerDelivery)
    → let push = push_event_to_all_peers enabled peers event origin in push (push rows) ≡ push rows
unfolding push_event_to_all_peers
push_event_to_all_peers_idem enabled peers event origin rows =
    elim (Bool-cases (not enabled || is_some origin)) [
      | inl p ↦ rw p refl
      | inr p ↦ rw p (
          nothing_created event peers (create_deliveries event peers rows)
            (All-IsCreated event peers rows))
    ]
