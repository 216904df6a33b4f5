-- ===== src/Sync/Peers.antt =====
-- apps/sync/services.py: the deliveries of an event to peer nodes. Seconds stand for times; a peer is
-- its node id and its URL.
pub mod Backoff
pub mod Once
use codepop.Base.{
  Bool, List, Option, [], any, false, if◌then◌else◌, is_some, leb, length, min, none, not, some,
  suc, zero, ℕ, ◌&&◌, ◌+◌, ◌-◌, ◌==◌, ◌||◌, ◌∷◌,
}

pub data DeliveryStatus : Type 0 where
  pending delivered failed : DeliveryStatus

pub record PeerDelivery : Type 0 where
  pub event : ℕ
  pub peer_node_id : ℕ
  pub peer_url : ℕ
  pub status : DeliveryStatus
  pub attempt_count : ℕ
  pub next_attempt_at : Option ℕ

-- `backoff_seconds`
abbrev pub backoff_seconds : List ℕ
backoff_seconds = 60 ∷ 300 ∷ 900 ∷ 86400 ∷ []

abbrev pub get_or_zero : List ℕ → ℕ → ℕ
get_or_zero [] n = 0
get_or_zero (x ∷ xs) zero = x
get_or_zero (x ∷ xs) (suc n) = get_or_zero xs n

-- `backoff_seconds[min(attempt_count - 1, len(backoff_seconds) - 1)]`
unfoldable pub backoff : ℕ → ℕ
backoff attempt_count =
    get_or_zero backoff_seconds (min (attempt_count - 1) (length backoff_seconds - 1))

-- `push_event_to_peer`, where `accepted` tells whether the request to the peer succeeds.
unfoldable pub push_event_to_peer : Bool → ℕ → PeerDelivery → PeerDelivery
push_event_to_peer accepted now d =
    if accepted
    then record d { status = DeliveryStatus.delivered }
    else let attempts = d.attempt_count + 1 in
      record d {
        attempt_count = attempts;
        status = DeliveryStatus.failed;
        next_attempt_at = some (now + backoff attempts);
      }

-- `filter(event=event, peer_node_id=…)`
abbrev pub is_delivery_to : ℕ → ℕ → PeerDelivery → Bool
is_delivery_to event peer d = (event == d.event) && (peer == d.peer_node_id)

-- `get_or_create` of one delivery.
unfoldable pub get_or_create_delivery : ℕ → ℕ × ℕ → List PeerDelivery → List PeerDelivery
get_or_create_delivery event (peer, url) rows =
    if any (is_delivery_to event peer) rows
    then rows
    else (record {
      event = event;
      peer_node_id = peer;
      peer_url = url;
      status = DeliveryStatus.pending;
      attempt_count = 0;
      next_attempt_at = none;
    })
      ∷ rows

unfoldable pub create_deliveries : ℕ → List (ℕ × ℕ) → List PeerDelivery → List PeerDelivery
create_deliveries event [] rows = rows
create_deliveries event (peer ∷ peers) rows =
    create_deliveries event peers (get_or_create_delivery event peer rows)

-- `origin` is the node that an event came from, `none` for an event of this node; `peers` is the
-- setting `PEER_STORES`.
unfoldable pub push_event_to_all_peers :
    Bool → List (ℕ × ℕ) → ℕ → Option ℕ → List PeerDelivery → List PeerDelivery
push_event_to_all_peers enabled peers event origin rows =
    if not enabled || is_some origin then rows else create_deliveries event peers rows

-- `status=FAILED, next_attempt_at__lte=now`
abbrev pub is_due : ℕ → PeerDelivery → Bool
is_due now d = elim d.status [
  | DeliveryStatus.failed ↦ elim d.next_attempt_at [ none ↦ false | some t ↦ leb t now ]
  | _ ↦ false
]

-- The first `limit` deliveries that are due are pushed again; `accepted` tells the requests that
-- succeed, and the rows stand newest first.
unfoldable pub retry_deliveries :
    (PeerDelivery → Bool) → ℕ → ℕ → List PeerDelivery → ℕ × List PeerDelivery
retry_deliveries accepted now limit [] = (0, [])
retry_deliveries accepted now zero (d ∷ rows) = (0, d ∷ rows)
retry_deliveries accepted now (suc limit) (d ∷ rows) =
    let taken = retry_deliveries accepted now limit rows in
    let skipped = retry_deliveries accepted now (suc limit) rows in
    if is_due now d
    then (
      taken.0 + 1,
      push_event_to_peer (accepted d) now (record d { status = DeliveryStatus.pending }) ∷ taken.1,
    )
    else (skipped.0, d ∷ skipped.1)

unfoldable pub retry_failed_peer_deliveries :
    (PeerDelivery → Bool) → ℕ → List PeerDelivery → ℕ × List PeerDelivery
retry_failed_peer_deliveries accepted now rows = retry_deliveries accepted now 50 rows
