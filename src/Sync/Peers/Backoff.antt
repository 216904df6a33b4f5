-- ===== src/Sync/Peers/Backoff.antt =====
-- The retries of apps/sync/services.py: how long a failed delivery waits.
use codepop.Base.{ap, arith, false, leb, min, refl, subst, suc, true, zero, ℕ, ◌+◌, ◌-◌, ◌≡◌, ◌≤◌}
use codepop.Sync.Peers.{
  PeerDelivery, backoff, backoff_seconds, get_or_zero, is_due, push_event_to_peer,
}

backoff_late : (n : ℕ) → backoff (suc (suc (suc (suc n)))) ≡ 86400
unfolding backoff
backoff_late n =
    let e : min (suc (suc (suc (suc n))) - 1) 3 ≡ 3 = omega arith in
    ap (get_or_zero backoff_seconds) e

backoff_mono : (n : ℕ) → backoff n ≤ backoff (suc n)
unfolding backoff
backoff_mono zero = omega arith
backoff_mono (suc zero) = omega arith
backoff_mono (suc (suc zero)) = omega arith
backoff_mono (suc (suc (suc zero))) = omega arith
backoff_mono (suc (suc (suc (suc n)))) = omega (arith, backoff_late n, backoff_late (suc n))

backoff_bounds : (n : ℕ) → (60 ≤ backoff n) × (backoff n ≤ 86400)
unfolding backoff
backoff_bounds zero = (omega arith, omega arith)
backoff_bounds (suc zero) = (omega arith, omega arith)
backoff_bounds (suc (suc zero)) = (omega arith, omega arith)
backoff_bounds (suc (suc (suc zero))) = (omega arith, omega arith)
backoff_bounds (suc (suc (suc (suc n)))) =
    (omega (arith, backoff_late n), omega (arith, backoff_late n))

-- A request that fails is counted, and the delivery waits a minute at least and a day at most, no
-- less than after the failure before.
pub push_event_to_peer-backoff :
    (now : ℕ) (d : PeerDelivery)
    → let failed = push_event_to_peer false now d in
      (failed.attempt_count ≡ d.attempt_count + 1)
      × (is_due (now + 59) failed ≡ false)
      × (is_due (now + 86400) failed ≡ true)
      × ((t : ℕ)
          → is_due (now + t) (push_event_to_peer false now failed) ≡ true
          → is_due (now + t) failed ≡ true)
unfolding push_event_to_peer
push_event_to_peer-backoff now d =
    let (lo, hi) = backoff_bounds (d.attempt_count + 1) in
    let m : backoff (d.attempt_count + 1) ≤ backoff (d.attempt_count + 1 + 1) =
      subst (λ x. backoff (d.attempt_count + 1) ≤ backoff x) (omega arith)
        (backoff_mono (d.attempt_count + 1)) in
    (
      refl,
      ground arith,
      ground arith,
      λ t h.
          let h' : leb (now + backoff (d.attempt_count + 1 + 1)) (now + t) ≡ true = h in
          ground arith,
    )
