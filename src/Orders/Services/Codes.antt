-- ===== src/Orders/Services/Codes.antt =====
-- The two searches of apps/orders/services.py: for a fresh order code, and for a free locker.
use codepop.Base.{
  ==→eq, ==→ne, All, Bool, Bool-cases, Exists, List, Option, [], any, ap, arith, false, inl, inr,
  none, not, refl, some, subst, suc, sym, true, zero, ℕ, ℕ_discrete, ◌%◌, ◌&&◌, ◌+◌, ◌<◌, ◌==◌, ◌∙◌,
  ◌∷◌, ◌≡◌, ◌≤◌, ◌⊎◌,
}
use codepop.Orders.Models.{Order, OrderStatus}
use codepop.Orders.Services.{
  active_lockers, add_locker, assign_pickup_locker, code_exists, count_orders, first_free_locker,
  generate_public_order_code,
}
use codepop.Orders.Status.{is_order_status}

-- What a draw of `attempts` candidates comes to: a candidate that no order has, or nothing, if
-- every candidate is the code of an order.
abbrev pub Drawn : ℕ → (ℕ → ℕ) → List (ℕ × Order) → Type 0
Drawn attempts candidate rows =
    ((k : ℕ) × (k < attempts)
      × (code_exists (candidate k) rows ≡ false)
      × (generate_public_order_code attempts candidate rows ≡ some (candidate k)))
    ⊎ (((k : ℕ) → k < attempts → code_exists (candidate k) rows ≡ true)
        × (generate_public_order_code attempts candidate rows ≡ none))

extend_below : (P : ℕ → Type 0) (n : ℕ) → ((k : ℕ) → k < n → P k) → P n → (k : ℕ) → k < suc n → P k
extend_below P n all last k l = elim (ℕ_discrete k n) [
  | yes e ↦ subst P (sym e) last
  | no ne ↦ all k (ground arith)
]

-- Of any number of candidate codes, a draw returns one that no order has, and it returns
-- nothing only if every candidate is the code of an order.
pub generate-Drawn :
    (attempts : ℕ) (candidate : ℕ → ℕ) (rows : List (ℕ × Order)) → Drawn attempts candidate rows
unfolding generate_public_order_code
generate-Drawn zero candidate rows = inr (λ k l. absurd (omega arith), refl)
generate-Drawn (suc n) candidate rows = elim (Bool-cases (code_exists (candidate n) rows)) [
  | inr p ↦ inl (n, omega arith, p, rw (p))
  | inl p ↦ elim (generate-Drawn n candidate rows) [
    | inl (k, l, f, e) ↦ inl (k, omega arith, f, rw (p, e))
    | inr (all, e) ↦
        inr (extend_below (λ k. code_exists (candidate k) rows ≡ true) n all p, rw (p, e))
  ]
]

-- The search from locker `n` on for `count` lockers.
Searched : ℕ → ℕ → List ℕ → Type 0
Searched count n taken =
    ((m : ℕ) × (n ≤ m)
      × (m < n + count)
      × (any (λ t. t == m) taken ≡ false)
      × (first_free_locker count n taken ≡ some m))
    ⊎ (((m : ℕ) → n ≤ m → m < n + count → any (λ t. t == m) taken ≡ true)
        × (first_free_locker count n taken ≡ none))

extend_from :
    (P : ℕ → Type 0) (count n : ℕ)
    → ((m : ℕ) → suc n ≤ m → m < suc n + count → P m)
    → P n
    → (m : ℕ) → n ≤ m
    → m < n + suc count
    → P m
extend_from P count n all first m l h = elim (ℕ_discrete m n) [
  | yes e ↦ subst P (sym e) first
  | no ne ↦ all m (ground arith) (ground arith)
]

first_free_locker-Searched : (count n : ℕ) (taken : List ℕ) → Searched count n taken
unfolding Searched first_free_locker
first_free_locker-Searched zero n taken = inr (λ m l h. absurd (omega arith), refl)
first_free_locker-Searched (suc count) n taken = elim (Bool-cases (any (λ t. t == n) taken)) [
  | inr p ↦ inl (n, omega arith, omega arith, p, rw (p))
  | inl p ↦ elim (first_free_locker-Searched count (suc n) taken) [
    | inl (m, l, h, f, e) ↦ inl (m, omega arith, omega arith, f, rw (p, e))
    | inr (all, e) ↦
        inr (extend_from (λ m. any (λ t. t == m) taken ≡ true) count n all p, rw (p, e))
  ]
]

-- The row of another order that waits, ready, in the same store in a locker.
abbrev pub Occupies : Order → ℕ → ℕ × Order → Type 0
Occupies order m (j, o) =
    (o.store.id ≡ order.store.id)
    × (o.status ≡ OrderStatus.ready)
    × (¬ (j ≡ order.id))
    × (o.locker_number ≡ some m)

is_ready-eq : (s : OrderStatus) → is_order_status s OrderStatus.ready ≡ true → s ≡ OrderStatus.ready
is_ready-eq s h = ground arith

-- The rows that count for `active_lockers`.
abbrev waits : Order → ℕ → Order → Bool
waits order j o =
    (o.store.id == order.store.id)
    && (is_order_status o.status OrderStatus.ready && not (j == order.id))

waits_cases :
    (order : Order) (j : ℕ) (o : Order)
    → ((waits order j o ≡ true)
        × (o.store.id ≡ order.store.id)
        × (o.status ≡ OrderStatus.ready)
        × (¬ (j ≡ order.id)))
      ⊎ ((waits order j o ≡ false) × ((m : ℕ) → ¬ Occupies order m (j, o)))
waits_cases order j o = elim (Bool-cases (o.store.id == order.store.id)) [
  | inr p ↦ inr (rw p refl, λ m w. ==→ne o.store.id order.store.id p w.0)
  | inl p ↦ elim (Bool-cases (is_order_status o.status OrderStatus.ready)) [
    | inr q ↦ inr (
      rw (p, q) refl,
      λ m w. let r = ap (λ s. is_order_status s OrderStatus.ready) w.1 in absurd cc,
    )
    | inl q ↦ elim (Bool-cases (j == order.id)) [
      | inl r ↦ inr (rw (p, q, r) refl, λ m w. w.2 (==→eq j order.id r))
      | inr r ↦ inl (
        rw (p, q, r) refl,
        ==→eq o.store.id order.store.id p,
        is_ready-eq o.status q,
        ==→ne j order.id r,
      )
    ]
  ]
]

add_locker_cases :
    (m : ℕ) (l : Option ℕ) (rest : List ℕ)
    → ((l ≡ some m) × (any (λ t. t == m) (add_locker l rest) ≡ true))
      ⊎ ((¬ (l ≡ some m)) × (any (λ t. t == m) (add_locker l rest) ≡ any (λ t. t == m) rest))
add_locker_cases m none rest = inr (λ e. cc, refl)
add_locker_cases m (some n) rest = elim (Bool-cases (n == m)) [
  | inl p ↦ inl (ap some (==→eq n m p), rw p refl)
  | inr p ↦ inr (λ e. ==→ne n m p (cc), rw p refl)
]

-- A locker is taken just where a row occupies it.
abbrev Taken : Order → ℕ → List (ℕ × Order) → Bool → Type 0
Taken order m rows b =
    ((b ≡ true) × Exists (Occupies order m) rows)
    ⊎ ((b ≡ false) × All (λ r. ¬ Occupies order m r) rows)

Occupies-cases :
    (order : Order) (m : ℕ) (rows : List (ℕ × Order))
    → Taken order m rows (any (λ t. t == m) (active_lockers order.store order.id rows))
unfolding active_lockers
Occupies-cases order m [] = inr (refl, tt)
Occupies-cases order m ((j, o) ∷ rows) =
    let rest = active_lockers order.store order.id rows in
    elim (waits_cases order j o) [
      | inr (p, n) ↦ rw p (elim (Occupies-cases order m rows) [
        | inl (b, e) ↦ inl (b, inr e)
        | inr (b, a) ↦ inr (b, (n m, a))
      ])
      | inl (p, s, r, i) ↦ rw p (elim (add_locker_cases m o.locker_number rest) [
        | inl (l, e) ↦ inl (e, inl (s, r, i, l))
        | inr (l, e) ↦ elim (Occupies-cases order m rows) [
          | inl (b, x) ↦ inl (e ∙ b, inr x)
          | inr (b, a) ↦ inr (e ∙ b, (λ w. l w.3, a))
        ]
      ])
    ]

taken_Exists :
    (order : Order) (m : ℕ) (rows : List (ℕ × Order))
    → any (λ t. t == m) (active_lockers order.store order.id rows) ≡ true
    → Exists (Occupies order m) rows
taken_Exists order m rows h = elim (Occupies-cases order m rows) [
  | inl (b, e) ↦ e
  | inr (b, a) ↦ absurd (cc)
]

free_All :
    (order : Order) (m : ℕ) (rows : List (ℕ × Order))
    → any (λ t. t == m) (active_lockers order.store order.id rows) ≡ false
    → All (λ r. ¬ Occupies order m r) rows
free_All order m rows h = elim (Occupies-cases order m rows) [
  | inl (b, e) ↦ absurd (cc)
  | inr (b, a) ↦ a
]

-- An order that has no locker gets one of the lockers 1 to 24. No row of another order that is ready
-- in the same store has that locker, unless such rows have each of the 24.
pub assign_pickup_locker_lem :
    (combo : ℕ) (rows : List (ℕ × Order)) (order : Order)
    → order.locker_number ≡ none
    → (m : ℕ) × ((assign_pickup_locker combo rows order).locker_number ≡ some m)
      × (1 ≤ m)
      × (m ≤ 24)
      × (All (λ r. ¬ Occupies order m r) rows
          ⊎ ((k : ℕ) → 1 ≤ k → k ≤ 24 → Exists (Occupies order k) rows))
unfolding assign_pickup_locker Searched
assign_pickup_locker_lem combo rows order h =
    elim (first_free_locker-Searched 24 1 (active_lockers order.store order.id rows)) [
      | inl (m, l, u, f, e) ↦
          (m, rw (h, e), omega arith, omega arith, inl (free_All order m rows f))
      | inr (all, e) ↦ (
        count_orders order.store rows % 24 + 1,
        rw (h, e),
        omega arith,
        omega arith,
        inr (λ k l u. taken_Exists order k rows (all k l (omega arith))),
      )
    ]
