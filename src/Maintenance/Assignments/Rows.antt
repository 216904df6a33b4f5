-- ===== src/Maintenance/Assignments/Rows.antt =====
-- The table of repair assignments: rows under their own keys, and at most one open assignment for a
-- machine.
use codepop.Base.{
  ==_refl, ==→eq, Bool-cases, List, [], ap, arith, false, if◌then◌else◌, inl, inr, none, refl, some,
  subst, true, ℕ, ◌+◌, ◌==◌, ◌∷◌, ◌≡◌, ◌≤◌, ◌⊎◌,
}
use codepop.Base.Table.{insert, lookup, lookup-insert}
use codepop.Maintenance.Models.{RepairAssignment}
use codepop.Maintenance.Priority.{first_of, get_active_repair_assignment, is_active_for, precedes}

abbrev pub open_one : ℕ → RepairAssignment → ℕ
open_one machine a = if is_active_for machine a then 1 else 0

-- How many open assignments a machine has.
unfoldable pub count_active : ℕ → List (ℕ × RepairAssignment) → ℕ
count_active machine [] = 0
count_active machine ((id, a) ∷ rows) = open_one machine a + count_active machine rows

-- Each row stands under its own key, and no key comes twice.
abbrev pub IsKeyed : List (ℕ × RepairAssignment) → Type 0
IsKeyed [] = Unit
IsKeyed ((id, a) ∷ rows) = (a.id ≡ id) × (lookup id rows ≡ none) × IsKeyed rows

pub record IsTidy (rows : List (ℕ × RepairAssignment)) : Type 0 where
  pub keyed : IsKeyed rows
  pub single : (machine : ℕ) → count_active machine rows ≤ 1

insert-lookup-none :
    (k i : ℕ) (a : RepairAssignment) (rows : List (ℕ × RepairAssignment))
    → lookup i rows ≡ none
    → (k == i) ≡ false
    → lookup i (insert k a rows) ≡ none
insert-lookup-none k i a rows h p = rw (lookup-insert, p) h

pub insert-IsKeyed :
    (a : RepairAssignment) (rows : List (ℕ × RepairAssignment))
    → IsKeyed rows
    → IsKeyed (insert a.id a rows)
unfolding insert
insert-IsKeyed a [] h = (refl, unfold lookup in refl, tt)
insert-IsKeyed a ((j, b) ∷ rows) h = elim (Bool-cases (j == a.id)) [
  | inl p ↦ rw p (refl, subst (λ x. lookup x rows ≡ none) (==→eq j a.id p) h.1, h.2)
  | inr p ↦
      rw p (h.0, insert-lookup-none a.id j a rows h.1 (ground arith), insert-IsKeyed a rows h.2)
]

pub count_active-insert_new :
    (machine k : ℕ) (a : RepairAssignment) (rows : List (ℕ × RepairAssignment))
    → lookup k rows ≡ none
    → count_active machine (insert k a rows) ≡ open_one machine a + count_active machine rows
unfolding count_active insert lookup
count_active-insert_new machine k a [] h = refl
count_active-insert_new machine k a ((j, b) ∷ rows) h = elim (Bool-cases (j == k)) [
  | inl p ↦ absurd (cc (rw p at h))
  | inr p ↦ rw p (omega (arith, count_active-insert_new machine k a rows (rw p at h)))
]

pub count_active-insert_old :
    (machine k : ℕ) (a old : RepairAssignment) (rows : List (ℕ × RepairAssignment))
    → lookup k rows ≡ some old
    → count_active machine (insert k a rows) + open_one machine old
      ≡ open_one machine a + count_active machine rows
unfolding count_active insert lookup
count_active-insert_old machine k a old [] h = absurd (cc)
count_active-insert_old machine k a old ((j, b) ∷ rows) h = elim (Bool-cases (j == k)) [
  | inl p ↦
      let e : b ≡ old = cc (rw p at h) in
      rw (p, if◌then◌else◌) (omega (arith, ap (open_one machine) e))
  | inr p ↦
      rw (p, if◌then◌else◌)
        (omega (arith, count_active-insert_old machine k a old rows (rw p at h)))
]

lookup-skip :
    (k id : ℕ) (a b : RepairAssignment) (rows : List (ℕ × RepairAssignment))
    → lookup id rows ≡ none
    → lookup k rows ≡ some b
    → lookup k ((id, a) ∷ rows) ≡ some b
unfolding lookup
lookup-skip k id a b rows h e = elim (Bool-cases (id == k)) [
  | inl p ↦ absurd (cc (subst (λ x. lookup x rows ≡ none) (==→eq id k p) h, e))
  | inr p ↦ rw p e
]

lookup-head :
    (id : ℕ) (a : RepairAssignment) (rows : List (ℕ × RepairAssignment))
    → a.id ≡ id
    → lookup a.id ((id, a) ∷ rows) ≡ some a
unfolding lookup
lookup-head id a rows e = rw (e, ==_refl) refl

first_of-cases :
    (a b : RepairAssignment) → (first_of a (some b) ≡ some a) ⊎ (first_of a (some b) ≡ some b)
first_of-cases a b = elim (Bool-cases (precedes b a)) [
  | inl p ↦ inr (rw p refl)
  | inr p ↦ inl (rw p refl)
]

-- The assignment that is found is open, and stands in the table; where none is found, none is open.
pub active_cases :
    (machine : ℕ) (rows : List (ℕ × RepairAssignment))
    → IsKeyed rows
    → ((a : RepairAssignment) × (get_active_repair_assignment machine rows ≡ some a)
        × (is_active_for machine a ≡ true)
        × (lookup a.id rows ≡ some a))
      ⊎ ((get_active_repair_assignment machine rows ≡ none) × (count_active machine rows ≡ 0))
unfolding get_active_repair_assignment count_active
active_cases machine [] h = inr (refl, refl)
active_cases machine ((id, a) ∷ rows) h = elim (Bool-cases (is_active_for machine a)) [
  | inl p ↦ elim (active_cases machine rows h.2) [
    | inl (b, e, q, f) ↦ elim (first_of-cases a b) [
      | inl w ↦ inl (a, rw (p, e) w, p, lookup-head id a rows h.0)
      | inr w ↦ inl (b, rw (p, e) w, q, lookup-skip b.id id a b rows h.1 f)
    ]
    | inr (e, z) ↦ inl (a, rw (p, e) refl, p, lookup-head id a rows h.0)
  ]
  | inr p ↦ elim (active_cases machine rows h.2) [
    | inl (b, e, q, f) ↦ inl (b, rw p e, q, lookup-skip b.id id a b rows h.1 f)
    | inr (e, z) ↦ inr (rw p e, rw (p, if◌then◌else◌) (omega (arith, z)))
  ]
]
