-- ===== src/Maintenance/Assignments/Tidy.antt =====
-- A repair assignment that is saved: machines keep one open assignment at most.
use codepop.Base.{
  ==_refl, ==→eq, Bool-cases, List, arith, inl, inr, none, refl, some, subst, ℕ, ◌+◌, ◌==◌, ◌≡◌,
  ◌≤◌,
}
use codepop.Base.Table.{insert, lookup, lookup-insert}
use codepop.Maintenance.Assignments.Rows.{
  IsTidy, count_active, count_active-insert_new, count_active-insert_old, insert-IsKeyed, open_one,
}
use codepop.Maintenance.Models.{RepairAssignment}
use codepop.Maintenance.Priority.{is_active_for}

pub lookup-inserted :
    (a : RepairAssignment) (rows : List (ℕ × RepairAssignment))
    → lookup a.id (insert a.id a rows) ≡ some a
lookup-inserted a rows = rw (lookup-insert, ==_refl) refl

open_one-new :
    (m : ℕ) (a : RepairAssignment) (rows : List (ℕ × RepairAssignment))
    → count_active a.machine rows ≡ 0
    → count_active m rows ≤ 1
    → open_one m a + count_active m rows ≤ 1
open_one-new m a rows z t = elim (Bool-cases (a.machine == m)) [
  | inl p ↦
      let z' : count_active m rows ≡ 0 =
        subst (λ x. count_active x rows ≡ 0) (==→eq a.machine m p) z in
      elim (Bool-cases (is_active_for m a)) [
        | inl q ↦ rw q (omega (arith, z'))
        | inr q ↦ rw q (omega (arith, z'))
      ]
  | inr p ↦ rw p (omega (arith, t))
]

-- An open assignment for nobody else's machine is added where there was none.
pub new_repair-IsTidy :
    (a : RepairAssignment) (k : ℕ) (rows : List (ℕ × RepairAssignment))
    → a.id ≡ k
    → lookup k rows ≡ none
    → count_active a.machine rows ≡ 0
    → IsTidy rows
    → IsTidy (insert a.id a rows)
new_repair-IsTidy a k rows e f z t = record {
  keyed = insert-IsKeyed a rows t.keyed;
  single = λ m.
      rw (count_active-insert_new m a.id a rows (rw e f)) (open_one-new m a rows z (t.single m));
}

-- Nothing but the score, the route and the time of an assignment changes.
pub saved_repair-IsTidy :
    (a b : RepairAssignment) (rows : List (ℕ × RepairAssignment))
    → b.id ≡ a.id
    → ((m : ℕ) → open_one m b ≤ open_one m a)
    → lookup a.id rows ≡ some a
    → IsTidy rows
    → IsTidy (insert b.id b rows)
saved_repair-IsTidy a b rows e c f t = record {
  keyed = insert-IsKeyed b rows t.keyed;
  single = λ m. omega (arith, c m, t.single m, count_active-insert_old m b.id b a rows (rw e f));
}
