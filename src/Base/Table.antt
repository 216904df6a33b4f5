-- ===== src/Base/Table.antt =====
-- Database tables as association lists: rows under one key, and rows under a pair of keys.
use codepop.Base.Defs.{◌==◌, if◌then◌else◌}
use Prim.Native.Nat.{ℕ}
use mathlib.Core.Path.{◌≡◌, refl}
use mathlib.Core.Bool.{◌&&◌}
use mathlib.Core.Option.{Option, none, some}
use mathlib.Core.List.{List, [], ◌∷◌}
use native.Mathlib.Omega.{arith}

module _ {V : Type 0} where
  -- `objects.filter(pk=k).first()`
  unfoldable pub lookup : ℕ → List (ℕ × V) → Option V
  lookup k [] = none
  lookup k ((j, v) ∷ t) = if j == k then some v else lookup k t

  -- `row.save()`, or a created row.
  unfoldable pub insert : ℕ → V → List (ℕ × V) → List (ℕ × V)
  insert k v [] = (k, v) ∷ []
  insert k v ((j, w) ∷ t) = if j == k then (k, v) ∷ t else (j, w) ∷ insert k v t

  pub lookup-insert :
      (k j : ℕ) (v : V) (t : List (ℕ × V))
      → lookup j (insert k v t) ≡ (if k == j then some v else lookup j t)
  unfolding lookup insert
  lookup-insert k j v [] = refl
  lookup-insert k j v ((i, w) ∷ t) = ground (arith, lookup-insert k j v t)

  -- The row of a pair of foreign keys that are unique together.
  unfoldable pub lookup2 : ℕ → ℕ → List (ℕ × ℕ × V) → Option V
  lookup2 a b [] = none
  lookup2 a b ((i, j, v) ∷ t) = if (i == a) && (j == b) then some v else lookup2 a b t

  unfoldable pub insert2 : ℕ → ℕ → V → List (ℕ × ℕ × V) → List (ℕ × ℕ × V)
  insert2 a b v [] = (a, b, v) ∷ []
  insert2 a b v ((i, j, w) ∷ t) =
      if (i == a) && (j == b) then (a, b, v) ∷ t else (i, j, w) ∷ insert2 a b v t

  pub lookup-insert2 :
      (a b c d : ℕ) (v : V) (t : List (ℕ × ℕ × V))
      → lookup2 c d (insert2 a b v t) ≡ (if (a == c) && (b == d) then some v else lookup2 c d t)
  unfolding lookup2 insert2
  lookup-insert2 a b c d v [] = refl
  lookup-insert2 a b c d v ((i, j, w) ∷ t) = ground (arith, lookup-insert2 a b c d v t)

pub ruleset table_laws = (lookup-insert, lookup-insert2)
