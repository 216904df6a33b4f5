-- ===== src/Base/Exec.antt =====
-- Service calls. A call reads and writes the tables and may raise; what was written before a raise
-- stays written unless the call is atomic.
use codepop.Base.Defs.{if◌then◌else◌}
use mathlib.Core.Path.{◌≡◌}
use mathlib.Core.Bool.{Bool}
use mathlib.Core.Option.{Option, none, some}
use mathlib.Core.List.{List, [], ◌∷◌}

pub data Result (E A : Type 0) : Type 0 where
  ok : A → Result E A
  err : E → Result E A

abbrev pub Exec : Type 0 → Type 0 → Type 0 → Type 0
Exec S E A = S → Result E A × S

module _ {S E A : Type 0} where
  abbrev pub pure : A → Exec S E A
  pure a s = (ok a, s)

  abbrev pub raise : E → Exec S E A
  raise e s = (err e, s)

  abbrev pub gets : (S → A) → Exec S E A
  gets f s = (ok (f s), s)

  abbrev pub or_raise : Option A → E → Exec S E A
  or_raise none e s = (err e, s)
  or_raise (some a) e s = (ok a, s)

  abbrev pub lift : Result E A → Exec S E A
  lift r s = (r, s)

  -- `@transaction.atomic`: a raise rolls back every write of the call.
  abbrev pub rollback : S → Result E A × S → Result E A × S
  rollback s (ok a, s') = (ok a, s')
  rollback s (err e, s') = (err e, s)

  abbrev pub atomic : Exec S E A → Exec S E A
  atomic m s = rollback s (m s)

-- `try: m` with a handler of what it raises, which runs on the tables that `m` left.
module _ {S E A : Type 0} where
  abbrev pub handle : Result E A × S → (E → Exec S E A) → Result E A × S
  handle (ok a, s) f = (ok a, s)
  handle (err e, s) f = f e s

  abbrev pub catch : Exec S E A → (E → Exec S E A) → Exec S E A
  catch m f s = handle (m s) f

module _ {S E : Type 0} where
  abbrev pub modify : (S → S) → Exec S E (Unit {0})
  modify f s = (ok tt, f s)

  -- `if test: raise e`
  abbrev pub raise_if : Bool → E → Exec S E (Unit {0})
  raise_if b e s = (if b then err e else ok tt, s)

module _ {S E A B : Type 0} where
  abbrev pub next : Result E A × S → (A → Exec S E B) → Result E B × S
  next (ok a, s) f = f a s
  next (err e, s) f = (err e, s)

  infixl 5 ◌>>=◌ ◌>>◌
  abbrev pub ◌>>=◌ : Exec S E A → (A → Exec S E B) → Exec S E B
  ◌>>=◌ m f s = next (m s) f

  abbrev pub ◌>>◌ : Exec S E A → Exec S E B → Exec S E B
  ◌>>◌ m f s = next (m s) (λ _. f)

module _ {S E X : Type 0} where
  -- `for x in xs: body(x)`
  abbrev pub for_each : (X → Exec S E (Unit {0})) → List X → Exec S E (Unit {0})
  for_each body [] s = (ok tt, s)
  for_each body (x ∷ xs) s = next (body x s) (λ _. for_each body xs)

-- A call that returns, with what holds of its result and of the tables it leaves.
abbrev pub ReturnsWith : {S E A : Type 0} → Result E A × S → (A → S → Type 0) → Type 0
ReturnsWith {S} {A} p Q = (a : A) × (s : S) × (p ≡ (ok a, s)) × Q a s

-- A call that raises has not returned.
pub err-ne-ok :
    {S E A : Type 0} {e : E} {a : A} (p : Result E A × S) (s : S) → p ≡ (err e, s) → p.0 ≡ ok a → ⊥
err-ne-ok p s q h = cc
