-- ===== src/Inventory/Balance/Loops.antt =====
-- A loop of movements of one store's stock, from what one round does.
use codepop.Base.{
  ==_refl, All, List, [], arith, if◌then◌else◌, inl, inr, refl, ℕ, ◌==◌, ◌∙◌, ◌∷◌, ◌≡◌, ◌⊎◌,
}
use codepop.Base.Exec.{err, for_each, ok}
use codepop.Base.Int.{+ℤ_zero, int_laws, neg, pos, ℤ, ◌+ℤ◌, ◌≤ℤ◌}
use codepop.Db.{Call, Db}
use codepop.Errors.{Error}
use codepop.Inventory.Balance.Shelf.{IsSound, Moved, Moved-eq, Moved-trans, Moved-zero, shelf}
use codepop.Inventory.Models.{InventoryItem}

-- The stock of one store changes, by an amount for each item.
abbrev pub in_store : ℕ → (ℕ → ℤ) → ℕ → ℕ → ℤ
in_store store f s i = if store == s then f i else pos 0

-- What is wanted is on hand and not reserved.
abbrev pub Fits : ℕ → (ℕ → ℤ) → Db → Type 0
Fits store need db =
    (i : ℕ) → (shelf db store i).reserved_quantity +ℤ need i ≤ℤ (shelf db store i).on_hand_quantity

-- A call takes `need` from the store, or raises because a SKU is unknown or the stock too small.
abbrev pub Takes : ℕ → Type 0 → (ℕ → ℤ) → Call (Unit {0}) → Db → Type 0
Takes store known need call db =
    (known
      × ((db' : Db) × (call db ≡ (ok tt, db')) × Moved (in_store store (λ i. neg (need i))) db db'))
    ⊎ ((¬ (known × Fits store need db)) × ((e : Error) × (db' : Db) × (call db ≡ (err e, db'))))

in_store_add :
    (store : ℕ) (a b : ℤ) (s : ℕ)
    → (if store == s then a else pos 0) +ℤ (if store == s then b else pos 0)
      ≡ (if store == s then a +ℤ b else pos 0)
in_store_add store a b s = ground (arith, +ℤ_zero (pos 0))

neg_add : (a b : ℤ) → neg a +ℤ neg b ≡ neg (a +ℤ b)
neg_add a b = omega int_laws

in_store_neg :
    (store : ℕ) (a b : ℤ) (s : ℕ)
    → (if store == s then neg a else pos 0) +ℤ (if store == s then neg b else pos 0)
      ≡ (if store == s then neg (a +ℤ b) else pos 0)
in_store_neg store a b s = in_store_add store (neg a) (neg b) s ∙ rw (neg_add a b)

pub neg-zero : (store s : ℕ) → pos 0 ≡ (if store == s then neg (pos 0) else pos 0)
unfolding neg
neg-zero store s = ground arith

-- The sum of what the members of a list need.
abbrev pub total {ℓ} : {X : Type ℓ} → (X → ℕ → ℤ) → List X → ℕ → ℤ
total need [] i = pos 0
total need (x ∷ xs) i = need x i +ℤ total need xs i

module _ {X : Type 0} (need : X → ℕ → ℤ) (nonneg : (x : X) (i : ℕ) → pos 0 ≤ℤ need x i) where
  pub total_nonneg : (xs : List X) (i : ℕ) → pos 0 ≤ℤ total need xs i
  total_nonneg [] i = omega arith
  total_nonneg (x ∷ xs) i = omega (int_laws, nonneg x i, total_nonneg xs i)

  module _ (store : ℕ) (items : List (ℕ × InventoryItem)) (known : X → Type 0)
      (body : X → Call (Unit {0}))
      (step : (x : X) (db : Db)
        → IsSound db
        → db.items ≡ items
        → Takes store (known x) (need x) (body x) db) where
    Fits-head :
        (x : X) (xs : List X) (db : Db)
        → Fits store (total need (x ∷ xs)) db
        → Fits store (need x) db
    Fits-head x xs db f i = omega (int_laws, f i, total_nonneg xs i)

    Fits-tail :
        (x : X) (xs : List X) (db db' : Db)
        → Moved (in_store store (λ i. neg (need x i))) db db'
        → Fits store (total need (x ∷ xs)) db
        → Fits store (total need xs) db'
    Fits-tail x xs db db' m f i =
        rw (m.reserved store i, m.on_hand store i, ==_refl store) (omega (int_laws, f i))

    pub for_each-Takes :
        (xs : List X) (db : Db)
        → IsSound db
        → db.items ≡ items
        → Takes store (All known xs) (total need xs) (for_each body xs) db
    for_each-Takes [] db h e =
        inl (tt, (db, refl, Moved-eq (Moved-zero db h) (λ s i. neg-zero store s)))
    for_each-Takes (x ∷ xs) db h e = elim (step x db h e) [
      | inl t ↦
          let (k, u) = t in
          let (db1, done, m) = u in
          elim (for_each-Takes xs db1 m.sound (m.frame.items ∙ e)) [
            | inl t' ↦
                let (ks, u') = t' in
                let (db2, rest, n) = u' in
                inl (
                  (k, ks),
                  (
                    db2,
                    rw done rest,
                    Moved-eq (Moved-trans m n)
                        (λ s i. in_store_neg store (need x i) (total need xs i) s),
                  ),
                )
            | inr t' ↦
                let (short, u') = t' in
                let (er, db2, rest) = u' in
                inr (λ w. short (w.0.1, Fits-tail x xs db db1 m w.1), (er, db2, rw done rest))
          ]
      | inr t ↦
          let (short, u) = t in
          let (er, db1, stop) = u in
          inr (λ w. short (w.0.0, Fits-head x xs db w.1), (er, db1, rw stop))
    ]

-- A call puts `back` on the shelves of the store.
abbrev pub Returns : ℕ → (ℕ → ℤ) → Call (Unit {0}) → Db → Type 0
Returns store back call db =
    (db' : Db) × (call db ≡ (ok tt, db')) × Moved (in_store store back) db db'

module _ {X : Type 0} (back : X → ℕ → ℤ) (store : ℕ) (items : List (ℕ × InventoryItem))
    (known : X → Type 0) (body : X → Call (Unit {0}))
    (step : (x : X) (db : Db)
      → IsSound db
      → db.items ≡ items
      → known x
      → Returns store (back x) (body x) db) where
  pub for_each-Returns :
      (xs : List X) (db : Db)
      → IsSound db
      → db.items ≡ items
      → All known xs
      → Returns store (total back xs) (for_each body xs) db
  for_each-Returns [] db h e k = (db, refl, Moved-eq (Moved-zero db h) (λ s i. ground arith))
  for_each-Returns (x ∷ xs) db h e k =
      let (db1, done, m) = step x db h e k.0 in
      let (db2, rest, n) = for_each-Returns xs db1 m.sound (m.frame.items ∙ e) k.1 in
      (
        db2,
        rw done rest,
        Moved-eq (Moved-trans m n) (λ s i. in_store_add store (back x i) (total back xs i) s),
      )
