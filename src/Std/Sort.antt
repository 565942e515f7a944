-- ===== src/Std/Sort.antt =====
-- The stable `sort_by_key` and `sort_by` of slices, which crates/ktsense-core calls, as insertion from
-- the end: equal items keep their order. The order is a test that says when one may stand before another.
use mathlib.Core.List.{Perm}
use mathlib.Core.List.Perm
use ktsense.Prelude.{
  suc, ◌≡◌, refl, Bool, true, false, Bool-cases, inl, inr, List, [], ◌∷◌, arith, if◌then◌else◌,
  length, All,
}

module _ {ℓ} {A : Type ℓ} (before : A → A → Bool) where
  unfoldable pub insert_by : A → List A → List A
  insert_by x [] = x ∷ []
  insert_by x (y ∷ ys) = let rest = insert_by x ys in if before x y then x ∷ y ∷ ys else y ∷ rest

  unfoldable pub sort_by : List A → List A
  unfolding insert_by
  sort_by [] = []
  sort_by (x ∷ xs) = insert_by x (sort_by xs)

  -- Neighbours are in order.
  abbrev pub Ordered : List A → Type 0
  Ordered [] = Unit
  Ordered (x ∷ []) = Unit
  Ordered (x ∷ y ∷ ys) = (before x y ≡ true) × Ordered (y ∷ ys)

  insert_by-perm : (x : A) (ys : List A) → Perm (insert_by x ys) (x ∷ ys)
  unfolding insert_by
  insert_by-perm x [] = Perm.rfl
  insert_by-perm x (y ∷ ys) = elim (Bool-cases (before x y)) [
    | inl first ↦ rw first Perm.rfl
    | inr later ↦ rw later (Perm.trans (Perm.cons y (insert_by-perm x ys)) (Perm.swap x y ys))
  ]

  pub sort_by-perm : (xs : List A) → Perm (sort_by xs) xs
  unfolding sort_by
  sort_by-perm [] = Perm.rfl
  sort_by-perm (x ∷ xs) = Perm.trans (insert_by-perm x (sort_by xs)) (Perm.cons x (sort_by-perm xs))

  length-insert_by : (x : A) (ys : List A) → length (insert_by x ys) ≡ suc (length ys)
  unfolding insert_by
  length-insert_by x [] = refl
  length-insert_by x (y ∷ ys) = ground (arith, length-insert_by x ys)

  pub length-sort_by : (xs : List A) → length (sort_by xs) ≡ length xs
  unfolding sort_by
  length-sort_by [] = refl
  length-sort_by (x ∷ xs) = omega (arith, length-insert_by x (sort_by xs), length-sort_by xs)

  module _ (total : (x y : A) → before x y ≡ false → before y x ≡ true) where
    insert_by-Ordered : (x : A) (ys : List A) → Ordered ys → Ordered (insert_by x ys)
    unfolding insert_by
    insert_by-Ordered x [] o = tt
    insert_by-Ordered x (y ∷ []) o = ground (arith, total x y)
    insert_by-Ordered x (y ∷ z ∷ zs) o = ground (arith, total x y, insert_by-Ordered x (z ∷ zs) o.1)

    pub sort_by-Ordered : (xs : List A) → Ordered (sort_by xs)
    unfolding sort_by
    sort_by-Ordered [] = tt
    sort_by-Ordered (x ∷ xs) = insert_by-Ordered x (sort_by xs) (sort_by-Ordered xs)

  module _ {κ} (P : A → Type κ) where
    insert_by-All : (x : A) (ys : List A) → P x → All P ys → All P (insert_by x ys)
    unfolding insert_by
    insert_by-All x [] p h = (p, tt)
    insert_by-All x (y ∷ ys) p h = elim (Bool-cases (before x y)) [
      | inl first ↦ rw first (p, h)
      | inr later ↦ rw later (h.0, insert_by-All x ys p h.1)
    ]

    pub sort_by-All : (xs : List A) → All P xs → All P (sort_by xs)
    unfolding sort_by
    sort_by-All [] h = tt
    sort_by-All (x ∷ xs) h = insert_by-All x (sort_by xs) h.0 (sort_by-All xs h.1)
