-- ===== src/Std/Find.antt =====
-- What the first occurrence of a needle says of a text, and of a longer text.

use ktsense.Prelude.{
  ℕ, suc, ◌+◌, ◌-◌, ◌≤◌, ◌≡◌, ◌≢◌, ◌⊎◌, refl, ap, true, false, some, [], ◌∷◌, ◌++◌, arith, Bytes,
  All, length, take, drop, starts_with, starts_with-append, find_subslice, starts_with-split,
  Bool-cases, inl, inr, Option-cases,
}

-- A needle whose first byte does not occur in `h` is found right behind `h`.
pub find_subslice-append :
    (a : ℕ) (n h t : Bytes)
    → All (λ c. c ≢ a) h
    → find_subslice (h ++ ((a ∷ n) ++ t)) (a ∷ n) ≡ some (length h)
unfolding find_subslice
find_subslice-append a n [] t lacks = ground (arith, starts_with-append (a ∷ n) t)
find_subslice-append a n (c ∷ h) t lacks = ground (arith, find_subslice-append a n h t)

-- The two ways in which a needle is found in a text that is not empty.
find_subslice-cons :
    (c : ℕ) (s n : Bytes) (k : ℕ)
    → find_subslice (c ∷ s) n ≡ some k
    → ((starts_with (c ∷ s) n ≡ true) × (k ≡ 0))
      ⊎ ((starts_with (c ∷ s) n ≡ false) × (k ≡ suc (k - 1)) × (find_subslice s n ≡ some (k - 1)))
unfolding find_subslice
find_subslice-cons c s n k e = elim (Bool-cases (starts_with (c ∷ s) n)) [
  | inl here ↦ inl (here, ground arith)
  | inr later ↦ elim (Option-cases (find_subslice s n)) [
    | inl none_there ↦ ground arith
    | inr (j, there) ↦
        let e1 : k ≡ suc j = ground arith in inr (later, omega arith, rw e1 (ground arith))
  ]
]

starts_with-le : (s n : Bytes) → starts_with s n ≡ true → length n ≤ length s
unfolding starts_with
starts_with-le s [] h = omega arith
starts_with-le [] (p ∷ n) h = cc
starts_with-le (c ∷ s) (p ∷ n) h = ground (arith, starts_with-le s n)

-- The text around the place that is found.
pub find_subslice-split :
    (s n : Bytes) (k : ℕ)
    → find_subslice s n ≡ some k
    → s ≡ take k s ++ (n ++ drop (length n) (drop k s))
unfolding find_subslice
find_subslice-split [] [] k e = ground arith
find_subslice-split [] (p ∷ n) k e = ground arith
find_subslice-split (c ∷ s) n k e = elim (find_subslice-cons c s n k e) [
  | inl (here, first) ↦ rw first (starts_with-split (c ∷ s) n here)
  | inr (_, next, there) ↦ rw next (ap (λ l. c ∷ l) (find_subslice-split s n (k - 1) there))
]

pub find_subslice-le : (s n : Bytes) (k : ℕ) → find_subslice s n ≡ some k → k + length n ≤ length s
unfolding find_subslice
find_subslice-le [] [] k e = ground arith
find_subslice-le [] (p ∷ n) k e = ground arith
find_subslice-le (c ∷ s) n k e = elim (find_subslice-cons c s n k e) [
  | inl (here, first) ↦ omega (arith, starts_with-le (c ∷ s) n here)
  | inr (_, next, there) ↦ omega (arith, find_subslice-le s n (k - 1) there)
]

starts_with-append_le :
    (s n t : Bytes) → length n ≤ length s → starts_with (s ++ t) n ≡ starts_with s n
unfolding starts_with
starts_with-append_le s [] t h = refl
starts_with-append_le [] (p ∷ n) t h = absurd (omega arith)
starts_with-append_le (c ∷ s) (p ∷ n) t h = ground (arith, starts_with-append_le s n t)

-- More text behind does not move the first occurrence.
pub find_subslice_mono :
    (s n t : Bytes) (k : ℕ) → find_subslice s n ≡ some k → find_subslice (s ++ t) n ≡ some k
unfolding find_subslice
find_subslice_mono [] [] [] k e = e
find_subslice_mono [] [] (b ∷ t) k e = ground arith
find_subslice_mono [] (p ∷ n) t k e = ground arith
find_subslice_mono (c ∷ s) n t k e =
    let same = starts_with-append_le (c ∷ s) n t (omega (arith, find_subslice-le (c ∷ s) n k e)) in
    elim (find_subslice-cons c s n k e) [
      | inl (here, first) ↦ ground arith
      | inr (later, next, there) ↦ ground (arith, find_subslice_mono s n t (k - 1) there)
    ]
