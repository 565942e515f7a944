-- ===== src/Core/Graph/Search.antt =====
-- Finding an index in a sorted adjacency: the `binary_search` of `Graph::contains_edge` in
-- crates/ktsense-core/src/rank.rs.
use native.Mathlib.Decide.{dec_lt}
use ktsense.Prelude.{
  ℕ, zero, suc, ◌+◌, ◌-◌, ◌/◌, ◌<◌, ◌≤◌, ◌≡◌, refl, ap, sym, ◌∙◌, Bool, true, false, ◌||◌,
  Bool-cases, inl, inr, List, [], ◌∷◌, arith, ltb, leb, ◌==◌, length, get_or, All, All-mono,
}
use ktsense.Std.Sort.{Ordered}
use ktsense.Core.Graph.{dedup_indices, search_window, binary_search}

-- The index is in the list, wherever it stands.
unfoldable pub has_index : ℕ → List ℕ → Bool
has_index i [] = false
has_index i (x ∷ xs) = x == i || has_index i xs

-- No item is behind a greater one.
abbrev pub Sorted : List ℕ → Type 0
Sorted [] = Unit
Sorted (x ∷ xs) = All (λ y. x ≤ y) xs × Sorted xs

Ordered-least : (x : ℕ) (xs : List ℕ) → Ordered leb (x ∷ xs) → All (λ y. x ≤ y) xs
Ordered-least x [] o = tt
Ordered-least x (y ∷ ys) o =
    let first : x ≤ y = ground (arith, o.0) in
    (first, All-mono (λ z. y ≤ z) (λ z. x ≤ z) (λ z h. omega arith) ys (Ordered-least y ys o.1))

pub Ordered-Sorted : (xs : List ℕ) → Ordered leb xs → Sorted xs
Ordered-Sorted [] o = tt
Ordered-Sorted (x ∷ []) o = (tt, tt)
Ordered-Sorted (x ∷ y ∷ ys) o = (Ordered-least x (y ∷ ys) o, Ordered-Sorted (y ∷ ys) o.1)

dedup_indices-All : (P : ℕ → Type 0) (xs : List ℕ) → All P xs → All P (dedup_indices xs)
unfolding dedup_indices
dedup_indices-All P [] h = tt
dedup_indices-All P (x ∷ []) h = h
dedup_indices-All P (x ∷ y ∷ ys) h =
    let rest = dedup_indices-All P (y ∷ ys) h.1 in
    elim (Bool-cases (x == y)) [ inl twice ↦ rw twice rest | inr once ↦ rw once (h.0, rest) ]

pub dedup_indices-Sorted : (xs : List ℕ) → Sorted xs → Sorted (dedup_indices xs)
unfolding dedup_indices
dedup_indices-Sorted [] h = tt
dedup_indices-Sorted (x ∷ []) h = h
dedup_indices-Sorted (x ∷ y ∷ ys) h =
    let rest = dedup_indices-Sorted (y ∷ ys) h.1 in
    elim (Bool-cases (x == y)) [
      | inl twice ↦ rw twice rest
      | inr once ↦ rw once (dedup_indices-All (λ z. x ≤ z) (y ∷ ys) h.0, rest)
    ]

All-get_or : (P : ℕ → Type 0) (xs : List ℕ) (k : ℕ) → All P xs → k < length xs → P (get_or xs k 0)
All-get_or P [] k h l = absurd (omega arith)
All-get_or P (x ∷ xs) zero h l = h.0
All-get_or P (x ∷ xs) (suc k) h l = All-get_or P xs k h.1 (omega arith)

Sorted-get_or :
    (xs : List ℕ) (a b : ℕ) → Sorted xs → a ≤ b → b < length xs → get_or xs a 0 ≤ get_or xs b 0
Sorted-get_or [] a b s h l = absurd (omega arith)
Sorted-get_or (x ∷ xs) zero zero s h l = omega arith
Sorted-get_or (x ∷ xs) zero (suc b) s h l = All-get_or (λ y. x ≤ y) xs b s.0 (omega arith)
Sorted-get_or (x ∷ xs) (suc a) zero s h l = absurd (omega arith)
Sorted-get_or (x ∷ xs) (suc a) (suc b) s h l = Sorted-get_or xs a b s.1 (omega arith) (omega arith)

has_index-at : (xs : List ℕ) (k j : ℕ) → k < length xs → get_or xs k 0 ≡ j → has_index j xs ≡ true
unfolding has_index
has_index-at [] k j l e = absurd (omega arith)
has_index-at (x ∷ xs) zero j l e = ground (arith, e)
has_index-at (x ∷ xs) (suc k) j l e = ground (arith, has_index-at xs k j (omega arith) e)

has_index-place :
    (xs : List ℕ) (j : ℕ)
    → has_index j xs ≡ true
    → (k : ℕ) × ((k < length xs) × (get_or xs k 0 ≡ j))
unfolding has_index
has_index-place [] j h = cc
has_index-place (x ∷ xs) j h = elim (Bool-cases (x == j)) [
  | inl here ↦ (0, (omega arith, ground arith))
  | inr away ↦ let (k, (l, e)) = has_index-place xs j (rw away at h) in (suc k, (omega arith, e))
]

-- A window that finds the index holds it.
search_window_sound :
    (fuel : ℕ) (xs : List ℕ) (j base size : ℕ)
    → 1 ≤ size
    → base + size ≤ length xs
    → search_window fuel xs j base size ≡ true
    → has_index j xs ≡ true
unfolding search_window
search_window_sound zero xs j base size one within h = cc
search_window_sound (suc fuel) xs j base size one within h = elim (Bool-cases (leb size 1)) [
  | inl last ↦ has_index-at xs base j (omega arith) (ground arith)
  | inr more ↦ elim (Bool-cases (ltb j (get_or xs (base + size / 2) 0))) [
    | inl greater ↦
        search_window_sound fuel xs j base (size - size / 2) (ground arith) (ground arith)
          (rw (more, greater) at h)
    | inr less ↦
        search_window_sound fuel xs j (base + size / 2) (size - size / 2) (ground arith)
          (ground arith) (rw (more, less) at h)
  ]
]

-- A window of a sorted list that holds the index finds it.
search_window_complete :
    (fuel : ℕ) (xs : List ℕ) (j base size k : ℕ)
    → Sorted xs
    → size ≤ fuel
    → base + size ≤ length xs
    → base ≤ k
    → k < base + size
    → get_or xs k 0 ≡ j
    → search_window fuel xs j base size ≡ true
unfolding search_window
search_window_complete zero xs j base size k s enough within low high e = absurd (omega arith)
search_window_complete (suc fuel) xs j base size k s enough within low high e =
    let half = size / 2 in
    let middle = base + half in
    elim (Bool-cases (leb size 1)) [
      | inl last ↦
          let here : k ≡ base = ground arith in
          rw last (ground (arith, ap (λ i. get_or xs i 0) here))
      | inr more ↦ elim (Bool-cases (ltb j (get_or xs middle 0))) [
        | inl greater ↦
            let before : k < middle = elim (dec_lt k middle) [
              | yes lower ↦ lower
              | no upper ↦
                  absurd (ground (arith, Sorted-get_or xs middle k s (omega arith) (omega arith)))
            ] in
            rw (more, greater)
              (search_window_complete fuel xs j base (size - half) k s (ground arith) (ground arith)
                low (ground arith) e)
        | inr less ↦
            rw (more, less)
              (elim (dec_lt k middle) [
                | yes lower ↦
                    let up = Sorted-get_or xs k middle s (omega arith) (ground arith) in
                    search_window_complete fuel xs j middle (size - half) middle s (ground arith)
                      (ground arith) (omega arith) (ground arith) (ground arith)
                | no upper ↦
                    search_window_complete fuel xs j middle (size - half) k s (ground arith)
                      (ground arith) (omega arith) (ground arith) e
              ])
      ]
    ]

-- On a sorted list the search finds exactly the indices that are there.
pub binary_search-has_index :
    (xs : List ℕ) (j : ℕ) → Sorted xs → binary_search xs j ≡ has_index j xs
unfolding binary_search
binary_search-has_index [] j s = unfold has_index in refl
binary_search-has_index (x ∷ xs) j s =
    let all = x ∷ xs in
    elim (Bool-cases (has_index j all)) [
      | inl there ↦
          let (k, (l, e)) = has_index-place all j there in
          search_window_complete (length all) all j 0 (length all) k s (omega arith) (omega arith)
            (omega arith) (omega arith) e
          ∙ sym there
      | inr missing ↦ elim (Bool-cases (binary_search all j)) [
        | inl found ↦
            let there =
              search_window_sound (length all) all j 0 (length all) (omega arith) (omega arith)
                found in
            found ∙ sym there
        | inr lost ↦ lost ∙ sym missing
      ]
    ]
