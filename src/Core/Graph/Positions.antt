-- ===== src/Core/Graph/Positions.antt =====
-- The indices of nodes: `position` of crates/ktsense-core/src/rank.rs.
use ktsense.Prelude.{
  ℕ, suc, ◌<◌, ◌≡◌, refl, ap, sym, ◌∙◌, Bool, true, false, ◌&&◌, ◌||◌, Bool-cases, Option-cases,
  ◌⊎◌, inl, inr, none, some, List, [], ◌∷◌, ◌++◌, arith, ◌==◌, Bytes, bytes_eq, bytes_eq_iff,
  length,
}
use ktsense.Core.Graph.{position}

-- The edge is in the list.
unfoldable pub has_edge : Bytes → Bytes → List (Bytes × Bytes) → Bool
unfolding bytes_eq
has_edge a b [] = false
has_edge a b ((x, y) ∷ edges) = (bytes_eq x a && bytes_eq y b) || has_edge a b edges

abbrev pub has_pair : ℕ → ℕ → List (ℕ × ℕ) → Bool
has_pair i j [] = false
has_pair i j ((x, y) ∷ pairs) = (x == i && y == j) || has_pair i j pairs

pub position-nil : (node : Bytes) (i : ℕ) → position [] node ≡ some i → ⊥
unfolding position
position-nil node i h = cc

-- Where a node is found: at the head, or behind it.
pub position-cons :
    (c : Bytes) (nodes : List Bytes) (node : Bytes) (i : ℕ)
    → position (c ∷ nodes) node ≡ some i
    → ((bytes_eq c node ≡ true) × (i ≡ 0))
      ⊎ ((bytes_eq c node ≡ false) × ((k : ℕ) × ((position nodes node ≡ some k) × (i ≡ suc k))))
unfolding position
position-cons c nodes node i h = elim (Bool-cases (bytes_eq c node)) [
  | inl here ↦ inl (here, ground arith)
  | inr away ↦ elim (Option-cases (position nodes node)) [
    | inl missing ↦ absurd (ground arith)
    | inr (k, found) ↦ inr (away, (k, (found, ground arith)))
  ]
]

pub position-append :
    (nodes more : List Bytes) (node : Bytes) (i : ℕ)
    → position nodes node ≡ some i
    → position (nodes ++ more) node ≡ some i
unfolding position
position-append [] more node i h = cc
position-append (c ∷ nodes) more node i h = elim (position-cons c nodes node i h) [
  | inl (here, e) ↦ rw (here, e) refl
  | inr (away, (k, (found, e))) ↦ rw (away, position-append nodes more node k found, e) refl
]

pub position-last :
    (nodes : List Bytes) (node : Bytes)
    → position nodes node ≡ none
    → position (nodes ++ (node ∷ [])) node ≡ some (length nodes)
unfolding position
position-last [] node h = rw ((bytes_eq_iff node node).1 refl) refl
position-last (c ∷ nodes) node h = elim (Bool-cases (bytes_eq c node)) [
  | inl here ↦ absurd (ground arith)
  | inr away ↦ elim (Option-cases (position nodes node)) [
    | inl missing ↦ rw (away, position-last nodes node missing) refl
    | inr (k, found) ↦ absurd (ground arith)
  ]
]

pub position-length :
    (nodes : List Bytes) (node : Bytes) (i : ℕ) → position nodes node ≡ some i → i < length nodes
position-length [] node i h = absurd (position-nil node i h)
position-length (c ∷ nodes) node i h = elim (position-cons c nodes node i h) [
  | inl (here, e) ↦ omega arith
  | inr (away, (k, (found, e))) ↦ omega (arith, position-length nodes node k found)
]

pub position-same :
    (nodes : List Bytes) (a b : Bytes) (i j : ℕ)
    → position nodes a ≡ some i
    → position nodes b ≡ some j
    → (i == j) ≡ bytes_eq a b
position-same [] a b i j h k = absurd (position-nil a i h)
position-same (c ∷ nodes) a b i j h k = elim (position-cons c nodes a i h) [
  | inl (at_a, e) ↦ elim (position-cons c nodes b j k) [
    | inl (at_b, e') ↦
        let same : a ≡ b = sym ((bytes_eq_iff c a).0 at_a) ∙ (bytes_eq_iff c b).0 at_b in
        ground (arith, (bytes_eq_iff a b).1 same)
    | inr (off_b, (m, (found, e'))) ↦
        let same = ap (λ x. bytes_eq x b) (sym ((bytes_eq_iff c a).0 at_a)) ∙ off_b in ground arith
  ]
  | inr (off_a, (l, (found, e))) ↦ elim (position-cons c nodes b j k) [
    | inl (at_b, e') ↦
        let differs : bytes_eq a b ≡ true → bytes_eq c a ≡ true =
          λ t. (bytes_eq_iff c a).1 ((bytes_eq_iff c b).0 at_b ∙ sym ((bytes_eq_iff a b).0 t)) in
        ground (arith, differs)
    | inr (off_b, (m, (found', e'))) ↦ ground (arith, position-same nodes a b l m found found')
  ]
]
