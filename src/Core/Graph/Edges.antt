-- ===== src/Core/Graph/Edges.antt =====
-- The edges of a graph: `Graph::from_edges` and `Graph::contains_edge` of crates/ktsense-core/src/rank.rs.
use ktsense.Prelude.{
  ℕ, zero, suc, ◌+◌, ◌<◌, ◌≡◌, refl, ap, sym, ◌∙◌, true, false, ◌||◌, Option-cases, ◌⊎◌, inl, inr,
  Option, none, some, List, [], ◌∷◌, arith, leb, ◌==◌, Bytes, bytes_eq, bytes_eq_iff, length,
  get_or,
}
use ktsense.Std.Sort.{insert_by, sort_by, sort_by-Ordered}
use ktsense.Core.Graph.{
  position, interned, intern, index_edges, targets_of, dedup_indices, adjacency_from, from_edges,
  binary_search, contains_edge,
}
use ktsense.Core.Graph.Search.{
  has_index, Sorted, Ordered-Sorted, dedup_indices-Sorted, binary_search-has_index,
}
use ktsense.Core.Graph.Positions.{
  has_edge, has_pair, position-append, position-last, position-length, position-same,
}

-- Every node of the first list has its index in the second.
Extends : List Bytes → List Bytes → Type 0
Extends nodes nodes' =
    (node : Bytes) (i : ℕ) → position nodes node ≡ some i → position nodes' node ≡ some i

interned-Extends :
    (nodes : List Bytes) (node : Bytes) (found : Option ℕ)
    → position nodes node ≡ found
    → Extends nodes (interned found nodes node).1
      × (position (interned found nodes node).1 node ≡ some (interned found nodes node).0)
unfolding Extends
interned-Extends nodes node none e =
    (λ m i h. position-append nodes (node ∷ []) m i h, position-last nodes node e)
interned-Extends nodes node (some i) e = (λ m j h. h, e)

intern-Extends :
    (nodes : List Bytes) (node : Bytes)
    → Extends nodes (intern nodes node).1
      × (position (intern nodes node).1 node ≡ some (intern nodes node).0)
unfolding intern
intern-Extends nodes node = interned-Extends nodes node (position nodes node) refl

-- The pairs are the indices of the edges' nodes.
abbrev Indexes : List Bytes → List (Bytes × Bytes) → List (ℕ × ℕ) → Type 0
Indexes nodes [] [] = Unit
Indexes nodes [] (pair ∷ pairs) = ⊥
Indexes nodes (edge ∷ edges) [] = ⊥
Indexes nodes (edge ∷ edges) (pair ∷ pairs) =
    ((position nodes edge.0 ≡ some pair.0) × (position nodes edge.1 ≡ some pair.1))
    × Indexes nodes edges pairs

index_edges-Indexes :
    (nodes : List Bytes) (edges : List (Bytes × Bytes))
    → Extends nodes (index_edges nodes edges).1
      × Indexes (index_edges nodes edges).1 edges (index_edges nodes edges).0
unfolding index_edges Extends
index_edges-Indexes nodes [] = (λ node i h. h, tt)
index_edges-Indexes nodes ((a, b) ∷ edges) =
    let (old, at_a) = intern-Extends nodes a in
    let (mid, at_b) = intern-Extends (intern nodes a).1 b in
    let (new, rest) = index_edges-Indexes (intern (intern nodes a).1 b).1 edges in
    (
      λ node i h. new node i (mid node i (old node i h)),
      ((new a _ (mid a _ at_a), new b _ at_b), rest),
    )

has_pair-has_edge :
    (nodes : List Bytes) (edges : List (Bytes × Bytes)) (pairs : List (ℕ × ℕ)) (a b : Bytes)
    (i j : ℕ)
    → Indexes nodes edges pairs
    → position nodes a ≡ some i
    → position nodes b ≡ some j
    → has_pair i j pairs ≡ has_edge a b edges
unfolding has_edge
has_pair-has_edge nodes [] [] a b i j x p q = refl
has_pair-has_edge nodes [] (pair ∷ pairs) a b i j x p q = absurd x
has_pair-has_edge nodes (edge ∷ edges) [] a b i j x p q = absurd x
has_pair-has_edge nodes (edge ∷ edges) (pair ∷ pairs) a b i j x p q = ground (
  arith,
  position-same nodes edge.0 a pair.0 i x.0.0 p,
  position-same nodes edge.1 b pair.1 j x.0.1 q,
  has_pair-has_edge nodes edges pairs a b i j x.1 p q,
)

-- An edge of the list has both its nodes.
has_edge-unplaced :
    (nodes : List Bytes) (edges : List (Bytes × Bytes)) (pairs : List (ℕ × ℕ)) (a b : Bytes)
    → Indexes nodes edges pairs
    → (position nodes a ≡ none) ⊎ (position nodes b ≡ none)
    → has_edge a b edges ≡ false
unfolding has_edge
has_edge-unplaced nodes [] pairs a b x n = refl
has_edge-unplaced nodes (edge ∷ edges) [] a b x n = absurd x
has_edge-unplaced nodes (edge ∷ edges) (pair ∷ pairs) a b x n =
    let rest = has_edge-unplaced nodes edges pairs a b x.1 n in
    let at_a = λ (t : bytes_eq edge.0 a ≡ true).
      sym (ap (position nodes) ((bytes_eq_iff edge.0 a).0 t)) ∙ x.0.0 in
    let at_b = λ (t : bytes_eq edge.1 b ≡ true).
      sym (ap (position nodes) ((bytes_eq_iff edge.1 b).0 t)) ∙ x.0.1 in
    ground (arith, rest, at_a, at_b, n)

has_index-insert_by :
    (j x : ℕ) (xs : List ℕ) → has_index j (insert_by leb x xs) ≡ x == j || has_index j xs
unfolding insert_by has_index
has_index-insert_by j x [] = refl
has_index-insert_by j x (y ∷ ys) = ground (arith, has_index-insert_by j x ys)

has_index-sort_by : (j : ℕ) (xs : List ℕ) → has_index j (sort_by leb xs) ≡ has_index j xs
unfolding sort_by has_index
has_index-sort_by j [] = refl
has_index-sort_by j (x ∷ xs) =
    has_index-insert_by j x (sort_by leb xs) ∙ ap (λ t. x == j || t) (has_index-sort_by j xs)

has_index-dedup_indices : (j : ℕ) (xs : List ℕ) → has_index j (dedup_indices xs) ≡ has_index j xs
unfolding dedup_indices has_index
has_index-dedup_indices j [] = refl
has_index-dedup_indices j (x ∷ []) = refl
has_index-dedup_indices j (x ∷ y ∷ ys) = ground (arith, has_index-dedup_indices j (y ∷ ys))

has_index-targets_of :
    (i j : ℕ) (pairs : List (ℕ × ℕ)) → has_index j (targets_of i pairs) ≡ has_pair i j pairs
unfolding targets_of has_index
has_index-targets_of i j [] = refl
has_index-targets_of i j ((a, b) ∷ pairs) = ground (arith, has_index-targets_of i j pairs)

adjacency_from-get :
    (k i : ℕ) (nodes : List Bytes) (pairs : List (ℕ × ℕ))
    → i < length nodes
    → get_or (adjacency_from k nodes pairs) i []
      ≡ dedup_indices (sort_by leb (targets_of (k + i) pairs))
unfolding adjacency_from
adjacency_from-get k i [] pairs h = absurd (omega arith)
adjacency_from-get k zero (node ∷ nodes) pairs h =
    ap (λ m. dedup_indices (sort_by leb (targets_of m pairs))) (omega arith)
adjacency_from-get k (suc i) (node ∷ nodes) pairs h =
    adjacency_from-get (k + 1) i nodes pairs (omega arith)
    ∙ ap (λ m. dedup_indices (sort_by leb (targets_of m pairs))) (omega arith)

adjacency-Sorted : (xs : List ℕ) → Sorted (dedup_indices (sort_by leb xs))
adjacency-Sorted xs =
    dedup_indices-Sorted (sort_by leb xs)
      (Ordered-Sorted (sort_by leb xs) (sort_by-Ordered leb (λ a b h. ground arith) xs))

-- The graph built from a list of edges has an edge between two names just when the list has it, whether
-- or not the names are nodes of it.
pub contains_edge-from_edges :
    (edges : List (Bytes × Bytes)) (a b : Bytes)
    → contains_edge (from_edges edges) a b ≡ has_edge a b edges
unfolding contains_edge from_edges
contains_edge-from_edges edges a b =
    let nodes = (index_edges [] edges).1 in
    let pairs = (index_edges [] edges).0 in
    let x = (index_edges-Indexes [] edges).1 in
    elim (Option-cases (position nodes a)) [
      | inl off_a ↦ rw off_a (sym (has_edge-unplaced nodes edges pairs a b x (inl off_a)))
      | inr (i, at_a) ↦ elim (Option-cases (position nodes b)) [
        | inl off_b ↦ rw (at_a, off_b) (sym (has_edge-unplaced nodes edges pairs a b x (inr off_b)))
        | inr (j, at_b) ↦
            rw (at_a, at_b)
              (ap (λ xs. binary_search xs j)
                  (adjacency_from-get 0 i nodes pairs (position-length nodes a i at_a))
                ∙ binary_search-has_index (dedup_indices (sort_by leb (targets_of (0 + i) pairs))) j
                    (adjacency-Sorted (targets_of (0 + i) pairs))
                ∙ has_index-dedup_indices j (sort_by leb (targets_of (0 + i) pairs))
                ∙ has_index-sort_by j (targets_of (0 + i) pairs)
                ∙ has_index-targets_of (0 + i) j pairs
                ∙ ap (λ m. has_pair m j pairs) (omega arith)
                ∙ has_pair-has_edge nodes edges pairs a b i j x at_a at_b)
      ]
    ]
