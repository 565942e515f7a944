-- ===== src/Core/Graph.antt =====
-- The directed graph: `Graph` of crates/ktsense-core/src/rank.rs, over names, which are bytes. The map from a
-- node to its index, which the source fills beside `node_ids`, is read off that list.
pub mod Positions
pub mod Search
pub mod Edges
use ktsense.Prelude.{
  ℕ, zero, suc, ◌+◌, ◌-◌, ◌/◌, ltb, Bool, true, false, ◌&&◌, Option, none, some, List, [], ◌∷◌,
  ◌++◌, leb, ◌==◌, if◌then◌else◌, Bytes, bytes_eq, length, get_or,
}
use mathlib.Core.Option
use ktsense.Std.Sort.{sort_by}

pub record Graph : Type 0 where
  pub node_ids : List Bytes
  pub out_edges : List (List ℕ)

unfoldable pub position : List Bytes → Bytes → Option ℕ
unfolding bytes_eq
position [] node = none
position (candidate ∷ nodes) node =
    let rest = position nodes node in
    if bytes_eq candidate node then some 0 else Option.map suc rest

abbrev pub interned : Option ℕ → List Bytes → Bytes → ℕ × List Bytes
interned (some index) nodes node = (index, nodes)
interned none nodes node = (length nodes, nodes ++ (node ∷ []))

unfoldable pub intern : List Bytes → Bytes → ℕ × List Bytes
unfolding position
intern nodes node = interned (position nodes node) nodes node

-- The loop over the edges: the pairs of indices, and the nodes.
unfoldable pub index_edges : List Bytes → List (Bytes × Bytes) → List (ℕ × ℕ) × List Bytes
unfolding intern
index_edges nodes [] = ([], nodes)
index_edges nodes ((a, b) ∷ edges) =
    let (i, nodes') = intern nodes a in
    let (j, nodes'') = intern nodes' b in
    let (pairs, end) = index_edges nodes'' edges in ((i, j) ∷ pairs, end)

-- What is pushed on the adjacency of an index.
unfoldable pub targets_of : ℕ → List (ℕ × ℕ) → List ℕ
targets_of i [] = []
targets_of i ((a, b) ∷ pairs) = let rest = targets_of i pairs in if a == i then b ∷ rest else rest

unfoldable pub dedup_indices : List ℕ → List ℕ
dedup_indices [] = []
dedup_indices (x ∷ []) = x ∷ []
dedup_indices (x ∷ y ∷ ys) = let rest = dedup_indices (y ∷ ys) in if x == y then rest else x ∷ rest

unfoldable pub adjacency_from : ℕ → List Bytes → List (ℕ × ℕ) → List (List ℕ)
unfolding targets_of dedup_indices sort_by
adjacency_from i [] pairs = []
adjacency_from i (node ∷ nodes) pairs =
    dedup_indices (sort_by leb (targets_of i pairs)) ∷ adjacency_from (i + 1) nodes pairs

unfoldable pub from_edges : List (Bytes × Bytes) → Graph
unfolding index_edges adjacency_from
from_edges edges =
    let (pairs, nodes) = index_edges [] edges in
    record { node_ids = nodes; out_edges = adjacency_from 0 nodes pairs }

abbrev pub node_count : Graph → ℕ
node_count graph = length graph.node_ids

-- The loop of `binary_search` on slices: it halves a window of `size` indices from `base` while that has
-- more than one. `fuel` bounds the turns; the size is enough.
unfoldable pub search_window : ℕ → List ℕ → ℕ → ℕ → ℕ → Bool
search_window zero xs j base size = false
search_window (suc fuel) xs j base size =
    let half = size / 2 in
    let middle = base + half in
    let rest =
      search_window fuel xs j (if ltb j (get_or xs middle 0) then base else middle) (size - half) in
    if leb size 1 then get_or xs base 0 == j else rest

-- `binary_search(..).is_ok()`
unfoldable pub binary_search : List ℕ → ℕ → Bool
unfolding search_window
binary_search [] j = false
binary_search (x ∷ xs) j = search_window (length (x ∷ xs)) (x ∷ xs) j 0 (length (x ∷ xs))

abbrev pub joined : Graph → Option ℕ → Option ℕ → Bool
unfolding binary_search
joined graph (some i) (some j) = binary_search (get_or graph.out_edges i []) j
joined graph (some i) none = false
joined graph none b = false

unfoldable pub contains_edge : Graph → Bytes → Bytes → Bool
unfolding position joined
contains_edge graph a b = joined graph (position graph.node_ids a) (position graph.node_ids b)
