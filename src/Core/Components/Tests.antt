-- ===== src/Core/Components/Tests.antt =====
-- The components of crates/ktsense-core/src/scc.rs on a concrete graph.
use ktsense.Prelude.{ℕ, ◌≡◌, ◌≤◌, refl, some, List, [], ◌∷◌, Bytes, codes, arith}
use ktsense.Core.Graph.{Graph, from_edges}
use ktsense.Core.Components.{Tarjan, run_components, cycles}
use ktsense.Core.Components.Once.{times_in}
use ktsense.Core.Components.Ends.{run_components-Once}

-- a and b reach each other, b reaches c, and c itself.
abbrev looped : List (Bytes × Bytes)
looped =
    (codes "a", codes "b")
    ∷ (codes "b", codes "a")
    ∷ (codes "b", codes "c")
    ∷ (codes "c", codes "c")
    ∷ (codes "c", codes "d")
    ∷ []

two_cycles :
    cycles 20 (from_edges looped) ≡ some ((codes "a" ∷ codes "b" ∷ []) ∷ (codes "c" ∷ []) ∷ [])
unfolding cycles from_edges
two_cycles = refl

abbrev small_graph : Graph
small_graph = record {
  node_ids = codes "a" ∷ codes "b" ∷ codes "c" ∷ [];
  out_edges = (1 ∷ []) ∷ (0 ∷ 2 ∷ []) ∷ [] ∷ [];
}

run_components-Once_example :
    (end : Tarjan) × ((run_components 9 small_graph ≡ some end)
      × ((node : ℕ) → times_in node end.components ≤ 1))
run_components-Once_example = run_components-Once 9 small_graph (omega arith)
