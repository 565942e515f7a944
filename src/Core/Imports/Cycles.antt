-- ===== src/Core/Imports/Cycles.antt =====
-- The cycles that the graph of imports reports: crates/ktsense-core/src/imports.rs.
use ktsense.Prelude.{ℕ, Option, List, [], ◌∷◌, Bytes}
use ktsense.Core.References.{FileSkeleton}
use ktsense.Core.Imports.{DepLevel, DepEdge, build_import_graph}
use ktsense.Core.Graph.{from_edges}
use ktsense.Core.Components.{cycles}

abbrev pub edge_pairs : List DepEdge → List (Bytes × Bytes)
edge_pairs [] = []
edge_pairs (e ∷ edges) = (e.source, e.target) ∷ edge_pairs edges

unfoldable pub import_cycles : ℕ → List FileSkeleton → DepLevel → Option (List (List Bytes))
unfolding build_import_graph from_edges cycles
import_cycles fuel files level =
    cycles fuel (from_edges (edge_pairs (build_import_graph files level).edges))
