-- ===== src/Core/Imports/Tests.antt =====
-- The graph of imports of crates/ktsense-core/src/imports.rs, and the graph of rank.rs, on concrete files.
use ktsense.Prelude.{◌≡◌, refl, some, List, [], ◌∷◌, Bytes, codes, All}
use ktsense.Core.References.{DeclKind, nil, cons, FileSkeleton}
use ktsense.Core.Imports.{file, member, build_import_graph}
use ktsense.Core.Imports.Nodes.{is_source}
use ktsense.Core.Imports.Closed.{IsEdge, build_import_graph-IsClosed}
use ktsense.Core.Graph.{from_edges, contains_edge}
use ktsense.Core.Graph.Positions.{has_edge}
use ktsense.Core.Graph.Edges.{contains_edge-from_edges}

abbrev file_of : Bytes → Bytes → Bytes → List Bytes → FileSkeleton
file_of path package_name declared imports = record {
  path = path;
  package_name = some package_name;
  imports = imports;
  declarations = cons (record { kind = DeclKind.class; name = declared; line = 3 }) nil nil;
}

-- B imports A, all of its own package, and a library.
abbrev two_files : List FileSkeleton
two_files =
    file_of (codes "A.kt") (codes "shop") (codes "A") []
    ∷ file_of (codes "B.kt") (codes "cart") (codes "B")
        (codes "shop.A" ∷ codes "cart.*" ∷ codes "java.util.List" ∷ [])
    ∷ []

one_edge :
    (build_import_graph two_files file).edges
    ≡ record { source = codes "B.kt"; target = codes "A.kt" } ∷ []
unfolding build_import_graph
one_edge = refl

build_import_graph-IsClosed_example :
    ((name : Bytes)
      → member name (build_import_graph two_files file).nodes ≡ is_source file two_files name)
    × All
        (IsEdge (build_import_graph two_files file).nodes)
        (build_import_graph two_files file).edges
build_import_graph-IsClosed_example = build_import_graph-IsClosed two_files file

abbrev three_edges : List (Bytes × Bytes)
three_edges = (codes "a", codes "b") ∷ (codes "b", codes "c") ∷ (codes "a", codes "b") ∷ []

contains_edge-from_edges_example :
    contains_edge (from_edges three_edges) (codes "b") (codes "c")
    ≡ has_edge (codes "b") (codes "c") three_edges
contains_edge-from_edges_example = contains_edge-from_edges three_edges (codes "b") (codes "c")
