-- ===== src/Core/Imports/Closed.antt =====
-- The edges of the graph of imports: `build_import_graph` of crates/ktsense-core/src/imports.rs.
use ktsense.Prelude.{
  ◌≡◌, refl, ap, ◌∙◌, true, false, ◌||◌, Option, none, some, List, [], ◌∷◌, arith, Bytes, bytes_eq,
  bytes_eq_iff, All,
}
use ktsense.Core.References.{FileSkeleton}
use ktsense.Core.Imports.{
  DepLevel, file, package_level, DepEdge, member, insert_name, WorkspaceIndex, empty_index,
  index_files, Resolution, internal, external_import, rsplit_dot, resolve_import, source_at,
  Gathered, add_import, add_imports, add_file, add_files, edges_of, nothing_gathered,
  build_import_graph,
}
use ktsense.Core.Imports.Known.{
  IsIndexOf, KnownFile, At, Known, index_files-IsIndexOf, resolve_split-Known,
}
use ktsense.Core.Imports.Nodes.{
  is_source_of, is_source, IsSource, Covers, Covers-self, Joins, add_targets-Joins,
  add_targets-nodes,
}

add_import-nodes :
    (source name : Bytes) (r : Resolution) (g : Gathered)
    → (add_import source name r g).nodes ≡ g.nodes
unfolding add_import
add_import-nodes source name (internal targets) g = add_targets-nodes source targets g
add_import-nodes source name external_import g = refl

add_imports-nodes :
    (index : WorkspaceIndex) (level : DepLevel) (source : Bytes) (imports : List Bytes)
    (g : Gathered)
    → (add_imports index level source imports g).nodes ≡ g.nodes
unfolding add_imports
add_imports-nodes index level source [] g = refl
add_imports-nodes index level source (name ∷ imports) g =
    add_imports-nodes index level source imports
      (add_import source name (resolve_import index name level) g)
    ∙ add_import-nodes source name (resolve_import index name level) g

member-insert_name :
    (name x : Bytes) (names : List Bytes)
    → member name (insert_name x names) ≡ bytes_eq x name || member name names
unfolding member insert_name
member-insert_name name x [] = refl
member-insert_name name x (known ∷ names) = ground (
  arith,
  member-insert_name name x names,
  (λ (h : bytes_eq known x ≡ true). ap (λ k. bytes_eq k name) ((bytes_eq_iff known x).0 h)),
)

add_file-nodes :
    (index : WorkspaceIndex) (level : DepLevel) (known : Option Bytes) (s : FileSkeleton)
    (g : Gathered) (name : Bytes)
    → member name (add_file index level known s g).nodes
      ≡ is_source_of level name known s || member name g.nodes
unfolding add_file is_source_of
add_file-nodes index level none s g name = refl
add_file-nodes index level (some package_name) s g name =
    let source = source_at level package_name s in
    ap (member name) (
      add_imports-nodes index level source s.imports
        (record g { nodes = insert_name source g.nodes }))
    ∙ member-insert_name name source g.nodes

add_files-nodes :
    (index : WorkspaceIndex) (level : DepLevel) (files : List FileSkeleton) (g : Gathered)
    (name : Bytes)
    → member name (add_files index level files g).nodes
      ≡ is_source level files name || member name g.nodes
unfolding add_files is_source
add_files-nodes index level [] g name = refl
add_files-nodes index level (s ∷ files) g name = ground (
  arith,
  add_files-nodes index level files (add_file index level s.package_name s g) name,
  add_file-nodes index level s.package_name s g name,
)

source-At :
    (P F : Bytes → Type 0) (level : DepLevel) (package_name : Bytes) (s : FileSkeleton)
    → P package_name × F s.path
    → At P F level (source_at level package_name s)
source-At P F package_level package_name s k = k.0
source-At P F file package_name s k = k.1

module _ (P F : Bytes → Type 0) (index : WorkspaceIndex) (i : IsIndexOf P F index)
    (level : DepLevel) where
  add_import-Joins :
      (source name : Bytes) (r : Resolution) (g : Gathered)
      → At P F level source
      → Known P F level r
      → All (Joins (At P F level)) g.edges
      → All (Joins (At P F level)) (add_import source name r g).edges
  unfolding add_import
  add_import-Joins source name (internal targets) g s k h =
      add_targets-Joins (At P F level) source targets g s k h
  add_import-Joins source name external_import g s k h = h

  add_imports-Joins :
      (source : Bytes) (imports : List Bytes) (g : Gathered)
      → At P F level source
      → All (Joins (At P F level)) g.edges
      → All (Joins (At P F level)) (add_imports index level source imports g).edges
  unfolding add_imports resolve_import
  add_imports-Joins source [] g s h = h
  add_imports-Joins source (name ∷ imports) g s h = add_imports-Joins source imports _ s (
      add_import-Joins source name _ g s (resolve_split-Known P F index level (rsplit_dot name) i)
        h)

  add_file-Joins :
      (known : Option Bytes) (s : FileSkeleton) (g : Gathered)
      → KnownFile P F known s
      → All (Joins (At P F level)) g.edges
      → All (Joins (At P F level)) (add_file index level known s g).edges
  unfolding add_file
  add_file-Joins none s g k h = h
  add_file-Joins (some package_name) s g k h =
      add_imports-Joins (source_at level package_name s) s.imports
        (record g { nodes = insert_name (source_at level package_name s) g.nodes })
        (source-At P F level package_name s k) h

  add_files-Joins :
      (files : List FileSkeleton) (g : Gathered)
      → Covers P F files
      → All (Joins (At P F level)) g.edges
      → All (Joins (At P F level)) (add_files index level files g).edges
  unfolding add_files
  add_files-Joins [] g k h = h
  add_files-Joins (s ∷ files) g k h =
      add_files-Joins files (add_file index level s.package_name s g) k.1
        (add_file-Joins s.package_name s g k.0 h)

At-IsSource :
    (files : List FileSkeleton) (level : DepLevel) (name : Bytes)
    → At (IsSource package_level files) (IsSource file files) level name
    → IsSource level files name
At-IsSource files package_level name h = h
At-IsSource files file name h = h

-- An edge of the graph joins two different nodes of it.
abbrev pub IsEdge : List Bytes → DepEdge → Type 0
IsEdge nodes e =
    (bytes_eq e.target e.source ≡ false)
    × ((member e.source nodes ≡ true) × (member e.target nodes ≡ true))

edges_of-IsEdge :
    (S : Bytes → Type 0) (nodes : List Bytes) (pairs : List (Bytes × Bytes))
    → ((name : Bytes) → S name → member name nodes ≡ true)
    → All (Joins S) pairs
    → All (IsEdge nodes) (edges_of pairs)
edges_of-IsEdge S nodes [] f h = tt
edges_of-IsEdge S nodes ((source, target) ∷ pairs) f h =
    ((h.0.0, (f source h.0.1.0, f target h.0.1.1)), edges_of-IsEdge S nodes pairs f h.1)

-- At both levels: a name is a node just when it is the package or the path of a file that has a package;
-- and each edge joins two different nodes, so no import leads out of the graph or from a node to itself.
pub build_import_graph-IsClosed :
    (files : List FileSkeleton) (level : DepLevel)
    → ((name : Bytes)
        → member name (build_import_graph files level).nodes ≡ is_source level files name)
      × All (IsEdge (build_import_graph files level).nodes) (build_import_graph files level).edges
unfolding build_import_graph
build_import_graph-IsClosed files level =
    let P = IsSource package_level files in
    let F = IsSource file files in
    let index = index_files files empty_index in
    let g = add_files index level files nothing_gathered in
    let i =
      index_files-IsIndexOf P F files empty_index (Covers-self files)
        (record { packages_known = tt; names_known = tt; files_known = tt; symbols_known = tt }) in
    let nodes : (name : Bytes) → member name g.nodes ≡ is_source level files name = λ name.
      add_files-nodes index level files nothing_gathered name ∙ unfold member in ground arith in
    (
      nodes,
      edges_of-IsEdge (At P F level) g.nodes g.edges
          (λ name h. nodes name ∙ At-IsSource files level name h)
          (add_files-Joins P F index i level files nothing_gathered (Covers-self files) tt),
    )
