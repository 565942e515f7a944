-- ===== src/Core/Imports.antt =====
-- The graph of imports: crates/ktsense-core/src/imports.rs, less the cycles that it reports of the graph, which
-- are those of scc.rs. Names are bytes; ordered sets and maps are lists in their order.
pub mod Entries
pub mod Known
pub mod Nodes
pub mod Closed
pub mod Cycles
pub mod Tests
use ktsense.Prelude.{
  ℕ, Bool, true, false, not, ◌&&◌, ◌||◌, Option, none, some, List, [], ◌∷◌, ◌++◌, if◌then◌else◌,
  Bytes, bytes_eq, codes, ◌==◌, reverse,
}
use ktsense.Std.Str.{split_once}
use ktsense.Std.Sort.{sort_by}
use ktsense.Core.TextSearch.{bytes_lt}
use ktsense.Core.ByPath.{entry_push}
use ktsense.Core.References.{FileSkeleton, Declarations, nil, cons}

pub data DepLevel : Type 0 where
  file package_level : DepLevel

-- `from` and `to`
pub record DepEdge : Type 0 where
  pub source : Bytes
  pub target : Bytes

pub record ExternalImport : Type 0 where
  pub source : Bytes
  pub import_name : Bytes

pub record ImportGraph : Type 0 where
  pub level : DepLevel
  pub nodes : List Bytes
  pub edges : List DepEdge
  pub external : List ExternalImport

unfoldable pub member : Bytes → List Bytes → Bool
unfolding bytes_eq
member name [] = false
member name (known ∷ names) = bytes_eq known name || member name names

-- `BTreeSet::insert` on the set in its order
unfoldable pub insert_name : Bytes → List Bytes → List Bytes
unfolding bytes_eq
insert_name name [] = name ∷ []
insert_name name (known ∷ names) =
    let rest = insert_name name names in
    if bytes_eq known name
    then known ∷ names
    else if bytes_lt name known
    then name ∷ known ∷ names
    else known ∷ rest

-- And on a set of pairs.
unfoldable pub pair_lt : Bytes × Bytes → Bytes × Bytes → Bool
unfolding bytes_eq
pair_lt a b = bytes_lt a.0 b.0 || (bytes_eq a.0 b.0 && bytes_lt a.1 b.1)

unfoldable pub insert_pair : Bytes × Bytes → List (Bytes × Bytes) → List (Bytes × Bytes)
unfolding pair_lt bytes_eq
insert_pair pair [] = pair ∷ []
insert_pair pair (known ∷ pairs) =
    let rest = insert_pair pair pairs in
    if bytes_eq known.0 pair.0 && bytes_eq known.1 pair.1
    then known ∷ pairs
    else if pair_lt pair known
    then pair ∷ known ∷ pairs
    else known ∷ rest

abbrev pub name_le : Bytes → Bytes → Bool
name_le a b = not (bytes_lt b a)

-- `dedup`, of neighbours
unfoldable pub dedup : List Bytes → List Bytes
unfolding bytes_eq
dedup [] = []
dedup (x ∷ []) = x ∷ []
dedup (x ∷ y ∷ ys) = let rest = dedup (y ∷ ys) in if bytes_eq x y then rest else x ∷ rest

pub record WorkspaceIndex : Type 0 where
  pub packages : List Bytes
  pub names_by_package : List (Bytes × List Bytes)
  pub files_by_package : List (Bytes × List Bytes)
  pub files_by_symbol : List ((Bytes × Bytes) × List Bytes)

abbrev pub empty_index : WorkspaceIndex
empty_index = record {
  packages = [];
  names_by_package = [];
  files_by_package = [];
  files_by_symbol = [];
}

-- `entry((package, name)).or_default().push(path)`
unfoldable pub symbol_push :
    Bytes × Bytes
    → Bytes
    → List ((Bytes × Bytes) × List Bytes)
    → List ((Bytes × Bytes) × List Bytes)
unfolding bytes_eq pair_lt
symbol_push symbol path [] = (symbol, path ∷ []) ∷ []
symbol_push symbol path ((known, paths) ∷ entries) =
    let rest = symbol_push symbol path entries in
    if bytes_eq known.0 symbol.0 && bytes_eq known.1 symbol.1
    then (known, paths ++ (path ∷ [])) ∷ entries
    else if pair_lt symbol known
    then (symbol, path ∷ []) ∷ (known, paths) ∷ entries
    else (known, paths) ∷ rest

-- The declarations of the file, not their children.
unfoldable pub index_declarations : Bytes → Bytes → Declarations → WorkspaceIndex → WorkspaceIndex
unfolding entry_push symbol_push
index_declarations package_name path nil index = index
index_declarations package_name path (cons d children siblings) index =
    index_declarations package_name path siblings (record index {
      names_by_package = entry_push package_name d.name index.names_by_package;
      files_by_symbol = symbol_push (package_name, d.name) path index.files_by_symbol;
    })

unfoldable pub index_file : Option Bytes → FileSkeleton → WorkspaceIndex → WorkspaceIndex
unfolding insert_name index_declarations entry_push
index_file none skeleton index = index
index_file (some package_name) skeleton index =
    index_declarations package_name skeleton.path skeleton.declarations (record index {
      packages = insert_name package_name index.packages;
      files_by_package = entry_push package_name skeleton.path index.files_by_package;
    })

unfoldable pub index_files : List FileSkeleton → WorkspaceIndex → WorkspaceIndex
unfolding index_file
index_files [] index = index
index_files (skeleton ∷ files) index =
    index_files files (index_file skeleton.package_name skeleton index)

-- The sorted paths of an entry, without repetition.
unfoldable pub sorted_paths : List Bytes → List Bytes
unfolding sort_by dedup
sorted_paths paths = dedup (sort_by name_le paths)

unfoldable pub get_names : Bytes → List (Bytes × List Bytes) → List Bytes
unfolding bytes_eq
get_names key [] = []
get_names key ((known, names) ∷ entries) =
    if bytes_eq known key then names else get_names key entries

unfoldable pub get_symbol : Bytes → Bytes → List ((Bytes × Bytes) × List Bytes) → List Bytes
unfolding bytes_eq
get_symbol package_name name [] = []
get_symbol package_name name ((known, paths) ∷ entries) =
    if bytes_eq known.0 package_name && bytes_eq known.1 name
    then paths
    else get_symbol package_name name entries

pub data Resolution : Type 0 where
  internal : List Bytes → Resolution
  external_import : Resolution

-- The sorting of the entries, which the source does once for all, is done where one is read.
unfoldable pub target_files : WorkspaceIndex → Bytes → Bytes → Bool → List Bytes
unfolding get_names get_symbol sorted_paths
target_files index package_name name true =
    sorted_paths (get_names package_name index.files_by_package)
target_files index package_name name false =
    sorted_paths (get_symbol package_name name index.files_by_symbol)

unfoldable pub is_internal : WorkspaceIndex → Bytes → Bytes → Bool → Bool
unfolding member get_names
is_internal index package_name name true = member package_name index.packages
is_internal index package_name name false =
    member name (get_names package_name index.names_by_package)

unfoldable pub targets_at : WorkspaceIndex → DepLevel → Bytes → Bytes → Bool → List Bytes
unfolding target_files
targets_at index package_level package_name name wildcard = package_name ∷ []
targets_at index file package_name name wildcard = target_files index package_name name wildcard

-- `rsplit_once('.')`: what stands before the last dot, and behind it.
unfoldable pub rsplit_dot : Bytes → Option (Bytes × Bytes)
unfolding split_once
rsplit_dot import_name = elim (split_once b'.' (reverse import_name)) [
  | none ↦ none
  | some (name, package_name) ↦ some (reverse package_name, reverse name)
]

unfoldable pub resolve_split : WorkspaceIndex → DepLevel → Option (Bytes × Bytes) → Resolution
unfolding is_internal targets_at bytes_eq
resolve_split index level none = external_import
resolve_split index level (some (package_name, name)) =
    let wildcard = bytes_eq name (codes "*") in
    if is_internal index package_name name wildcard
    then internal (targets_at index level package_name name wildcard)
    else external_import

unfoldable pub resolve_import : WorkspaceIndex → Bytes → DepLevel → Resolution
unfolding resolve_split rsplit_dot
resolve_import index import_name level = resolve_split index level (rsplit_dot import_name)

abbrev pub source_at : DepLevel → Bytes → FileSkeleton → Bytes
source_at package_level package_name skeleton = package_name
source_at file package_name skeleton = skeleton.path

-- The three sets that the loop fills.
pub record Gathered : Type 0 where
  pub nodes : List Bytes
  pub edges : List (Bytes × Bytes)
  pub external : List (Bytes × Bytes)

unfoldable pub add_target : Bytes → Bytes → Gathered → Gathered
unfolding insert_pair bytes_eq
add_target source target g =
    if bytes_eq target source then g else record g { edges = insert_pair (source, target) g.edges }

unfoldable pub add_targets : Bytes → List Bytes → Gathered → Gathered
unfolding add_target
add_targets source [] g = g
add_targets source (target ∷ targets) g = add_targets source targets (add_target source target g)

unfoldable pub add_import : Bytes → Bytes → Resolution → Gathered → Gathered
unfolding add_targets insert_pair
add_import source import_name (internal targets) g = add_targets source targets g
add_import source import_name external_import g = record g {
  external = insert_pair (source, import_name) g.external;
}

unfoldable pub add_imports : WorkspaceIndex → DepLevel → Bytes → List Bytes → Gathered → Gathered
unfolding resolve_import add_import
add_imports index level source [] g = g
add_imports index level source (import_name ∷ imports) g =
    add_imports index level source imports
      (add_import source import_name (resolve_import index import_name level) g)

unfoldable pub add_file :
    WorkspaceIndex → DepLevel → Option Bytes → FileSkeleton → Gathered → Gathered
unfolding add_imports insert_name
add_file index level none skeleton g = g
add_file index level (some package_name) skeleton g =
    let source = source_at level package_name skeleton in
    add_imports index level source skeleton.imports
      (record g { nodes = insert_name source g.nodes })

unfoldable pub add_files : WorkspaceIndex → DepLevel → List FileSkeleton → Gathered → Gathered
unfolding add_file
add_files index level [] g = g
add_files index level (skeleton ∷ files) g =
    add_files index level files (add_file index level skeleton.package_name skeleton g)

abbrev pub edges_of : List (Bytes × Bytes) → List DepEdge
edges_of [] = []
edges_of ((source, target) ∷ pairs) = record { source = source; target = target } ∷ edges_of pairs

abbrev pub external_of : List (Bytes × Bytes) → List ExternalImport
external_of [] = []
external_of ((source, import_name) ∷ pairs) =
    record { source = source; import_name = import_name } ∷ external_of pairs

abbrev pub nothing_gathered : Gathered
nothing_gathered = record { nodes = []; edges = []; external = [] }

unfoldable pub build_import_graph : List FileSkeleton → DepLevel → ImportGraph
unfolding add_files index_files
build_import_graph files level =
    let g = add_files (index_files files empty_index) level files nothing_gathered in
    record {
      level = level;
      nodes = g.nodes;
      edges = edges_of g.edges;
      external = external_of g.external;
    }
