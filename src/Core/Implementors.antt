-- ===== src/Core/Implementors.antt =====
-- The subtypes of a Java type, by name: crates/ktsense-core/src/implementors.rs. Names and paths are bytes.
-- The map from a supertype to its children is a function; the sets are lists. The loop runs on fuel.
pub mod Bounds
pub mod Rows
use ktsense.Prelude.{
  ℕ, zero, suc, ◌+◌, Bool, true, false, not, ◌&&◌, ◌||◌, Option, none, some, List, [], ◌∷◌, ◌++◌,
  leb, ◌==◌, if◌then◌else◌, Bytes, bytes_eq, length,
}
use ktsense.Std.Sort.{sort_by}
use ktsense.Core.TextSearch.{bytes_lt}

abbrev pub depth_cap : ℕ
depth_cap = 8

pub record TypeNode : Type 0 where
  pub fqn : Bytes
  pub simple_name : Bytes
  pub path : Bytes
  pub line : ℕ
  pub supertypes : List Bytes

pub record SupertypeImplementor : Type 0 where
  pub fqn : Bytes
  pub path : Bytes
  pub line : ℕ
  pub via : Option Bytes

-- How often a clause names the parent.
abbrev pub copies : Bytes → TypeNode → List Bytes → List TypeNode → List TypeNode
copies parent node [] rest = rest
copies parent node (supertype ∷ supertypes) rest =
    let more = copies parent node supertypes rest in
    if bytes_eq supertype parent then node ∷ more else more

-- `children.get(parent)`: a node stands in it once for each time that its clause names the parent.
unfoldable pub children_of : List TypeNode → Bytes → List TypeNode
unfolding bytes_eq
children_of [] parent = []
children_of (node ∷ nodes) parent = copies parent node node.supertypes (children_of nodes parent)

-- `(path, line)` of the first is not behind that of the second.
unfoldable pub node_le : TypeNode → TypeNode → Bool
unfolding bytes_eq
node_le a b = bytes_lt a.path b.path || (bytes_eq a.path b.path && leb a.line b.line)

unfoldable pub same_location : Bytes × ℕ → Bytes × ℕ → Bool
unfolding bytes_eq
same_location a b = bytes_eq a.0 b.0 && a.1 == b.1

abbrev pub has_location : Bytes × ℕ → List (Bytes × ℕ) → Bool
has_location at [] = false
has_location at (known ∷ emitted) = same_location known at || has_location at emitted

unfoldable pub has_name : Bytes → List Bytes → Bool
unfolding bytes_eq
has_name name [] = false
has_name name (known ∷ names) = bytes_eq known name || has_name name names

pub record Closure : Type 0 where
  pub implementors : List SupertypeImplementor
  pub emitted : List (Bytes × ℕ)
  pub expanded : List Bytes
  pub queue : List (Bytes × ℕ)

abbrev pub location_of : TypeNode → Bytes × ℕ
location_of node = (node.path, node.line)

unfoldable pub row_of : Bytes → Bytes → TypeNode → SupertypeImplementor
unfolding bytes_eq
row_of target parent node = record {
  fqn = node.fqn;
  path = node.path;
  line = node.line;
  via = if bytes_eq parent target then none else some parent;
}

-- The body of the loop over the children.
unfoldable pub emit : Bytes → Bytes → ℕ → TypeNode → Closure → Closure
unfolding row_of
emit target parent depth node st =
    if has_location (location_of node) st.emitted then st else record {
      implementors = st.implementors ++ (row_of target parent node ∷ []);
      emitted = location_of node ∷ st.emitted;
      expanded = st.expanded;
      queue = st.queue ++ ((node.simple_name, depth + 1) ∷ []);
    }

unfoldable pub emit_all : Bytes → Bytes → ℕ → List TypeNode → Closure → Closure
unfolding emit
emit_all target parent depth [] st = st
emit_all target parent depth (node ∷ nodes) st =
    emit_all target parent depth nodes (emit target parent depth node st)

-- The body of the outer loop, behind `pop_front`.
unfoldable pub expand : Bytes → List TypeNode → Bytes → ℕ → Closure → Closure
unfolding emit_all children_of node_le has_name sort_by
expand target nodes parent depth st =
    if leb depth_cap depth || has_name parent st.expanded
    then st
    else emit_all target parent depth (sort_by node_le (children_of nodes parent))
        (record st { expanded = parent ∷ st.expanded })

-- `none` when the fuel ends before the queue does.
unfoldable pub walk :
    ℕ → Bytes → List TypeNode → Closure → List (Bytes × ℕ) → Option (List SupertypeImplementor)
unfolding expand
walk fuel target nodes st [] = some st.implementors
walk zero target nodes st (next ∷ queue) = none
walk (suc fuel) target nodes st ((parent, depth) ∷ queue) =
    let st' = expand target nodes parent depth (record st { queue = queue }) in
    walk fuel target nodes st' st'.queue

abbrev pub at_start : Bytes → Closure
at_start target = record {
  implementors = [];
  emitted = [];
  expanded = [];
  queue = (target, 0) ∷ [];
}

unfoldable pub resolve_supertype_implementors :
    ℕ → Bytes → List TypeNode → Option (List SupertypeImplementor)
unfolding walk
resolve_supertype_implementors fuel target nodes =
    walk fuel target nodes (at_start target) ((target, 0) ∷ [])
