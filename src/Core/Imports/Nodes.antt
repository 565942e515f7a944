-- ===== src/Core/Imports/Nodes.antt =====
-- What the loops over the files do with the nodes and the edges: crates/ktsense-core/src/imports.rs.
use ktsense.Prelude.{
  ◌≡◌, refl, ◌∙◌, Bool, true, false, ◌&&◌, ◌||◌, Bool-cases, inl, inr, Option, none, some, List, [],
  ◌∷◌, arith, Bytes, bytes_eq, bytes_eq_iff, All, All-mono,
}
use ktsense.Core.References.{FileSkeleton}
use ktsense.Core.Imports.{
  DepLevel, file, package_level, pair_lt, insert_pair, source_at, Gathered, add_target, add_targets,
}
use ktsense.Core.Imports.Known.{KnownFile}

-- Some file with a package has the name for its node at the level.
unfoldable pub is_source_of : DepLevel → Bytes → Option Bytes → FileSkeleton → Bool
is_source_of level name none skeleton = false
is_source_of level name (some package_name) skeleton =
    bytes_eq (source_at level package_name skeleton) name

unfoldable pub is_source : DepLevel → List FileSkeleton → Bytes → Bool
unfolding is_source_of
is_source level [] name = false
is_source level (skeleton ∷ files) name =
    is_source_of level name skeleton.package_name skeleton || is_source level files name

abbrev pub IsSource : DepLevel → List FileSkeleton → Bytes → Type 0
IsSource level files name = is_source level files name ≡ true

-- The files of a list, each with the names that it has among more files.
abbrev pub Covers : (Bytes → Type 0) → (Bytes → Type 0) → List FileSkeleton → Type 0
Covers P F files = All (λ s. KnownFile P F s.package_name s) files

pub is_source_self :
    (level : DepLevel) (package_name : Bytes) (s : FileSkeleton) (files : List FileSkeleton)
    → s.package_name ≡ some package_name
    → is_source level (s ∷ files) (source_at level package_name s) ≡ true
unfolding is_source is_source_of
is_source_self level package_name s files e = rw e (
    ground (
      arith,
      (bytes_eq_iff (source_at level package_name s) (source_at level package_name s)).1 refl,
    ))

pub known_self :
    (known : Option Bytes) (s : FileSkeleton) (files : List FileSkeleton)
    → s.package_name ≡ known
    → KnownFile (IsSource package_level (s ∷ files)) (IsSource file (s ∷ files)) known s
known_self none s files e = tt
known_self (some package_name) s files e = (
  is_source_self package_level package_name s files e,
  is_source_self file package_name s files e,
)

pub KnownFile-mono :
    {P P' F F' : Bytes → Type 0} (known : Option Bytes) (s : FileSkeleton)
    → ((name : Bytes) → P name → P' name)
    → ((name : Bytes) → F name → F' name)
    → KnownFile P F known s
    → KnownFile P' F' known s
KnownFile-mono none s p f k = k
KnownFile-mono (some package_name) s p f k = (p package_name k.0, f s.path k.1)

pub IsSource-mono :
    (level : DepLevel) (s : FileSkeleton) (files : List FileSkeleton) (name : Bytes)
    → IsSource level files name
    → IsSource level (s ∷ files) name
unfolding is_source
IsSource-mono level s files name h = ground arith

pub Covers-self :
    (files : List FileSkeleton) → Covers (IsSource package_level files) (IsSource file files) files
Covers-self [] = tt
Covers-self (s ∷ files) = (
  known_self s.package_name s files refl,
  All-mono (λ t. KnownFile (IsSource package_level files) (IsSource file files) t.package_name t)
      (λ t.
        KnownFile (IsSource package_level (s ∷ files)) (IsSource file (s ∷ files)) t.package_name t)
      (λ t k.
        KnownFile-mono t.package_name t (IsSource-mono package_level s files)
          (IsSource-mono file s files) k)
      files (Covers-self files),
)

-- An edge joins two different names that satisfy the predicate.
abbrev pub Joins : (Bytes → Type 0) → Bytes × Bytes → Type 0
Joins S e = (bytes_eq e.1 e.0 ≡ false) × (S e.0 × S e.1)

module _ (S : Bytes → Type 0) where
  pub insert_pair-All :
      (pair : Bytes × Bytes) (pairs : List (Bytes × Bytes))
      → Joins S pair
      → All (Joins S) pairs
      → All (Joins S) (insert_pair pair pairs)
  unfolding insert_pair
  insert_pair-All pair [] v h = (v, tt)
  insert_pair-All pair (known ∷ pairs) v h =
      elim (Bool-cases (bytes_eq known.0 pair.0 && bytes_eq known.1 pair.1)) [
        | inl same ↦ rw same h
        | inr differs ↦ elim (Bool-cases (pair_lt pair known)) [
          | inl before ↦ rw (differs, before) (v, h)
          | inr behind ↦ rw (differs, behind) (h.0, insert_pair-All pair pairs v h.1)
        ]
      ]

  pub add_target-Joins :
      (source target : Bytes) (g : Gathered)
      → S source
      → S target
      → All (Joins S) g.edges
      → All (Joins S) (add_target source target g).edges
  unfolding add_target
  add_target-Joins source target g s t h = elim (Bool-cases (bytes_eq target source)) [
    | inl same ↦ rw same h
    | inr differs ↦ rw differs (insert_pair-All (source, target) g.edges (differs, (s, t)) h)
  ]

  pub add_targets-Joins :
      (source : Bytes) (targets : List Bytes) (g : Gathered)
      → S source
      → All S targets
      → All (Joins S) g.edges
      → All (Joins S) (add_targets source targets g).edges
  unfolding add_targets
  add_targets-Joins source [] g s ts h = h
  add_targets-Joins source (target ∷ targets) g s ts h =
      add_targets-Joins source targets (add_target source target g) s ts.1
        (add_target-Joins source target g s ts.0 h)

pub add_target-nodes :
    (source target : Bytes) (g : Gathered) → (add_target source target g).nodes ≡ g.nodes
unfolding add_target
add_target-nodes source target g = ground arith

pub add_targets-nodes :
    (source : Bytes) (targets : List Bytes) (g : Gathered)
    → (add_targets source targets g).nodes ≡ g.nodes
unfolding add_targets
add_targets-nodes source [] g = refl
add_targets-nodes source (target ∷ targets) g =
    add_targets-nodes source targets (add_target source target g) ∙ add_target-nodes source target g
