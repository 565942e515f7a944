-- ===== src/Core/Imports/Entries.antt =====
-- The entries of the index of the workspace: `WorkspaceIndex` of crates/ktsense-core/src/imports.rs.
use mathlib.Core.Path.{subst}
use ktsense.Prelude.{
  ◌≡◌, true, ◌&&◌, Bool-cases, inl, inr, List, [], ◌∷◌, arith, Bytes, bytes_eq, bytes_eq_iff, All,
  All-append,
}
use ktsense.Std.Sort.{sort_by, sort_by-All}
use ktsense.Core.TextSearch.{bytes_lt}
use ktsense.Core.ByPath.{entry_push}
use ktsense.Core.Imports.{
  member, insert_name, pair_lt, name_le, dedup, symbol_push, sorted_paths, get_names, get_symbol,
}

module _ {ℓ} {A : Type ℓ} (K : Bytes → Type 0) (V : A → Type 0) where
  abbrev pub AllEntries : List (Bytes × List A) → Type 0
  AllEntries [] = Unit
  AllEntries ((key, items) ∷ entries) = (K key × All V items) × AllEntries entries

  pub entry_push-AllEntries :
      (key : Bytes) (item : A) (entries : List (Bytes × List A))
      → K key
      → V item
      → AllEntries entries
      → AllEntries (entry_push key item entries)
  unfolding entry_push
  entry_push-AllEntries key item [] k v h = ((k, (v, tt)), tt)
  entry_push-AllEntries key item ((known, items) ∷ entries) k v h =
      elim (Bool-cases (bytes_eq key known)) [
        | inl same ↦ rw same ((h.0.0, All-append V items (item ∷ []) h.0.1 (v, tt)), h.1)
        | inr differs ↦ elim (Bool-cases (bytes_lt key known)) [
          | inl before ↦ rw (differs, before) ((k, (v, tt)), h)
          | inr behind ↦ rw (differs, behind) (h.0, entry_push-AllEntries key item entries k v h.1)
        ]
      ]

module _ (V : Bytes → Type 0) where
  pub insert_name-All :
      (name : Bytes) (names : List Bytes) → V name → All V names → All V (insert_name name names)
  unfolding insert_name
  insert_name-All name [] v h = (v, tt)
  insert_name-All name (known ∷ names) v h = elim (Bool-cases (bytes_eq known name)) [
    | inl same ↦ rw same h
    | inr differs ↦ elim (Bool-cases (bytes_lt name known)) [
      | inl before ↦ rw (differs, before) (v, h)
      | inr behind ↦ rw (differs, behind) (h.0, insert_name-All name names v h.1)
    ]
  ]

  dedup-All : (names : List Bytes) → All V names → All V (dedup names)
  unfolding dedup
  dedup-All [] h = tt
  dedup-All (x ∷ []) h = h
  dedup-All (x ∷ y ∷ ys) h = elim (Bool-cases (bytes_eq x y)) [
    | inl same ↦ rw same (dedup-All (y ∷ ys) h.1)
    | inr differs ↦ rw differs (h.0, dedup-All (y ∷ ys) h.1)
  ]

  pub sorted_paths-All : (paths : List Bytes) → All V paths → All V (sorted_paths paths)
  unfolding sorted_paths
  sorted_paths-All paths h = dedup-All (sort_by name_le paths) (sort_by-All name_le V paths h)

  pub member-All :
      (name : Bytes) (names : List Bytes) → member name names ≡ true → All V names → V name
  unfolding member
  member-All name [] m h = absurd (ground arith)
  member-All name (known ∷ names) m h = elim (Bool-cases (bytes_eq known name)) [
    | inl same ↦ subst V ((bytes_eq_iff known name).0 same) h.0
    | inr differs ↦ member-All name names (ground arith) h.1
  ]

  abbrev pub AllSymbols : List ((Bytes × Bytes) × List Bytes) → Type 0
  AllSymbols [] = Unit
  AllSymbols ((symbol, paths) ∷ entries) = All V paths × AllSymbols entries

  pub symbol_push-AllSymbols :
      (symbol : Bytes × Bytes) (path : Bytes) (entries : List ((Bytes × Bytes) × List Bytes))
      → V path
      → AllSymbols entries
      → AllSymbols (symbol_push symbol path entries)
  unfolding symbol_push
  symbol_push-AllSymbols symbol path [] v h = ((v, tt), tt)
  symbol_push-AllSymbols symbol path ((known, paths) ∷ entries) v h =
      elim (Bool-cases (bytes_eq known.0 symbol.0 && bytes_eq known.1 symbol.1)) [
        | inl same ↦ rw same (All-append V paths (path ∷ []) h.0 (v, tt), h.1)
        | inr differs ↦ elim (Bool-cases (pair_lt symbol known)) [
          | inl before ↦ rw (differs, before) ((v, tt), h)
          | inr behind ↦
              rw (differs, behind) (h.0, symbol_push-AllSymbols symbol path entries v h.1)
        ]
      ]

  pub get_symbol-All :
      (package_name name : Bytes) (entries : List ((Bytes × Bytes) × List Bytes))
      → AllSymbols entries
      → All V (get_symbol package_name name entries)
  unfolding get_symbol
  get_symbol-All package_name name [] h = tt
  get_symbol-All package_name name ((known, paths) ∷ entries) h =
      elim (Bool-cases (bytes_eq known.0 package_name && bytes_eq known.1 name)) [
        | inl same ↦ rw same h.0
        | inr differs ↦ rw differs (get_symbol-All package_name name entries h.1)
      ]

module _ (K V : Bytes → Type 0) where
  pub get_names-All :
      (key : Bytes) (entries : List (Bytes × List Bytes))
      → AllEntries K V entries
      → All V (get_names key entries)
  unfolding get_names
  get_names-All key [] h = tt
  get_names-All key ((known, names) ∷ entries) h = elim (Bool-cases (bytes_eq known key)) [
    | inl same ↦ rw same h.0.1
    | inr differs ↦ rw differs (get_names-All key entries h.1)
  ]

  -- A name that an entry holds stands under a key of the map.
  pub get_names-key :
      (key name : Bytes) (entries : List (Bytes × List Bytes))
      → member name (get_names key entries) ≡ true
      → AllEntries K V entries
      → K key
  unfolding get_names member
  get_names-key key name [] m h = absurd (ground arith)
  get_names-key key name ((known, names) ∷ entries) m h = elim (Bool-cases (bytes_eq known key)) [
    | inl same ↦ subst K ((bytes_eq_iff known key).0 same) h.0.0
    | inr differs ↦ get_names-key key name entries (ground arith) h.1
  ]
