-- ===== src/Core/Imports/Known.antt =====
-- What the index of the workspace resolves to: `WorkspaceIndex` of crates/ktsense-core/src/imports.rs.
use ktsense.Prelude.{
  ◌≡◌, Bool, true, false, Bool-cases, inl, inr, Option, none, some, List, [], ◌∷◌, Bytes, bytes_eq,
  codes, All,
}
use ktsense.Core.References.{FileSkeleton, Declarations, nil, cons}
use ktsense.Core.Imports.{
  DepLevel, file, package_level, WorkspaceIndex, index_declarations, index_file, index_files,
  Resolution, internal, external_import, target_files, is_internal, targets_at, resolve_split,
}
use ktsense.Core.Imports.Entries.{
  AllEntries, entry_push-AllEntries, insert_name-All, sorted_paths-All, member-All, AllSymbols,
  symbol_push-AllSymbols, get_symbol-All, get_names-All, get_names-key,
}

-- The names that the index holds are packages of files and paths of files.
module _ (P F : Bytes → Type 0) where
  pub record IsIndexOf (index : WorkspaceIndex) : Type 0 where
    pub packages_known : All P index.packages
    pub names_known : AllEntries P (λ name. Unit) index.names_by_package
    pub files_known : AllEntries P F index.files_by_package
    pub symbols_known : AllSymbols F index.files_by_symbol

  index_declarations-IsIndexOf :
      (package_name path : Bytes) (ds : Declarations) (index : WorkspaceIndex)
      → P package_name
      → F path
      → IsIndexOf index
      → IsIndexOf (index_declarations package_name path ds index)
  unfolding index_declarations
  index_declarations-IsIndexOf package_name path nil index p f i = i
  index_declarations-IsIndexOf package_name path (cons d children siblings) index p f i =
      index_declarations-IsIndexOf package_name path siblings _ p f (record {
        packages_known = i.packages_known;
        names_known =
            entry_push-AllEntries P (λ name. Unit) package_name d.name index.names_by_package p tt
              i.names_known;
        files_known = i.files_known;
        symbols_known =
            symbol_push-AllSymbols F (package_name, d.name) path index.files_by_symbol f
              i.symbols_known;
      })

  -- Files whose packages and paths are known.
  abbrev pub KnownFile : Option Bytes → FileSkeleton → Type 0
  KnownFile none skeleton = Unit
  KnownFile (some package_name) skeleton = P package_name × F skeleton.path

  index_file-IsIndexOf :
      (package_name : Option Bytes) (skeleton : FileSkeleton) (index : WorkspaceIndex)
      → KnownFile package_name skeleton
      → IsIndexOf index
      → IsIndexOf (index_file package_name skeleton index)
  unfolding index_file
  index_file-IsIndexOf none skeleton index k i = i
  index_file-IsIndexOf (some package_name) skeleton index k i =
      index_declarations-IsIndexOf package_name skeleton.path skeleton.declarations _ k.0 k.1
        (record {
          packages_known = insert_name-All P package_name index.packages k.0 i.packages_known;
          names_known = i.names_known;
          files_known =
              entry_push-AllEntries P F package_name skeleton.path index.files_by_package k.0 k.1
                i.files_known;
          symbols_known = i.symbols_known;
        })

  pub index_files-IsIndexOf :
      (files : List FileSkeleton) (index : WorkspaceIndex)
      → All (λ s. KnownFile s.package_name s) files
      → IsIndexOf index
      → IsIndexOf (index_files files index)
  unfolding index_files
  index_files-IsIndexOf [] index k i = i
  index_files-IsIndexOf (skeleton ∷ files) index k i =
      index_files-IsIndexOf files (index_file skeleton.package_name skeleton index) k.1
        (index_file-IsIndexOf skeleton.package_name skeleton index k.0 i)

  -- What a level's names are.
  abbrev pub At : DepLevel → Bytes → Type 0
  At package_level name = P name
  At file name = F name

  abbrev pub Known : DepLevel → Resolution → Type 0
  Known level (internal targets) = All (At level) targets
  Known level external_import = Unit

  is_internal-known :
      (index : WorkspaceIndex) (package_name name : Bytes) (wildcard : Bool)
      → IsIndexOf index
      → is_internal index package_name name wildcard ≡ true
      → P package_name
  unfolding is_internal
  is_internal-known index package_name name true i h =
      member-All P package_name index.packages h i.packages_known
  is_internal-known index package_name name false i h =
      get_names-key P (λ name. Unit) package_name name index.names_by_package h i.names_known

  targets_at-Known :
      (index : WorkspaceIndex) (level : DepLevel) (package_name name : Bytes) (wildcard : Bool)
      → IsIndexOf index
      → P package_name
      → All (At level) (targets_at index level package_name name wildcard)
  unfolding targets_at target_files
  targets_at-Known index package_level package_name name wildcard i p = (p, tt)
  targets_at-Known index file package_name name true i p =
      sorted_paths-All F _ (get_names-All P F package_name index.files_by_package i.files_known)
  targets_at-Known index file package_name name false i p =
      sorted_paths-All F _
        (get_symbol-All F package_name name index.files_by_symbol i.symbols_known)

  pub resolve_split-Known :
      (index : WorkspaceIndex) (level : DepLevel) (split : Option (Bytes × Bytes))
      → IsIndexOf index
      → Known level (resolve_split index level split)
  unfolding resolve_split
  resolve_split-Known index level none i = tt
  resolve_split-Known index level (some (package_name, name)) i =
      let wildcard = bytes_eq name (codes "*") in
      elim (Bool-cases (is_internal index package_name name wildcard)) [
        | inl inside ↦ rw inside (
            targets_at-Known index level package_name name wildcard i
              (is_internal-known index package_name name wildcard i inside))
        | inr outside ↦ rw outside tt
      ]
