-- ===== src/Mcp/Roots.antt =====
-- Which root a call is about: crates/ktsense-mcp/src/roots.rs. A path is its text. What the file system holds is a parameter.
pub mod Resolve
use ktsense.Prelude.{
  ℕ, Bool, true, false, ◌&&◌, ◌||◌, Option, none, some, List, [], ◌∷◌, ◌++◌, if◌then◌else◌, Bytes,
  bytes_eq, codes, ◌==◌,
}
use ktsense.Mcp.Paths.{is_absolute, path_starts_with}

module _ (exists_under : Bytes → Bytes → Bool) (canonicalize : Bytes → Option Bytes) where
  abbrev pub canonical_holds : Option Bytes → Option Bytes → Bool
  unfolding path_starts_with
  canonical_holds (some root) (some subject) = path_starts_with subject root
  canonical_holds none subject = false
  canonical_holds (some root) none = false

  unfoldable pub holds : Bytes → Bytes → Bool
  unfolding is_absolute path_starts_with canonical_holds
  holds root subject =
      if is_absolute subject
      then (if path_starts_with subject root
          then true
          else canonical_holds (canonicalize root) (canonicalize subject))
      else exists_under root subject

  unfoldable pub containing : List Bytes → Bytes → Option Bytes
  unfolding holds
  containing [] subject = none
  containing (root ∷ roots) subject =
      let rest = containing roots subject in if holds root subject then some root else rest

  abbrev pub first_root : List Bytes → Option Bytes
  first_root [] = none
  first_root (root ∷ roots) = some root

  abbrev pub or_first : Option Bytes → List Bytes → Option Bytes
  or_first (some root) roots = some root
  or_first none roots = first_root roots

  abbrev pub containing_subject : List Bytes → Option Bytes → Option Bytes
  unfolding containing
  containing_subject roots none = none
  containing_subject roots (some subject) = containing roots subject

  unfoldable pub resolve : List Bytes → Option Bytes → Option Bytes → Option Bytes
  unfolding containing_subject
  resolve roots (some named) subject = some named
  resolve roots none subject = or_first (containing_subject roots subject) roots
