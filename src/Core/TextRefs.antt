-- ===== src/Core/TextRefs.antt =====
-- Where a name that nothing declares appears as text: crates/ktsense-core/src/text_refs.rs. The source
-- line and the declaration that a caller shows beside a site are its `attribute`; the constant precision
-- is left out.
pub mod Counts
use ktsense.Prelude.{
  ℕ, zero, suc, ◌-◌, Bool, true, false, ◌&&◌, ◌||◌, Option, none, some, List, [], ◌∷◌, map, ltb,
  leb, ◌==◌, if◌then◌else◌, Bytes, length, take,
}
use ktsense.Std.Sort.{sort_by}
use ktsense.Core.ByPath.{by_path_from}
use ktsense.Core.JavaText.{SiteKind}
use ktsense.Core.TextSearch.{is_text_mention}
use ktsense.Core.References.{
  Location, FileSkeleton, QualifiedEnclosing, column_le, truncated, location_path, skeleton_of,
  fully_qualified_enclosing,
}

pub record TextReferenceSite : Type 0 where
  pub line : ℕ
  pub kind : SiteKind
  pub enclosing : Option Bytes
  pub text : Option Bytes

pub record TextReferenceGroup : Type 0 where
  pub path : Bytes
  pub sites : List TextReferenceSite
  pub omitted : ℕ

pub record TextReferences : Type 0 where
  pub symbol : Bytes
  pub total_sites : ℕ
  pub file_count : ℕ
  pub text_mention_sites : ℕ
  pub groups : List TextReferenceGroup

unfoldable pub mention_sites : List Location → ℕ
mention_sites [] = 0
mention_sites (site ∷ sites) =
    let rest = mention_sites sites in if is_text_mention site.kind then suc rest else rest

-- `(line, column)` of the first is not behind that of the second.
unfoldable pub site_le : Location → Location → Bool
site_le a b = ltb a.line b.line || (a.line == b.line && column_le a.column b.column)

module _ (attribute : Bytes → ℕ → Option Bytes × Option Bytes) where
  unfoldable pub site_of : Bytes → Location → TextReferenceSite
  site_of path site =
      let (enclosing, text) = attribute path site.line in
      record { line = site.line; kind = site.kind; enclosing = enclosing; text = text }

  unfoldable pub text_group : Option ℕ → Bytes × List Location → TextReferenceGroup
  unfolding site_of site_le sort_by
  text_group limit (path, sites) =
      let (kept, omitted) = truncated limit (sort_by site_le sites) in
      record { path = path; sites = map (site_of path) kept; omitted = omitted }

  unfoldable pub build_grouped : Bytes → List Location → Option ℕ → TextReferences
  unfolding text_group by_path_from mention_sites
  build_grouped symbol sites limit =
      let groups = map (text_group limit) (by_path_from location_path [] sites) in
      record {
        symbol = symbol;
        total_sites = length sites;
        file_count = length groups;
        text_mention_sites = mention_sites sites;
        groups = groups;
      }

unfoldable pub build_text_references : Bytes → List Location → Option ℕ → TextReferences
unfolding build_grouped
build_text_references symbol sites limit =
    build_grouped (λ path line. (none, none)) symbol sites limit

abbrev pub fqn_of : Option QualifiedEnclosing → Option Bytes
fqn_of none = none
fqn_of (some e) = some e.fqn

abbrev pub enclosing_fqn : Option FileSkeleton → ℕ → Option Bytes
unfolding fully_qualified_enclosing
enclosing_fqn none line = none
enclosing_fqn (some skeleton) line = fqn_of (fully_qualified_enclosing skeleton line)

unfoldable pub build_text_references_attributed :
    Bytes → List Location → List FileSkeleton → Option ℕ → TextReferences
unfolding build_grouped enclosing_fqn skeleton_of
build_text_references_attributed symbol sites skeletons limit =
    build_grouped (λ path line. (enclosing_fqn (skeleton_of skeletons path) line, none)) symbol
      sites limit

unfoldable pub build_text_references_with_text :
    (Bytes → ℕ → Option Bytes × Option Bytes) → Bytes → List Location → Option ℕ → TextReferences
unfolding build_grouped
build_text_references_with_text attribute symbol sites limit =
    build_grouped attribute symbol sites limit
