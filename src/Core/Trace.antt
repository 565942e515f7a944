-- ===== src/Core/Trace.antt =====
-- The callers of a symbol, and what a `trace` leaves out of its usages: the sites and the related
-- declarations of crates/ktsense-core/src/trace.rs. The map of related declarations is the list of its
-- values in the order of their keys, since each value holds its key.
pub mod Counts
pub mod Sites
pub mod Callers
pub mod Tests
use ktsense.Prelude.{
  ℕ, suc, Bool, true, false, not, ◌&&◌, ◌||◌, Option, none, some, List, [], ◌∷◌, ltb, ◌==◌,
  if◌then◌else◌, Bytes, bytes_eq,
}
use ktsense.Std.Sort.{sort_by}
use ktsense.Core.JavaText.{SiteKind}
use ktsense.Core.TextSearch.{bytes_lt}
use ktsense.Core.Filter.{SiteFilter, any, matches, is_test_source}
use ktsense.Core.References.{
  DeclKind, Location, FileSkeleton, QualifiedEnclosing, skeleton_of, fully_qualified_enclosing,
}

pub record RelatedDeclaration : Type 0 where
  pub path : Bytes
  pub line : ℕ
  pub qualified_name : Option Bytes
  pub kind : Option DeclKind
  pub sites : ℕ
  pub test : Bool

pub record ExcludedSite : Type 0 where
  pub path : Bytes
  pub line : ℕ
  pub kind : SiteKind

abbrev pub is_code_site : SiteKind → Bool
is_code_site SiteKind.code = true
is_code_site _ = false

unfoldable pub same_site : Location → Location → Bool
unfolding bytes_eq
same_site a b = bytes_eq a.path b.path && a.line == b.line

unfoldable pub implementations_other_than : List Location → Location → List Location
unfolding same_site
implementations_other_than [] definition = []
implementations_other_than (site ∷ sites) definition =
    let rest = implementations_other_than sites definition in
    if same_site site definition then rest else site ∷ rest

abbrev pub filter_matches : SiteFilter → Location → Bool
unfolding matches is_test_source
filter_matches filter site = matches filter site.path (is_test_source site.path)

-- The sites that a test keeps, and those that it drops.
unfoldable pub partition : (Location → Bool) → List Location → List Location × List Location
partition keep [] = ([], [])
partition keep (site ∷ sites) =
    let (kept, dropped) = partition keep sites in
    if keep site then (site ∷ kept, dropped) else (kept, site ∷ dropped)

unfoldable pub partition_sites : List Location → Option SiteFilter → List Location × List Location
unfolding partition filter_matches
partition_sites sites none = (sites, [])
partition_sites sites (some filter) = partition (filter_matches filter) sites

abbrev pub excluded_site : Location → ExcludedSite
excluded_site site = record { path = site.path; line = site.line; kind = site.kind }

unfoldable pub partition_by_kind : List Location → Location → List Location × List ExcludedSite
unfolding same_site
partition_by_kind [] definition = ([], [])
partition_by_kind (site ∷ references) definition =
    let (kept, excluded) = partition_by_kind references definition in
    if is_code_site site.kind || same_site site definition
    then (site ∷ kept, excluded)
    else (kept, excluded_site site ∷ excluded)

-- The entry of a site without its count: the declaration around it, or the site itself.
abbrev pub entry_of : Location → Option QualifiedEnclosing → RelatedDeclaration
unfolding is_test_source
entry_of site (some e) = record {
  path = site.path;
  line = e.line;
  qualified_name = some e.fqn;
  kind = some e.kind;
  sites = 0;
  test = is_test_source site.path;
}
entry_of site none = record {
  path = site.path;
  line = site.line;
  qualified_name = none;
  kind = none;
  sites = 0;
  test = is_test_source site.path;
}

unfoldable pub resolve_enclosing : List FileSkeleton → Location → Option QualifiedEnclosing
unfolding skeleton_of fully_qualified_enclosing
resolve_enclosing skeletons site = elim (skeleton_of skeletons site.path) [
  | none ↦ none
  | some skeleton ↦ fully_qualified_enclosing skeleton site.line
]

abbrev pub same_name : Option Bytes → Option Bytes → Bool
unfolding bytes_eq
same_name none none = true
same_name none (some b) = false
same_name (some a) none = false
same_name (some a) (some b) = bytes_eq a b

abbrev pub name_lt : Option Bytes → Option Bytes → Bool
name_lt none none = false
name_lt none (some b) = true
name_lt (some a) none = false
name_lt (some a) (some b) = bytes_lt a b

-- One key, `(path, line, qualified_name)`.
unfoldable pub same_key : RelatedDeclaration → RelatedDeclaration → Bool
unfolding bytes_eq same_name
same_key a b =
    bytes_eq a.path b.path && (a.line == b.line && same_name a.qualified_name b.qualified_name)

-- The key of the first stands before that of the second.
unfoldable pub key_lt : RelatedDeclaration → RelatedDeclaration → Bool
unfolding bytes_eq
key_lt a b =
    bytes_lt a.path b.path
    || (bytes_eq a.path b.path
        && (ltb a.line b.line || (a.line == b.line && name_lt a.qualified_name b.qualified_name)))

abbrev pub counted : RelatedDeclaration → RelatedDeclaration
counted d = record d { sites = suc d.sites }

-- `entry(key).or_insert(entry).sites += 1`
unfoldable pub count_site : RelatedDeclaration → List RelatedDeclaration → List RelatedDeclaration
unfolding same_key key_lt
count_site entry [] = counted entry ∷ []
count_site entry (d ∷ declarations) =
    let rest = count_site entry declarations in
    if same_key entry d
    then counted d ∷ declarations
    else if key_lt entry d
    then counted entry ∷ d ∷ declarations
    else d ∷ rest

unfoldable pub by_declaration :
    List FileSkeleton → List RelatedDeclaration → List Location → List RelatedDeclaration
unfolding count_site resolve_enclosing
by_declaration skeletons declarations [] = declarations
by_declaration skeletons declarations (site ∷ sites) =
    by_declaration skeletons
      (count_site (entry_of site (resolve_enclosing skeletons site)) declarations) sites

-- `false` of a test flag stands before `true`.
abbrev pub test_le : RelatedDeclaration → RelatedDeclaration → Bool
test_le a b = not a.test || b.test

unfoldable pub related_declarations : List Location → List FileSkeleton → List RelatedDeclaration
unfolding by_declaration sort_by
related_declarations sites skeletons = sort_by test_le (by_declaration skeletons [] sites)

abbrev pub is_call : List Location → Location → Bool
unfolding same_site
is_call set_aside site =
    is_code_site site.kind && not (any (λ excluded. same_site excluded site) set_aside)

unfoldable pub calling_sites : List Location → List Location → List Location
calling_sites set_aside [] = []
calling_sites set_aside (site ∷ references) =
    let rest = calling_sites set_aside references in
    if is_call set_aside site then site ∷ rest else rest

unfoldable pub callers_of :
    List Location → List Location → List FileSkeleton → List RelatedDeclaration
unfolding related_declarations calling_sites
callers_of references set_aside skeletons =
    related_declarations (calling_sites set_aside references) skeletons
