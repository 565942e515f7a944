-- ===== src/Core/References.antt =====
-- Reference sites by file, with the declaration around each: crates/ktsense-core/src/references.rs and the
-- fields of crates/ktsense-core/src/skeleton.rs that it reads. Names are bytes; lines are `u32`, whose
-- subtraction stops at 0 as the source's does.
pub mod Spans
pub mod Counts
pub mod Tests
use ktsense.Prelude.{
  ℕ, zero, suc, ◌+◌, ◌-◌, min, Bool, true, false, not, ◌&&◌, ◌||◌, Option, none, some, List, [],
  ◌∷◌, ◌++◌, map, ltb, leb, ◌==◌, if◌then◌else◌, Bytes, bytes_eq, codes, length, take,
}
use ktsense.Std.Str.{join_with}
use ktsense.Std.Sort.{sort_by}
use ktsense.Core.ByPath.{by_path_from}
use ktsense.Core.JavaText.{SiteKind}

pub data DeclKind : Type 0 where
  class interface object function val var type_alias enum_entry constructor : DeclKind

pub record Declaration : Type 0 where
  pub kind : DeclKind
  pub name : Bytes
  pub line : ℕ

-- A list of declarations: the first one, its children, and its later siblings.
pub data Declarations : Type 0 where
  nil : Declarations
  cons : Declaration → Declarations → Declarations → Declarations

pub record FileSkeleton : Type 0 where
  pub path : Bytes
  pub package_name : Option Bytes
  pub imports : List Bytes
  pub declarations : Declarations

pub record Location : Type 0 where
  pub path : Bytes
  pub line : ℕ
  pub column : Option ℕ
  pub kind : SiteKind

pub record GroupingOptions : Type 0 where
  pub limit : Option ℕ
  pub include_imports : Bool

pub record EnclosingDeclaration : Type 0 where
  pub kind : DeclKind
  pub qualified_name : Bytes
  pub line : ℕ

pub record Reference : Type 0 where
  pub line : ℕ
  pub column : Option ℕ
  pub enclosing : Option EnclosingDeclaration

pub record ReferenceGroup : Type 0 where
  pub path : Bytes
  pub references : List Reference
  pub omitted : ℕ

pub record QualifiedEnclosing : Type 0 where
  pub fqn : Bytes
  pub kind : DeclKind
  pub line : ℕ

pub record DeclarationSpan : Type 0 where
  pub start : ℕ
  pub end : Option ℕ

-- The last line of a declaration with these later siblings.
abbrev pub span_end : Declarations → Option ℕ → Option ℕ
span_end nil parent_end = parent_end
span_end (cons next children siblings) parent_end = some (next.line - 1)

abbrev pub reaches : Option ℕ → ℕ → Bool
reaches none line = true
reaches (some last) line = leb line last

abbrev pub spans : Declaration → Option ℕ → ℕ → Bool
spans d end line = leb d.line line && reaches end line

unfoldable pub enclosing_chain : Declarations → ℕ → Option ℕ → List Declaration
enclosing_chain nil line parent_end = []
enclosing_chain (cons d children siblings) line parent_end =
    let inner = enclosing_chain children line (span_end siblings parent_end) in
    let later = enclosing_chain siblings line parent_end in
    if spans d (span_end siblings parent_end) line then d ∷ inner else later

-- What the loop does with the answer of the children.
abbrev pub inner_or_here :
    Option DeclarationSpan
    → Bool
    → DeclarationSpan
    → Option DeclarationSpan
    → Option DeclarationSpan
inner_or_here (some inner) here span later = some inner
inner_or_here none true span later = some span
inner_or_here none false span later = later

unfoldable pub span_at : Declarations → ℕ → Option ℕ → Option DeclarationSpan
span_at nil line parent_end = none
span_at (cons d children siblings) line parent_end =
    let end = span_end siblings parent_end in
    let inner = span_at children line end in
    let later = span_at siblings line parent_end in
    if spans d end line
    then inner_or_here inner (d.line == line) (record { start = line; end = end }) later
    else later

unfoldable pub declaration_span_at : FileSkeleton → ℕ → Option DeclarationSpan
unfolding span_at
declaration_span_at skeleton line = span_at skeleton.declarations line none

abbrev pub if_none : Option Declaration → Bool → Declaration → Option Declaration
if_none (some inner) here d = some inner
if_none none true d = some d
if_none none false d = none

-- `.into_iter().rev().find(..)`: the last of the chain that starts on the line
unfoldable pub last_starting_at : ℕ → List Declaration → Option Declaration
last_starting_at line [] = none
last_starting_at line (d ∷ chain) = if_none (last_starting_at line chain) (d.line == line) d

unfoldable pub declaration_starting_at : FileSkeleton → ℕ → Option Declaration
unfolding last_starting_at enclosing_chain
declaration_starting_at skeleton line =
    last_starting_at line (enclosing_chain skeleton.declarations line none)

abbrev pub nonempty_names : List Declaration → List Bytes
nonempty_names [] = []
nonempty_names (d ∷ chain) =
    let rest = nonempty_names chain in if bytes_eq d.name [] then rest else d.name ∷ rest

abbrev pub innermost : Declaration → List Declaration → Declaration
innermost d [] = d
innermost d (d' ∷ chain) = innermost d' chain

unfoldable pub from_chain : Declaration → List Declaration → EnclosingDeclaration
unfolding join_with
from_chain d chain =
    let last = innermost d chain in
    record {
      kind = last.kind;
      qualified_name = join_with b'.' (nonempty_names (d ∷ chain));
      line = last.line;
    }

unfoldable pub chain_enclosing : List Declaration → Option EnclosingDeclaration
unfolding from_chain
chain_enclosing [] = none
chain_enclosing (d ∷ chain) = some (from_chain d chain)

unfoldable pub enclosing_declaration : FileSkeleton → ℕ → Option EnclosingDeclaration
unfolding chain_enclosing enclosing_chain
enclosing_declaration skeleton line =
    chain_enclosing (enclosing_chain skeleton.declarations line none)

abbrev pub qualified : Option Bytes → EnclosingDeclaration → Bytes
qualified (some package_name) e =
    if bytes_eq e.qualified_name []
    then package_name
    else package_name ++ codes "." ++ e.qualified_name
qualified none e = e.qualified_name

unfoldable pub fully_qualified_enclosing : FileSkeleton → ℕ → Option QualifiedEnclosing
unfolding enclosing_declaration bytes_eq
fully_qualified_enclosing skeleton line = elim (enclosing_declaration skeleton line) [
  | none ↦ none
  | some e ↦ some (record { fqn = qualified skeleton.package_name e; kind = e.kind; line = e.line })
]

abbrev pub least : ℕ → Option ℕ → Option ℕ
least line none = some line
least line (some other) = some (min line other)

-- Of the declarations of the list, not of their children.
unfoldable pub first_declaration_line : Declarations → Option ℕ
first_declaration_line nil = none
first_declaration_line (cons d children siblings) = least d.line (first_declaration_line siblings)

unfoldable pub in_header : Option ℕ → ℕ → Bool
in_header none line = false
in_header (some boundary) line = ltb line boundary

abbrev pub column_le : Option ℕ → Option ℕ → Bool
column_le none c = true
column_le (some c) none = false
column_le (some a) (some b) = leb a b

-- `(line, column)` of the first is not behind that of the second.
unfoldable pub reference_le : Reference → Reference → Bool
reference_le a b = ltb a.line b.line || (a.line == b.line && column_le a.column b.column)

abbrev pub header_boundary : Option FileSkeleton → Option ℕ
unfolding first_declaration_line
header_boundary none = none
header_boundary (some skeleton) = first_declaration_line skeleton.declarations

abbrev pub enclosing_in : Option FileSkeleton → ℕ → Option EnclosingDeclaration
unfolding enclosing_declaration
enclosing_in none line = none
enclosing_in (some skeleton) line = enclosing_declaration skeleton line

abbrev pub reference_at : Option FileSkeleton → Location → Reference
unfolding enclosing_in
reference_at skeleton location = record {
  line = location.line;
  column = location.column;
  enclosing = enclosing_in skeleton location.line;
}

-- The sites that are kept, as references.
unfoldable pub kept_references : Option FileSkeleton → Bool → List Location → List Reference
unfolding header_boundary in_header reference_at
kept_references skeleton include_imports [] = []
kept_references skeleton include_imports (location ∷ sites) =
    let rest = kept_references skeleton include_imports sites in
    if include_imports || not (in_header (header_boundary skeleton) location.line)
    then reference_at skeleton location ∷ rest
    else rest

-- What the cap leaves of a list, and how many it drops.
abbrev pub truncated {ℓ} : {A : Type ℓ} → Option ℕ → List A → List A × ℕ
truncated none xs = (xs, 0)
truncated (some limit) xs =
    if ltb limit (length xs) then (take limit xs, length xs - limit) else (xs, 0)

unfoldable pub capped_references :
    List Location → Option FileSkeleton → GroupingOptions → List Reference × ℕ
unfolding kept_references reference_le sort_by
capped_references sites skeleton options =
    truncated options.limit
      (sort_by reference_le (kept_references skeleton options.include_imports sites))

-- A map that is collected from pairs holds the last of those with one key.
unfoldable pub skeleton_of : List FileSkeleton → Bytes → Option FileSkeleton
unfolding bytes_eq
skeleton_of [] path = none
skeleton_of (skeleton ∷ skeletons) path = elim (skeleton_of skeletons path) [
  | some later ↦ some later
  | none ↦ if bytes_eq skeleton.path path then some skeleton else none
]

abbrev pub location_path : Location → Bytes
location_path location = location.path

unfoldable pub group_of :
    List FileSkeleton → GroupingOptions → Bytes × List Location → ReferenceGroup
unfolding capped_references skeleton_of
group_of skeletons options (path, sites) =
    let (references, omitted) = capped_references sites (skeleton_of skeletons path) options in
    record { path = path; references = references; omitted = omitted }

unfoldable pub group_references :
    List Location → List FileSkeleton → GroupingOptions → List ReferenceGroup
unfolding group_of by_path_from
group_references locations skeletons options =
    map (group_of skeletons options) (by_path_from location_path [] locations)
