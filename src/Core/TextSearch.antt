-- ===== src/Core/TextSearch.antt =====
-- Grouping the hits of a text search: crates/ktsense-core/src/text_search.rs. Paths and lines of text
-- are bytes; the declaration that encloses a line of a file, which a skeleton gives, is a parameter.
pub mod Counts
pub mod Tests
use ktsense.Prelude.{
  ℕ, zero, suc, ◌+◌, ◌-◌, ◌≤◌, ◌≡◌, refl, Bool, true, false, not, ◌&&◌, ◌||◌, Bool-cases, Option,
  none, some, List, [], ◌∷◌, ◌++◌, arith, ltb, leb, ◌==◌, if◌then◌else◌, Bytes, bytes_eq, length,
  length-append, take, map, inl, inr,
}
use ktsense.Core.JavaText.{SiteKind}
use ktsense.Core.Filter.{is_test_source}

pub record TextSearchHit : Type 0 where
  pub path : Bytes
  pub line : ℕ
  pub source_line : Bytes
  pub kind : SiteKind
  pub enclosing : Option Bytes
  pub java : Bool

pub record TextSearchLine : Type 0 where
  pub line : ℕ
  pub kind : SiteKind
  pub source_line : Bytes

pub record TextSearchDeclaration : Type 0 where
  pub fqn : Option Bytes
  pub hits : List TextSearchLine

pub record TextSearchFile : Type 0 where
  pub path : Bytes
  pub test : Bool
  pub java : Bool
  pub declarations : List TextSearchDeclaration
  pub omitted : ℕ

pub record TextSearch : Type 0 where
  pub pattern : Bytes
  pub total_hits : ℕ
  pub file_count : ℕ
  pub text_mention_hits : ℕ
  pub files : List TextSearchFile

abbrev pub is_text_mention : SiteKind → Bool
is_text_mention SiteKind.code = false
is_text_mention SiteKind.comment = true
is_text_mention SiteKind.kdoc = true
is_text_mention SiteKind.string = true
is_text_mention SiteKind.declaration_name = false

-- The hits that are mentions.
unfoldable pub mentions : List TextSearchHit → ℕ
mentions [] = 0
mentions (hit ∷ hits) =
    let rest = mentions hits in if is_text_mention hit.kind then suc rest else rest

-- `str`'s order
abbrev pub bytes_lt : Bytes → Bytes → Bool
bytes_lt [] [] = false
bytes_lt [] (b ∷ ys) = true
bytes_lt (a ∷ xs) [] = false
bytes_lt (a ∷ xs) (b ∷ ys) =
    let rest = bytes_lt xs ys in if ltb a b then true else if a == b then rest else false

-- `entry(path).or_default().push(hit)` on the map in its order
unfoldable pub add_hit :
    TextSearchHit → List (Bytes × List TextSearchHit) → List (Bytes × List TextSearchHit)
unfolding bytes_eq
add_hit hit [] = (hit.path, hit ∷ []) ∷ []
add_hit hit ((path, hits) ∷ groups) =
    let rest = add_hit hit groups in
    if bytes_eq hit.path path
    then (path, hits ++ (hit ∷ [])) ∷ groups
    else if bytes_lt hit.path path
    then (hit.path, hit ∷ []) ∷ (path, hits) ∷ groups
    else (path, hits) ∷ rest

unfoldable pub by_path_from :
    List (Bytes × List TextSearchHit) → List TextSearchHit → List (Bytes × List TextSearchHit)
unfolding add_hit
by_path_from groups [] = groups
by_path_from groups (hit ∷ hits) = by_path_from (add_hit hit groups) hits

-- `sort_by_key(|hit| hit.line)`, which is stable
unfoldable pub insert_by_line : TextSearchHit → List TextSearchHit → List TextSearchHit
insert_by_line hit [] = hit ∷ []
insert_by_line hit (h ∷ hits) =
    let rest = insert_by_line hit hits in if leb hit.line h.line then hit ∷ h ∷ hits else h ∷ rest

unfoldable pub sort_by_line : List TextSearchHit → List TextSearchHit
unfolding insert_by_line
sort_by_line [] = []
sort_by_line (hit ∷ hits) = insert_by_line hit (sort_by_line hits)

-- What a cap keeps of a file's hits and how many it drops.
unfoldable pub capped : Option ℕ → List TextSearchHit → List TextSearchHit × ℕ
capped none hits = (hits, 0)
capped (some limit) hits =
    if ltb limit (length hits) then (take limit hits, length hits - limit) else (hits, 0)

unfoldable pub same_fqn : Option Bytes → Option Bytes → Bool
unfolding bytes_eq
same_fqn none none = true
same_fqn none (some b) = false
same_fqn (some a) none = false
same_fqn (some a) (some b) = bytes_eq a b

-- A line joins the last group or opens one.
unfoldable pub add_line :
    Option Bytes → TextSearchLine → List TextSearchDeclaration → List TextSearchDeclaration
unfolding same_fqn
add_line fqn line [] = record { fqn = fqn; hits = line ∷ [] } ∷ []
add_line fqn line (g ∷ []) =
    if same_fqn g.fqn fqn
    then record g { hits = g.hits ++ (line ∷ []) } ∷ []
    else g ∷ record { fqn = fqn; hits = line ∷ [] } ∷ []
add_line fqn line (g ∷ g' ∷ groups) = g ∷ add_line fqn line (g' ∷ groups)

abbrev pub first_is_java : List TextSearchHit → Bool
first_is_java [] = false
first_is_java (hit ∷ hits) = hit.java

abbrev pub or_skeleton : Option Bytes → Option Bytes → Option Bytes
or_skeleton (some fqn) skeleton = some fqn
or_skeleton none skeleton = skeleton

-- The name that the skeleton of a file gives for a line, if the file has one.
module _ (fully_qualified_enclosing : Bytes → ℕ → Option Bytes) where
  unfoldable pub group_from :
      Bytes → List TextSearchDeclaration → List TextSearchHit → List TextSearchDeclaration
  unfolding add_line
  group_from path groups [] = groups
  group_from path groups (hit ∷ hits) =
      group_from path
        (add_line (or_skeleton hit.enclosing (fully_qualified_enclosing path hit.line))
          (record { line = hit.line; kind = hit.kind; source_line = hit.source_line }) groups)
        hits

  unfoldable pub group_by_declaration : Bytes → List TextSearchHit → List TextSearchDeclaration
  unfolding group_from
  group_by_declaration path hits = group_from path [] hits

  unfoldable pub search_file : Option ℕ → Bytes × List TextSearchHit → TextSearchFile
  unfolding capped sort_by_line group_by_declaration
  search_file limit (path, hits) =
      let (kept, omitted) = capped limit (sort_by_line hits) in
      record {
        path = path;
        test = is_test_source path;
        java = first_is_java kept;
        declarations = group_by_declaration path kept;
        omitted = omitted;
      }

  pub build_text_search : Bytes → List TextSearchHit → Option ℕ → TextSearch
  unfolding search_file by_path_from mentions
  build_text_search pattern hits limit =
      let files = map (search_file limit) (by_path_from [] hits) in
      record {
        pattern = pattern;
        total_hits = length hits;
        file_count = length files;
        text_mention_hits = mentions hits;
        files = files;
      }
