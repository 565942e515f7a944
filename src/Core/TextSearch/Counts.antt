-- ===== src/Core/TextSearch/Counts.antt =====
-- The counts of a text search: crates/ktsense-core/src/text_search.rs.
use ktsense.Prelude.{
  ℕ, suc, ◌+◌, ◌≤◌, ◌≡◌, refl, ◌∙◌, arith, Option, none, some, List, [], ◌∷◌, Bytes, length,
  length-append, length-take, map,
}
use ktsense.Core.TextSearch.{
  TextSearchHit, TextSearchLine, TextSearchDeclaration, TextSearchFile, add_hit, by_path_from,
  insert_by_line, sort_by_line, capped, add_line, or_skeleton, group_from, group_by_declaration,
  search_file, build_text_search,
}

-- The lines that the declarations of a file show.
abbrev pub shown : List TextSearchDeclaration → ℕ
shown [] = 0
shown (g ∷ groups) = length g.hits + shown groups

abbrev pub accounted : List TextSearchFile → ℕ
accounted [] = 0
accounted (f ∷ files) = (shown f.declarations + f.omitted) + accounted files

abbrev pub gathered : List (Bytes × List TextSearchHit) → ℕ
gathered [] = 0
gathered ((path, hits) ∷ groups) = length hits + gathered groups

add_hit-gathered :
    (hit : TextSearchHit) (groups : List (Bytes × List TextSearchHit))
    → gathered (add_hit hit groups) ≡ suc (gathered groups)
unfolding add_hit
add_hit-gathered hit [] = refl
add_hit-gathered hit ((path, hits) ∷ groups) =
    ground (arith, add_hit-gathered hit groups, length-append hits (hit ∷ []))

by_path_from-gathered :
    (groups : List (Bytes × List TextSearchHit)) (hits : List TextSearchHit)
    → gathered (by_path_from groups hits) ≡ gathered groups + length hits
unfolding by_path_from
by_path_from-gathered groups [] = omega arith
by_path_from-gathered groups (hit ∷ hits) =
    omega (arith, by_path_from-gathered (add_hit hit groups) hits, add_hit-gathered hit groups)

length-insert_by_line :
    (hit : TextSearchHit) (hits : List TextSearchHit)
    → length (insert_by_line hit hits) ≡ suc (length hits)
unfolding insert_by_line
length-insert_by_line hit [] = refl
length-insert_by_line hit (h ∷ hits) = ground (arith, length-insert_by_line hit hits)

length-sort_by_line : (hits : List TextSearchHit) → length (sort_by_line hits) ≡ length hits
unfolding sort_by_line
length-sort_by_line [] = refl
length-sort_by_line (hit ∷ hits) =
    omega (arith, length-insert_by_line hit (sort_by_line hits), length-sort_by_line hits)

add_line-shown :
    (fqn : Option Bytes) (line : TextSearchLine) (groups : List TextSearchDeclaration)
    → shown (add_line fqn line groups) ≡ suc (shown groups)
unfolding add_line
add_line-shown fqn line [] = refl
add_line-shown fqn line (g ∷ []) = ground (arith, length-append g.hits (line ∷ []))
add_line-shown fqn line (g ∷ g' ∷ groups) = omega (arith, add_line-shown fqn line (g' ∷ groups))

module _ (fully_qualified_enclosing : Bytes → ℕ → Option Bytes) where
  group_from-shown :
      (path : Bytes) (groups : List TextSearchDeclaration) (hits : List TextSearchHit)
      → shown (group_from fully_qualified_enclosing path groups hits) ≡ shown groups + length hits
  unfolding group_from
  group_from-shown path groups [] = omega arith
  group_from-shown path groups (hit ∷ hits) =
      let fqn = or_skeleton hit.enclosing (fully_qualified_enclosing path hit.line) in
      let line : TextSearchLine = record {
        line = hit.line;
        kind = hit.kind;
        source_line = hit.source_line;
      } in
      omega (
        arith,
        group_from-shown path (add_line fqn line groups) hits,
        add_line-shown fqn line groups,
      )

  capped-accounts :
      (limit : Option ℕ) (hits : List TextSearchHit)
      → length (capped limit hits).0 + (capped limit hits).1 ≡ length hits
  unfolding capped
  capped-accounts none hits = omega arith
  capped-accounts (some limit) hits = ground (arith, length-take limit hits)

  search_file-accounts :
      (limit : Option ℕ) (path : Bytes) (hits : List TextSearchHit)
      → let f = search_file fully_qualified_enclosing limit (path, hits) in
        shown f.declarations + f.omitted ≡ length hits
  unfolding search_file group_by_declaration
  search_file-accounts limit path hits =
      let kept = (capped limit (sort_by_line hits)).0 in
      omega (
        arith,
        group_from-shown path [] kept,
        capped-accounts limit (sort_by_line hits),
        length-sort_by_line hits,
      )

  files-accounted :
      (limit : Option ℕ) (groups : List (Bytes × List TextSearchHit))
      → accounted (map (search_file fully_qualified_enclosing limit) groups) ≡ gathered groups
  files-accounted limit [] = refl
  files-accounted limit ((path, hits) ∷ groups) =
      omega (arith, search_file-accounts limit path hits, files-accounted limit groups)

  -- Whatever the cap, each hit is counted once: the lines that are shown and the counts of those
  -- that the cap hid, over all files, add up to the total of the heading, and that is the number of
  -- hits that were found.
  pub build_text_search-accounts :
      (pattern : Bytes) (hits : List TextSearchHit) (limit : Option ℕ)
      → (accounted (build_text_search fully_qualified_enclosing pattern hits limit).files
          ≡ (build_text_search fully_qualified_enclosing pattern hits limit).total_hits)
        × ((build_text_search fully_qualified_enclosing pattern hits limit).total_hits
            ≡ length hits)
  unfolding build_text_search
  build_text_search-accounts pattern hits limit = (
    files-accounted limit (by_path_from [] hits) ∙ by_path_from-gathered [] hits ∙ omega arith,
    refl,
  )

  capped-limit :
      (limit : ℕ) (hits : List TextSearchHit) → length (capped (some limit) hits).0 ≤ limit
  unfolding capped
  capped-limit limit hits = ground (arith, length-take limit hits)

  -- No file shows more lines than the cap.
  pub search_file-limit :
      (limit : ℕ) (path : Bytes) (hits : List TextSearchHit)
      → shown (search_file fully_qualified_enclosing (some limit) (path, hits)).declarations ≤ limit
  unfolding search_file group_by_declaration
  search_file-limit limit path hits = omega (
    arith,
    group_from-shown path [] (capped (some limit) (sort_by_line hits)).0,
    capped-limit limit (sort_by_line hits),
  )
