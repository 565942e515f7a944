-- ===== src/Core/TextSearch/Tests.antt =====
-- The text search and the partial-name search of crates/ktsense-core on concrete hits.
use mathlib.Core.List.{Perm}
use ktsense.Prelude.{ℕ, zero, ◌≡◌, Option, none, some, List, [], ◌∷◌, false, Bytes, codes, length}
use ktsense.Core.JavaText.{SiteKind}
use ktsense.Core.TextSearch.{TextSearchHit, build_text_search}
use ktsense.Core.TextSearch.Counts.{accounted, build_text_search-accounts}
use ktsense.Core.SymbolSearch.{SymbolMatch, contained_declarations}
use ktsense.Core.SymbolSearch.Order.{Matches, Misses, itself, Ranked, contained_declarations-Ranked}
use ktsense.Std.Split.{Split}
use ktsense.Core.Annotated.{AnnotatedDeclaration}

abbrev hit_at : Bytes → ℕ → TextSearchHit
hit_at path line = record {
  path = path;
  line = line;
  source_line = codes "val a";
  kind = SiteKind.comment;
  enclosing = none;
  java = false;
}

abbrev four_hits : List TextSearchHit
four_hits =
    hit_at (codes "b.kt") 3
    ∷ hit_at (codes "a.kt") 9
    ∷ hit_at (codes "b.kt") 1
    ∷ hit_at (codes "b.kt") 2
    ∷ []

abbrev enclosing_by_line : Bytes → ℕ → Option Bytes
enclosing_by_line path zero = none
enclosing_by_line path line = some path

build_text_search-accounts_example :
    (accounted (build_text_search enclosing_by_line (codes "a") four_hits (some 2)).files
      ≡ (build_text_search enclosing_by_line (codes "a") four_hits (some 2)).total_hits)
    × ((build_text_search enclosing_by_line (codes "a") four_hits (some 2)).total_hits
        ≡ length four_hits)
build_text_search-accounts_example =
    build_text_search-accounts enclosing_by_line (codes "a") four_hits (some 2)

abbrev named : Bytes → SymbolMatch ℕ
named name = record {
  qualified_name = name;
  simple_name = name;
  kind = 0;
  path = codes "a.kt";
  line = 1;
  signature = [];
}

abbrev three_names : List (SymbolMatch ℕ)
three_names = named (codes "reorder") ∷ named (codes "other") ∷ named (codes "order") ∷ []

contained_declarations-Ranked_example :
    (kept : List (SymbolMatch ℕ)) × (left_out : List (SymbolMatch ℕ)) × (Split
        (Matches (codes "order"))
        (Misses (codes "order"))
        (itself (codes "order"))
        three_names
        kept
        left_out
      × (Perm (contained_declarations (codes "order") three_names) kept
          × Ranked (codes "order") (contained_declarations (codes "order") three_names)))
contained_declarations-Ranked_example = contained_declarations-Ranked (codes "order") three_names

abbrev two_annotated : List (AnnotatedDeclaration ℕ)
two_annotated =
    record { path = codes "b.kt"; line = 4; fqn = codes "b.B"; kind = 0 }
    ∷ record { path = codes "a.kt"; line = 9; fqn = codes "a.A"; kind = 1 }
    ∷ []
