-- ===== src/Mcp/Citations/Index.antt =====
-- What the index of an answer holds: `Scan` of crates/ktsense-mcp/src/citations.rs.
use ktsense.Prelude.{
  ℕ, zero, suc, refl, Bool-cases, inl, inr, Option, none, some, List, [], ◌∷◌, reverse, arith, ◌==◌,
  Bytes, codes, All,
}
use ktsense.Std.Str.{trim}
use ktsense.Mcp.Citations.{
  Citation, Scan, is_source_path, strip_prefix, when_source_path, heading_path, heading_of,
  number_at, grouped_line, path_run, position_of, found_here, positions_from, positions, cite, mark,
  cite_grouped, place_line, cite_all, scan_line, scan_lines, empty_scan, lines_from, scan_of,
}
use ktsense.Mcp.Citations.Citing.{IsSourcePath, IsIndex, note_file-IsIndex, cite-IsIndex}

mark-IsIndex : (marker : Option Bytes) (scan : Scan) → IsIndex scan → IsIndex (mark marker scan)
unfolding mark
mark-IsIndex none scan i = i
mark-IsIndex (some marker) scan i = record {
  files_source = i.files_source;
  files_distinct = i.files_distinct;
  citations_listed = i.citations_listed;
  citations_distinct = i.citations_distinct;
  within_cap = i.within_cap;
  omitted_full = i.omitted_full;
}

-- A group, if there is one, is a source path.
abbrev pub IsGroup : Option Bytes → Type 0
IsGroup none = Unit
IsGroup (some path) = IsSourcePath path

when_source_path-IsGroup : (rest : Bytes) → IsGroup (when_source_path rest)
unfolding when_source_path
when_source_path-IsGroup rest = elim (Bool-cases (is_source_path rest)) [
  | inl source ↦ rw source source
  | inr other ↦ rw other tt
]

heading_of-IsGroup : (rest : Option Bytes) → IsGroup (heading_of rest)
unfolding heading_of
heading_of-IsGroup none = tt
heading_of-IsGroup (some rest) = when_source_path-IsGroup (trim rest)

heading_path-IsGroup : (line : Bytes) → IsGroup (heading_path line)
unfolding heading_path
heading_path-IsGroup line = heading_of-IsGroup (strip_prefix line (codes "## "))

cite_grouped-IsIndex :
    (group : Option Bytes) (line : Option ℕ) (scan : Scan)
    → IsGroup group
    → IsIndex scan
    → IsIndex (cite_grouped group line scan)
unfolding cite_grouped
cite_grouped-IsIndex none line scan g i = i
cite_grouped-IsIndex (some path) none scan g i = i
cite_grouped-IsIndex (some path) (some line) scan g i = cite-IsIndex _ scan g i

-- What a turn of the loop leaves.
abbrev IsTurn : Scan × Option Bytes → Type 0
IsTurn r = IsIndex r.0 × IsGroup r.1

place_line-IsTurn :
    (heading : Option Bytes) (trimmed : Bytes) (group : Option Bytes) (scan : Scan)
    → IsGroup heading
    → IsGroup group
    → IsIndex scan
    → IsTurn (place_line heading trimmed group scan)
unfolding place_line
place_line-IsTurn (some path) trimmed group scan h g i = (note_file-IsIndex path scan h i, h)
place_line-IsTurn none trimmed group scan h g i = elim (Bool-cases (is_source_path trimmed)) [
  | inl source ↦ rw source (note_file-IsIndex trimmed scan source i, source)
  | inr other ↦ rw other (cite_grouped-IsIndex group (grouped_line trimmed) scan g i, g)
]

abbrev CitesSource : Citation → Type 0
CitesSource c = IsSourcePath c.path

abbrev FoundSource : Option (Citation × ℕ) → Type 0
FoundSource none = Unit
FoundSource (some found) = CitesSource found.0

position_of-FoundSource :
    (path s : Bytes) (number : Option (ℕ × ℕ)) → FoundSource (position_of path s number)
unfolding position_of
position_of-FoundSource path s none = tt
position_of-FoundSource path s (some (line, digits)) = elim (Bool-cases (is_source_path path)) [
  | inl source ↦ rw source source
  | inr other ↦ rw other tt
]

found_here-All :
    (found : Option (Citation × ℕ)) (next : ℕ → List Citation)
    → FoundSource found
    → ((skip : ℕ) → All CitesSource (next skip))
    → All CitesSource (found_here found next)
found_here-All none next f n = n 0
found_here-All (some (c, consumed)) next f n = (f, n consumed)

positions_from-All : (skip : ℕ) (before s : Bytes) → All CitesSource (positions_from skip before s)
unfolding positions_from
positions_from-All skip before [] = tt
positions_from-All (suc skip) before (c ∷ s) = positions_from-All skip (c ∷ before) s
positions_from-All zero before (c ∷ s) = elim (Bool-cases (c == b':')) [
  | inl colon ↦ rw colon (
      found_here-All (position_of (reverse (path_run before)) s (number_at s))
        (λ skip. positions_from skip (c ∷ before) s)
        (position_of-FoundSource (reverse (path_run before)) s (number_at s))
        (λ skip. positions_from-All skip (c ∷ before) s))
  | inr other ↦ rw other (positions_from-All 0 (c ∷ before) s)
]

cite_all-IsIndex :
    (citations : List Citation) (scan : Scan)
    → All CitesSource citations
    → IsIndex scan
    → IsIndex (cite_all citations scan)
unfolding cite_all
cite_all-IsIndex [] scan a i = i
cite_all-IsIndex (c ∷ citations) scan a i =
    cite_all-IsIndex citations (cite c scan) a.1 (cite-IsIndex c scan a.0 i)

scan_line-IsTurn :
    (line : Bytes) (group : Option Bytes) (scan : Scan)
    → IsGroup group
    → IsIndex scan
    → IsTurn (scan_line line group scan)
unfolding scan_line positions
scan_line-IsTurn line group scan g i =
    let trimmed = trim line in
    let marker = strip_prefix trimmed (codes "index: ") in
    let placed =
      place_line-IsTurn (heading_path trimmed) trimmed group (mark marker scan)
        (heading_path-IsGroup trimmed) g (mark-IsIndex marker scan i) in
    (cite_all-IsIndex (positions line) _ (positions_from-All 0 [] line) placed.0, placed.1)

scan_lines-IsIndex :
    (lines : List Bytes) (group : Option Bytes) (scan : Scan)
    → IsGroup group
    → IsIndex scan
    → IsIndex (scan_lines lines group scan)
unfolding scan_lines
scan_lines-IsIndex [] group scan g i = i
scan_lines-IsIndex (line ∷ lines) group scan g i =
    let turn = scan_line-IsTurn line group scan g i in
    scan_lines-IsIndex lines (scan_line line group scan).1 (scan_line line group scan).0 turn.1
      turn.0

-- Of every answer: the files of the index are Kotlin source paths and differ from each other, so do the
-- citations, each cites a file of the index, there are at most 500 of them, and the count of those left
-- out is 0 unless there are exactly 500.
pub scan_of-IsIndex : (text : Bytes) → IsIndex (scan_of text)
unfolding scan_of
scan_of-IsIndex text = scan_lines-IsIndex (lines_from [] text) none empty_scan tt (record {
  files_source = tt;
  files_distinct = tt;
  citations_listed = tt;
  citations_distinct = tt;
  within_cap = omega arith;
  omitted_full = inl refl;
})
