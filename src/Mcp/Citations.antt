-- ===== src/Mcp/Citations.antt =====
-- The citations of an answer: crates/ktsense-mcp/src/citations.rs. Text is its code points; an offset
-- into a line is the suffix that starts there, with the characters before it, last first.
pub mod Citing
pub mod Index
use ktsense.Prelude.{
  ℕ, zero, suc, ◌+◌, ◌-◌, Bool, true, false, not, ◌&&◌, ◌||◌, Option, none, some, List, [], ◌∷◌,
  ◌++◌, reverse, leb, ltb, ◌==◌, if◌then◌else◌, Bytes, codes, bytes_eq, starts_with, ends_with,
  length, drop,
}
use ktsense.Std.Str.{trim, trim_start}
use ktsense.Std.Number.{is_ascii_digit, parse_number, u32_modulus}

abbrev pub max_citations : ℕ
max_citations = 500

pub record Citation : Type 0 where
  pub path : Bytes
  pub line : ℕ
  pub column : Option ℕ

pub record Scan : Type 0 where
  pub index : Option Bytes
  pub files : List Bytes
  pub citations : List Citation
  pub omitted : ℕ

abbrev pub is_ascii_alphanumeric : ℕ → Bool
is_ascii_alphanumeric c =
    is_ascii_digit c || ((leb b'A' c && leb c b'Z') || (leb b'a' c && leb c b'z'))

unfoldable pub is_path_character : ℕ → Bool
is_path_character c =
    is_ascii_alphanumeric c
    || (c == b'.' || (c == b'_' || (c == b'/' || (c == b'-' || (c == b'+' || c == b'~')))))

abbrev pub all_path_characters : Bytes → Bool
unfolding is_path_character
all_path_characters [] = true
all_path_characters (c ∷ s) = is_path_character c && all_path_characters s

unfoldable pub has_suffix : Bytes → Bytes → Bool
unfolding ends_with
has_suffix text suffix = ltb (length suffix) (length text) && ends_with text suffix

unfoldable pub is_source_path : Bytes → Bool
unfolding has_suffix all_path_characters bytes_eq
is_source_path text =
    not (bytes_eq text [])
    && (all_path_characters text
        && (has_suffix text (codes ".kt") || has_suffix text (codes ".kts")))

-- `s.strip_prefix(p)`
unfoldable pub strip_prefix : Bytes → Bytes → Option Bytes
unfolding starts_with
strip_prefix s p = if starts_with s p then some (drop (length p) s) else none

abbrev pub when_source_path : Bytes → Option Bytes
unfolding is_source_path
when_source_path rest = if is_source_path rest then some rest else none

abbrev pub heading_of : Option Bytes → Option Bytes
unfolding trim when_source_path
heading_of none = none
heading_of (some rest) = when_source_path (trim rest)

unfoldable pub heading_path : Bytes → Option Bytes
unfolding strip_prefix heading_of
heading_path line = heading_of (strip_prefix line (codes "## "))

abbrev pub leading_digits : Bytes → Bytes
leading_digits [] = []
leading_digits (c ∷ s) = let rest = leading_digits s in if is_ascii_digit c then c ∷ rest else []

abbrev pub parsed_digits : Bytes → Option (ℕ × ℕ)
unfolding parse_number
parsed_digits digits = elim (parse_number u32_modulus digits) [
  | none ↦ none
  | some n ↦ some (n, length digits)
]

-- The number at the start of the text, with how many digits it has.
unfoldable pub number_at : Bytes → Option (ℕ × ℕ)
unfolding parsed_digits
number_at [] = none
number_at (c ∷ s) = if is_ascii_digit c then parsed_digits (leading_digits (c ∷ s)) else none

abbrev pub usage_tail : ℕ → Bytes → Option ℕ
unfolding bytes_eq starts_with
usage_tail n tail = if bytes_eq tail [] || starts_with tail (codes "in ") then some n else none

abbrev pub usage_item : Bytes → Option ℕ
unfolding number_at usage_tail trim_start
usage_item rest = elim (number_at rest) [
  | none ↦ none
  | some (n, digits) ↦ usage_tail n (trim_start (drop digits rest))
]

unfoldable pub grouped_line : Bytes → Option ℕ
unfolding strip_prefix usage_item
grouped_line line = elim (strip_prefix line (codes "- ")) [
  | none ↦ none
  | some rest ↦ usage_item rest
]

-- Of the characters before an offset, last first, those of the run that ends there.
abbrev pub path_run : Bytes → Bytes
unfolding is_path_character
path_run [] = []
path_run (c ∷ before) = let rest = path_run before in if is_path_character c then c ∷ rest else []

-- The column behind the line number, with how many characters it and its colon have.
abbrev pub column_at : Bytes → Option ℕ × ℕ
unfolding number_at
column_at [] = (none, 0)
column_at (c ∷ s) =
    if c == b':'
    then elim (number_at s) [ none ↦ (none, 0) | some (column, digits) ↦ (some column, suc digits) ]
    else (none, 0)

-- At a colon: the citation there, with how many characters behind the colon it has.
abbrev pub position_of : Bytes → Bytes → Option (ℕ × ℕ) → Option (Citation × ℕ)
unfolding is_source_path column_at
position_of path s none = none
position_of path s (some (line_number, digits)) =
    let (column, more) = column_at (drop digits s) in
    if is_source_path path
    then some (record { path = path; line = line_number; column = column }, digits + more)
    else none

abbrev pub found_here : Option (Citation × ℕ) → (ℕ → List Citation) → List Citation
found_here none next = next 0
found_here (some (citation, consumed)) next = citation ∷ next consumed

-- `skip` counts the characters that a citation has already taken.
unfoldable pub positions_from : ℕ → Bytes → Bytes → List Citation
unfolding number_at position_of path_run
positions_from skip before [] = []
positions_from (suc skip) before (c ∷ s) = positions_from skip (c ∷ before) s
positions_from zero before (c ∷ s) =
    let next = λ (skip : ℕ). positions_from skip (c ∷ before) s in
    if c == b':'
    then found_here (position_of (reverse (path_run before)) s (number_at s)) next
    else next 0

unfoldable pub positions : Bytes → List Citation
unfolding positions_from
positions line = positions_from 0 [] line

unfoldable pub knows_file : Bytes → List Bytes → Bool
unfolding bytes_eq
knows_file path [] = false
knows_file path (known ∷ files) = bytes_eq known path || knows_file path files

unfoldable pub note_file : Bytes → Scan → Scan
unfolding knows_file
note_file path scan =
    if knows_file path scan.files then scan else record scan { files = scan.files ++ (path ∷ []) }

abbrev pub same_column : Option ℕ → Option ℕ → Bool
same_column none none = true
same_column none (some b) = false
same_column (some a) none = false
same_column (some a) (some b) = a == b

unfoldable pub same_citation : Citation → Citation → Bool
unfolding bytes_eq
same_citation a b = bytes_eq a.path b.path && (a.line == b.line && same_column a.column b.column)

unfoldable pub contains_citation : Citation → List Citation → Bool
unfolding same_citation
contains_citation citation [] = false
contains_citation citation (known ∷ citations) =
    same_citation known citation || contains_citation citation citations

abbrev pub push_citation : Citation → Scan → Scan
push_citation citation scan = record scan { citations = scan.citations ++ (citation ∷ []) }

unfoldable pub cite : Citation → Scan → Scan
unfolding contains_citation note_file
cite citation scan =
    if contains_citation citation scan.citations
    then scan
    else if length scan.citations == max_citations
    then record scan { omitted = scan.omitted + 1 }
    else push_citation citation (note_file citation.path scan)

abbrev pub get_or_insert : Option Bytes → Bytes → Option Bytes
get_or_insert none marker = some marker
get_or_insert (some kept) marker = some kept

abbrev pub mark : Option Bytes → Scan → Scan
unfolding trim
mark none scan = scan
mark (some marker) scan = record scan { index = get_or_insert scan.index (trim marker) }

unfoldable pub cite_grouped : Option Bytes → Option ℕ → Scan → Scan
unfolding cite
cite_grouped none line scan = scan
cite_grouped (some path) none scan = scan
cite_grouped (some path) (some line) scan =
    cite (record { path = path; line = line; column = none }) scan

-- The three ways of a line to stand for a file or in a group.
abbrev pub place_line : Option Bytes → Bytes → Option Bytes → Scan → Scan × Option Bytes
unfolding note_file is_source_path cite_grouped grouped_line
place_line (some path) trimmed group scan = (note_file path scan, some path)
place_line none trimmed group scan =
    if is_source_path trimmed
    then (note_file trimmed scan, some trimmed)
    else (cite_grouped group (grouped_line trimmed) scan, group)

unfoldable pub cite_all : List Citation → Scan → Scan
unfolding cite
cite_all [] scan = scan
cite_all (citation ∷ citations) scan = cite_all citations (cite citation scan)

-- One turn of the loop over the lines, with the group.
unfoldable pub scan_line : Bytes → Option Bytes → Scan → Scan × Option Bytes
unfolding mark place_line heading_path strip_prefix trim positions cite_all
scan_line line group scan =
    let trimmed = trim line in
    let (placed, group') =
      place_line (heading_path trimmed) trimmed group
        (mark (strip_prefix trimmed (codes "index: ")) scan) in
    (cite_all (positions line) placed, group')

unfoldable pub scan_lines : List Bytes → Option Bytes → Scan → Scan
unfolding scan_line
scan_lines [] group scan = scan
scan_lines (line ∷ lines) group scan =
    let (scan', group') = scan_line line group scan in scan_lines lines group' scan'

abbrev pub empty_scan : Scan
empty_scan = record { index = none; files = []; citations = []; omitted = 0 }

-- A line without the carriage return at its end.
abbrev pub without_return : Bytes → Bytes
without_return [] = []
without_return (c ∷ []) = if c == b'\r' then [] else c ∷ []
without_return (c ∷ d ∷ line) = c ∷ without_return (d ∷ line)

-- `text.lines()`, from the line read so far, last character first: the break that ends the text opens
-- no line, and the line that no break ends keeps a carriage return.
unfoldable pub lines_from : Bytes → Bytes → List Bytes
lines_from [] [] = []
lines_from (c ∷ line) [] = reverse (c ∷ line) ∷ []
lines_from line (c ∷ text) =
    let rest = lines_from [] text in
    let more = lines_from (c ∷ line) text in
    if c == b'\n' then without_return (reverse line) ∷ rest else more

unfoldable pub scan_of : Bytes → Scan
unfolding scan_lines lines_from
scan_of text = scan_lines (lines_from [] text) none empty_scan
