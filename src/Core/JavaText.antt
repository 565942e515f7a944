-- ===== src/Core/JavaText.antt =====
-- The lexical states of Java source: crates/ktsense-core/src/java_text.rs. A source is its
-- characters, as code points; an offset is in the bytes of its UTF-8.
pub mod States
pub mod Tests
use ktsense.Prelude.{
  ℕ, zero, suc, ◌+◌, ◌-◌, Bool, true, false, ◌&&◌, ◌||◌, Option, none, some, List, [], ◌∷◌, ltb,
  ◌==◌, if◌then◌else◌, Bytes, map, length,
}

pub data SiteKind : Type 0 where
  code comment kdoc string declaration_name : SiteKind

pub data LexState : Type 0 where
  code line_comment block_comment string_literal text_block char_literal : LexState

abbrev pub is_code : LexState → Bool
is_code LexState.code = true
is_code _ = false

abbrev pub site_kind : LexState → SiteKind
site_kind LexState.code = SiteKind.code
site_kind line_comment = comment
site_kind block_comment = comment
site_kind string_literal = string
site_kind text_block = string
site_kind char_literal = string

-- `len_utf8` and `len_utf16`
abbrev pub len_utf8 : ℕ → ℕ
len_utf8 c = if ltb c 0x80 then 1 else if ltb c 0x800 then 2 else if ltb c 0x10000 then 3 else 4

abbrev pub len_utf16 : ℕ → ℕ
len_utf16 c = if ltb c 0x10000 then 1 else 2

-- Whether the character at an index is a given one.
abbrev pub peek : Bytes → ℕ → ℕ → Bool
peek [] index c = false
peek (a ∷ s) zero c = a == c
peek (a ∷ s) (suc index) c = peek s index c

-- What a character does: the state behind it, and how many characters it takes with it and in which
-- state those are.
pub record Move : Type 0 where
  pub next : LexState
  pub taken : ℕ
  pub taken_as : LexState

abbrev pub to : LexState → Move
to next = record { next = next; taken = 0; taken_as = next }

-- One turn of the loop, at a character with what follows it.
unfoldable pub turn : LexState → ℕ → Bytes → Move
turn LexState.code c s =
    if c == b'/' && peek s 0 b'/'
    then record { next = line_comment; taken = 1; taken_as = LexState.code }
    else if c == b'/' && peek s 0 b'*'
    then record { next = block_comment; taken = 1; taken_as = LexState.code }
    else if c == b'"' && (peek s 0 b'"' && peek s 1 b'"')
    then record { next = text_block; taken = 2; taken_as = text_block }
    else if c == b'"'
    then to string_literal
    else if c == b'\''
    then to char_literal
    else to LexState.code
turn line_comment c s = if c == b'\n' then to LexState.code else to line_comment
turn block_comment c s =
    if c == b'*' && peek s 0 b'/'
    then record { next = LexState.code; taken = 1; taken_as = block_comment }
    else to block_comment
turn string_literal c s =
    if c == b'\\'
    then record { next = string_literal; taken = 1; taken_as = string_literal }
    else if c == b'"'
    then to LexState.code
    else to string_literal
turn char_literal c s =
    if c == b'\\'
    then record { next = char_literal; taken = 1; taken_as = char_literal }
    else if c == b'\''
    then to LexState.code
    else to char_literal
turn text_block c s =
    if c == b'"' && (peek s 0 b'"' && peek s 1 b'"')
    then record { next = LexState.code; taken = 2; taken_as = text_block }
    else to text_block

-- The loop, from an offset. `move` says how many of the next characters were taken already.
unfoldable pub lex_from : ℕ → Move → Bytes → List (ℕ × LexState)
unfolding turn
lex_from offset move [] = []
lex_from offset move (c ∷ s) = elim move.taken [
  | suc taken ↦
      (offset, move.taken_as) ∷ lex_from (offset + len_utf8 c) (record move { taken = taken }) s
  | zero ↦ (offset, move.next) ∷ lex_from (offset + len_utf8 c) (turn move.next c s) s
]

pub lex : Bytes → List (ℕ × LexState)
unfolding lex_from
lex source = lex_from 0 (to LexState.code) source

-- The offset of the first character of a line, from an offset; `line` is how many lines are left to
-- pass.
unfoldable pub line_start_from : ℕ → ℕ → Bytes → Option (ℕ × Bytes)
line_start_from offset zero s = some (offset, s)
line_start_from offset (suc line) [] = none
line_start_from offset (suc line) (c ∷ s) =
    let rest = line_start_from (offset + len_utf8 c) (if c == b'\n' then line else suc line) s in
    rest

-- The column is searched up to the end of the line.
unfoldable pub column_from : ℕ → ℕ → ℕ → Bytes → Option ℕ
column_from offset seen column [] = none
column_from offset seen column (c ∷ s) =
    let rest = column_from (offset + len_utf8 c) (seen + len_utf16 c) column s in
    if c == b'\n' then none else if seen + 1 == column then some offset else rest

unfoldable pub byte_offset_of : Bytes → ℕ → ℕ → Option ℕ
unfolding line_start_from column_from
byte_offset_of source line column =
    if line == 0 || column == 0 then none else elim (line_start_from 0 (line - 1) source) [
      | none ↦ none
      | some (offset, s) ↦ column_from offset 0 column s
    ]

-- The offsets that are wanted, with the place of the site; of two sites at one offset the map keeps
-- the later one.
unfoldable pub wanted_from : Bytes → ℕ → List (ℕ × ℕ) → List (ℕ × ℕ)
unfolding byte_offset_of
wanted_from source index [] = []
wanted_from source index ((line, column) ∷ sites) =
    let rest = wanted_from source (index + 1) sites in
    elim (byte_offset_of source line column) [ none ↦ rest | some offset ↦ (offset, index) ∷ rest ]

unfoldable pub place_of : ℕ → List (ℕ × ℕ) → Option ℕ
place_of offset [] = none
place_of offset ((o, index) ∷ wanted) = elim (place_of offset wanted) [
  | some later ↦ some later
  | none ↦ if o == offset then some index else none
]

abbrev pub set : ℕ → SiteKind → List SiteKind → List SiteKind
set index kind [] = []
set zero kind (k ∷ kinds) = kind ∷ kinds
set (suc index) kind (k ∷ kinds) = k ∷ set index kind kinds

abbrev pub mark : Option ℕ → SiteKind → List SiteKind → List SiteKind
mark none kind kinds = kinds
mark (some index) kind kinds = set index kind kinds

unfoldable pub mark_all : List (ℕ × ℕ) → List (ℕ × LexState) → List SiteKind → List SiteKind
unfolding place_of
mark_all wanted [] kinds = kinds
mark_all wanted ((offset, state) ∷ lexed) kinds =
    mark_all wanted lexed (mark (place_of offset wanted) (site_kind state) kinds)

pub classify_java_sites : Bytes → List (ℕ × ℕ) → List SiteKind
unfolding mark_all wanted_from lex
classify_java_sites source sites =
    mark_all (wanted_from source 0 sites) (lex source) (map (λ site. SiteKind.code) sites)
