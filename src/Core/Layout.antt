-- ===== src/Core/Layout.antt =====
-- The layout of signatures on one line: `normalize_signature_layout` of crates/ktsense-core/src/text.rs.
-- Text is its code points; an index into the characters is the suffix that starts there, and what
-- stands before it is kept last character first. `char::is_alphanumeric`, a table of Unicode, is a
-- parameter.
pub mod Tokens
pub mod Visible
use ktsense.Prelude.{
  ℕ, zero, suc, ◌+◌, ◌-◌, Bool, true, false, not, ◌&&◌, ◌||◌, Option, none, some, List, [], ◌∷◌,
  ◌++◌, reverse, ltb, ◌==◌, if◌then◌else◌, Bytes, codes, bytes_eq, ends_with, starts_with, length,
}
use ktsense.Std.Str.{is_whitespace, trim_start, trim_end}
use ktsense.Core.JavaText.{peek}

pub data Piece : Type 0 where
  opening closing : ℕ → Piece
  comma space : Piece
  verbatim : Bytes → Piece

-- How many characters a raw string has from behind its opening quotes, its closing ones included.
unfoldable pub raw_string_length : Bytes → ℕ
raw_string_length [] = 0
raw_string_length (c ∷ s) =
    let rest = raw_string_length s in
    if c == b'"' && (peek s 0 b'"' && peek s 1 b'"') then 3 else suc rest

-- And a regular one; `escape` says that the character before was an escaping backslash.
unfoldable pub string_length_from : Bool → Bytes → ℕ
string_length_from escape [] = 0
string_length_from true (c ∷ s) = suc (string_length_from false s)
string_length_from false (c ∷ s) =
    let rest = string_length_from (c == b'\\') s in if c == b'"' then 1 else suc rest

abbrev pub behind_two : Bytes → Bytes
behind_two (a ∷ b ∷ rest) = rest
behind_two rest = []

-- How many characters follow the first quote of a literal, its closing quotes included.
unfoldable pub string_length : Bytes → ℕ
unfolding raw_string_length string_length_from
string_length s =
    if peek s 0 b'"' && peek s 1 b'"'
    then 2 + raw_string_length (behind_two s)
    else string_length_from false s

-- How many follow the first slash of a comment; a line comment takes its line break along.
unfoldable pub line_length : Bytes → ℕ
line_length [] = 0
line_length (c ∷ s) = let rest = line_length s in if c == b'\n' then 1 else suc rest

unfoldable pub block_length : Bytes → ℕ
block_length [] = 0
block_length (c ∷ s) =
    let rest = block_length s in if c == b'*' && peek s 0 b'/' then 2 else suc rest

abbrev pub behind_one : Bytes → Bytes
behind_one [] = []
behind_one (a ∷ rest) = rest

unfoldable pub leading_whitespace : Bytes → ℕ
unfolding is_whitespace
leading_whitespace [] = 0
leading_whitespace (c ∷ s) =
    let rest = leading_whitespace s in if is_whitespace c then suc rest else 0

abbrev pub flush_run : Bytes → List Piece
flush_run [] = []
flush_run (c ∷ run) = verbatim (c ∷ run) ∷ []

-- The loop's variables: how many of the next characters belong to a literal or comment, how many are
-- white space to pass over, the run, what stands before, last first, and the open `<`.
pub record Scan : Type 0 where
  pub taking : ℕ
  pub skipping : ℕ
  pub run : Bytes
  pub before : Bytes
  pub angle_depth : ℕ

unfoldable pub closes_type_arguments : Bytes → Bytes → Bool
closes_type_arguments before s = not (peek before 0 b'-') && not (peek s 0 b'=')

module _ (is_alphanumeric : ℕ → Bool) where
  abbrev pub names_arguments : ℕ → Bool
  names_arguments c = is_alphanumeric c || c == b'_' || c == b'?' || c == b'>' || c == b')'

  unfoldable pub opens_type_arguments : Bytes → Bytes → Bool
  unfolding is_whitespace trim_end bytes_eq ends_with
  opens_type_arguments [] s = false
  opens_type_arguments (c ∷ before) s =
      let trimmed = trim_end (reverse (c ∷ before)) in
      if peek s 0 b'='
      then false
      else if names_arguments c
      then true
      else if is_whitespace c
      then bytes_eq trimmed (codes "fun")
        || ends_with trimmed (codes " fun")
        || ends_with trimmed (codes "(fun")
      else false

  -- One turn of the loop, at a character with what follows it: the pieces that it pushes and the
  -- variables behind it, less `before`.
  unfoldable pub read_character : Scan → ℕ → Bytes → List Piece × Scan
  unfolding opens_type_arguments closes_type_arguments string_length line_length block_length
      leading_whitespace
  read_character st c s =
      if c == b'"'
      then ([], record st { run = st.run ++ (c ∷ []); taking = string_length s })
      else if c == b'/' && peek s 0 b'/'
      then ([], record st { run = st.run ++ (c ∷ []); taking = 1 + line_length (behind_one s) })
      else if c == b'/' && peek s 0 b'*'
      then ([], record st { run = st.run ++ (c ∷ []); taking = 1 + block_length (behind_one s) })
      else if is_whitespace c
      then (
        flush_run st.run ++ (space ∷ []),
        record st { run = []; skipping = leading_whitespace s },
      )
      else if c == b'(' || c == b'['
      then (flush_run st.run ++ (opening c ∷ []), record st { run = [] })
      else if c == b'<' && opens_type_arguments st.before s
      then (
        flush_run st.run ++ (opening c ∷ []),
        record st { run = []; angle_depth = st.angle_depth + 1 },
      )
      else if c == b')' || c == b']'
      then (flush_run st.run ++ (closing c ∷ []), record st { run = [] })
      else if c == b'>' && (ltb 0 st.angle_depth && closes_type_arguments st.before s)
      then (
        flush_run st.run ++ (closing c ∷ []),
        record st { run = []; angle_depth = st.angle_depth - 1 },
      )
      else if c == b','
      then (flush_run st.run ++ (comma ∷ []), record st { run = [] })
      else ([], record st { run = st.run ++ (c ∷ []) })

  -- By how many characters are to be taken and to be passed over.
  unfoldable pub turn_at : ℕ → ℕ → Scan → ℕ → Bytes → List Piece × Scan
  unfolding read_character
  turn_at (suc n) skipping st c s = ([], record st { taking = n; run = st.run ++ (c ∷ []) })
  turn_at zero (suc n) st c s = ([], record st { skipping = n })
  turn_at zero zero st c s = read_character st c s

  unfoldable pub turn : Scan → ℕ → Bytes → List Piece × Scan
  unfolding turn_at
  turn st c s = turn_at st.taking st.skipping st c s

  unfoldable pub tokenize_from : Scan → Bytes → List Piece
  unfolding turn
  tokenize_from st [] = flush_run st.run
  tokenize_from st (c ∷ s) =
      let (pushed, st') = turn st c s in
      pushed ++ tokenize_from (record st' { before = c ∷ st.before }) s

  unfoldable pub tokenize_layout : Bytes → List Piece
  unfolding tokenize_from
  tokenize_layout text =
      tokenize_from (record { taking = 0; skipping = 0; run = []; before = []; angle_depth = 0 })
        text

abbrev pub is_empty_list : List Piece → Bool
is_empty_list [] = true
is_empty_list (p ∷ ps) = false

abbrev pub begins_with_opening : List Piece → Bool
begins_with_opening (opening c ∷ ps) = true
begins_with_opening ps = false

abbrev pub begins_with_close_or_comma : List Piece → Bool
begins_with_close_or_comma (closing c ∷ ps) = true
begins_with_close_or_comma (comma ∷ ps) = true
begins_with_close_or_comma ps = false

-- Whether, behind spaces, a closing bracket follows.
abbrev pub closes_next : List Piece → Bool
closes_next [] = false
closes_next (space ∷ ps) = closes_next ps
closes_next (closing c ∷ ps) = true
closes_next (p ∷ ps) = false

abbrev pub pop_space : List Piece → List Piece
pop_space (space ∷ kept) = kept
pop_space kept = kept

-- One piece, with what is kept, last first, and what follows; `true` passes the spaces behind a
-- dropped comma over.
unfoldable pub keep_piece : Bool → List Piece → Piece → List Piece → List Piece × Bool
keep_piece true kept space ps = (kept, true)
keep_piece false kept space ps =
    if is_empty_list kept || begins_with_opening kept || begins_with_close_or_comma ps
    then (kept, false)
    else (space ∷ kept, false)
keep_piece passing kept comma ps =
    if closes_next ps then (pop_space kept, true) else (comma ∷ kept, false)
keep_piece passing kept (opening c) ps = (opening c ∷ kept, false)
keep_piece passing kept (closing c) ps = (closing c ∷ kept, false)
keep_piece passing kept (verbatim run) ps = (verbatim run ∷ kept, false)

unfoldable pub keep_from : Bool → List Piece → List Piece → List Piece
unfolding keep_piece
keep_from passing kept [] = pop_space kept
keep_from passing kept (p ∷ ps) =
    let (kept', passing') = keep_piece passing kept p ps in keep_from passing' kept' ps

abbrev pub text_of : Piece → Bytes
text_of (opening c) = c ∷ []
text_of (closing c) = c ∷ []
text_of comma = codes ","
text_of space = codes " "
text_of (verbatim run) = run

abbrev pub texts_of : List Piece → Bytes
texts_of [] = []
texts_of (p ∷ ps) = text_of p ++ texts_of ps

unfoldable pub normalize_signature_layout : (ℕ → Bool) → Bytes → Bytes
unfolding keep_from tokenize_layout
normalize_signature_layout is_alphanumeric text =
    texts_of (reverse (keep_from false [] (tokenize_layout is_alphanumeric text)))
