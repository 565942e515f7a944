-- ===== src/Core/JavaText/States.antt =====
-- What the lexer of crates/ktsense-core/src/java_text.rs reports of strings and comments.
use ktsense.Prelude.{
  ℕ, zero, suc, ◌+◌, ◌≡◌, ◌≢◌, refl, ap, ◌∙◌, List, [], ◌∷◌, ◌++◌, arith, Bytes, All, All-mono,
}
use ktsense.Core.JavaText.{
  LexState, line_comment, block_comment, string_literal, len_utf8, to, turn, lex_from, lex,
}

-- The offsets of the characters, as `char_indices` gives them.
abbrev pub offsets : ℕ → Bytes → List ℕ
offsets offset [] = []
offsets offset (c ∷ s) = offset ∷ offsets (offset + len_utf8 c) s

abbrev places : List (ℕ × LexState) → List ℕ
places [] = []
places ((offset, state) ∷ lexed) = offset ∷ places lexed

lex_from-offsets :
    (s : Bytes) (offset taken : ℕ) (next a : LexState)
    → places (lex_from offset (record { next = next; taken = taken; taken_as = a }) s)
      ≡ offsets offset s
unfolding lex_from
lex_from-offsets [] offset taken next a = refl
lex_from-offsets (c ∷ s) offset (suc taken) next a =
    ap (λ l. offset ∷ l) (lex_from-offsets s (offset + len_utf8 c) taken next a)
lex_from-offsets (c ∷ s) offset zero next a =
    let move = turn next c s in
    ap (λ l. offset ∷ l)
      (lex_from-offsets s (offset + len_utf8 c) move.taken move.next move.taken_as)

-- The lexer reports every character of the source exactly once and in order, by the offset of its
-- first byte.
lex-offsets : (s : Bytes) → places (lex s) ≡ offsets 0 s
unfolding lex
lex-offsets s = lex_from-offsets s 0 0 LexState.code LexState.code

abbrev pub in_state : LexState → ℕ → Bytes → List (ℕ × LexState)
in_state state offset [] = []
in_state state offset (c ∷ s) = (offset, state) ∷ in_state state (offset + len_utf8 c) s

-- Where a text that starts at an offset ends.
abbrev pub end_of : ℕ → Bytes → ℕ
end_of offset [] = offset
end_of offset (c ∷ s) = end_of (offset + len_utf8 c) s

-- A character that leaves a state as it is, whatever follows.
abbrev Quiet : LexState → ℕ → Type 0
Quiet state c = (s : Bytes) → turn state c s ≡ to state

lex_from-taken_as :
    (offset : ℕ) (state a : LexState) (s : Bytes)
    → lex_from offset (record { next = state; taken = 0; taken_as = a }) s
      ≡ lex_from offset (to state) s
unfolding lex_from
lex_from-taken_as offset state a [] = refl
lex_from-taken_as offset state a (c ∷ s) = refl

lex_from-Quiet :
    (state : LexState) (offset : ℕ) (body rest : Bytes)
    → All (Quiet state) body
    → lex_from offset (to state) (body ++ rest)
      ≡ in_state state offset body ++ lex_from (end_of offset body) (to state) rest
unfolding lex_from
lex_from-Quiet state offset [] rest h = refl
lex_from-Quiet state offset (c ∷ body) rest h =
    ap (λ l. (offset, state) ∷ l)
      (ap (λ m. lex_from (offset + len_utf8 c) m (body ++ rest)) (h.0 (body ++ rest))
        ∙ lex_from-Quiet state (offset + len_utf8 c) body rest h.1)

-- What a string literal is made of: a character that is no quote and no backslash, or a backslash
-- with whatever character it escapes.
pub data Piece : Type 0 where
  plain : (c : ℕ) → c ≢ b'"' → c ≢ b'\\' → Piece
  escape : ℕ → Piece

abbrev pub written : Piece → Bytes → Bytes
written (plain c quote backslash) s = c ∷ s
written (escape c) s = b'\\' ∷ c ∷ s

-- The source text of pieces, and what stands behind it.
abbrev pub text_of : List Piece → Bytes → Bytes
text_of [] s = s
text_of (piece ∷ pieces) s = written piece (text_of pieces s)

lex_from-text_of :
    (pieces : List Piece) (offset : ℕ) (rest : Bytes)
    → lex_from offset (to string_literal) (text_of pieces rest)
      ≡ in_state string_literal offset (text_of pieces [])
        ++ lex_from (end_of offset (text_of pieces [])) (to string_literal) rest
unfolding lex_from
lex_from-text_of [] offset rest = refl
lex_from-text_of (plain c quote backslash ∷ pieces) offset rest =
    let quiet : turn string_literal c (text_of pieces rest) ≡ to string_literal =
      unfold turn in ground arith in
    ap (λ l. (offset, string_literal) ∷ l)
      (ap (λ m. lex_from (offset + len_utf8 c) m (text_of pieces rest)) quiet
        ∙ lex_from-text_of pieces (offset + len_utf8 c) rest)
lex_from-text_of (escape c ∷ pieces) offset rest =
    let next = offset + len_utf8 b'\\' in
    unfold turn in
    ap (λ l. (offset, string_literal) ∷ (next, string_literal) ∷ l)
      (lex_from-text_of pieces (next + len_utf8 c) rest)

close_string :
    (offset : ℕ) (rest : Bytes)
    → lex_from offset (to string_literal) (b'"' ∷ rest)
      ≡ (offset, string_literal) ∷ lex_from (offset + 1) (to LexState.code) rest
unfolding lex_from turn
close_string offset rest = refl

open_string :
    (offset b : ℕ) (s : Bytes)
    → b ≢ b'"'
    → lex_from offset (to LexState.code) (b'"' ∷ b ∷ s)
      ≡ (offset, LexState.code) ∷ lex_from (offset + 1) (to string_literal) (b ∷ s)
unfolding turn
open_string offset b s h =
    let move : turn LexState.code b'"' (b ∷ s) ≡ to string_literal = ground arith in
    unfold lex_from in ap (λ m. (offset, LexState.code) ∷ lex_from (offset + 1) m (b ∷ s)) move

close_line :
    (offset : ℕ) (rest : Bytes)
    → lex_from offset (to line_comment) (b'\n' ∷ rest)
      ≡ (offset, line_comment) ∷ lex_from (offset + 1) (to LexState.code) rest
unfolding lex_from turn
close_line offset rest = refl

open_line :
    (offset : ℕ) (s : Bytes)
    → lex_from offset (to LexState.code) (b'/' ∷ b'/' ∷ s)
      ≡ (offset, LexState.code)
        ∷ (offset + 1, LexState.code)
        ∷ lex_from (offset + 1 + 1) (to line_comment) s
unfolding lex_from turn
open_line offset s =
    ap (λ l. (offset, LexState.code) ∷ (offset + 1, LexState.code) ∷ l)
      (lex_from-taken_as (offset + 1 + 1) line_comment LexState.code s)

close_block :
    (offset : ℕ) (rest : Bytes)
    → lex_from offset (to block_comment) (b'*' ∷ b'/' ∷ rest)
      ≡ (offset, block_comment)
        ∷ (offset + 1, block_comment)
        ∷ lex_from (offset + 1 + 1) (to LexState.code) rest
unfolding lex_from turn
close_block offset rest =
    ap (λ l. (offset, block_comment) ∷ (offset + 1, block_comment) ∷ l)
      (lex_from-taken_as (offset + 1 + 1) LexState.code block_comment rest)

open_block :
    (offset : ℕ) (s : Bytes)
    → lex_from offset (to LexState.code) (b'/' ∷ b'*' ∷ s)
      ≡ (offset, LexState.code)
        ∷ (offset + 1, LexState.code)
        ∷ lex_from (offset + 1 + 1) (to block_comment) s
unfolding lex_from turn
open_block offset s =
    ap (λ l. (offset, LexState.code) ∷ (offset + 1, LexState.code) ∷ l)
      (lex_from-taken_as (offset + 1 + 1) block_comment LexState.code s)

-- In code, a string literal that is not empty is reported as a string from behind its opening quote
-- up to its closing one, whatever comment marks and escapes it holds, escaped quotes and backslashes
-- too, and what follows is code again.
pub lex_from-string :
    (offset : ℕ) (piece : Piece) (pieces : List Piece) (rest : Bytes)
    → let body = text_of (piece ∷ pieces) [] in
      lex_from offset (to LexState.code) (b'"' ∷ text_of (piece ∷ pieces) (b'"' ∷ rest))
      ≡ (offset, LexState.code)
        ∷ (in_state string_literal (offset + 1) body
            ++ ((end_of (offset + 1) body, string_literal)
                ∷ lex_from (end_of (offset + 1) body + 1) (to LexState.code) rest))
lex_from-string offset piece pieces rest =
    let body = text_of (piece ∷ pieces) [] in
    open_piece offset piece (text_of pieces (b'"' ∷ rest))
    ∙ ap (λ l. (offset, LexState.code) ∷ l)
        (lex_from-text_of (piece ∷ pieces) (offset + 1) (b'"' ∷ rest)
          ∙ ap (λ l. in_state string_literal (offset + 1) body ++ l)
              (close_string (end_of (offset + 1) body) rest))
  where
    open_piece :
        (offset : ℕ) (piece : Piece) (s : Bytes)
        → lex_from offset (to LexState.code) (b'"' ∷ written piece s)
          ≡ (offset, LexState.code) ∷ lex_from (offset + 1) (to string_literal) (written piece s)
    open_piece offset (plain c quote backslash) s = open_string offset c s quote
    open_piece offset (escape c) s = open_string offset b'\\' (c ∷ s) (ground arith)

NotNewline-Quiet : (c : ℕ) → c ≢ b'\n' → Quiet line_comment c
unfolding turn
NotNewline-Quiet c h s = ground arith

-- In code, a line comment is reported as one up to the end of its line, whatever it holds, and the
-- next line is code again.
lex_from-line_comment :
    (offset : ℕ) (body rest : Bytes)
    → All (λ c. c ≢ b'\n') body
    → lex_from offset (to LexState.code) (b'/' ∷ b'/' ∷ (body ++ (b'\n' ∷ rest)))
      ≡ (offset, LexState.code)
        ∷ (offset + 1, LexState.code)
        ∷ (in_state line_comment (offset + 1 + 1) body
            ++ ((end_of (offset + 1 + 1) body, line_comment)
                ∷ lex_from (end_of (offset + 1 + 1) body + 1) (to LexState.code) rest))
lex_from-line_comment offset body rest h =
    open_line offset (body ++ (b'\n' ∷ rest))
    ∙ ap (λ l. (offset, LexState.code) ∷ (offset + 1, LexState.code) ∷ l)
        (lex_from-Quiet line_comment (offset + 1 + 1) body (b'\n' ∷ rest)
            (All-mono (λ c. c ≢ b'\n') (Quiet line_comment) NotNewline-Quiet body h)
          ∙ ap (λ l. in_state line_comment (offset + 1 + 1) body ++ l)
              (close_line (end_of (offset + 1 + 1) body) rest))

NotStar-Quiet : (c : ℕ) → c ≢ b'*' → Quiet block_comment c
unfolding turn
NotStar-Quiet c h s = ground arith

-- In code, a block comment without a star inside is reported as one up to and with its end, whatever
-- quotes it holds, and what follows is code again.
lex_from-block_comment :
    (offset : ℕ) (body rest : Bytes)
    → All (λ c. c ≢ b'*') body
    → lex_from offset (to LexState.code) (b'/' ∷ b'*' ∷ (body ++ (b'*' ∷ b'/' ∷ rest)))
      ≡ (offset, LexState.code)
        ∷ (offset + 1, LexState.code)
        ∷ (in_state block_comment (offset + 1 + 1) body
            ++ ((end_of (offset + 1 + 1) body, block_comment)
                ∷ (end_of (offset + 1 + 1) body + 1, block_comment)
                ∷ lex_from (end_of (offset + 1 + 1) body + 1 + 1) (to LexState.code) rest))
lex_from-block_comment offset body rest h =
    open_block offset (body ++ (b'*' ∷ b'/' ∷ rest))
    ∙ ap (λ l. (offset, LexState.code) ∷ (offset + 1, LexState.code) ∷ l)
        (lex_from-Quiet block_comment (offset + 1 + 1) body (b'*' ∷ b'/' ∷ rest)
            (All-mono (λ c. c ≢ b'*') (Quiet block_comment) NotStar-Quiet body h)
          ∙ ap (λ l. in_state block_comment (offset + 1 + 1) body ++ l)
              (close_block (end_of (offset + 1 + 1) body) rest))
