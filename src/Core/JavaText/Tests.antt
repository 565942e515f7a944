-- ===== src/Core/JavaText/Tests.antt =====
-- The lexer of crates/ktsense-core/src/java_text.rs on a concrete literal.
use ktsense.Prelude.{ℕ, ◌+◌, ◌≡◌, ◌≢◌, List, [], ◌∷◌, ◌++◌, codes, arith}
use ktsense.Core.JavaText.{LexState, string_literal, to, lex_from}
use ktsense.Core.JavaText.States.{Piece, plain, escape, text_of, in_state, end_of, lex_from-string}

slash-ne-quote : ◌≢◌ {A = ℕ} b'/' b'"'
slash-ne-quote = ground arith

slash-ne-backslash : ◌≢◌ {A = ℕ} b'/' b'\\'
slash-ne-backslash = ground arith

-- `/` and an escaped quote
abbrev quoted : List Piece
quoted = plain b'/' slash-ne-quote slash-ne-backslash ∷ escape b'"' ∷ []

lex_from-string_example :
    lex_from 0 (to LexState.code) (b'"' ∷ text_of quoted (b'"' ∷ codes ";"))
    ≡ (0, LexState.code)
      ∷ (in_state string_literal 1 (text_of quoted [])
          ++ ((end_of 1 (text_of quoted []), string_literal)
              ∷ lex_from (end_of 1 (text_of quoted []) + 1) (to LexState.code) (codes ";")))
lex_from-string_example =
    lex_from-string 0 (plain b'/' slash-ne-quote slash-ne-backslash) (escape b'"' ∷ []) (codes ";")
