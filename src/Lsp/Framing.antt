-- ===== src/Lsp/Framing.antt =====
-- Content-Length framing of the engine's standard streams: crates/ktsense-lsp/src/framing.rs.
-- A message is a list of bytes; header text is handled as code points, after `from_utf8`.
pub mod Accounts
pub mod RoundTrip
pub mod Prefix
use mathlib.Core.Option
use ktsense.Prelude.{
  ℕ, ◌+◌, ◌-◌, ◌*◌, ◌^◌, Bool, ◌&&◌, Option, none, some, List, [], ◌∷◌, ◌++◌, ltb, leb,
  if◌then◌else◌, Bytes, codes, length, take, drop, find_subslice,
}
use ktsense.Std.Results.{Result, ok, err, ◌>>=◌}
use ktsense.Std.Utf8.{from_utf8}
use ktsense.Std.Str.{trim, split, split_once, eq_ignore_ascii_case}
use ktsense.Std.Number.{decimal, parse_number, usize_modulus}

abbrev pub header_terminator : Bytes
header_terminator = codes "\r\n\r\n"

abbrev pub content_length : Bytes
content_length = codes "content-length"

abbrev pub max_content_length : ℕ
max_content_length = 64 * 1024 * 1024

abbrev pub max_header_bytes : ℕ
max_header_bytes = 8 * 1024

pub data FramingError : Type 0 where
  missing_content_length : FramingError
  invalid_content_length : Bytes → FramingError
  invalid_header_text : FramingError
  frame_too_large : ℕ → ℕ → FramingError
  header_too_large : ℕ → FramingError

-- Prepends the header to a serialized body.
unfoldable pub encode : Bytes → Bytes
encode body = (codes "Content-Length: " ++ (decimal (length body) ++ header_terminator)) ++ body

pub record FrameDecoder : Type 0 where
  pub buffer : Bytes

abbrev pub default : FrameDecoder
default = record { buffer = [] }

unfoldable pub push : FrameDecoder → Bytes → FrameDecoder
push d bytes = record d { buffer = d.buffer ++ bytes }

-- The value of the first line whose name, trimmed, is Content-Length in any case.
content_length_in : List Bytes → Result ℕ FramingError
content_length_in [] = err missing_content_length
content_length_in (line ∷ lines) =
    let rest = content_length_in lines in
    elim (split_once b':' line) [
      | none ↦ rest
      | some (name, value) ↦
          if eq_ignore_ascii_case (trim name) content_length
          then elim (parse_number usize_modulus (trim value)) [
            | none ↦ err (invalid_content_length (trim value))
            | some n ↦ ok n
          ]
          else rest
    ]

pub parse_content_length : Bytes → Result ℕ FramingError
unfolding content_length_in
parse_content_length header_block = content_length_in (split (codes "\r\n") header_block)

pub header_text : Bytes → Result Bytes FramingError
header_text bytes = elim (from_utf8 bytes) [ none ↦ err invalid_header_text | some t ↦ ok t ]

-- Where the frame ends, in `usize` arithmetic and within the two ceilings.
pub frame_end : ℕ → ℕ → Result ℕ FramingError
frame_end body_start len =
    let end = body_start + len in
    if ltb end usize_modulus && (leb len max_content_length && leb end (2 ^ 63 - 1))
    then ok end
    else err (frame_too_large len max_content_length)

pub declared_end : Bytes → ℕ → Result ℕ FramingError
declared_end buffer separator = do
  text ← header_text (take separator buffer)
  len ← parse_content_length text
  frame_end (separator + length header_terminator) len

-- Takes the body off the buffer once all of it is there.
pub split_body :
    FrameDecoder → ℕ → Result ℕ FramingError → Result (Option Bytes) FramingError × FrameDecoder
split_body d body_start (err e) = (err e, d)
split_body d body_start (ok end) = if ltb (length d.buffer) end then (ok none, d) else (
  ok (some (take (end - body_start) (drop body_start d.buffer))),
  record d { buffer = drop end d.buffer },
)

pub next_frame : FrameDecoder → Result (Option Bytes) FramingError × FrameDecoder
unfolding split_body
next_frame d = elim (find_subslice d.buffer header_terminator) [
  | none ↦
      if ltb max_header_bytes (length d.buffer)
      then (err (header_too_large max_header_bytes), d)
      else (ok none, d)
  | some separator ↦
      split_body d (separator + length header_terminator) (declared_end d.buffer separator)
]
