-- ===== src/Lsp/Framing/RoundTrip.antt =====
-- `encode` and `next_frame`: crates/ktsense-lsp/src/framing.rs.
use mathlib.Core.Path.{subst}
use ktsense.Prelude.{
  ℕ, ◌+◌, ◌-◌, ◌≤◌, ◌<◌, ◌≡◌, ◌≢◌, refl, ap, ap₂, sym, ◌∙◌, true, some, List, [], ◌∷◌, ◌++◌, arith,
  Bytes, codes, length, take, drop, length-append, append_assoc, take-append, drop-append, drop-add,
  All, All-append, All-mono,
}
use ktsense.Std.Results.{ok}
use ktsense.Std.Find.{find_subslice-append}
use ktsense.Std.Number.{
  decimal, IsDigit, decimal-digits, parse_number-decimal, length-decimal, usize_modulus,
}
use ktsense.Std.Utf8.{from_utf8, from_utf8-ascii}
use ktsense.Std.Str.{
  is_whitespace, trim, split_once, split, split-lacks, eq_ignore_ascii_case, IsSolid, trim-solid,
  trim-cons,
}
use ktsense.Lsp.Framing.{
  header_terminator, content_length, max_content_length, max_header_bytes, encode,
  content_length_in, declared_end, frame_end, next_frame,
}
use ktsense.Lsp.Framing.Accounts.{Found, declared_length, next_frame-of_Found}

abbrev pub header : ℕ → Bytes
header n = codes "Content-Length: " ++ decimal n

pub encode-append :
    (body rest : Bytes)
    → encode body ++ rest ≡ header (length body) ++ (header_terminator ++ (body ++ rest))
unfolding encode
encode-append body rest = simp append_assoc

pub header-lacks_cr : (n : ℕ) → All (λ c. c ≢ 13) (header n)
header-lacks_cr n =
    All-append (λ c. c ≢ 13) (codes "Content-Length: ") (decimal n) (omega arith)
      (All-mono IsDigit (λ c. c ≢ 13) (λ c d. omega arith) (decimal n) (decimal-digits n))

header-ascii : (n : ℕ) → All (λ c. c < 0x80) (header n)
header-ascii n =
    All-append (λ c. c < 0x80) (codes "Content-Length: ") (decimal n) (omega arith)
      (All-mono IsDigit (λ c. c < 0x80) (λ c d. omega arith) (decimal n) (decimal-digits n))

digit-IsSolid : (c : ℕ) → IsDigit c → IsSolid c
unfolding is_whitespace
digit-IsSolid c h = ground arith

trim-decimal : (n : ℕ) → trim (32 ∷ decimal n) ≡ decimal n
trim-decimal n =
    trim-cons 32 (decimal n) (unfold is_whitespace in refl)
    ∙ trim-solid (decimal n) (All-mono IsDigit IsSolid digit-IsSolid (decimal n) (decimal-digits n))

split_once-header :
    (n : ℕ) → split_once b':' (header n) ≡ some (codes "Content-Length", 32 ∷ decimal n)
unfolding split_once
split_once-header n = refl

name_matches : eq_ignore_ascii_case (trim (codes "Content-Length")) content_length ≡ true
unfolding eq_ignore_ascii_case trim
name_matches = refl

content_length_in-header : (n : ℕ) → n < usize_modulus → content_length_in (header n ∷ []) ≡ ok n
unfolding content_length_in
content_length_in-header n h = ground (
  arith,
  split_once-header n,
  name_matches,
  trim-decimal n,
  parse_number-decimal usize_modulus n h,
)

declared_length-lines :
    (h t : Bytes) (lines : List Bytes)
    → from_utf8 h ≡ some t
    → split (codes "\r\n") t ≡ lines
    → declared_length h ≡ content_length_in lines
unfolding declared_length
declared_length-lines h t lines e1 e2 = ground (arith, e1, e2)

-- The header that `encode` writes declares the length.
pub declared_length-header : (n : ℕ) → n < usize_modulus → declared_length (header n) ≡ ok n
declared_length-header n h =
    declared_length-lines (header n) (header n) (header n ∷ [])
      (from_utf8-ascii (header n) (header-ascii n))
      (split-lacks 13 (10 ∷ []) (header n) (header-lacks_cr n))
    ∙ content_length_in-header n h

digits-size : (n : ℕ) → n ≤ max_content_length → length (decimal n) ≤ 8
digits-size n h = length-decimal 8 n (omega arith) (omega arith)

pub header-size : (n : ℕ) → n ≤ max_content_length → length (header n) ≤ 24
header-size n h = omega (arith, digits-size n h)

pub declared_end-of_length :
    (buffer : Bytes) (separator : ℕ) (h : Bytes) (len : ℕ)
    → take separator buffer ≡ h
    → declared_length h ≡ ok len
    → len ≤ max_content_length
    → separator ≤ max_header_bytes
    → declared_end buffer separator ≡ ok (separator + 4 + len)
unfolding declared_end declared_length frame_end
declared_end-of_length buffer separator h len front declares fits small =
    ground (arith, front, declares)

-- A buffer that begins with a whole frame holds that frame.
pub Found-frame :
    (h body rest : Bytes)
    → All (λ c. c ≢ 13) h
    → declared_length h ≡ ok (length body)
    → length body ≤ max_content_length
    → length h ≤ max_header_bytes
    → Found (h ++ (header_terminator ++ (body ++ rest))) body rest
Found-frame h body rest lacks declares fits small =
    let tail = header_terminator ++ (body ++ rest) in
    let behind : drop (length h + 4) (h ++ tail) ≡ body ++ rest =
      drop-add (length h) 4 (h ++ tail) ∙ ap (drop 4) (drop-append h tail) in
    let size : length h + 4 + length body - (length h + 4) ≡ length body = omega arith in
    record {
      separator = length h;
      end = length h + 4 + length body;
      at = find_subslice-append 13 (10 ∷ 13 ∷ 10 ∷ []) h (body ++ rest) lacks;
      declared =
          declared_end-of_length (h ++ tail) (length h) h (length body) (take-append h tail)
            declares fits small;
      complete = omega (arith, length-append h tail, length-append body rest);
      body_eq = sym (ap₂ (λ n l. take n l) size behind ∙ take-append body rest);
      rest_eq = sym (
          drop-add (length h + 4) (length body) (h ++ tail)
          ∙ ap (drop (length body)) behind
          ∙ drop-append body rest);
    }

-- Encoding and then decoding gives the body back, whatever follows it in the buffer, and leaves
-- what follows, for a body within the ceiling.
pub next_frame-encode :
    (body rest : Bytes)
    → length body ≤ max_content_length
    → next_frame (record { buffer = encode body ++ rest })
      ≡ (ok (some body), record { buffer = rest })
next_frame-encode body rest h =
    next_frame-of_Found (record { buffer = encode body ++ rest }) body rest
      (subst (λ b. Found b body rest) (sym (encode-append body rest))
        (Found-frame (header (length body)) body rest (header-lacks_cr (length body))
          (declared_length-header (length body) (omega arith)) h
          (omega (arith, header-size (length body) h))))
