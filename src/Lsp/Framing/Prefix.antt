-- ===== src/Lsp/Framing/Prefix.antt =====
-- A message that has not arrived whole: crates/ktsense-lsp/src/framing.rs.
use native.Mathlib.Decide.{dec_le}
use ktsense.Prelude.{
  ℕ, ◌+◌, ◌≤◌, ◌<◌, ◌≡◌, ◌≢◌, ap, ap₂, sym, ◌∙◌, inl, inr, none, some, [], ◌∷◌, ◌++◌, arith, Bytes,
  length, take, find_subslice, length-append, append_assoc, append-nil, take-append, take-append_le,
  append-split, All, Option-cases,
}
use ktsense.Std.Results.{ok}
use ktsense.Std.Find.{find_subslice-append, find_subslice_mono, find_subslice-le}
use ktsense.Lsp.Framing.{
  header_terminator, max_content_length, max_header_bytes, encode, declared_end, next_frame,
}
use ktsense.Lsp.Framing.Accounts.{declared_length}
use ktsense.Lsp.Framing.RoundTrip.{
  header, header-lacks_cr, header-size, declared_length-header, declared_end-of_length,
  encode-append,
}

module _ (h body p q : Bytes) (lacks : All (λ c. c ≢ 13) h)
    (declares : declared_length h ≡ ok (length body)) (fits : length body ≤ max_content_length)
    (small : length h + 4 ≤ max_header_bytes) (whole : p ++ q ≡ h ++ (header_terminator ++ body))
    (partial : length p < length (h ++ (header_terminator ++ body))) where
  find_whole : find_subslice (p ++ q) header_terminator ≡ some (length h)
  find_whole =
      ap (λ b. find_subslice b header_terminator) whole
      ∙ find_subslice-append 13 (10 ∷ 13 ∷ 10 ∷ []) h body lacks

  -- The terminator has not arrived, so the header block is still short.
  no_terminator : find_subslice p header_terminator ≡ none → length p ≤ max_header_bytes
  no_terminator missing = elim (dec_le (length p) max_header_bytes) [
    | yes le ↦ le
    | no long ↦
        let (r, e, _) =
          append-split p q (h ++ header_terminator) body
            (whole ∙ sym (append_assoc h header_terminator body))
            (omega (arith, length-append h header_terminator)) in
        let found : find_subslice p header_terminator ≡ some (length h) =
          ap (λ b. find_subslice b header_terminator) (e ∙ append_assoc h header_terminator r)
          ∙ find_subslice-append 13 (10 ∷ 13 ∷ 10 ∷ []) h r lacks in
        cc
  ]

  -- The terminator has arrived, and the body has not.
  with_terminator :
      (separator : ℕ)
      → find_subslice p header_terminator ≡ some separator
      → declared_end p separator ≡ ok (length (h ++ (header_terminator ++ body)))
  with_terminator separator at =
      let same : separator ≡ length h =
        cc (find_subslice_mono p header_terminator q separator at, find_whole) in
      let le = find_subslice-le p header_terminator separator at in
      let front : take separator p ≡ h =
        sym (take-append_le separator p q (omega arith))
        ∙ ap₂ (λ n b. take n b) same whole
        ∙ take-append h (header_terminator ++ body) in
      declared_end-of_length p separator h (length body) front declares fits (omega arith)
      ∙ ap ok (omega (arith, length-append h (header_terminator ++ body)))

  withheld : next_frame (record { buffer = p }) ≡ (ok none, record { buffer = p })
  unfolding next_frame
  withheld = elim (Option-cases (find_subslice p header_terminator)) [
    | inl missing ↦ ground (arith, missing, no_terminator missing)
    | inr (separator, at) ↦ ground (arith, at, with_terminator separator at)
  ]

-- A proper prefix of an encoded message yields no frame and no error, and stays in the buffer.
pub next_frame-prefix :
    (body p q : Bytes)
    → length body ≤ max_content_length
    → p ++ q ≡ encode body
    → length p < length (encode body)
    → next_frame (record { buffer = p }) ≡ (ok none, record { buffer = p })
next_frame-prefix body p q fits whole partial =
    let e : encode body ≡ header (length body) ++ (header_terminator ++ body) =
      sym (append-nil (encode body))
      ∙ encode-append body []
      ∙ ap (λ l. header (length body) ++ (header_terminator ++ l)) (append-nil body) in
    withheld (header (length body)) body p q (header-lacks_cr (length body))
      (declared_length-header (length body) (omega arith)) fits
      (omega (arith, header-size (length body) fits)) (whole ∙ e) (omega (arith, ap length e))
