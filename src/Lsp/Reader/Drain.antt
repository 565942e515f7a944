-- ===== src/Lsp/Reader/Drain.antt =====
-- The inner loop of `Reader::run` of crates/ktsense-lsp/src/client.rs.
use native.Mathlib.Decide.{dec_le}
use ktsense.Prelude.{
  ℕ, zero, suc, ◌≤◌, ◌<◌, ◌≡◌, ◌≢◌, refl, ap, sym, ◌∙◌, Option, none, some, List, [], ◌∷◌, ◌++◌,
  arith, Bytes, length, length-append, append-split, map, All,
}
use ktsense.Std.Results.{Result, ok, err}
use ktsense.Lsp.Framing.{
  FramingError, FrameDecoder, encode, next_frame, max_content_length, header_terminator,
}
use ktsense.Lsp.Framing.Accounts.{next_frame-accounts}
use ktsense.Lsp.Framing.Prefix.{next_frame-prefix}
use ktsense.Lsp.Framing.RoundTrip.{next_frame-encode}
use ktsense.Lsp.Reader.{Drained, waiting, out_of_fuel, after, on_frame, drain}

-- A frame takes at least its terminator off the buffer.
pub next_frame-shrinks :
    (d d' : FrameDecoder) (body : Bytes)
    → next_frame d ≡ (ok (some body), d')
    → length d'.buffer < length d.buffer
next_frame-shrinks d d' body h =
    let (header, e, _, _) = next_frame-accounts d d' body h in
    omega (
      arith,
      ap length e,
      length-append header (header_terminator ++ (body ++ d'.buffer)),
      length-append body d'.buffer,
    )

on_frame_ends :
    (r : Result (Option Bytes) FramingError) (d : FrameDecoder) (next : Bytes → Drained)
    → ((body : Bytes) → r ≡ ok (some body) → next body ≢ out_of_fuel)
    → on_frame r d next ≢ out_of_fuel
on_frame_ends (ok (some body)) d next h = ground (arith, h body refl)
on_frame_ends (ok none) d next h = ground arith
on_frame_ends (err e) d next h = ground arith

-- On any fuel above the length of its buffer, the inner loop ends before its fuel does.
pub drain_ends : (fuel : ℕ) (d : FrameDecoder) → length d.buffer < fuel → drain fuel d ≢ out_of_fuel
unfolding drain
drain_ends zero d h = absurd (omega arith)
drain_ends (suc fuel) d h =
    let (r, d') = next_frame d in
    on_frame_ends r d' (λ _. drain fuel d')
      (λ body e.
        drain_ends fuel d' (omega (arith, next_frame-shrinks d d' body (ap (λ x. (x, d')) e))))

-- The bytes of several pieces in a row.
abbrev pub joined : List Bytes → Bytes
joined [] = []
joined (p ∷ ps) = p ++ joined ps

abbrev pub Fits : Bytes → Type 0
Fits body = length body ≤ max_content_length

-- A prefix `p` of the messages `bodies` was drained: the complete ones are out, and what is left of
-- the prefix is the start of the others.
pub record Progress (fuel : ℕ) (p q : Bytes) (bodies : List Bytes) : Type 0 where
  pub out : List Bytes
  pub todo : List Bytes
  pub left : Bytes
  pub drains : drain fuel (record { buffer = p }) ≡ waiting out (record { buffer = left })
  pub parts : bodies ≡ out ++ todo
  pub rest : left ++ q ≡ joined (map encode todo)
  pub last : q ≡ [] → todo ≡ []

pub encode-size : (body : Bytes) → 0 < length (encode body)
unfolding encode
encode-size body = omega arith

drain-waits :
    (fuel : ℕ) (d : FrameDecoder) → next_frame d ≡ (ok none, d) → drain (suc fuel) d ≡ waiting [] d
unfolding drain
drain-waits fuel d e = rw e

drain-after :
    (fuel : ℕ) (d d' : FrameDecoder) (body : Bytes)
    → next_frame d ≡ (ok (some body), d')
    → drain (suc fuel) d ≡ after body (drain fuel d')
unfolding drain
drain-after fuel d d' body e = rw e

empty_waits : next_frame (record { buffer = [] }) ≡ (ok none, record { buffer = [] })
empty_waits = next_frame-prefix [] [] (encode []) (omega arith) refl (unfold encode in omega arith)

pub drain-Progress :
    (bodies : List Bytes) (fuel : ℕ) (p q : Bytes)
    → All Fits bodies
    → p ++ q ≡ joined (map encode bodies)
    → length p < fuel
    → Progress fuel p q bodies
drain-Progress bodies zero p q fits e h = absurd (omega arith)
drain-Progress [] (suc fuel) [] q fits e h = record {
  out = [];
  todo = [];
  left = [];
  drains = drain-waits fuel (record { buffer = [] }) empty_waits;
  parts = refl;
  rest = e;
  last = λ _. refl;
}
drain-Progress [] (suc fuel) (b ∷ p) q fits e h = cc
drain-Progress (body ∷ bodies) (suc fuel) p q fits e h =
    elim (dec_le (length (encode body)) (length p)) [
      | yes whole ↦
          let (p', front, behind) =
            append-split p q (encode body) (joined (map encode bodies)) e whole in
          let size = encode-size body in
          let ih =
            drain-Progress bodies fuel p' q fits.1 behind
              (omega (arith, ap length front, length-append (encode body) p')) in
          record {
            out = body ∷ ih.out;
            todo = ih.todo;
            left = ih.left;
            drains =
                drain-after fuel (record { buffer = p }) (record { buffer = p' }) body
                  (ap (λ b. next_frame (record { buffer = b })) front
                    ∙ next_frame-encode body p' fits.0)
                ∙ ap (after body) ih.drains;
            parts = ap (λ l. body ∷ l) ih.parts;
            rest = ih.rest;
            last = ih.last;
          }
      | no partial ↦
          let (q', front, behind) =
            append-split (encode body) (joined (map encode bodies)) p q (sym e) (omega arith) in
          record {
            out = [];
            todo = body ∷ bodies;
            left = p;
            drains =
                drain-waits fuel (record { buffer = p })
                  (next_frame-prefix body p q' fits.0 (sym front) (omega arith));
            parts = refl;
            rest = e;
            last = λ none_left. absurd (
                omega (
                  arith,
                  partial,
                  ap length e,
                  ap length none_left,
                  length-append p q,
                  length-append (encode body) (joined (map encode bodies)),
                ));
          }
    ]
