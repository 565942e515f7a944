-- ===== src/Lsp/Reader/Chunks.antt =====
-- The outer loop of `Reader::run` of crates/ktsense-lsp/src/client.rs, over chunks of a stream.
use ktsense.Prelude.{
  ℕ, suc, ◌≡◌, ◌≢◌, refl, ap, sym, ◌∙◌, Option, none, some, List, [], ◌∷◌, ◌++◌, arith, Bytes,
  length, length-append, append_assoc, map, All,
}
use ktsense.Lsp.Framing.{FrameDecoder, encode, push}
use ktsense.Lsp.Reader.{
  Finished, Drained, waiting, malformed, out_of_fuel, prepend, on_drained, drain, run_from, run,
}
use ktsense.Lsp.Reader.Drain.{joined, Fits, drain-Progress, encode-size, drain_ends}

All-suffix : (xs ys zs : List Bytes) → All Fits xs → xs ≡ ys ++ zs → All Fits zs
All-suffix xs [] zs h e = rw e at h
All-suffix [] (y ∷ ys) zs h e = cc
All-suffix (x ∷ xs) (y ∷ ys) zs h e = All-suffix xs ys zs h.1 (cc)

run_from-waiting :
    (buffer : Bytes) (b : ℕ) (chunk : Bytes) (chunks out : List Bytes) (left : Bytes)
    → drain (suc (length (buffer ++ (b ∷ chunk)))) (record { buffer = buffer ++ (b ∷ chunk) })
      ≡ waiting out (record { buffer = left })
    → run_from (record { buffer = buffer }) ((b ∷ chunk) ∷ chunks)
      ≡ prepend out (run_from (record { buffer = left }) chunks)
unfolding run_from push
run_from-waiting buffer b chunk chunks out left e =
    ap (λ drained. on_drained drained (λ rest. run_from rest chunks)) e

run_from-messages :
    (chunks bodies : List Bytes) (buffer : Bytes)
    → All (λ c. c ≢ []) chunks
    → All Fits bodies
    → buffer ++ joined chunks ≡ joined (map encode bodies)
    → (joined chunks ≡ [] → bodies ≡ [])
    → run_from (record { buffer = buffer }) chunks
      ≡ some (record { dispatched = bodies; fault = none })
run_from-messages [] bodies buffer full fits e done = unfold run_from in rw (done refl)
run_from-messages ([] ∷ chunks) bodies buffer full fits e done = absurd (full.0 refl)
run_from-messages ((b ∷ chunk) ∷ chunks) bodies buffer full fits e done =
    let all = buffer ++ (b ∷ chunk) in
    let step =
      drain-Progress bodies (suc (length all)) all (joined chunks) fits
        (append_assoc buffer (b ∷ chunk) (joined chunks) ∙ e) (omega arith) in
    run_from-waiting buffer b chunk chunks step.out step.left step.drains
    ∙ ap (prepend step.out) (
        run_from-messages chunks step.todo step.left full.1
          (All-suffix bodies step.out step.todo fits step.parts) step.rest step.last)
    ∙ ap (λ l. some (record { dispatched = l; fault = none })) (sym step.parts)

joined-nil : (bodies : List Bytes) → joined (map encode bodies) ≡ [] → bodies ≡ []
joined-nil [] e = refl
joined-nil (body ∷ bodies) e = absurd (
    omega (
      arith,
      ap length e,
      encode-size body,
      length-append (encode body) (joined (map encode bodies)),
    ))

-- However the reads cut a stream of encoded messages into chunks that are not empty, the reader
-- dispatches exactly those messages, in order, and meets no fault, if each body is within the
-- ceiling.
pub run-messages :
    (chunks bodies : List Bytes)
    → All (λ c. c ≢ []) chunks
    → All Fits bodies
    → joined chunks ≡ joined (map encode bodies)
    → run chunks ≡ some (record { dispatched = bodies; fault = none })
unfolding run
run-messages chunks bodies full fits e =
    run_from-messages chunks bodies [] full fits e (λ empty. joined-nil bodies (sym e ∙ empty))

on_drained_ends :
    (drained : Drained) (next : FrameDecoder → Option Finished)
    → drained ≢ out_of_fuel
    → ((d : FrameDecoder) → next d ≢ none)
    → on_drained drained next ≢ none
on_drained_ends (waiting out d) next h k = ground (arith, k d)
on_drained_ends (malformed out e) next h k = ground arith
on_drained_ends out_of_fuel next h k = absurd (h refl)

-- The reader always ends once the stream does: no input makes its loops run on.
pub run_ends : (d : FrameDecoder) (chunks : List Bytes) → run_from d chunks ≢ none
unfolding run_from
run_ends d [] = cc
run_ends d ([] ∷ chunks) = cc
run_ends d ((b ∷ chunk) ∷ chunks) =
    let d' = push d (b ∷ chunk) in
    on_drained_ends (drain (suc (length d'.buffer)) d') (λ rest. run_from rest chunks)
      (drain_ends (suc (length d'.buffer)) d' (omega arith)) (λ rest. run_ends rest chunks)
