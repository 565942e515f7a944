-- ===== src/Daemon/Wire/Rejects.antt =====
-- Frames over the ceiling and streams that end: crates/ktsense-daemon/src/wire.rs.
use native.Mathlib.Decide.{dec_lt}
use ktsense.Prelude.{
  ℕ, ◌^◌, ◌≤◌, ◌<◌, ◌≡◌, ◌↔◌, ◌≢◌, refl, ap, ◌∙◌, Option, none, some, [], ◌++◌, arith, Bytes,
  length, take, drop,
}
use ktsense.Std.Results.{Result, ok, err}
use ktsense.Daemon.Wire.{
  max_frame, IoError, unexpected_eof, other, too_large, Reader, Writer, ending, Json, read_exact,
  to_be_bytes, from_be_bytes, read_length, read_sized, read_body, read_frame, write_frame,
}
use ktsense.Daemon.Wire.Bytes4.{from_be_bytes-to_be_bytes, length-to_be_bytes}
use ktsense.Daemon.Wire.RoundTrip.{read_exact-append}

pub read_exact-enough :
    (n : ℕ) (r : Reader)
    → n ≤ length r.pending
    → read_exact n r ≡ (ok (take n r.pending), record r { pending = drop n r.pending })
unfolding read_exact
read_exact-enough n r h = ground arith

pub read_exact-short :
    (n : ℕ) (r : Reader)
    → length r.pending < n
    → read_exact n r ≡ (err (ending r.broken), record r { pending = [] })
unfolding read_exact
read_exact-short n r h = ground arith

module _ {ℓ} {T : Type ℓ} (j : Json T) where
  -- A body over the ceiling is refused with its length, and nothing is written.
  pub write_frame-too_large :
      (frame : T) (body : Bytes) (w : Writer)
      → j.to_vec frame ≡ some body
      → max_frame < length body
      → write_frame j frame w ≡ (err (too_large (length body) max_frame), w)
  unfolding write_frame
  write_frame-too_large frame body w e h = ground (arith, e)

  -- A prefix that declares more than the ceiling is refused before any of its body is read.
  pub read_frame-too_large :
      (len : ℕ) (rest : Bytes) (broken : Option IoError)
      → max_frame < len
      → len < 2 ^ 32
      → read_frame j (record { pending = to_be_bytes len ++ rest; broken = broken })
        ≡ (err (too_large len max_frame), record { pending = rest; broken = broken })
  unfolding read_frame
  read_frame-too_large len rest broken over fits =
      ap (read_length j)
        (read_exact-append 4 (to_be_bytes len) rest broken (length-to_be_bytes len))
      ∙ ap (λ n. read_sized j n (record { pending = rest; broken = broken }))
          (from_be_bytes-to_be_bytes len fits)
      ∙ ground arith

  read_body-some : (x : Result Bytes IoError × Reader) → (read_body j x).0 ≢ ok none
  unfolding read_body
  read_body-some (err e, r) = ground arith
  read_body-some (ok body, r) = ground arith

  read_sized-some : (n : ℕ) (r : Reader) → (read_sized j n r).0 ≢ ok none
  unfolding read_sized
  read_sized-some n r = ground (arith, read_body-some (read_exact n r))

  read_length-err :
      (e : IoError) (r : Reader) → ((read_length j (err e, r)).0 ≡ ok none) ↔ (e ≡ unexpected_eof)
  unfolding read_length
  read_length-err unexpected_eof r = (λ _. refl, λ _. refl)
  read_length-err (other n) r = (λ h. cc, λ h. cc)

  -- The reader reports the end of the stream exactly when the stream ends, rather than fails, with
  -- fewer than the four bytes of a length left: also in the middle of the four.
  pub read_frame-none :
      (r : Reader)
      → ((read_frame j r).0 ≡ ok none)
        ↔ ((length r.pending < 4) × (ending r.broken ≡ unexpected_eof))
  unfolding read_frame
  read_frame-none r = elim (dec_lt (length r.pending) 4) [
    | yes short ↦
        let (to, from) = read_length-err (ending r.broken) (record r { pending = [] }) in
        rw (read_exact-short 4 r short) (λ h. (short, to h), λ h. from h.1)
    | no long ↦ rw (read_exact-enough 4 r (omega arith)) (
      λ h. absurd (
          read_sized-some (from_be_bytes (take 4 r.pending))
            (record r { pending = drop 4 r.pending }) h),
      λ h. absurd (long h.0),
    )
  ]
