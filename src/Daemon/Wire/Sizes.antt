-- ===== src/Daemon/Wire/Sizes.antt =====
-- What reading a frame takes off a stream: crates/ktsense-daemon/src/wire.rs.
use native.Mathlib.Decide.{dec_lt}
use ktsense.Prelude.{
  ℕ, ◌≤◌, ◌<◌, ◌≡◌, ◌≢◌, ap, sym, ◌∙◌, ◌++◌, take-append-drop, length-take, some, [], arith, Bytes,
  length, length-drop, ltb, Bool-cases, inl, inr, take, drop,
}
use ktsense.Std.Results.{Result, ok, err}
use ktsense.Daemon.Wire.{
  max_frame, IoError, unexpected_eof, other, Reader, ending, Json, read_exact, from_be_bytes,
  read_length, read_sized, read_body, read_frame,
}
use ktsense.Daemon.Wire.Rejects.{read_exact-enough, read_exact-short}

module _ {ℓ} {T : Type ℓ} (j : Json T) where
  read_body-le :
      (x : Result Bytes IoError × Reader) → length (read_body j x).1.pending ≤ length x.1.pending
  unfolding read_body
  read_body-le (err e, r) = omega arith
  read_body-le (ok body, r) = omega arith

  read_exact-le : (n : ℕ) (r : Reader) → length (read_exact n r).1.pending ≤ length r.pending
  unfolding read_exact
  read_exact-le n r = ground (arith, length-drop n r.pending)

  read_sized-le : (n : ℕ) (r : Reader) → length (read_sized j n r).1.pending ≤ length r.pending
  unfolding read_sized
  read_sized-le n r = ground (arith, read_body-le (read_exact n r), read_exact-le n r)

  read_length-err :
      (e : IoError) (r : Reader) (frame : T) → (read_length j (err e, r)).0 ≢ ok (some frame)
  unfolding read_length
  read_length-err unexpected_eof r frame = ground arith
  read_length-err (other n) r frame = ground arith

  -- Reading a frame takes at least its length off what is pending.
  pub read_frame-shrinks :
      (r : Reader) (frame : T)
      → (read_frame j r).0 ≡ ok (some frame)
      → length (read_frame j r).1.pending < length r.pending
  unfolding read_frame
  read_frame-shrinks r frame h = elim (dec_lt (length r.pending) 4) [
    | yes short ↦ absurd (
        read_length-err (ending r.broken) (record r { pending = [] }) frame
          (rw (read_exact-short 4 r short) at h))
    | no long ↦ rw (read_exact-enough 4 r (omega arith)) (
        omega (
          arith,
          read_sized-le (from_be_bytes (take 4 r.pending))
              (record r { pending = drop 4 r.pending }),
          length-drop 4 r.pending,
        ))
  ]

  -- The bytes begin with a complete frame: four bytes that say how many follow, and as many bytes, which
  -- decode to the frame. `rest` stands behind it.
  abbrev pub FrameAt : Bytes → T → Bytes → Type ℓ
  unfolding from_be_bytes
  FrameAt bytes frame rest =
      (header : Bytes) × (body : Bytes) × ((bytes ≡ header ++ (body ++ rest))
        × ((length header ≡ 4)
            × ((from_be_bytes header ≡ length body) × (j.from_slice body ≡ some frame))))

  read_body_complete :
      (body : Bytes) (r : Reader) (frame : T)
      → (read_body j (ok body, r)).0 ≡ ok (some frame)
      → j.from_slice body ≡ some frame
  unfolding read_body
  read_body_complete body r frame h = ground arith

  read_body-err :
      (e : IoError) (r : Reader) (frame : T) → (read_body j (err e, r)).0 ≢ ok (some frame)
  unfolding read_body
  read_body-err e r frame h = cc

  read_sized_complete :
      (n : ℕ) (r : Reader) (frame : T)
      → (read_sized j n r).0 ≡ ok (some frame)
      → (body : Bytes) × ((r.pending ≡ body ++ (read_sized j n r).1.pending)
          × ((n ≡ length body) × (j.from_slice body ≡ some frame)))
  unfolding read_sized
  read_sized_complete n r frame h = elim (Bool-cases (ltb max_frame n)) [
    | inl over ↦ absurd (ground arith)
    | inr within ↦ elim (dec_lt (length r.pending) n) [
      | yes short ↦ absurd (
          read_body-err (ending r.broken) (record r { pending = [] }) frame
            (rw (within, read_exact-short n r short) at h))
      | no long ↦
          let exact = read_exact-enough n r (omega arith) in
          let body = take n r.pending in
          let read : (read_body j (read_exact n r)).0 ≡ ok (some frame) = rw within at h in
          let decodes =
            read_body_complete body (record r { pending = drop n r.pending }) frame
              (rw exact at read) in
          rw (within, exact)
            (
              body,
              (
                sym (take-append-drop n r.pending),
                (omega (arith, length-take n r.pending), decodes),
              ),
            )
    ]
  ]

  -- A frame that is read stands complete at the start of the stream, and what is behind it is left.
  pub read_frame_complete :
      (r : Reader) (frame : T)
      → (read_frame j r).0 ≡ ok (some frame)
      → FrameAt r.pending frame (read_frame j r).1.pending
  unfolding read_frame
  read_frame_complete r frame h = elim (dec_lt (length r.pending) 4) [
    | yes short ↦ absurd (
        read_length-err (ending r.broken) (record r { pending = [] }) frame
          (rw (read_exact-short 4 r short) at h))
    | no long ↦
        let exact = read_exact-enough 4 r (omega arith) in
        let behind : Reader = record r { pending = drop 4 r.pending } in
        let (body, (split, (sized, decodes))) =
          read_sized_complete (from_be_bytes (take 4 r.pending)) behind frame (rw exact at h) in
        rw exact (
          take 4 r.pending,
          body,
          (
            sym (take-append-drop 4 r.pending) ∙ ap (λ b. take 4 r.pending ++ b) split,
            (omega (arith, length-take 4 r.pending), (sized, decodes)),
          ),
        )
  ]

  -- At the end of a stream no frame is read.
  pub read_frame-at_end :
      (r : Reader) (frame : T) → r.pending ≡ [] → (read_frame j r).0 ≢ ok (some frame)
  read_frame-at_end r frame e h = omega (arith, read_frame-shrinks r frame h, ap length e)
