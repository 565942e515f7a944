-- ===== src/Daemon/Wire/RoundTrip.antt =====
-- `write_frame` and `read_frame`: crates/ktsense-daemon/src/wire.rs.
use ktsense.Prelude.{
  ℕ, ◌^◌, ◌%◌, ◌≤◌, ◌≡◌, refl, ap, ◌∙◌, Option, none, some, [], ◌++◌, arith, Bytes, length,
  length-append, append_assoc, take-append, drop-append, ltb, false,
}
use ktsense.Std.Results.{ok}
use ktsense.Daemon.Wire.{
  max_frame, IoError, Reader, Writer, Json, read_exact, to_be_bytes, read_length, read_sized,
  read_body, read_frame, write_frame,
}
use ktsense.Daemon.Wire.Bytes4.{from_be_bytes-to_be_bytes, length-to_be_bytes}

-- What one frame looks like on the socket.
abbrev pub framed : Bytes → Bytes
framed body = to_be_bytes (length body) ++ body

pub framed-size : (body : Bytes) → 4 ≤ length (framed body)
framed-size body =
    omega (arith, length-append (to_be_bytes (length body)) body, length-to_be_bytes (length body))

pub read_exact-append :
    (n : ℕ) (front rest : Bytes) (broken : Option IoError)
    → length front ≡ n
    → read_exact n (record { pending = front ++ rest; broken = broken })
      ≡ (ok front, record { pending = rest; broken = broken })
unfolding read_exact
read_exact-append n front rest broken e =
    rw (← e)
      (ground (arith, length-append front rest, take-append front rest, drop-append front rest))

module _ {ℓ} {T : Type ℓ} (j : Json T) (frame : T) (body : Bytes) where
  read_sized-within :
      (n : ℕ) (r : Reader)
      → ltb max_frame n ≡ false
      → read_sized j n r ≡ read_body j (read_exact n r)
  unfolding read_sized
  read_sized-within n r h = ground (arith, h)

  -- A body within the ceiling goes out behind its length, on a socket that takes all of it.
  pub write_frame-sends :
      (sent : Bytes) (fault : IoError)
      → j.to_vec frame ≡ some body
      → length body ≤ max_frame
      → write_frame j frame (record { sent = sent; room = none; fault = fault })
        ≡ (ok tt, record { sent = sent ++ framed body; room = none; fault = fault })
  unfolding write_frame
  write_frame-sends sent fault e fits =
      let small : length body % 2 ^ 32 ≡ length body = omega arith in
      ground (arith, e, small, append_assoc sent (to_be_bytes (length body)) body)

  read_sized-body :
      (rest : Bytes) (broken : Option IoError)
      → j.from_slice body ≡ some frame
      → length body ≤ max_frame
      → read_sized j (length body) (record { pending = body ++ rest; broken = broken })
        ≡ (ok (some frame), record { pending = rest; broken = broken })
  read_sized-body rest broken e fits =
      let body_read = read_exact-append (length body) body rest broken refl in
      let within : ltb max_frame (length body) ≡ false = ground arith in
      read_sized-within (length body) (record { pending = body ++ rest; broken = broken }) within
      ∙ ap (read_body j) body_read
      ∙ unfold read_body in ground (arith, e)

  -- A frame on the socket is read as the value that it encodes, whatever follows it.
  pub read_frame-framed :
      (rest : Bytes) (broken : Option IoError)
      → j.from_slice body ≡ some frame
      → length body ≤ max_frame
      → read_frame j (record { pending = framed body ++ rest; broken = broken })
        ≡ (ok (some frame), record { pending = rest; broken = broken })
  unfolding read_frame
  read_frame-framed rest broken e fits =
      let prefix = to_be_bytes (length body) in
      ap (read_length j) (
        ap (λ s. read_exact 4 (record { pending = s; broken = broken }))
          (append_assoc prefix body rest)
        ∙ read_exact-append 4 prefix (body ++ rest) broken (length-to_be_bytes (length body)))
      ∙ ap (λ n. read_sized j n (record { pending = body ++ rest; broken = broken }))
          (from_be_bytes-to_be_bytes (length body) (omega arith))
      ∙ read_sized-body rest broken e fits

-- What one side writes, the other reads: a frame whose body is within the ceiling is read back from
-- what was sent, together with all that follows, if decoding undoes encoding.
pub read_frame-write_frame {ℓ} :
    {T : Type ℓ} (j : Json T) (frame : T) (body rest : Bytes) (w : Writer) (broken : Option IoError)
    → j.to_vec frame ≡ some body
    → j.from_slice body ≡ some frame
    → length body ≤ max_frame
    → w.sent ≡ []
    → w.room ≡ none
    → ((write_frame j frame w).0 ≡ ok tt)
      × (read_frame j (record { pending = (write_frame j frame w).1.sent ++ rest; broken = broken })
          ≡ (ok (some frame), record { pending = rest; broken = broken }))
read_frame-write_frame j frame body rest w broken enc dec fits fresh unlimited =
    let sends : write_frame j frame w
        ≡ (ok tt, record { sent = framed body; room = none; fault = w.fault }) =
      ap (λ w'. write_frame j frame w')
        (λ i. record { sent = fresh i; room = unlimited i; fault = w.fault })
      ∙ write_frame-sends j frame body [] w.fault enc fits in
    (
      ap (λ p. p.0) sends,
      ap (λ p. read_frame j (record { pending = p.1.sent ++ rest; broken = broken })) sends
          ∙ read_frame-framed j frame body rest broken dec fits,
    )
