-- ===== src/Daemon/Wire.antt =====
-- The length-prefixed frames of the daemon's socket: crates/ktsense-daemon/src/wire.rs.
-- JSON is `serde_json`'s, so its two directions are parameters; the asynchronous byte streams are
-- what can be read until they end or fail, and what was written before they fail.
pub mod Bytes4
pub mod RoundTrip
pub mod Rejects
pub mod Sizes
use ktsense.Prelude.{
  ℕ, ◌+◌, ◌-◌, ◌*◌, ◌/◌, ◌%◌, ◌^◌, Bool, Option, none, some, List, [], ◌∷◌, ◌++◌, ltb, leb,
  if◌then◌else◌, Bytes, length, take, drop,
}
use ktsense.Std.Results.{Result, ok, err}

abbrev pub max_frame : ℕ
max_frame = 16 * 1024 * 1024

pub data IoError : Type 0 where
  unexpected_eof : IoError
  other : ℕ → IoError

pub data WireError : Type 0 where
  io : IoError → WireError
  json : WireError
  too_large : ℕ → ℕ → WireError

-- What a peer sends before it closes the stream, or before a read fails.
pub record Reader : Type 0 where
  pub pending : Bytes
  pub broken : Option IoError

-- What was sent, how much more can be sent (`none` is no limit), and the fault after that.
pub record Writer : Type 0 where
  pub sent : Bytes
  pub room : Option ℕ
  pub fault : IoError

abbrev pub ending : Option IoError → IoError
ending none = unexpected_eof
ending (some e) = e

pub read_exact : ℕ → Reader → Result Bytes IoError × Reader
read_exact n r =
    if leb n (length r.pending)
    then (ok (take n r.pending), record r { pending = drop n r.pending })
    else (err (ending r.broken), record r { pending = [] })

write_within : Bytes → ℕ → Writer → Result (Unit {0}) IoError × Writer
write_within bytes room w =
    if leb (length bytes) room
    then (ok tt, record w { sent = w.sent ++ bytes; room = some (room - length bytes) })
    else (err w.fault, record w { sent = w.sent ++ take room bytes; room = some 0 })

pub write_all : Bytes → Writer → Result (Unit {0}) IoError × Writer
unfolding write_within
write_all bytes w = elim w.room [
  | none ↦ (ok tt, record w { sent = w.sent ++ bytes })
  | some room ↦ write_within bytes room w
]

-- `u32::to_be_bytes` and `u32::from_be_bytes`
pub to_be_bytes : ℕ → Bytes
to_be_bytes n = (n / 2 ^ 24 % 256) ∷ (n / 2 ^ 16 % 256) ∷ (n / 2 ^ 8 % 256) ∷ (n % 256) ∷ []

pub from_be_bytes : Bytes → ℕ
from_be_bytes (a ∷ b ∷ c ∷ d ∷ rest) = a * 2 ^ 24 + b * 2 ^ 16 + c * 2 ^ 8 + d
from_be_bytes _ = 0

abbrev pub then_write :
    Result (Unit {0}) IoError × Writer
    → (Writer → Result (Unit {0}) IoError × Writer)
    → Result (Unit {0}) IoError × Writer
then_write (ok _, w) next = next w
then_write (err e, w) next = (err e, w)

abbrev pub as_wire : Result (Unit {0}) IoError × Writer → Result (Unit {0}) WireError × Writer
as_wire (ok u, w) = (ok u, w)
as_wire (err e, w) = (err (io e), w)

-- The two directions of the JSON encoding of one type.
pub record Json {ℓ} (T : Type ℓ) : Type ℓ where
  pub to_vec : T → Option Bytes
  pub from_slice : Bytes → Option T

module _ {ℓ} {T : Type ℓ} (j : Json T) where
  pub decoded : Option T → Result (Option T) WireError
  decoded none = err json
  decoded (some t) = ok (some t)

  pub read_body : Result Bytes IoError × Reader → Result (Option T) WireError × Reader
  unfolding decoded
  read_body (err e, r) = (err (io e), r)
  read_body (ok body, r) = (decoded (j.from_slice body), r)

  pub read_sized : ℕ → Reader → Result (Option T) WireError × Reader
  unfolding read_body read_exact
  read_sized len r =
      if ltb max_frame len then (err (too_large len max_frame), r) else read_body (read_exact len r)

  pub read_length : Result Bytes IoError × Reader → Result (Option T) WireError × Reader
  unfolding read_sized from_be_bytes
  read_length (ok length_bytes, r) = read_sized (from_be_bytes length_bytes) r
  read_length (err unexpected_eof, r) = (ok none, r)
  read_length (err (other n), r) = (err (io (other n)), r)

  unfoldable pub read_frame : Reader → Result (Option T) WireError × Reader
  unfolding read_length read_exact
  read_frame r = read_length (read_exact 4 r)

  pub write_body : Bytes → Writer → Result (Unit {0}) WireError × Writer
  unfolding write_all to_be_bytes
  write_body body w =
      if ltb max_frame (length body)
      then (err (too_large (length body) max_frame), w)
      else as_wire (then_write (write_all (to_be_bytes (length body % 2 ^ 32)) w) (write_all body))

  unfoldable pub write_frame : T → Writer → Result (Unit {0}) WireError × Writer
  unfolding write_body
  write_frame frame w = elim (j.to_vec frame) [
    | none ↦ (err json, w)
    | some body ↦ write_body body w
  ]
