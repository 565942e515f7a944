-- ===== src/Daemon/Wire/Bytes4.antt =====
-- The length prefix: `to_be_bytes` and `from_be_bytes` in crates/ktsense-daemon/src/wire.rs.
use ktsense.Prelude.{ℕ, ◌^◌, ◌<◌, ◌≡◌, refl, arith, length}
use ktsense.Daemon.Wire.{to_be_bytes, from_be_bytes}

pub from_be_bytes-to_be_bytes : (n : ℕ) → n < 2 ^ 32 → from_be_bytes (to_be_bytes n) ≡ n
unfolding to_be_bytes from_be_bytes
from_be_bytes-to_be_bytes n h = omega arith

pub length-to_be_bytes : (n : ℕ) → length (to_be_bytes n) ≡ 4
unfolding to_be_bytes
length-to_be_bytes n = refl
