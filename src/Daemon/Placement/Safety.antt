-- ===== src/Daemon/Placement/Safety.antt =====
-- Where a fallback socket may go: crates/ktsense-daemon/src/placement.rs.
use Prim.Native.Nat.{bit_and}
use ktsense.Prelude.{ℕ, ◌^◌, ◌<◌, ◌≤◌, ◌≡◌, ◌≢◌, ◌⊎◌, true, false, Option, arith, Bytes, length}
use ktsense.Std.Results.{ok, err}
use ktsense.Std.Number.{length-decimal}
use ktsense.Daemon.Socket.{
  join, path_key, socket_dir, socket_path, length-socket_path, length-join_key,
}
use ktsense.Daemon.Placement.{
  no_short_path, Metadata, found, not_found, unreadable, writable_by_others_bits, judge_base,
  within_budget, short_socket_base, accept_short_base, resolve_socket_path,
}

abbrev pub preferred_path : Option Bytes → Bytes → Bytes → Bytes
preferred_path xdg home root = socket_path (socket_dir xdg home) root

abbrev pub fallback_path : Option Bytes → Bytes → Bytes → Bytes → Bytes
fallback_path xdg home short_base root =
    socket_path (join short_base (path_key (socket_dir xdg home))) root

length-short_socket_base : (uid : ℕ) → uid < 2 ^ 32 → length (short_socket_base uid) ≤ 23
unfolding short_socket_base
length-short_socket_base uid h = omega (arith, length-decimal 10 uid (omega arith) (omega arith))

fallback-fits :
    (xdg : Option Bytes) (home root : Bytes) (uid : ℕ)
    → uid < 2 ^ 32
    → within_budget (fallback_path xdg home (short_socket_base uid) root) ≡ true
unfolding within_budget
fallback-fits xdg home root uid h =
    let base = short_socket_base uid in
    let dir = join base (path_key (socket_dir xdg home)) in
    let small : length (socket_path dir root) ≤ 95 = omega (
      arith,
      length-socket_path dir root,
      length-join_key base (socket_dir xdg home),
      length-short_socket_base uid h,
    ) in
    ground (arith, small)

-- What makes a base safe to hold a socket: it is yet to be created, or it is this user's own
-- directory, no link, and without a write bit for anyone else.
abbrev pub IsPrivate : ℕ → Metadata → Type 0
IsPrivate current not_found = Unit
IsPrivate current (unreadable kind) = ⊥
IsPrivate current (found base) =
    (base.is_symlink ≡ false)
    × (base.directory ≡ true)
    × (base.uid ≡ current)
    × (bit_and base.mode writable_by_others_bits ≡ 0)

judge_base-IsPrivate :
    (current : ℕ) (base : Bytes) (m : Metadata)
    → judge_base current base m ≡ ok tt
    → IsPrivate current m
unfolding judge_base
judge_base-IsPrivate current base (found facts) e = ground arith
judge_base-IsPrivate current base not_found e = tt
judge_base-IsPrivate current base (unreadable kind) e = cc

judge_base-ne-no_short_path :
    (current : ℕ) (base : Bytes) (m : Metadata) (p f : Bytes) (k n : ℕ)
    → judge_base current base m ≢ err (no_short_path p k f n)
unfolding judge_base
judge_base-ne-no_short_path current base (found facts) p f k n = ground arith
judge_base-ne-no_short_path current base not_found p f k n = ground arith
judge_base-ne-no_short_path current base (unreadable kind) p f k n = ground arith

module _ (metadata : Bytes → Metadata) (current : ℕ) where
  -- Under the per-user base a socket is always placed or refused because of that base, never for
  -- want of a short path.
  pub resolve_socket_path-ne-no_short_path :
      (xdg : Option Bytes) (home root preferred fallback : Bytes) (uid m n : ℕ)
      → uid < 2 ^ 32
      → resolve_socket_path metadata current xdg home (short_socket_base uid) root
        ≢ err (no_short_path preferred m fallback n)
  unfolding resolve_socket_path accept_short_base
  resolve_socket_path-ne-no_short_path xdg home root preferred fallback uid m n h e =
      let base = short_socket_base uid in
      ground (
        arith,
        fallback-fits xdg home root uid h,
        judge_base-ne-no_short_path current base (metadata base) preferred fallback m n,
      )

  -- A placed socket is the preferred one, which fits, or the fallback, and then the preferred one
  -- does not fit and the short base is private to this user.
  pub resolve_socket_path-ok :
      (xdg : Option Bytes) (home short_base root path : Bytes)
      → resolve_socket_path metadata current xdg home short_base root ≡ ok path
      → ((path ≡ preferred_path xdg home root) × (length path ≤ 95))
        ⊎ ((path ≡ fallback_path xdg home short_base root)
            × (95 < length (preferred_path xdg home root))
            × IsPrivate current (metadata short_base))
  unfolding resolve_socket_path accept_short_base within_budget
  resolve_socket_path-ok xdg home short_base root path e =
      ground (arith, judge_base-IsPrivate current short_base (metadata short_base))
