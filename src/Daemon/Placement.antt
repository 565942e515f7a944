-- ===== src/Daemon/Placement.antt =====
-- Where the socket of a workspace root goes: crates/ktsense-daemon/src/placement.rs. What
-- `symlink_metadata` reads of a path, and the user id, are parameters.
pub mod Safety
use Prim.Native.Nat.{bit_and}
use ktsense.Prelude.{
  ℕ, ◌+◌, ◌-◌, ◌^◌, ◌<◌, ◌≤◌, ◌≡◌, ◌≢◌, ◌⊎◌, ◌↔◌, refl, sym, ap, ◌∙◌, inl, inr, Bool, true, false,
  not, Option, none, some, List, [], ◌∷◌, ◌++◌, arith, leb, ◌==◌, if◌then◌else◌, Bool-cases, Bytes,
  codes, length, length-append,
}
use ktsense.Std.Results.{Result, ok, err}
use ktsense.Std.Number.{decimal, length-decimal}
use ktsense.Daemon.Socket.{
  join, path_key, socket_dir, socket_path, length-socket_path, length-path_key,
}

abbrev pub max_socket_path : ℕ
max_socket_path = 103

abbrev pub companion_reserve : ℕ
companion_reserve = 8

abbrev pub socket_budget : ℕ
socket_budget = max_socket_path - companion_reserve

pub data BaseFault : Type 0 where
  foreign_owner : ℕ → BaseFault
  writable_by_others : ℕ → BaseFault
  symlink not_a_directory : BaseFault

pub data SocketPlacementError : Type 0 where
  no_short_path : Bytes → ℕ → Bytes → ℕ → SocketPlacementError
  unsafe_short_base : Bytes → BaseFault → SocketPlacementError
  unreadable_short_base : Bytes → ℕ → SocketPlacementError

pub record Base : Type 0 where
  pub is_symlink : Bool
  pub directory : Bool
  pub uid : ℕ
  pub mode : ℕ

-- What `symlink_metadata` gives: the facts, or the kind of the error.
pub data Metadata : Type 0 where
  found : Base → Metadata
  not_found : Metadata
  unreadable : ℕ → Metadata

abbrev pub writable_by_others_bits : ℕ
writable_by_others_bits = 0o022

pub fault_in : Base → ℕ → Option BaseFault
fault_in base current =
    if base.is_symlink
    then some symlink
    else if not base.directory
    then some not_a_directory
    else if not (base.uid == current)
    then some (foreign_owner base.uid)
    else if not (bit_and base.mode writable_by_others_bits == 0)
    then some (writable_by_others (bit_and base.mode 0o7777))
    else none

unfoldable pub within_budget : Bytes → Bool
within_budget path = leb (length path) socket_budget

pub short_socket_base : ℕ → Bytes
short_socket_base uid = codes "/tmp/ktsense-" ++ decimal uid

unfoldable pub judge_base : ℕ → Bytes → Metadata → Result (Unit {0}) SocketPlacementError
unfolding fault_in
judge_base current base (found facts) = elim (fault_in facts current) [
  | some fault ↦ err (unsafe_short_base base fault)
  | none ↦ ok tt
]
judge_base current base not_found = ok tt
judge_base current base (unreadable kind) = err (unreadable_short_base base kind)

module _ (metadata : Bytes → Metadata) (current : ℕ) where
  unfoldable pub accept_short_base : Bytes → Result (Unit {0}) SocketPlacementError
  accept_short_base base = judge_base current base (metadata base)

  unfoldable pub resolve_socket_path :
      Option Bytes → Bytes → Bytes → Bytes → Result Bytes SocketPlacementError
  unfolding within_budget
  resolve_socket_path xdg_runtime_dir home short_base workspace_root =
      let preferred_dir = socket_dir xdg_runtime_dir home in
      let preferred = socket_path preferred_dir workspace_root in
      let fallback = socket_path (join short_base (path_key preferred_dir)) workspace_root in
      if within_budget preferred
      then ok preferred
      else if not (within_budget fallback)
      then err (no_short_path preferred (length preferred) fallback (length fallback))
      else elim (accept_short_base short_base) [ ok _ ↦ ok fallback | err e ↦ err e ]

  -- A path that is placed leaves room for its companion: it and eight more bytes fit in the
  -- address.
  pub resolve_socket_path-fits :
      (xdg : Option Bytes) (home short_base root path : Bytes)
      → resolve_socket_path xdg home short_base root ≡ ok path
      → length path + companion_reserve ≤ max_socket_path
  unfolding resolve_socket_path
  resolve_socket_path-fits xdg home short_base root path e = ground arith
