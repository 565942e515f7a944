-- ===== src/Daemon/Protocol.antt =====
-- The frames of the daemon protocol, its version, and the engine that the daemon serves:
-- crates/ktsense-daemon/src/wire.rs, lib.rs and engine.rs. A JSON value is `serde_json`'s `Value`,
-- a type parameter.
use ktsense.Prelude.{ℕ, Bytes}

abbrev pub protocol_version : ℕ
protocol_version = 11

pub data ServerFrame {ℓ} (V : Type ℓ) : Type ℓ where
  hello : ℕ → ServerFrame V
  result : V → ServerFrame V
  error : Bytes → ServerFrame V

pub data ClientFrame {ℓ} (V : Type ℓ) : Type ℓ where
  request : Bytes → V → ClientFrame V
  stop : ClientFrame V

pub data HandlerOutcome {ℓ} (V : Type ℓ) : Type ℓ where
  reply : V → HandlerOutcome V
  error : Bytes → HandlerOutcome V
  faulted : Bytes → HandlerOutcome V

-- `Engine::handle`: the session is its state.
abbrev pub Engine {ℓ κ} : Type ℓ → Type κ → Type (ℓ ⊔ κ)
Engine V S = S → Bytes → V → HandlerOutcome V × S
