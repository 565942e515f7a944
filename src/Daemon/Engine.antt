-- ===== src/Daemon/Engine.antt =====
-- The production engine's outcomes: crates/ktsense-daemon/src/engine.rs. How an error is worded is a
-- parameter.
use ktsense.Prelude.{◌≡◌, refl, Bytes}
use ktsense.Std.Results.{Result, ok, err}
use ktsense.Lsp.Framing.{FramingError}
use ktsense.Lsp.Session.{LspError, framing}
use ktsense.Daemon.Protocol.{HandlerOutcome, Engine}

module _ {ℓ} {V : Type ℓ} (to_string : LspError → Bytes) where
  unfoldable pub outcome_for : Result V LspError → HandlerOutcome V
  outcome_for (ok value) = HandlerOutcome.reply value
  outcome_for (err (framing fault)) = HandlerOutcome.faulted (to_string (framing fault))
  outcome_for (err other) = HandlerOutcome.error (to_string other)

  -- `WarmEngine::handle`, over a session and what a request on it returns.
  pub handle {κ} : {S : Type κ} → (S → Bytes → V → Result V LspError × S) → Engine V S
  unfolding outcome_for
  handle ask s method params = let (r, s') = ask s method params in (outcome_for r, s')

  -- Only a framing fault stops the daemon.
  outcome_for-faulted :
      (r : Result V LspError) (message : Bytes)
      → outcome_for r ≡ HandlerOutcome.faulted message
      → (fault : FramingError) × (r ≡ err (framing fault))
  unfolding outcome_for
  outcome_for-faulted (ok value) message e = cc
  outcome_for-faulted (err (LspError.io kind)) message e = cc
  outcome_for-faulted (err LspError.json) message e = cc
  outcome_for-faulted (err (LspError.timeout method bound)) message e = cc
  outcome_for-faulted (err (LspError.response method code text)) message e = cc
  outcome_for-faulted (err (LspError.child_exited method)) message e = cc
  outcome_for-faulted (err (framing fault)) message e = (fault, refl)
