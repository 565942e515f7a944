-- ===== src/Daemon/Client/Answers.antt =====
-- The client of crates/ktsense-daemon/src/client.rs against the daemon of server.rs, through the
-- bytes that each sends the other.
use ktsense.Prelude.{◌≤◌, ◌≡◌, none, some, [], Bytes, length}
use ktsense.Std.Results.{Result, ok, err}
use ktsense.Daemon.Wire.{IoError, Json, max_frame}
use ktsense.Daemon.Protocol.{ServerFrame, result, ClientFrame, HandlerOutcome, Engine}
use ktsense.Daemon.Server.{Served, ended, serve_connection}
use ktsense.Daemon.Server.Answers.{unlimited}
use ktsense.Daemon.Client.{ClientError, Stream}

-- A body that encodes a frame, decodes to it and is within the ceiling.
pub record Carries {ℓ} {T : Type ℓ} (j : Json T) (frame : T) (body : Bytes) : Type ℓ where
  pub encodes : j.to_vec frame ≡ some body
  pub decodes : j.from_slice body ≡ some frame
  pub fits : length body ≤ max_frame

-- Connecting and then asking once.
abbrev pub asked {ℓ} :
    {V : Type ℓ}
    → Result Stream ClientError
    → (Stream → Result V ClientError × Stream)
    → Result V ClientError
asked (ok stream) next = (next stream).0
asked (err e) next = err e

-- What the client has sent when it has asked.
abbrev pub talked {ℓ} :
    {V : Type ℓ} → Result Stream ClientError → (Stream → Result V ClientError × Stream) → Bytes
talked (ok stream) next = (next stream).1.writer.sent
talked (err e) next = []

abbrev pub sent_of {ℓ} : {S : Type ℓ} → Served S → Bytes
sent_of (ended end w s) = w.sent
sent_of Served.out_of_fuel = []

-- The frame that answers an outcome, and what the client makes of the outcome.
abbrev pub answer_frame {ℓ} : {V : Type ℓ} → HandlerOutcome V → ServerFrame V
answer_frame (HandlerOutcome.reply value) = result value
answer_frame (HandlerOutcome.error message) = ServerFrame.error message
answer_frame (HandlerOutcome.faulted message) = ServerFrame.error message

abbrev pub outcome_result {ℓ} : {V : Type ℓ} → HandlerOutcome V → Result V ClientError
outcome_result (HandlerOutcome.reply value) = ok value
outcome_result (HandlerOutcome.error message) = err (ClientError.engine message)
outcome_result (HandlerOutcome.faulted message) = err (ClientError.engine message)

abbrev pub fresh : Bytes → IoError → Stream
fresh pending fault = record {
  reader = record { pending = pending; broken = none };
  writer = unlimited [] fault;
}

module _ {ℓ} {V S : Type ℓ} (sj : Json (ServerFrame V)) (cj : Json (ClientFrame V))
    (handle : Engine V S) (fault : IoError) (s : S) where
  -- What the daemon sends to a client that has sent some bytes.
  abbrev pub daemon_sends : Bytes → Bytes
  daemon_sends said = sent_of (
      serve_connection cj sj handle (record { pending = said; broken = none }) (unlimited [] fault)
        s)
