-- ===== src/Daemon/Client.antt =====
-- The client side of the daemon's protocol: crates/ktsense-daemon/src/client.rs. A connection is what
-- the daemon sends and what the client has sent.
pub mod Answers
pub mod Tests
use ktsense.Prelude.{ℕ, Bool, Option, none, some, ◌==◌, if◌then◌else◌, Bytes}
use ktsense.Std.Results.{Result, ok, err}
use ktsense.Daemon.Wire.{WireError, Reader, Writer, Json, read_frame, write_frame}
use ktsense.Daemon.Protocol.{protocol_version, ServerFrame, hello, result, ClientFrame, request}

pub record ProtocolMismatch : Type 0 where
  pub expected : ℕ
  pub actual : ℕ

pub data ClientError : Type 0 where
  wire : WireError → ClientError
  no_hello closed_early unexpected_frame : ClientError
  protocol : ℕ → ℕ → ClientError
  engine : Bytes → ClientError

unfoldable pub verify_protocol : ℕ → Result (Unit {0}) ProtocolMismatch
verify_protocol actual =
    if actual == protocol_version
    then ok tt
    else err (record { expected = protocol_version; actual = actual })

pub record Stream : Type 0 where
  pub reader : Reader
  pub writer : Writer

-- A client past the hello, with the version that it was told.
pub record AnyClient : Type 0 where
  pub stream : Stream
  pub announced : ℕ

abbrev pub verified : Stream → Result (Unit {0}) ProtocolMismatch → Result Stream ClientError
verified stream (ok _) = ok stream
verified stream (err mismatch) = err (protocol mismatch.expected mismatch.actual)

abbrev pub on_sent {ℓ κ} :
    {U : Type ℓ} {A : Type κ} → Result U WireError → Result A ClientError → Result A ClientError
on_sent (ok _) next = next
on_sent (err e) next = err (wire e)

module _ {ℓ} {V : Type ℓ} where
  abbrev pub on_hello {κ} :
      {A : Type κ}
      → Result (Option (ServerFrame V)) WireError
      → (ℕ → Result A ClientError)
      → Result A ClientError
  on_hello (err e) next = err (wire e)
  on_hello (ok none) next = err no_hello
  on_hello (ok (some (hello version))) next = next version
  on_hello (ok (some (result value))) next = err unexpected_frame
  on_hello (ok (some (ServerFrame.error message))) next = err unexpected_frame

  abbrev pub on_response : Result (Option (ServerFrame V)) WireError → Result V ClientError
  on_response (err e) = err (wire e)
  on_response (ok none) = err closed_early
  on_response (ok (some (result value))) = ok value
  on_response (ok (some (ServerFrame.error message))) = err (engine message)
  on_response (ok (some (hello version))) = err unexpected_frame

-- Nothing is read when the request could not be written.
abbrev pub responded {ℓ} :
    {V : Type ℓ}
    → Result (Unit {0}) WireError
    → Result (Option (ServerFrame V)) WireError
    → Stream
    → Stream
    → Result V ClientError × Stream
responded (err e) frame unread read = (err (wire e), unread)
responded (ok _) frame unread read = (on_response frame, read)

module _ {ℓ} {V : Type ℓ} (incoming : Json (ServerFrame V)) (outgoing : Json (ClientFrame V)) where
  -- Past `UnixStream::connect`.
  unfoldable pub connect : Stream → Result Stream ClientError
  unfolding verify_protocol
  connect stream =
      let (frame, reader) = read_frame incoming stream.reader in
      on_hello frame
        (λ version. verified (record stream { reader = reader }) (verify_protocol version))

  unfoldable pub connect_any : Stream → Result AnyClient ClientError
  connect_any stream =
      let (frame, reader) = read_frame incoming stream.reader in
      on_hello frame
        (λ version. ok (record { stream = record stream { reader = reader }; announced = version }))

  unfoldable pub issue_request : Bytes → V → Stream → Result V ClientError × Stream
  issue_request method params stream =
      let (sent, writer) = write_frame outgoing (request method params) stream.writer in
      let (frame, reader) = read_frame incoming stream.reader in
      responded sent frame (record stream { writer = writer })
        (record { reader = reader; writer = writer })

  unfoldable pub stop_stream : Stream → Result (Unit {0}) ClientError × Stream
  stop_stream stream =
      let (sent, writer) = write_frame outgoing ClientFrame.stop stream.writer in
      (on_sent sent (ok tt), record stream { writer = writer })
