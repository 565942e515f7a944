-- ===== src/Daemon/Server.antt =====
-- The daemon's server core: crates/ktsense-daemon/src/server.rs. One connection is served at a time,
-- over what its client sends and what it can be sent; the listener is the list of what `accept`
-- returns within the idle window.
pub mod Ends
pub mod Answers
use ktsense.Prelude.{ℕ, zero, suc, Option, none, some, List, [], ◌∷◌, Bytes, length}
use ktsense.Std.Results.{Result, ok, err}
use ktsense.Daemon.Wire.{IoError, WireError, Reader, Writer, Json, read_frame, write_frame}
use ktsense.Daemon.Protocol.{
  protocol_version, ServerFrame, hello, result, ClientFrame, request, HandlerOutcome, Engine,
}

pub data StopReason : Type 0 where
  stopped idle engine_faulted : StopReason

pub data ConnectionEnd : Type 0 where
  closed stop faulted : ConnectionEnd

-- How a connection ended, what was written on it and the session that it leaves.
pub data Served {κ} (S : Type κ) : Type κ where
  ended : ConnectionEnd → Writer → S → Served S
  out_of_fuel : Served S

pub data Accepted : Type 0 where
  elapsed : Accepted
  failed : IoError → Accepted
  connected : Reader → Writer → Accepted

-- Why the loop returned, or that it waits for a next connection.
pub data Loop {κ} (S : Type κ) : Type κ where
  returned : Result StopReason IoError → S → Loop S
  waiting : S → Loop S
  out_of_fuel : Loop S

module _ {κ} {S : Type κ} where
  -- A response that cannot be written closes the connection.
  abbrev pub on_written : Result (Unit {0}) WireError × Writer → S → (Writer → Served S) → Served S
  on_written (ok _, w) s next = next w
  on_written (err _, w) s next = ended closed w s

  abbrev pub on_served : Served S → (S → Loop S) → Loop S
  on_served (ended closed w s) next = next s
  on_served (ended ConnectionEnd.stop w s) next = returned (ok stopped) s
  on_served (ended ConnectionEnd.faulted w s) next = returned (ok engine_faulted) s
  on_served Served.out_of_fuel next = out_of_fuel

module _ {ℓ κ} {V : Type ℓ} {S : Type κ} (incoming : Json (ClientFrame V))
    (outgoing : Json (ServerFrame V)) (engine : Engine V S) where
  abbrev pub respond : HandlerOutcome V × S → Writer → (S → Writer → Served S) → Served S
  respond (HandlerOutcome.reply value, s) w next =
      on_written (write_frame outgoing (result value) w) s (next s)
  respond (HandlerOutcome.error message, s) w next =
      on_written (write_frame outgoing (ServerFrame.error message) w) s (next s)
  respond (HandlerOutcome.faulted message, s) w next =
      ended ConnectionEnd.faulted (write_frame outgoing (ServerFrame.error message) w).1 s

  abbrev pub on_read :
      Result (Option (ClientFrame V)) WireError → Writer → S → (S → Writer → Served S) → Served S
  on_read (ok (some ClientFrame.stop)) w s next = ended ConnectionEnd.stop w s
  on_read (ok (some (request method params))) w s next = respond (engine s method params) w next
  on_read (ok none) w s next = ended closed w s
  on_read (err _) w s next = ended closed w s

  -- The request loop. `fuel` bounds the frames that can be read; the bytes that are pending are
  -- enough.
  pub serve_requests : ℕ → Reader → Writer → S → Served S
  serve_requests zero r w s = out_of_fuel
  serve_requests (suc fuel) r w s =
      let (frame, r') = read_frame incoming r in
      on_read frame w s (λ s' w'. serve_requests fuel r' w' s')

  pub serve_connection : Reader → Writer → S → Served S
  unfolding serve_requests
  serve_connection r w s =
      on_written (write_frame outgoing (hello protocol_version) w) s
        (λ w'. serve_requests (suc (length r.pending)) r w' s)

  pub serve_loop : List Accepted → S → Loop S
  unfolding serve_connection
  serve_loop [] s = waiting s
  serve_loop (elapsed ∷ later) s = returned (ok idle) s
  serve_loop (failed e ∷ later) s = returned (err e) s
  serve_loop (connected r w ∷ later) s =
      on_served (serve_connection r w s) (λ s'. serve_loop later s')
