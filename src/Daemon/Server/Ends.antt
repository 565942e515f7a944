-- ===== src/Daemon/Server/Ends.antt =====
-- When the daemon stops: crates/ktsense-daemon/src/server.rs.
use ktsense.Prelude.{
  ℕ, zero, suc, ◌<◌, ◌≡◌, refl, ap, Option, none, some, List, [], ◌∷◌, arith, Bytes, length,
}
use ktsense.Std.Results.{Result, ok, err}
use ktsense.Daemon.Wire.{WireError, Reader, Writer, Json, read_frame, write_frame}
use ktsense.Daemon.Wire.Sizes.{FrameAt, read_frame-shrinks, read_frame_complete}
use ktsense.Daemon.Protocol.{ServerFrame, ClientFrame, request, HandlerOutcome, Engine}
use ktsense.Daemon.Server.{
  StopReason, ConnectionEnd, closed, Served, ended, Accepted, elapsed, failed, connected, Loop,
  returned, waiting, on_written, respond, on_read, serve_requests, serve_connection, on_served,
  serve_loop,
}

-- The client's bytes begin with complete requests, one behind the other, and the engine takes the
-- session through them: what is left of the bytes, and the session then.
pub data Sends {V S : Type 0} (incoming : Json (ClientFrame V)) (engine : Engine V S)
    : Bytes → S → Bytes → S → Type 0 where
  done : {bytes : Bytes} {s : S} → Sends incoming engine bytes s bytes s
  served :
      {bytes behind rest : Bytes} {s s' end : S} (method : Bytes) (params : V)
      → FrameAt incoming bytes (request method params) behind
      → (engine s method params).1 ≡ s'
      → Sends incoming engine behind s' rest end
      → Sends incoming engine bytes s rest end

-- What a client has sent when its connection ends. The daemon closes it behind some requests; it stops
-- at a stop behind them; and it reports a fault when the engine faults on the request behind them.
abbrev pub Explains :
    {V S : Type 0} → Json (ClientFrame V) → Engine V S → Bytes → S → Served S → Type 0
Explains incoming engine bytes s (ended closed w s') =
    (rest : Bytes) × Sends incoming engine bytes s rest s'
Explains incoming engine bytes s (ended ConnectionEnd.stop w s') =
    (rest : Bytes) × (behind : Bytes) × (Sends incoming engine bytes s rest s'
      × FrameAt incoming rest ClientFrame.stop behind)
Explains {V} {S} incoming engine bytes s (ended ConnectionEnd.faulted w s') =
    (rest : Bytes) × (behind : Bytes) × (before : S) × (method : Bytes) × (params : V)
    × (message : Bytes) × (Sends incoming engine bytes s rest before
        × (FrameAt incoming rest (request method params) behind
            × (engine before method params ≡ (HandlerOutcome.faulted message, s'))))
Explains incoming engine bytes s Served.out_of_fuel = ⊥

on_written-holds {κ} :
    {S : Type κ} (P : Served S → Type 0) (x : Result (Unit {0}) WireError × Writer) (s : S)
    (next : Writer → Served S)
    → ((w : Writer) → P (ended closed w s))
    → ((w : Writer) → P (next w))
    → P (on_written x s next)
on_written-holds P (ok u, w) s next c h = h w
on_written-holds P (err e, w) s next c h = c w

module _ {V S : Type 0} (incoming : Json (ClientFrame V)) (outgoing : Json (ServerFrame V))
    (engine : Engine V S) where
  Explains-served :
      (bytes behind : Bytes) (s s' : S) (method : Bytes) (params : V) (x : Served S)
      → FrameAt incoming bytes (request method params) behind
      → (engine s method params).1 ≡ s'
      → Explains incoming engine behind s' x
      → Explains incoming engine bytes s x
  Explains-served bytes behind s s' method params (ended closed w end) at e (rest, sends) =
      (rest, served method params at e sends)
  Explains-served bytes behind s s' method params (ended ConnectionEnd.stop w end) at e
        (rest, beyond, (sends, stop)) =
      (rest, beyond, (served method params at e sends, stop))
  Explains-served bytes behind s s' method params (ended ConnectionEnd.faulted w end) at e
        (rest, beyond, before, m, v, message, (sends, fault)) =
      (rest, beyond, before, m, v, message, (served method params at e sends, fault))
  Explains-served bytes behind s s' method params Served.out_of_fuel at e x = absurd x

  respond-Explains :
      (bytes behind : Bytes) (s : S) (method : Bytes) (params : V) (x : HandlerOutcome V × S)
      (w : Writer) (next : S → Writer → Served S)
      → engine s method params ≡ x
      → FrameAt incoming bytes (request method params) behind
      → ((s' : S) (w : Writer) → Explains incoming engine behind s' (next s' w))
      → Explains incoming engine bytes s (respond incoming outgoing engine x w next)
  respond-Explains bytes behind s method params (HandlerOutcome.reply value, s') w next e at h =
      on_written-holds (Explains incoming engine bytes s)
        (write_frame outgoing (ServerFrame.result value) w) s' (next s')
        (λ w'. (behind, served method params at (ap (λ x. x.1) e) done))
        (λ w'.
          Explains-served bytes behind s s' method params (next s' w') at (ap (λ x. x.1) e)
            (h s' w'))
  respond-Explains bytes behind s method params (HandlerOutcome.error message, s') w next e at h =
      on_written-holds (Explains incoming engine bytes s)
        (write_frame outgoing (ServerFrame.error message) w) s' (next s')
        (λ w'. (behind, served method params at (ap (λ x. x.1) e) done))
        (λ w'.
          Explains-served bytes behind s s' method params (next s' w') at (ap (λ x. x.1) e)
            (h s' w'))
  respond-Explains bytes behind s method params (HandlerOutcome.faulted message, s') w next e at h =
      (bytes, behind, s, method, params, message, (done, (at, e)))

  on_read-Explains :
      (bytes behind : Bytes) (s : S) (x : Result (Option (ClientFrame V)) WireError) (w : Writer)
      (next : S → Writer → Served S)
      → ((frame : ClientFrame V) → x ≡ ok (some frame) → FrameAt incoming bytes frame behind)
      → ((frame : ClientFrame V)
          → x ≡ ok (some frame)
          → (s' : S) (w : Writer) → Explains incoming engine behind s' (next s' w))
      → Explains incoming engine bytes s (on_read incoming outgoing engine x w s next)
  on_read-Explains bytes behind s (ok (some (ClientFrame.request method params))) w next at h =
      respond-Explains bytes behind s method params (engine s method params) w next refl
        (at (request method params) refl) (h (request method params) refl)
  on_read-Explains bytes behind s (ok (some ClientFrame.stop)) w next at h =
      (bytes, behind, (done, at ClientFrame.stop refl))
  on_read-Explains bytes behind s (ok none) w next at h = (bytes, done)
  on_read-Explains bytes behind s (err e) w next at h = (bytes, done)

  serve_requests-Explains :
      (fuel : ℕ) (r : Reader) (w : Writer) (s : S)
      → length r.pending < fuel
      → Explains incoming engine r.pending s (serve_requests incoming outgoing engine fuel r w s)
  unfolding serve_requests
  serve_requests-Explains zero r w s h = absurd (omega arith)
  serve_requests-Explains (suc fuel) r w s h =
      let (x, r') = read_frame incoming r in
      on_read-Explains r.pending r'.pending s x w
        (λ s' w'. serve_requests incoming outgoing engine fuel r' w' s')
        (read_frame_complete incoming r)
        (λ frame e s' w'.
          serve_requests-Explains fuel r' w' s'
            (omega (arith, read_frame-shrinks incoming r frame e)))

  -- Every connection ends, whatever its client sends and however much it can be sent, and in each of the
  -- ways only for what the client has sent.
  serve_connection-Explains :
      (r : Reader) (w : Writer) (s : S)
      → Explains incoming engine r.pending s (serve_connection incoming outgoing engine r w s)
  unfolding serve_connection
  serve_connection-Explains r w s =
      on_written-holds (Explains incoming engine r.pending s)
        (write_frame outgoing (ServerFrame.hello 11) w) s
        (λ w'. serve_requests incoming outgoing engine (suc (length r.pending)) r w' s)
        (λ w'. (r.pending, done))
        (λ w'. serve_requests-Explains (suc (length r.pending)) r w' s (omega arith))

-- The first connections are served and closed, each behind some of its client's requests: what `accept`
-- returns behind them, and the session then.
pub data Serving {V S : Type 0} (incoming : Json (ClientFrame V)) (engine : Engine V S)
    : List Accepted → S → List Accepted → S → Type 0 where
  at_once : {events : List Accepted} {s : S} → Serving incoming engine events s events s
  past :
      {later rest : List Accepted} {s s' end : S} {left : Bytes} (r : Reader) (w : Writer)
      → Sends incoming engine r.pending s left s'
      → Serving incoming engine later s' rest end
      → Serving incoming engine (connected r w ∷ later) s rest end

-- What the loop has come to when it is where it is; it is never out of fuel.
abbrev pub LoopCause :
    {V S : Type 0} → Json (ClientFrame V) → Engine V S → List Accepted → S → Loop S → Type 0
LoopCause {V} {S} incoming engine events s (returned (ok StopReason.stopped) s') =
    (r : Reader) × (w : Writer) × (later : List Accepted) × (before : S) × (Serving incoming engine
        events s (connected r w ∷ later) before
      × Explains incoming engine r.pending before (ended ConnectionEnd.stop w s'))
LoopCause {V} {S} incoming engine events s (returned (ok StopReason.engine_faulted) s') =
    (r : Reader) × (w : Writer) × (later : List Accepted) × (before : S) × (Serving incoming engine
        events s (connected r w ∷ later) before
      × Explains incoming engine r.pending before (ended ConnectionEnd.faulted w s'))
LoopCause incoming engine events s (returned (ok StopReason.idle) s') =
    (later : List Accepted) × Serving incoming engine events s (elapsed ∷ later) s'
LoopCause incoming engine events s (returned (err e) s') =
    (later : List Accepted) × Serving incoming engine events s (failed e ∷ later) s'
LoopCause incoming engine events s (waiting s') = Serving incoming engine events s [] s'
LoopCause incoming engine events s Loop.out_of_fuel = ⊥

module _ {V S : Type 0} (incoming : Json (ClientFrame V)) (outgoing : Json (ServerFrame V))
    (engine : Engine V S) where
  LoopCause-past :
      (r : Reader) (w : Writer) (later : List Accepted) (s s' : S) (left : Bytes) (loop : Loop S)
      → Sends incoming engine r.pending s left s'
      → LoopCause incoming engine later s' loop
      → LoopCause incoming engine (connected r w ∷ later) s loop
  LoopCause-past r w later s s' left (returned (ok StopReason.stopped) end) sends
        (r', w', rest, before, (serving, cause)) =
      (r', w', rest, before, (past r w sends serving, cause))
  LoopCause-past r w later s s' left (returned (ok StopReason.engine_faulted) end) sends
        (r', w', rest, before, (serving, cause)) =
      (r', w', rest, before, (past r w sends serving, cause))
  LoopCause-past r w later s s' left (returned (ok StopReason.idle) end) sends (rest, serving) =
      (rest, past r w sends serving)
  LoopCause-past r w later s s' left (returned (err e) end) sends (rest, serving) =
      (rest, past r w sends serving)
  LoopCause-past r w later s s' left (waiting end) sends serving = past r w sends serving
  LoopCause-past r w later s s' left Loop.out_of_fuel sends c = absurd c

  on_served-LoopCause :
      (r : Reader) (w : Writer) (later : List Accepted) (s : S) (x : Served S) (next : S → Loop S)
      → Explains incoming engine r.pending s x
      → ((s' : S) → LoopCause incoming engine later s' (next s'))
      → LoopCause incoming engine (connected r w ∷ later) s (on_served x next)
  on_served-LoopCause r w later s (ended closed w' s') next (left, sends) h =
      LoopCause-past r w later s s' left (next s') sends (h s')
  on_served-LoopCause r w later s (ended ConnectionEnd.stop w' s') next c h =
      (r, w, later, s, (at_once, c))
  on_served-LoopCause r w later s (ended ConnectionEnd.faulted w' s') next c h =
      (r, w, later, s, (at_once, c))
  on_served-LoopCause r w later s Served.out_of_fuel next c h = absurd c

  -- The daemon leaves its loop only for a cause, with the session that the requests up to it lead to: a
  -- connected client whose bytes hold, behind complete requests, a complete frame that decodes to the
  -- stop, or a complete request on which the engine faults in that session; an idle window that elapsed;
  -- or an `accept` that failed. All earlier connections were closed behind some of their requests, so a
  -- client that hangs up, in the middle of a frame too, sends garbage or cannot be written to does not
  -- end the loop; and no loop runs on.
  pub serve_loop_cause :
      (events : List Accepted) (s : S)
      → LoopCause incoming engine events s (serve_loop incoming outgoing engine events s)
  unfolding serve_loop
  serve_loop_cause [] s = at_once
  serve_loop_cause (elapsed ∷ later) s = (later, at_once)
  serve_loop_cause (failed e ∷ later) s = (later, at_once)
  serve_loop_cause (connected r w ∷ later) s =
      on_served-LoopCause r w later s (serve_connection incoming outgoing engine r w s)
        (λ s'. serve_loop incoming outgoing engine later s')
        (serve_connection-Explains incoming outgoing engine r w s) (λ s'. serve_loop_cause later s')
