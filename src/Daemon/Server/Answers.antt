-- ===== src/Daemon/Server/Answers.antt =====
-- What a connection answers, as a function of the frames that its client sends, and
-- `serve_connection` of crates/ktsense-daemon/src/server.rs down to the bytes.
use mathlib.Core.Logic.{Lift}
use ktsense.Prelude.{
  ℕ, zero, suc, ◌≤◌, ◌<◌, ◌≡◌, ◌≢◌, refl, ap, sym, ◌∙◌, Option, none, some, List, [], ◌∷◌, ◌++◌,
  append-nil, append_assoc, arith, Bytes, length, length-append,
}
use ktsense.Std.Results.{Result, ok, err}
use ktsense.Daemon.Wire.{
  IoError, WireError, Reader, Writer, Json, max_frame, read_frame, write_frame,
}
use ktsense.Daemon.Wire.RoundTrip.{framed, framed-size, write_frame-sends, read_frame-framed}
use ktsense.Daemon.Wire.Sizes.{read_frame-at_end}
use ktsense.Daemon.Protocol.{protocol_version, ServerFrame, ClientFrame, HandlerOutcome, Engine}
use ktsense.Daemon.Server.{
  ConnectionEnd, closed, Served, ended, on_written, respond, on_read, serve_requests,
  serve_connection,
}

pub record Answered {ℓ κ} (V : Type ℓ) (S : Type κ) : Type (ℓ ⊔ κ) where
  pub frames : List (ServerFrame V)
  pub end : ConnectionEnd
  pub session : S

module _ {ℓ κ} {V : Type ℓ} {S : Type κ} where
  abbrev pub first : ServerFrame V → Answered V S → Answered V S
  first frame a = record a { frames = frame ∷ a.frames }

  abbrev pub answer : HandlerOutcome V × S → (S → Answered V S) → Answered V S
  answer (HandlerOutcome.reply value, s) next = first (ServerFrame.result value) (next s)
  answer (HandlerOutcome.error message, s) next = first (ServerFrame.error message) (next s)
  answer (HandlerOutcome.faulted message, s) next = record {
    frames = ServerFrame.error message ∷ [];
    end = ConnectionEnd.faulted;
    session = s;
  }

  -- A request is answered by its result or its error, in order; a stop or a fault is the last frame
  -- that is read.
  abbrev pub answers : Engine V S → List (ClientFrame V) → S → Answered V S
  answers engine [] s = record { frames = []; end = closed; session = s }
  answers engine (ClientFrame.stop ∷ later) s = record {
    frames = [];
    end = ConnectionEnd.stop;
    session = s;
  }
  answers engine (ClientFrame.request method params ∷ later) s =
      answer (engine s method params) (λ s'. answers engine later s')

abbrev pub joined_frames : List Bytes → Bytes
joined_frames [] = []
joined_frames (body ∷ bodies) = framed body ++ joined_frames bodies

-- The bodies are those that encode the frames, or decode to them, and each is within the ceiling.
abbrev pub Encodes {ℓ} : {T : Type ℓ} → Json T → List T → List Bytes → Type ℓ
Encodes j [] [] = Unit
Encodes j (frame ∷ frames) (body ∷ bodies) =
    (j.to_vec frame ≡ some body) × (length body ≤ max_frame) × Encodes j frames bodies
Encodes j [] (body ∷ bodies) = Lift ⊥
Encodes j (frame ∷ frames) [] = Lift ⊥

abbrev pub Decodes {ℓ} : {T : Type ℓ} → Json T → List T → List Bytes → Type ℓ
Decodes j [] [] = Unit
Decodes j (frame ∷ frames) (body ∷ bodies) =
    (j.from_slice body ≡ some frame) × (length body ≤ max_frame) × Decodes j frames bodies
Decodes j [] (body ∷ bodies) = Lift ⊥
Decodes j (frame ∷ frames) [] = Lift ⊥

abbrev pub unlimited : Bytes → IoError → Writer
unlimited sent fault = record { sent = sent; room = none; fault = fault }

module _ {ℓ κ} {V : Type ℓ} {S : Type κ} (incoming : Json (ClientFrame V))
    (outgoing : Json (ServerFrame V)) (engine : Engine V S) (broken : Option IoError)
    (fault : IoError) where
  on_written-sends :
      (frame : ServerFrame V) (out sent : Bytes) (s : S) (next : Writer → Served S)
      → outgoing.to_vec frame ≡ some out
      → length out ≤ max_frame
      → on_written (write_frame outgoing frame (unlimited sent fault)) s next
        ≡ next (unlimited (sent ++ framed out) fault)
  on_written-sends frame out sent s next e fits =
      ap (λ x. on_written x s next) (write_frame-sends outgoing frame out sent fault e fits)

  -- What a continuation does after the first answer is what it does after all of them.
  abbrev Continues : (S → Writer → Served S) → (S → Answered V S) → Type (ℓ ⊔ κ)
  Continues next later =
      (s : S) (outs : List Bytes) (sent : Bytes)
      → Encodes outgoing (later s).frames outs
      → next s (unlimited sent fault)
        ≡ ended (later s).end (unlimited (sent ++ joined_frames outs) fault) (later s).session

  on_written-first :
      (frame : ServerFrame V) (later : S → Answered V S) (outs : List Bytes) (sent : Bytes) (s : S)
      (next : S → Writer → Served S)
      → Encodes outgoing (frame ∷ (later s).frames) outs
      → Continues next later
      → on_written (write_frame outgoing frame (unlimited sent fault)) s (next s)
        ≡ ended (later s).end (unlimited (sent ++ joined_frames outs) fault) (later s).session
  on_written-first frame later [] sent s next e k = absurd e.lower
  on_written-first frame later (out ∷ outs) sent s next e k =
      on_written-sends frame out sent s (next s) e.0 e.1
      ∙ k s outs (sent ++ framed out) e.2
      ∙ ap (λ b. ended (later s).end (unlimited b fault) (later s).session)
          (append_assoc sent (framed out) (joined_frames outs))

  respond-answer :
      (x : HandlerOutcome V × S) (later : S → Answered V S) (outs : List Bytes) (sent : Bytes)
      (next : S → Writer → Served S)
      → Encodes outgoing (answer x later).frames outs
      → Continues next later
      → respond incoming outgoing engine x (unlimited sent fault) next
        ≡ ended
            (answer x later).end
            (unlimited (sent ++ joined_frames outs) fault)
            (answer x later).session
  respond-answer (HandlerOutcome.reply value, s) later outs sent next e k =
      on_written-first (ServerFrame.result value) later outs sent s next e k
  respond-answer (HandlerOutcome.error message, s) later outs sent next e k =
      on_written-first (ServerFrame.error message) later outs sent s next e k
  respond-answer (HandlerOutcome.faulted message, s) later [] sent next e k = absurd e.lower
  respond-answer (HandlerOutcome.faulted message, s) later (out ∷ []) sent next e k =
      ap (λ x. ended ConnectionEnd.faulted x.1 s)
        (write_frame-sends outgoing (ServerFrame.error message) out sent fault e.0 e.1)
      ∙ ap (λ b. ended ConnectionEnd.faulted (unlimited b fault) s)
          (ap (λ b. sent ++ b) (sym (append-nil (framed out))))
  respond-answer (HandlerOutcome.faulted message, s) later (out ∷ o ∷ outs) sent next e k =
      absurd e.2.lower

  on_read-end :
      (x : Result (Option (ClientFrame V)) WireError) (w : Writer) (s : S)
      (next : S → Writer → Served S)
      → ((frame : ClientFrame V) → x ≢ ok (some frame))
      → on_read incoming outgoing engine x w s next ≡ ended closed w s
  on_read-end (ok (some frame)) w s next h = absurd (h frame refl)
  on_read-end (ok none) w s next h = refl
  on_read-end (err e) w s next h = refl

  serve_requests-step :
      (frame : ClientFrame V) (body rest : Bytes) (fuel : ℕ) (w : Writer) (s : S)
      → incoming.from_slice body ≡ some frame
      → length body ≤ max_frame
      → serve_requests incoming outgoing engine
          (suc fuel)
          (record { pending = framed body ++ rest; broken = broken })
          w
          s
        ≡ on_read incoming outgoing engine (ok (some frame)) w s (λ s' w'.
          serve_requests incoming outgoing engine fuel
            (record { pending = rest; broken = broken })
            w'
            s')
  unfolding serve_requests
  serve_requests-step frame body rest fuel w s e fits =
      ap
        (λ x.
          on_read incoming outgoing engine x.0 w s
            (λ s' w'. serve_requests incoming outgoing engine fuel x.1 w' s'))
        (read_frame-framed incoming frame body rest broken e fits)

  serve_requests-answers :
      (frames : List (ClientFrame V)) (bodies : List Bytes) (fuel : ℕ)
      → Decodes incoming frames bodies
      → length (joined_frames bodies) < fuel
      → Continues
          (λ s w.
            serve_requests incoming outgoing engine fuel
              (record { pending = joined_frames bodies; broken = broken })
              w
              s)
          (answers engine frames)
  serve_requests-answers frames bodies zero d h s outs sent e = absurd (omega arith)
  serve_requests-answers [] [] (suc fuel) d h s [] sent e =
      let r : Reader = record { pending = []; broken = broken } in
      unfold serve_requests in
      on_read-end (read_frame incoming r).0 (unlimited sent fault) s _
        (λ frame. read_frame-at_end incoming r frame refl)
      ∙ ap (λ b. ended closed (unlimited b fault) s) (sym (append-nil sent))
  serve_requests-answers [] [] (suc fuel) d h s (o ∷ outs) sent e = absurd e.lower
  serve_requests-answers [] (b ∷ bodies) (suc fuel) d h s outs sent e = absurd d.lower
  serve_requests-answers (f ∷ frames) [] (suc fuel) d h s outs sent e = absurd d.lower
  serve_requests-answers (ClientFrame.stop ∷ frames) (b ∷ bodies) (suc fuel) d h s [] sent e =
      serve_requests-step ClientFrame.stop b (joined_frames bodies) fuel (unlimited sent fault) s
        d.0 d.1
      ∙ ap (λ b. ended ConnectionEnd.stop (unlimited b fault) s) (sym (append-nil sent))
  serve_requests-answers (ClientFrame.stop ∷ frames) (b ∷ bodies) (suc fuel) d h s (o ∷ outs) sent
        e =
      absurd e.lower
  serve_requests-answers (ClientFrame.request method params ∷ frames) (b ∷ bodies) (suc fuel) d h s
        outs sent e =
      serve_requests-step (ClientFrame.request method params) b (joined_frames bodies) fuel
        (unlimited sent fault) s d.0 d.1
      ∙ respond-answer (engine s method params) (answers engine frames) outs sent
          (λ s' w'.
            serve_requests incoming outgoing engine fuel
              (record { pending = joined_frames bodies; broken = broken }) w' s')
          e
          (serve_requests-answers frames bodies fuel d.2
            (omega (arith, h, length-append (framed b) (joined_frames bodies), framed-size b)))

-- A client that sends the encodings of some frames and hears all that is sent to it gets the hello
-- with the protocol version and then exactly the answers to its frames, and the connection ends the
-- way that they say, if every body is within the ceiling.
pub serve_connection-answers {ℓ κ} :
    {V : Type ℓ} {S : Type κ} (incoming : Json (ClientFrame V)) (outgoing : Json (ServerFrame V))
    (engine : Engine V S) (broken : Option IoError) (fault : IoError)
    (frames : List (ClientFrame V)) (bodies : List Bytes) (greeting : Bytes) (outs : List Bytes)
    (s : S)
    → Decodes incoming frames bodies
    → Encodes outgoing
        (ServerFrame.hello protocol_version ∷ (answers engine frames s).frames)
        (greeting ∷ outs)
    → serve_connection incoming outgoing engine
        (record { pending = joined_frames bodies; broken = broken })
        (unlimited [] fault)
        s
      ≡ ended
          (answers engine frames s).end
          (unlimited (framed greeting ++ joined_frames outs) fault)
          (answers engine frames s).session
unfolding serve_connection
serve_connection-answers incoming outgoing engine broken fault frames bodies greeting outs s d e =
    on_written-sends incoming outgoing engine broken fault (ServerFrame.hello 11) greeting [] s _
      e.0 e.1
    ∙ serve_requests-answers incoming outgoing engine broken fault frames bodies
        (suc (length (joined_frames bodies))) d (omega arith) s outs (framed greeting) e.2
