-- ===== src/Daemon/Tests.antt =====
-- The daemon of crates/ktsense-daemon on concrete frames, connections and paths.
use ktsense.Prelude.{
  ℕ, zero, suc, ◌≡◌, ◌≤◌, ◌<◌, ◌⊎◌, ◌+◌, refl, Option, none, some, List, [], ◌∷◌, ◌++◌, arith,
  Bytes, codes, length,
}
use ktsense.Std.Results.{ok}
use ktsense.Daemon.Wire.{unexpected_eof, Reader, Json, read_frame, write_frame}
use ktsense.Daemon.Wire.RoundTrip.{framed, read_frame-write_frame}
use ktsense.Daemon.Wire.Rejects.{read_frame-none}
use ktsense.Daemon.Protocol.{ServerFrame, ClientFrame, HandlerOutcome, Engine}
use ktsense.Daemon.Server.{
  ConnectionEnd, Accepted, elapsed, connected, ended, serve_connection, serve_loop,
}
use ktsense.Daemon.Server.Ends.{LoopCause, serve_loop_cause}
use ktsense.Daemon.Server.Answers.{joined_frames, unlimited, serve_connection-answers}
use ktsense.Daemon.Socket.{fnv1a, offset, socket_dir, socket_path, socket_path-injective}
use ktsense.Daemon.Placement.{
  Metadata, not_found, within_budget, accept_short_base, judge_base, resolve_socket_path,
  short_socket_base,
}
use ktsense.Daemon.Placement.Safety.{
  preferred_path, fallback_path, IsPrivate, resolve_socket_path-ok,
}

-- An encoding with single bytes for the frames.
abbrev of_client : Bytes → Option (ClientFrame ℕ)
of_client (zero ∷ []) = some ClientFrame.stop
of_client (suc zero ∷ v ∷ method) = some (ClientFrame.request method v)
of_client _ = none

abbrev to_client : ClientFrame ℕ → Option Bytes
to_client ClientFrame.stop = some (0 ∷ [])
to_client (ClientFrame.request method v) = some (1 ∷ v ∷ method)

abbrev pub client_json : Json (ClientFrame ℕ)
client_json = record { to_vec = to_client; from_slice = of_client }

abbrev to_server : ServerFrame ℕ → Option Bytes
to_server (ServerFrame.hello v) = some (0 ∷ v ∷ [])
to_server (ServerFrame.result v) = some (1 ∷ v ∷ [])
to_server (ServerFrame.error message) = some (2 ∷ message)

abbrev of_server : Bytes → Option (ServerFrame ℕ)
of_server (zero ∷ v ∷ []) = some (ServerFrame.hello v)
of_server (suc zero ∷ v ∷ []) = some (ServerFrame.result v)
of_server (suc (suc zero) ∷ message) = some (ServerFrame.error message)
of_server _ = none

abbrev pub server_json : Json (ServerFrame ℕ)
server_json = record { to_vec = to_server; from_slice = of_server }

-- An engine that adds its parameter up and faults on a method of two bytes or more.
abbrev pub adder : Engine ℕ ℕ
adder total (c ∷ c' ∷ method) v = (HandlerOutcome.faulted (codes "no"), total)
adder total method v = (HandlerOutcome.reply (total + v), total + v)

abbrev three_requests : List (ClientFrame ℕ)
three_requests =
    ClientFrame.request (codes "a") 4
    ∷ ClientFrame.request (codes "a") 5
    ∷ ClientFrame.request (codes "ab") 6
    ∷ []

abbrev three_bodies : List Bytes
three_bodies = (1 ∷ 4 ∷ codes "a") ∷ (1 ∷ 5 ∷ codes "a") ∷ (1 ∷ 6 ∷ codes "ab") ∷ []

abbrev three_answers : List Bytes
three_answers = (1 ∷ 4 ∷ []) ∷ (1 ∷ 9 ∷ []) ∷ (2 ∷ codes "no") ∷ []

serve_connection-answers_example :
    serve_connection client_json server_json adder
      (record { pending = joined_frames three_bodies; broken = none })
      (unlimited [] unexpected_eof)
      0
    ≡ ended ConnectionEnd.faulted
        (unlimited (framed (0 ∷ 11 ∷ []) ++ joined_frames three_answers) unexpected_eof)
        9
serve_connection-answers_example =
    serve_connection-answers client_json server_json adder none unexpected_eof three_requests
      three_bodies (0 ∷ 11 ∷ []) three_answers 0
      (refl, omega arith, (refl, omega arith, (refl, omega arith, tt)))
      (refl, omega arith, (refl, omega arith, (refl, omega arith, (refl, omega arith, tt))))

abbrev two_events : List Accepted
two_events =
    connected (record { pending = codes "ab"; broken = none }) (unlimited [] unexpected_eof)
    ∷ elapsed
    ∷ []

serve_loop_cause_example :
    LoopCause client_json adder two_events 3 (serve_loop client_json server_json adder two_events 3)
serve_loop_cause_example = serve_loop_cause client_json server_json adder two_events 3

read_frame-write_frame_example :
    ((write_frame client_json ClientFrame.stop (unlimited [] unexpected_eof)).0 ≡ ok tt)
    × (read_frame client_json (record {
      pending =
          (write_frame client_json ClientFrame.stop (unlimited [] unexpected_eof)).1.sent
          ++ codes "x";
      broken = none;
    })
        ≡ (ok (some ClientFrame.stop), record { pending = codes "x"; broken = none }))
read_frame-write_frame_example =
    read_frame-write_frame client_json ClientFrame.stop (0 ∷ []) (codes "x")
      (unlimited [] unexpected_eof) none refl refl (omega arith) refl refl

abbrev cut_length : Reader
cut_length = record { pending = 0 ∷ 0 ∷ []; broken = none }

read_frame-none_example : (read_frame client_json cut_length).0 ≡ ok none
read_frame-none_example = (read_frame-none client_json cut_length).1 (omega arith, refl)

abbrev long_home : Bytes
long_home =
    codes
      "/home/a-user-whose-name-is-very-long/and-whose-home-is-deep/below/several/other/directories"

abbrev untouched : Bytes → Metadata
untouched path = not_found

abbrev work : Bytes
work = codes "/work/alpha"

abbrev short_base : Bytes
short_base = codes "/tmp/ktsense-501"

abbrev placed_at : Bytes
placed_at = fallback_path none long_home short_base work

abbrev placed_home : Bytes
placed_home = preferred_path none (codes "/home/u") work

long_home_placed : resolve_socket_path untouched 501 none long_home short_base work ≡ ok placed_at
unfolding resolve_socket_path socket_path socket_dir within_budget accept_short_base judge_base
long_home_placed = refl

resolve_socket_path_home :
    resolve_socket_path untouched 501 none (codes "/home/u") (short_socket_base 501) work
    ≡ ok placed_home
unfolding resolve_socket_path socket_path socket_dir
resolve_socket_path_home = refl

resolve_socket_path-ok_example :
    ((placed_at ≡ preferred_path none long_home work) × (length placed_at ≤ 95))
    ⊎ ((placed_at ≡ fallback_path none long_home short_base work)
        × (95 < length (preferred_path none long_home work))
        × IsPrivate 501 (untouched (short_socket_base 501)))
resolve_socket_path-ok_example =
    resolve_socket_path-ok untouched 501 none long_home short_base work placed_at long_home_placed

socket_path-injective_example : fnv1a offset work ≡ fnv1a offset (codes "/work/alpha")
socket_path-injective_example =
    socket_path-injective (codes "/run/u") work (codes "/work/alpha") refl
