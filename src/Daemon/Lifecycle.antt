-- ===== src/Daemon/Lifecycle.antt =====
-- Starting, probing and stopping the daemon: crates/ktsense-daemon/src/server.rs. What the file system
-- and `connect` answer is a parameter; what the code asks of them is logged as actions, in order. An
-- I/O error is its kind.
use ktsense.Prelude.{
  Bool-cases, All-append, ℕ, ◌≡◌, ◌≢◌, refl, ap, sym, inl, inr, Bool, Option, none, some, List, [],
  ◌∷◌, ◌++◌, arith, ◌==◌, if◌then◌else◌, All,
}
use mathlib.Core.Path.{subst}
use ktsense.Std.Results.{Result, ok, err, ◌>>=◌}
use ktsense.Daemon.Client.{ClientError}
use ktsense.Daemon.Protocol.{protocol_version}
use ktsense.Daemon.Server.{StopReason}

abbrev pub dir_mode : ℕ
dir_mode = 0o700

abbrev pub socket_mode : ℕ
socket_mode = 0o600

pub data Liveness : Type 0 where
  live stale absent : Liveness

pub data StopOutcome : Type 0 where
  stopped not_running : StopOutcome

pub data DaemonError : Type 0 where
  foreign_socket : ℕ → DaemonError
  already_running : DaemonError
  bind accept io : ℕ → DaemonError

-- What `symlink_metadata` gives of a path: its owner, or why there is none.
pub data Lookup : Type 0 where
  owned_by : ℕ → Lookup
  not_found : Lookup
  unreadable : ℕ → Lookup

-- What `UnixStream::connect` gives.
pub data Connect : Type 0 where
  connected : Connect
  no_socket : Connect
  refused : ℕ → Connect

pub data Action : Type 0 where
  create_private_dir : Action
  set_dir_mode set_socket_mode : ℕ → Action
  remove_socket bind_socket serve shut_down : Action

abbrev pub probe : Connect → Liveness
probe connected = live
probe no_socket = absent
probe (refused kind) = stale

abbrev pub status : Connect → Liveness
status = probe

unfoldable pub owned_by_current_user : ℕ → ℕ → Bool
owned_by_current_user file_uid current = file_uid == current

unfoldable pub refuse_foreign : ℕ → ℕ → Result (Unit {0}) DaemonError
unfolding owned_by_current_user
refuse_foreign file_uid current =
    if owned_by_current_user file_uid current then ok tt else err (foreign_socket file_uid)

-- What happened: a result behind the actions that were taken.
abbrev pub Run : Type 0 → Type 0
Run A = List Action × Result A DaemonError

abbrev pub then_run : {A B : Type 0} → Run A → (A → Run B) → Run B
then_run (log, err e) next = (log, err e)
then_run (log, ok a) next = let (more, r) = next a in (log ++ more, r)

-- What the system answers to each action: nothing, or the kind of an error.
module _ (perform : Action → Option ℕ) where
  abbrev pub act : (ℕ → DaemonError) → Action → Run (Unit {0})
  act wrap action =
      (action ∷ [], elim (perform action) [ none ↦ ok tt | some kind ↦ err (wrap kind) ])

  unfoldable pub prepared_dir : Lookup → ℕ → Run (Unit {0})
  unfolding refuse_foreign
  prepared_dir (owned_by uid) current = ([], refuse_foreign uid current)
  prepared_dir not_found current = act io create_private_dir
  prepared_dir (unreadable kind) current = ([], err (io kind))

  unfoldable pub prepare_directory : Lookup → ℕ → Run (Unit {0})
  unfolding prepared_dir
  prepare_directory dir current =
      then_run (prepared_dir dir current) (λ _. act io (set_dir_mode dir_mode))

  abbrev pub clear_socket : Liveness → Run (Unit {0})
  clear_socket live = ([], err already_running)
  clear_socket stale = act io remove_socket
  clear_socket absent = act io remove_socket

  unfoldable pub prepare_socket_path : Lookup → Connect → ℕ → Run (Unit {0})
  unfolding refuse_foreign
  prepare_socket_path (owned_by uid) answer current =
      then_run ([], refuse_foreign uid current) (λ _. clear_socket (probe answer))
  prepare_socket_path not_found answer current = ([], ok tt)
  prepare_socket_path (unreadable kind) answer current = ([], err (io kind))

  -- The loop's result, and then the engine is shut down and the guard removes the socket.
  abbrev pub served : Result StopReason ℕ → Run StopReason
  served (ok reason) = (serve ∷ shut_down ∷ remove_socket ∷ [], ok reason)
  served (err kind) = (serve ∷ shut_down ∷ remove_socket ∷ [], err (accept kind))

  abbrev pub bind_and_serve : Result StopReason ℕ → Unit {0} → Run StopReason
  bind_and_serve loop _ =
      then_run (act DaemonError.bind bind_socket)
        (λ _. then_run (act io (set_socket_mode socket_mode)) (λ _. served loop))

  -- `run`, for a socket path that has a parent.
  pub run_daemon : Lookup → Lookup → Connect → ℕ → Result StopReason ℕ → Run StopReason
  unfolding prepare_directory prepare_socket_path
  run_daemon dir socket answer current loop =
      then_run (prepare_directory dir current)
        (λ _. then_run (prepare_socket_path socket answer current) (bind_and_serve loop))

-- `stop` and `stop_if_mismatched`, over what connecting past the hello gives, the version that the
-- daemon announced, and what sending it the stop frame gives. Waiting until the socket is gone has no
-- result.
abbrev pub stop_daemon :
    Connect → Result ℕ ClientError → Result (Unit {0}) ClientError → Result StopOutcome ClientError
stop_daemon connected announced sent = announced >>= (λ _. sent >>= (λ _. ok stopped))
stop_daemon no_socket announced sent = ok not_running
stop_daemon (refused kind) announced sent = ok not_running

abbrev pub stop_if_mismatched :
    Result ℕ ClientError → Result (Unit {0}) ClientError → Result (Option StopOutcome) ClientError
stop_if_mismatched (err e) sent = ok none
stop_if_mismatched (ok announced) sent =
    let stops = sent >>= (λ _. ok (some stopped)) in
    if announced == protocol_version then ok none else stops

-- Someone else's socket, or one on which a daemon answers.
pub data Taken (current : ℕ) : Lookup → Connect → Type 0 where
  foreign : (uid : ℕ) (answer : Connect) → uid ≢ current → Taken current (owned_by uid) answer
  answers : (uid : ℕ) → Taken current (owned_by uid) connected

-- Only preparing the directory.
abbrev pub Preparing : Action → Type 0
Preparing create_private_dir = Unit
Preparing (set_dir_mode mode) = mode ≡ dir_mode
Preparing _ = ⊥

module _ (perform : Action → Option ℕ) where
  then_run-Preparing :
      {A B : Type 0} (r : Run A) (next : A → Run B)
      → All Preparing r.0
      → ((a : A) → All Preparing (next a).0)
      → All Preparing (then_run r next).0
  then_run-Preparing (log, err e) next h k = h
  then_run-Preparing (log, ok a) next h k = All-append Preparing log (next a).0 h (k a)

  prepare_directory-Preparing :
      (dir : Lookup) (current : ℕ) → All Preparing (prepare_directory perform dir current).0
  unfolding prepare_directory prepared_dir
  prepare_directory-Preparing (owned_by uid) current =
      then_run-Preparing ([], refuse_foreign uid current) _ tt (λ _. (refl, tt))
  prepare_directory-Preparing not_found current =
      then_run-Preparing (act perform io create_private_dir) _ (tt, tt) (λ _. (refl, tt))
  prepare_directory-Preparing (unreadable kind) current = tt

  prepare_socket_path-Taken :
      (socket : Lookup) (answer : Connect) (current : ℕ)
      → Taken current socket answer
      → (e : DaemonError) × (prepare_socket_path perform socket answer current ≡ ([], err e))
  unfolding prepare_socket_path refuse_foreign owned_by_current_user
  prepare_socket_path-Taken _ _ current (foreign uid answer differs) =
      (foreign_socket uid, ground arith)
  prepare_socket_path-Taken _ _ current (answers uid) = elim (Bool-cases (uid == current)) [
    | inl own ↦ (already_running, rw own refl)
    | inr other ↦ (foreign_socket uid, rw other refl)
  ]

  then_run-fails :
      {A B : Type 0} (r : Run A) (next : A → Run B)
      → ((a : A) → (e : DaemonError) × (next a ≡ ([], err e)))
      → All Preparing r.0
      → All Preparing (then_run r next).0 × ((e : DaemonError) × ((then_run r next).1 ≡ err e))
  then_run-fails (log, err e) next fails h = (h, (e, refl))
  then_run-fails (log, ok a) next fails h =
      let (e, k) = fails a in
      (
        All-append Preparing log (next a).0 h (subst (λ n. All Preparing n.0) (sym k) tt),
        (e, ap (λ n. n.1) k),
      )

  -- A start on a socket that is someone else's, or on which a daemon answers, fails; it touches
  -- nothing but the directory, so the socket is neither removed nor bound, and nothing is served.
  pub run_daemon-Taken :
      (dir socket : Lookup) (answer : Connect) (current : ℕ) (loop : Result StopReason ℕ)
      → Taken current socket answer
      → All Preparing (run_daemon perform dir socket answer current loop).0
        × ((e : DaemonError) × ((run_daemon perform dir socket answer current loop).1 ≡ err e))
  unfolding run_daemon
  run_daemon-Taken dir socket answer current loop taken =
      let (e, k) = prepare_socket_path-Taken socket answer current taken in
      then_run-fails (prepare_directory perform dir current)
        (λ _.
          then_run (prepare_socket_path perform socket answer current)
            (bind_and_serve perform loop))
        (λ _. (e, ap (λ r. then_run r (bind_and_serve perform loop)) k))
        (prepare_directory-Preparing dir current)
