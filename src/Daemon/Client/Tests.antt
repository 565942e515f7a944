-- ===== src/Daemon/Client/Tests.antt =====
-- The client and the start of the daemon of crates/ktsense-daemon on concrete frames and files.
use ktsense.Prelude.{ℕ, ◌≡◌, Option, none, All}
use ktsense.Std.Results.{ok, err}
use ktsense.Daemon.Server.{StopReason}
use ktsense.Daemon.Lifecycle.{
  DaemonError, owned_by, connected, Action, answers, Preparing, run_daemon, run_daemon-Taken,
}

abbrev performed : Action → Option ℕ
performed action = none

run_daemon-Taken_example :
    All Preparing
      (run_daemon performed (owned_by 5) (owned_by 5) connected 5 (ok StopReason.idle)).0
    × ((e : DaemonError) × ((run_daemon performed
            (owned_by 5)
            (owned_by 5)
            connected
            5
            (ok StopReason.idle)).1
          ≡ err e))
run_daemon-Taken_example =
    run_daemon-Taken performed (owned_by 5) (owned_by 5) connected 5 (ok StopReason.idle)
      (answers 5)
