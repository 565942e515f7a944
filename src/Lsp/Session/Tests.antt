-- ===== src/Lsp/Session/Tests.antt =====
-- The session, the version check and the progress of crates/ktsense-lsp on concrete events.
use ktsense.Prelude.{
  ℕ, zero, suc, ◌≡◌, arith, Option, none, some, List, [], ◌∷◌, true, Bytes, codes,
}
use ktsense.Std.Results.{err}
use ktsense.Lsp.Framing.{missing_content_length}
use ktsense.Lsp.Session.{
  framing, Message, Notification, Session, spawned, issue, Event, requested, timed_out, received,
  malformed, ended, steps,
}
use ktsense.Lsp.Session.Once.{WellFormed, steps-WellFormed, spawned-WellFormed}
use ktsense.Lsp.Session.Faulted.{steps-malformed}
use ktsense.Lsp.Version.{refuse, major_mismatch_message, reported, assess}
use ktsense.Lsp.Version.Release.{release, assess-release}
use ktsense.Lsp.Progress.{WorkDone, begin, end, advanced, pending, last_progress, track, track-last}

-- A message whose first byte is the id that it answers.
abbrev of_bytes : Bytes → Option (Message ℕ)
of_bytes [] = none
of_bytes (id ∷ rest) = some (record {
  method = none;
  has_id = true;
  id = some id;
  params = none;
  error = none;
  result = some 7;
})

abbrev busy : List Event
busy =
    requested
    ∷ requested
    ∷ received (2 ∷ [])
    ∷ received (2 ∷ [])
    ∷ timed_out 1
    ∷ requested
    ∷ ended
    ∷ []

steps-WellFormed_example : WellFormed (steps 0 of_bytes busy spawned)
steps-WellFormed_example = steps-WellFormed 0 of_bytes busy spawned (omega arith) spawned-WellFormed

abbrev waiting : Session ℕ
waiting = record {
  pending = 2 ∷ 1 ∷ [];
  delivered = [];
  notifications = [];
  next_id = 3;
  fault = none;
}

steps-malformed_example :
    ((steps 0 of_bytes
        (malformed missing_content_length ∷ requested ∷ timed_out 1 ∷ [])
        waiting).pending
      ≡ [])
    × ((issue (
          steps 0 of_bytes
            (malformed missing_content_length ∷ requested ∷ timed_out 1 ∷ [])
            waiting)).0
        ≡ err (framing missing_content_length))
steps-malformed_example =
    steps-malformed 0 of_bytes missing_content_length (requested ∷ timed_out 1 ∷ []) waiting
      (tt, (tt, tt))

assess-release_example :
    assess (reported (release 1 2 3)) ≡ refuse (major_mismatch_message (release 1 2 3))
assess-release_example = assess-release 1 2 3 (omega arith) (omega arith)

-- Parameters are what they say of the work.
abbrev work : ℕ → Option WorkDone
work zero = some begin
work (suc zero) = some end
work (suc (suc n)) = none

abbrev two_notes : List (Notification ℕ)
two_notes =
    record { method = codes "$/progress"; params = 0 }
    ∷ record { method = codes "window/logMessage"; params = 1 }
    ∷ []

track-last_example :
    track work two_notes
    ≡ record { phase = advanced pending (last_progress work two_notes); closed = true }
track-last_example = track-last work two_notes
