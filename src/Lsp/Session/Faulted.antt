-- ===== src/Lsp/Session/Faulted.antt =====
-- The session of crates/ktsense-lsp/src/client.rs after a malformed frame.
use ktsense.Prelude.{◌≡◌, refl, ap, sym, ◌∙◌, Option, some, List, [], ◌∷◌, All, Bytes}
use ktsense.Std.Results.{err}
use ktsense.Lsp.Framing.{FramingError}
use ktsense.Lsp.Session.{
  framing, Message, Session, remove, issue_under, issue, elapse, Event, requested, timed_out,
  received, malformed, ended, step, steps,
}

-- The events that are left once the reader task has stopped.
abbrev pub ByCaller : Event → Type 0
ByCaller requested = Unit
ByCaller (timed_out id) = Unit
ByCaller (received body) = ⊥
ByCaller (malformed fault) = ⊥
ByCaller ended = ⊥

module _ {ℓ} {V : Type ℓ} (null : V) (from_slice : Bytes → Option (Message V)) where
  step-stays :
      (event : Event) (s : Session V) (fault : FramingError)
      → s.fault ≡ some fault
      → s.pending ≡ []
      → ByCaller event
      → step null from_slice event s ≡ s
  unfolding step issue elapse remove
  step-stays requested s fault f p h = ap (λ f. (issue_under f s).1) f
  step-stays (timed_out id) s fault f p h =
      let same : remove id s.pending ≡ s.pending = ap (remove id) p ∙ sym p in
      λ i. record s { pending = same i }
  step-stays (received body) s fault f p h = absurd h
  step-stays (malformed e) s fault f p h = absurd h
  step-stays ended s fault f p h = absurd h

  steps-stays :
      (events : List Event) (s : Session V) (fault : FramingError)
      → s.fault ≡ some fault
      → s.pending ≡ []
      → All ByCaller events
      → steps null from_slice events s ≡ s
  unfolding steps
  steps-stays [] s fault f p h = refl
  steps-stays (event ∷ events) s fault f p h =
      ap (steps null from_slice events) (step-stays event s fault f p h.0)
      ∙ steps-stays events s fault f p h.1

  -- Once a frame was malformed, whatever the callers do, nobody waits and the next request is refused
  -- at once with the fault of that frame.
  pub steps-malformed :
      (fault : FramingError) (events : List Event) (s : Session V)
      → All ByCaller events
      → let s' = steps null from_slice (malformed fault ∷ events) s in
        (s'.pending ≡ []) × ((issue s').0 ≡ err (framing fault))
  unfolding steps step issue
  steps-malformed fault events s h =
      let faulted : Session V = step null from_slice (malformed fault) s in
      let e : steps null from_slice events faulted ≡ faulted =
        steps-stays events faulted fault refl refl h in
      (ap (λ s. s.pending) e, ap (λ s. (issue s).0) e)
