-- ===== src/Lsp/Progress.antt =====
-- Index progress: crates/ktsense-lsp/src/progress.rs, and the tracker of
-- crates/ktsense-daemon/src/engine.rs that follows the same notifications. What `serde_json` and
-- `lsp_types` make of a notification's parameters is a parameter; the deadline is an event.
use ktsense.Prelude.{
  ◌≡◌, refl, ap, ◌∙◌, Bool, true, false, Option, none, some, List, [], ◌∷◌, arith, if◌then◌else◌,
  Bytes, codes, bytes_eq,
}
use ktsense.Lsp.Session.{Notification}

abbrev pub progress_method : Bytes
progress_method = codes "$/progress"

pub data IndexPhase : Type 0 where
  pending indexing ready : IndexPhase

-- `WorkDoneProgress`, less what it carries
pub data WorkDone : Type 0 where
  begin report end : WorkDone

abbrev pub advance : IndexPhase → WorkDone → IndexPhase
advance phase begin = indexing
advance phase report = indexing
advance phase end = ready

abbrev pub advanced : IndexPhase → Option WorkDone → IndexPhase
advanced phase none = phase
advanced phase (some value) = advance phase value

abbrev pub is_ready : IndexPhase → Bool
is_ready ready = true
is_ready _ = false

pub data Seen {ℓ} (V : Type ℓ) : Type ℓ where
  notified : Notification V → Seen V
  stream_closed deadline : Seen V

-- The tracker's state.
pub record IndexTracker : Type 0 where
  pub phase : IndexPhase
  pub closed : Bool

module _ {ℓ} {V : Type ℓ} (work_done : V → Option WorkDone) where
  unfoldable pub observe : IndexPhase → Notification V → IndexPhase
  observe phase n =
      if bytes_eq n.method progress_method then advanced phase (work_done n.params) else phase

  -- The loop of the wait, over what it sees; `none` is a wait that goes on.
  unfoldable pub wait_from : IndexPhase → List (Seen V) → Option IndexPhase
  unfolding observe
  wait_from phase [] = none
  wait_from phase (notified n ∷ later) =
      let next = observe phase n in
      let rest = wait_from next later in if is_ready next then some next else rest
  wait_from phase (stream_closed ∷ later) = some phase
  wait_from phase (deadline ∷ later) = some phase

  pub wait_for_index : List (Seen V) → Option IndexPhase
  unfolding wait_from
  wait_for_index seen = wait_from pending seen

  -- The tracker follows the stream to its end.
  unfoldable pub follow : IndexTracker → List (Notification V) → IndexTracker
  unfolding observe
  follow t [] = record t { closed = true }
  follow t (n ∷ later) = follow (record t { phase = observe t.phase n }) later

  pub track : List (Notification V) → IndexTracker
  unfolding follow
  track notifications = follow (record { phase = pending; closed = false }) notifications

-- The last progress that a stream of notifications reports.
abbrev pub last_progress {ℓ} :
    {V : Type ℓ} → (V → Option WorkDone) → List (Notification V) → Option WorkDone
last_progress work_done [] = none
last_progress work_done (n ∷ later) = elim (last_progress work_done later) [
  | some value ↦ some value
  | none ↦ if bytes_eq n.method progress_method then work_done n.params else none
]

module _ {ℓ} {V : Type ℓ} (work_done : V → Option WorkDone) where
  advanced-last :
      (phase : IndexPhase) (n : Notification V) (rest : Option WorkDone)
      → advanced (observe work_done phase n) rest
        ≡ advanced phase (elim rest [
          | some value ↦ some value
          | none ↦ if bytes_eq n.method progress_method then work_done n.params else none
        ])
  unfolding observe
  advanced-last phase n none = ground arith
  advanced-last phase n (some begin) = refl
  advanced-last phase n (some report) = refl
  advanced-last phase n (some end) = refl

  follow-last :
      (phase : IndexPhase) (closed : Bool) (notifications : List (Notification V))
      → follow work_done (record { phase = phase; closed = closed }) notifications
        ≡ record { phase = advanced phase (last_progress work_done notifications); closed = true }
  unfolding follow
  follow-last phase closed [] = refl
  follow-last phase closed (n ∷ later) =
      follow-last (observe work_done phase n) closed later
      ∙ ap (λ p. record { phase = p; closed = true })
          (advanced-last phase n (last_progress work_done later))

  -- Once the stream has closed, the tracker says so and stands at the phase of the last progress that
  -- the stream reported, or at pending if it reported none.
  pub track-last :
      (notifications : List (Notification V))
      → track work_done notifications
        ≡ record { phase = advanced pending (last_progress work_done notifications); closed = true }
  unfolding track
  track-last notifications = follow-last pending false notifications
