-- ===== src/Lsp/Session/Once.antt =====
-- Requests, answers, timeouts and the end of the stream in any order:
-- crates/ktsense-lsp/src/client.rs.
use ktsense.Prelude.{
  ℕ, ◌+◌, ◌%◌, ◌<◌, ◌^◌, ◌≡◌, ◌≢◌, refl, sym, inl, inr, true, Bool-cases, Option-cases, Option,
  none, some, List, [], ◌∷◌, arith, ◌==◌, All, All-mono, Bytes, length,
}
use ktsense.Lsp.Framing.{FramingError}
use ktsense.Lsp.Session.{
  Message, ResponseOutcome, Session, contains, remove, spawned, respond, notified, dispatch_message,
  on_decoded, dispatch, fail_pending, issue_under, issue, elapse, Event, requested, timed_out,
  received, malformed, ended, step, steps,
}

abbrev pub Distinct : List ℕ → Type 0
Distinct [] = Unit
Distinct (x ∷ xs) = All (λ y. x ≢ y) xs × Distinct xs

abbrev pub answered_ids {ℓ} : {V : Type ℓ} → List (ℕ × ResponseOutcome V) → List ℕ
answered_ids [] = []
answered_ids ((id, outcome) ∷ delivered) = id ∷ answered_ids delivered

-- Every id that waits or was answered was issued, none waits twice, none was answered twice, and
-- none that was answered waits.
pub record WellFormed {ℓ} {V : Type ℓ} (s : Session V) : Type 0 where
  pub waiting : All (λ id. id < s.next_id) s.pending
  pub answered : All (λ id. id < s.next_id) (answered_ids s.delivered)
  pub pending_distinct : Distinct s.pending
  pub answered_distinct : Distinct (answered_ids s.delivered)
  pub apart : All (λ id. All (λ p. id ≢ p) s.pending) (answered_ids s.delivered)

remove-All {κ} : (P : ℕ → Type κ) (id : ℕ) (xs : List ℕ) → All P xs → All P (remove id xs)
unfolding remove
remove-All P id [] h = h
remove-All P id (x ∷ xs) h =
    let rest = remove-All P id xs h.1 in
    elim (Bool-cases (x == id)) [ inl same ↦ rw same rest | inr other ↦ rw other (h.0, rest) ]

remove-Distinct : (id : ℕ) (xs : List ℕ) → Distinct xs → Distinct (remove id xs)
unfolding remove
remove-Distinct id [] h = h
remove-Distinct id (x ∷ xs) h =
    let rest = remove-Distinct id xs h.1 in
    elim (Bool-cases (x == id)) [
      | inl same ↦ rw same rest
      | inr other ↦ rw other (remove-All (λ y. x ≢ y) id xs h.0, rest)
    ]

remove_apart : (id : ℕ) (xs : List ℕ) → All (λ y. id ≢ y) (remove id xs)
unfolding remove
remove_apart id [] = tt
remove_apart id (x ∷ xs) =
    let rest = remove_apart id xs in
    elim (Bool-cases (x == id)) [
      | inl same ↦ rw same rest
      | inr other ↦ rw other ((λ e. ground arith), rest)
    ]

contains-All {κ} : (P : ℕ → Type κ) (id : ℕ) (xs : List ℕ) → contains id xs ≡ true → All P xs → P id
contains-All P id [] c h = cc
contains-All P id (x ∷ xs) c h = elim (Bool-cases (x == id)) [
  | inl same ↦ let e : x ≡ id = ground arith in rw (← e) h.0
  | inr other ↦ contains-All P id xs (rw other at c) h.1
]

contains_apart :
    (id : ℕ) (xs ids : List ℕ)
    → contains id xs ≡ true
    → All (λ d. All (λ p. d ≢ p) xs) ids
    → All (λ d. id ≢ d) ids
contains_apart id xs ids c h =
    All-mono (λ d. All (λ p. d ≢ p) xs) (λ d. id ≢ d)
      (λ d apart e. contains-All (λ p. d ≢ p) id xs c apart (sym e)) ids h

All-issued :
    (next : ℕ) (pending ids : List ℕ)
    → All (λ d. d < next) ids
    → All (λ d. All (λ p. d ≢ p) pending) ids
    → All (λ d. All (λ p. d ≢ p) (next ∷ remove next pending)) ids
All-issued next pending [] h k = tt
All-issued next pending (d ∷ ids) h k = (
  ((λ e. omega (arith, h.0, e)), remove-All (λ p. d ≢ p) next pending k.0),
  All-issued next pending ids h.1 k.1,
)

module _ {ℓ} {V : Type ℓ} where
  elapse-WellFormed : (id : ℕ) (s : Session V) → WellFormed s → WellFormed (elapse id s)
  unfolding elapse
  elapse-WellFormed id s h = record {
    waiting = remove-All (λ p. p < s.next_id) id s.pending h.waiting;
    answered = h.answered;
    pending_distinct = remove-Distinct id s.pending h.pending_distinct;
    answered_distinct = h.answered_distinct;
    apart =
        All-mono (λ d. All (λ p. d ≢ p) s.pending) (λ d. All (λ p. d ≢ p) (remove id s.pending))
          (λ d. remove-All (λ p. d ≢ p) id s.pending) (answered_ids s.delivered) h.apart;
  }

  fail_pending-WellFormed : (s : Session V) → WellFormed s → WellFormed (fail_pending s)
  unfolding fail_pending
  fail_pending-WellFormed s h = record {
    waiting = tt;
    answered = h.answered;
    pending_distinct = tt;
    answered_distinct = h.answered_distinct;
    apart =
        All-mono (λ d. All (λ p. d ≢ p) s.pending) (λ d. Unit {0}) (λ d k. tt)
          (answered_ids s.delivered) h.apart;
  }

  issue_under-WellFormed :
      (fault : Option FramingError) (s : Session V)
      → s.next_id + 1 < 2 ^ 64
      → WellFormed s
      → WellFormed (issue_under fault s).1
  unfolding issue_under
  issue_under-WellFormed (some fault) s small h = h
  issue_under-WellFormed none s small h =
      let grown : (id : ℕ) → id < s.next_id → id < (s.next_id + 1) % 2 ^ 64 =
        λ id lt. omega (arith, lt, small) in
      record {
        waiting = (
          omega arith,
          All-mono (λ p. p < s.next_id) (λ p. p < (s.next_id + 1) % 2 ^ 64) grown
              (remove s.next_id s.pending)
              (remove-All (λ p. p < s.next_id) s.next_id s.pending h.waiting),
        );
        answered =
            All-mono (λ p. p < s.next_id) (λ p. p < (s.next_id + 1) % 2 ^ 64) grown
              (answered_ids s.delivered) h.answered;
        pending_distinct = (
          remove_apart s.next_id s.pending,
          remove-Distinct s.next_id s.pending h.pending_distinct,
        );
        answered_distinct = h.answered_distinct;
        apart = All-issued s.next_id s.pending (answered_ids s.delivered) h.answered h.apart;
      }

  respond-WellFormed :
      (null : V) (id : ℕ) (m : Message V) (s : Session V)
      → WellFormed s
      → WellFormed (respond null id m s)
  unfolding respond
  respond-WellFormed null id m s h = elim (Bool-cases (contains id s.pending)) [
    | inr stranger ↦ rw stranger h
    | inl waits ↦ rw waits (record {
      waiting = remove-All (λ p. p < s.next_id) id s.pending h.waiting;
      answered = (contains-All (λ p. p < s.next_id) id s.pending waits h.waiting, h.answered);
      pending_distinct = remove-Distinct id s.pending h.pending_distinct;
      answered_distinct = (
        contains_apart id s.pending (answered_ids s.delivered) waits h.apart,
        h.answered_distinct,
      );
      apart = (
        remove_apart id s.pending,
        All-mono (λ d. All (λ p. d ≢ p) s.pending) (λ d. All (λ p. d ≢ p) (remove id s.pending))
            (λ d. remove-All (λ p. d ≢ p) id s.pending) (answered_ids s.delivered) h.apart,
      );
    })
  ]

  notified-WellFormed :
      (null : V) (method : Bytes) (m : Message V) (s : Session V)
      → WellFormed s
      → WellFormed (notified null method m s)
  unfolding notified
  notified-WellFormed null method m s h = elim (Bool-cases m.has_id) [
    | inl is_request ↦ rw is_request h
    | inr is_notification ↦ rw is_notification (record {
      waiting = h.waiting;
      answered = h.answered;
      pending_distinct = h.pending_distinct;
      answered_distinct = h.answered_distinct;
      apart = h.apart;
    })
  ]

  dispatch_message-WellFormed :
      (null : V) (m : Message V) (s : Session V)
      → WellFormed s
      → WellFormed (dispatch_message null m s)
  unfolding dispatch_message
  dispatch_message-WellFormed null m s h = elim (Option-cases m.method) [
    | inr (method, some_method) ↦ rw some_method (notified-WellFormed null method m s h)
    | inl no_method ↦ elim (Option-cases m.id) [
      | inr (id, some_id) ↦ rw (no_method, some_id) (respond-WellFormed null id m s h)
      | inl no_id ↦ rw (no_method, no_id) h
    ]
  ]

  on_decoded-WellFormed :
      (null : V) (decoded : Option (Message V)) (s : Session V)
      → WellFormed s
      → WellFormed (on_decoded null decoded s)
  unfolding on_decoded
  on_decoded-WellFormed null none s h = h
  on_decoded-WellFormed null (some m) s h = dispatch_message-WellFormed null m s h

  step-WellFormed :
      (null : V) (from_slice : Bytes → Option (Message V)) (event : Event) (s : Session V)
      → s.next_id + 1 < 2 ^ 64
      → WellFormed s
      → WellFormed (step null from_slice event s)
  unfolding step dispatch
  step-WellFormed null from_slice requested s small h =
      unfold issue in issue_under-WellFormed s.fault s small h
  step-WellFormed null from_slice (timed_out id) s small h = elapse-WellFormed id s h
  step-WellFormed null from_slice (received body) s small h =
      on_decoded-WellFormed null (from_slice body) s h
  step-WellFormed null from_slice (malformed fault) s small h = record {
    waiting = tt;
    answered = h.answered;
    pending_distinct = tt;
    answered_distinct = h.answered_distinct;
    apart =
        All-mono (λ d. All (λ p. d ≢ p) s.pending) (λ d. Unit {0}) (λ d k. tt)
          (answered_ids s.delivered) h.apart;
  }
  step-WellFormed null from_slice ended s small h = fail_pending-WellFormed s h

  on_decoded-next_id :
      (null : V) (decoded : Option (Message V)) (s : Session V)
      → (on_decoded null decoded s).next_id ≡ s.next_id
  unfolding on_decoded dispatch_message notified respond
  on_decoded-next_id null none s = refl
  on_decoded-next_id null (some m) s = ground arith

  issue_under-next_id :
      (fault : Option FramingError) (s : Session V)
      → s.next_id + 1 < 2 ^ 64
      → (issue_under fault s).1.next_id < s.next_id + 2
  unfolding issue_under
  issue_under-next_id none s small = omega (arith, small)
  issue_under-next_id (some fault) s small = omega arith

  step-next_id :
      (null : V) (from_slice : Bytes → Option (Message V)) (event : Event) (s : Session V)
      → s.next_id + 1 < 2 ^ 64
      → (step null from_slice event s).next_id < s.next_id + 2
  unfolding step dispatch issue elapse fail_pending
  step-next_id null from_slice requested s small = issue_under-next_id s.fault s small
  step-next_id null from_slice (timed_out id) s small = omega arith
  step-next_id null from_slice (received body) s small =
      omega (arith, on_decoded-next_id null (from_slice body) s)
  step-next_id null from_slice (malformed fault) s small = omega arith
  step-next_id null from_slice ended s small = omega arith

  -- Whatever happens to a session, and in whatever order, no id waits twice, no request is answered
  -- twice and none that was answered waits on, as long as the ids do not run out of 64 bits.
  pub steps-WellFormed :
      (null : V) (from_slice : Bytes → Option (Message V)) (events : List Event) (s : Session V)
      → s.next_id + length events < 2 ^ 64
      → WellFormed s
      → WellFormed (steps null from_slice events s)
  unfolding steps
  steps-WellFormed null from_slice [] s small h = h
  steps-WellFormed null from_slice (event ∷ events) s small h =
      steps-WellFormed null from_slice events (step null from_slice event s)
        (omega (arith, step-next_id null from_slice event s (omega arith), small))
        (step-WellFormed null from_slice event s (omega arith) h)

pub spawned-WellFormed {ℓ} : {V : Type ℓ} → WellFormed (spawned {V = V})
spawned-WellFormed = record {
  waiting = tt;
  answered = tt;
  pending_distinct = tt;
  answered_distinct = tt;
  apart = tt;
}
