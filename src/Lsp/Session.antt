-- ===== src/Lsp/Session.antt =====
-- The session of crates/ktsense-lsp/src/client.rs: the requests that wait for an answer, what the
-- reader task does with a message, and what a request returns. A JSON value is `serde_json`'s `Value`,
-- a type parameter, and `Message` is what `get`, `as_str` and `as_i64` read of one. An `i64` is the
-- number of its 64 bits. Waiting is an event: an answer, a timeout or the end of the stream.
pub mod Once
pub mod Faulted
pub mod Tests
use ktsense.Prelude.{
  ℕ, ◌+◌, ◌%◌, ◌^◌, Bool, true, false, Option, none, some, List, [], ◌∷◌, ◌++◌, ◌==◌, if◌then◌else◌,
  Bytes,
}
use ktsense.Std.Results.{Result, ok, err}
use ktsense.Lsp.Framing.{FramingError}

pub data LspError : Type 0 where
  io : ℕ → LspError
  json : LspError
  timeout : Bytes → ℕ → LspError
  response : Bytes → ℕ → Bytes → LspError
  child_exited : Bytes → LspError
  framing : FramingError → LspError

pub record Notification {ℓ} (V : Type ℓ) : Type ℓ where
  pub method : Bytes
  pub params : V

-- The `error` member of a message: its code and its text, where they are of the right type.
pub record ErrorMember : Type 0 where
  pub code : Option ℕ
  pub text : Option Bytes

pub record Message {ℓ} (V : Type ℓ) : Type ℓ where
  pub method : Option Bytes
  pub has_id : Bool
  pub id : Option ℕ
  pub params : Option V
  pub error : Option ErrorMember
  pub result : Option V

-- `unwrap_or`
abbrev pub or_else {ℓ} : {A : Type ℓ} → Option A → A → A
or_else none d = d
or_else (some a) d = a

-- `ResponseOutcome`: the result, or the code and the text of the error.
abbrev pub ResponseOutcome {ℓ} : Type ℓ → Type ℓ
ResponseOutcome V = Result V (ℕ × Bytes)

-- The ids that wait, what was sent to each id that was answered, the notifications in order, the
-- next id and the fault.
pub record Session {ℓ} (V : Type ℓ) : Type ℓ where
  pub pending : List ℕ
  pub delivered : List (ℕ × ResponseOutcome V)
  pub notifications : List (Notification V)
  pub next_id : ℕ
  pub fault : Option FramingError

abbrev pub contains : ℕ → List ℕ → Bool
contains id [] = false
contains id (p ∷ pending) = if p == id then true else contains id pending

unfoldable pub remove : ℕ → List ℕ → List ℕ
remove id [] = []
remove id (p ∷ pending) = let rest = remove id pending in if p == id then rest else p ∷ rest

abbrev pub spawned {ℓ} : {V : Type ℓ} → Session V
spawned = record { pending = []; delivered = []; notifications = []; next_id = 1; fault = none }

module _ {ℓ} {V : Type ℓ} (null : V) where
  unfoldable pub response_outcome : Message V → ResponseOutcome V
  response_outcome m = elim m.error [
    | some error ↦ err (or_else error.code 0, or_else error.text [])
    | none ↦ ok (or_else m.result null)
  ]

  -- A response goes to its waiter, which stops waiting; one that nobody waits for is dropped.
  pub respond : ℕ → Message V → Session V → Session V
  unfolding remove response_outcome
  respond id m s =
      if contains id s.pending
      then record s {
        pending = remove id s.pending;
        delivered = (id, response_outcome m) ∷ s.delivered;
      }
      else s

  pub notified : Bytes → Message V → Session V → Session V
  notified method m s =
      if m.has_id
      then s
      else (let n : Notification V = record { method = method; params = or_else m.params null } in
          record s { notifications = s.notifications ++ (n ∷ []) })

  pub dispatch_message : Message V → Session V → Session V
  unfolding respond notified
  dispatch_message m s = elim m.method [
    | some method ↦ notified method m s
    | none ↦ elim m.id [ some id ↦ respond id m s | none ↦ s ]
  ]

  pub on_decoded : Option (Message V) → Session V → Session V
  unfolding dispatch_message
  on_decoded none s = s
  on_decoded (some m) s = dispatch_message m s

  -- `from_slice` is `serde_json`'s.
  pub dispatch : (Bytes → Option (Message V)) → Bytes → Session V → Session V
  unfolding on_decoded
  dispatch from_slice body s = on_decoded (from_slice body) s

module _ {ℓ} {V : Type ℓ} where
  unfoldable pub fail_pending : Session V → Session V
  fail_pending s = record s { pending = [] }

  -- The start of `request_within`: the fault, or the id under which the request waits.
  pub issue_under : Option FramingError → Session V → Result ℕ LspError × Session V
  unfolding remove
  issue_under (some fault) s = (err (framing fault), s)
  issue_under none s = (
    ok s.next_id,
    record s {
      pending = s.next_id ∷ remove s.next_id s.pending;
      next_id = (s.next_id + 1) % 2 ^ 64;
    },
  )

  unfoldable pub issue : Session V → Result ℕ LspError × Session V
  unfolding issue_under
  issue s = issue_under s.fault s

  -- A request that timed out waits no more.
  unfoldable pub elapse : ℕ → Session V → Session V
  unfolding remove
  elapse id s = record s { pending = remove id s.pending }

-- How the wait of a request ended.
pub data Waited {ℓ} (V : Type ℓ) : Type ℓ where
  write_failed : LspError → Waited V
  answered : ResponseOutcome V → Waited V
  closed : Waited V
  elapsed : Waited V

-- What the request then returns.
unfoldable pub settle {ℓ} : {V : Type ℓ} → Bytes → ℕ → Waited V → Result V LspError
settle method bound (write_failed e) = err e
settle method bound (answered (ok result)) = ok result
settle method bound (answered (err (code, text))) = err (response method code text)
settle method bound closed = err (child_exited method)
settle method bound elapsed = err (timeout method bound)

-- What happens to a session, in the order in which it happens.
pub data Event : Type 0 where
  requested : Event
  timed_out : ℕ → Event
  received : Bytes → Event
  malformed : FramingError → Event
  ended : Event

module _ {ℓ} {V : Type ℓ} (null : V) (from_slice : Bytes → Option (Message V)) where
  pub step : Event → Session V → Session V
  unfolding dispatch fail_pending issue elapse
  step requested s = (issue s).1
  step (timed_out id) s = elapse id s
  step (received body) s = dispatch null from_slice body s
  step (malformed fault) s = fail_pending (record s { fault = some fault })
  step ended s = fail_pending s

  pub steps : List Event → Session V → Session V
  unfolding step
  steps [] s = s
  steps (event ∷ events) s = steps events (step event s)
