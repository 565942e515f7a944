-- ===== src/Lsp/Reader.antt =====
-- The background reader of crates/ktsense-lsp/src/client.rs: it feeds what it reads from the engine
-- to the frame decoder and dispatches each body that comes out.
pub mod Drain
pub mod Chunks
use ktsense.Prelude.{ℕ, zero, suc, Option, none, some, List, [], ◌∷◌, ◌++◌, Bytes, length}
use ktsense.Std.Results.{Result, ok, err}
use ktsense.Lsp.Framing.{FramingError, FrameDecoder, default, push, next_frame}

-- What the inner loop came to after one read: the bodies it dispatched, in order, and the decoder
-- with which it reads on, or the malformed frame.
pub data Drained : Type 0 where
  waiting : List Bytes → FrameDecoder → Drained
  malformed : List Bytes → FramingError → Drained
  out_of_fuel : Drained

abbrev pub after : Bytes → Drained → Drained
after body (waiting bodies d) = waiting (body ∷ bodies) d
after body (malformed bodies e) = malformed (body ∷ bodies) e
after body out_of_fuel = out_of_fuel

abbrev pub on_frame :
    Result (Option Bytes) FramingError → FrameDecoder → (Bytes → Drained) → Drained
on_frame (ok (some body)) d next = after body (next body)
on_frame (ok none) d next = waiting [] d
on_frame (err e) d next = malformed [] e

-- The inner loop. `fuel` bounds the frames in the buffer; its length is enough.
pub drain : ℕ → FrameDecoder → Drained
drain zero d = out_of_fuel
drain (suc fuel) d = let (r, d') = next_frame d in on_frame r d' (λ _. drain fuel d')

-- What the task leaves: the bodies it dispatched, and the fault if it ended on a malformed frame.
pub record Finished : Type 0 where
  pub dispatched : List Bytes
  pub fault : Option FramingError

abbrev pub prepend : List Bytes → Option Finished → Option Finished
prepend bodies none = none
prepend bodies (some f) = some (record f { dispatched = bodies ++ f.dispatched })

abbrev pub on_drained : Drained → (FrameDecoder → Option Finished) → Option Finished
on_drained (waiting bodies d) next = prepend bodies (next d)
on_drained (malformed bodies e) next = some (record { dispatched = bodies; fault = some e })
on_drained out_of_fuel next = none

-- The outer loop over the chunks that the reads return; the stream closes behind them. A read of
-- no bytes closes it too. `none` means that fuel ran out.
pub run_from : FrameDecoder → List Bytes → Option Finished
unfolding drain
run_from d [] = some (record { dispatched = []; fault = none })
run_from d ([] ∷ chunks) = some (record { dispatched = []; fault = none })
run_from d ((b ∷ chunk) ∷ chunks) =
    let d' = push d (b ∷ chunk) in
    on_drained (drain (suc (length d'.buffer)) d') (λ rest. run_from rest chunks)

pub run : List Bytes → Option Finished
unfolding run_from
run = run_from default
