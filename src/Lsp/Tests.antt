-- ===== src/Lsp/Tests.antt =====
-- The codec and the reader of crates/ktsense-lsp on concrete streams.
use ktsense.Prelude.{◌≡◌, ◌≢◌, refl, none, some, List, [], ◌∷◌, ◌++◌, arith, Bytes, codes, map}
use ktsense.Std.Results.{ok}
use ktsense.Std.Number.{decimal}
use ktsense.Lsp.Framing.{FrameDecoder, encode, next_frame}
use ktsense.Lsp.Framing.Accounts.{next_frame-accounts}
use ktsense.Lsp.Framing.RoundTrip.{next_frame-encode}
use ktsense.Lsp.Framing.Prefix.{next_frame-prefix}
use ktsense.Lsp.Reader.{run, run_from}
use ktsense.Lsp.Reader.Drain.{joined}
use ktsense.Lsp.Reader.Chunks.{run-messages, run_ends}

abbrev two_bodies : List Bytes
two_bodies = codes "{}" ∷ codes "[1]" ∷ []

abbrev three_chunks : List Bytes
three_chunks =
    codes "Content-Len" ∷ codes "gth: 2\r\n\r\n{}Content-Length: 3\r\n\r\n[" ∷ codes "1]" ∷ []

two_bodies_sent : joined three_chunks ≡ joined (map encode two_bodies)
unfolding encode decimal
two_bodies_sent = refl

run-messages_example : run three_chunks ≡ some (record { dispatched = two_bodies; fault = none })
run-messages_example =
    run-messages three_chunks two_bodies ((λ e. cc), ((λ e. cc), ((λ e. cc), tt)))
      (omega arith, (omega arith, tt)) two_bodies_sent

abbrev garbage : List Bytes
garbage = codes "X: 1\r\n\r\n{}" ∷ codes "{}" ∷ []

run_ends_example : run_from (record { buffer = codes "Con" }) garbage ≢ none
run_ends_example = run_ends (record { buffer = codes "Con" }) garbage

abbrev reply : Bytes
reply = codes "{\"id\":7}"

next_frame-encode_example :
    next_frame (record { buffer = encode reply ++ codes "Cont" })
    ≡ (ok (some reply), record { buffer = codes "Cont" })
next_frame-encode_example = next_frame-encode reply (codes "Cont") (omega arith)

abbrev arrived : FrameDecoder
arrived = record { buffer = encode (codes "{}") ++ codes "tail" }

abbrev taken : FrameDecoder
taken = record { buffer = codes "tail" }

arrived_frame : next_frame arrived ≡ (ok (some (codes "{}")), taken)
arrived_frame = next_frame-encode (codes "{}") (codes "tail") (omega arith)

next_frame-accounts_example :
    (header : Bytes) × (arrived.buffer
      ≡ header ++ (codes "\r\n\r\n" ++ (codes "{}" ++ codes "tail")))
next_frame-accounts_example =
    let (header, split, _, _) = next_frame-accounts arrived taken (codes "{}") arrived_frame in
    (header, split)

next_frame-prefix_example :
    next_frame (record { buffer = codes "Content-Length: 8\r" })
    ≡ (ok none, record { buffer = codes "Content-Length: 8\r" })
unfolding encode decimal
next_frame-prefix_example =
    next_frame-prefix reply (codes "Content-Length: 8\r") (codes "\n\r\n{\"id\":7}") (omega arith)
      refl (omega arith)

abbrev halfway : FrameDecoder
halfway = record { buffer = codes "Content-Length: 8\r" }
