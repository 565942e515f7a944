-- ===== src/Lsp/Framing/Accounts.antt =====
-- What `next_frame` of crates/ktsense-lsp/src/framing.rs takes off the buffer.
use ktsense.Prelude.{
  ℕ, ◌+◌, ◌-◌, ◌≤◌, ◌≡◌, ◌≢◌, refl, ap, sym, ◌∙◌, ap₂, ◌⊎◌, inl, inr, some, ◌++◌, arith, ltb, Bytes,
  length, take, drop, find_subslice, Option-cases, Bool-cases, length-drop, length-take,
  length-append, take-append-drop, take-append_le, drop-append_le, drop-add,
}
use ktsense.Std.Results.{Result, ok, err, ◌>>=◌}
use ktsense.Std.Find.{find_subslice-split, find_subslice-le, find_subslice_mono}
use ktsense.Lsp.Framing.{
  header_terminator, max_content_length, FramingError, FrameDecoder, header_text,
  parse_content_length, frame_end, declared_end, split_body, next_frame, push,
}

-- The facts behind a frame that was taken: where the header ends, and where the frame does.
pub record Found (buffer body rest : Bytes) : Type 0 where
  pub separator : ℕ
  pub end : ℕ
  pub at : find_subslice buffer header_terminator ≡ some separator
  pub declared : declared_end buffer separator ≡ ok end
  pub complete : end ≤ length buffer
  pub body_eq : body ≡ take (end - (separator + 4)) (drop (separator + 4) buffer)
  pub rest_eq : rest ≡ drop end buffer

Result-cases {ℓ κ} :
    {A : Type ℓ} {E : Type κ} (r : Result A E) → ((a : A) × (r ≡ ok a)) ⊎ ((e : E) × (r ≡ err e))
Result-cases (ok a) = inl (a, refl)
Result-cases (err e) = inr (e, refl)

pub next_frame-Found :
    (d d' : FrameDecoder) (body : Bytes)
    → next_frame d ≡ (ok (some body), d')
    → Found d.buffer body d'.buffer
unfolding next_frame
next_frame-Found d d' body h = elim (Option-cases (find_subslice d.buffer header_terminator)) [
  | inl missing ↦ ground arith
  | inr (separator, at) ↦ elim (Result-cases (declared_end d.buffer separator)) [
    | inr (e, bad) ↦ ground arith
    | inl (end, declared) ↦ elim (Bool-cases (ltb (length d.buffer) end)) [
      | inl short ↦ ground arith
      | inr whole ↦ record {
        separator = separator;
        end = end;
        at = at;
        declared = declared;
        complete = ground arith;
        body_eq = ground arith;
        rest_eq = ground arith;
      }
    ]
  ]
]

pub next_frame-of_Found :
    (d : FrameDecoder) (body rest : Bytes)
    → Found d.buffer body rest
    → next_frame d ≡ (ok (some body), record { buffer = rest })
unfolding next_frame
next_frame-of_Found d body rest f =
    ground (arith, f.at, f.declared, f.complete, f.body_eq, f.rest_eq)

-- The length that a header block declares.
unfoldable pub declared_length : Bytes → Result ℕ FramingError
unfolding header_text parse_content_length
declared_length header = header_text header >>= parse_content_length

pub declared_end-ok :
    (buffer : Bytes) (separator end : ℕ)
    → declared_end buffer separator ≡ ok end
    → (len : ℕ) × (declared_length (take separator buffer) ≡ ok len)
      × (end ≡ separator + 4 + len)
      × (len ≤ max_content_length)
unfolding declared_end declared_length frame_end
declared_end-ok buffer separator end h =
    elim (Result-cases (declared_length (take separator buffer))) [
      | inr (e, bad) ↦ ground arith
      | inl (len, good) ↦ (len, good, ground arith, ground arith)
    ]

declared_end-append :
    (buffer more : Bytes) (separator : ℕ)
    → separator ≤ length buffer
    → declared_end (buffer ++ more) separator ≡ declared_end buffer separator
unfolding declared_end
declared_end-append buffer more separator h = rw (take-append_le separator buffer more h)

module _ {buffer body rest : Bytes} (f : Found buffer body rest) where
  abbrev behind : Bytes
  behind = drop (f.separator + 4) buffer

  Found-length :
      (declared_length (take f.separator buffer) ≡ ok (length body))
      × (length body ≤ max_content_length)
      × (f.end ≡ f.separator + 4 + length body)
  Found-length =
      let (len, good, ends, fits) = declared_end-ok buffer f.separator f.end f.declared in
      let size : length body ≡ len = omega (
        arith,
        f.complete,
        ap length f.body_eq,
        length-take (f.end - (f.separator + 4)) behind,
        length-drop (f.separator + 4) buffer,
      ) in
      (rw size good, omega arith, omega arith)

  Found-parts : behind ≡ body ++ rest
  Found-parts =
      let (_, _, ends) = Found-length in
      let size : f.end - (f.separator + 4) ≡ length body = omega arith in
      let tail : drop f.end buffer ≡ drop (length body) behind =
        ap (λ n. drop n buffer) ends ∙ drop-add (f.separator + 4) (length body) buffer in
      sym (take-append-drop (length body) behind)
      ∙ ap₂ (λ a b. a ++ b) (ap (λ n. take n behind) (sym size) ∙ sym f.body_eq)
          (sym tail ∙ sym f.rest_eq)

  Found-buffer : buffer ≡ take f.separator buffer ++ (header_terminator ++ (body ++ rest))
  Found-buffer =
      find_subslice-split buffer header_terminator f.separator f.at
      ∙ ap (λ l. take f.separator buffer ++ (header_terminator ++ l))
          (sym (drop-add f.separator 4 buffer) ∙ Found-parts)

  -- The same frame at the front of a longer buffer.
  Found-append : (more : Bytes) → Found (buffer ++ more) body (rest ++ more)
  Found-append more =
      let (_, _, ends) = Found-length in
      let inside = find_subslice-le buffer header_terminator f.separator f.at in
      let behind_more : drop (f.separator + 4) (buffer ++ more) ≡ behind ++ more =
        drop-append_le (f.separator + 4) buffer more inside in
      record {
        separator = f.separator;
        end = f.end;
        at = find_subslice_mono buffer header_terminator more f.separator f.at;
        declared = declared_end-append buffer more f.separator (omega arith) ∙ f.declared;
        complete = omega (arith, f.complete, length-append buffer more);
        body_eq =
            f.body_eq
            ∙ sym (
                ap (take (f.end - (f.separator + 4))) behind_more
                ∙ take-append_le (f.end - (f.separator + 4)) behind more
                    (omega (arith, f.complete, length-drop (f.separator + 4) buffer)));
        rest_eq = ap (λ l. l ++ more) f.rest_eq ∙ sym (drop-append_le f.end buffer more f.complete);
      }

-- A frame that comes out of the decoder is the front of its buffer: a header block, the terminator
-- and a body of exactly the length that the block declares, which is within the ceiling; what is
-- left is the rest of the buffer.
pub next_frame-accounts :
    (d d' : FrameDecoder) (body : Bytes)
    → next_frame d ≡ (ok (some body), d')
    → (header : Bytes) × (d.buffer ≡ header ++ (header_terminator ++ (body ++ d'.buffer)))
      × (declared_length header ≡ ok (length body))
      × (length body ≤ max_content_length)
next_frame-accounts d d' body h =
    let f = next_frame-Found d d' body h in
    let (declares, fits, _) = Found-length f in
    (take f.separator d.buffer, Found-buffer f, declares, fits)

split_body-keeps :
    (d : FrameDecoder) (n : ℕ) (r : Result ℕ FramingError)
    → ((body : Bytes) → (split_body d n r).0 ≢ ok (some body))
    → (split_body d n r).1 ≡ d
unfolding split_body
split_body-keeps d n (err e) h = refl
split_body-keeps d n (ok end) h = ground (arith, h (take (end - n) (drop n d.buffer)))

-- A call that yields no frame leaves the buffer as it was.
pub next_frame-keeps :
    (d : FrameDecoder) → ((body : Bytes) → (next_frame d).0 ≢ ok (some body)) → (next_frame d).1 ≡ d
next_frame-keeps d h = elim (Option-cases (find_subslice d.buffer header_terminator)) [
  | inl missing ↦ unfold next_frame in ground arith
  | inr (separator, at) ↦
      let e : next_frame d ≡ split_body d (separator + 4) (declared_end d.buffer separator) =
        unfold next_frame in ground arith in
      rw e (split_body-keeps d (separator + 4) (declared_end d.buffer separator) (rw e at h))
]

-- More bytes behind a complete frame change neither the frame nor what follows it.
pub next_frame-push :
    (d d' : FrameDecoder) (body more : Bytes)
    → next_frame d ≡ (ok (some body), d')
    → next_frame (push d more) ≡ (ok (some body), push d' more)
unfolding push
next_frame-push d d' body more h =
    next_frame-of_Found (push d more) body (d'.buffer ++ more)
      (Found-append (next_frame-Found d d' body h) more)
