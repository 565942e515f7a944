-- ===== src/Core/Layout/Tokens.antt =====
-- What `tokenize_layout` of crates/ktsense-core/src/text.rs does with the characters that are neither
-- white space nor commas.
use ktsense.Prelude.{
  ℕ, zero, suc, ◌+◌, ◌-◌, ◌≤◌, ◌≡◌, refl, sym, ap, ap₂, ◌∙◌, min, Bool, true, Bool-cases, inl, inr,
  ◌||◌, List, [], ◌∷◌, ◌++◌, append-nil, append_assoc, arith, ◌==◌, if◌then◌else◌, Bytes,
}
use ktsense.Std.Str.{is_whitespace}
use ktsense.Core.Layout.{
  Piece, opening, closing, comma, space, Scan, flush_run, leading_whitespace, read_character, turn,
  turn_at, string_length, line_length, block_length, behind_one, tokenize_from, text_of, texts_of,
}

-- The characters that are neither white space nor commas, in order.
unfoldable pub visible : Bytes → Bytes
unfolding is_whitespace
visible [] = []
visible (c ∷ s) = let rest = visible s in if is_whitespace c || c == b',' then rest else c ∷ rest

pub visible-append : (a b : Bytes) → visible (a ++ b) ≡ visible a ++ visible b
unfolding visible
visible-append [] b = refl
visible-append (c ∷ a) b = ground (arith, visible-append a b)

pub texts_of-append : (ps qs : List Piece) → texts_of (ps ++ qs) ≡ texts_of ps ++ texts_of qs
texts_of-append [] qs = refl
texts_of-append (p ∷ ps) qs =
    ap (λ s. text_of p ++ s) (texts_of-append ps qs)
    ∙ sym (append_assoc (text_of p) (texts_of ps) (texts_of qs))

pub texts_of-flush_run : (run : Bytes) → texts_of (flush_run run) ≡ run
texts_of-flush_run [] = refl
texts_of-flush_run (c ∷ run) = append-nil (c ∷ run)

pub flush_run-pushed :
    (run : Bytes) (p : Piece) → texts_of (flush_run run ++ (p ∷ [])) ≡ run ++ text_of p
flush_run-pushed run p =
    texts_of-append (flush_run run) (p ∷ [])
    ∙ ap₂ (λ a b. a ++ b) (texts_of-flush_run run) (append-nil (text_of p))

-- What the variables promise about the characters that follow.
abbrev pub IsScan : Scan → Bytes → Type 0
IsScan st s = (st.skipping ≤ leading_whitespace s) × (min st.taking st.skipping ≡ 0)

pub Keeps : Scan → ℕ → Bytes → List Piece × Scan → Type 0
Keeps st c s r = (visible (texts_of r.0 ++ r.1.run) ≡ visible (st.run ++ (c ∷ []))) × IsScan r.1 s

pub pushed-visible :
    (run : Bytes) (p : Piece)
    → visible (texts_of (flush_run run ++ (p ∷ [])) ++ []) ≡ visible (run ++ text_of p)
pushed-visible run p =
    ap visible (append-nil (texts_of (flush_run run ++ (p ∷ []))) ∙ flush_run-pushed run p)

pub space-visible :
    (run : Bytes) (c : ℕ)
    → is_whitespace c ≡ true
    → visible (run ++ text_of space) ≡ visible (run ++ (c ∷ []))
unfolding visible
space-visible run c h =
    visible-append run (text_of space) ∙ ground (arith, visible-append run (c ∷ []))

pub comma-visible :
    (run : Bytes) (c : ℕ)
    → c == b',' ≡ true
    → visible (run ++ text_of comma) ≡ visible (run ++ (c ∷ []))
unfolding visible
comma-visible run c h =
    visible-append run (text_of comma) ∙ ground (arith, visible-append run (c ∷ []))

pub run-Keeps :
    (n : ℕ) (st : Scan) (c : ℕ) (s : Bytes)
    → st.skipping ≡ 0
    → Keeps st c s ([], record st { run = st.run ++ (c ∷ []); taking = n })
unfolding Keeps
run-Keeps n st c s k = (refl, (omega arith, omega arith))

-- A piece that ends the run.
pub piece-Keeps :
    (p : Piece) (skipped depth : ℕ) (st : Scan) (c : ℕ) (s : Bytes)
    → visible (st.run ++ text_of p) ≡ visible (st.run ++ (c ∷ []))
    → st.taking ≡ 0
    → skipped ≤ leading_whitespace s
    → Keeps st c s (
      flush_run st.run ++ (p ∷ []),
      record st { run = []; skipping = skipped; angle_depth = depth },
    )
unfolding Keeps
piece-Keeps p skipped depth st c s e t k = (pushed-visible st.run p ∙ e, (k, omega arith))

pub read_character-Keeps :
    (al : ℕ → Bool) (st : Scan) (c : ℕ) (s : Bytes)
    → st.taking ≡ 0
    → st.skipping ≡ 0
    → Keeps st c s (read_character al st c s)
unfolding read_character
read_character-Keeps al st c s t k =
    let at =
      λ (p : Piece) (depth : ℕ) (e : visible (st.run ++ text_of p) ≡ visible (st.run ++ (c ∷ []))).
        piece-Keeps p st.skipping depth st c s e t (omega arith) in
    ground (
      arith,
      run-Keeps (string_length s) st c s k,
      run-Keeps (1 + line_length (behind_one s)) st c s k,
      run-Keeps (1 + block_length (behind_one s)) st c s k,
      run-Keeps st.taking st c s k,
      (λ (h : is_whitespace c ≡ true).
          piece-Keeps space (leading_whitespace s) st.angle_depth st c s (space-visible st.run c h)
            t (omega arith)),
      at (opening c) st.angle_depth refl,
      at (opening c) (st.angle_depth + 1) refl,
      at (closing c) st.angle_depth refl,
      at (closing c) (st.angle_depth - 1) refl,
      (λ (h : c == b',' ≡ true). at comma st.angle_depth (comma-visible st.run c h)),
    )

pub leading_whitespace-cons :
    (n c : ℕ) (s : Bytes)
    → suc n ≤ leading_whitespace (c ∷ s)
    → (is_whitespace c ≡ true) × (n ≤ leading_whitespace s)
unfolding leading_whitespace
leading_whitespace-cons n c s h = elim (Bool-cases (is_whitespace c)) [
  | inl t ↦ (t, ground arith)
  | inr f ↦ absurd (ground arith)
]

pub whitespace-visible :
    (run : Bytes) (c : ℕ) → is_whitespace c ≡ true → visible (run ++ []) ≡ visible (run ++ (c ∷ []))
unfolding visible
whitespace-visible run c h = visible-append run [] ∙ ground (arith, visible-append run (c ∷ []))

pub turn_at-Keeps :
    (taking skipping : ℕ) (al : ℕ → Bool) (st : Scan) (c : ℕ) (s : Bytes)
    → st.taking ≡ taking
    → st.skipping ≡ skipping
    → IsScan st (c ∷ s)
    → Keeps st c s (turn_at al taking skipping st c s)
unfolding Keeps turn_at visible leading_whitespace
turn_at-Keeps (suc n) skipping al st c s t k inv = (refl, (omega arith, omega arith))
turn_at-Keeps zero (suc n) al st c s t k inv =
    let (white, rest) = leading_whitespace-cons n c s (omega arith) in
    (ap visible (sym (append-nil st.run)) ∙ whitespace-visible st.run c white, (rest, omega arith))
turn_at-Keeps zero zero al st c s t k inv = read_character-Keeps al st c s t k

pub tokenize_from-visible :
    (al : ℕ → Bool) (st : Scan) (s : Bytes)
    → IsScan st s
    → visible (texts_of (tokenize_from al st s)) ≡ visible st.run ++ visible s
unfolding Keeps tokenize_from turn visible
tokenize_from-visible al st [] inv =
    ap visible (texts_of-flush_run st.run) ∙ sym (append-nil (visible st.run))
tokenize_from-visible al st (c ∷ s) inv =
    let step = turn_at-Keeps st.taking st.skipping al st c s refl refl inv in
    let r = turn al st c s in
    let st' = record r.1 { before = c ∷ st.before } in
    let rest : visible (texts_of (tokenize_from al st' s)) ≡ visible r.1.run ++ visible s =
      tokenize_from-visible al st' s step.1 in
    ap visible (texts_of-append r.0 (tokenize_from al st' s))
    ∙ visible-append (texts_of r.0) (texts_of (tokenize_from al st' s))
    ∙ ap (λ l. visible (texts_of r.0) ++ l) rest
    ∙ sym (append_assoc (visible (texts_of r.0)) (visible r.1.run) (visible s))
    ∙ ap (λ l. l ++ visible s)
        (sym (visible-append (texts_of r.0) r.1.run) ∙ step.0 ∙ visible-append st.run (c ∷ []))
    ∙ append_assoc (visible st.run) (visible (c ∷ [])) (visible s)
    ∙ ap (λ l. visible st.run ++ l) (sym (visible-append (c ∷ []) s))
