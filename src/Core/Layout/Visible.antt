-- ===== src/Core/Layout/Visible.antt =====
-- What the layout leaves alone: `tokenize_layout` and `normalize_signature_layout` of
-- crates/ktsense-core/src/text.rs, seen through the characters that are neither white space nor commas.
use ktsense.Prelude.{
  ℕ, ◌≡◌, refl, sym, ap, ◌∙◌, Bool, true, false, List, [], ◌∷◌, ◌++◌, reverse, append-nil,
  append_assoc, arith, Bytes, codes,
}
use mathlib.Core.List.{reverse_aux}
use ktsense.Core.Layout.{
  Piece, opening, closing, comma, space, verbatim, tokenize_layout, pop_space, keep_piece,
  keep_from, text_of, texts_of, normalize_signature_layout,
}
use ktsense.Core.Layout.Tokens.{visible, visible-append, tokenize_from-visible}

-- The text of pieces kept last first.
abbrev texts_back : List Piece → Bytes
texts_back [] = []
texts_back (p ∷ ps) = texts_back ps ++ text_of p

pop_space-visible :
    (kept : List Piece) → visible (texts_back (pop_space kept)) ≡ visible (texts_back kept)
unfolding visible
pop_space-visible [] = refl
pop_space-visible (space ∷ kept) =
    sym (visible-append (texts_back kept) (codes " ") ∙ append-nil (visible (texts_back kept)))
pop_space-visible (comma ∷ kept) = refl
pop_space-visible (opening c ∷ kept) = refl
pop_space-visible (closing c ∷ kept) = refl
pop_space-visible (verbatim run ∷ kept) = refl

keep_piece-visible :
    (passing : Bool) (kept : List Piece) (p : Piece) (ps : List Piece)
    → visible (texts_back (keep_piece passing kept p ps).0)
      ≡ visible (texts_back kept) ++ visible (text_of p)
unfolding keep_piece visible
keep_piece-visible true kept space ps = sym (append-nil (visible (texts_back kept)))
keep_piece-visible false kept space ps =
    ground
      (arith, visible-append (texts_back kept) (codes " "), append-nil (visible (texts_back kept)))
keep_piece-visible true kept comma ps = ground (
  arith,
  visible-append (texts_back kept) (codes ","),
  append-nil (visible (texts_back kept)),
  pop_space-visible kept,
)
keep_piece-visible false kept comma ps = ground (
  arith,
  visible-append (texts_back kept) (codes ","),
  append-nil (visible (texts_back kept)),
  pop_space-visible kept,
)
keep_piece-visible true kept (opening c) ps = visible-append (texts_back kept) (c ∷ [])
keep_piece-visible true kept (closing c) ps = visible-append (texts_back kept) (c ∷ [])
keep_piece-visible true kept (verbatim run) ps = visible-append (texts_back kept) run
keep_piece-visible false kept (opening c) ps = visible-append (texts_back kept) (c ∷ [])
keep_piece-visible false kept (closing c) ps = visible-append (texts_back kept) (c ∷ [])
keep_piece-visible false kept (verbatim run) ps = visible-append (texts_back kept) run

keep_from-visible :
    (passing : Bool) (kept ps : List Piece)
    → visible (texts_back (keep_from passing kept ps))
      ≡ visible (texts_back kept) ++ visible (texts_of ps)
unfolding keep_from visible
keep_from-visible passing kept [] =
    pop_space-visible kept ∙ sym (append-nil (visible (texts_back kept)))
keep_from-visible passing kept (p ∷ ps) =
    let r = keep_piece passing kept p ps in
    keep_from-visible r.1 r.0 ps
    ∙ ap (λ l. l ++ visible (texts_of ps)) (keep_piece-visible passing kept p ps)
    ∙ append_assoc (visible (texts_back kept)) (visible (text_of p)) (visible (texts_of ps))
    ∙ ap (λ l. visible (texts_back kept) ++ l) (sym (visible-append (text_of p) (texts_of ps)))

texts_of-reverse_aux :
    (ps qs : List Piece) → texts_of (reverse_aux ps qs) ≡ texts_back ps ++ texts_of qs
texts_of-reverse_aux [] qs = refl
texts_of-reverse_aux (p ∷ ps) qs =
    texts_of-reverse_aux ps (p ∷ qs) ∙ sym (append_assoc (texts_back ps) (text_of p) (texts_of qs))

texts_of-reverse : (ps : List Piece) → texts_of (reverse ps) ≡ texts_back ps
texts_of-reverse ps = texts_of-reverse_aux ps [] ∙ append-nil (texts_back ps)

-- Whatever `is_alphanumeric` says, the normalised layout of a signature has the characters of the
-- text that are neither white space nor commas, all of them and in the same order.
pub normalize_signature_layout-visible :
    (is_alphanumeric : ℕ → Bool) (text : Bytes)
    → visible (normalize_signature_layout is_alphanumeric text) ≡ visible text
unfolding normalize_signature_layout tokenize_layout visible
normalize_signature_layout-visible al text =
    let pieces = tokenize_layout al text in
    ap visible (texts_of-reverse (keep_from false [] pieces))
    ∙ keep_from-visible false [] pieces
    ∙ tokenize_from-visible al _ text (omega arith, omega arith)
