-- ===== src/Std/Str.antt =====
-- Operations of `str` on code points: white space, `trim`, `split` and `split_once`, ASCII case.
use ktsense.Prelude.{
  ℕ, zero, suc, ◌+◌, ◌-◌, ◌≡◌, ◌≢◌, refl, Bool, true, false, ◌&&◌, ◌||◌, Option, none, some, List,
  [], ◌∷◌, ◌++◌, ◌∙◌, ap, ap₂, sym, ==_iff, Bool-cases, inl, inr, reverse, arith, leb, ◌==◌,
  if◌then◌else◌, Bytes, codes, All, All-append, length, starts_with, map, bytes_eq,
}
use mathlib.Core.List.{reverse-reverse, reverse-cons}

-- `char::is_whitespace`: the Unicode property White_Space.
unfoldable pub is_whitespace : ℕ → Bool
is_whitespace c =
    (leb 9 c && leb c 13)
    || c == 32
    || c == 0x85
    || c == 0xA0
    || c == 0x1680
    || (leb 0x2000 c && leb c 0x200A)
    || c == 0x2028
    || c == 0x2029
    || c == 0x202F
    || c == 0x205F
    || c == 0x3000

unfoldable pub trim_start : Bytes → Bytes
unfolding is_whitespace
trim_start [] = []
trim_start (c ∷ s) = if is_whitespace c then trim_start s else c ∷ s

unfoldable pub trim_end : Bytes → Bytes
unfolding trim_start
trim_end s = reverse (trim_start (reverse s))

unfoldable pub trim : Bytes → Bytes
unfolding trim_end
trim s = trim_end (trim_start s)

-- `s.split_once(sep)` at the first occurrence
unfoldable pub split_once : ℕ → Bytes → Option (Bytes × Bytes)
split_once sep [] = none
split_once sep (c ∷ s) =
    let rest = split_once sep s in
    if c == sep then some ([], s) else elim rest [ none ↦ none | some (a, b) ↦ some (c ∷ a, b) ]

abbrev cons_head : ℕ → List Bytes → List Bytes
cons_head c [] = (c ∷ []) ∷ []
cons_head c (p ∷ ps) = (c ∷ p) ∷ ps

-- `skip` counts the characters of a matched separator that are still to be passed over.
split_from : Bytes → ℕ → Bytes → List Bytes
unfolding starts_with
split_from sep skip [] = [] ∷ []
split_from sep (suc skip) (c ∷ s) = split_from sep skip s
split_from sep zero (c ∷ s) = elim (starts_with (c ∷ s) sep) [
  | true ↦ [] ∷ split_from sep (length sep - 1) s
  | false ↦ cons_head c (split_from sep 0 s)
]

-- `s.split(sep)` for a separator that is not empty
unfoldable pub split : Bytes → Bytes → List Bytes
unfolding split_from
split sep s = split_from sep 0 s

unfoldable pub to_ascii_lowercase : ℕ → ℕ
to_ascii_lowercase c = if leb b'A' c && leb c b'Z' then c + 32 else c

unfoldable pub eq_ignore_ascii_case : Bytes → Bytes → Bool
unfolding to_ascii_lowercase bytes_eq
eq_ignore_ascii_case a b = bytes_eq (map to_ascii_lowercase a) (map to_ascii_lowercase b)

-- A text with no white space at its ends.
abbrev pub IsSolid : ℕ → Type 0
IsSolid c = is_whitespace c ≡ false

pub trim_start-solid : (s : Bytes) → All IsSolid s → trim_start s ≡ s
unfolding trim_start
trim_start-solid [] h = refl
trim_start-solid (c ∷ s) h = rw h.0

All-reverse : (s : Bytes) → All IsSolid s → All IsSolid (reverse s)
All-reverse [] h = tt
All-reverse (c ∷ s) h =
    rw reverse-cons (All-append IsSolid (reverse s) (c ∷ []) (All-reverse s h.1) (h.0, tt))

pub trim-solid : (s : Bytes) → All IsSolid s → trim s ≡ s
unfolding trim_end trim
trim-solid s h =
    rw (trim_start-solid s h, trim_start-solid (reverse s) (All-reverse s h)) (reverse-reverse s)

pub trim-cons : (c : ℕ) (s : Bytes) → is_whitespace c ≡ true → trim (c ∷ s) ≡ trim s
unfolding trim
trim-cons c s h = rw (h, trim_start)

-- No separator, no split.
pub split-lacks : (a : ℕ) (sep s : Bytes) → All (λ c. c ≢ a) s → split (a ∷ sep) s ≡ s ∷ []
unfolding split
split-lacks a sep [] h = refl
split-lacks a sep (c ∷ s) h = ground (arith, split-lacks a sep s h.1)

-- Up to the first separator, of one character, there is the first part.
pub split-append :
    (a : ℕ) (p s : Bytes)
    → All (λ c. c ≢ a) p
    → split (a ∷ []) (p ++ (a ∷ s)) ≡ p ∷ split (a ∷ []) s
unfolding split
split-append a [] s h = ground arith
split-append a (c ∷ p) s h = ground (arith, split-append a p s h.1)

crlf_lines : split (codes "ab") (codes "xabyab") ≡ codes "x" ∷ codes "y" ∷ [] ∷ []
unfolding split
crlf_lines = refl

-- `parts.join(sep)` for a separator of one character
unfoldable pub join_with : ℕ → List Bytes → Bytes
join_with sep [] = []
join_with sep (p ∷ []) = p
join_with sep (p ∷ q ∷ ps) = p ++ (sep ∷ join_with sep (q ∷ ps))

join_with-cons_head :
    (sep c : ℕ) (ps : List Bytes) → join_with sep (cons_head c ps) ≡ c ∷ join_with sep ps
unfolding join_with
join_with-cons_head sep c [] = refl
join_with-cons_head sep c (p ∷ []) = refl
join_with-cons_head sep c (p ∷ q ∷ ps) = refl

split_from-cons :
    (sep : Bytes) (skip : ℕ) (s : Bytes)
    → (p : Bytes) × (ps : List Bytes) × (split_from sep skip s ≡ p ∷ ps)
unfolding split_from
split_from-cons sep zero [] = ([], [], refl)
split_from-cons sep (suc skip) [] = ([], [], refl)
split_from-cons sep (suc skip) (c ∷ s) = split_from-cons sep skip s
split_from-cons sep zero (c ∷ s) = elim (Bool-cases (starts_with (c ∷ s) sep)) [
  | inl at ↦ ([], split_from sep (length sep - 1) s, ground arith)
  | inr off ↦ let (p, ps, e) = split_from-cons sep 0 s in (c ∷ p, ps, ground arith)
]

join_with-nil_head :
    (sep : ℕ) (ps : List Bytes) (p : Bytes) (qs : List Bytes)
    → ps ≡ p ∷ qs
    → join_with sep ([] ∷ ps) ≡ sep ∷ join_with sep ps
unfolding join_with
join_with-nil_head sep ps p qs e = rw e

-- The parts between a separator of one character, joined by it again, are the text.
pub join_with-split : (sep : ℕ) (s : Bytes) → join_with sep (split (sep ∷ []) s) ≡ s
unfolding split
join_with-split sep [] = unfold join_with in refl
join_with-split sep (c ∷ s) = elim (Bool-cases (c == sep)) [
  | inl at ↦
      let (p, ps, e) = split_from-cons (sep ∷ []) 0 s in
      let split_here : split_from (sep ∷ []) 0 (c ∷ s) ≡ [] ∷ split_from (sep ∷ []) 0 s =
        ground arith in
      ap (join_with sep) split_here
      ∙ join_with-nil_head sep (split_from (sep ∷ []) 0 s) p ps e
      ∙ ap₂ (λ x l. x ∷ l) (sym ((==_iff c sep).0 at)) (join_with-split sep s)
  | inr off ↦
      let kept : split_from (sep ∷ []) 0 (c ∷ s) ≡ cons_head c (split_from (sep ∷ []) 0 s) =
        ground arith in
      ap (join_with sep) kept
      ∙ join_with-cons_head sep c (split_from (sep ∷ []) 0 s)
      ∙ ap (λ l. c ∷ l) (join_with-split sep s)
]
