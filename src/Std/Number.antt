-- ===== src/Std/Number.antt =====
-- Decimal numbers: `{}` of an unsigned integer and `str::parse` into one.
use native.Mathlib.Nat.{pow-suc}
use ktsense.Prelude.{
  ℕ, zero, suc, ◌+◌, ◌-◌, ◌*◌, ◌/◌, ◌%◌, ◌^◌, ◌≤◌, ◌<◌, ◌≡◌, refl, Bool, ◌&&◌, Option, none, some,
  Bool-cases, inl, inr, [], ◌∷◌, ◌∙◌, arith, ltb, leb, ◌==◌, if◌then◌else◌, Bytes, All, length,
}

abbrev pub is_ascii_digit : ℕ → Bool
is_ascii_digit c = leb b'0' c && leb c b'9'

-- `fuel` bounds the number of digits that are still to come; `n` itself is always enough.
digits_from : ℕ → ℕ → Bytes → Bytes
digits_from zero n out = out
digits_from (suc fuel) n out =
    let out' = (b'0' + n % 10) ∷ out in
    let rest = digits_from fuel (n / 10) out' in if ltb n 10 then out' else rest

unfoldable pub decimal : ℕ → Bytes
unfolding digits_from
decimal n = digits_from (suc n) n []

-- The checked arithmetic of `from_str_radix(.., 10)` on a type whose values are below `modulus`.
scan : ℕ → Bytes → ℕ → Option ℕ
scan modulus [] n = some n
scan modulus (c ∷ s) n =
    let n' = n * 10 + (c - b'0') in
    let rest = scan modulus s n' in if is_ascii_digit c && ltb n' modulus then rest else none

-- A leading `+` is allowed, a lone one and the empty text are not.
abbrev unsigned : Bytes → Bytes
unsigned [] = []
unsigned (c ∷ s) = if c == b'+' then s else c ∷ s

parse_digits : ℕ → Bytes → Option ℕ
unfolding scan
parse_digits modulus [] = none
parse_digits modulus (c ∷ s) = scan modulus (c ∷ s) 0

unfoldable pub parse_number : ℕ → Bytes → Option ℕ
unfolding parse_digits
parse_number modulus s = parse_digits modulus (unsigned s)

abbrev pub u32_modulus : ℕ
u32_modulus = 2 ^ 32

abbrev pub usize_modulus : ℕ
usize_modulus = 2 ^ 64

-- What is parsed fits the type.
scan-lt : (m : ℕ) (s : Bytes) (n k : ℕ) → n < m → scan m s n ≡ some k → k < m
unfolding scan
scan-lt m [] n k h e = ground arith
scan-lt m (c ∷ s) n k h e = ground (arith, scan-lt m s (n * 10 + (c - b'0')) k)

parse_digits-lt : (m : ℕ) (s : Bytes) (k : ℕ) → 0 < m → parse_digits m s ≡ some k → k < m
unfolding parse_digits
parse_digits-lt m [] k h e = cc
parse_digits-lt m (c ∷ s) k h e = scan-lt m (c ∷ s) 0 k h e

pub parse_number-lt : (m : ℕ) (s : Bytes) (k : ℕ) → 0 < m → parse_number m s ≡ some k → k < m
unfolding parse_number
parse_number-lt m s k h e = parse_digits-lt m (unsigned s) k h e

-- One more digit.
scan-digit :
    (m n : ℕ) (out : Bytes) (d k : ℕ)
    → d < 10
    → n * 10 + d ≡ k
    → k < m
    → scan m ((b'0' + d) ∷ out) n ≡ scan m out k
unfolding scan
scan-digit m n out d k h sum lt =
    let e : n * 10 + (b'0' + d - b'0') ≡ k = omega arith in rw e (ground arith)

scan-digits_from :
    (m fuel n : ℕ) (out : Bytes)
    → n ≤ fuel
    → n < m
    → scan m (digits_from (suc fuel) n out) 0 ≡ scan m out n
unfolding digits_from
scan-digits_from m zero n out h lt =
    let e : n ≡ 0 = omega arith in
    rw e (scan-digit m 0 out 0 0 (omega arith) (omega arith) (omega arith))
scan-digits_from m (suc fuel) n out h lt = elim (Bool-cases (ltb n 10)) [
  | inl small ↦
      let e : n % 10 ≡ n = ground arith in
      rw (small, e) (scan-digit m 0 out n n (ground arith) (omega arith) lt)
  | inr large ↦ rw large (
      scan-digits_from m fuel (n / 10) ((b'0' + n % 10) ∷ out) (ground arith) (omega arith)
      ∙ scan-digit m (n / 10) out (n % 10) n (omega arith) (omega arith) lt)
]

abbrev pub IsDigit : ℕ → Type 0
IsDigit c = (b'0' ≤ c) × (c ≤ b'9')

digits_from-digits :
    (fuel n : ℕ) (out : Bytes) → All IsDigit out → All IsDigit (digits_from fuel n out)
unfolding digits_from
digits_from-digits zero n out h = h
digits_from-digits (suc fuel) n out h = elim (Bool-cases (ltb n 10)) [
  | inl small ↦ rw small ((omega arith, omega arith), h)
  | inr large ↦
      rw large
        (digits_from-digits fuel (n / 10) ((b'0' + n % 10) ∷ out) ((omega arith, omega arith), h))
]

-- A decimal has digits only.
pub decimal-digits : (n : ℕ) → All IsDigit (decimal n)
unfolding decimal
decimal-digits n = digits_from-digits (suc n) n [] tt

digits_from-cons :
    (fuel n d : ℕ) (out : Bytes)
    → (c : ℕ) × (rest : Bytes) × (digits_from fuel n (d ∷ out) ≡ c ∷ rest)
unfolding digits_from
digits_from-cons zero n d out = (d, out, refl)
digits_from-cons (suc fuel) n d out = elim (Bool-cases (ltb n 10)) [
  | inl small ↦ (b'0' + n % 10, d ∷ out, rw small)
  | inr large ↦ rw large (digits_from-cons fuel (n / 10) (b'0' + n % 10) (d ∷ out))
]

pub decimal-cons : (n : ℕ) → (c : ℕ) × (rest : Bytes) × (decimal n ≡ c ∷ rest)
unfolding decimal digits_from
decimal-cons n = elim (Bool-cases (ltb n 10)) [
  | inl small ↦ (b'0' + n % 10, [], rw small)
  | inr large ↦ rw large (digits_from-cons n (n / 10) (b'0' + n % 10) [])
]

parse_number-eq-scan :
    (m : ℕ) (s : Bytes) (c : ℕ) (rest : Bytes)
    → s ≡ c ∷ rest
    → IsDigit c
    → parse_number m s ≡ scan m s 0
unfolding parse_number
parse_number-eq-scan m s c rest e h = rw e (ground arith)

-- Printing and parsing: a number of the type is read back from its decimal.
pub parse_number-decimal : (m n : ℕ) → n < m → parse_number m (decimal n) ≡ some n
parse_number-decimal m n h =
    let (c, rest, e) = decimal-cons n in
    let digits : All IsDigit (c ∷ rest) = rw e at (decimal-digits n) in
    parse_number-eq-scan m (decimal n) c rest e digits.0
    ∙ unfold decimal scan in scan-digits_from m n n [] (omega arith) h

length-digits_from :
    (k fuel n : ℕ) (out : Bytes)
    → n < 10 ^ suc k
    → length (digits_from fuel n out) ≤ suc k + length out
unfolding digits_from
length-digits_from k zero n out h = omega arith
length-digits_from zero (suc fuel) n out h = ground arith
length-digits_from (suc k) (suc fuel) n out h =
    ground (arith, length-digits_from k fuel (n / 10) ((b'0' + n % 10) ∷ out), pow-suc 10 (suc k))

-- The size of a decimal.
pub length-decimal : (k n : ℕ) → 0 < k → n < 10 ^ k → length (decimal n) ≤ k
unfolding decimal
length-decimal zero n h lt = absurd (omega arith)
length-decimal (suc k) n h lt = omega (arith, length-digits_from k (suc n) n [] lt)
