-- ===== src/Std/Utf8.antt =====
-- `str::from_utf8`: the code points of a byte sequence, if it is well-formed UTF-8.
use mathlib.Core.Option
use ktsense.Prelude.{
  ℕ, ◌+◌, ◌-◌, ◌*◌, ◌<◌, ◌≡◌, refl, Bool, ◌&&◌, Option, none, some, [], ◌∷◌, ◌++◌, arith, ltb, leb,
  ◌==◌, if◌then◌else◌, Bytes, All,
}

-- Between two characters, or inside one: the continuation bytes still wanted, the bits read so far
-- and the range of the next byte.
pub data Utf8State : Type 0 where
  start : Utf8State
  inside : ℕ → ℕ → ℕ → ℕ → Utf8State

abbrev between : ℕ → ℕ → ℕ → Bool
between lo hi b = leb lo b && leb b hi

-- The first byte of a character.
lead : ℕ → Option (Utf8State × Bytes)
lead b =
    if ltb b 0x80
    then some (start, b ∷ [])
    else if between 0xC2 0xDF b
    then some (inside 1 (b - 0xC0) 0x80 0xBF, [])
    else if b == 0xE0
    then some (inside 2 0 0xA0 0xBF, [])
    else if b == 0xED
    then some (inside 2 0xD 0x80 0x9F, [])
    else if between 0xE1 0xEF b
    then some (inside 2 (b - 0xE0) 0x80 0xBF, [])
    else if b == 0xF0
    then some (inside 3 0 0x90 0xBF, [])
    else if between 0xF1 0xF3 b
    then some (inside 3 (b - 0xF0) 0x80 0xBF, [])
    else if b == 0xF4
    then some (inside 3 4 0x80 0x8F, [])
    else none

utf8_step : Utf8State → ℕ → Option (Utf8State × Bytes)
unfolding lead
utf8_step start b = lead b
utf8_step (inside wanted bits lo hi) b =
    if between lo hi b
    then (let bits' = bits * 64 + (b - 0x80) in
        if leb wanted 1
        then some (start, bits' ∷ [])
        else some (inside (wanted - 1) bits' 0x80 0xBF, []))
    else none

decode : Utf8State → Bytes → Option Bytes
unfolding utf8_step
decode start [] = some []
decode (inside _ _ _ _) [] = none
decode st (b ∷ s) = elim (utf8_step st b) [
  | none ↦ none
  | some (st', out) ↦ Option.map (λ chars. out ++ chars) (decode st' s)
]

unfoldable pub from_utf8 : Bytes → Option Bytes
unfolding decode
from_utf8 = decode start

-- ASCII bytes are their own code points.
pub from_utf8-ascii : (s : Bytes) → All (λ b. b < 0x80) s → from_utf8 s ≡ some s
unfolding from_utf8
from_utf8-ascii [] h = refl
from_utf8-ascii (b ∷ s) h = ground (arith, from_utf8-ascii s)

two_chars : from_utf8 (0x61 ∷ 0xE2 ∷ 0x82 ∷ 0xAC ∷ []) ≡ some (0x61 ∷ 0x20AC ∷ [])
unfolding from_utf8
two_chars = refl

overlong : from_utf8 (0xC0 ∷ 0x80 ∷ []) ≡ none
unfolding from_utf8
overlong = refl
