-- ===== src/Core/Text.antt =====
-- Making source text safe to show: crates/ktsense-core/src/text.rs, less the layout of signatures. Text
-- is its code points.
pub mod Safe
pub mod Tests
use ktsense.Prelude.{
  ℕ, zero, suc, ◌+◌, ◌-◌, ◌/◌, ◌%◌, ◌<◌, ◌≤◌, ◌≡◌, ◌↔◌, refl, ap, sym, ◌∙◌, max, Bool, true, false,
  not, ◌&&◌, ◌||◌, Bool-cases, inl, inr, Option, none, some, List, [], ◌∷◌, ◌++◌, arith, ltb, leb,
  ◌==◌, if◌then◌else◌, Bytes, codes, replicate, starts_with, find_subslice, All, All-append,
}

abbrev pub min_fence_backticks : ℕ
min_fence_backticks = 3

abbrev pub backtick : ℕ
backtick = b'`'

abbrev pub bidirectional_overrides : Bytes
bidirectional_overrides =
    0x202A ∷ 0x202B ∷ 0x202C ∷ 0x202D ∷ 0x202E ∷ 0x2066 ∷ 0x2067 ∷ 0x2068 ∷ 0x2069 ∷ 0x200E ∷ 0x200F
    ∷ 0x061C ∷ []

-- The lengths of the parts between the characters that are no backtick.
abbrev pub longer_first : List ℕ → List ℕ
longer_first [] = 1 ∷ []
longer_first (n ∷ runs) = suc n ∷ runs

unfoldable pub backtick_runs : Bytes → List ℕ
backtick_runs [] = 0 ∷ []
backtick_runs (c ∷ body) =
    let runs = backtick_runs body in if c == backtick then longer_first runs else 0 ∷ runs

abbrev pub longest : List ℕ → ℕ
longest [] = 0
longest (n ∷ runs) = max n (longest runs)

unfoldable pub fence_for : Bytes → Bytes
unfolding backtick_runs
fence_for body = replicate (max (longest (backtick_runs body) + 1) min_fence_backticks) backtick

-- `char::is_control`: the general category Cc.
unfoldable pub is_control : ℕ → Bool
is_control c = ltb c 0x20 || (leb 0x7F c && leb c 0x9F)

abbrev pub contains_code : Bytes → ℕ → Bool
contains_code [] c = false
contains_code (d ∷ s) c = d == c || contains_code s c

unfoldable pub is_unsafe_in_output : ℕ → Bool
unfolding is_control
is_unsafe_in_output c = is_control c || contains_code bidirectional_overrides c

-- `{:04X}` of a character, which is at most 0x10FFFF
abbrev pub upper_hex_digit : ℕ → ℕ
upper_hex_digit d = if ltb d 10 then b'0' + d else b'A' + (d - 10)

unfoldable pub upper_hex : ℕ → ℕ → Bytes
upper_hex zero n = []
upper_hex (suc digits) n = upper_hex digits (n / 16) ++ (upper_hex_digit (n % 16) ∷ [])

unfoldable pub marker : ℕ → Bytes
unfolding upper_hex
marker c =
    codes "<U+"
    ++ (upper_hex (if ltb c 0x10000 then 4 else if ltb c 0x100000 then 5 else 6) c ++ codes ">")

unfoldable pub escaped : Bytes → Bytes
unfolding is_unsafe_in_output marker
escaped [] = []
escaped (c ∷ text) =
    let rest = escaped text in if is_unsafe_in_output c then marker c ++ rest else c ∷ rest

abbrev pub any_unsafe : Bytes → Bool
any_unsafe [] = false
any_unsafe (c ∷ text) = is_unsafe_in_output c || any_unsafe text

unfoldable pub neutralize : Bytes → Bytes
unfolding escaped
neutralize text = if not (any_unsafe text) then text else escaped text
