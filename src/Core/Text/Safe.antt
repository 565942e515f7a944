-- ===== src/Core/Text/Safe.antt =====
-- Fences and neutralized text: `fence_for` and `neutralize` of crates/ktsense-core/src/text.rs.
use ktsense.Prelude.{
  ℕ, zero, suc, ◌+◌, ◌/◌, ◌%◌, ◌<◌, ◌≤◌, ◌≡◌, ◌↔◌, refl, max, true, false, Bool-cases, inl, inr,
  none, [], ◌∷◌, ◌++◌, arith, ltb, if◌then◌else◌, Bytes, codes, replicate, starts_with,
  find_subslice, All, All-append, All-mono, ◌⊎◌, ◌≢◌,
}
use mathlib.Core.List.{List}
use mathlib.Core.Path.{subst}
use ktsense.Core.Text.{
  backtick, longer_first, backtick_runs, longest, fence_for, is_control, is_unsafe_in_output,
  upper_hex_digit, upper_hex, marker, escaped, any_unsafe, neutralize,
}

longest-longer_first : (runs : List ℕ) → longest runs ≤ longest (longer_first runs)
longest-longer_first [] = omega arith
longest-longer_first (n ∷ runs) = omega arith

backtick_runs-cons :
    (c : ℕ) (body : Bytes) → longest (backtick_runs body) ≤ longest (backtick_runs (c ∷ body))
unfolding backtick_runs
backtick_runs-cons c body = ground (arith, longest-longer_first (backtick_runs body))

abbrev first_run : List ℕ → ℕ
first_run [] = 0
first_run (n ∷ runs) = n

first_run-le-longest : (runs : List ℕ) → first_run runs ≤ longest runs
first_run-le-longest [] = omega arith
first_run-le-longest (n ∷ runs) = omega arith

first_run-longer_first : (runs : List ℕ) → first_run (longer_first runs) ≡ suc (first_run runs)
first_run-longer_first [] = refl
first_run-longer_first (n ∷ runs) = refl

-- A text that begins with some backticks begins with a run of as many.
starts_with-first_run :
    (n : ℕ) (s : Bytes)
    → starts_with s (replicate n backtick) ≡ true
    → n ≤ first_run (backtick_runs s)
unfolding starts_with backtick_runs
starts_with-first_run zero s h = omega arith
starts_with-first_run (suc n) [] h = cc
starts_with-first_run (suc n) (c ∷ s) h =
    ground (arith, starts_with-first_run n s, first_run-longer_first (backtick_runs s))

find_subslice-backticks :
    (n : ℕ) (s : Bytes)
    → longest (backtick_runs s) < n
    → find_subslice s (replicate n backtick) ≡ none
unfolding find_subslice
find_subslice-backticks zero [] h = absurd (omega arith)
find_subslice-backticks (suc n) [] h = unfold starts_with in refl
find_subslice-backticks n (c ∷ s) h = ground (
  arith,
  starts_with-first_run n (c ∷ s),
  first_run-le-longest (backtick_runs (c ∷ s)),
  backtick_runs-cons c s,
  find_subslice-backticks n s,
)

-- The fence is at least three backticks, and the body does not contain it, so no part of the body
-- can close it.
pub fence_for-closes :
    (body : Bytes)
    → (n : ℕ) × (fence_for body ≡ replicate n backtick)
      × (3 ≤ n)
      × (find_subslice body (fence_for body) ≡ none)
unfolding fence_for
fence_for-closes body =
    let n = max (longest (backtick_runs body) + 1) 3 in
    (n, refl, omega arith, find_subslice-backticks n body (omega arith))

-- A character that is no control character (general category Cc) and has no bidirectional effect: it is
-- none of the embeddings, overrides and isolates and none of the three directional marks.
abbrev pub IsSafe : ℕ → Type 0
IsSafe c =
    ((0x20 ≤ c) × ((c < 0x7F) ⊎ (0xA0 ≤ c)))
    × (((c < 0x202A) ⊎ (0x202E < c))
        × (((c < 0x2066) ⊎ (0x2069 < c)) × ((c ≢ 0x200E) × ((c ≢ 0x200F) × (c ≢ 0x061C)))))

abbrev Passes : ℕ → Type 0
Passes c = is_unsafe_in_output c ≡ false

Passes-IsSafe : (c : ℕ) → Passes c → IsSafe c
unfolding is_unsafe_in_output is_control
Passes-IsSafe c h = ground arith

IsSafe-Passes : (c : ℕ) → IsSafe c → Passes c
unfolding is_unsafe_in_output is_control
IsSafe-Passes c h = ground arith

Passes-ascii : (c : ℕ) → 0x20 ≤ c → c < 0x7F → Passes c
unfolding is_unsafe_in_output is_control
Passes-ascii c h k = ground arith

upper_hex-Passes : (digits n : ℕ) → All Passes (upper_hex digits n)
unfolding upper_hex
upper_hex-Passes zero n = tt
upper_hex-Passes (suc digits) n =
    All-append Passes (upper_hex digits (n / 16)) (upper_hex_digit (n % 16) ∷ [])
      (upper_hex-Passes digits (n / 16))
      (Passes-ascii (upper_hex_digit (n % 16)) (ground arith) (ground arith), tt)

marker-Passes : (c : ℕ) → All Passes (marker c)
unfolding marker
marker-Passes c =
    let width : ℕ = if ltb c 0x10000 then 4 else if ltb c 0x100000 then 5 else 6 in
    All-append Passes (codes "<U+") (upper_hex width c ++ codes ">")
      (
        Passes-ascii 60 (omega arith) (omega arith),
        (
          Passes-ascii 85 (omega arith) (omega arith),
          (Passes-ascii 43 (omega arith) (omega arith), tt),
        ),
      )
      (All-append Passes (upper_hex width c) (codes ">") (upper_hex-Passes width c)
        (Passes-ascii 62 (omega arith) (omega arith), tt))

escaped-Passes : (text : Bytes) → All Passes (escaped text)
unfolding escaped
escaped-Passes [] = tt
escaped-Passes (c ∷ text) =
    let rest = escaped-Passes text in
    elim (Bool-cases (is_unsafe_in_output c)) [
      | inl bad ↦ rw bad (All-append Passes (marker c) (escaped text) (marker-Passes c) rest)
      | inr good ↦ rw good (good, rest)
    ]

any_unsafe-Passes : (text : Bytes) → any_unsafe text ≡ false → All Passes text
any_unsafe-Passes [] h = tt
any_unsafe-Passes (c ∷ text) h = ground (arith, any_unsafe-Passes text)

Passes-any_unsafe : (text : Bytes) → All Passes text → any_unsafe text ≡ false
Passes-any_unsafe [] h = refl
Passes-any_unsafe (c ∷ text) h = ground (arith, Passes-any_unsafe text h.1)

neutralize-All : (text : Bytes) → All Passes (neutralize text)
unfolding neutralize
neutralize-All text = elim (Bool-cases (any_unsafe text)) [
  | inl bad ↦ rw bad (escaped-Passes text)
  | inr good ↦ rw good (any_unsafe-Passes text good)
]

neutralize-same : (text : Bytes) → All Passes text → neutralize text ≡ text
unfolding neutralize
neutralize-same text h = rw (Passes-any_unsafe text h)

-- Neutralized text holds no control character, so no line feed and no carriage return, and none of the
-- twelve characters that change the direction of text; text that held none is left as it was, and no
-- other text is.
pub neutralize-IsSafe :
    (text : Bytes) → All IsSafe (neutralize text) × ((All IsSafe text) ↔ (neutralize text ≡ text))
neutralize-IsSafe text =
    let safe = All-mono Passes IsSafe Passes-IsSafe (neutralize text) (neutralize-All text) in
    (
      safe,
      (
        λ h. neutralize-same text (All-mono IsSafe Passes IsSafe-Passes text h),
        λ e. subst (All IsSafe) e safe,
      ),
    )
