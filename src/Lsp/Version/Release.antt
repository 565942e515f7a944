-- ===== src/Lsp/Version/Release.antt =====
-- The line of a release, and refusals: crates/ktsense-lsp/src/version.rs.
use ktsense.Prelude.{
  ℕ, ◌<◌, ◌^◌, ◌≡◌, ◌≢◌, refl, sym, ap, ◌∙◌, true, false, not, Option, none, some, List, [], ◌∷◌,
  ◌++◌, append_assoc, arith, ◌==◌, if◌then◌else◌, Bytes, codes, length, take, append-nil, All,
  All-mono, All-append,
}
use mathlib.Core.Path.{subst}
use ktsense.Std.Str.{IsSolid, is_whitespace, split, split-append}
use ktsense.Std.Number.{
  decimal, IsDigit, decimal-digits, decimal-cons, parse_number, u32_modulus, parse_number-decimal,
}
use ktsense.Lsp.Version.{
  pinned_upstream_version, compatible, warn, refuse, minor_drift_message, major_mismatch_message,
  Diagnostic, VersionProbe, reported, no_output, failed, Semver, without_v, finished, words_from,
  contains_dot, starts_with_digit, looks_like_version, version_token, core_end, semver_of,
  parse_token, parse, pin, compare, assess_parsed, assess_reported, assess,
}

-- The two numbers that the check reads of the pin are those of the pinned version.
parse-pinned : parse pinned_upstream_version ≡ some pin
unfolding parse version_token looks_like_version words_from without_v core_end parse_token
    is_whitespace split parse_number
parse-pinned = refl

abbrev pub numbers : ℕ → ℕ → ℕ → Bytes
numbers major minor patch = decimal major ++ (b'.' ∷ (decimal minor ++ (b'.' ∷ decimal patch)))

-- The line that a release prints.
abbrev pub release : ℕ → ℕ → ℕ → Bytes
release major minor patch = codes "kmp-lsp " ++ numbers major minor patch

numbers-All {κ} :
    (P : ℕ → Type κ) (major minor patch : ℕ)
    → ((c : ℕ) → IsDigit c → P c)
    → P b'.'
    → All P (numbers major minor patch)
numbers-All P major minor patch digit dot =
    let digits = λ (n : ℕ). All-mono IsDigit P digit (decimal n) (decimal-digits n) in
    All-append P (decimal major) (b'.' ∷ (decimal minor ++ (b'.' ∷ decimal patch))) (digits major)
      (dot, All-append P (decimal minor) (b'.' ∷ decimal patch) (digits minor) (dot, digits patch))

words_from-solid : (word s : Bytes) → All IsSolid s → words_from word s ≡ finished (word ++ s) []
unfolding words_from
words_from-solid word [] h = ap (λ w. finished w []) (sym (append-nil word))
words_from-solid word (c ∷ s) h = rw h.0 (
    words_from-solid (word ++ (c ∷ [])) s h.1
    ∙ ap (λ w. finished w []) (append_assoc word (c ∷ []) s))

contains_dot-append : (p s : Bytes) → contains_dot (p ++ (b'.' ∷ s)) ≡ true
contains_dot-append [] s = refl
contains_dot-append (c ∷ p) s = ground (arith, contains_dot-append p s)

core_end-length : (s : Bytes) → All (λ c. (c ≢ b'-') × (c ≢ b'+')) s → core_end s ≡ length s
unfolding core_end
core_end-length [] h = refl
core_end-length (c ∷ s) h = ground (arith, core_end-length s h.1)

without_v-digit : (c : ℕ) (s : Bytes) → IsDigit c → without_v (c ∷ s) ≡ c ∷ s
unfolding without_v
without_v-digit c s h = ground arith

take_all : (s : Bytes) → take (length s) s ≡ s
take_all [] = refl
take_all (c ∷ s) = ap (λ l. c ∷ l) (take_all s)

digit_not_dot : (c : ℕ) → IsDigit c → c ≢ b'.'
digit_not_dot c h e = omega (arith, h.0, h.1, e)

split-numbers :
    (major minor patch : ℕ)
    → split (codes ".") (numbers major minor patch)
      ≡ decimal major ∷ decimal minor ∷ split (codes ".") (decimal patch)
split-numbers major minor patch =
    let lacks =
      λ (n : ℕ). All-mono IsDigit (λ c. c ≢ b'.') digit_not_dot (decimal n) (decimal-digits n) in
    split-append b'.' (decimal major) (decimal minor ++ (b'.' ∷ decimal patch)) (lacks major)
    ∙ ap (λ l. decimal major ∷ l) (split-append b'.' (decimal minor) (decimal patch) (lacks minor))

-- A token that starts with a digit and holds only digits and dots is all core.
parse_token-plain :
    (c : ℕ) (s : Bytes)
    → IsDigit c
    → All (λ c. (c ≢ b'-') × (c ≢ b'+')) (c ∷ s)
    → parse_token (c ∷ s) ≡ semver_of (split (codes ".") (c ∷ s)) false
unfolding parse_token
parse_token-plain c s d h =
    rw (without_v-digit c s d, core_end-length (c ∷ s) h, take_all (c ∷ s))
      (ap (semver_of (split (codes ".") (c ∷ s))) (ground arith))

version_token-plain :
    (c : ℕ) (s : Bytes)
    → IsDigit c
    → contains_dot (c ∷ s) ≡ true
    → version_token (codes "kmp-lsp" ∷ (c ∷ s) ∷ []) ≡ some (c ∷ s)
unfolding version_token looks_like_version
version_token-plain c s d dots =
    let e : starts_with_digit (without_v (c ∷ s)) ≡ true =
      rw (without_v-digit c s d) (ground arith) in
    rw (dots, e) refl

numbers-cons :
    (major minor patch : ℕ)
    → (c : ℕ) × (s : Bytes) × (numbers major minor patch ≡ c ∷ s) × IsDigit c
numbers-cons major minor patch =
    let (c, rest, e) = decimal-cons major in
    let digits : All IsDigit (c ∷ rest) = subst (All IsDigit) e (decimal-digits major) in
    (
      c,
      rest ++ (b'.' ∷ (decimal minor ++ (b'.' ∷ decimal patch))),
      ap (λ d. d ++ (b'.' ∷ (decimal minor ++ (b'.' ∷ decimal patch)))) e,
      digits.0,
    )

semver_of-decimals :
    (major minor : ℕ) (later : List Bytes)
    → major < 2 ^ 32
    → minor < 2 ^ 32
    → semver_of (decimal major ∷ decimal minor ∷ later) false
      ≡ some (record { major = major; minor = minor; prerelease = false })
semver_of-decimals major minor later h k =
    ground
      (arith, parse_number-decimal u32_modulus major h, parse_number-decimal u32_modulus minor k)

words_from-line :
    (s : Bytes) → words_from [] (codes "kmp-lsp " ++ s) ≡ codes "kmp-lsp" ∷ words_from [] s
unfolding words_from is_whitespace
words_from-line s = refl

parse-of_words :
    (line token : Bytes) (words : List Bytes)
    → words_from [] line ≡ words
    → version_token words ≡ some token
    → parse line ≡ parse_token token
unfolding parse
parse-of_words line token words e k = ground (arith, e, k)

-- The line of a release is read as its first two numbers, whatever the third.
pub parse-release :
    (major minor patch : ℕ)
    → major < 2 ^ 32
    → minor < 2 ^ 32
    → parse (release major minor patch)
      ≡ some (record { major = major; minor = minor; prerelease = false })
parse-release major minor patch h k =
    let token = numbers major minor patch in
    let (c, s, e, d) = numbers-cons major minor patch in
    let solid : All IsSolid token =
      numbers-All IsSolid major minor patch (λ c d. unfold is_whitespace in ground arith)
        (unfold is_whitespace in refl) in
    let plain : All (λ c. (c ≢ b'-') × (c ≢ b'+')) token =
      numbers-All (λ c. (c ≢ b'-') × (c ≢ b'+')) major minor patch
        (λ c d. ((λ e. omega arith), (λ e. omega arith)))
        ((λ e. omega arith), (λ e. omega arith)) in
    let dots : contains_dot token ≡ true =
      contains_dot-append (decimal major) (decimal minor ++ (b'.' ∷ decimal patch)) in
    let words : words_from [] (release major minor patch) ≡ codes "kmp-lsp" ∷ token ∷ [] =
      words_from-line token
      ∙ ap (λ l. codes "kmp-lsp" ∷ l)
          (words_from-solid [] token solid
            ∙ ap (λ t. finished t []) e
            ∙ ap (λ t. t ∷ []) (sym e)) in
    let found : version_token (codes "kmp-lsp" ∷ token ∷ []) ≡ some token =
      rw e (version_token-plain c s d (rw e at dots)) in
    let core : parse_token token ≡ semver_of (split (codes ".") token) false =
      rw e (parse_token-plain c s d (rw e at plain)) in
    parse-of_words (release major minor patch) token (codes "kmp-lsp" ∷ token ∷ []) words found
    ∙ core
    ∙ ap (λ l. semver_of l false) (split-numbers major minor patch)
    ∙ semver_of-decimals major minor (split (codes ".") (decimal patch)) h k

-- A release starts silently when its first two numbers are those of the pin, with a warning when only
-- the second differs, and is refused when the first differs.
pub assess-release :
    (major minor patch : ℕ)
    → major < 2 ^ 32
    → minor < 2 ^ 32
    → assess (reported (release major minor patch)) ≡ (
        if not (major == 0)
        then refuse (major_mismatch_message (release major minor patch))
        else if not (minor == 26)
        then warn (minor_drift_message (release major minor patch))
        else compatible)
unfolding assess assess_reported compare
assess-release major minor patch h k =
    ap (assess_parsed (release major minor patch)) (parse-release major minor patch h k)
    ∙ ground arith

assess_parsed-refuse :
    (line : Bytes) (found : Option Semver) (d : Diagnostic)
    → assess_parsed line found ≡ refuse d
    → (version : Semver) × (found ≡ some version) × (version.major ≢ 0)
unfolding compare
assess_parsed-refuse line none d e = cc
assess_parsed-refuse line (some found) d e = (found, refl, (λ z. ground arith))

-- Only a line from which a version with another first number was read is refused: an engine that is
-- missing, fails, prints nothing or prints something else is never refused.
pub assess-refuse :
    (probe : VersionProbe) (d : Diagnostic)
    → assess probe ≡ refuse d
    → (line : Bytes) × (version : Semver) × (probe ≡ reported line)
      × (parse line ≡ some version)
      × (version.major ≢ 0)
unfolding assess assess_reported
assess-refuse (reported line) d e =
    let (version, found, differs) = assess_parsed-refuse line (parse line) d e in
    (line, version, refl, found, differs)
assess-refuse no_output d e = cc
assess-refuse (failed reason) d e = cc
