-- ===== src/Lsp/Version.antt =====
-- The startup check of the engine's version: crates/ktsense-lsp/src/version.rs. Text is handled as
-- code points. A diagnostic is named for the function that words it, with what it mentions; running
-- the engine is outside, so a probe starts from what the process came to.
pub mod Release
use ktsense.Prelude.{
  ℕ, ◌+◌, Bool, true, false, not, ◌&&◌, ◌||◌, Option, none, some, List, [], ◌∷◌, ◌++◌, ltb, ◌==◌,
  if◌then◌else◌, Bytes, codes, length, take,
}
use ktsense.Std.Str.{trim, split, is_whitespace}
use ktsense.Std.Number.{parse_number, u32_modulus, is_ascii_digit}

abbrev pub pinned_upstream_version : Bytes
pinned_upstream_version = codes "0.26.0"

pub data Compatibility : Type 0 where
  supported untested unsupported : Compatibility

pub data Diagnostic : Type 0 where
  major_mismatch_message minor_drift_message prerelease_message unparsed_message :
      Bytes → Diagnostic
  no_output_message : Diagnostic
  probe_failed_message : Bytes → Diagnostic

pub data VersionCheck : Type 0 where
  compatible : VersionCheck
  warn refuse : Diagnostic → VersionCheck

pub data VersionProbe : Type 0 where
  reported : Bytes → VersionProbe
  no_output : VersionProbe
  failed : Bytes → VersionProbe

pub record Semver : Type 0 where
  pub major : ℕ
  pub minor : ℕ
  pub prerelease : Bool

-- `trim_start_matches('v')`
unfoldable pub without_v : Bytes → Bytes
without_v [] = []
without_v (c ∷ s) = let rest = without_v s in if c == b'v' then rest else c ∷ s

-- `split_whitespace`, behind the word that is being read.
abbrev pub finished : Bytes → List Bytes → List Bytes
finished [] words = words
finished (c ∷ word) words = (c ∷ word) ∷ words

unfoldable pub words_from : Bytes → Bytes → List Bytes
unfolding is_whitespace
words_from word [] = finished word []
words_from word (c ∷ s) =
    let ended = words_from [] s in
    let grown = words_from (word ++ (c ∷ [])) s in
    if is_whitespace c then finished word ended else grown

abbrev pub contains_dot : Bytes → Bool
contains_dot [] = false
contains_dot (c ∷ s) = if c == b'.' then true else contains_dot s

abbrev pub starts_with_digit : Bytes → Bool
starts_with_digit [] = false
starts_with_digit (c ∷ s) = is_ascii_digit c

unfoldable pub looks_like_version : Bytes → Bool
unfolding without_v
looks_like_version piece = contains_dot piece && starts_with_digit (without_v piece)

unfoldable pub version_token : List Bytes → Option Bytes
unfolding looks_like_version
version_token [] = none
version_token (piece ∷ pieces) =
    let rest = version_token pieces in if looks_like_version piece then some piece else rest

-- `find(['-', '+'])`, or the length.
unfoldable pub core_end : Bytes → ℕ
core_end [] = 0
core_end (c ∷ s) = let rest = core_end s in if c == b'-' || c == b'+' then 0 else 1 + rest

abbrev pub semver_of : List Bytes → Bool → Option Semver
semver_of (major ∷ minor ∷ numbers) prerelease = elim (parse_number u32_modulus major) [
  | none ↦ none
  | some a ↦ elim (parse_number u32_modulus minor) [
    | none ↦ none
    | some b ↦ some (record { major = a; minor = b; prerelease = prerelease })
  ]
]
semver_of numbers prerelease = none

unfoldable pub parse_token : Bytes → Option Semver
unfolding without_v core_end
parse_token token =
    let core = without_v token in
    let end = core_end core in semver_of (split (codes ".") (take end core)) (ltb end (length core))

unfoldable pub parse : Bytes → Option Semver
unfolding version_token parse_token words_from
parse line = elim (version_token (words_from [] line)) [
  | none ↦ none
  | some token ↦ parse_token token
]

-- The two numbers of the pin.
abbrev pub pin : Semver
pin = record { major = 0; minor = 26; prerelease = false }

unfoldable pub compare : Semver → Compatibility
compare found =
    if not (found.major == pin.major)
    then unsupported
    else if not (found.minor == pin.minor)
    then untested
    else supported

unfoldable pub classify : Bytes → Compatibility
unfolding parse compare
classify line = elim (parse line) [ none ↦ unsupported | some found ↦ compare found ]

abbrev pub judged : Bytes → Bool → Compatibility → VersionCheck
judged line prerelease unsupported = refuse (major_mismatch_message line)
judged line prerelease untested = warn (minor_drift_message line)
judged line true supported = warn (prerelease_message line)
judged line false supported = compatible

abbrev pub assess_parsed : Bytes → Option Semver → VersionCheck
assess_parsed line none = warn (unparsed_message line)
assess_parsed line (some found) = judged line found.prerelease (compare found)

unfoldable pub assess_reported : Bytes → VersionCheck
unfolding parse
assess_reported line = assess_parsed line (parse line)

pub assess : VersionProbe → VersionCheck
unfolding assess_reported
assess (reported line) = assess_reported line
assess no_output = warn no_output_message
assess (failed reason) = warn (probe_failed_message reason)

-- What the engine's output says, after `from_utf8_lossy`.
abbrev pub reported_text : Bytes → VersionProbe
reported_text [] = no_output
reported_text (c ∷ text) = reported (c ∷ text)

pub reported_or_empty : Bytes → VersionProbe
unfolding trim
reported_or_empty stdout = reported_text (trim stdout)

abbrev pub version_of : VersionProbe → Option Bytes
version_of (reported version) = some version
version_of no_output = none
version_of (failed reason) = none
