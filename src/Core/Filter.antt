-- ===== src/Core/Filter.antt =====
-- Which sites a filtered answer keeps: crates/ktsense-core/src/filter.rs, and the rule for test
-- sources of references.rs. Paths are bytes.
pub mod Describe
use mathlib.Core.Logic.{Lift}
use ktsense.Prelude.{
  ℕ, ◌≡◌, ◌⊎◌, ◌↔◌, refl, ap, ◌∙◌, inl, inr, Bool, true, false, not, ◌&&◌, ◌||◌, Bool-cases, Option,
  none, some, List, [], ◌∷◌, ◌++◌, arith, ◌==◌, if◌then◌else◌, Bytes, codes, bytes_eq, starts_with,
  starts_with-append, starts_with-split, ends_with, length, drop,
}

pub data TestScope : Type 0 where
  all tests production : TestScope

-- From `--tests` and `--no-tests`.
abbrev pub from_flags : Bool → Bool → TestScope
from_flags true no_tests = tests
from_flags false true = production
from_flags false false = all

abbrev pub is_all : TestScope → Bool
is_all all = true
is_all _ = false

abbrev pub admits : TestScope → Bool → Bool
admits all is_test = true
admits tests is_test = is_test
admits production is_test = not is_test

pub record SiteFilter : Type 0 where
  pub path : List Bytes
  pub tests : TestScope

abbrev pub is_empty : List Bytes → Bool
is_empty [] = true
is_empty (p ∷ ps) = false

abbrev pub any {ℓ} : {A : Type ℓ} → (A → Bool) → List A → Bool
any p [] = false
any p (x ∷ xs) = if p x then true else any p xs

pub new : List Bytes → TestScope → Option SiteFilter
new path scope =
    if not (is_empty path) || not (is_all scope)
    then some (record { path = path; tests = scope })
    else none

-- `split(['/', '\\'])`
abbrev pub is_separator : ℕ → Bool
is_separator c = c == b'/' || c == b'\\'

abbrev pub add_first : ℕ → List Bytes → List Bytes
add_first c [] = (c ∷ []) ∷ []
add_first c (p ∷ ps) = (c ∷ p) ∷ ps

unfoldable pub segments : Bytes → List Bytes
segments [] = [] ∷ []
segments (c ∷ path) =
    let rest = segments path in if is_separator c then [] ∷ rest else add_first c rest

abbrev pub last_segment_or : Bytes → List Bytes → Bytes
last_segment_or d [] = d
last_segment_or d (p ∷ ps) = last_segment_or p ps

abbrev pub named_source_sets : List Bytes
named_source_sets =
    codes "test"
    ∷ codes "androidTest"
    ∷ codes "testFixtures"
    ∷ codes "commonTest"
    ∷ codes "jvmTest"
    ∷ []

unfoldable pub is_test_segment : Bytes → Bool
unfolding bytes_eq ends_with
is_test_segment segment =
    any (λ name. bytes_eq segment name) named_source_sets || ends_with segment (codes "Test")

unfoldable pub is_test_file : Bytes → Bool
unfolding ends_with
is_test_file file =
    ends_with file (codes "Test.kt")
    || ends_with file (codes "Tests.kt")
    || ends_with file (codes "Spec.kt")

abbrev pub is_nonempty : Bytes → Bool
is_nonempty [] = false
is_nonempty (c ∷ s) = true

unfoldable pub is_test_source : Bytes → Bool
unfolding segments is_test_file is_test_segment
is_test_source path =
    if is_test_file (last_segment_or path (segments path))
    then true
    else any (λ segment. is_nonempty segment && is_test_segment segment) (segments path)

unfoldable pub matches_path_prefix : SiteFilter → Bytes → Bool
unfolding starts_with
matches_path_prefix filter path =
    is_empty filter.path || any (λ prefix. starts_with path prefix) filter.path

unfoldable pub matches : SiteFilter → Bytes → Bool → Bool
unfolding matches_path_prefix
matches filter path is_test = matches_path_prefix filter path && admits filter.tests is_test

unfoldable pub matches_path : SiteFilter → Bytes → Bool
unfolding matches is_test_source
matches_path filter path = matches filter path (is_test_source path)

-- A list has an element of which something holds.
abbrev pub Some {ℓ κ} : {A : Type ℓ} → (A → Type κ) → List A → Type κ
Some P [] = Lift ⊥
Some P (x ∷ xs) = P x ⊎ Some P xs

-- What a scope asks of a path.
abbrev pub InScope : TestScope → Bytes → Type 0
InScope all path = Unit
InScope tests path = is_test_source path ≡ true
InScope production path = is_test_source path ≡ false

any-starts_with :
    (path : Bytes) (prefixes : List Bytes)
    → (any (λ prefix. starts_with path prefix) prefixes ≡ true)
      ↔ Some (λ prefix. (rest : Bytes) × (path ≡ prefix ++ rest)) prefixes
any-starts_with path [] = ((λ e. cc), (λ s. absurd s.lower))
any-starts_with path (p ∷ ps) = elim (Bool-cases (starts_with path p)) [
  | inl begins ↦
      rw begins ((λ _. inl (drop (length p) path, starts_with-split path p begins)), (λ _. refl))
  | inr other ↦
      let (to, from) = any-starts_with path ps in
      rw other (
        (λ e. inr (to e)),
        λ s. elim s [
          | inl (rest, e) ↦ absurd (false_begins path p rest other e)
          | inr later ↦ from later
        ],
      )
]
  where
    false_begins : (path p rest : Bytes) → starts_with path p ≡ false → path ≡ p ++ rest → ⊥
    false_begins path p rest off e =
        let begins : starts_with path p ≡ true =
          ap (λ s. starts_with s p) e ∙ starts_with-append p rest in
        cc

matches_path_prefix_iff :
    (path : Bytes) (prefixes : List Bytes)
    → ((is_empty prefixes || any (λ prefix. starts_with path prefix) prefixes) ≡ true)
      ↔ ((prefixes ≡ []) ⊎ Some (λ prefix. (rest : Bytes) × (path ≡ prefix ++ rest)) prefixes)
matches_path_prefix_iff path [] = ((λ _. inl refl), (λ _. refl))
matches_path_prefix_iff path (p ∷ ps) =
    let (to, from) = any-starts_with path (p ∷ ps) in
    ((λ e. inr (to e)), λ s. elim s [ inl nil ↦ cc | inr begins ↦ from begins ])

and_iff : (a b : Bool) → ((a && b) ≡ true) ↔ ((a ≡ true) × (b ≡ true))
and_iff a b = ground arith

admits_iff :
    (scope : TestScope) (path : Bytes)
    → (admits scope (is_test_source path) ≡ true) ↔ InScope scope path
admits_iff all path = ((λ _. tt), (λ _. refl))
admits_iff tests path = ((λ e. e), (λ e. e))
admits_iff production path = ground arith

-- A filter keeps a path exactly when its source set is in scope and, if there are prefixes, the path
-- begins with one of them.
pub matches_path_iff :
    (filter : SiteFilter) (path : Bytes)
    → (matches_path filter path ≡ true) ↔ (
        ((filter.path ≡ []) ⊎ Some (λ prefix. (rest : Bytes) × (path ≡ prefix ++ rest)) filter.path)
        × InScope filter.tests path)
unfolding matches_path matches matches_path_prefix
matches_path_iff filter path =
    let (split, join) =
      and_iff (matches_path_prefix filter path) (admits filter.tests (is_test_source path)) in
    let (to, from) = matches_path_prefix_iff path filter.path in
    let (into, out) = admits_iff filter.tests path in
    ((λ e. (to (split e).0, into (split e).1)), (λ h. join (from h.0, out h.1)))
