-- ===== src/Core/Pick/Reach.antt =====
-- The suggested suffix as a pick: crates/ktsense-core/src/pick.rs.
use mathlib.Core.Path.{subst}
use ktsense.Prelude.{
  ℕ, ◌+◌, ◌<◌, ◌≡◌, inl, inr, refl, ap, sym, ◌∙◌, true, Bool-cases, some, List, [], ◌∷◌, ◌++◌,
  arith, ◌==◌, ==_iff, Bytes, bytes_eq_iff, All, All-append, All-mono, Option-cases, append_assoc,
}
use ktsense.Std.Str.{split, join_with, join_with-split}
use ktsense.Core.Pick.{
  dot, selected, is_dot_suffix, position_from, matched_from, match_pick, carriers, suffixes,
  first_unique, shortest_unique_suffix,
}
use ktsense.Core.Pick.Suffix.{Carries, is_dot_suffix_iff}

carriers-zero :
    (suffix : Bytes) (fqns : List Bytes) (index : ℕ)
    → carriers suffix fqns ≡ 0
    → matched_from index suffix fqns ≡ []
unfolding carriers matched_from
carriers-zero suffix [] index h = refl
carriers-zero suffix (fqn ∷ fqns) index h = ground (arith, carriers-zero suffix fqns (index + 1))

-- A name at some place that carries the suffix is one of its carriers.
carriers-pos :
    (suffix target : Bytes) (fqns : List Bytes) (index place : ℕ)
    → position_from index target fqns ≡ some place
    → is_dot_suffix target suffix ≡ true
    → 0 < carriers suffix fqns
unfolding carriers position_from
carriers-pos suffix target [] index place e h = cc
carriers-pos suffix target (fqn ∷ fqns) index place e h =
    ground (arith, bytes_eq_iff fqn target, carriers-pos suffix target fqns (index + 1) place)

-- The only carrier is the one match.
matched_from-only :
    (suffix target : Bytes) (fqns : List Bytes) (index place : ℕ)
    → position_from index target fqns ≡ some place
    → is_dot_suffix target suffix ≡ true
    → carriers suffix fqns ≡ 1
    → matched_from index suffix fqns ≡ place ∷ []
unfolding carriers position_from matched_from
matched_from-only suffix target [] index place e h one = cc
matched_from-only suffix target (fqn ∷ fqns) index place e h one = ground (
  arith,
  bytes_eq_iff fqn target,
  carriers-zero suffix fqns (index + 1),
  carriers-pos suffix target fqns (index + 1) place,
  matched_from-only suffix target fqns (index + 1) place,
)

is_dot_suffix_self : (s : Bytes) → is_dot_suffix s s ≡ true
is_dot_suffix_self s = (is_dot_suffix_iff s s).1 (inl refl)

match_pick-exact :
    (target : Bytes) (fqns : List Bytes) (place : ℕ)
    → position_from 0 target fqns ≡ some place
    → match_pick target fqns ≡ selected place
unfolding match_pick
match_pick-exact target fqns place e = ground (arith, e)

match_pick-only :
    (suffix target : Bytes) (fqns : List Bytes) (place : ℕ)
    → position_from 0 target fqns ≡ some place
    → is_dot_suffix target suffix ≡ true
    → carriers suffix fqns ≡ 1
    → match_pick suffix fqns ≡ selected place
match_pick-only suffix target fqns place e h one =
    let matched = matched_from-only suffix target fqns 0 place e h one in
    elim (Option-cases (position_from 0 suffix fqns)) [
      | inl inexact ↦ unfold match_pick in ground (arith, inexact, matched)
      | inr (k, exact) ↦
          let matched' =
            matched_from-only suffix suffix fqns 0 k exact (is_dot_suffix_self suffix) one in
          let same : k ≡ place = cc in match_pick-exact suffix fqns k exact ∙ ap selected same
    ]

first_unique-selects :
    (candidates : List Bytes) (target : Bytes) (fqns : List Bytes) (place : ℕ)
    → position_from 0 target fqns ≡ some place
    → All (λ s. is_dot_suffix target s ≡ true) candidates
    → match_pick (first_unique candidates fqns target) fqns ≡ selected place
unfolding first_unique
first_unique-selects [] target fqns place e h = match_pick-exact target fqns place e
first_unique-selects (s ∷ candidates) target fqns place e h =
    elim (Bool-cases (carriers s fqns == 1)) [
      | inl one ↦
          rw one (match_pick-only s target fqns place e h.0 ((==_iff (carriers s fqns) 1).0 one))
      | inr more ↦ rw more (first_unique-selects candidates target fqns place e h.1)
    ]

Carries-behind : (p x s : Bytes) → Carries x s → Carries (p ++ (dot ∷ x)) s
Carries-behind p x s (inl e) = inr (p, ap (λ l. p ++ (dot ∷ l)) e)
Carries-behind p x s (inr (front, e)) =
    inr (
      p ++ (dot ∷ front),
      ap (λ l. p ++ (dot ∷ l)) e ∙ sym (append_assoc p (dot ∷ front) (dot ∷ s)),
    )

-- A tail of the segments, joined, is carried by all of them joined.
suffixes-carried :
    (segments : List Bytes) → All (Carries (join_with dot segments)) (suffixes segments)
unfolding suffixes
suffixes-carried [] = tt
suffixes-carried (p ∷ []) = (inl refl, tt)
suffixes-carried (p ∷ q ∷ qs) =
    let whole = join_with dot (p ∷ q ∷ qs) in
    let tail = join_with dot (q ∷ qs) in
    All-append (Carries whole) (suffixes (q ∷ qs)) (whole ∷ [])
      (All-mono (Carries tail) (Carries whole)
        (λ s c. unfold join_with in Carries-behind p tail s c) (suffixes (q ∷ qs))
        (suffixes-carried (q ∷ qs)))
      (inl refl, tt)

-- Whatever else the candidates are, the suffix that the ambiguity hint suggests for one of them,
-- given back as a pick, selects the first place where that candidate stands.
pub match_pick-shortest_unique_suffix :
    (target : Bytes) (fqns : List Bytes) (place : ℕ)
    → position_from 0 target fqns ≡ some place
    → match_pick (shortest_unique_suffix target fqns) fqns ≡ selected place
unfolding shortest_unique_suffix
match_pick-shortest_unique_suffix target fqns place e =
    first_unique-selects (suffixes (split (dot ∷ []) target)) target fqns place e (
      All-mono (Carries (join_with dot (split (dot ∷ []) target)))
        (λ s. is_dot_suffix target s ≡ true)
        (λ s c.
          (is_dot_suffix_iff target s).1 (subst (λ t. Carries t s) (join_with-split dot target) c))
        (suffixes (split (dot ∷ []) target)) (suffixes-carried (split (dot ∷ []) target)))
