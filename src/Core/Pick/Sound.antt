-- ===== src/Core/Pick/Sound.antt =====
-- What a pick resolves to, on every outcome: crates/ktsense-core/src/pick.rs.
use ktsense.Prelude.{
  ℕ, suc, ◌+◌, ◌-◌, ◌≤◌, ◌≡◌, inl, inr, refl, sym, Bool-cases, Option-cases, none, some, List, [],
  ◌∷◌, arith, Bytes, bytes_eq, bytes_eq_iff, All, All-mono, get_elem?,
}
use mathlib.Core.Path.{subst}
use ktsense.Core.Pick.{
  PickMatch, selected, ambiguous, missed, is_dot_suffix, position_from, matched_from, pick_of,
  match_pick,
}
use ktsense.Core.Pick.Suffix.{Carries, is_dot_suffix_iff}

-- The name at an index carries the pick.
abbrev pub CarriesAt : List Bytes → Bytes → ℕ → ℕ → Type 0
CarriesAt fqns pick index i =
    (index ≤ i) × (fqn : Bytes) × (get_elem? fqns (i - index) ≡ some fqn) × Carries fqn pick

CarriesAt-cons :
    (fqn : Bytes) (fqns : List Bytes) (pick : Bytes) (index i : ℕ)
    → CarriesAt fqns pick (index + 1) i
    → CarriesAt (fqn ∷ fqns) pick index i
CarriesAt-cons fqn fqns pick index i (le, found, at, carries) =
    let e : i - index ≡ suc (i - (index + 1)) = omega arith in
    (omega arith, found, rw e at, carries)

CarriesAt-head :
    (fqn : Bytes) (fqns : List Bytes) (pick : Bytes) (index : ℕ)
    → Carries fqn pick
    → CarriesAt (fqn ∷ fqns) pick index index
CarriesAt-head fqn fqns pick index c =
    let e : index - index ≡ 0 = omega arith in (omega arith, fqn, rw e refl, c)

matched_from-CarriesAt :
    (pick : Bytes) (fqns : List Bytes) (index : ℕ)
    → All (CarriesAt fqns pick index) (matched_from index pick fqns)
unfolding matched_from
matched_from-CarriesAt pick [] index = tt
matched_from-CarriesAt pick (fqn ∷ fqns) index =
    let rest =
      All-mono (CarriesAt fqns pick (index + 1)) (CarriesAt (fqn ∷ fqns) pick index)
        (CarriesAt-cons fqn fqns pick index) (matched_from (index + 1) pick fqns)
        (matched_from-CarriesAt pick fqns (index + 1)) in
    elim (Bool-cases (is_dot_suffix fqn pick)) [
      | inl yes_carries ↦
          rw yes_carries
            (CarriesAt-head fqn fqns pick index ((is_dot_suffix_iff fqn pick).0 yes_carries), rest)
      | inr no_carries ↦ rw no_carries rest
    ]

position_from-CarriesAt :
    (pick : Bytes) (fqns : List Bytes) (index i : ℕ)
    → position_from index pick fqns ≡ some i
    → CarriesAt fqns pick index i
unfolding position_from
position_from-CarriesAt pick [] index i e = cc
position_from-CarriesAt pick (fqn ∷ fqns) index i e = elim (Bool-cases (bytes_eq fqn pick)) [
  | inl same ↦
      let at : index ≡ i = ground arith in
      rw (← at) (CarriesAt-head fqn fqns pick index (inl ((bytes_eq_iff fqn pick).0 same)))
  | inr differ ↦
      CarriesAt-cons fqn fqns pick index i
        (position_from-CarriesAt pick fqns (index + 1) i (ground arith))
]

matched_from-nil :
    (pick : Bytes) (fqns : List Bytes) (index : ℕ)
    → matched_from index pick fqns ≡ []
    → All (λ fqn. ¬ Carries fqn pick) fqns
unfolding matched_from
matched_from-nil pick [] index e = tt
matched_from-nil pick (fqn ∷ fqns) index e = elim (Bool-cases (is_dot_suffix fqn pick)) [
  | inl carries ↦ ground arith
  | inr off ↦ (
    λ c. cc ((is_dot_suffix_iff fqn pick).1 c),
    matched_from-nil pick fqns (index + 1) (ground arith),
  )
]

-- What each outcome says of the candidates.
abbrev pub Resolves : Bytes → List Bytes → PickMatch → Type 0
Resolves pick fqns (selected i) = CarriesAt fqns pick 0 i
Resolves pick fqns (ambiguous matched) =
    All (CarriesAt fqns pick 0) matched × (position_from 0 pick fqns ≡ none)
Resolves pick fqns missed = All (λ fqn. ¬ Carries fqn pick) fqns

pick_of-Resolves :
    (pick : Bytes) (fqns : List Bytes) (matched : List ℕ)
    → matched_from 0 pick fqns ≡ matched
    → position_from 0 pick fqns ≡ none
    → All (CarriesAt fqns pick 0) matched
    → Resolves pick fqns (pick_of matched)
pick_of-Resolves pick fqns [] e inexact h = matched_from-nil pick fqns 0 e
pick_of-Resolves pick fqns (only ∷ []) e inexact h = h.0
pick_of-Resolves pick fqns (a ∷ b ∷ matched) e inexact h = (h, inexact)

match_pick-exact :
    (pick : Bytes) (fqns : List Bytes) (i : ℕ)
    → position_from 0 pick fqns ≡ some i
    → match_pick pick fqns ≡ selected i
unfolding match_pick
match_pick-exact pick fqns i e = ground arith

match_pick-inexact :
    (pick : Bytes) (fqns : List Bytes)
    → position_from 0 pick fqns ≡ none
    → match_pick pick fqns ≡ pick_of (matched_from 0 pick fqns)
unfolding match_pick
match_pick-inexact pick fqns e = ground arith

-- A selected candidate carries the pick, so do all that an ambiguous pick lists, and then none is
-- the pick itself; after a miss no candidate carries it.
pub match_pick-Resolves :
    (pick : Bytes) (fqns : List Bytes) → Resolves pick fqns (match_pick pick fqns)
match_pick-Resolves pick fqns = elim (Option-cases (position_from 0 pick fqns)) [
  | inr (i, exact) ↦
      subst (Resolves pick fqns) (sym (match_pick-exact pick fqns i exact))
        (position_from-CarriesAt pick fqns 0 i exact)
  | inl inexact ↦ subst (Resolves pick fqns) (sym (match_pick-inexact pick fqns inexact)) (
      pick_of-Resolves pick fqns (matched_from 0 pick fqns) refl inexact
        (matched_from-CarriesAt pick fqns 0))
]
