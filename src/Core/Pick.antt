-- ===== src/Core/Pick.antt =====
-- Resolving a `--pick` value against candidate names: crates/ktsense-core/src/pick.rs. A name is its
-- bytes.
pub mod Suffix
pub mod Reach
pub mod Sound
use ktsense.Prelude.{
  ℕ, zero, suc, ◌+◌, ◌-◌, Bool, true, false, ◌&&◌, Option, none, some, List, [], ◌∷◌, ◌++◌, leb,
  ltb, if◌then◌else◌, ◌==◌, Bytes, codes, length, get_or, bytes_eq, ends_with,
}
use ktsense.Std.Str.{split, join_with}

abbrev pub dot : ℕ
dot = b'.'

pub data PickMatch : Type 0 where
  selected : ℕ → PickMatch
  ambiguous : List ℕ → PickMatch
  missed : PickMatch

-- The last of the parts between dots.
last_or : List Bytes → Bytes → Bytes
last_or [] d = d
last_or (p ∷ ps) d = last_or ps p

unfoldable pub last_segment : Bytes → Bytes
unfolding last_or
last_segment query = last_or (split (dot ∷ []) query) query

-- A `boundary` that is not positive includes a suffix that is longer than the name.
unfoldable pub is_dot_suffix : Bytes → Bytes → Bool
unfolding bytes_eq ends_with
is_dot_suffix fqn suffix =
    if bytes_eq fqn suffix
    then true
    else (let boundary = length fqn - length suffix in
        if ltb 0 boundary
        then ends_with fqn suffix && get_or fqn (boundary - 1) 0 == dot
        else false)

-- `position`, with the index of the first name.
unfoldable pub position_from : ℕ → Bytes → List Bytes → Option ℕ
position_from index pick [] = none
position_from index pick (fqn ∷ fqns) =
    if bytes_eq fqn pick then some index else position_from (index + 1) pick fqns

pub matched_from : ℕ → Bytes → List Bytes → List ℕ
unfolding is_dot_suffix
matched_from index pick [] = []
matched_from index pick (fqn ∷ fqns) =
    let rest = matched_from (index + 1) pick fqns in
    if is_dot_suffix fqn pick then index ∷ rest else rest

abbrev pub pick_of : List ℕ → PickMatch
pick_of [] = missed
pick_of (only ∷ []) = selected only
pick_of (a ∷ b ∷ matched) = ambiguous (a ∷ b ∷ matched)

unfoldable pub match_pick : Bytes → List Bytes → PickMatch
unfolding position_from matched_from
match_pick pick fqns = elim (position_from 0 pick fqns) [
  | some index ↦ selected index
  | none ↦ pick_of (matched_from 0 pick fqns)
]

pub carriers : Bytes → List Bytes → ℕ
unfolding is_dot_suffix
carriers suffix [] = 0
carriers suffix (fqn ∷ fqns) =
    let rest = carriers suffix fqns in if is_dot_suffix fqn suffix then suc rest else rest

-- The joined tails of the segments, the shortest first, as the loop over `start` visits them.
pub suffixes : List Bytes → List Bytes
suffixes [] = []
suffixes (segment ∷ segments) = suffixes segments ++ (join_with dot (segment ∷ segments) ∷ [])

pub first_unique : List Bytes → List Bytes → Bytes → Bytes
unfolding carriers
first_unique [] fqns target = target
first_unique (suffix ∷ longer) fqns target =
    if carriers suffix fqns == 1 then suffix else first_unique longer fqns target

unfoldable pub shortest_unique_suffix : Bytes → List Bytes → Bytes
unfolding suffixes first_unique
shortest_unique_suffix target fqns = first_unique (suffixes (split (dot ∷ []) target)) fqns target
