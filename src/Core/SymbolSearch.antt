-- ===== src/Core/SymbolSearch.antt =====
-- Ranking a partial-name search: crates/ktsense-core/src/symbol_search.rs. Names and paths are bytes;
-- the kind of a declaration, which is only carried along, is a type parameter.
pub mod Tiers
pub mod Order
use ktsense.Prelude.{
  ℕ, zero, suc, ◌&&◌, Bool, true, false, Option, none, some, List, [], ◌∷◌, ltb, ◌==◌,
  if◌then◌else◌, Bytes, bytes_eq, starts_with, find_subslice, length,
}
use ktsense.Core.TextSearch.{bytes_lt}

pub record SymbolMatch {ℓ} (K : Type ℓ) : Type ℓ where
  pub qualified_name : Bytes
  pub simple_name : Bytes
  pub kind : K
  pub path : Bytes
  pub line : ℕ
  pub signature : Bytes

unfoldable pub contains_text : Bytes → Bytes → Bool
unfolding find_subslice
contains_text name query = elim (find_subslice name query) [ none ↦ false | some at ↦ true ]

unfoldable pub containment_tier : Bytes → Bytes → ℕ
unfolding bytes_eq starts_with
containment_tier query simple_name =
    if bytes_eq simple_name query then 0 else if starts_with simple_name query then 1 else 2

-- The rank, with its numbers in front.
pub record Rank : Type 0 where
  pub tier : ℕ
  pub size : ℕ
  pub qualified_name : Bytes
  pub path : Bytes
  pub line : ℕ

abbrev pub rank_lt : Rank → Rank → Bool
rank_lt a b =
    if ltb a.tier b.tier
    then true
    else if ltb b.tier a.tier
    then false
    else if ltb a.size b.size
    then true
    else if ltb b.size a.size
    then false
    else if bytes_lt a.qualified_name b.qualified_name
    then true
    else if bytes_lt b.qualified_name a.qualified_name
    then false
    else if bytes_lt a.path b.path
    then true
    else if bytes_lt b.path a.path
    then false
    else ltb a.line b.line

module _ {ℓ} {K : Type ℓ} (query : Bytes) where
  unfoldable pub match_rank : SymbolMatch K → Rank
  unfolding containment_tier
  match_rank candidate = record {
    tier = containment_tier query candidate.simple_name;
    size = length candidate.simple_name;
    qualified_name = candidate.qualified_name;
    path = candidate.path;
    line = candidate.line;
  }

  -- `retain`
  unfoldable pub retained : List (SymbolMatch K) → List (SymbolMatch K)
  unfolding contains_text
  retained [] = []
  retained (candidate ∷ candidates) =
      let rest = retained candidates in
      if contains_text candidate.simple_name query then candidate ∷ rest else rest

  -- `sort_by`, which is stable
  unfoldable pub insert_ranked : SymbolMatch K → List (SymbolMatch K) → List (SymbolMatch K)
  unfolding match_rank
  insert_ranked m [] = m ∷ []
  insert_ranked m (n ∷ ms) =
      let rest = insert_ranked m ms in
      if rank_lt (match_rank n) (match_rank m) then n ∷ rest else m ∷ n ∷ ms

  unfoldable pub sorted : List (SymbolMatch K) → List (SymbolMatch K)
  unfolding insert_ranked
  sorted [] = []
  sorted (m ∷ ms) = insert_ranked m (sorted ms)

  pub contained_declarations : List (SymbolMatch K) → List (SymbolMatch K)
  unfolding retained sorted
  contained_declarations candidates = sorted (retained candidates)
