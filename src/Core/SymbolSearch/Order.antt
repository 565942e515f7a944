-- ===== src/Core/SymbolSearch/Order.antt =====
-- What a partial-name search lists and in which order: crates/ktsense-core/src/symbol_search.rs.
use mathlib.Core.List.{Perm}
use mathlib.Core.List.Perm
use ktsense.Prelude.{
  ℕ, ◌≤◌, ◌≡◌, ap, ◌∙◌, inl, inr, false, Bool-cases, List, [], ◌∷◌, if◌then◌else◌, Bytes, length,
}
use ktsense.Std.Split.{Split, none_left, to_left, to_right}
use ktsense.Core.SymbolSearch.{
  SymbolMatch, rank_lt, match_rank, retained, insert_ranked, sorted, contained_declarations,
  containment_tier, contains_text,
}
use ktsense.Core.SymbolSearch.Tiers.{
  rank_lt-asymm, TextThen, NumberThen, rank_lt-then, Contains, InTier, containment_tier-InTier,
  contains_text-at, contains_text-Contains,
}

module _ {ℓ} {K : Type ℓ} (query : Bytes) where
  -- No match stands behind one of a later rank: neighbours are in order.
  abbrev pub Ordered : List (SymbolMatch K) → Type 0
  Ordered [] = Unit
  Ordered (m ∷ []) = Unit
  Ordered (m ∷ n ∷ ms) =
      (rank_lt (match_rank query n) (match_rank query m) ≡ false) × Ordered (n ∷ ms)

  insert_ranked-perm :
      (m : SymbolMatch K) (ms : List (SymbolMatch K)) → Perm (insert_ranked query m ms) (m ∷ ms)
  unfolding insert_ranked
  insert_ranked-perm m [] = Perm.rfl
  insert_ranked-perm m (n ∷ ms) =
      elim (Bool-cases (rank_lt (match_rank query n) (match_rank query m))) [
        | inl before ↦
            rw before (Perm.trans (Perm.cons n (insert_ranked-perm m ms)) (Perm.swap m n ms))
        | inr behind ↦ rw behind Perm.rfl
      ]

  sorted-perm : (ms : List (SymbolMatch K)) → Perm (sorted query ms) ms
  unfolding sorted
  sorted-perm [] = Perm.nil
  sorted-perm (m ∷ ms) =
      Perm.trans (insert_ranked-perm m (sorted query ms)) (Perm.cons m (sorted-perm ms))

  insert_ranked-Ordered :
      (n m : SymbolMatch K) (ms : List (SymbolMatch K))
      → rank_lt (match_rank query m) (match_rank query n) ≡ false
      → Ordered (n ∷ ms)
      → Ordered (n ∷ insert_ranked query m ms)
  unfolding insert_ranked
  insert_ranked-Ordered n m [] h o = (h, tt)
  insert_ranked-Ordered n m (k ∷ ms) h o =
      elim (Bool-cases (rank_lt (match_rank query k) (match_rank query m))) [
        | inl before ↦ rw before (
          o.0,
          insert_ranked-Ordered k m ms
              (rank_lt-asymm (match_rank query k) (match_rank query m) before) o.1,
        )
        | inr behind ↦ rw behind (h, (behind, o.1))
      ]

  insert_Ordered :
      (m : SymbolMatch K) (ms : List (SymbolMatch K))
      → Ordered ms
      → Ordered (insert_ranked query m ms)
  unfolding insert_ranked
  insert_Ordered m [] o = tt
  insert_Ordered m (k ∷ ms) o =
      elim (Bool-cases (rank_lt (match_rank query k) (match_rank query m))) [
        | inl before ↦ rw before (
            insert_ranked-Ordered k m ms
              (rank_lt-asymm (match_rank query k) (match_rank query m) before) o)
        | inr behind ↦ rw behind (behind, o)
      ]

  sorted-Ordered : (ms : List (SymbolMatch K)) → Ordered (sorted query ms)
  unfolding sorted
  sorted-Ordered [] = tt
  sorted-Ordered (m ∷ ms) = insert_Ordered m (sorted query ms) (sorted-Ordered ms)

  -- One match may stand before another: its kind of match comes first; or they are of one kind, and its
  -- name is shorter; or as long, and its qualified name, its path and its line decide in this order.
  abbrev pub MayPrecede : SymbolMatch K → SymbolMatch K → Type 0
  MayPrecede m n =
      (i : ℕ) × (j : ℕ) × ((InTier query i m.simple_name × InTier query j n.simple_name)
        × NumberThen i j (
            NumberThen (length m.simple_name) (length n.simple_name) (
              TextThen m.qualified_name n.qualified_name
                (TextThen m.path n.path (m.line ≤ n.line)))))

  abbrev pub Ranked : List (SymbolMatch K) → Type 0
  Ranked [] = Unit
  Ranked (m ∷ []) = Unit
  Ranked (m ∷ n ∷ ms) = MayPrecede m n × Ranked (n ∷ ms)

  Ordered-Ranked : (ms : List (SymbolMatch K)) → Ordered ms → Ranked ms
  unfolding match_rank
  Ordered-Ranked [] o = tt
  Ordered-Ranked (m ∷ []) o = tt
  Ordered-Ranked (m ∷ n ∷ ms) o = (
    (
      containment_tier query m.simple_name,
      containment_tier query n.simple_name,
      (
        (containment_tier-InTier query m.simple_name, containment_tier-InTier query n.simple_name),
        rank_lt-then (match_rank query m) (match_rank query n) o.0,
      ),
    ),
    Ordered-Ranked (n ∷ ms) o.1,
  )

  abbrev pub Matches : SymbolMatch K → Type 0
  Matches m = Contains query m.simple_name

  abbrev pub Misses : SymbolMatch K → Type 0
  Misses m = ¬ Contains query m.simple_name

  abbrev pub itself : SymbolMatch K → SymbolMatch K
  itself m = m

  abbrev dropped : List (SymbolMatch K) → List (SymbolMatch K)
  unfolding contains_text
  dropped [] = []
  dropped (m ∷ ms) =
      let rest = dropped ms in if contains_text m.simple_name query then rest else m ∷ rest

  retained-Split :
      (candidates : List (SymbolMatch K))
      → Split Matches Misses itself candidates (retained query candidates) (dropped candidates)
  unfolding retained dropped
  retained-Split [] = none_left
  retained-Split (m ∷ ms) = elim (Bool-cases (contains_text m.simple_name query)) [
    | inl found ↦
        rw found (to_left m (contains_text-Contains query m.simple_name found) (retained-Split ms))
    | inr missing ↦ rw missing (to_right m (misses m missing) (retained-Split ms))
  ]
    where
      misses : (m : SymbolMatch K) → contains_text m.simple_name query ≡ false → Misses m
      misses m h (before, behind, e) =
          let found = ap (λ s. contains_text s query) e ∙ contains_text-at query before behind in cc

  -- The candidates are split, in their order, into those whose simple name contains the query and those
  -- whose name does not; the search lists exactly the former, each as often as it was gathered: names
  -- that are the query, then names that begin with it, then the others, of each kind the shorter first,
  -- and ties in the order of qualified name, path and line.
  pub contained_declarations-Ranked :
      (candidates : List (SymbolMatch K))
      → (kept : List (SymbolMatch K)) × (left_out : List (SymbolMatch K)) × (Split Matches Misses
            itself candidates kept left_out
          × (Perm (contained_declarations query candidates) kept
              × Ranked (contained_declarations query candidates)))
  unfolding contained_declarations
  contained_declarations-Ranked candidates =
      let kept = retained query candidates in
      (
        kept,
        dropped candidates,
        (
          retained-Split candidates,
          (sorted-perm kept, Ordered-Ranked (sorted query kept) (sorted-Ordered kept)),
        ),
      )
