-- ===== src/Core/SymbolSearch/Tiers.antt =====
-- The kinds of match and what a rank orders: `containment_tier` and the key of
-- crates/ktsense-core/src/symbol_search.rs.

use ktsense.Prelude.{
  ℕ, zero, suc, Bool, Option, none, some, take, ◌<◌, ◌≤◌, ◌≡◌, ◌≢◌, refl, ap, sym, ◌∙◌, ◌⊎◌, inl,
  inr, true, false, Bool-cases, Option-cases, [], ◌∷◌, ◌++◌, arith, ltb, Bytes, bytes_eq,
  bytes_eq_iff, length, drop, starts_with, starts_with-split, starts_with-append, find_subslice,
}
use ktsense.Std.Find.{find_subslice-split}
use ktsense.Core.TextSearch.{bytes_lt}
use ktsense.Core.SymbolSearch.{Rank, rank_lt, containment_tier, contains_text}

bytes_lt-asymm : (a b : Bytes) → bytes_lt a b ≡ true → bytes_lt b a ≡ false
bytes_lt-asymm [] [] h = cc
bytes_lt-asymm [] (b ∷ ys) h = refl
bytes_lt-asymm (a ∷ xs) [] h = cc
bytes_lt-asymm (a ∷ xs) (b ∷ ys) h = ground (arith, bytes_lt-asymm xs ys)

pub rank_lt-asymm : (a b : Rank) → rank_lt a b ≡ true → rank_lt b a ≡ false
rank_lt-asymm a b h =
    ground (arith, bytes_lt-asymm a.qualified_name b.qualified_name, bytes_lt-asymm a.path b.path)

bytes_lt-same : (a b : Bytes) → bytes_lt a b ≡ false → bytes_lt b a ≡ false → a ≡ b
bytes_lt-same [] [] h k = refl
bytes_lt-same [] (b ∷ ys) h k = cc
bytes_lt-same (a ∷ xs) [] h k = cc
bytes_lt-same (a ∷ xs) (b ∷ ys) h k = ground (arith, bytes_lt-same xs ys)

-- The first text stands before the second, or they are one text and what is given holds.
abbrev pub TextThen : Bytes → Bytes → Type 0 → Type 0
TextThen a b Next = (bytes_lt a b ≡ true) ⊎ ((a ≡ b) × Next)

abbrev pub NumberThen : ℕ → ℕ → Type 0 → Type 0
NumberThen a b Next = (a < b) ⊎ ((a ≡ b) × Next)

text_then :
    (a b : Bytes) (Next : Type 0)
    → bytes_lt b a ≡ false
    → (bytes_lt a b ≡ false → Next)
    → TextThen a b Next
text_then a b Next h next = elim (Bool-cases (bytes_lt a b)) [
  | inl before ↦ inl before
  | inr behind ↦ inr (bytes_lt-same a b behind h, next behind)
]

number_then :
    (a b : ℕ) (Next : Type 0) → ltb b a ≡ false → (ltb a b ≡ false → Next) → NumberThen a b Next
number_then a b Next h next = elim (Bool-cases (ltb a b)) [
  | inl before ↦ inl (ground arith)
  | inr behind ↦ inr (ground arith, next behind)
]

pub rank_lt-then :
    (a b : Rank)
    → rank_lt b a ≡ false
    → NumberThen a.tier b.tier (
        NumberThen a.size b.size
          (TextThen a.qualified_name b.qualified_name (TextThen a.path b.path (a.line ≤ b.line))))
rank_lt-then a b h = number_then a.tier b.tier _ (ground arith) (λ tiers.
    number_then a.size b.size _ (ground arith) (λ sizes.
      text_then a.qualified_name b.qualified_name _ (ground arith)
        (λ names. text_then a.path b.path _ (ground arith) (λ paths. ground arith))))

-- The query stands somewhere in the name.
abbrev pub Contains : Bytes → Bytes → Type 0
Contains query name = (before : Bytes) × (behind : Bytes) × (name ≡ before ++ (query ++ behind))

-- The three kinds of match: the name is the query, begins with it, or neither.
abbrev pub InTier : Bytes → ℕ → Bytes → Type 0
InTier query zero name = name ≡ query
InTier query (suc zero) name = (name ≢ query) × ((rest : Bytes) × (name ≡ query ++ rest))
InTier query (suc (suc zero)) name = ¬ ((rest : Bytes) × (name ≡ query ++ rest))
InTier query (suc (suc (suc n))) name = ⊥

pub containment_tier-InTier : (query name : Bytes) → InTier query (containment_tier query name) name
unfolding containment_tier
containment_tier-InTier query name = elim (Bool-cases (bytes_eq name query)) [
  | inl same ↦ rw same ((bytes_eq_iff name query).0 same)
  | inr other ↦
      let differs : name ≢ query =
        λ e. absurd (true_false (sym ((bytes_eq_iff name query).1 e) ∙ other)) in
      elim (Bool-cases (starts_with name query)) [
        | inl begins ↦
            rw (other, begins)
              (differs, (drop (length query) name, starts_with-split name query begins))
        | inr inner ↦
            rw (other, inner)
              (λ h.
                let begins = ap (λ s. starts_with s query) h.1 ∙ starts_with-append query h.0 in
                absurd (true_false (sym begins ∙ inner)))
      ]
]
  where
    true_false : true ≡ false → ⊥
    true_false e = cc

abbrev is_found : Option ℕ → Bool
is_found none = false
is_found (some at) = true

contains_text-found :
    (query name : Bytes) (found : Option ℕ)
    → find_subslice name query ≡ found
    → contains_text name query ≡ is_found found
unfolding contains_text
contains_text-found query name none e = ap (λ x. elim x [ none ↦ false | some at ↦ true ]) e
contains_text-found query name (some k) e = ap (λ x. elim x [ none ↦ false | some at ↦ true ]) e

-- A text that holds another is not searched for it in vain.
find_subslice-at :
    (query before behind : Bytes) → find_subslice (before ++ (query ++ behind)) query ≢ none
unfolding find_subslice
find_subslice-at query [] behind missing =
    head_found (query ++ behind) query (starts_with-append query behind) missing
  where
    head_found : (s query : Bytes) → starts_with s query ≡ true → find_subslice s query ≢ none
    head_found [] query h = ground (arith, h)
    head_found (c ∷ s) query h = ground (arith, h)
find_subslice-at query (c ∷ before) behind missing =
    elim (Option-cases (find_subslice (before ++ (query ++ behind)) query)) [
      | inl none_behind ↦ find_subslice-at query before behind none_behind
      | inr (k, found) ↦ absurd (ground arith)
    ]

pub contains_text-at :
    (query before behind : Bytes) → contains_text (before ++ (query ++ behind)) query ≡ true
contains_text-at query before behind =
    let name = before ++ (query ++ behind) in
    elim (Option-cases (find_subslice name query)) [
      | inl missing ↦ absurd (find_subslice-at query before behind missing)
      | inr (k, found) ↦ contains_text-found query name (some k) found
    ]

pub contains_text-Contains :
    (query name : Bytes) → contains_text name query ≡ true → Contains query name
contains_text-Contains query name h = elim (Option-cases (find_subslice name query)) [
  | inl missing ↦ absurd (cc_false (sym h ∙ contains_text-found query name none missing))
  | inr (k, found) ↦
      (take k name, drop (length query) (drop k name), find_subslice-split name query k found)
]
  where
    cc_false : true ≡ false → ⊥
    cc_false e = cc
