-- ===== src/Core/Budget.antt =====
-- Emission within a token budget: crates/ktsense-core/src/budget.rs and the estimator of lib.rs.
-- An item is the bytes of its text. `f64` division and `ceil` are taken as exact: 3.6 is 18/5.
use ktsense.Prelude.{
  ℕ, ◌+◌, ◌-◌, ◌*◌, ◌/◌, ◌^◌, ◌<◌, ◌≤◌, ◌≡◌, refl, append_assoc, Bool-cases, inl, inr, ◌&&◌, List,
  [], ◌∷◌, ◌++◌, arith, leb, if◌then◌else◌, Bytes, length, length-append,
}

-- A `TokenEstimator`.
abbrev pub Estimator : Type 0
Estimator = Bytes → ℕ

-- Tokens of a text: its bytes divided by 3.6, rounded up.
unfoldable pub byte_ratio : Estimator
byte_ratio text = (5 * length text + 17) / 18

pub record BudgetedEmission : Type 0 where
  pub items : List Bytes
  pub token_upper_bound : ℕ

abbrev usize_max : ℕ
usize_max = 2 ^ 64 - 1

module _ (estimate : Estimator) (budget : ℕ) where
  -- The loop, from what was emitted so far; a sum that overflows ends it as a sum over the budget
  -- does.
  pub emit_from : List Bytes → ℕ → List Bytes → BudgetedEmission
  emit_from emitted bound [] = record { items = emitted; token_upper_bound = bound }
  emit_from emitted bound (item ∷ items) =
      let total = bound + estimate item in
      let more = emit_from (emitted ++ (item ∷ [])) total items in
      if leb total usize_max && leb total budget
      then more
      else record { items = emitted; token_upper_bound = bound }

  unfoldable pub emit_within_budget : List Bytes → BudgetedEmission
  unfolding emit_from
  emit_within_budget items = emit_from [] 0 items

-- The estimates of some items, added up.
abbrev pub total_estimate : Estimator → List Bytes → ℕ
total_estimate estimate [] = 0
total_estimate estimate (item ∷ items) = estimate item + total_estimate estimate items

abbrev pub concatenated : List Bytes → Bytes
concatenated [] = []
concatenated (item ∷ items) = item ++ concatenated items

-- The emission is a prefix of the items, it is within the budget, the bound is the sum of the
-- estimates of what was emitted, and the next item, if there is one, would exceed the budget.
pub record IsLongestPrefix (estimate : Estimator) (budget : ℕ) (items : List Bytes)
    (e : BudgetedEmission) : Type 0 where
  pub behind : List Bytes
  pub prefix : items ≡ e.items ++ behind
  pub within : e.token_upper_bound ≤ budget
  pub summed : e.token_upper_bound ≡ total_estimate estimate e.items
  pub stops :
      (item : Bytes) (later : List Bytes)
      → behind ≡ item ∷ later
      → budget < e.token_upper_bound + estimate item

total_estimate-append :
    (estimate : Estimator) (xs ys : List Bytes)
    → total_estimate estimate (xs ++ ys) ≡ total_estimate estimate xs + total_estimate estimate ys
total_estimate-append estimate [] ys = omega arith
total_estimate-append estimate (x ∷ xs) ys = omega (arith, total_estimate-append estimate xs ys)

emit_from-IsLongestPrefix :
    (estimate : Estimator) (budget : ℕ) (emitted : List Bytes) (bound : ℕ) (items : List Bytes)
    → budget < 2 ^ 64
    → bound ≤ budget
    → bound ≡ total_estimate estimate emitted
    → IsLongestPrefix estimate budget
        (emitted ++ items)
        (emit_from estimate budget emitted bound items)
unfolding emit_from
emit_from-IsLongestPrefix estimate budget emitted bound [] h w s = record {
  behind = [];
  prefix = refl;
  within = w;
  summed = s;
  stops = λ item later e. cc;
}
emit_from-IsLongestPrefix estimate budget emitted bound (item ∷ items) h w s =
    let total = bound + estimate item in
    elim (Bool-cases (leb total usize_max && leb total budget)) [
      | inl fits ↦
          let next =
            emit_from-IsLongestPrefix estimate budget (emitted ++ (item ∷ [])) total items h
              (ground arith)
              (omega (arith, s, total_estimate-append estimate emitted (item ∷ []))) in
          rw (fits, ← append_assoc emitted (item ∷ []) items) next
      | inr over ↦ rw over (record {
        behind = item ∷ items;
        prefix = refl;
        within = w;
        summed = s;
        stops = λ i later e. let same : item ≡ i = cc in rw (← same) (ground arith);
      })
    ]

-- `emit_within_budget` emits the longest prefix of its items whose estimates, summed, stay within a
-- budget of 64 bits, and reports that sum.
pub emit_within_budget-IsLongestPrefix :
    (estimate : Estimator) (budget : ℕ) (items : List Bytes)
    → budget < 2 ^ 64
    → IsLongestPrefix estimate budget items (emit_within_budget estimate budget items)
unfolding emit_within_budget
emit_within_budget-IsLongestPrefix estimate budget items h =
    emit_from-IsLongestPrefix estimate budget [] 0 items h (omega arith) refl

-- The estimator is subadditive, so the summed bound covers the estimate of the emitted text.
byte_ratio-concatenated :
    (items : List Bytes) → byte_ratio (concatenated items) ≤ total_estimate byte_ratio items
unfolding byte_ratio
byte_ratio-concatenated [] = omega arith
byte_ratio-concatenated (item ∷ items) =
    omega (arith, byte_ratio-concatenated items, length-append item (concatenated items))

-- The reported bound is never below the byte-ratio estimate of the emitted items in one text, and
-- never above the budget.
pub emit_within_budget_bounds :
    (budget : ℕ) (items : List Bytes)
    → budget < 2 ^ 64
    → (byte_ratio (concatenated (emit_within_budget byte_ratio budget items).items)
        ≤ (emit_within_budget byte_ratio budget items).token_upper_bound)
      × ((emit_within_budget byte_ratio budget items).token_upper_bound ≤ budget)
emit_within_budget_bounds budget items h =
    let e = emit_within_budget byte_ratio budget items in
    let p = emit_within_budget-IsLongestPrefix byte_ratio budget items h in
    (omega (arith, p.summed, byte_ratio-concatenated e.items), p.within)
