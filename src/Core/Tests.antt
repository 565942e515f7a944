-- ===== src/Core/Tests.antt =====
-- Budgets and picks of crates/ktsense-core on concrete candidates.
use ktsense.Prelude.{
  ◌⊎◌, ◌++◌, inl, ◌≡◌, refl, List, [], ◌∷◌, arith, true, inr, Bytes, codes, bytes_eq, ends_with,
}
use ktsense.Core.Budget.{
  byte_ratio, emit_within_budget, IsLongestPrefix, emit_within_budget-IsLongestPrefix,
}
use ktsense.Core.Pick.{selected, position_from, match_pick, shortest_unique_suffix}
use ktsense.Core.Pick.Reach.{match_pick-shortest_unique_suffix}
use ktsense.Core.Pick.Sound.{Resolves, match_pick-Resolves}
use ktsense.Core.Filter.{
  SiteFilter, TestScope, InScope, Some, segments, is_test_file, is_test_segment, is_test_source,
  matches_path, matches_path_iff,
}

abbrev texts : List Bytes
texts = codes "class Order" ∷ codes "fun total(): Money" ∷ codes "val id" ∷ []

emit_within_budget-IsLongestPrefix_example :
    IsLongestPrefix byte_ratio 9 texts (emit_within_budget byte_ratio 9 texts)
emit_within_budget-IsLongestPrefix_example =
    emit_within_budget-IsLongestPrefix byte_ratio 9 texts (omega arith)

abbrev orders : List Bytes
orders = codes "shop.Order" ∷ codes "old.shop.Order" ∷ codes "shop.api.Order" ∷ []

-- The second candidate, whose own suffixes are shared but for the longest.
match_pick-shortest_unique_suffix_example :
    match_pick (shortest_unique_suffix (codes "old.shop.Order") orders) orders ≡ selected 1
unfolding position_from bytes_eq
match_pick-shortest_unique_suffix_example =
    match_pick-shortest_unique_suffix (codes "old.shop.Order") orders 1 (refl)

match_pick-Resolves_example :
    Resolves (codes "api.Order") orders (match_pick (codes "api.Order") orders)
match_pick-Resolves_example = match_pick-Resolves (codes "api.Order") orders

abbrev under_app : SiteFilter
under_app = record { path = codes "lib/" ∷ codes "app/" ∷ []; tests = TestScope.production }

app_kept : matches_path under_app (codes "app/src/A.kt") ≡ true
app_kept = (matches_path_iff under_app (codes "app/src/A.kt")).1 (
  inr (inr (inl (codes "src/A.kt", refl))),
  unfold is_test_source segments is_test_file is_test_segment ends_with bytes_eq in refl,
)

matches_path_iff_example :
    ((under_app.path ≡ [])
      ⊎ Some (λ prefix. (rest : Bytes) × (codes "app/src/A.kt" ≡ prefix ++ rest)) under_app.path)
    × InScope under_app.tests (codes "app/src/A.kt")
matches_path_iff_example = (matches_path_iff under_app (codes "app/src/A.kt")).0 app_kept
