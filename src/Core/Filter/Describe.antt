-- ===== src/Core/Filter/Describe.antt =====
-- The heading phrase of a filter: `SiteFilter::describe` of crates/ktsense-core/src/filter.rs.
use ktsense.Prelude.{◌≡◌, ◌≢◌, Option, none, some, List, [], ◌∷◌, ◌++◌, Bytes, codes}
use ktsense.Core.Filter.{TestScope, all, tests, production, SiteFilter, new}

-- `join(", ")`
abbrev pub joined_paths : List Bytes → Bytes
joined_paths [] = []
joined_paths (p ∷ []) = p
joined_paths (p ∷ q ∷ ps) = p ++ (codes ", " ++ joined_paths (q ∷ ps))

abbrev pub path_phrase : List Bytes → Option Bytes
path_phrase [] = none
path_phrase (p ∷ ps) = some (codes "under " ++ joined_paths (p ∷ ps))

abbrev pub scope_phrase : TestScope → Option Bytes
scope_phrase all = none
scope_phrase tests = some (codes "in tests")
scope_phrase production = some (codes "in production")

abbrev pub phrase_of : Option Bytes → Option Bytes → Bytes
phrase_of (some path) (some scope) = path ++ (codes " " ++ scope)
phrase_of (some path) none = path
phrase_of none (some scope) = scope
phrase_of none none = []

pub describe : SiteFilter → Bytes
describe filter = phrase_of (path_phrase filter.path) (scope_phrase filter.tests)

phrase_of-new :
    (path : List Bytes) (scope : TestScope) (f : SiteFilter)
    → new path scope ≡ some f
    → phrase_of (path_phrase path) (scope_phrase scope) ≢ []
unfolding new
phrase_of-new [] all f e = cc
phrase_of-new [] tests f e = λ h. cc
phrase_of-new [] production f e = λ h. cc
phrase_of-new (p ∷ ps) all f e = λ h. cc
phrase_of-new (p ∷ ps) tests f e = λ h. cc
phrase_of-new (p ∷ ps) production f e = λ h. cc
