-- ===== src/Core/Trace/Tests.antt =====
-- Callers and usages of crates/ktsense-core/src/trace.rs on concrete sites.
use ktsense.Prelude.{ℕ, ◌≡◌, refl, true, false, none, some, List, [], ◌∷◌, Bytes, codes}
use ktsense.Core.JavaText.{SiteKind}
use ktsense.Core.Filter.{TestScope, SiteFilter}
use ktsense.Core.References.{DeclKind, nil, cons, FileSkeleton, Location}
use ktsense.Core.Trace.{is_call, entry_of, callers_of}
use ktsense.Std.Split.{Split}

abbrev site_at : Bytes → ℕ → SiteKind → Location
site_at path line kind = record { path = path; line = line; column = none; kind = kind }

abbrev placed : Location
placed = site_at (codes "src/main/Order.kt") 3 SiteKind.declaration_name

-- Two calls from one function, a comment, a test, and the definition itself.
abbrev order_sites : List Location
order_sites =
    site_at (codes "src/test/OrderTest.kt") 7 SiteKind.code
    ∷ site_at (codes "src/main/Shop.kt") 5 SiteKind.code
    ∷ site_at (codes "src/main/Shop.kt") 6 SiteKind.code
    ∷ site_at (codes "src/main/Shop.kt") 1 SiteKind.comment
    ∷ placed
    ∷ []

abbrev shop : FileSkeleton
shop = record {
  path = codes "src/main/Shop.kt";
  package_name = some (codes "shop");
  imports = [];
  declarations = cons (record { kind = DeclKind.function; name = codes "sell"; line = 4 }) nil nil;
}

abbrev only_tests : SiteFilter
only_tests = record { path = []; tests = TestScope.tests }

direct_callers :
    callers_of order_sites (placed ∷ []) (shop ∷ [])
    ≡ record {
      path = codes "src/main/Shop.kt";
      line = 4;
      qualified_name = some (codes "shop.sell");
      kind = some DeclKind.function;
      sites = 2;
      test = false;
    }
      ∷ record {
        path = codes "src/test/OrderTest.kt";
        line = 7;
        qualified_name = none;
        kind = none;
        sites = 1;
        test = true;
      }
      ∷ []
unfolding callers_of is_call entry_of
direct_callers = refl
