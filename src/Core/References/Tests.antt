-- ===== src/Core/References/Tests.antt =====
-- Grouped references, text references and implementors of crates/ktsense-core on concrete sites.
use ktsense.Prelude.{
  ℕ, ◌≡◌, refl, true, false, Option, none, some, List, [], ◌∷◌, Bytes, codes, arith, length, All,
}
use ktsense.Std.Distinct.{Distinct}
use ktsense.Core.JavaText.{SiteKind}
use ktsense.Core.References.{
  DeclKind, Declaration, nil, cons, FileSkeleton, Location, GroupingOptions, enclosing_chain,
  declaration_span_at, declaration_starting_at, chain_enclosing, fully_qualified_enclosing,
}
use ktsense.Core.References.Spans.{last_started, start_of, line_of, enclosing_chain-IsExact}
use ktsense.Core.TextRefs.{build_grouped}
use ktsense.Core.TextRefs.Counts.{accounted_sites, Capped, build_grouped-accounts}
use ktsense.Core.Implementors.{TypeNode, SupertypeImplementor, resolve_supertype_implementors}
use ktsense.Core.Implementors.Rows.{
  witnessed, same_row_place, resolve_supertype_implementors-IsSound,
}

abbrev declared : DeclKind → Bytes → ℕ → Declaration
declared kind name line = record { kind = kind; name = name; line = line }

-- A class with two members, and a function behind it.
abbrev checkout : FileSkeleton
checkout = record {
  path = codes "Checkout.kt";
  package_name = some (codes "shop");
  imports = [];
  declarations =
      cons (declared DeclKind.class (codes "Checkout") 5)
        (cons (declared DeclKind.val (codes "id") 6) nil
          (cons (declared DeclKind.function (codes "place") 8) nil nil))
        (cons (declared DeclKind.function (codes "main") 20) nil nil);
}

inside_place :
    fully_qualified_enclosing checkout 9
    ≡ some (record { fqn = codes "shop.Checkout.place"; kind = DeclKind.function; line = 8 })
unfolding fully_qualified_enclosing chain_enclosing
inside_place = refl

enclosing_chain-IsExact_example :
    (enclosing_chain checkout.declarations 9 none ≡ last_started checkout.declarations 9)
    × (start_of (declaration_span_at checkout 9) ≡ line_of (declaration_starting_at checkout 9))
enclosing_chain-IsExact_example =
    enclosing_chain-IsExact checkout 9
      (omega arith, ((omega arith, (tt, (tt, (tt, tt)))), (tt, (tt, tt)))) (omega arith)

abbrev site_at : Bytes → ℕ → Location
site_at path line = record { path = path; line = line; column = none; kind = SiteKind.code }

abbrev five_sites : List Location
five_sites =
    site_at (codes "Checkout.kt") 9
    ∷ site_at (codes "B.kt") 3
    ∷ site_at (codes "Checkout.kt") 2
    ∷ site_at (codes "Checkout.kt") 6
    ∷ site_at (codes "Checkout.kt") 21
    ∷ []

abbrev two_each : GroupingOptions
two_each = record { limit = some 2; include_imports = false }

abbrev bare : Bytes → ℕ → Option Bytes × Option Bytes
bare path line = (some path, none)

build_grouped-accounts_example :
    let answer = build_grouped bare (codes "save") five_sites (some 2) in
    ((accounted_sites answer.groups ≡ answer.total_sites)
      × (answer.total_sites ≡ length five_sites))
    × (Capped (some 2) answer.groups × (answer.file_count ≡ length answer.groups))
build_grouped-accounts_example = build_grouped-accounts bare (codes "save") five_sites (some 2)

abbrev node_named : Bytes → ℕ → List Bytes → TypeNode
node_named name line supertypes = record {
  fqn = name;
  simple_name = name;
  path = codes "A.java";
  line = line;
  supertypes = supertypes;
}

-- B and C extend each other, and B extends the queried A.
abbrev cyclic : List TypeNode
cyclic =
    node_named (codes "C") 9 (codes "B" ∷ [])
    ∷ node_named (codes "B") 5 (codes "A" ∷ codes "C" ∷ [])
    ∷ []

resolve_supertype_implementors-IsSound_example :
    (rows : List SupertypeImplementor) × ((resolve_supertype_implementors 3 (codes "A") cyclic
        ≡ some rows)
      × (All (λ row. witnessed (codes "A") cyclic row ≡ true) rows × Distinct same_row_place rows))
resolve_supertype_implementors-IsSound_example =
    resolve_supertype_implementors-IsSound 3 (codes "A") cyclic (omega arith)
