-- ===== src/Core/Trace/Counts.antt =====
-- The counts of callers: `related_declarations` and `callers_of` of crates/ktsense-core/src/trace.rs.
use ktsense.Prelude.{
  ℕ, suc, ◌+◌, ◌≡◌, refl, Bool, true, false, Bool-cases, inl, inr, Option, none, some, List, [],
  ◌∷◌, arith, if◌then◌else◌, length,
}
use ktsense.Std.Sort.{insert_by, sort_by}
use ktsense.Core.Filter.{SiteFilter}
use ktsense.Core.References.{Location, FileSkeleton, QualifiedEnclosing}
use ktsense.Core.Trace.{
  RelatedDeclaration, same_key, key_lt, count_site, entry_of, resolve_enclosing, by_declaration,
  test_le, related_declarations, is_call, calling_sites, callers_of, partition, filter_matches,
  partition_sites,
}

-- The counts of related declarations, added up.
abbrev pub site_total : List RelatedDeclaration → ℕ
site_total [] = 0
site_total (d ∷ declarations) = d.sites + site_total declarations

-- How many sites call the symbol: code sites that are not set aside.
abbrev pub calls : List Location → List Location → ℕ
calls set_aside [] = 0
calls set_aside (site ∷ references) =
    let rest = calls set_aside references in if is_call set_aside site then suc rest else rest

insert_by-total :
    (d : RelatedDeclaration) (declarations : List RelatedDeclaration)
    → site_total (insert_by test_le d declarations) ≡ d.sites + site_total declarations
unfolding insert_by
insert_by-total d [] = refl
insert_by-total d (d' ∷ declarations) = ground (arith, insert_by-total d declarations)

sort_by-total :
    (declarations : List RelatedDeclaration)
    → site_total (sort_by test_le declarations) ≡ site_total declarations
unfolding sort_by
sort_by-total [] = refl
sort_by-total (d ∷ declarations) =
    omega (arith, insert_by-total d (sort_by test_le declarations), sort_by-total declarations)

count_site-total :
    (entry : RelatedDeclaration) (declarations : List RelatedDeclaration)
    → entry.sites ≡ 0
    → site_total (count_site entry declarations) ≡ suc (site_total declarations)
unfolding count_site
count_site-total entry [] none_yet = omega arith
count_site-total entry (d ∷ declarations) none_yet = elim (Bool-cases (same_key entry d)) [
  | inl same ↦ rw same (omega arith)
  | inr differs ↦ elim (Bool-cases (key_lt entry d)) [
    | inl first ↦ rw (differs, first) (omega arith)
    | inr later ↦ rw (differs, later) (omega (arith, count_site-total entry declarations none_yet))
  ]
]

entry_of-empty :
    (site : Location) (enclosing : Option QualifiedEnclosing) → (entry_of site enclosing).sites ≡ 0
unfolding entry_of
entry_of-empty site none = refl
entry_of-empty site (some e) = refl

by_declaration-total :
    (skeletons : List FileSkeleton) (declarations : List RelatedDeclaration) (sites : List Location)
    → site_total (by_declaration skeletons declarations sites)
      ≡ site_total declarations + length sites
unfolding by_declaration
by_declaration-total skeletons declarations [] = omega arith
by_declaration-total skeletons declarations (site ∷ sites) =
    let entry = entry_of site (resolve_enclosing skeletons site) in
    omega (
      arith,
      by_declaration-total skeletons (count_site entry declarations) sites,
      count_site-total entry declarations (entry_of-empty site (resolve_enclosing skeletons site)),
    )

pub length-calling_sites :
    (set_aside references : List Location)
    → length (calling_sites set_aside references) ≡ calls set_aside references
unfolding calling_sites
length-calling_sites set_aside [] = refl
length-calling_sites set_aside (site ∷ references) =
    ground (arith, length-calling_sites set_aside references)

pub callers_of-total :
    (references set_aside : List Location) (skeletons : List FileSkeleton)
    → site_total (callers_of references set_aside skeletons) ≡ calls set_aside references
unfolding callers_of related_declarations
callers_of-total references set_aside skeletons =
    let sites = calling_sites set_aside references in
    omega (
      arith,
      sort_by-total (by_declaration skeletons [] sites),
      by_declaration-total skeletons [] sites,
      length-calling_sites set_aside references,
    )

pub test_le-total : (a b : RelatedDeclaration) → test_le a b ≡ false → test_le b a ≡ true
test_le-total a b h = ground (arith, h)

partition-calls :
    (keep : Location → Bool) (set_aside sites : List Location)
    → let (kept, dropped) = partition keep sites in
      calls set_aside kept + calls set_aside dropped ≡ calls set_aside sites
unfolding partition
partition-calls keep set_aside [] = refl
partition-calls keep set_aside (site ∷ sites) = ground (arith, partition-calls keep set_aside sites)

pub partition_sites-calls :
    (sites set_aside : List Location) (filter : Option SiteFilter)
    → let (kept, dropped) = partition_sites sites filter in
      calls set_aside kept + calls set_aside dropped ≡ calls set_aside sites
unfolding partition_sites
partition_sites-calls sites set_aside none = omega arith
partition_sites-calls sites set_aside (some filter) =
    partition-calls (filter_matches filter) set_aside sites
