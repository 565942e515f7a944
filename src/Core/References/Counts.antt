-- ===== src/Core/References/Counts.antt =====
-- The counts and the order of grouped references: `group_references` and `capped_references` of
-- crates/ktsense-core/src/references.rs.
use mathlib.Core.List.{Perm}
use ktsense.Prelude.{
  ℕ, zero, suc, ◌+◌, ◌-◌, ◌≤◌, ◌≡◌, refl, ap, ◌∙◌, Bool, true, false, not, ◌||◌, Option, none, some,
  List, [], ◌∷◌, map, arith, if◌then◌else◌, Bytes, length, length-take, take,
}
use ktsense.Std.Sort.{sort_by, sort_by-perm, sort_by-Ordered, length-sort_by, Ordered}
use ktsense.Core.ByPath.{by_path_from, by_path_from-total, total, total_by_path}
use ktsense.Core.References.{
  FileSkeleton, Location, GroupingOptions, Reference, ReferenceGroup, in_header, column_le,
  reference_le, header_boundary, kept_references, truncated, capped_references, skeleton_of,
  location_path, group_of, group_references,
}

-- Whether a site of a file counts: 0 for one in the header, unless these are wanted.
unfoldable pub counted : List FileSkeleton → Bool → Bytes → Location → ℕ
unfolding in_header
counted skeletons include_imports path location =
    if include_imports
      || not (in_header (header_boundary (skeleton_of skeletons path)) location.line)
    then 1
    else 0

abbrev pub accounted : List ReferenceGroup → ℕ
accounted [] = 0
accounted (g ∷ groups) = (length g.references + g.omitted) + accounted groups

pub truncated-accounts {ℓ} :
    {A : Type ℓ} (limit : Option ℕ) (xs : List A)
    → length (truncated limit xs).0 + (truncated limit xs).1 ≡ length xs
truncated-accounts none xs = omega arith
truncated-accounts (some limit) xs = ground (arith, length-take limit xs)

pub truncated-limit {ℓ} :
    {A : Type ℓ} (limit : ℕ) (xs : List A) → length (truncated (some limit) xs).0 ≤ limit
truncated-limit limit xs = ground (arith, length-take limit xs)

take-long : {A : Type 0} (limit : ℕ) (xs : List A) → length xs ≤ limit → take limit xs ≡ xs
take-long zero [] h = refl
take-long zero (x ∷ xs) h = absurd (omega arith)
take-long (suc limit) [] h = refl
take-long (suc limit) (x ∷ xs) h = ap (λ l. x ∷ l) (take-long limit xs (omega arith))

truncated-take :
    {A : Type 0} (limit : ℕ) (xs : List A)
    → ((truncated (some limit) xs).0 ≡ take limit xs)
      × ((truncated (some limit) xs).1 ≡ length xs - limit)
truncated-take limit xs = ground (arith, take-long limit xs)

kept_references-counted :
    (skeletons : List FileSkeleton) (include_imports : Bool) (path : Bytes) (sites : List Location)
    → length (kept_references (skeleton_of skeletons path) include_imports sites)
      ≡ total (counted skeletons include_imports path) sites
unfolding kept_references counted
kept_references-counted skeletons include_imports path [] = refl
kept_references-counted skeletons include_imports path (location ∷ sites) =
    ground (arith, kept_references-counted skeletons include_imports path sites)

group_of-accounts :
    (skeletons : List FileSkeleton) (options : GroupingOptions) (path : Bytes)
    (sites : List Location)
    → let g = group_of skeletons options (path, sites) in
      length g.references + g.omitted ≡ total (counted skeletons options.include_imports path) sites
unfolding group_of capped_references
group_of-accounts skeletons options path sites =
    let kept = kept_references (skeleton_of skeletons path) options.include_imports sites in
    truncated-accounts options.limit (sort_by reference_le kept)
    ∙ length-sort_by reference_le kept
    ∙ kept_references-counted skeletons options.include_imports path sites

groups-accounted :
    (skeletons : List FileSkeleton) (options : GroupingOptions)
    (entries : List (Bytes × List Location))
    → accounted (map (group_of skeletons options) entries)
      ≡ total_by_path (counted skeletons options.include_imports) entries
groups-accounted skeletons options [] = refl
groups-accounted skeletons options ((path, sites) ∷ entries) = omega (
  arith,
  group_of-accounts skeletons options path sites,
  groups-accounted skeletons options entries,
)

-- Whatever the cap, the references that the groups show and the counts of those that it dropped add up
-- to the sites outside the headers of their files, or to all sites when the headers are wanted.
pub group_references-accounts :
    (locations : List Location) (skeletons : List FileSkeleton) (options : GroupingOptions)
    → accounted (group_references locations skeletons options)
      ≡ total
          (λ location. counted skeletons options.include_imports location.path location)
          locations
unfolding group_references
group_references-accounts locations skeletons options =
    groups-accounted skeletons options (by_path_from location_path [] locations)
    ∙ by_path_from-total (counted skeletons options.include_imports) location_path [] locations
    ∙ omega arith

column_le-total : (a b : Option ℕ) → column_le a b ≡ false → column_le b a ≡ true
column_le-total none b h = cc
column_le-total (some a) none h = refl
column_le-total (some a) (some b) h = ground arith

reference_le-total : (a b : Reference) → reference_le a b ≡ false → reference_le b a ≡ true
unfolding reference_le
reference_le-total a b h = ground (arith, column_le-total a.column b.column)

-- Without a cap, the references of a file are its sites outside the header, each as often as it was
-- found, in the order of line and column, and none is dropped; with one, they are the first of these.
pub capped_references-Ordered :
    (sites : List Location) (skeleton : Option FileSkeleton) (include_imports : Bool) (limit : ℕ)
    → let all =
        capped_references sites skeleton
          (record { limit = none; include_imports = include_imports }) in
      let kept =
        capped_references sites skeleton
          (record { limit = some limit; include_imports = include_imports }) in
      (Perm all.0 (kept_references skeleton include_imports sites) × Ordered reference_le all.0)
      × ((kept.0 ≡ take limit all.0) × (kept.1 ≡ length all.0 - limit))
unfolding capped_references
capped_references-Ordered sites skeleton include_imports limit =
    let kept = kept_references skeleton include_imports sites in
    (
      (sort_by-perm reference_le kept, sort_by-Ordered reference_le reference_le-total kept),
      truncated-take limit (sort_by reference_le kept),
    )
