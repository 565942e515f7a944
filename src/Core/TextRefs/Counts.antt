-- ===== src/Core/TextRefs/Counts.antt =====
-- The counts of text references: `build_grouped` of crates/ktsense-core/src/text_refs.rs.
use ktsense.Prelude.{
  ℕ, suc, ◌+◌, ◌≤◌, ◌≡◌, refl, ap, ◌∙◌, Option, none, some, List, [], ◌∷◌, map, arith, Bytes,
  length,
}
use ktsense.Std.Sort.{sort_by, length-sort_by}
use ktsense.Core.ByPath.{by_path_from, by_path_from-total, total, total_by_path}
use ktsense.Core.References.{Location, location_path, truncated}
use ktsense.Core.References.Counts.{truncated-accounts, truncated-limit}
use ktsense.Core.TextRefs.{TextReferenceGroup, site_le, site_of, text_group, build_grouped}

abbrev pub accounted_sites : List TextReferenceGroup → ℕ
accounted_sites [] = 0
accounted_sites (g ∷ groups) = (length g.sites + g.omitted) + accounted_sites groups

length-map {ℓ κ} :
    {A : Type ℓ} {B : Type κ} (f : A → B) (xs : List A) → length (map f xs) ≡ length xs
length-map f [] = refl
length-map f (x ∷ xs) = ap suc (length-map f xs)

total-one : (sites : List Location) → total (λ site. 1) sites ≡ length sites
total-one [] = refl
total-one (site ∷ sites) = omega (arith, total-one sites)

-- No file shows more than the cap allows.
abbrev pub Capped : Option ℕ → List TextReferenceGroup → Type 0
Capped none groups = Unit
Capped (some limit) [] = Unit
Capped (some limit) (g ∷ groups) = (length g.sites ≤ limit) × Capped (some limit) groups

module _ (attribute : Bytes → ℕ → Option Bytes × Option Bytes) where
  text_group-accounts :
      (limit : Option ℕ) (path : Bytes) (sites : List Location)
      → let g = text_group attribute limit (path, sites) in
        length g.sites + g.omitted ≡ total (λ site. 1) sites
  unfolding text_group
  text_group-accounts limit path sites =
      let sorted = sort_by site_le sites in
      omega (
        arith,
        length-map (site_of attribute path) (truncated limit sorted).0,
        truncated-accounts limit sorted,
        length-sort_by site_le sites,
        total-one sites,
      )

  groups-accounted :
      (limit : Option ℕ) (entries : List (Bytes × List Location))
      → accounted_sites (map (text_group attribute limit) entries)
        ≡ total_by_path (λ path site. 1) entries
  groups-accounted limit [] = refl
  groups-accounted limit ((path, sites) ∷ entries) =
      omega (arith, text_group-accounts limit path sites, groups-accounted limit entries)

  groups-Capped :
      (limit : Option ℕ) (entries : List (Bytes × List Location))
      → Capped limit (map (text_group attribute limit) entries)
  unfolding text_group
  groups-Capped none entries = tt
  groups-Capped (some limit) [] = tt
  groups-Capped (some limit) ((path, sites) ∷ entries) = (
    omega (
      arith,
      length-map (site_of attribute path) (truncated (some limit) (sort_by site_le sites)).0,
      truncated-limit limit (sort_by site_le sites),
    ),
    groups-Capped (some limit) entries,
  )

  -- Whatever the caller shows beside a site: the sites that are shown and those that the caps hid add
  -- up to the total of the heading, no file shows more than its cap, and the heading counts the groups.
  pub build_grouped-accounts :
      (symbol : Bytes) (sites : List Location) (limit : Option ℕ)
      → let answer = build_grouped attribute symbol sites limit in
        ((accounted_sites answer.groups ≡ answer.total_sites) × (answer.total_sites ≡ length sites))
        × (Capped limit answer.groups × (answer.file_count ≡ length answer.groups))
  unfolding build_grouped
  build_grouped-accounts symbol sites limit =
      let entries = by_path_from location_path [] sites in
      (
        (
          groups-accounted limit entries
              ∙ by_path_from-total (λ path site. 1) location_path [] sites
              ∙ omega (arith, total-one sites),
          refl,
        ),
        (groups-Capped limit entries, refl),
      )
