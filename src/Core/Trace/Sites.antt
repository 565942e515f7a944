-- ===== src/Core/Trace/Sites.antt =====
-- Which sites call the symbol, which are usages and which a filter keeps: crates/ktsense-core/src/trace.rs.
use ktsense.Prelude.{
  ◌≡◌, ◌↔◌, ◌⊎◌, refl, ap, ◌++◌, Bytes, bytes_eq_iff, All, Bool, true, false, Bool-cases, inl, inr,
  Option, none, some, List, [], ◌∷◌, arith,
}
use ktsense.Std.Split.{Split, none_left, to_left, to_right}
use ktsense.Core.JavaText.{SiteKind}
use ktsense.Core.Filter.{SiteFilter, Some, InScope, any, matches_path, matches_path_iff}
use ktsense.Core.References.{Location}
use ktsense.Core.Trace.{
  is_call, calling_sites, partition, filter_matches, partition_sites, partition_by_kind,
  excluded_site, same_site, is_code_site,
}

-- Two sites stand on one line of one file.
abbrev pub SamePlace : Location → Location → Type 0
SamePlace a b = (a.path ≡ b.path) × (a.line ≡ b.line)

same_site_iff : (a b : Location) → (same_site a b ≡ true) ↔ SamePlace a b
unfolding same_site
same_site_iff a b =
    let (to, from) = bytes_eq_iff a.path b.path in
    (λ h. (to (ground arith), ground arith), λ e. ground (arith, from e.0, e.1))

is_code_site_iff : (kind : SiteKind) → (is_code_site kind ≡ true) ↔ (kind ≡ SiteKind.code)
is_code_site_iff SiteKind.code = (λ h. refl, λ e. refl)
is_code_site_iff SiteKind.comment = (λ h. cc, λ e. ap is_code_site e)
is_code_site_iff SiteKind.kdoc = (λ h. cc, λ e. ap is_code_site e)
is_code_site_iff SiteKind.string = (λ h. cc, λ e. ap is_code_site e)
is_code_site_iff SiteKind.declaration_name = (λ h. cc, λ e. ap is_code_site e)

-- A site of the list of usages: code, or on the line of the definition.
abbrev pub IsUsage : Location → Location → Type 0
IsUsage definition site = (site.kind ≡ SiteKind.code) ⊎ SamePlace site definition

abbrev pub NoUsage : Location → Location → Type 0
NoUsage definition site = ¬ IsUsage definition site

-- A call of the symbol: code that stands on the line of none of the sites that are set aside.
abbrev pub IsCall : List Location → Location → Type 0
IsCall set_aside site =
    (site.kind ≡ SiteKind.code) × All (λ excluded. ¬ SamePlace excluded site) set_aside

abbrev pub NoCall : List Location → Location → Type 0
NoCall set_aside site = ¬ IsCall set_aside site

-- What a filter keeps: sites of its scope whose path begins with one of its prefixes, if it has any.
abbrev pub Admitted : Option SiteFilter → Location → Type 0
Admitted none site = Unit
Admitted (some filter) site =
    ((filter.path ≡ [])
      ⊎ Some (λ prefix. (rest : Bytes) × (site.path ≡ prefix ++ rest)) filter.path)
    × InScope filter.tests site.path

abbrev pub Refused : Option SiteFilter → Location → Type 0
Refused filter site = ¬ Admitted filter site

abbrev pub same : Location → Location
same site = site

-- A test of sites that decides a property.
abbrev pub Decides : (Location → Bool) → (Location → Type 0) → Type 0
Decides test P = (site : Location) → (test site ≡ true) ↔ P site

pub refuses :
    (test : Location → Bool) (P : Location → Type 0) (site : Location)
    → Decides test P
    → test site ≡ false
    → ¬ P site
refuses test P site decides h p = let yes = (decides site).1 p in cc

partition-Split :
    (keep : Location → Bool) (P : Location → Type 0) (sites : List Location)
    → Decides keep P
    → Split P (λ site. ¬ P site) same sites (partition keep sites).0 (partition keep sites).1
unfolding partition
partition-Split keep P [] decides = none_left
partition-Split keep P (site ∷ sites) decides = elim (Bool-cases (keep site)) [
  | inl kept ↦ rw kept (to_left site ((decides site).0 kept) (partition-Split keep P sites decides))
  | inr dropped ↦
      rw dropped
        (to_right site (refuses keep P site decides dropped) (partition-Split keep P sites decides))
]

everything-kept : (sites : List Location) → Split (Admitted none) (Refused none) same sites sites []
everything-kept [] = none_left
everything-kept (site ∷ sites) = to_left site tt (everything-kept sites)

pub partition_sites-Split :
    (sites : List Location) (filter : Option SiteFilter)
    → Split
        (Admitted filter)
        (Refused filter)
        same
        sites
        (partition_sites sites filter).0
        (partition_sites sites filter).1
unfolding partition_sites
partition_sites-Split sites none = everything-kept sites
partition_sites-Split sites (some filter) =
    partition-Split (filter_matches filter) (Admitted (some filter)) sites
      (λ site. unfold filter_matches in unfold matches_path in matches_path_iff filter site.path)

pub partition_by_kind-Split :
    (references : List Location) (definition : Location)
    → Split
        (IsUsage definition)
        (NoUsage definition)
        excluded_site
        references
        (partition_by_kind references definition).0
        (partition_by_kind references definition).1
unfolding partition_by_kind
partition_by_kind-Split [] definition = none_left
partition_by_kind-Split (site ∷ references) definition =
    let rest = partition_by_kind-Split references definition in
    let (code_to, code_from) = is_code_site_iff site.kind in
    let (at_to, at_from) = same_site_iff site definition in
    elim (Bool-cases (is_code_site site.kind)) [
      | inl code ↦ rw code (to_left site (inl (code_to code)) rest)
      | inr text ↦ elim (Bool-cases (same_site site definition)) [
        | inl at ↦ rw (text, at) (to_left site (inr (at_to at)) rest)
        | inr away ↦
            rw (text, away)
              (to_right site
                (λ u. elim u [
                  | inl code ↦ absurd (ground (arith, code_from code))
                  | inr at ↦ absurd (ground (arith, at_from at))
                ])
                rest)
      ]
    ]

set_aside_iff :
    (site : Location) (set_aside : List Location)
    → (any (λ excluded. same_site excluded site) set_aside ≡ false)
      ↔ All (λ excluded. ¬ SamePlace excluded site) set_aside
set_aside_iff site [] = (λ h. tt, λ h. refl)
set_aside_iff site (excluded ∷ set_aside) =
    let (to, from) = set_aside_iff site set_aside in
    let (at_to, at_from) = same_site_iff excluded site in
    elim (Bool-cases (same_site excluded site)) [
      | inl at ↦ rw at (λ h. cc, λ h. absurd (h.0 (at_to at)))
      | inr away ↦ rw away (λ h. (λ p. absurd (ground (arith, at_from p)), to h), λ h. from h.1)
    ]

is_call_iff : (set_aside : List Location) → Decides (is_call set_aside) (IsCall set_aside)
unfolding is_call
is_call_iff set_aside site =
    let (code_to, code_from) = is_code_site_iff site.kind in
    let (to, from) = set_aside_iff site set_aside in
    (λ h. (code_to (ground arith), to (ground arith)), λ p. ground (arith, code_from p.0, from p.1))

pub calling_sites-Split :
    (set_aside references : List Location)
    → (others : List Location) × Split
        (IsCall set_aside)
        (NoCall set_aside)
        same
        references
        (calling_sites set_aside references)
        others
unfolding calling_sites
calling_sites-Split set_aside [] = ([], none_left)
calling_sites-Split set_aside (site ∷ references) =
    let (others, rest) = calling_sites-Split set_aside references in
    elim (Bool-cases (is_call set_aside site)) [
      | inl call ↦ rw call (others, to_left site ((is_call_iff set_aside site).0 call) rest)
      | inr other ↦ rw other (
        site ∷ others,
        to_right site
            (refuses (is_call set_aside) (IsCall set_aside) site (is_call_iff set_aside) other)
            rest,
      )
    ]
