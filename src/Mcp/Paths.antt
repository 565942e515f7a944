-- ===== src/Mcp/Paths.antt =====
-- The comparisons of `std::path` that crates/ktsense-mcp/src makes, on Unix: by whole components, which is
-- how `starts_with` reads a path and how a `HashSet<PathBuf>` takes two for equal. A path is its text.
use ktsense.Prelude.{
  ◌≡◌, ◌↔◌, refl, ap, sym, ◌∙◌, Bool, true, false, ◌&&◌, ◌||◌, List, [], ◌∷◌, arith, if◌then◌else◌,
  Bytes, bytes_eq, bytes_eq_iff, codes, ◌==◌,
}
use ktsense.Std.Str.{split}

unfoldable pub is_absolute : Bytes → Bool
is_absolute [] = false
is_absolute (c ∷ path) = c == b'/'

-- Repeated slashes, a slash at the end and `.` count for nothing.
abbrev pub solid_components : List Bytes → List Bytes
unfolding bytes_eq
solid_components [] = []
solid_components (part ∷ parts) =
    let rest = solid_components parts in
    if bytes_eq part [] || bytes_eq part (codes ".") then rest else part ∷ rest

-- A `.` at the start of a relative path is a component.
abbrev pub relative_components : List Bytes → List Bytes
unfolding bytes_eq
relative_components [] = []
relative_components (part ∷ parts) =
    if bytes_eq part (codes ".")
    then part ∷ solid_components parts
    else solid_components (part ∷ parts)

-- The root directory is the component `/`, which no part between slashes can be.
unfoldable pub components : Bytes → List Bytes
unfolding split is_absolute
components path =
    if is_absolute path
    then codes "/" ∷ solid_components (split (codes "/") path)
    else relative_components (split (codes "/") path)

abbrev pub begins_with : List Bytes → List Bytes → Bool
begins_with parts [] = true
begins_with [] (prefix ∷ prefixes) = false
begins_with (part ∷ parts) (prefix ∷ prefixes) = bytes_eq part prefix && begins_with parts prefixes

unfoldable pub path_starts_with : Bytes → Bytes → Bool
unfolding components
path_starts_with path base = begins_with (components path) (components base)

unfoldable pub same_components : List Bytes → List Bytes → Bool
unfolding bytes_eq
same_components [] [] = true
same_components [] (part ∷ parts) = false
same_components (part ∷ parts) [] = false
same_components (a ∷ parts) (b ∷ others) = bytes_eq a b && same_components parts others

-- `==` on paths
unfoldable pub same_path : Bytes → Bytes → Bool
unfolding same_components components
same_path a b = same_components (components a) (components b)

same_components-eq : (a b : List Bytes) → same_components a b ≡ true → a ≡ b
unfolding same_components
same_components-eq [] [] h = refl
same_components-eq [] (part ∷ parts) h = cc
same_components-eq (part ∷ parts) [] h = cc
same_components-eq (a ∷ parts) (b ∷ others) h =
    let heads : bytes_eq a b ≡ true = ground arith in
    let tails : same_components parts others ≡ true = ground arith in
    let tail = same_components-eq parts others tails in let head = (bytes_eq_iff a b).0 heads in cc

same_components_self : (a : List Bytes) → same_components a a ≡ true
unfolding same_components
same_components_self [] = refl
same_components_self (a ∷ parts) =
    ground (arith, (bytes_eq_iff a a).1 refl, same_components_self parts)

same_path_iff : (a b : Bytes) → (same_path a b ≡ true) ↔ (components a ≡ components b)
unfolding same_path
same_path_iff a b = (
  λ h. same_components-eq (components a) (components b) h,
  λ e. ap (same_components (components a)) (sym e) ∙ same_components_self (components a),
)

pub same_path_self : (a : Bytes) → same_path a a ≡ true
same_path_self a = (same_path_iff a a).1 refl

-- Equal paths are equal to the same paths.
pub same_path-right :
    (known a b : Bytes) → same_path a b ≡ true → same_path known a ≡ same_path known b
unfolding same_path
same_path-right known a b h = ap (same_components (components known)) ((same_path_iff a b).0 h)
