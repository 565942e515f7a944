-- ===== src/Core/Annotated.antt =====
-- Grouping annotated declarations by file: crates/ktsense-core/src/annotated.rs. Names and paths are
-- bytes; the kind of a declaration, which is only carried along, is a type parameter.
use ktsense.Prelude.{
  ℕ, suc, ◌+◌, ◌≡◌, refl, ap, sym, ◌∙◌, arith, Bool, true, false, List, [], ◌∷◌, ◌++◌, ltb, ◌==◌,
  if◌then◌else◌, Bytes, bytes_eq, length, length-append, map,
}
use ktsense.Core.TextSearch.{bytes_lt}

pub record AnnotatedDeclaration {ℓ} (K : Type ℓ) : Type ℓ where
  pub path : Bytes
  pub line : ℕ
  pub fqn : Bytes
  pub kind : K

pub record AnnotatedMember {ℓ} (K : Type ℓ) : Type ℓ where
  pub line : ℕ
  pub fqn : Bytes
  pub kind : K

pub record AnnotatedGroup {ℓ} (K : Type ℓ) : Type ℓ where
  pub path : Bytes
  pub declarations : List (AnnotatedMember K)

pub record AnnotatedDeclarations {ℓ} (K : Type ℓ) : Type ℓ where
  pub annotation : Bytes
  pub total : ℕ
  pub file_count : ℕ
  pub groups : List (AnnotatedGroup K)

module _ {ℓ} {K : Type ℓ} where
  abbrev pub has_none : AnnotatedDeclarations K → Bool
  has_none d = d.total == 0

  -- `entry(path).or_default().push(declaration)` on the map in its order
  unfoldable pub add_declaration :
      AnnotatedDeclaration K
      → List (Bytes × List (AnnotatedDeclaration K))
      → List (Bytes × List (AnnotatedDeclaration K))
  unfolding bytes_eq
  add_declaration d [] = (d.path, d ∷ []) ∷ []
  add_declaration d ((path, members) ∷ groups) =
      let rest = add_declaration d groups in
      if bytes_eq d.path path
      then (path, members ++ (d ∷ [])) ∷ groups
      else if bytes_lt d.path path
      then (d.path, d ∷ []) ∷ (path, members) ∷ groups
      else (path, members) ∷ rest

  unfoldable pub declarations_by_path :
      List (Bytes × List (AnnotatedDeclaration K))
      → List (AnnotatedDeclaration K)
      → List (Bytes × List (AnnotatedDeclaration K))
  unfolding add_declaration
  declarations_by_path groups [] = groups
  declarations_by_path groups (d ∷ declarations) =
      declarations_by_path (add_declaration d groups) declarations

  -- `(line, fqn)`, in order
  abbrev pub stands_before : AnnotatedDeclaration K → AnnotatedDeclaration K → Bool
  stands_before a b =
      if ltb a.line b.line then true else if a.line == b.line then bytes_lt a.fqn b.fqn else false

  -- `sort_by`, which is stable
  unfoldable pub insert_member :
      AnnotatedDeclaration K → List (AnnotatedDeclaration K) → List (AnnotatedDeclaration K)
  insert_member d [] = d ∷ []
  insert_member d (m ∷ members) =
      let rest = insert_member d members in if stands_before m d then m ∷ rest else d ∷ m ∷ members

  unfoldable pub sort_members : List (AnnotatedDeclaration K) → List (AnnotatedDeclaration K)
  unfolding insert_member
  sort_members [] = []
  sort_members (d ∷ members) = insert_member d (sort_members members)

  abbrev pub member_of : AnnotatedDeclaration K → AnnotatedMember K
  member_of d = record { line = d.line; fqn = d.fqn; kind = d.kind }

  unfoldable pub annotated_group : Bytes × List (AnnotatedDeclaration K) → AnnotatedGroup K
  unfolding sort_members
  annotated_group (path, members) = record {
    path = path;
    declarations = map member_of (sort_members members);
  }

  pub build_annotated : Bytes → List (AnnotatedDeclaration K) → AnnotatedDeclarations K
  unfolding declarations_by_path annotated_group
  build_annotated annotation declarations =
      let groups = map annotated_group (declarations_by_path [] declarations) in
      record {
        annotation = annotation;
        total = length declarations;
        file_count = length groups;
        groups = groups;
      }

  abbrev pub listed : List (AnnotatedGroup K) → ℕ
  listed [] = 0
  listed (g ∷ groups) = length g.declarations + listed groups

  abbrev pub members_in : List (Bytes × List (AnnotatedDeclaration K)) → ℕ
  members_in [] = 0
  members_in ((path, members) ∷ groups) = length members + members_in groups

  add_declaration-members_in :
      (d : AnnotatedDeclaration K) (groups : List (Bytes × List (AnnotatedDeclaration K)))
      → members_in (add_declaration d groups) ≡ suc (members_in groups)
  unfolding add_declaration
  add_declaration-members_in d [] = refl
  add_declaration-members_in d ((path, members) ∷ groups) =
      ground (arith, add_declaration-members_in d groups, length-append members (d ∷ []))

  declarations_by_path-members_in :
      (groups : List (Bytes × List (AnnotatedDeclaration K)))
      (declarations : List (AnnotatedDeclaration K))
      → members_in (declarations_by_path groups declarations)
        ≡ members_in groups + length declarations
  unfolding declarations_by_path
  declarations_by_path-members_in groups [] = omega arith
  declarations_by_path-members_in groups (d ∷ declarations) = omega (
    arith,
    declarations_by_path-members_in (add_declaration d groups) declarations,
    add_declaration-members_in d groups,
  )

  length-insert_member :
      (d : AnnotatedDeclaration K) (members : List (AnnotatedDeclaration K))
      → length (insert_member d members) ≡ suc (length members)
  unfolding insert_member
  length-insert_member d [] = refl
  length-insert_member d (m ∷ members) = ground (arith, length-insert_member d members)

  length-members :
      (members : List (AnnotatedDeclaration K))
      → length (map member_of (sort_members members)) ≡ length members
  unfolding sort_members
  length-members [] = refl
  length-members (d ∷ members) =
      length-map (insert_member d (sort_members members))
      ∙ length-insert_member d (sort_members members)
      ∙ ap suc (sym (length-map (sort_members members)) ∙ length-members members)
    where
      length-map :
          (members : List (AnnotatedDeclaration K))
          → length (map member_of members) ≡ length members
      length-map [] = refl
      length-map (m ∷ members) = ap suc (length-map members)

  groups-listed :
      (groups : List (Bytes × List (AnnotatedDeclaration K)))
      → listed (map annotated_group groups) ≡ members_in groups
  unfolding annotated_group
  groups-listed [] = refl
  groups-listed ((path, members) ∷ groups) =
      omega (arith, length-members members, groups-listed groups)

  -- Each annotated declaration is listed once: the groups' declarations add up to the total of the
  -- heading, which is the number of declarations that were found.
  pub build_annotated-accounts :
      (annotation : Bytes) (declarations : List (AnnotatedDeclaration K))
      → (listed (build_annotated annotation declarations).groups
          ≡ (build_annotated annotation declarations).total)
        × ((build_annotated annotation declarations).total ≡ length declarations)
  unfolding build_annotated
  build_annotated-accounts annotation declarations = (
    groups-listed (declarations_by_path [] declarations)
        ∙ declarations_by_path-members_in [] declarations
        ∙ omega arith,
    refl,
  )
