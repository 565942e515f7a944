-- ===== src/Core/Implementors/Rows.antt =====
-- The rows of the closure of crates/ktsense-core/src/implementors.rs.

use mathlib.Core.Path.{subst}
use ktsense.Prelude.{
  ℕ, zero, suc, ◌≤◌, ◌≡◌, refl, ap, ap₂, sym, ◌∙◌, Bool, true, false, ◌&&◌, ◌||◌, Bool-cases, inl,
  inr, Option, none, some, List, [], ◌∷◌, arith, leb, ◌==◌, Bytes, bytes_eq, bytes_eq_iff, length,
  All, All-append, All-mono,
}
use ktsense.Std.Distinct.{Distinct, Distinct-append}
use ktsense.Std.Sort.{sort_by, sort_by-All}
use ktsense.Core.Implementors.Bounds.{same_location_refl, resolve_supertype_implementors-ends}
use ktsense.Core.Implementors.{
  TypeNode, SupertypeImplementor, copies, children_of, node_le, same_location, has_location,
  has_name, Closure, location_of, row_of, emit, emit_all, expand, walk, at_start,
  resolve_supertype_implementors, depth_cap,
}

-- The clause of the node names the parent.
abbrev pub names : Bytes → List Bytes → Bool
names parent [] = false
names parent (supertype ∷ supertypes) = bytes_eq supertype parent || names parent supertypes

-- The parent that a row was reached through.
abbrev pub parent_of : Bytes → SupertypeImplementor → Bytes
parent_of target row = elim row.via [ none ↦ target | some parent ↦ parent ]

abbrev pub shows : SupertypeImplementor → TypeNode → Bool
shows row node = bytes_eq row.fqn node.fqn && (bytes_eq row.path node.path && row.line == node.line)

-- Some node is the row's, and its clause names the parent of the row.
abbrev pub witnessed : Bytes → List TypeNode → SupertypeImplementor → Bool
witnessed target [] row = false
witnessed target (node ∷ nodes) row =
    (shows row node && names (parent_of target row) node.supertypes) || witnessed target nodes row

abbrev row_place : SupertypeImplementor → Bytes × ℕ
row_place row = (row.path, row.line)

abbrev pub same_row_place : SupertypeImplementor → SupertypeImplementor → Bool
same_row_place a b = same_location (a.path, a.line) (b.path, b.line)

bytes_eq_refl : (a : Bytes) → bytes_eq a a ≡ true
bytes_eq_refl a = (bytes_eq_iff a a).1 refl

module _ (target parent : Bytes) where
  parent_of-row_of : (node : TypeNode) → parent_of target (row_of target parent node) ≡ parent
  unfolding row_of
  parent_of-row_of node = elim (Bool-cases (bytes_eq parent target)) [
    | inl direct ↦ rw direct (sym ((bytes_eq_iff parent target).0 direct))
    | inr through ↦ rw through refl
  ]

  shows-row_of : (node : TypeNode) → shows (row_of target parent node) node ≡ true
  unfolding row_of
  shows-row_of node = ground (arith, bytes_eq_refl node.fqn, bytes_eq_refl node.path)

  module _ (P : TypeNode → Type 0) (node : TypeNode) where
    copies-named :
        (supertypes : List Bytes) (rest : List TypeNode)
        → (names parent supertypes ≡ true → P node)
        → All P rest
        → All P (copies parent node supertypes rest)
    copies-named [] rest p h = h
    copies-named (supertype ∷ supertypes) rest p h = elim (Bool-cases (bytes_eq supertype parent)) [
      | inl named ↦
          rw named (p (ground arith), copies-named supertypes rest (λ n. p (ground arith)) h)
      | inr other ↦ rw other (copies-named supertypes rest (λ n. p (ground arith)) h)
    ]

  Reached : List TypeNode → TypeNode → Type 0
  Reached nodes node = witnessed target nodes (row_of target parent node) ≡ true

  children_of-Reached : (nodes : List TypeNode) → All (Reached nodes) (children_of nodes parent)
  unfolding children_of Reached
  children_of-Reached [] = tt
  children_of-Reached (node ∷ nodes) =
      copies-named (Reached (node ∷ nodes)) node node.supertypes (children_of nodes parent)
        (λ n. ground (arith, shows-row_of node, parent_of-row_of node))
        (All-mono (Reached nodes) (Reached (node ∷ nodes)) (λ m h. ground arith)
          (children_of nodes parent) (children_of-Reached nodes))

-- What the loops keep: each row has its node, its location is taken, and no location has two rows.
abbrev IsSound : Bytes → List TypeNode → Closure → Type 0
IsSound target nodes st =
    (All (λ row. witnessed target nodes row ≡ true) st.implementors
      × All (λ row. has_location (row_place row) st.emitted ≡ true) st.implementors)
    × Distinct same_row_place st.implementors

has_location-same :
    (a b : Bytes × ℕ) (emitted : List (Bytes × ℕ))
    → same_location a b ≡ true
    → has_location a emitted ≡ true
    → has_location b emitted ≡ true
unfolding same_location
has_location-same a b emitted s h =
    let e : a ≡ b = ap₂ (λ p l. (p, l)) ((bytes_eq_iff a.0 b.0).0 (ground arith)) (ground arith) in
    ap (λ at. has_location at emitted) (sym e) ∙ h

other_place :
    (emitted : List (Bytes × ℕ)) (at : Bytes × ℕ) (row : SupertypeImplementor)
    → has_location at emitted ≡ false
    → has_location (row_place row) emitted ≡ true
    → same_location (row_place row) at ≡ false
other_place emitted at row new known = ground (arith, has_location-same (row_place row) at emitted)

module _ (target : Bytes) (nodes : List TypeNode) (parent : Bytes) (depth : ℕ) where
  emit-IsSound :
      (node : TypeNode) (st : Closure)
      → Reached target parent nodes node
      → IsSound target nodes st
      → IsSound target nodes (emit target parent depth node st)
  unfolding emit Reached row_of
  emit-IsSound node st r ((w, k), d) =
      let row_placed : has_location (row_place (row_of target parent node))
            (location_of node ∷ st.emitted)
          ≡ true =
        ground (arith, same_location_refl (location_of node)) in
      elim (Bool-cases (has_location (location_of node) st.emitted)) [
        | inl known ↦ rw known ((w, k), d)
        | inr new ↦ rw new (
          (
            All-append (λ row. witnessed target nodes row ≡ true) st.implementors
                (row_of target parent node ∷ []) w (r, tt),
            All-append (λ row. has_location (row_place row) (location_of node ∷ st.emitted) ≡ true)
                st.implementors (row_of target parent node ∷ [])
                (All-mono (λ row. has_location (row_place row) st.emitted ≡ true)
                  (λ row. has_location (row_place row) (location_of node ∷ st.emitted) ≡ true)
                  (λ row h. ground arith) st.implementors k)
                (row_placed, tt),
          ),
          Distinct-append same_row_place st.implementors (row_of target parent node)
              (All-mono (λ row. has_location (row_place row) st.emitted ≡ true)
                (λ row. same_location (row_place row) (location_of node) ≡ false)
                (λ row h. other_place st.emitted (location_of node) row new h) st.implementors k)
              d,
        )
      ]

  emit_all-IsSound :
      (children : List TypeNode) (st : Closure)
      → All (Reached target parent nodes) children
      → IsSound target nodes st
      → IsSound target nodes (emit_all target parent depth children st)
  unfolding emit_all
  emit_all-IsSound [] st h s = s
  emit_all-IsSound (node ∷ children) st h s =
      emit_all-IsSound children (emit target parent depth node st) h.1 (emit-IsSound node st h.0 s)

  expand-IsSound :
      (st : Closure)
      → IsSound target nodes st
      → IsSound target nodes (expand target nodes parent depth st)
  unfolding expand
  expand-IsSound st s = elim (Bool-cases (leb depth_cap depth || has_name parent st.expanded)) [
    | inl over ↦ rw over s
    | inr under ↦ rw under (
        emit_all-IsSound (sort_by node_le (children_of nodes parent))
          (record st { expanded = parent ∷ st.expanded })
          (sort_by-All node_le (Reached target parent nodes) (children_of nodes parent)
            (children_of-Reached target parent nodes))
          s)
  ]

-- The answer for a list of rows.
abbrev pub AreSound : Bytes → List TypeNode → Option (List SupertypeImplementor) → Type 0
AreSound target nodes none = Unit
AreSound target nodes (some rows) =
    All (λ row. witnessed target nodes row ≡ true) rows × Distinct same_row_place rows

walk-AreSound :
    (fuel : ℕ) (target : Bytes) (nodes : List TypeNode) (st : Closure) (queue : List (Bytes × ℕ))
    → IsSound target nodes st
    → AreSound target nodes (walk fuel target nodes st queue)
unfolding walk
walk-AreSound fuel target nodes st [] s = (s.0.0, s.1)
walk-AreSound zero target nodes st (next ∷ queue) s = tt
walk-AreSound (suc fuel) target nodes st ((parent, depth) ∷ queue) s =
    let st' = expand target nodes parent depth (record st { queue = queue }) in
    walk-AreSound fuel target nodes st' st'.queue
      (expand-IsSound target nodes parent depth (record st { queue = queue }) s)

-- One turn for the queried type and one for each node of the workspace are enough for the walk to end,
-- whatever cycles the clauses have. Each row of its answer is then a node of the workspace whose clause
-- names the parent that the row gives, or the queried type when it gives none; and no two rows have one
-- path and line.
pub resolve_supertype_implementors-IsSound :
    (fuel : ℕ) (target : Bytes) (nodes : List TypeNode)
    → suc (length nodes) ≤ fuel
    → (rows : List SupertypeImplementor) × ((resolve_supertype_implementors fuel target nodes
          ≡ some rows)
        × (All (λ row. witnessed target nodes row ≡ true) rows × Distinct same_row_place rows))
unfolding resolve_supertype_implementors
resolve_supertype_implementors-IsSound fuel target nodes h =
    let (rows, e) = resolve_supertype_implementors-ends fuel target nodes h in
    (
      rows,
      (
        e,
        subst (AreSound target nodes) e
            (walk-AreSound fuel target nodes (at_start target) ((target, 0) ∷ []) ((tt, tt), tt)),
      ),
    )
