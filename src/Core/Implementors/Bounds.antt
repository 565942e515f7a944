-- ===== src/Core/Implementors/Bounds.antt =====
-- The end of the closure of crates/ktsense-core/src/implementors.rs.
use mathlib.Core.List.{Memᴰ}
use ktsense.Prelude.{
  ℕ, zero, suc, ◌+◌, ◌≤◌, ◌≡◌, refl, ap, sym, ◌∙◌, true, false, ◌||◌, Bool-cases, inl, inr, some,
  List, [], ◌∷◌, arith, leb, if◌then◌else◌, Bytes, bytes_eq, bytes_eq_iff, length, length-append,
  All, All-mono,
}
use ktsense.Std.Sort.{sort_by, sort_by-All}
use ktsense.Core.Implementors.{
  TypeNode, SupertypeImplementor, copies, children_of, node_le, same_location, has_location,
  has_name, Closure, location_of, emit, emit_all, expand, walk, at_start,
  resolve_supertype_implementors, depth_cap,
}

pub same_location_refl : (at : Bytes × ℕ) → same_location at at ≡ true
unfolding same_location
same_location_refl at = ground (arith, (bytes_eq_iff at.0 at.0).1 refl)

-- How many of the nodes stand at a location that has no row yet.
unfoldable pub fresh : List (Bytes × ℕ) → List TypeNode → ℕ
fresh emitted [] = 0
fresh emitted (node ∷ nodes) =
    let rest = fresh emitted nodes in
    if has_location (location_of node) emitted then rest else suc rest

fresh-cons :
    (at : Bytes × ℕ) (emitted : List (Bytes × ℕ)) (nodes : List TypeNode)
    → fresh (at ∷ emitted) nodes ≤ fresh emitted nodes
unfolding fresh
fresh-cons at emitted [] = omega arith
fresh-cons at emitted (node ∷ nodes) = ground (arith, fresh-cons at emitted nodes)

fresh-emitted :
    (node : TypeNode) (emitted : List (Bytes × ℕ)) (nodes : List TypeNode)
    → Memᴰ node nodes
    → has_location (location_of node) emitted ≡ false
    → suc (fresh (location_of node ∷ emitted) nodes) ≤ fresh emitted nodes
unfolding fresh
fresh-emitted node emitted [] m h = elim m [ ]
fresh-emitted node emitted (node' ∷ nodes) (Memᴰ.head e) h =
    let here : same_location (location_of node) (location_of node') ≡ true =
      ap (λ n. same_location (location_of node) (location_of n)) (sym e)
      ∙ same_location_refl (location_of node) in
    let new : has_location (location_of node') emitted ≡ false =
      ap (λ n. has_location (location_of n) emitted) (sym e) ∙ h in
    rw (here, new) (omega (arith, fresh-cons (location_of node) emitted nodes))
fresh-emitted node emitted (node' ∷ nodes) (Memᴰ.tail m) h =
    ground (arith, fresh-emitted node emitted nodes m h)

fresh-length :
    (emitted : List (Bytes × ℕ)) (nodes : List TypeNode) → fresh emitted nodes ≤ length nodes
unfolding fresh
fresh-length emitted [] = omega arith
fresh-length emitted (node ∷ nodes) = ground (arith, fresh-length emitted nodes)

All-Mem : (nodes : List TypeNode) → All (λ node. Memᴰ node nodes) nodes
All-Mem [] = tt
All-Mem (node ∷ nodes) = (
  Memᴰ.head refl,
  All-mono (λ n. Memᴰ n nodes) (λ n. Memᴰ n (node ∷ nodes)) (λ n m. Memᴰ.tail m) nodes
      (All-Mem nodes),
)

module _ (P : TypeNode → Type 0) where
  copies-All :
      (parent : Bytes) (node : TypeNode) (supertypes : List Bytes) (rest : List TypeNode)
      → P node
      → All P rest
      → All P (copies parent node supertypes rest)
  copies-All parent node [] rest p h = h
  copies-All parent node (supertype ∷ supertypes) rest p h =
      elim (Bool-cases (bytes_eq supertype parent)) [
        | inl named ↦ rw named (p, copies-All parent node supertypes rest p h)
        | inr other ↦ rw other (copies-All parent node supertypes rest p h)
      ]

  pub children_of-All :
      (nodes : List TypeNode) (parent : Bytes) → All P nodes → All P (children_of nodes parent)
  unfolding children_of
  children_of-All [] parent h = tt
  children_of-All (node ∷ nodes) parent h =
      copies-All parent node node.supertypes (children_of nodes parent) h.0
        (children_of-All nodes parent h.1)

-- The children of the queue that are still to be looked at, and the nodes that may join them.
abbrev pending : Closure → List TypeNode → ℕ
pending st nodes = length st.queue + fresh st.emitted nodes

module _ (target parent : Bytes) (depth : ℕ) (nodes : List TypeNode) where
  emit-pending :
      (node : TypeNode) (st : Closure)
      → Memᴰ node nodes
      → pending (emit target parent depth node st) nodes ≤ pending st nodes
  unfolding emit
  emit-pending node st m = elim (Bool-cases (has_location (location_of node) st.emitted)) [
    | inl known ↦ rw known (omega arith)
    | inr new ↦ rw new (
        omega (
          arith,
          length-append st.queue ((node.simple_name, depth + 1) ∷ []),
          fresh-emitted node st.emitted nodes m new,
        ))
  ]

  emit_all-pending :
      (children : List TypeNode) (st : Closure)
      → All (λ node. Memᴰ node nodes) children
      → pending (emit_all target parent depth children st) nodes ≤ pending st nodes
  unfolding emit_all
  emit_all-pending [] st h = omega arith
  emit_all-pending (node ∷ children) st h = omega (
    arith,
    emit_all-pending children (emit target parent depth node st) h.1,
    emit-pending node st h.0,
  )

  expand-pending :
      (st : Closure) → pending (expand target nodes parent depth st) nodes ≤ pending st nodes
  unfolding expand
  expand-pending st = elim (Bool-cases (leb depth_cap depth || has_name parent st.expanded)) [
    | inl over ↦ rw over (omega arith)
    | inr under ↦ rw under (
        emit_all-pending (sort_by node_le (children_of nodes parent))
          (record st { expanded = parent ∷ st.expanded })
          (sort_by-All node_le (λ node. Memᴰ node nodes) (children_of nodes parent)
            (children_of-All (λ node. Memᴰ node nodes) nodes parent (All-Mem nodes))))
  ]

walk-ends :
    (fuel : ℕ) (target : Bytes) (nodes : List TypeNode) (st : Closure) (queue : List (Bytes × ℕ))
    → length queue + fresh st.emitted nodes ≤ fuel
    → (rows : List SupertypeImplementor) × (walk fuel target nodes st queue ≡ some rows)
unfolding walk
walk-ends fuel target nodes st [] h = (st.implementors, refl)
walk-ends zero target nodes st (next ∷ queue) h = absurd (omega arith)
walk-ends (suc fuel) target nodes st ((parent, depth) ∷ queue) h =
    let st' = expand target nodes parent depth (record st { queue = queue }) in
    walk-ends fuel target nodes st' st'.queue
      (omega (arith, expand-pending target parent depth nodes (record st { queue = queue })))

-- One turn for the queried type and one for each node are enough for the walk to end.
pub resolve_supertype_implementors-ends :
    (fuel : ℕ) (target : Bytes) (nodes : List TypeNode)
    → suc (length nodes) ≤ fuel
    → (rows : List SupertypeImplementor) × (resolve_supertype_implementors fuel target nodes
        ≡ some rows)
unfolding resolve_supertype_implementors
resolve_supertype_implementors-ends fuel target nodes h =
    walk-ends fuel target nodes (at_start target) ((target, 0) ∷ [])
      (omega (arith, fresh-length [] nodes))
