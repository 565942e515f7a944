-- ===== src/Core/Components/Ends.antt =====
-- The walks end: crates/ktsense-core/src/scc.rs.
use ktsense.Prelude.{
  ℕ, zero, suc, ◌+◌, ◌-◌, ◌≤◌, ◌<◌, ◌≡◌, refl, ap, ◌∙◌, false, Bool-cases, inl, inr, Option, none,
  some, List, [], ◌∷◌, arith, ltb, length, get_or, set, replicate,
}
use ktsense.Core.Graph.{Graph}
use ktsense.Core.Components.{
  Tarjan, new_tarjan, discovered, enter, close_component, descend, lower_parent, closed_if_root,
  targets, walk_turn, walk_frames, start_walk, run_from, run_components,
}
use ktsense.Core.Components.Once.{
  Once, times_in, seen, none-ne-some, enter-Once, walk_turn-Once, new_tarjan-Once,
}

module _ (adjacency : List (List ℕ)) where
  -- The turns that the nodes from an index on still cost: of each undiscovered one, two and one for each
  -- child.
  abbrev pub to_enter : ℕ → List (Option ℕ) → ℕ
  to_enter k [] = 0
  to_enter k (none ∷ ds) = (length (targets adjacency k) + 2) + to_enter (k + 1) ds
  to_enter k (some index ∷ ds) = to_enter (k + 1) ds

  -- And those of the frames: the children that are left, and the end.
  abbrev frames_left : List (ℕ × ℕ) → ℕ
  frames_left [] = 0
  frames_left ((node, next_child) ∷ frames) =
      (length (targets adjacency node) - next_child) + 1 + frames_left frames

  to_enter-set :
      (k i m index : ℕ) (ds : List (Option ℕ))
      → k + i ≡ m
      → discovered ds i ≡ none
      → to_enter k (set ds i (some index)) + (length (targets adjacency m) + 2) ≡ to_enter k ds
  to_enter-set k i m index [] e h = absurd (none-ne-some h)
  to_enter-set k zero m index (none ∷ ds) e h =
      let same : length (targets adjacency k) ≡ length (targets adjacency m) =
        ap (λ n. length (targets adjacency n)) (omega arith) in
      omega arith
  to_enter-set k zero m index (some d ∷ ds) e h = absurd (none-ne-some h)
  to_enter-set k (suc i) m index (none ∷ ds) e h =
      omega (arith, to_enter-set (k + 1) i m index ds (omega arith) h)
  to_enter-set k (suc i) m index (some d ∷ ds) e h =
      to_enter-set (k + 1) i m index ds (omega arith) h

  closed_if_root-discovery :
      (node : ℕ) (st : Tarjan) → (closed_if_root node st).discovery ≡ st.discovery
  unfolding closed_if_root close_component
  closed_if_root-discovery node st = ground arith

  lower_parent-discovery :
      (node : ℕ) (frames : List (ℕ × ℕ)) (st : Tarjan)
      → (lower_parent node frames st).discovery ≡ st.discovery
  lower_parent-discovery node [] st = refl
  lower_parent-discovery node ((parent, next_child) ∷ frames) st = refl

  abbrev left : Tarjan × List (ℕ × ℕ) → ℕ
  left r = to_enter 0 r.0.discovery + frames_left r.1

  descend-left :
      (found : Option ℕ) (child node : ℕ) (frames : List (ℕ × ℕ)) (st : Tarjan)
      → discovered st.discovery child ≡ found
      → left (descend found child node frames st) ≤ to_enter 0 st.discovery + frames_left frames
  unfolding descend enter
  descend-left none child node frames st e =
      omega (arith, to_enter-set 0 child child st.next_index st.discovery (omega arith) e)
  descend-left (some index) child node frames st e =
      elim (Bool-cases (get_or st.on_stack child false)) [
        | inl on ↦ rw on (omega arith)
        | inr off ↦ rw off (omega arith)
      ]

  walk_turn-left :
      (node next_child : ℕ) (frames : List (ℕ × ℕ)) (st : Tarjan)
      → suc (left (walk_turn adjacency node next_child frames st))
        ≤ to_enter 0 st.discovery + frames_left ((node, next_child) ∷ frames)
  unfolding walk_turn
  walk_turn-left node next_child frames st =
      let child = get_or (targets adjacency node) next_child 0 in
      elim (Bool-cases (ltb next_child (length (targets adjacency node)))) [
        | inl more ↦
            let below : next_child < length (targets adjacency node) = ground arith in
            rw more (
              omega (
                arith,
                descend-left (discovered st.discovery child) child node
                    ((node, next_child + 1) ∷ frames) st refl,
              ))
        | inr done ↦
            let same : to_enter 0 (lower_parent node frames (closed_if_root node st)).discovery
                ≡ to_enter 0 st.discovery =
              ap (to_enter 0) (
                lower_parent-discovery node frames (closed_if_root node st)
                ∙ closed_if_root-discovery node st) in
            rw done (omega arith)
      ]

  descend-to_enter :
      (found : Option ℕ) (child node : ℕ) (frames : List (ℕ × ℕ)) (st : Tarjan)
      → discovered st.discovery child ≡ found
      → to_enter 0 (descend found child node frames st).0.discovery ≤ to_enter 0 st.discovery
  unfolding descend enter
  descend-to_enter none child node frames st e =
      omega (arith, to_enter-set 0 child child st.next_index st.discovery (omega arith) e)
  descend-to_enter (some index) child node frames st e =
      elim (Bool-cases (get_or st.on_stack child false)) [
        | inl on ↦ rw on (omega arith)
        | inr off ↦ rw off (omega arith)
      ]

  walk_turn-to_enter :
      (node next_child : ℕ) (frames : List (ℕ × ℕ)) (st : Tarjan)
      → to_enter 0 (walk_turn adjacency node next_child frames st).0.discovery
        ≤ to_enter 0 st.discovery
  unfolding walk_turn
  walk_turn-to_enter node next_child frames st =
      let child = get_or (targets adjacency node) next_child 0 in
      elim (Bool-cases (ltb next_child (length (targets adjacency node)))) [
        | inl more ↦ rw more (
            descend-to_enter (discovered st.discovery child) child node
              ((node, next_child + 1) ∷ frames) st refl)
        | inr done ↦
            let same : to_enter 0 (lower_parent node frames (closed_if_root node st)).discovery
                ≡ to_enter 0 st.discovery =
              ap (to_enter 0) (
                lower_parent-discovery node frames (closed_if_root node st)
                ∙ closed_if_root-discovery node st) in
            rw done (omega arith)
      ]

  -- The walk ends with each node once at most, and nothing undiscovered again.
  abbrev Walked : ℕ → Tarjan → Type 0
  Walked bound st = Once st × (to_enter 0 st.discovery ≤ bound)

  walk_frames-ends :
      (fuel bound : ℕ) (frames : List (ℕ × ℕ)) (st : Tarjan)
      → to_enter 0 st.discovery + frames_left frames ≤ fuel
      → to_enter 0 st.discovery ≤ bound
      → Once st
      → (end : Tarjan) × ((walk_frames adjacency fuel frames st ≡ some end) × Walked bound end)
  unfolding walk_frames
  walk_frames-ends fuel bound [] st h b o = (st, (refl, (o, b)))
  walk_frames-ends zero bound ((node, next_child) ∷ frames) st h b o = absurd (omega arith)
  walk_frames-ends (suc fuel) bound ((node, next_child) ∷ frames) st h b o =
      let r = walk_turn adjacency node next_child frames st in
      walk_frames-ends fuel bound r.1 r.0 (omega (arith, walk_turn-left node next_child frames st))
        (omega (arith, walk_turn-to_enter node next_child frames st))
        (walk_turn-Once adjacency node next_child frames st o)

  start_walk-ends :
      (fuel start : ℕ) (found : Option ℕ) (st : Tarjan)
      → discovered st.discovery start ≡ found
      → to_enter 0 st.discovery ≤ fuel
      → Once st
      → (end : Tarjan) × ((start_walk adjacency fuel found start st ≡ some end) × Walked fuel end)
  unfolding start_walk enter
  start_walk-ends fuel start none st e h o =
      let entered = to_enter-set 0 start start st.next_index st.discovery (omega arith) e in
      walk_frames-ends fuel fuel ((start, 0) ∷ []) (enter start st) (omega arith) (omega arith)
        (enter-Once start st e o)
  start_walk-ends fuel start (some index) st e h o = (st, (refl, (o, h)))

  run_from-ends :
      (fuel start more : ℕ) (st : Tarjan)
      → to_enter 0 st.discovery ≤ fuel
      → Once st
      → (end : Tarjan) × ((run_from adjacency fuel start more st ≡ some end) × Once end)
  unfolding run_from
  run_from-ends fuel start zero st h o = (st, (refl, o))
  run_from-ends fuel start (suc more) st h o =
      let (mid, (e, (once, less))) =
        start_walk-ends fuel start (discovered st.discovery start) st refl h o in
      let (end, (e', done)) = run_from-ends fuel (start + 1) more mid less once in
      (end, (rw e e', done))

seen_le : (found : Option ℕ) → seen found ≤ 1
seen_le none = omega arith
seen_le (some index) = omega arith

Once-times : (st : Tarjan) → Once st → (node : ℕ) → times_in node st.components ≤ 1
unfolding Once
Once-times st o node = omega (arith, o node, seen_le (discovered st.discovery node))

-- With as much fuel as two turns for each node and one for each edge, the walks of the components end, on
-- any graph; and then no node stands in two components, or in one of them twice.
pub run_components-Once :
    (fuel : ℕ) (graph : Graph)
    → to_enter graph.out_edges 0 (replicate (length graph.node_ids) none) ≤ fuel
    → (end : Tarjan) × ((run_components fuel graph ≡ some end)
        × ((node : ℕ) → times_in node end.components ≤ 1))
unfolding run_components
run_components-Once fuel graph h =
    let count = length graph.node_ids in
    let (end, (e, once)) =
      run_from-ends graph.out_edges fuel 0 count (new_tarjan count) h (new_tarjan-Once count) in
    (end, (e, Once-times end once))
