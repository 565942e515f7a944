-- ===== src/Core/Components.antt =====
-- The strongly connected components: crates/ktsense-core/src/scc.rs. A node is its index; `UNVISITED` is an
-- absent discovery, and the stacks have their tops first. The adjacency is that of the graph, which is sorted
-- and without repetition already. The walk runs on fuel.
pub mod Once
pub mod Ends
pub mod Tests
use ktsense.Prelude.{
  ℕ, zero, suc, ◌+◌, min, Bool, true, false, not, Option, none, some, List, [], ◌∷◌, ◌++◌, ltb,
  ◌==◌, if◌then◌else◌, length, get_or, set, replicate, Bytes,
}
use mathlib.Core.Option
use ktsense.Std.Sort.{sort_by}
use ktsense.Core.TextSearch.{bytes_lt}
use ktsense.Core.Graph.{Graph, contains_edge}

pub record Tarjan : Type 0 where
  pub discovery : List (Option ℕ)
  pub lowlink : List ℕ
  pub on_stack : List Bool
  pub component_stack : List ℕ
  pub next_index : ℕ
  pub components : List (List ℕ)

abbrev pub new_tarjan : ℕ → Tarjan
new_tarjan count = record {
  discovery = replicate count none;
  lowlink = replicate count 0;
  on_stack = replicate count false;
  component_stack = [];
  next_index = 0;
  components = [];
}

-- An index that no node has counts as discovered.
abbrev pub discovered : List (Option ℕ) → ℕ → Option ℕ
discovered discovery node = get_or discovery node (some 0)

unfoldable pub enter : ℕ → Tarjan → Tarjan
enter node st = record {
  discovery = set st.discovery node (some st.next_index);
  lowlink = set st.lowlink node st.next_index;
  on_stack = set st.on_stack node true;
  component_stack = node ∷ st.component_stack;
  next_index = st.next_index + 1;
  components = st.components;
}

-- What is popped up to the root, and what stays.
unfoldable pub pop_until : ℕ → List ℕ → List ℕ × List ℕ
pop_until root [] = ([], [])
pop_until root (node ∷ stack) =
    let (component, rest) = pop_until root stack in
    if node == root then (node ∷ [], stack) else (node ∷ component, rest)

abbrev pub clear_all : List ℕ → List Bool → List Bool
clear_all [] on_stack = on_stack
clear_all (node ∷ nodes) on_stack = clear_all nodes (set on_stack node false)

unfoldable pub close_component : ℕ → Tarjan → Tarjan
unfolding pop_until
close_component root st =
    let (component, rest) = pop_until root st.component_stack in
    record st {
      on_stack = clear_all component st.on_stack;
      component_stack = rest;
      components = st.components ++ (component ∷ []);
    }

abbrev pub discovery_or_zero : Option ℕ → ℕ
discovery_or_zero none = 0
discovery_or_zero (some index) = index

abbrev pub lower : ℕ → ℕ → Tarjan → Tarjan
lower node index st = record st {
  lowlink = set st.lowlink node (min (get_or st.lowlink node 0) index);
}

-- A child of the node, by its discovery: it is entered, or the node's lowlink may fall.
unfoldable pub descend : Option ℕ → ℕ → ℕ → List (ℕ × ℕ) → Tarjan → Tarjan × List (ℕ × ℕ)
unfolding enter
descend none child node frames st = (enter child st, (child, 0) ∷ frames)
descend (some index) child node frames st =
    (if get_or st.on_stack child false then lower node index st else st, frames)

abbrev pub lower_parent : ℕ → List (ℕ × ℕ) → Tarjan → Tarjan
lower_parent node [] st = st
lower_parent node ((parent, next_child) ∷ frames) st = lower parent (get_or st.lowlink node 0) st

unfoldable pub closed_if_root : ℕ → Tarjan → Tarjan
unfolding close_component
closed_if_root node st =
    if get_or st.lowlink node 0 == discovery_or_zero (discovered st.discovery node)
    then close_component node st
    else st

module _ (adjacency : List (List ℕ)) where
  abbrev pub targets : ℕ → List ℕ
  targets node = get_or adjacency node []

  -- One turn of the loop over the call stack.
  unfoldable pub walk_turn : ℕ → ℕ → List (ℕ × ℕ) → Tarjan → Tarjan × List (ℕ × ℕ)
  unfolding descend closed_if_root
  walk_turn node next_child frames st =
      let child = get_or (targets node) next_child 0 in
      if ltb next_child (length (targets node))
      then descend (discovered st.discovery child) child node ((node, next_child + 1) ∷ frames) st
      else (lower_parent node frames (closed_if_root node st), frames)

  unfoldable pub walk_frames : ℕ → List (ℕ × ℕ) → Tarjan → Option Tarjan
  unfolding walk_turn
  walk_frames fuel [] st = some st
  walk_frames zero (frame ∷ frames) st = none
  walk_frames (suc fuel) ((node, next_child) ∷ frames) st =
      let (st', frames') = walk_turn node next_child frames st in walk_frames fuel frames' st'

  unfoldable pub start_walk : ℕ → Option ℕ → ℕ → Tarjan → Option Tarjan
  unfolding walk_frames enter
  start_walk fuel none start st = walk_frames fuel ((start, 0) ∷ []) (enter start st)
  start_walk fuel (some index) start st = some st

  abbrev pub and_then : Option Tarjan → (Tarjan → Option Tarjan) → Option Tarjan
  and_then none next = none
  and_then (some st) next = next st

  -- The loop over the nodes, from a start, for so many of them.
  unfoldable pub run_from : ℕ → ℕ → ℕ → Tarjan → Option Tarjan
  unfolding start_walk
  run_from fuel start zero st = some st
  run_from fuel start (suc more) st =
      and_then (start_walk fuel (discovered st.discovery start) start st)
        (run_from fuel (start + 1) more)

unfoldable pub run_components : ℕ → Graph → Option Tarjan
unfolding run_from
run_components fuel graph =
    let count = length graph.node_ids in run_from graph.out_edges fuel 0 count (new_tarjan count)

abbrev pub not_after : Bytes → Bytes → Bool
not_after a b = not (bytes_lt b a)

abbrev pub names_le : List Bytes → List Bytes → Bool
names_le [] b = true
names_le (x ∷ a) [] = false
names_le (x ∷ a) (y ∷ b) =
    let rest = names_le a b in if bytes_lt x y then true else if bytes_lt y x then false else rest

unfoldable pub names_of : List Bytes → List ℕ → List Bytes
names_of nodes [] = []
names_of nodes (i ∷ component) = get_or nodes i [] ∷ names_of nodes component

unfoldable pub sorted_names : List Bytes → List (List ℕ) → List (List Bytes)
unfolding names_of sort_by
sorted_names nodes [] = []
sorted_names nodes (component ∷ components) =
    sort_by not_after (names_of nodes component) ∷ sorted_names nodes components

unfoldable pub strongly_connected_components : ℕ → Graph → Option (List (List Bytes))
unfolding run_components sorted_names sort_by
strongly_connected_components fuel graph =
    Option.map (λ st. sort_by names_le (sorted_names graph.node_ids st.components))
      (run_components fuel graph)

unfoldable pub is_cycle : Graph → List Bytes → Bool
unfolding contains_edge
is_cycle graph [] = true
is_cycle graph (only ∷ []) = contains_edge graph only only
is_cycle graph (a ∷ b ∷ component) = true

abbrev pub cycles_among : Graph → List (List Bytes) → List (List Bytes)
unfolding is_cycle
cycles_among graph [] = []
cycles_among graph (component ∷ components) =
    let rest = cycles_among graph components in
    if is_cycle graph component then component ∷ rest else rest

unfoldable pub cycles : ℕ → Graph → Option (List (List Bytes))
unfolding strongly_connected_components cycles_among
cycles fuel graph = Option.map (cycles_among graph) (strongly_connected_components fuel graph)
