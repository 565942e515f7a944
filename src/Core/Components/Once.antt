-- ===== src/Core/Components/Once.antt =====
-- A node stands in one component at most: crates/ktsense-core/src/scc.rs.
use mathlib.Core.Path.{subst}
use ktsense.Prelude.{
  ℕ, zero, suc, ◌+◌, ◌≤◌, ◌≡◌, ◌⊎◌, refl, ap, ◌∙◌, true, false, Bool-cases, inl, inr, Option, none,
  some, List, [], ◌∷◌, ◌++◌, arith, ltb, ◌==◌, if◌then◌else◌, length, get_or, set,
}
use ktsense.Core.Components.{
  Tarjan, new_tarjan, discovered, enter, pop_until, close_component, lower, descend, lower_parent,
  closed_if_root, discovery_or_zero, targets, walk_turn,
}

-- How often a node stands in a list, and in the components.
abbrev pub times : ℕ → List ℕ → ℕ
times v [] = 0
times v (x ∷ xs) = (if x == v then 1 else 0) + times v xs

abbrev pub times_in : ℕ → List (List ℕ) → ℕ
times_in v [] = 0
times_in v (c ∷ components) = times v c + times_in v components

abbrev pub seen : Option ℕ → ℕ
seen none = 0
seen (some index) = 1

-- An undiscovered node stands nowhere, a discovered one once at most: on the stack or in a component.
unfoldable pub Once : Tarjan → Type 0
Once st =
    (v : ℕ)
    → times v st.component_stack + times_in v st.components ≤ seen (discovered st.discovery v)

times_in-append :
    (v : ℕ) (cs ds : List (List ℕ)) → times_in v (cs ++ ds) ≡ times_in v cs + times_in v ds
times_in-append v [] ds = omega arith
times_in-append v (c ∷ cs) ds = omega (arith, times_in-append v cs ds)

pop_until-times :
    (v root : ℕ) (stack : List ℕ)
    → times v (pop_until root stack).0 + times v (pop_until root stack).1 ≡ times v stack
unfolding pop_until
pop_until-times v root [] = refl
pop_until-times v root (node ∷ stack) = ground (arith, pop_until-times v root stack)

pub none-ne-some : {i : ℕ} → ◌≡◌ {A = Option ℕ} (some i) none → ⊥
none-ne-some h = cc

-- What a write to an undiscovered place leaves of the discoveries.
discovered-set :
    (discovery : List (Option ℕ)) (node v index : ℕ)
    → discovered discovery node ≡ none
    → ((node == v ≡ false)
        × (discovered (set discovery node (some index)) v ≡ discovered discovery v))
      ⊎ ((node == v ≡ true) × (seen (discovered (set discovery node (some index)) v) ≡ 1))
discovered-set [] node v index h = absurd (none-ne-some h)
discovered-set (d ∷ ds) zero zero index h = inr (ground arith, refl)
discovered-set (d ∷ ds) zero (suc v) index h = inl (ground arith, refl)
discovered-set (d ∷ ds) (suc node) zero index h = inl (ground arith, refl)
discovered-set (d ∷ ds) (suc node) (suc v) index h = elim (discovered-set ds node v index h) [
  | inl (off, e) ↦ inl (ground arith, e)
  | inr (on, s) ↦ inr (ground arith, s)
]

pub enter-Once :
    (node : ℕ) (st : Tarjan) → discovered st.discovery node ≡ none → Once st → Once (enter node st)
unfolding enter Once
enter-Once node st h o = λ v. elim (discovered-set st.discovery node v st.next_index h) [
  | inl (off, e) ↦ let below = o v in rw (off, e) (omega arith)
  | inr (on, s) ↦
      let same : discovered st.discovery v ≡ none =
        ap (discovered st.discovery) (ground arith) ∙ h in
      let none_yet : times v st.component_stack + times_in v st.components ≤ 0 =
        subst (λ d. times v st.component_stack + times_in v st.components ≤ seen d) same (o v) in
      rw (on, s) (omega arith)
]

close_component-Once : (root : ℕ) (st : Tarjan) → Once st → Once (close_component root st)
unfolding close_component Once
close_component-Once root st o = λ v. omega (
  arith,
  o v,
  pop_until-times v root st.component_stack,
  times_in-append v st.components ((pop_until root st.component_stack).0 ∷ []),
)

lower-Once : (node index : ℕ) (st : Tarjan) → Once st → Once (lower node index st)
unfolding Once
lower-Once node index st o = o

lower_parent-Once :
    (node : ℕ) (frames : List (ℕ × ℕ)) (st : Tarjan) → Once st → Once (lower_parent node frames st)
unfolding Once
lower_parent-Once node [] st o = o
lower_parent-Once node ((parent, next_child) ∷ frames) st o = o

closed_if_root-Once : (node : ℕ) (st : Tarjan) → Once st → Once (closed_if_root node st)
unfolding closed_if_root
closed_if_root-Once node st o =
    elim (Bool-cases
      (get_or st.lowlink node 0 == discovery_or_zero (discovered st.discovery node))) [
        | inl root ↦ rw root (close_component-Once node st o)
        | inr inner ↦ rw inner o
      ]

descend-Once :
    (found : Option ℕ) (child node : ℕ) (frames : List (ℕ × ℕ)) (st : Tarjan)
    → discovered st.discovery child ≡ found
    → Once st
    → Once (descend found child node frames st).0
unfolding descend
descend-Once none child node frames st e o = enter-Once child st e o
descend-Once (some index) child node frames st e o =
    elim (Bool-cases (get_or st.on_stack child false)) [
      | inl on ↦ rw on (lower-Once node index st o)
      | inr off ↦ rw off o
    ]

module _ (adjacency : List (List ℕ)) where
  pub walk_turn-Once :
      (node next_child : ℕ) (frames : List (ℕ × ℕ)) (st : Tarjan)
      → Once st
      → Once (walk_turn adjacency node next_child frames st).0
  unfolding walk_turn
  walk_turn-Once node next_child frames st o =
      elim (Bool-cases (ltb next_child (length (targets adjacency node)))) [
        | inl more ↦ rw more (descend-Once _ _ node _ st refl o)
        | inr done ↦
            rw done (
              lower_parent-Once node frames (closed_if_root node st)
                (closed_if_root-Once node st o))
      ]

pub new_tarjan-Once : (count : ℕ) → Once (new_tarjan count)
unfolding Once
new_tarjan-Once count = λ v. omega arith
