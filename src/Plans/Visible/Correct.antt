-- ===== src/Plans/Visible/Correct.antt =====
-- scripts/plan-graph.py: the stems that `_filter_visible` keeps.
use qontinui_stack.Prelude.{
  ℕ, ◌+◌, ◌≤◌, String, ◌≡◌, refl, true, false, some, List, [], ◌∷◌, ◌⊎◌, ◌↔◌, inl, inr, arith, elem,
  length, Bool-cases,
}
use qontinui_stack.Python.Sets.{All-of_elem, outside, outside-le}
use qontinui_stack.Plans.Graph.{
  Node, Graph, keys, has, targets, predecessors, Edge, Leads, here, step,
}
use qontinui_stack.Plans.Graph.Valid.{IsValid, length-keys, has-sources, elem-sources, ahead}
use qontinui_stack.Plans.Graph.Edges.{lookup-none}
use qontinui_stack.Plans.Visible.{anchors, filter_visible}
use qontinui_stack.Plans.Visible.Flood.{Flood, seed, grow, spread-ends-from, spread-marks}

-- A node whose status is not hidden.
abbrev pub IsAnchor : Graph → String → Type 0
IsAnchor g a = elem a (anchors g.nodes) ≡ true

-- A walk leads from the stem to an anchor.
abbrev pub IsAbove : Graph → String → Type 0
IsAbove g x = (a : String) × IsAnchor g a × Leads g x a

-- A walk leads from an anchor to the stem by stems that are not above an anchor.
pub data IsBelow (g : Graph) : String → Type 0 where
  anchor : {a : String} → IsAnchor g a → IsBelow g a
  below : {a b : String} → IsBelow g a → Edge g a b → ¬ IsAbove g b → IsBelow g b

length-anchors-le : (nodes : List (String × Node)) → length (anchors nodes) ≤ length nodes
unfolding anchors
length-anchors-le [] = omega arith
length-anchors-le (entry ∷ others) = ground (arith, length-anchors-le others)

module _ (g : Graph) (valid : IsValid g) where
  abbrev fuel : ℕ
  fuel = length g.nodes + length g.nodes

  abbrev Marks : List String → Type 0
  Marks upward =
      (x : String)
      → (elem x upward ≡ true) ↔ (
          (elem x (anchors g.nodes) ≡ true)
          ⊎ Flood (predecessors g) (anchors g.nodes) (anchors g.nodes) x)

  module _ (upward : List String) (marks : Marks upward) where
    Flood-IsAbove :
        {x : String} → Flood (predecessors g) (anchors g.nodes) (anchors g.nodes) x → IsAbove g x
    Flood-IsAbove (seed {a} q) = (a, q, here)
    Flood-IsAbove (grow {a} {b} f n out) =
        let (end, k, walk) = Flood-IsAbove f in
        (end, k, ahead g b a ((elem-sources g.edges b a valid.dict).0 n) walk)

    upward-IsAbove : (x : String) → elem x upward ≡ true → IsAbove g x
    upward-IsAbove x m = elim ((marks x).0 m) [ inl a ↦ (x, a, here) | inr f ↦ Flood-IsAbove f ]

    upward-back : (b c : String) → elem c upward ≡ true → Edge g b c → elem b upward ≡ true
    upward-back b c m e = elim (Bool-cases (elem b (anchors g.nodes))) [
      | inl a ↦ (marks b).1 (inl a)
      | inr out ↦
          let n = (elem-sources g.edges b c valid.dict).1 e in
          (marks b).1
            (inr (elim ((marks c).0 m) [ inl a ↦ grow (seed a) n out | inr f ↦ grow f n out ]))
    ]

    above-marked : {x c : String} → elem c upward ≡ true → Leads g x c → elem x upward ≡ true
    above-marked m here = m
    above-marked m (step {b} {c} walk e) = above-marked (upward-back b c m e) walk

    IsAbove-marked : (x : String) → IsAbove g x → elem x upward ≡ true
    IsAbove-marked x (a, k, walk) = above-marked ((marks a).1 (inl k)) walk

    Flood-IsBelow : {x : String} → Flood (targets g) upward (anchors g.nodes) x → IsBelow g x
    Flood-IsBelow (seed q) = anchor q
    Flood-IsBelow (grow {a} {b} f n out) =
        below (Flood-IsBelow f) n (λ above. cc (IsAbove-marked b above))

    IsBelow-Flood : {x : String} → IsBelow g x → Flood (targets g) upward (anchors g.nodes) x
    IsBelow-Flood (anchor q) = seed q
    IsBelow-Flood (below {a} {b} h n out) =
        grow (IsBelow-Flood h) n (elim (Bool-cases (elem b upward)) [
          | inl m ↦ absurd (out (upward-IsAbove b m))
          | inr e ↦ e
        ])

    marked-IsAbove_or_IsBelow :
        (visible : List String)
        → ((x : String)
            → (elem x visible ≡ true)
              ↔ ((elem x upward ≡ true) ⊎ Flood (targets g) upward (anchors g.nodes) x))
        → (x : String) → (elem x visible ≡ true) ↔ (IsAbove g x ⊎ IsBelow g x)
    marked-IsAbove_or_IsBelow visible shown x = (
      λ m. elim ((shown x).0 m) [
        | inl u ↦ inl (upward-IsAbove x u)
        | inr f ↦ inr (Flood-IsBelow f)
      ],
      λ k.
          (shown x).1 (elim k [
            | inl above ↦ inl (IsAbove-marked x above)
            | inr low ↦ inr (IsBelow-Flood low)
          ]),
    )

  -- Of a valid graph the filter ends with the stems that are above an anchor, or below one along
  -- stems that are not above any.
  pub filter_visible_correct :
      (visible : List String) × (filter_visible g false ≡ some visible)
      × ((x : String) → (elem x visible ≡ true) ↔ (IsAbove g x ⊎ IsBelow g x))
  unfolding filter_visible
  filter_visible_correct =
      let start = anchors g.nodes in
      let stems = keys g.nodes in
      let enough : (visible : List String) → outside visible stems + length start ≤ fuel =
        λ visible.
          omega (arith, outside-le visible stems, length-keys g.nodes, length-anchors-le g.nodes) in
      let (upward, up) =
        spread-ends-from (predecessors g) stems
          (λ a. All-of_elem _ _ (λ x m. valid.origins x (has-sources g.edges x a m))) fuel start
          start (enough start) in
      let (visible, down) =
        spread-ends-from (targets g) stems (λ a. All-of_elem _ _ (λ x m. valid.closed a x m)) fuel
          upward start (enough upward) in
      let marks = spread-marks (predecessors g) start start fuel upward (λ x m. m) up in
      let shown =
        spread-marks (targets g) upward start fuel visible (λ x m. (marks x).1 (inl m)) down in
      (visible, rw (up, down) refl, marked-IsAbove_or_IsBelow upward marks visible shown)

elem-anchors :
    (nodes : List (String × Node)) (x : String) → elem x (anchors nodes) ≡ true → has x nodes ≡ true
unfolding anchors
elem-anchors [] x h = h
elem-anchors (entry ∷ others) x h = ground (arith, elem-anchors others x, h)

Edge-source : (g : Graph) (a b : String) → Edge g a b → has a g.edges ≡ true
Edge-source g a b e = elim (Bool-cases (has a g.edges)) [
  | inl m ↦ m
  | inr m ↦ cc (rw (lookup-none g.edges a m) at e)
]

module _ (g : Graph) (valid : IsValid g) where
  above-node : {x a : String} → has a g.nodes ≡ true → Leads g x a → has x g.nodes ≡ true
  above-node m here = m
  above-node m (step {b} {c} walk e) = above-node (valid.origins b (Edge-source g b c e)) walk

  below-node : {x : String} → IsBelow g x → has x g.nodes ≡ true
  below-node (anchor {a} k) = elem-anchors g.nodes a k
  below-node (below {a} {b} h e out) = valid.closed a b e

  -- Only nodes are above or below an anchor.
  pub shown-node : (x : String) → IsAbove g x ⊎ IsBelow g x → has x g.nodes ≡ true
  shown-node x (inl (a, k, walk)) = above-node (elem-anchors g.nodes a k) walk
  shown-node x (inr h) = below-node h
