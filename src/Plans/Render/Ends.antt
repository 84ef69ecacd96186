-- ===== src/Plans/Render/Ends.antt =====
-- scripts/plan-graph.py: the recursion of `render_node` is no deeper than there are stems.
use qontinui_stack.Prelude.{
  is_nil, ℕ, zero, suc, ◌≤◌, String, ◌≡◌, refl, Bool, true, false, Option, some, List, [], ◌∷◌,
  ◌++◌, ◌⊎◌, inl, inr, arith, elem, any, length, All, eq_refl, Bool-cases,
}
use qontinui_stack.Prelude.Assoc.{lookup}
use qontinui_stack.Python.{join}
use qontinui_stack.Python.Lists.{sorted}
use qontinui_stack.Python.Sets.{
  elem-sorted, elem-cons, All-of_elem, outside, outside-le, outside-cons-le, outside-cons-lt,
}
use qontinui_stack.Plans.Graph.{Graph, keys, targets, predecessors, has}
use qontinui_stack.Plans.Graph.Valid.{IsValid, length-keys}
use qontinui_stack.Plans.Visible.{filter_visible}
use qontinui_stack.Plans.Visible.Correct.{filter_visible_correct, shown-node}
use qontinui_stack.Plans.Render.{
  Style, style_of, Drawing, refers, ends, opens, turn, visible_only, without_parent, first_of,
  nothing_matches, roots_of, children, under, with_label, with_reference, with_no_deps, mark,
  has_file, render_nodes, render_text, warnings,
}

elem-visible_only :
    (visible xs : List String) (x : String)
    → elem x (visible_only visible xs) ≡ true
    → elem x xs ≡ true
unfolding visible_only
elem-visible_only visible [] x h = h
elem-visible_only visible (y ∷ xs) x h = ground (arith, elem-visible_only visible xs x, h)

turn-cases :
    (rendered children : List String) (stem : String)
    → (turn rendered children stem ≡ refers)
      ⊎ (turn rendered children stem ≡ ends)
      ⊎ (turn rendered children stem ≡ opens) × (elem stem rendered ≡ false)
unfolding turn
turn-cases rendered children stem = elim (Bool-cases (elem stem rendered)) [
  | inl e ↦ inl (rw e refl)
  | inr e ↦ elim (Bool-cases (is_nil children)) [
    | inl n ↦ inr (inl (rw (e, n) refl))
    | inr n ↦ inr (inr (rw (e, n) refl, e))
  ]
]

module _ (style : Style) (g : Graph) (valid : IsValid g) (visible : List String) where
  abbrev left : Drawing → ℕ
  left d = outside d.rendered (keys g.nodes)

  abbrev IsNode : String → Type 0
  IsNode x = has x g.nodes ≡ true

  -- The drawing ends, and what is rendered stays so.
  abbrev Ends : Option Drawing → Drawing → Type 0
  Ends o d = (d' : Drawing) × (o ≡ some d') × (left d' ≤ left d)

  left-mark-le : (stem : String) (d : Drawing) → left (mark style g visible stem d) ≤ left d
  left-mark-le stem d = outside-cons-le d.rendered stem (keys g.nodes)

  left-reference :
      (top last : Bool) (prefix stem : String) (d : Drawing)
      → left (with_reference style g visible top last prefix stem d) ≡ left d
  left-reference top last prefix stem d = elim (Bool-cases (is_nil (targets g stem))) [
    | inl e ↦ simp e refl
    | inr e ↦ simp e refl
  ]

  left-no_deps :
      (top last : Bool) (prefix stem : String) (d : Drawing)
      → left (with_no_deps style g visible top last prefix stem d) ≡ left d
  left-no_deps top last prefix stem d =
      elim (Bool-cases (has_file style g visible (lookup stem g.nodes))) [
        | inl e ↦ simp e refl
        | inr e ↦ simp e refl
      ]

  children-nodes : (stem : String) → All IsNode (children style g visible stem)
  unfolding children
  children-nodes stem = All-of_elem IsNode (children style g visible stem) (λ x m.
      valid.closed stem x (elem-visible_only visible (targets g stem) x (rw elem-sorted at m)))

  after : {o : Option Drawing} (d d' : Drawing) → left d' ≤ left d → Ends o d' → Ends o d
  after d d' h (end, e, k) = (end, e, omega (arith, h, k))

  render_nodes-ends :
      (fuel : ℕ) (top : Bool) (prefix : String) (stems : List String) (d : Drawing)
      → left d ≤ fuel
      → All IsNode stems
      → Ends (render_nodes style g visible fuel top prefix stems d) d
  unfolding render_nodes with_label
  render_nodes-ends fuel top prefix [] d h a = (d, refl, omega arith)
  render_nodes-ends zero top prefix (stem ∷ rest) d h a =
      let last = is_nil rest in
      let labelled = with_label style g visible top last prefix stem d in
      let reference = with_reference style g visible top last prefix stem labelled in
      let leaf =
        with_no_deps style g visible top last prefix stem (mark style g visible stem labelled) in
      let same : left reference ≡ left d = left-reference top last prefix stem labelled in
      let fewer : left leaf ≤ left d = omega (
        arith,
        left-no_deps top last prefix stem (mark style g visible stem labelled),
        left-mark-le stem labelled,
      ) in
      elim (turn-cases d.rendered (children style g visible stem) stem) [
        | inl t ↦
            simp (t, render_nodes)
              (after d reference (omega (arith, same))
                (render_nodes-ends zero top prefix rest reference (omega (arith, same, h)) a.1))
        | inr (inl t) ↦
            simp (t, render_nodes)
              (after d leaf fewer
                (render_nodes-ends zero top prefix rest leaf (omega (arith, fewer, h)) a.1))
        | inr (inr (t, new)) ↦
            absurd (omega (arith, h, outside-cons-lt d.rendered stem (keys g.nodes) new a.0))
      ]
  render_nodes-ends (suc fuel) top prefix (stem ∷ rest) d h a =
      let last = is_nil rest in
      let labelled = with_label style g visible top last prefix stem d in
      let reference = with_reference style g visible top last prefix stem labelled in
      let leaf =
        with_no_deps style g visible top last prefix stem (mark style g visible stem labelled) in
      let same : left reference ≡ left d = left-reference top last prefix stem labelled in
      let fewer : left leaf ≤ left d = omega (
        arith,
        left-no_deps top last prefix stem (mark style g visible stem labelled),
        left-mark-le stem labelled,
      ) in
      elim (turn-cases d.rendered (children style g visible stem) stem) [
        | inl t ↦
            simp (t, render_nodes)
              (after d reference (omega (arith, same)) (
                render_nodes-ends (suc fuel) top prefix rest reference (omega (arith, same, h))
                  a.1))
        | inr (inl t) ↦
            simp (t, render_nodes)
              (after d leaf fewer
                (render_nodes-ends (suc fuel) top prefix rest leaf (omega (arith, fewer, h)) a.1))
        | inr (inr (t, new)) ↦
            let marked = mark style g visible stem labelled in
            let less : suc (left marked) ≤ left d =
              omega (arith, outside-cons-lt d.rendered stem (keys g.nodes) new a.0) in
            let (inner, ran, k) =
              render_nodes-ends fuel false (under style g visible top last prefix)
                (children style g visible stem) marked (omega (arith, less, h))
                (children-nodes stem) in
            let smaller : left inner ≤ left d = omega (arith, k, less) in
            simp (t, render_nodes, ran)
              (after d inner smaller (
                render_nodes-ends (suc fuel) top prefix rest inner (omega (arith, smaller, h)) a.1))
      ]

elem-without_parent :
    (g : Graph) (visible xs : List String) (x : String)
    → elem x (without_parent g visible xs) ≡ true
    → elem x xs ≡ true
unfolding without_parent
elem-without_parent g visible [] x h = h
elem-without_parent g visible (y ∷ xs) x h =
    elim (Bool-cases (any (λ p. elem p visible) (predecessors g y))) [
      | inl e ↦ ground (arith, elem-without_parent g visible xs x (simp (e, without_parent) at h))
      | inr e ↦ elim (elem-cons x y (without_parent g visible xs) (simp (e, without_parent) at h)) [
        | inl q ↦ ground (arith, q, eq_refl x)
        | inr later ↦ ground (arith, elem-without_parent g visible xs x later)
      ]
    ]

elem-first_of : (xs : List String) (x : String) → elem x (first_of xs) ≡ true → elem x xs ≡ true
unfolding first_of
elem-first_of [] x h = h
elem-first_of (y ∷ xs) x h = ground (arith, h)

roots_of-nodes :
    (g : Graph) (visible : List String)
    → ((x : String) → elem x visible ≡ true → has x g.nodes ≡ true)
    → (x : String) → elem x (roots_of g visible) ≡ true
    → has x g.nodes ≡ true
unfolding roots_of
roots_of-nodes g visible nodes x h =
    let known = visible_only visible (keys g.nodes) in
    let roots = sorted (without_parent g visible known) in
    elim (Bool-cases (is_nil roots)) [
      | inl e ↦
          nodes x (rw elem-sorted at (elem-first_of (sorted visible) x (simp (e, roots_of) at h)))
      | inr e ↦
          elem-visible_only visible (keys g.nodes) x
            (elem-without_parent g visible known x (rw elem-sorted at (simp (e, roots_of) at h)))
    ]

filter_visible-ends :
    (g : Graph) (include_shipped : Bool)
    → IsValid g
    → (visible : List String) × (filter_visible g include_shipped ≡ some visible)
      × ((x : String) → elem x visible ≡ true → has x g.nodes ≡ true)
unfolding filter_visible
filter_visible-ends g true valid = (keys g.nodes, refl, λ x m. m)
filter_visible-ends g false valid =
    let (visible, e, shown) = filter_visible_correct g valid in
    (visible, e, λ x m. shown-node g valid x ((shown x).0 m))

-- Of a valid graph, with cycles or without, the text is always rendered.
pub render_text-ends :
    (g : Graph) (include_shipped unicode_ok : Bool)
    → IsValid g
    → (text : String) × (render_text g include_shipped unicode_ok ≡ some text)
unfolding render_text
render_text-ends g include_shipped unicode_ok valid =
    let (visible, e, nodes) = filter_visible-ends g include_shipped valid in
    let start : Drawing = record { lines = []; rendered = [] } in
    let (drawing, ran, _) =
      render_nodes-ends (style_of unicode_ok) g valid visible (length g.nodes) true ""
        (roots_of g visible) start
        (omega (arith, outside-le [] (keys g.nodes), length-keys g.nodes))
        (All-of_elem _ _ (roots_of-nodes g visible nodes)) in
    elim (Bool-cases (nothing_matches g visible)) [
      | inl n ↦ ("(no plans matched)", rw (e, n, render_text) refl)
      | inr n ↦ (join "\n" (drawing.lines ++ warnings g), rw (e, n, render_text, ran) refl)
    ]
