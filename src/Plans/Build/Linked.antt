-- ===== src/Plans/Build/Linked.antt =====
-- scripts/plan-graph.py: what every step of `build_graph` keeps of its graph.
use qontinui_stack.Prelude.{
  String, ◌≡◌, refl, subst, ◌∙◌, true, false, ◌||◌, Option, none, some, List, [], ◌∷◌, inl, inr,
  arith, elem, ◌==◌, eq_iff, Bool-cases,
}
use qontinui_stack.Prelude.Assoc.{lookup, insert, lookup-insert}
use qontinui_stack.Python.Sets.{add, elem-add}
use qontinui_stack.Plans.Graph.{Node, Graph, has, targets, Edge, ensure_node, add_edge}
use qontinui_stack.Plans.Graph.Valid.{IsDict}
use qontinui_stack.Plans.Graph.Edges.{
  has-insert, has-ensure_node, targets-ensure_node, targets-add_edge, missing-ensure_node,
}

-- `plan_paths` holds the stems with a file. Here an edge may lead to a plan that is yet to be added.
pub record IsLinked (plan_paths : List (String × String)) (g : Graph) : Type 0 where
  pub half : (a b : String) → Edge g a b → has b g.nodes || has b plan_paths ≡ true
  pub origins : (a : String) → has a g.edges ≡ true → has a g.nodes ≡ true
  pub dict : IsDict g.edges
  pub named : (a : String) (node : Node) → lookup a g.nodes ≡ some node → node.stem ≡ a
  pub listed : (a : String) → has a g.nodes ≡ true → has a plan_paths || elem a g.missing ≡ true
  pub absent : (a : String) → elem a g.missing ≡ true → has a g.nodes ≡ true

IsDict-insert {ℓ} :
    {V : Type ℓ} (entries : List (String × V)) (k : String) (v : V)
    → IsDict entries
    → IsDict (insert k v entries)
IsDict-insert [] k v h = (refl, tt)
IsDict-insert (entry ∷ others) k v h = elim (Bool-cases (entry.0 == k)) [
  | inl e ↦ simp e (subst (λ z. has z others ≡ false) ((eq_iff entry.0 k).0 e) h.0, h.1)
  | inr e ↦
      simp e (has-insert others k entry.0 v ∙ ground (arith, h.0), IsDict-insert others k v h.1)
]

module _ (plan_paths : List (String × String)) where
  module _ (stem status : String) (location : Option String) (g : Graph)
      (h : IsLinked plan_paths g) where
    kept_origins :
        (a : String)
        → has a (ensure_node stem status location g).edges ≡ true
        → has a g.nodes || a == stem ≡ true
    unfolding ensure_node
    kept_origins a m = elim (Bool-cases (has stem g.nodes)) [
      | inl e ↦ ground (arith, h.origins a)
      | inr e ↦ ground (arith, h.origins a, has-insert g.edges stem a [])
    ]

    kept-IsDict : IsDict (ensure_node stem status location g).edges
    unfolding ensure_node
    kept-IsDict = elim (Bool-cases (has stem g.nodes)) [
      | inl e ↦ simp e h.dict
      | inr e ↦ elim (Bool-cases (has stem g.edges)) [
        | inl f ↦ simp (e, f) h.dict
        | inr f ↦ simp (e, f) (IsDict-insert g.edges stem [] h.dict)
      ]
    ]

    kept_named :
        (a : String) (node : Node)
        → lookup a (ensure_node stem status location g).nodes ≡ some node
        → node.stem ≡ a
    unfolding ensure_node
    kept_named a node m =
        let new : Node = record { stem = stem; status = status; location = location } in
        let changed = lookup-insert g.nodes stem a new in
        elim (Bool-cases (has stem g.nodes)) [
          | inl e ↦ h.named a node (ground (arith, m))
          | inr e ↦ elim (Bool-cases (a == stem)) [
            | inl q ↦ ground (arith, changed, eq_iff a stem)
            | inr q ↦ h.named a node (ground (arith, changed))
          ]
        ]

  pub ensure_node-IsLinked :
      (stem status : String) (location : Option String) (g : Graph)
      → has stem plan_paths ≡ true
      → IsLinked plan_paths g
      → IsLinked plan_paths (ensure_node stem status location g)
  ensure_node-IsLinked stem status location g known h =
      let nodes = λ (x : String). has-ensure_node stem status location g x in
      let missing = missing-ensure_node stem status location g in
      record {
        half = λ a b edge.
            ground (arith, nodes b, h.half a b, targets-ensure_node stem status location g a);
        origins = λ a m. nodes a ∙ kept_origins stem status location g h a m;
        dict = kept-IsDict stem status location g h;
        named = kept_named stem status location g h;
        listed = λ a m. ground (arith, nodes a, h.listed a, missing, eq_iff a stem);
        absent = λ a m. ground (arith, nodes a, h.absent a, missing);
      }

  -- A stem without a file becomes a node and is listed as missing.
  pub missing-IsLinked :
      (stem status : String) (g : Graph)
      → IsLinked plan_paths g
      → let placed = ensure_node stem status none g in
        IsLinked plan_paths (record placed { missing = add stem placed.missing })
  missing-IsLinked stem status g h =
      let nodes = λ (x : String). has-ensure_node stem status none g x in
      let missing = λ (x : String). elem-add stem x (ensure_node stem status none g).missing in
      let same = missing-ensure_node stem status none g in
      record {
        half = λ a b edge.
            ground (arith, nodes b, h.half a b, targets-ensure_node stem status none g a);
        origins = λ a m. nodes a ∙ kept_origins stem status none g h a m;
        dict = kept-IsDict stem status none g h;
        named = kept_named stem status none g h;
        listed = λ a m. ground (arith, nodes a, h.listed a, missing a, same);
        absent = λ a m. ground (arith, nodes a, h.absent a, missing a, same);
      }

  pub add_edge-IsLinked :
      (from to : String) (g : Graph)
      → has from g.nodes ≡ true
      → has to g.nodes || has to plan_paths ≡ true
      → IsLinked plan_paths g
      → IsLinked plan_paths (add_edge from to g)
  unfolding add_edge
  add_edge-IsLinked from to g at to_known h = record {
    half = λ a b edge. ground (arith, targets-add_edge from to g a b, h.half a b, eq_iff b to);
    origins = λ a m.
        ground
          (arith, has-insert g.edges from a (add to (targets g from)), h.origins a, eq_iff a from);
    dict = IsDict-insert g.edges from (add to (targets g from)) h.dict;
    named = h.named;
    listed = h.listed;
    absent = h.absent;
  }
