-- ===== src/Plans/Subgraph/Correct.antt =====
-- scripts/plan-graph.py: the subgraph that `restrict_to_root` gives.
use qontinui_stack.Prelude.{
  suc, String, ◌≡◌, refl, sym, subst, ap, ◌∙◌, true, false, ◌&&◌, ◌||◌, some, List, [], ◌∷◌, ◌↔◌,
  inl, inr, arith, elem, ◌==◌, eq_iff, eq_refl, Bool-cases,
}
use qontinui_stack.Python.Sets.{elem-cons, elem-here}
use qontinui_stack.Plans.Graph.{
  Node, Graph, empty_graph, has, targets, Edge, Leads, here, step, ensure_node,
}
use qontinui_stack.Plans.Graph.Valid.{IsValid}
use qontinui_stack.Plans.Graph.Edges.{
  lookup-has, has-ensure_node, targets-ensure_node, missing-ensure_node,
}
use qontinui_stack.Plans.Subgraph.{
  Search, copy_node, copy_edges, push_all, visit, edges_outside, contained, restrict_to_root,
}
use qontinui_stack.Plans.Subgraph.Turn.{
  elem-push_all, targets-copy_edges, copy_edges-nodes, search-ends, search_rule,
}

module _ (g : Graph) (valid : IsValid g) where
  -- Every stem that a node leads to is a node.
  Leads-node : {a b : String} → has a g.nodes ≡ true → Leads g a b → has b g.nodes ≡ true
  Leads-node h here = h
  Leads-node h (step {b} {c} walk e) = valid.closed b c e

  copy_node-placed :
      (cur : String) (sub : Graph)
      → has cur g.nodes ≡ true
      → (node : Node) × (node.stem ≡ cur)
        × (copy_node g cur sub ≡ ensure_node node.stem node.status node.location sub)
  unfolding copy_node
  copy_node-placed cur sub h =
      let (node, e) = lookup-has g.nodes cur h in
      (node, valid.named cur node e, rw (e, copy_node) refl)

  -- The subgraph after a turn for a new stem.
  abbrev copied : String → Graph → Graph
  copied cur sub = copy_edges cur (targets g cur) (copy_node g cur sub)

  copied-has :
      (cur : String) (sub : Graph) (x : String)
      → has cur g.nodes ≡ true
      → has x (copied cur sub).nodes ≡ has x sub.nodes || x == cur
  copied-has cur sub x h =
      let (node, name, placed) = copy_node-placed cur sub h in
      let (nodes, _) = copy_edges-nodes cur (targets g cur) (copy_node g cur sub) in
      let changed = has-ensure_node node.stem node.status node.location sub x in
      rw (nodes, placed) (changed ∙ ap (λ z. has x sub.nodes || x == z) name)

  copied-missing :
      (cur : String) (sub : Graph) → has cur g.nodes ≡ true → (copied cur sub).missing ≡ sub.missing
  copied-missing cur sub h =
      let (node, name, placed) = copy_node-placed cur sub h in
      let (_, missing) = copy_edges-nodes cur (targets g cur) (copy_node g cur sub) in
      missing
      ∙ ap (λ z. z.missing) placed
      ∙ missing-ensure_node node.stem node.status node.location sub

  copied-targets :
      (cur : String) (sub : Graph) (x y : String)
      → has cur g.nodes ≡ true
      → elem y (targets (copied cur sub) x)
        ≡ elem y (targets sub x) || x == cur && elem y (targets g cur)
  copied-targets cur sub x y h =
      let (node, name, placed) = copy_node-placed cur sub h in
      let same =
        ap (λ z. targets z x) placed
        ∙ targets-ensure_node node.stem node.status node.location sub x in
      targets-copy_edges cur (targets g cur) (copy_node g cur sub) x y
      ∙ ap (λ z. elem y z || x == cur && elem y (targets g cur)) same

  module _ (root : String) (known : has root g.nodes ≡ true) where
    record Inv (s : Search) : Type 0 where
      seen : (x : String) → elem x s.seen ≡ true → Leads g root x
      queued : (x : String) → elem x s.queue ≡ true → Leads g root x
      source : elem root s.seen || elem root s.queue ≡ true
      closed :
          (x b : String)
          → elem x s.seen ≡ true
          → Edge g x b
          → elem b s.seen || elem b s.queue ≡ true
      nodes : (x : String) → has x s.sub.nodes ≡ elem x s.seen
      edges : (x y : String) → elem y (targets s.sub x) ≡ elem x s.seen && elem y (targets g x)
      missing : s.sub.missing ≡ []

    after_pop :
        (s : Search) (cur : String) (rest : List String) (x : String)
        → s.queue ≡ cur ∷ rest
        → elem x s.queue ≡ x == cur || elem x rest
    after_pop s cur rest x q = rw q refl

    Inv-again :
        (s : Search) (cur : String) (rest : List String)
        → s.queue ≡ cur ∷ rest
        → elem cur s.seen ≡ true
        → Inv s
        → Inv (record s { queue = rest })
    Inv-again s cur rest q e h =
        let popped = λ (x : String). after_pop s cur rest x q in
        record {
          seen = h.seen;
          queued = λ x m. h.queued x (ground (arith, popped x));
          source = ground (arith, popped root, h.source, eq_iff root cur);
          closed = λ x b m edge. ground (arith, popped b, h.closed x b m edge, eq_iff b cur);
          nodes = h.nodes;
          edges = h.edges;
          missing = h.missing;
        }

    Inv-new :
        (s : Search) (cur : String) (rest : List String)
        → s.queue ≡ cur ∷ rest
        → elem cur s.seen ≡ false
        → Inv s
        → Inv (record {
          sub = copy_edges cur (targets g cur) (copy_node g cur s.sub);
          seen = cur ∷ s.seen;
          queue = push_all (targets g cur) rest;
        })
    Inv-new s cur rest q e h =
        let popped = λ (x : String). after_pop s cur rest x q in
        let pushed = elem-push_all (targets g cur) rest in
        let to_cur = h.queued cur (rw q (elem-here cur rest)) in
        let node = Leads-node known to_cur in
        record {
          seen = λ x m. elim (elem-cons x cur s.seen m) [
            | inl z ↦ subst (Leads g root) (sym z) to_cur
            | inr before ↦ h.seen x before
          ];
          queued = λ x m. elim (Bool-cases (elem x (targets g cur))) [
            | inl edge ↦ step to_cur edge
            | inr other ↦ h.queued x (ground (arith, pushed x, popped x))
          ];
          source = ground (arith, popped root, h.source, pushed root);
          closed = λ x b m edge. elim (elem-cons x cur s.seen m) [
            | inl z ↦ ground (arith, pushed b, subst (λ a. Edge g a b) z edge)
            | inr before ↦ ground (arith, h.closed x b before edge, popped b, pushed b)
          ];
          nodes = λ x. ground (arith, copied-has cur s.sub x node, h.nodes x);
          edges = λ x y. elim (Bool-cases (x == cur)) [
            | inl z ↦
                let same = ap (λ a. elem y (targets g a)) ((eq_iff x cur).0 z) in
                ground (arith, copied-targets cur s.sub x y node, h.edges x y, same)
            | inr z ↦ ground (arith, copied-targets cur s.sub x y node, h.edges x y)
          ];
          missing = copied-missing cur s.sub node ∙ h.missing;
        }

    Inv-visit :
        (s : Search) (cur : String) (rest : List String)
        → s.queue ≡ cur ∷ rest
        → Inv s
        → Inv (visit g cur rest s)
    unfolding visit
    Inv-visit s cur rest q h = elim (Bool-cases (elem cur s.seen)) [
      | inl e ↦ simp e (Inv-again s cur rest q e h)
      | inr e ↦ simp e (Inv-new s cur rest q e h)
    ]

    Inv-start : Inv (record { sub = empty_graph; seen = []; queue = root ∷ [] })
    Inv-start = record {
      seen = λ x m. cc;
      queued = λ x m. elim (elem-cons x root [] m) [ inl e ↦ rw e here | inr none_left ↦ cc ];
      source = ground (arith, eq_refl root);
      closed = λ x b m edge. cc;
      nodes = λ x. refl;
      edges = λ x y. refl;
      missing = refl;
    }

    Leads-seen :
        (t : Search) → Inv t → t.queue ≡ [] → {x : String} → Leads g root x → elem x t.seen ≡ true
    Leads-seen t h q here = ground (arith, h.source, ap (elem root) q)
    Leads-seen t h q (step {b} {c} walk e) =
        ground (arith, h.closed b c (Leads-seen t h q walk) e, ap (elem c) q)

  -- From a node the search ends with the stems that the root leads to, all of their edges and
  -- no missing stem.
  pub restrict_to_root_correct :
      (root : String)
      → has root g.nodes ≡ true
      → (sub : Graph) × (restrict_to_root g root ≡ some sub)
        × ((x : String) → (has x sub.nodes ≡ true) ↔ Leads g root x)
        × ((x y : String) → Edge sub x y ↔ Leads g root x × Edge g x y)
        × (sub.missing ≡ [])
  unfolding restrict_to_root
  restrict_to_root_correct root known =
      let start : Search = record { sub = empty_graph; seen = []; queue = root ∷ [] } in
      let (t, ran) = search-ends g (suc (edges_outside [] g.edges)) start (omega arith) in
      let (h, q) =
        search_rule g (Inv root known) (Inv-visit root known) (suc (edges_outside [] g.edges)) start
          t (Inv-start root known) ran in
      (
        record t.sub { cycles = contained t.seen g.cycles },
        ground (arith, ran),
        λ x. (
          λ m. h.seen x (ground (arith, h.nodes x)),
          λ walk. ground (arith, h.nodes x, Leads-seen root known t h q walk),
        ),
        λ x y. (
          λ edge. (h.seen x (ground (arith, h.edges x y)), ground (arith, h.edges x y)),
          λ both. ground (arith, h.edges x y, Leads-seen root known t h q both.0),
        ),
        h.missing,
      )
