-- ===== src/Plans/Subgraph.antt =====
-- scripts/plan-graph.py: `restrict_to_root`. The queue is held with its end first, where Python
-- pops it and appends to it; the loop is on fuel.
pub mod Turn
pub mod Correct
use qontinui_stack.Prelude.{
  ℕ, zero, suc, ◌+◌, String, ◌≡◌, refl, Bool, true, false, Option, none, some, List, [], ◌∷◌, elem,
  all, length, if◌then◌else◌,
}
use qontinui_stack.Prelude.Assoc.{lookup}
use qontinui_stack.Prelude.Options.{◌>>=◌}
use qontinui_stack.Python.Sets.{add}
use qontinui_stack.Plans.Graph.{
  Node, Graph, empty_graph, missing_status, ensure_node, add_edge, has, targets,
}
use qontinui_stack.Plans.Cycles.{but_last}

pub record Search : Type 0 where
  pub sub : Graph
  pub seen : List String
  pub queue : List String

-- The node of a stem, or a placeholder for it.
unfoldable pub copy_node : Graph → String → Graph → Graph
unfolding ensure_node
copy_node g cur sub = elim (lookup cur g.nodes) [
  | some node ↦ ensure_node node.stem node.status node.location sub
  | none ↦
      let placed = ensure_node cur missing_status none sub in
      record placed { missing = add cur placed.missing }
]

abbrev pub push_all : List String → List String → List String
push_all [] queue = queue
push_all (x ∷ xs) queue = push_all xs (x ∷ queue)

unfoldable pub copy_edges : String → List String → Graph → Graph
unfolding add_edge
copy_edges cur [] sub = sub
copy_edges cur (nbr ∷ nbrs) sub = copy_edges cur nbrs (add_edge cur nbr sub)

-- One turn of the loop, for the stem that left the queue.
unfoldable pub visit : Graph → String → List String → Search → Search
unfolding copy_node copy_edges
visit g cur rest s = if elem cur s.seen then record s { queue = rest } else record {
  sub = copy_edges cur (targets g cur) (copy_node g cur s.sub);
  seen = cur ∷ s.seen;
  queue = push_all (targets g cur) rest;
}

unfoldable pub search : Graph → ℕ → Search → Option Search
unfolding visit
search g zero s = elim s.queue [ [] ↦ some s | cur ∷ rest ↦ none ]
search g (suc fuel) s = elim s.queue [
  | [] ↦ some s
  | cur ∷ rest ↦ search g fuel (visit g cur rest s)
]

-- How many edges leave the stems that are not in a set.
abbrev pub edges_outside : List String → List (String × List String) → ℕ
edges_outside set [] = 0
edges_outside set (entry ∷ others) =
    if elem entry.0 set then edges_outside set others else length entry.1 + edges_outside set others

abbrev contained : List String → List (List String) → List (List String)
contained seen [] = []
contained seen (cycle ∷ cycles) =
    let kept = contained seen cycles in
    if all (λ stem. elem stem seen) (but_last cycle) then cycle ∷ kept else kept

-- Each turn takes one stem off the queue, and each edge puts one there at most once.
unfoldable pub restrict_to_root : Graph → String → Option Graph
unfolding search ensure_node
restrict_to_root g root =
    if has root g.nodes
    then (do
      s ←
          search g (suc (edges_outside [] g.edges))
            (record { sub = empty_graph; seen = []; queue = root ∷ [] })
      some (record s.sub { cycles = contained s.seen g.cycles }))
    else (let placed = ensure_node root missing_status none empty_graph in
        some (record placed { missing = root ∷ [] }))
