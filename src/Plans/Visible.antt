-- ===== src/Plans/Visible.antt =====
-- scripts/plan-graph.py: `_filter_visible`. Both queues are held with their end first; the loops
-- are on fuel.
pub mod Flood
pub mod Correct
use qontinui_stack.Prelude.{
  ℕ, zero, suc, ◌+◌, String, ◌≡◌, refl, Bool, true, false, Option, none, some, List, [], ◌∷◌, elem,
  length, if◌then◌else◌,
}
use qontinui_stack.Prelude.Options.{◌>>=◌}
use qontinui_stack.Plans.Graph.{
  Node, Graph, empty_graph, ensure_node, add_edge, keys, targets, predecessors, sources,
}

abbrev pub hidden_leaf_statuses : List String
hidden_leaf_statuses = "SHIPPED" ∷ "SUPERSEDED" ∷ "OBSOLETE" ∷ []

unfoldable pub anchors : List (String × Node) → List String
anchors [] = []
anchors (entry ∷ others) =
    let rest = anchors others in
    if elem entry.1.status hidden_leaf_statuses then rest else entry.0 ∷ rest

pub record Spread : Type 0 where
  pub visible : List String
  pub queue : List String

-- The loop over the neighbours of the stem that left the queue.
unfoldable pub mark_all : List String → Spread → Spread
mark_all [] s = s
mark_all (x ∷ xs) s =
    mark_all xs
      (if elem x s.visible then s else record { visible = x ∷ s.visible; queue = x ∷ s.queue })

unfoldable pub spread : (String → List String) → ℕ → Spread → Option (List String)
unfolding mark_all
spread next zero s = elim s.queue [ [] ↦ some s.visible | cur ∷ rest ↦ none ]
spread next (suc fuel) s = elim s.queue [
  | [] ↦ some s.visible
  | cur ∷ rest ↦ spread next fuel (mark_all (next cur) (record s { queue = rest }))
]

-- Each turn takes a stem off the queue and each stem is put there at most twice.
unfoldable pub filter_visible : Graph → Bool → Option (List String)
unfolding anchors spread sources
filter_visible g true = some (keys g.nodes)
filter_visible g false =
    let fuel = length g.nodes + length g.nodes in
    let start = anchors g.nodes in
    do
      upward ← spread (predecessors g) fuel (record { visible = start; queue = start })
      spread (targets g) fuel (record { visible = upward; queue = start })
