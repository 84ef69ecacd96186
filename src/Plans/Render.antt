-- ===== src/Plans/Render.antt =====
-- scripts/plan-graph.py: the renderings of a graph as a text tree, as the value that is dumped as
-- JSON, and as Mermaid text. `isalnum` is a parameter; the recursion of the tree is on fuel.
pub mod Mermaid
pub mod Ends
use qontinui_stack.Prelude.{
  is_nil, ℕ, zero, suc, String, ◌≡◌, refl, Bool, true, false, not, ◌&&◌, ◌||◌, Option, none, some,
  List, [], ◌∷◌, ◌++◌, elem, any, length, map, ◌==◌, if◌then◌else◌,
}
use qontinui_stack.Prelude.Assoc.{lookup}
use qontinui_stack.Prelude.Decimal.{decimal}
use qontinui_stack.Prelude.Options.{◌>>=◌}
use qontinui_stack.Python.{concat, join}
use qontinui_stack.Python.Json.{Json, Items, Fields, null, str, arr, obj, nil, cons, end, field}
use qontinui_stack.Python.Lists.{sorted}
use qontinui_stack.Plans.Graph.{
  Node, Graph, empty_graph, missing_status, ensure_node, add_edge, keys, targets, predecessors,
  sources,
}
use qontinui_stack.Plans.Visible.{filter_visible}

-- The box-drawing texts.
pub record Style : Type 0 where
  pub tee : String
  pub elbow : String
  pub pipe : String
  pub blank : String

unfoldable pub style_of : Bool → Style
style_of true = record { tee = "├── "; elbow = "└── "; pipe = "│   "; blank = "    " }
style_of false = record { tee = "+-- "; elbow = "`-- "; pipe = "|   "; blank = "    " }

abbrev status_of : Option Node → String
status_of none = missing_status
status_of (some node) = node.status

unfoldable pub node_label : Graph → String → String
node_label g stem = concat (stem ∷ "  [" ∷ status_of (lookup stem g.nodes) ∷ "]" ∷ [])

unfoldable pub visible_only : List String → List String → List String
visible_only visible [] = []
visible_only visible (x ∷ xs) =
    let rest = visible_only visible xs in if elem x visible then x ∷ rest else rest

-- Visible nodes with no visible predecessor.
unfoldable pub without_parent : Graph → List String → List String → List String
unfolding sources
without_parent g visible [] = []
without_parent g visible (stem ∷ stems) =
    let rest = without_parent g visible stems in
    if any (λ p. elem p visible) (predecessors g stem) then rest else stem ∷ rest

unfoldable pub first_of : List String → List String
first_of [] = []
first_of (x ∷ xs) = x ∷ []

-- There is no visible node, and so no root.
unfoldable pub nothing_matches : Graph → List String → Bool
unfolding visible_only without_parent sorted
nothing_matches g visible =
    let nodes = visible_only visible (keys g.nodes) in
    is_nil (sorted (without_parent g visible nodes)) && is_nil nodes

-- The roots of the tree; where there is none, the smallest of the visible stems.
unfoldable pub roots_of : Graph → List String → List String
unfolding visible_only without_parent sorted first_of
roots_of g visible =
    let roots = sorted (without_parent g visible (visible_only visible (keys g.nodes))) in
    if is_nil roots then first_of (sorted visible) else roots

pub record Drawing : Type 0 where
  pub lines : List String
  pub rendered : List String

abbrev draw : List String → Drawing → Drawing
draw parts d = record d { lines = d.lines ++ concat parts ∷ [] }

-- What `render_node` does after it has drawn the label of a stem.
pub data Turn : Type 0 where
  refers ends opens : Turn

unfoldable pub turn : List String → List String → String → Turn
turn rendered children stem =
    if elem stem rendered then refers else if is_nil children then ends else opens

module _ (style : Style) (g : Graph) (visible : List String) where
  unfoldable pub children : String → List String
  unfolding visible_only
  children stem = sorted (visible_only visible (targets g stem))

  -- The prefix of what stands under a stem.
  abbrev pub under : Bool → Bool → String → String
  under top last prefix =
      concat (prefix ∷ (if top then "" else if last then style.blank else style.pipe) ∷ [])

  unfoldable pub with_label : Bool → Bool → String → String → Drawing → Drawing
  unfolding node_label
  with_label top last prefix stem d =
      draw
        (prefix
          ∷ (if top then "" else if last then style.elbow else style.tee)
          ∷ node_label g stem
          ∷ [])
        d

  abbrev pub with_reference : Bool → Bool → String → String → Drawing → Drawing
  with_reference top last prefix stem d =
      if is_nil (targets g stem)
      then d
      else draw (under top last prefix ∷ style.elbow ∷ "(see above)" ∷ []) d

  abbrev pub has_file : Option Node → Bool
  has_file none = false
  has_file (some node) = not (node.status == missing_status)

  abbrev pub with_no_deps : Bool → Bool → String → String → Drawing → Drawing
  with_no_deps top last prefix stem d =
      if has_file (lookup stem g.nodes)
      then draw (under top last prefix ∷ style.elbow ∷ "(no deps)" ∷ []) d
      else d

  abbrev pub mark : String → Drawing → Drawing
  mark stem d = record d { rendered = stem ∷ d.rendered }

  -- `render_node` for each of a list of siblings; `top` says that the depth is 0.
  unfoldable pub render_nodes : ℕ → Bool → String → List String → Drawing → Option Drawing
  unfolding turn
  render_nodes fuel top prefix [] d = some d
  render_nodes zero top prefix (stem ∷ rest) d =
      let last = is_nil rest in
      let labelled = with_label top last prefix stem d in
      elim (turn d.rendered (children stem) stem) [
        | refers ↦ render_nodes zero top prefix rest (with_reference top last prefix stem labelled)
        | ends ↦
            render_nodes zero top prefix rest
              (with_no_deps top last prefix stem (mark stem labelled))
        | opens ↦ none
      ]
  render_nodes (suc fuel) top prefix (stem ∷ rest) d =
      let last = is_nil rest in
      let labelled = with_label top last prefix stem d in
      elim (turn d.rendered (children stem) stem) [
        | refers ↦
            render_nodes (suc fuel) top prefix rest (with_reference top last prefix stem labelled)
        | ends ↦
            render_nodes (suc fuel) top prefix rest
              (with_no_deps top last prefix stem (mark stem labelled))
        | opens ↦ do
          inner ←
              render_nodes fuel false (under top last prefix) (children stem) (mark stem labelled)
          render_nodes (suc fuel) top prefix rest inner
      ]

abbrev cycle_line : String → List String → String
cycle_line start cycle = concat (start ∷ join " -> " cycle ∷ [])

-- The lines after the tree.
unfoldable pub warnings : Graph → List String
unfolding decimal sorted
warnings g =
    (if is_nil g.cycles
      then []
      else ""
        ∷ concat ("WARN: " ∷ decimal (length g.cycles) ∷ " cycle(s) detected:" ∷ [])
        ∷ map (cycle_line "  ") g.cycles)
    ++ (if is_nil g.missing
        then []
        else ""
          ∷ concat
              ("WARN: " ∷ decimal (length g.missing) ∷ " declared dep(s) have no plan file:" ∷ [])
          ∷ map (λ stem. concat ("  " ∷ stem ∷ [])) (sorted g.missing))

-- No stem is opened twice, so the depth is at most the number of stems.
unfoldable pub render_text : Graph → Bool → Bool → Option String
unfolding filter_visible nothing_matches roots_of style_of render_nodes warnings
render_text g include_shipped unicode_ok = do
  visible ← filter_visible g include_shipped
  if nothing_matches g visible then some "(no plans matched)" else (do
    drawing ←
        render_nodes (style_of unicode_ok) g visible (length g.nodes) true "" (roots_of g visible)
          (record { lines = []; rendered = [] })
    some (join "\n" (drawing.lines ++ warnings g)))
