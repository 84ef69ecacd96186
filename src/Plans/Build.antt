-- ===== src/Plans/Build.antt =====
-- scripts/plan-graph.py: the graph of all plans on disk. The content of a file is the same
-- both times that it is read.
pub mod Linked
pub mod Correct
use qontinui_stack.Prelude.{
  String, ◌≡◌, refl, Bool, true, false, ◌&&◌, Option, none, some, List, [], ◌∷◌, ◌++◌, elem, ◌==◌,
  if◌then◌else◌,
}
use qontinui_stack.Prelude.Assoc.{lookup, insert}
use qontinui_stack.Prelude.Options.{◌>>=◌}
use qontinui_stack.Python.Json.{Runtime}
use qontinui_stack.Python.Lists.{sorted}
use qontinui_stack.Python.Sets.{add}
use qontinui_stack.Plans.Files.{Content, readable, os_error, Files, forward_slashes}
use qontinui_stack.Plans.Status.{find_status_block, parse_depends_on, extract_lifecycle}
use qontinui_stack.Plans.Graph.{
  Node, Graph, empty_graph, unknown_status, missing_status, ensure_node, add_edge, has, keys,
}
use qontinui_stack.Plans.Cycles.{detect_cycles}

pub record Parsed : Type 0 where
  pub stem : String
  pub status : String
  pub deps : List String

-- The loop over the dependencies of a plan.
unfoldable pub add_deps : List (String × String) → String → List String → Graph → Graph
unfolding ensure_node add_edge
add_deps plan_paths stem [] g = g
add_deps plan_paths stem (dep ∷ deps) g = add_deps plan_paths stem deps (
    if has dep plan_paths
    then add_edge stem dep g
    else (let placed = ensure_node dep missing_status none g in
        add_edge stem dep (record placed { missing = add dep placed.missing })))

abbrev is_stub : Option Node → Bool
is_stub none = false
is_stub (some node) = node.status == missing_status

abbrev without_files : List (String × String) → List String → List String
without_files plan_paths [] = []
without_files plan_paths (stem ∷ rest) =
    let kept = without_files plan_paths rest in if has stem plan_paths then kept else stem ∷ kept

module _ (fs : Files) where
  -- The paths of one directory whose stem is new, added to `plan_paths`, which holds the stems seen.
  abbrev add_paths : List String → List (String × String) → List (String × String)
  add_paths [] seen = seen
  add_paths (path ∷ paths) seen =
      let stem = fs.stem path in
      add_paths paths (if has stem seen then seen else seen ++ (stem, path) ∷ [])

  abbrev add_dir : String → List (String × String) → List (String × String)
  unfolding sorted
  add_dir dir seen = if fs.exists dir then add_paths (sorted (fs.plans_in dir)) seen else seen

  -- plan_paths: the stem and path of each file of `_iter_plan_files`.
  unfoldable pub iter_plan_files : String → Option String → List (String × String)
  unfolding sorted
  iter_plan_files plans_dir none = add_dir plans_dir []
  iter_plan_files plans_dir (some archive_dir) = add_dir archive_dir (add_dir plans_dir [])

module _ (py : Runtime) (fs : Files) where
  unfoldable pub parse_plan : String → Parsed
  unfolding find_status_block parse_depends_on extract_lifecycle
  parse_plan path =
      let stem = fs.stem path in
      elim (fs.content path) [
        | os_error _ ↦ record { stem = stem; status = unknown_status; deps = [] }
        | readable text ↦ elim (find_status_block text) [
          | none ↦ record { stem = stem; status = "DRAFT"; deps = [] }
          | some block ↦ record {
            stem = stem;
            status = elim ((extract_lifecycle py.word_code py.digit_code block).0) [
              | none ↦ unknown_status
              | some word ↦ word
            ];
            deps = parse_depends_on py.word_code py.digit_code block;
          }
        ]
      ]

  -- The second pass over the plans.
  unfoldable pub add_plans : List (String × String) → List (String × String) → Graph → Graph
  unfolding add_deps parse_plan ensure_node forward_slashes
  add_plans plan_paths [] g = g
  add_plans plan_paths (entry ∷ rest) g =
      let plan = parse_plan entry.1 in
      add_plans plan_paths rest (
        add_deps plan_paths plan.stem plan.deps
          (ensure_node plan.stem plan.status (some (forward_slashes entry.1)) g))

  -- The third pass, which replaces nodes of plans that are held as missing.
  unfoldable pub replace_stubs : List (String × String) → Graph → Graph
  unfolding parse_plan forward_slashes
  replace_stubs [] g = g
  replace_stubs (entry ∷ rest) g =
      let plan = parse_plan entry.1 in
      let node : Node = record {
        stem = plan.stem;
        status = plan.status;
        location = some (forward_slashes entry.1);
      } in
      replace_stubs rest (
        if is_stub (lookup plan.stem g.nodes)
        then record g { nodes = insert plan.stem node g.nodes }
        else g)

  -- The graph before its cycles are looked for.
  unfoldable pub linked : String → Option String → Graph
  unfolding iter_plan_files add_plans replace_stubs
  linked plans_dir archive_dir =
      let plan_paths = iter_plan_files fs plans_dir archive_dir in
      let g = replace_stubs plan_paths (add_plans plan_paths plan_paths empty_graph) in
      record g { missing = without_files plan_paths g.missing }

  unfoldable pub build_graph : String → Option String → Option Graph
  unfolding linked detect_cycles
  build_graph plans_dir archive_dir =
      let g = linked plans_dir archive_dir in
      do cycles ← detect_cycles g; some (record g { cycles = cycles })
