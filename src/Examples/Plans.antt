-- ===== src/Examples/Plans.antt =====
-- scripts/plan-graph.py and scripts/resolve-plan-deps.py on four plans, of which the first two
-- depend on each other.
use qontinui_stack.Prelude.{
  ℕ, String, ◌≡◌, refl, Bool, true, false, ◌&&◌, ◌||◌, not, ◌⊎◌, ◌↔◌, none, some, List, [], ◌∷◌,
  elem, map, All, leb, ◌==◌, if◌then◌else◌,
}
use qontinui_stack.Python.{concat}
use qontinui_stack.Plans.Files.{Files, Content, readable, os_error, returns}
use qontinui_stack.Plans.Status.{parse_depends_on}
use qontinui_stack.Plans.Status.Stems.{IsStem, IsUnique, parse_depends_on-IsStems}
use qontinui_stack.Plans.Resolve.{Resolution, Options, main, resolve_plan, resolve_text}
use qontinui_stack.Plans.Resolve.Laws.{
  IsShipped, IsResolved, declared, dep_of, resolve_plan-IsResolved, plans_at, archive_at,
  main-IsShipped,
}
use qontinui_stack.Plans.Graph.{Graph, empty_graph, ensure_node, add_edge, has, Edge, Leads}
use qontinui_stack.Plans.Graph.Valid.{IsValid}
use qontinui_stack.Plans.Build.{linked, build_graph, iter_plan_files}
use qontinui_stack.Plans.Build.Correct.{linked-IsValid, build_graph_correct}
use qontinui_stack.Plans.Cycles.{detect_cycles}
use qontinui_stack.Plans.Cycles.Sound.{IsCycle}
use qontinui_stack.Plans.Cycles.Complete.{detect_cycles_correct}
use qontinui_stack.Plans.Subgraph.{restrict_to_root}
use qontinui_stack.Plans.Subgraph.Correct.{restrict_to_root_correct}
use qontinui_stack.Plans.Visible.{filter_visible}
use qontinui_stack.Plans.Visible.Correct.{IsAbove, IsBelow, filter_visible_correct}
use qontinui_stack.Plans.Render.{children, with_label, render_text}
use qontinui_stack.Plans.Render.Ends.{render_text-ends}
use qontinui_stack.Plans.Render.Mermaid.{mermaid_id-injective}
use qontinui_stack.Examples.Pages.{py}

abbrev text_of : String → Content
text_of path =
    if path == "plans/2026-01-01-a.md"
    then readable "> **Status: DRAFT** Depends-On: 2026-01-02-b\n"
    else if path == "plans/2026-01-02-b.md"
    then readable "> **Status: SHIPPED 2026-01-03.** Depends-On: 2026-01-01-a, 2026-01-09-gone\n"
    else os_error "No such file"

abbrev stem_of : String → String
stem_of path =
    if path == "plans/2026-01-01-a.md"
    then "2026-01-01-a"
    else if path == "plans/2026-01-02-b.md"
    then "2026-01-02-b"
    else path

abbrev files : Files
files = record {
  exists = λ path. true;
  is_file = λ path. stem_of path == "2026-01-01-a" || stem_of path == "2026-01-02-b";
  is_dir = λ path. path == "plans";
  content = text_of;
  plans_in = λ dir. "plans/2026-01-01-a.md" ∷ "plans/2026-01-02-b.md" ∷ [];
  stem = stem_of;
  child = λ dir name. concat (dir ∷ "/" ∷ name ∷ []);
  resolved = λ path. path;
}

graph : Graph
unfolding linked
graph = linked py files "plans" none

graph-IsValid : IsValid graph
unfolding graph
graph-IsValid = linked-IsValid py files "plans" none

detect_cycles_correct_example :
    (found : List (List String)) × (detect_cycles graph ≡ some found)
    × All (IsCycle graph) found
    × (found ≡ [] → (a b : String) → has a graph.nodes ≡ true → Edge graph a b → ¬ Leads graph b a)
detect_cycles_correct_example = detect_cycles_correct graph graph-IsValid.closed

found_cycle :
    detect_cycles graph ≡ some (("2026-01-01-a" ∷ "2026-01-02-b" ∷ "2026-01-01-a" ∷ []) ∷ [])
unfolding detect_cycles graph
found_cycle = refl

build_graph_correct_example :
    (g : Graph) × (build_graph py files "plans" none ≡ some g)
    × IsValid g
    × ((x : String) → has x (iter_plan_files files "plans" none) ≡ true → has x g.nodes ≡ true)
    × ((x : String)
        → elem x g.missing ≡ has x g.nodes && not (has x (iter_plan_files files "plans" none)))
build_graph_correct_example = build_graph_correct py files "plans" none

a_is_node : has "2026-01-01-a" graph.nodes ≡ true
unfolding graph
a_is_node = refl

restrict_to_root_correct_example :
    (sub : Graph) × (restrict_to_root graph "2026-01-01-a" ≡ some sub)
    × ((x : String) → (has x sub.nodes ≡ true) ↔ Leads graph "2026-01-01-a" x)
    × ((x y : String) → Edge sub x y ↔ Leads graph "2026-01-01-a" x × Edge graph x y)
    × (sub.missing ≡ [])
restrict_to_root_correct_example =
    restrict_to_root_correct graph graph-IsValid "2026-01-01-a" a_is_node

filter_visible_correct_example :
    (visible : List String) × (filter_visible graph false ≡ some visible)
    × ((x : String) → (elem x visible ≡ true) ↔ (IsAbove graph x ⊎ IsBelow graph x))
filter_visible_correct_example = filter_visible_correct graph graph-IsValid

render_text-ends_example : (text : String) × (render_text graph false true ≡ some text)
render_text-ends_example = render_text-ends graph false true graph-IsValid

abbrev alnum_code : ℕ → Bool
alnum_code c = leb 97 c && leb c 122 || leb 65 c && leb c 90 || leb 48 c && leb c 57

abbrev stem : String
stem = "2026-01-01-a"

mermaid_id-injective_example : stem ≡ stem
mermaid_id-injective_example = mermaid_id-injective alnum_code stem stem refl refl refl refl

parse_depends_on-IsStems_example :
    All
      (IsStem py.word_code py.digit_code)
      (parse_depends_on py.word_code py.digit_code "Depends-On: 2026-01-02-b, 2026-01-02-b")
    × IsUnique
        (parse_depends_on py.word_code py.digit_code "Depends-On: 2026-01-02-b, 2026-01-02-b")
parse_depends_on-IsStems_example =
    parse_depends_on-IsStems py.word_code py.digit_code "Depends-On: 2026-01-02-b, 2026-01-02-b"

abbrev options : String → Options
options plans_dir = record {
  plan_path = "plans/2026-01-01-a.md";
  default_plans_dir = "plans";
  plans_flag = some plans_dir;
  plans_env = none;
  archive_flag = none;
  archive_env = none;
}

main-IsShipped_example : (main py files (options "plans") ≡ 0) ↔ (
    (text : String) × (files.is_dir (plans_at py files (options "plans")) ≡ true)
    × (files.exists "plans/2026-01-01-a.md" ≡ true)
    × (files.is_file "plans/2026-01-01-a.md" ≡ true)
    × (files.content "plans/2026-01-01-a.md" ≡ readable text)
    × All IsShipped (
        map
          (dep_of py files
            (plans_at py files (options "plans"))
            (archive_at py files (options "plans")))
          (declared py files
            (plans_at py files (options "plans"))
            (archive_at py files (options "plans"))
            text)))
main-IsShipped_example = main-IsShipped py files (options "plans")

main_test : map (λ dir. main py files (options dir)) ("plans" ∷ "nowhere" ∷ []) ≡ (0 ∷ 2 ∷ [])
unfolding main
main_test = refl

abbrev plan_a : String
plan_a = "> **Status: DRAFT** Depends-On: 2026-01-02-b\n"

resolution : Resolution
resolution = resolve_text py files "2026-01-01-a" plan_a "plans" none

resolution_test : resolve_plan py files "plans/2026-01-01-a.md" "plans" none ≡ returns resolution
unfolding resolve_plan resolution
resolution_test = refl

resolve_plan-IsResolved_example :
    (text : String) × (files.content "plans/2026-01-01-a.md" ≡ readable text)
    × (files.is_file "plans/2026-01-01-a.md" ≡ true)
    × IsResolved py files "plans" none text resolution
resolve_plan-IsResolved_example =
    resolve_plan-IsResolved py files "plans" none "plans/2026-01-01-a.md" resolution resolution_test

abbrev edge : String → String → Graph → Graph
unfolding ensure_node add_edge
edge a b g = add_edge a b g

abbrev plan : String → String → Graph → Graph
unfolding ensure_node
plan stem status g = ensure_node stem status none g

-- Here q is shipped and below the draft a, but its only path from a is by p, which is above b.
hidden : Graph
unfolding edge plan
hidden = edge "p" "b" (
    edge "p" "q" (
      edge "a" "p" (
        plan "b" "DRAFT" (plan "q" "SHIPPED" (plan "p" "SHIPPED" (plan "a" "DRAFT" empty_graph))))))

hidden_test : filter_visible hidden false ≡ some ("p" ∷ "a" ∷ "b" ∷ [])
unfolding filter_visible hidden
hidden_test = refl

-- A plan without edges, and two that depend on each other, which no root leads to.
apart : Graph
unfolding edge plan
apart =
    edge "c" "b" (edge "b" "c" (plan "c" "DRAFT" (plan "b" "DRAFT" (plan "a" "DRAFT" empty_graph))))

apart_test : render_text apart false false ≡ some "a  [DRAFT]\n`-- (no deps)"
unfolding render_text apart children with_label
apart_test = refl
