-- ===== src/Plans/Graph.antt =====
-- scripts/plan-graph.py: the nodes and edges of the dependency graph. An edge from `a` to `b` says
-- that plan `a` depends on plan `b`. Dicts keep their insertion order and sets are lists without
-- order in what is stated of them.
pub mod Edges
pub mod Valid
use qontinui_stack.Prelude.{
  String, ◌≡◌, refl, Bool, true, false, Option, none, some, List, [], ◌∷◌, elem, map, if◌then◌else◌,
}
use qontinui_stack.Prelude.Assoc.{lookup, insert}
use qontinui_stack.Python.Sets.{add}

-- Status placeholders: a plan whose block has no lifecycle word, and a stem without a file.
abbrev pub unknown_status : String
unknown_status = "?"

abbrev pub missing_status : String
missing_status = "MISSING"

pub record Node : Type 0 where
  pub stem : String
  pub status : String
  pub location : Option String

pub record Graph : Type 0 where
  pub nodes : List (String × Node)
  pub edges : List (String × List String)
  pub missing : List String
  pub cycles : List (List String)

abbrev pub empty_graph : Graph
empty_graph = record { nodes = []; edges = []; missing = []; cycles = [] }

-- list(d)
abbrev pub keys {ℓ} : {V : Type ℓ} → List (String × V) → List String
keys [] = []
keys (entry ∷ others) = entry.0 ∷ keys others

-- key in d
abbrev pub has {ℓ} : {V : Type ℓ} → String → List (String × V) → Bool
has key entries = elem key (keys entries)

abbrev pub or_empty : Option (List String) → List String
or_empty none = []
or_empty (some xs) = xs

-- graph.edges.get(stem, ())
abbrev pub targets : Graph → String → List String
targets g stem = or_empty (lookup stem g.edges)

unfoldable pub ensure_node : String → String → Option String → Graph → Graph
ensure_node stem status location g = if has stem g.nodes then g else record g {
  nodes = insert stem (record { stem = stem; status = status; location = location }) g.nodes;
  edges = if has stem g.edges then g.edges else insert stem [] g.edges;
}

unfoldable pub add_edge : String → String → Graph → Graph
add_edge from to g = record g { edges = insert from (add to (targets g from)) g.edges }

-- The stems that depend on `stem`.
unfoldable pub sources : String → List (String × List String) → List String
sources stem [] = []
sources stem (entry ∷ others) =
    let rest = sources stem others in if elem stem entry.1 then entry.0 ∷ rest else rest

abbrev pub predecessors : Graph → String → List String
predecessors g stem = sources stem g.edges

abbrev pub Edge : Graph → String → String → Type 0
Edge g a b = elem b (targets g a) ≡ true

-- The walks along the edges, the empty one included.
pub data Leads (g : Graph) (a : String) : String → Type 0 where
  here : Leads g a a
  step : {b c : String} → Leads g a b → Edge g b c → Leads g a c

add_edge_test : targets (add_edge "a" "b" (add_edge "a" "b" empty_graph)) "a" ≡ "b" ∷ []
unfolding add_edge
add_edge_test = refl
