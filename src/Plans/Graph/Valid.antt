-- ===== src/Plans/Graph/Valid.antt =====
-- scripts/plan-graph.py: what holds of every graph that `build_graph` gives, and the edges read
-- backwards.
use qontinui_stack.Prelude.{
  String, ◌≡◌, refl, true, false, some, List, [], ◌∷◌, inl, inr, ◌↔◌, arith, elem, length, ◌==◌,
  eq_iff, Bool-cases,
}
use qontinui_stack.Prelude.Assoc.{lookup}
use qontinui_stack.Plans.Graph.{Node, Graph, keys, has, or_empty, sources, Edge, Leads, here, step}

-- Whatever a plan depends on is a node.
abbrev pub IsClosed : Graph → Type 0
IsClosed g = (a b : String) → Edge g a b → has b g.nodes ≡ true

-- No key stands twice.
abbrev pub IsDict {ℓ} : {V : Type ℓ} → List (String × V) → Type 0
IsDict [] = Unit
IsDict (entry ∷ others) = (has entry.0 others ≡ false) × IsDict others

pub record IsValid (g : Graph) : Type 0 where
  pub closed : IsClosed g
  pub origins : (a : String) → has a g.edges ≡ true → has a g.nodes ≡ true
  pub dict : IsDict g.edges
  pub named : (a : String) (node : Node) → lookup a g.nodes ≡ some node → node.stem ≡ a

pub length-keys {ℓ} :
    {V : Type ℓ} (entries : List (String × V)) → length (keys entries) ≡ length entries
length-keys [] = refl
length-keys (entry ∷ others) = omega (arith, length-keys others)

pub has-sources :
    (edges : List (String × List String)) (a b : String)
    → elem a (sources b edges) ≡ true
    → has a edges ≡ true
unfolding sources
has-sources [] a b h = h
has-sources (entry ∷ others) a b h = elim (Bool-cases (elem b entry.1)) [
  | inl e ↦ ground (arith, has-sources others a b, eq_iff a entry.0)
  | inr e ↦ ground (arith, has-sources others a b)
]

-- In a dict the sources of a stem are those with an edge to it.
pub elem-sources :
    (edges : List (String × List String)) (a b : String)
    → IsDict edges
    → (elem a (sources b edges) ≡ true) ↔ (elem b (or_empty (lookup a edges)) ≡ true)
unfolding sources
elem-sources [] a b h = (λ m. m, λ m. m)
elem-sources ((k, ds) ∷ others) a b h = elim (Bool-cases (k == a)) [
  | inl e ↦ ground (arith, elem-sources others a b h.1, has-sources others a b, eq_iff k a)
  | inr e ↦ ground (arith, elem-sources others a b h.1, eq_iff a k)
]

-- A walk with one more edge before it.
pub ahead : (g : Graph) (a b : String) {c : String} → Edge g a b → Leads g b c → Leads g a c
ahead g a b e here = step here e
ahead g a b e (step walk f) = step (ahead g a b e walk) f
