-- ===== src/Plans/Graph/Edges.antt =====
-- scripts/plan-graph.py: what `ensure_node` and `add_edge` change.
use qontinui_stack.Prelude.{
  String, ◌≡◌, refl, true, false, ◌&&◌, ◌||◌, Option, none, some, List, [], ◌∷◌, arith, inl, inr,
  elem, ◌==◌, eq_iff, Bool-cases,
}
use qontinui_stack.Prelude.Assoc.{lookup, insert, lookup-insert}
use qontinui_stack.Python.Sets.{add, elem-add}
use qontinui_stack.Plans.Graph.{Graph, has, targets, ensure_node, add_edge}

pub has-insert {ℓ} :
    {V : Type ℓ} (entries : List (String × V)) (k x : String) (v : V)
    → has x (insert k v entries) ≡ has x entries || x == k
has-insert [] k x v = ground arith
has-insert (entry ∷ others) k x v = elim (Bool-cases (entry.0 == k)) [
  | inl e ↦ ground (arith, eq_iff entry.0 k)
  | inr e ↦ ground (arith, has-insert others k x v)
]

-- A key without a value is no key.
pub lookup-none {ℓ} :
    {V : Type ℓ} (entries : List (String × V)) (x : String)
    → has x entries ≡ false
    → lookup x entries ≡ none
lookup-none [] x h = refl
lookup-none (entry ∷ others) x h =
    ground (arith, lookup-none others x, eq_iff x entry.0, eq_iff entry.0 x)

pub lookup-has {ℓ} :
    {V : Type ℓ} (entries : List (String × V)) (x : String)
    → has x entries ≡ true
    → (v : V) × (lookup x entries ≡ some v)
lookup-has [] x h = cc
lookup-has (entry ∷ others) x h = elim (Bool-cases (entry.0 == x)) [
  | inl e ↦ (entry.1, rw e refl)
  | inr e ↦ rw e (lookup-has others x (ground (arith, eq_iff x entry.0)))
]

pub has-ensure_node :
    (stem status : String) (location : Option String) (g : Graph) (x : String)
    → has x (ensure_node stem status location g).nodes ≡ has x g.nodes || x == stem
unfolding ensure_node
has-ensure_node stem status location g x = ground (
  arith,
  has-insert g.nodes stem x (record { stem = stem; status = status; location = location }),
  eq_iff x stem,
)

pub targets-ensure_node :
    (stem status : String) (location : Option String) (g : Graph) (x : String)
    → targets (ensure_node stem status location g) x ≡ targets g x
unfolding ensure_node
targets-ensure_node stem status location g x =
    ground (arith, lookup-insert g.edges stem x [], lookup-none g.edges x, eq_iff x stem)

pub targets-add_edge :
    (from to : String) (g : Graph) (x y : String)
    → elem y (targets (add_edge from to g) x) ≡ elem y (targets g x) || x == from && y == to
unfolding add_edge
targets-add_edge from to g x y = ground (
  arith,
  lookup-insert g.edges from x (add to (targets g from)),
  elem-add to y (targets g from),
  eq_iff x from,
)

pub missing-ensure_node :
    (stem status : String) (location : Option String) (g : Graph)
    → (ensure_node stem status location g).missing ≡ g.missing
unfolding ensure_node
missing-ensure_node stem status location g = elim (Bool-cases (has stem g.nodes)) [
  | inl e ↦ simp e refl
  | inr e ↦ simp e refl
]
