-- ===== src/Plans/Subgraph/Turn.antt =====
-- scripts/plan-graph.py: one turn of the loop of `restrict_to_root`, and how many turns there are.
use qontinui_stack.Prelude.{
  ℕ, zero, suc, ◌+◌, ◌≤◌, String, ◌≡◌, refl, ap, false, ◌&&◌, ◌||◌, some, List, [], ◌∷◌, arith, inl,
  inr, elem, length, ◌==◌, eq_iff, Bool-cases, List-cases,
}
use qontinui_stack.Prelude.Assoc.{lookup}
use qontinui_stack.Plans.Graph.{Graph, or_empty, targets, add_edge}
use qontinui_stack.Plans.Graph.Edges.{targets-add_edge}
use qontinui_stack.Plans.Subgraph.{Search, copy_edges, push_all, visit, search, edges_outside}

pub elem-push_all :
    (xs q : List String) (y : String) → elem y (push_all xs q) ≡ elem y xs || elem y q
elem-push_all [] q y = refl
elem-push_all (x ∷ xs) q y = ground (arith, elem-push_all xs (x ∷ q) y)

length-push_all : (xs q : List String) → length (push_all xs q) ≡ length xs + length q
length-push_all [] q = omega arith
length-push_all (x ∷ xs) q = omega (arith, length-push_all xs (x ∷ q))

pub targets-copy_edges :
    (cur : String) (nbrs : List String) (sub : Graph) (x y : String)
    → elem y (targets (copy_edges cur nbrs sub) x)
      ≡ elem y (targets sub x) || x == cur && elem y nbrs
unfolding copy_edges
targets-copy_edges cur [] sub x y = ground arith
targets-copy_edges cur (nbr ∷ nbrs) sub x y = ground (
  arith,
  targets-copy_edges cur nbrs (add_edge cur nbr sub) x y,
  targets-add_edge cur nbr sub x y,
)

pub copy_edges-nodes :
    (cur : String) (nbrs : List String) (sub : Graph)
    → ((copy_edges cur nbrs sub).nodes ≡ sub.nodes)
      × ((copy_edges cur nbrs sub).missing ≡ sub.missing)
unfolding copy_edges add_edge
copy_edges-nodes cur [] sub = (refl, refl)
copy_edges-nodes cur (nbr ∷ nbrs) sub = copy_edges-nodes cur nbrs (add_edge cur nbr sub)

edges_outside-le :
    (set : List String) (x : String) (edges : List (String × List String))
    → edges_outside (x ∷ set) edges ≤ edges_outside set edges
edges_outside-le set x [] = omega arith
edges_outside-le set x (entry ∷ others) = ground (arith, edges_outside-le set x others)

edges_outside-cons :
    (set : List String) (x : String) (edges : List (String × List String))
    → elem x set ≡ false
    → length (or_empty (lookup x edges)) + edges_outside (x ∷ set) edges ≤ edges_outside set edges
edges_outside-cons set x [] h = omega arith
edges_outside-cons set x ((k, ds) ∷ others) h = elim (Bool-cases (k == x)) [
  | inl e ↦ ground (arith, edges_outside-le set x others, eq_iff k x)
  | inr e ↦ ground (arith, edges_outside-cons set x others h)
]

abbrev work : Graph → Search → ℕ
work g s = edges_outside s.seen g.edges + length s.queue

work-visit :
    (g : Graph) (cur : String) (rest : List String) (s : Search)
    → suc (work g (visit g cur rest s)) ≤ edges_outside s.seen g.edges + suc (length rest)
unfolding visit
work-visit g cur rest s =
    ground (arith, edges_outside-cons s.seen cur g.edges, length-push_all (targets g cur) rest)

module _ (g : Graph) where
  pub search-ends :
      (fuel : ℕ) (s : Search) → work g s ≤ fuel → (t : Search) × (search g fuel s ≡ some t)
  unfolding search
  search-ends zero s h = elim (List-cases s.queue) [
    | inl q ↦ (s, ground arith)
    | inr (cur, rest, q) ↦ absurd (omega (arith, ap length q))
  ]
  search-ends (suc fuel) s h = elim (List-cases s.queue) [
    | inl q ↦ (s, ground arith)
    | inr (cur, rest, q) ↦
        rw (q, search)
          (search-ends fuel (visit g cur rest s)
            (omega (arith, work-visit g cur rest s, ap length q)))
  ]

  -- An invariant that a turn keeps holds at the end, where the queue is empty.
  pub search_rule {ℓ} :
      (P : Search → Type ℓ)
      → ((s : Search) (cur : String) (rest : List String)
          → s.queue ≡ cur ∷ rest
          → P s
          → P (visit g cur rest s))
      → (fuel : ℕ) (s t : Search) → P s
      → search g fuel s ≡ some t
      → P t × (t.queue ≡ [])
  unfolding search
  search_rule P keep zero s t p e = elim (List-cases s.queue) [
    | inl q ↦ ground arith
    | inr (cur, rest, q) ↦ cc (rw (q, search) at e)
  ]
  search_rule P keep (suc fuel) s t p e = elim (List-cases s.queue) [
    | inl q ↦ ground arith
    | inr (cur, rest, q) ↦
        search_rule P keep fuel (visit g cur rest s) t (keep s cur rest q p) (rw (q, search) at e)
  ]
