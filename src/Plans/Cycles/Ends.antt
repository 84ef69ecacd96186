-- ===== src/Plans/Cycles/Ends.antt =====
-- scripts/plan-graph.py: the recursion of `_detect_cycles` is no deeper than there are stems.
use qontinui_stack.Prelude.{
  ℕ, zero, suc, ◌≤◌, String, ◌≡◌, refl, true, some, List, [], ◌∷◌, ◌++◌, inl, inr, arith, length,
  All,
}
use qontinui_stack.Python.Lists.{sorted}
use qontinui_stack.Python.Sets.{All-of_elem, elem-sorted, outside, outside-le, outside-append-lt}
use qontinui_stack.Plans.Graph.{Graph, keys, has, targets}
use qontinui_stack.Plans.Graph.Valid.{IsClosed, length-keys}
use qontinui_stack.Plans.Cycles.{Walk, close, leave, fresh, explore, detect_cycles}
use qontinui_stack.Plans.Cycles.Sound.{move-cases}

module _ (g : Graph) (closed : IsClosed g) where
  abbrev IsNode : String → Type 0
  IsNode n = has n g.nodes ≡ true

  explore-ends :
      (fuel : ℕ) (stack nbrs : List String) (w : Walk)
      → outside stack (keys g.nodes) ≤ fuel
      → All IsNode nbrs
      → (w' : Walk) × (explore g fuel stack nbrs w ≡ some w')
  unfolding explore
  explore-ends fuel stack [] w f h = (w, ground arith)
  explore-ends zero stack (n ∷ nbrs) w f h = elim (move-cases stack w n) [
    | inl (m, _) ↦ rw (m, explore) (explore-ends zero stack nbrs (close stack n w) f h.1)
    | inr (inl (m, _)) ↦ rw (m, explore) (explore-ends zero stack nbrs w f h.1)
    | inr (inr (_, out, _)) ↦
        absurd (omega (arith, outside-append-lt stack n (keys g.nodes) out h.0))
  ]
  explore-ends (suc fuel) stack (n ∷ nbrs) w f h = elim (move-cases stack w n) [
    | inl (m, _) ↦ rw (m, explore) (explore-ends (suc fuel) stack nbrs (close stack n w) f h.1)
    | inr (inl (m, _)) ↦ rw (m, explore) (explore-ends (suc fuel) stack nbrs w f h.1)
    | inr (inr (m, out, _)) ↦
        let (inner, ran) =
          explore-ends fuel (stack ++ n ∷ []) (sorted (targets g n)) w
            (omega (arith, outside-append-lt stack n (keys g.nodes) out h.0))
            (All-of_elem IsNode _ (λ b mem. closed n b (rw elem-sorted at mem))) in
        rw (m, explore, ran) (explore-ends (suc fuel) stack nbrs (leave n inner) f h.1)
  ]

  -- Where every edge leads to a node, the fuel is enough.
  pub detect_cycles-ends : (found : List (List String)) × (detect_cycles g ≡ some found)
  unfolding detect_cycles
  detect_cycles-ends =
      let (w, ran) =
        explore-ends (length g.nodes) [] (sorted (keys g.nodes)) fresh
          (omega (arith, outside-le [] (keys g.nodes), length-keys g.nodes))
          (All-of_elem IsNode _ (λ b mem. rw elem-sorted at mem)) in
      (w.cycles, rw ran refl)
