-- ===== src/Plans/Cycles/Sound.antt =====
-- scripts/plan-graph.py: the cycles that `_detect_cycles` reports are closed walks.
use qontinui_stack.Prelude.{
  ℕ, zero, suc, String, ◌≡◌, refl, ap, true, false, some, List, [], ◌∷◌, ◌++◌, ◌⊎◌, inl, inr, arith,
  elem, length, ◌==◌, eq_iff, Bool-cases, any, All, All-append,
}
use qontinui_stack.Prelude.Options.{bind-some}
use qontinui_stack.Python.Lists.{sorted, same_texts}
use qontinui_stack.Python.Sets.{elem-sorted, All-of_elem}
use qontinui_stack.Plans.Graph.{Graph, keys, targets, Edge}
use qontinui_stack.Plans.Cycles.{
  Walk, closes, descends, skips, move, close, leave, explore, from_first, canonical, detect_cycles,
}

-- Each text of the list has an edge to the next.
abbrev pub IsWalk : Graph → List String → Type 0
IsWalk g [] = Unit
IsWalk g (a ∷ []) = Unit
IsWalk g (a ∷ b ∷ rest) = Edge g a b × IsWalk g (b ∷ rest)

-- A walk along at least one edge that ends where it starts.
abbrev pub IsCycle : Graph → List String → Type 0
IsCycle g cycle =
    (stem : String) × (inner : List String) × (cycle ≡ stem ∷ inner ++ stem ∷ []) × IsWalk g cycle

-- What the loop does with a neighbour, and when.
pub move-cases :
    (stack : List String) (w : Walk) (n : String)
    → (move stack w n ≡ closes) × (elem n stack ≡ true)
      ⊎ (move stack w n ≡ skips) × (elem n w.visited ≡ true)
      ⊎ (move stack w n ≡ descends) × (elem n stack ≡ false) × (elem n w.visited ≡ false)
unfolding move
move-cases stack w n = elim (Bool-cases (elem n stack)) [
  | inl e ↦ inl (rw e refl, e)
  | inr e ↦ elim (Bool-cases (elem n w.visited)) [
    | inl f ↦ inr (inl (rw (e, f) refl, f))
    | inr f ↦ inr (inr (rw (e, f) refl, e, f))
  ]
]

module _ (g : Graph) where
  IsWalk-tail : (a : String) (rest : List String) → IsWalk g (a ∷ rest) → IsWalk g rest
  IsWalk-tail a [] h = tt
  IsWalk-tail a (b ∷ rest) h = h.1

  IsWalk-extend :
      (stack : List String) (n m : String)
      → IsWalk g (stack ++ n ∷ [])
      → Edge g n m
      → IsWalk g ((stack ++ n ∷ []) ++ m ∷ [])
  IsWalk-extend [] n m h e = (e, tt)
  IsWalk-extend (a ∷ []) n m h e = (h.0, (e, tt))
  IsWalk-extend (a ∷ b ∷ rest) n m h e = (h.0, IsWalk-extend (b ∷ rest) n m h.1 e)

  from_first-IsWalk :
      (n : String) (stack : List String)
      → IsWalk g (stack ++ n ∷ [])
      → IsWalk g (from_first n stack ++ n ∷ [])
  from_first-IsWalk n [] h = tt
  from_first-IsWalk n (a ∷ rest) h = elim (Bool-cases (a == n)) [
    | inl e ↦ rw e h
    | inr e ↦ rw e (from_first-IsWalk n rest (IsWalk-tail a (rest ++ n ∷ []) h))
  ]

  from_first-starts :
      (n : String) (stack : List String)
      → elem n stack ≡ true
      → (inner : List String) × (from_first n stack ≡ n ∷ inner)
  from_first-starts n [] h = cc
  from_first-starts n (a ∷ rest) h = elim (Bool-cases (a == n)) [
    | inl e ↦ (rest, ground (arith, eq_iff a n))
    | inr e ↦
        let (inner, found) = from_first-starts n rest (ground (arith, eq_iff n a)) in
        (inner, ground (arith, found))
  ]

  close_sound :
      (stack : List String) (n : String) (w : Walk)
      → elem n stack ≡ true
      → IsWalk g (stack ++ n ∷ [])
      → All (IsCycle g) w.cycles
      → All (IsCycle g) (close stack n w).cycles
  unfolding close
  close_sound stack n w m h c =
      let cycle = from_first n stack ++ n ∷ [] in
      let (inner, found) = from_first-starts n stack m in
      let closed : IsCycle g cycle =
        (n, inner, ap (λ l. l ++ n ∷ []) found, from_first-IsWalk n stack h) in
      elim (Bool-cases (any (same_texts (canonical cycle)) w.seen_signatures)) [
        | inl e ↦ simp e c
        | inr e ↦ simp e (All-append (IsCycle g) w.cycles (cycle ∷ []) c (closed, tt))
      ]

  -- From each stem that the loop looks at, the stack goes on to a walk.
  explore_sound :
      (fuel : ℕ) (stack nbrs : List String) (w w' : Walk)
      → All (λ n. IsWalk g (stack ++ n ∷ [])) nbrs
      → All (IsCycle g) w.cycles
      → explore g fuel stack nbrs w ≡ some w'
      → All (IsCycle g) w'.cycles
  unfolding explore
  explore_sound fuel stack [] w w' h c e = ground (arith, c)
  explore_sound zero stack (n ∷ nbrs) w w' h c e = elim (move-cases stack w n) [
    | inl (m, here) ↦
        explore_sound zero stack nbrs (close stack n w) w' h.1 (close_sound stack n w here h.0 c)
          (rw (m, explore) at e)
    | inr (inl (m, _)) ↦ explore_sound zero stack nbrs w w' h.1 c (rw (m, explore) at e)
    | inr (inr (m, _, _)) ↦ cc (rw (m, explore) at e)
  ]
  explore_sound (suc fuel) stack (n ∷ nbrs) w w' h c e = elim (move-cases stack w n) [
    | inl (m, here) ↦
        explore_sound (suc fuel) stack nbrs (close stack n w) w' h.1
          (close_sound stack n w here h.0 c) (rw (m, explore) at e)
    | inr (inl (m, _)) ↦ explore_sound (suc fuel) stack nbrs w w' h.1 c (rw (m, explore) at e)
    | inr (inr (m, _, _)) ↦
        let (inner, ran, ends) = bind-some _ _ w' (rw (m, explore) at e) in
        explore_sound (suc fuel) stack nbrs (leave n inner) w' h.1
          (explore_sound fuel (stack ++ n ∷ []) (sorted (targets g n)) w inner
            (All-of_elem _ _ (λ b mem. IsWalk-extend stack n b h.0 (rw elem-sorted at mem))) c ran)
          ends
  ]

  -- Every cycle that is reported is a walk along edges that ends where it starts.
  pub detect_cycles_sound :
      (found : List (List String)) → detect_cycles g ≡ some found → All (IsCycle g) found
  unfolding detect_cycles
  detect_cycles_sound found e =
      let (w, ran, ends) = bind-some _ _ found e in
      let sound =
        explore_sound (length g.nodes) [] (sorted (keys g.nodes)) _ w (All-of_elem _ _ (λ n m. tt))
          tt ran in
      ground (arith, sound)
