-- ===== src/Plans/Cycles/Complete.antt =====
-- scripts/plan-graph.py: a graph in which `_detect_cycles` finds nothing has no cycle.
use qontinui_stack.Prelude.{
  ℕ, zero, suc, String, ◌≡◌, ◌≢◌, refl, subst, true, some, List, [], ◌∷◌, ◌++◌, inl, inr, arith,
  elem, any, length, Bool-cases, All,
}
use qontinui_stack.Prelude.Options.{bind-some}
use qontinui_stack.Python.Lists.{sorted, same_texts}
use qontinui_stack.Python.Sets.{elem-sorted, elem-cons, elem-here}
use qontinui_stack.Plans.Graph.{Graph, keys, has, targets, Edge, Leads, here, step}
use qontinui_stack.Plans.Cycles.{
  Walk, close, leave, fresh, explore, from_first, canonical, detect_cycles,
}
use qontinui_stack.Plans.Cycles.Sound.{move-cases, IsCycle, detect_cycles_sound}
use qontinui_stack.Plans.Graph.Valid.{IsClosed}
use qontinui_stack.Plans.Cycles.Ends.{detect_cycles-ends}

-- A list whose stems depend only on stems after them.
abbrev pub IsOrdered : Graph → List String → Type 0
IsOrdered g [] = Unit
IsOrdered g (v ∷ vs) = ((b : String) → Edge g v b → elem b vs ≡ true) × IsOrdered g vs

abbrev Agrees : Walk → Type 0
Agrees w = w.cycles ≡ [] → w.seen_signatures ≡ []

append-nonempty : {A : Type 0} (xs : List A) (x : A) → xs ++ x ∷ [] ≢ []
append-nonempty [] x h = cc
append-nonempty (y ∷ xs) x h = cc

close-nonempty :
    (stack : List String) (n : String) (w : Walk) → Agrees w → (close stack n w).cycles ≢ []
unfolding close
close-nonempty stack n w agrees h =
    let sig = canonical (from_first n stack ++ n ∷ []) in
    elim (Bool-cases (any (same_texts sig) w.seen_signatures)) [
      | inl e ↦ let bad = agrees (rw e at h) in cc (rw bad at e)
      | inr e ↦ append-nonempty w.cycles _ (rw e at h)
    ]

close-visited :
    (stack : List String) (n : String) (w : Walk) → (close stack n w).visited ≡ w.visited
unfolding close
close-visited stack n w = ground (arith)

module _ (g : Graph) where
  record Explored (nbrs : List String) (w w' : Walk) : Type 0 where
    agrees : Agrees w'
    back : w'.cycles ≡ [] → w.cycles ≡ []
    grows : (x : String) → elem x w.visited ≡ true → elem x w'.visited ≡ true
    reached : w'.cycles ≡ [] → (x : String) → elem x nbrs ≡ true → elem x w'.visited ≡ true
    ordered : w'.cycles ≡ [] → IsOrdered g w.visited → IsOrdered g w'.visited

  after_close :
      (stack : List String) (n : String) (nbrs : List String) (w w' : Walk)
      → Agrees w
      → (Agrees (close stack n w) → Explored nbrs (close stack n w) w')
      → Explored (n ∷ nbrs) w w'
  after_close stack n nbrs w w' agrees rest =
      let never : (close stack n w).cycles ≢ [] = close-nonempty stack n w agrees in
      let h = rest (λ e. absurd (never e)) in
      record {
        agrees = h.agrees;
        back = λ e. absurd (never (h.back e));
        grows = λ x m. h.grows x (rw close-visited m);
        reached = λ e. absurd (never (h.back e));
        ordered = λ e. absurd (never (h.back e));
      }

  after_skip :
      (n : String) (nbrs : List String) (w w' : Walk)
      → elem n w.visited ≡ true
      → Explored nbrs w w'
      → Explored (n ∷ nbrs) w w'
  after_skip n nbrs w w' seen h = record {
    agrees = h.agrees;
    back = h.back;
    grows = h.grows;
    reached = λ e x m. elim (elem-cons x n nbrs m) [
      | inl q ↦ rw q (h.grows n seen)
      | inr later ↦ h.reached e x later
    ];
    ordered = h.ordered;
  }

  after_descent :
      (n : String) (nbrs : List String) (w inner w' : Walk)
      → Explored (sorted (targets g n)) w inner
      → (Agrees (leave n inner) → Explored nbrs (leave n inner) w')
      → Explored (n ∷ nbrs) w w'
  after_descent n nbrs w inner w' h rest =
      let k = rest h.agrees in
      record {
        agrees = k.agrees;
        back = λ e. h.back (k.back e);
        grows = λ x m. k.grows x (ground (arith, h.grows x m));
        reached = λ e x m. elim (elem-cons x n nbrs m) [
          | inl q ↦ rw q (k.grows n (elem-here n inner.visited))
          | inr later ↦ k.reached e x later
        ];
        ordered = λ e o.
            k.ordered e
              (λ b edge. h.reached (k.back e) b (rw elem-sorted edge), h.ordered (k.back e) o);
      }

  unvisited : (w w' : Walk) → Agrees w → w ≡ w' → Explored [] w w'
  unvisited w w' a e = subst (Explored [] w) e (record {
    agrees = a;
    back = λ h. h;
    grows = λ x m. m;
    reached = λ h x m. cc;
    ordered = λ h o. o;
  })

  explore-Explored :
      (fuel : ℕ) (stack nbrs : List String) (w w' : Walk)
      → Agrees w
      → explore g fuel stack nbrs w ≡ some w'
      → Explored nbrs w w'
  unfolding explore
  explore-Explored fuel stack [] w w' a e = unvisited w w' a (ground (arith, e))
  explore-Explored zero stack (n ∷ nbrs) w w' a e = elim (move-cases stack w n) [
    | inl (m, _) ↦
        after_close stack n nbrs w w' a
          (λ b. explore-Explored zero stack nbrs (close stack n w) w' b (rw (m, explore) at e))
    | inr (inl (m, seen)) ↦
        after_skip n nbrs w w' seen (explore-Explored zero stack nbrs w w' a (rw (m, explore) at e))
    | inr (inr (m, _, _)) ↦ cc (rw (m, explore) at e)
  ]
  explore-Explored (suc fuel) stack (n ∷ nbrs) w w' a e = elim (move-cases stack w n) [
    | inl (m, _) ↦
        after_close stack n nbrs w w' a (λ b.
          explore-Explored (suc fuel) stack nbrs (close stack n w) w' b (rw (m, explore) at e))
    | inr (inl (m, seen)) ↦
        after_skip n nbrs w w' seen
          (explore-Explored (suc fuel) stack nbrs w w' a (rw (m, explore) at e))
    | inr (inr (m, _, _)) ↦
        let (inner, ran, ends) = bind-some _ _ w' (rw (m, explore) at e) in
        after_descent n nbrs w inner w'
          (explore-Explored fuel (stack ++ n ∷ []) (sorted (targets g n)) w inner a ran)
          (λ b. explore-Explored (suc fuel) stack nbrs (leave n inner) w' b ends)
  ]

  ordered-step :
      (vs : List String) (b c : String)
      → IsOrdered g vs
      → elem b vs ≡ true
      → Edge g b c
      → elem c vs ≡ true
  ordered-step [] b c o m edge = cc
  ordered-step (v ∷ vs) b c o m edge = elim (elem-cons b v vs m) [
    | inl q ↦ ground (arith, o.0 c (subst (λ z. Edge g z c) q edge))
    | inr later ↦ ground (arith, ordered-step vs b c o.1 later edge)
  ]

  -- In an ordered list whoever a stem leads to is in the list too, and never the stem itself.
  ordered-closed :
      (vs : List String) (a : String) {b : String}
      → IsOrdered g vs
      → elem a vs ≡ true
      → Leads g a b
      → elem b vs ≡ true
  ordered-closed vs a o m here = m
  ordered-closed vs a o m (step {b} {c} walk edge) =
      ordered-step vs b c o (ordered-closed vs a o m walk) edge

  ordered-acyclic :
      (vs : List String) (a b : String)
      → IsOrdered g vs
      → elem a vs ≡ true
      → Edge g a b
      → ¬ Leads g b a
  ordered-acyclic [] a b o m edge back = cc
  ordered-acyclic (v ∷ vs) a b o m edge back =
      let later : elem a vs ≡ true = elim (elem-cons a v vs m) [
        | inl q ↦ ordered-closed vs b o.1 (o.0 b (subst (λ z. Edge g z b) q edge)) back
        | inr later ↦ later
      ] in
      ordered-acyclic vs a b o.1 later edge back

  -- Where nothing is found, no node leads back to itself.
  detect_cycles_complete :
      (a b : String) → detect_cycles g ≡ some [] → has a g.nodes ≡ true → Edge g a b → ¬ Leads g b a
  unfolding detect_cycles
  detect_cycles_complete a b e m edge back =
      let (w, ran, ends) = bind-some _ _ [] e in
      let h =
        explore-Explored (length g.nodes) [] (sorted (keys g.nodes)) fresh w (λ _. refl) ran in
      let none_found : w.cycles ≡ [] = ground (arith, ends) in
      ordered-acyclic w.visited a b (h.ordered none_found tt)
        (h.reached none_found a (rw elem-sorted m)) edge back

  -- Where every dependency is a node, the search for cycles ends with a result, every cycle it
  -- reports is a closed walk along edges, and where it reports none no node leads back to itself.
  pub detect_cycles_correct :
      IsClosed g
      → (found : List (List String)) × (detect_cycles g ≡ some found)
        × All (IsCycle g) found
        × (found ≡ [] → (a b : String) → has a g.nodes ≡ true → Edge g a b → ¬ Leads g b a)
  detect_cycles_correct closed =
      let (found, e) = detect_cycles-ends g closed in
      (found, e, detect_cycles_sound g found e, λ q a b. detect_cycles_complete a b (rw q at e))
