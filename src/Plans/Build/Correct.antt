-- ===== src/Plans/Build/Correct.antt =====
-- scripts/plan-graph.py: the graph that `build_graph` gives.
use qontinui_stack.Prelude.{
  String, ◌≡◌, refl, sym, true, not, ◌&&◌, ◌||◌, Option, none, some, List, [], ◌∷◌, ◌++◌, inl, inr,
  arith, elem, All, All-append, ◌==◌, eq_iff, eq_refl, Bool-cases,
}
use qontinui_stack.Prelude.Assoc.{lookup, insert, lookup-insert}
use qontinui_stack.Python.Json.{Runtime}
use qontinui_stack.Python.Lists.{sorted}
use qontinui_stack.Python.Sets.{elem-here, elem-cons, add}
use qontinui_stack.Plans.Files.{Files, forward_slashes}
use qontinui_stack.Plans.Graph.{
  Node, Graph, empty_graph, missing_status, has, ensure_node, add_edge,
}
use qontinui_stack.Plans.Graph.Valid.{IsValid}
use qontinui_stack.Plans.Graph.Edges.{has-insert, has-ensure_node, lookup-none}
use qontinui_stack.Plans.Cycles.Ends.{detect_cycles-ends}
use qontinui_stack.Plans.Build.{
  iter_plan_files, add_paths, add_dir, parse_plan, add_deps, add_plans, replace_stubs, is_stub,
  without_files, linked, build_graph,
}
use qontinui_stack.Plans.Build.Linked.{
  IsLinked, ensure_node-IsLinked, missing-IsLinked, add_edge-IsLinked,
}

has-add_edge :
    (from to : String) (g : Graph) (x : String)
    → has x g.nodes ≡ true
    → has x (add_edge from to g).nodes ≡ true
unfolding add_edge
has-add_edge from to g x h = h

module _ (py : Runtime) (fs : Files) where
  -- Each path stands under its stem.
  abbrev IsNamed : List (String × String) → Type 0
  IsNamed paths = All (λ entry. fs.stem entry.1 ≡ entry.0) paths

  add_paths-IsNamed :
      (paths : List String) (seen : List (String × String))
      → IsNamed seen
      → IsNamed (add_paths fs paths seen)
  add_paths-IsNamed [] seen h = h
  add_paths-IsNamed (path ∷ paths) seen h = elim (Bool-cases (has (fs.stem path) seen)) [
    | inl e ↦ simp e (add_paths-IsNamed paths seen h)
    | inr e ↦ simp e (
        add_paths-IsNamed paths (seen ++ (fs.stem path, path) ∷ [])
          (All-append _ seen _ h (refl, tt)))
  ]

  add_dir-IsNamed :
      (dir : String) (seen : List (String × String)) → IsNamed seen → IsNamed (add_dir fs dir seen)
  unfolding add_dir
  add_dir-IsNamed dir seen h = elim (Bool-cases (fs.exists dir)) [
    | inl e ↦ simp e (add_paths-IsNamed (sorted (fs.plans_in dir)) seen h)
    | inr e ↦ simp e h
  ]

  iter_plan_files-IsNamed :
      (plans_dir : String) (archive_dir : Option String)
      → IsNamed (iter_plan_files fs plans_dir archive_dir)
  unfolding iter_plan_files
  iter_plan_files-IsNamed plans_dir none = add_dir-IsNamed plans_dir [] tt
  iter_plan_files-IsNamed plans_dir (some archive_dir) =
      add_dir-IsNamed archive_dir (add_dir fs plans_dir []) (add_dir-IsNamed plans_dir [] tt)

  stem-parse_plan : (path : String) → (parse_plan py fs path).stem ≡ fs.stem path
  unfolding parse_plan
  stem-parse_plan path = ground arith

  module _ (plan_paths : List (String × String)) where
    -- A step keeps the invariant and the nodes that are there.
    abbrev Keeps : Graph → Graph → Type 0
    Keeps g g' =
        IsLinked plan_paths g' × ((x : String) → has x g.nodes ≡ true → has x g'.nodes ≡ true)

    add_deps-Keeps :
        (stem : String) (deps : List String) (g : Graph)
        → has stem g.nodes ≡ true
        → IsLinked plan_paths g
        → Keeps g (add_deps plan_paths stem deps g)
    unfolding add_deps
    add_deps-Keeps stem [] g known h = (h, λ x m. m)
    add_deps-Keeps stem (dep ∷ deps) g known h = elim (Bool-cases (has dep plan_paths)) [
      | inl e ↦
          let h' = add_edge-IsLinked plan_paths stem dep g known (ground (arith, e)) h in
          let next =
            add_deps-Keeps stem deps (add_edge stem dep g) (has-add_edge stem dep g stem known)
              h' in
          simp e (next.0, λ x m. next.1 x (has-add_edge stem dep g x m))
      | inr e ↦
          let here = has-ensure_node dep missing_status none g in
          let h' = missing-IsLinked plan_paths dep missing_status g h in
          let placed = ensure_node dep missing_status none g in
          let listed = record placed { missing = add dep placed.missing } in
          let to_known : has dep placed.nodes || has dep plan_paths ≡ true =
            ground (arith, here dep, eq_refl dep) in
          let from_known : has stem placed.nodes ≡ true = ground (arith, here stem) in
          let h'' = add_edge-IsLinked plan_paths stem dep listed from_known to_known h' in
          let next =
            add_deps-Keeps stem deps (add_edge stem dep listed)
              (has-add_edge stem dep listed stem from_known) h'' in
          simp e (next.0, λ x m. next.1 x (has-add_edge stem dep listed x (ground (arith, here x))))
    ]

    add_plans-Keeps :
        (rest : List (String × String)) (g : Graph)
        → All (λ entry. has (fs.stem entry.1) plan_paths ≡ true) rest
        → IsLinked plan_paths g
        → let g' = add_plans py fs plan_paths rest g in
          Keeps g g' × All (λ entry. has (fs.stem entry.1) g'.nodes ≡ true) rest
    unfolding add_plans
    add_plans-Keeps [] g a h = ((h, λ x m. m), tt)
    add_plans-Keeps (entry ∷ rest) g a h =
        let plan = parse_plan py fs entry.1 in
        let name = stem-parse_plan entry.1 in
        let placed = ensure_node plan.stem plan.status (some (forward_slashes entry.1)) g in
        let fresh =
          ensure_node-IsLinked plan_paths plan.stem plan.status (some (forward_slashes entry.1)) g
            (rw name a.0) h in
        let nodes = λ (x : String).
          has-ensure_node plan.stem plan.status (some (forward_slashes entry.1)) g x in
        let (linked, kept) =
          add_deps-Keeps plan.stem plan.deps placed
            (ground (arith, nodes plan.stem, eq_refl plan.stem)) fresh in
        let (all, found) =
          add_plans-Keeps rest (add_deps plan_paths plan.stem plan.deps placed) a.1 linked in
        (
          (all.0, λ x m. all.1 x (kept x (ground (arith, nodes x)))),
          (
            all.1 (fs.stem entry.1) (
                kept (fs.stem entry.1)
                  (ground (arith, nodes (fs.stem entry.1), eq_refl plan.stem, name))),
            found,
          ),
        )

    stub-has :
        (nodes : List (String × Node)) (stem : String)
        → is_stub (lookup stem nodes) ≡ true
        → has stem nodes ≡ true
    stub-has nodes stem e = elim (Bool-cases (has stem nodes)) [
      | inl m ↦ m
      | inr m ↦ cc (rw (lookup-none nodes stem m) at e)
    ]

    replaced-Keeps :
        (g : Graph) (node : Node)
        → has node.stem g.nodes ≡ true
        → IsLinked plan_paths g
        → Keeps g (record g { nodes = insert node.stem node g.nodes })
    replaced-Keeps g node known h =
        let nodes = λ (x : String). has-insert g.nodes node.stem x node in
        (
          record {
            half = λ a b edge. ground (arith, nodes b, h.half a b edge);
            origins = λ a m. ground (arith, nodes a, h.origins a m);
            dict = h.dict;
            named = λ a n m. elim (Bool-cases (a == node.stem)) [
              | inl q ↦ ground (arith, lookup-insert g.nodes node.stem a node, eq_iff a node.stem)
              | inr q ↦ h.named a n (ground (arith, lookup-insert g.nodes node.stem a node))
            ];
            listed = λ a m. ground (arith, nodes a, h.listed a, eq_iff a node.stem);
            absent = λ a m. ground (arith, nodes a, h.absent a m);
          },
          λ x m. ground (arith, nodes x, m),
        )

    replace_stubs-Keeps :
        (rest : List (String × String)) (g : Graph)
        → IsLinked plan_paths g
        → Keeps g (replace_stubs py fs rest g)
    unfolding replace_stubs
    replace_stubs-Keeps [] g h = (h, λ x m. m)
    replace_stubs-Keeps (entry ∷ rest) g h =
        let plan = parse_plan py fs entry.1 in
        let node : Node = record {
          stem = plan.stem;
          status = plan.status;
          location = some (forward_slashes entry.1);
        } in
        elim (Bool-cases (is_stub (lookup plan.stem g.nodes))) [
          | inl e ↦
              let (h', kept) = replaced-Keeps g node (stub-has g.nodes plan.stem e) h in
              let next =
                replace_stubs-Keeps rest (record g { nodes = insert plan.stem node g.nodes }) h' in
              simp e (next.0, λ x m. next.1 x (kept x m))
          | inr e ↦ simp e (replace_stubs-Keeps rest g h)
        ]

  has-stem :
      (plan_paths rest : List (String × String))
      → ((x : String) → has x rest ≡ true → has x plan_paths ≡ true)
      → IsNamed rest
      → All (λ entry. has (fs.stem entry.1) plan_paths ≡ true) rest
  has-stem plan_paths [] h n = tt
  has-stem plan_paths (entry ∷ rest) h n = (
    rw n.0 (h entry.0 (elem-here entry.0 _)),
    has-stem plan_paths rest (λ x m. h x (ground (arith, m))) n.1,
  )

  found_keys :
      (g : Graph) (rest : List (String × String))
      → IsNamed rest
      → All (λ entry. has (fs.stem entry.1) g.nodes ≡ true) rest
      → (x : String) → has x rest ≡ true
      → has x g.nodes ≡ true
  found_keys g [] n a x m = cc
  found_keys g (entry ∷ rest) n a x m = elim (elem-cons x entry.0 _ m) [
    | inl q ↦ rw (q, sym n.0) a.0
    | inr later ↦ found_keys g rest n.1 a.1 x later
  ]

  elem-without_files :
      (plan_paths : List (String × String)) (stems : List String) (x : String)
      → elem x (without_files plan_paths stems) ≡ elem x stems && not (has x plan_paths)
  elem-without_files plan_paths [] x = refl
  elem-without_files plan_paths (stem ∷ rest) x =
      ground (arith, elem-without_files plan_paths rest x, eq_iff x stem)

  module _ (plans_dir : String) (archive_dir : Option String) where
    abbrev paths : List (String × String)
    paths = iter_plan_files fs plans_dir archive_dir

    abbrev passed : Graph
    passed = replace_stubs py fs paths (add_plans py fs paths paths empty_graph)

    passed-lem :
        IsLinked paths passed × ((x : String) → has x paths ≡ true → has x passed.nodes ≡ true)
    passed-lem =
        let named = iter_plan_files-IsNamed plans_dir archive_dir in
        let start : IsLinked paths empty_graph = record {
          half = λ a b edge. cc;
          origins = λ a m. m;
          dict = tt;
          named = λ a node m. cc;
          listed = λ a m. cc;
          absent = λ a m. m;
        } in
        let ((h, _), all) =
          add_plans-Keeps paths paths empty_graph (has-stem paths paths (λ x m. m) named) start in
        let (h', kept) =
          replace_stubs-Keeps paths paths (add_plans py fs paths paths empty_graph) h in
        (
          h',
          λ x m. kept x (found_keys (add_plans py fs paths paths empty_graph) paths named all x m),
        )

    pub linked-IsValid : IsValid (linked py fs plans_dir archive_dir)
    unfolding linked
    linked-IsValid =
        let (h, found) = passed-lem in
        record {
          closed = λ a b edge. elim (Bool-cases (has b paths)) [
            | inl m ↦ found b m
            | inr m ↦ ground (arith, h.half a b edge)
          ];
          origins = h.origins;
          dict = h.dict;
          named = h.named;
        }

  -- Whatever the files hold, the graph is built: every file of the directories is a node, and
  -- the missing stems are exactly the nodes without a file.
  pub build_graph_correct :
      (plans_dir : String) (archive_dir : Option String)
      → (g : Graph) × (build_graph py fs plans_dir archive_dir ≡ some g)
        × IsValid g
        × ((x : String)
            → has x (iter_plan_files fs plans_dir archive_dir) ≡ true
            → has x g.nodes ≡ true)
        × ((x : String)
            → elem x g.missing
              ≡ has x g.nodes && not (has x (iter_plan_files fs plans_dir archive_dir)))
  unfolding build_graph linked
  build_graph_correct plans_dir archive_dir =
      let (h, found) = passed-lem plans_dir archive_dir in
      let valid = linked-IsValid plans_dir archive_dir in
      let g = linked py fs plans_dir archive_dir in
      let (cycles, e) = detect_cycles-ends g valid.closed in
      (
        record g { cycles = cycles },
        rw e refl,
        record {
          closed = valid.closed;
          origins = valid.origins;
          dict = valid.dict;
          named = valid.named;
        },
        found,
        λ x.
            let dropped =
              elem-without_files (paths plans_dir archive_dir)
                (passed plans_dir archive_dir).missing x in
            ground (arith, dropped, h.listed x, h.absent x),
      )
