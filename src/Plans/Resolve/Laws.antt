-- ===== src/Plans/Resolve/Laws.antt =====
-- scripts/resolve-plan-deps.py: what the resolution of a plan says of its dependencies.
use mathlib.Core.List.{append-nil, append_assoc}
use qontinui_stack.Prelude.{
  String, ◌≡◌, refl, sym, subst, ap, ◌∙◌, true, false, Option, none, some, List, [], ◌∷◌, ◌++◌, map,
  ◌⊎◌, ◌↔◌, inl, inr, arith, All, ◌==◌, eq_iff, Bool-cases, Option-cases, if◌then◌else◌,
}
use qontinui_stack.Python.Json.{Runtime}
use qontinui_stack.Plans.Files.{
  Content, readable, os_error, Files, Outcome, returns, input_error, given, first_text,
  resolve_plans_dir, resolve_archive_dir,
}
use qontinui_stack.Plans.Status.{find_status_block, parse_depends_on}
use qontinui_stack.Plans.Resolve.{
  DepResolution, Blocker, Resolution, no_deps, reason_of, add_dep, is_nil, resolve_dep, resolve_all,
  resolve_text, resolve_plan, exit_code, Options, resolve_in_dirs, main,
}

-- The dependencies that are not shipped, in their order, each with its reason.
abbrev pub blockers : List DepResolution → List Blocker
blockers [] = []
blockers (dep ∷ deps) =
    let rest = blockers deps in
    if dep.status == "SHIPPED"
    then rest
    else record { stem = dep.stem; reason = reason_of dep.status } ∷ rest

abbrev pub IsShipped : DepResolution → Type 0
IsShipped dep = dep.status ≡ "SHIPPED"

is_nil-blockers : (deps : List DepResolution) → (is_nil (blockers deps) ≡ true) ↔ All IsShipped deps
is_nil-blockers [] = (λ _. tt, λ _. refl)
is_nil-blockers (dep ∷ deps) = elim (Bool-cases (dep.status == "SHIPPED")) [
  | inl e ↦ ground (arith, is_nil-blockers deps, eq_iff dep.status "SHIPPED")
  | inr e ↦ ground (arith, eq_iff dep.status "SHIPPED")
]

blockers-add :
    (dep : DepResolution) (r : Resolution) (deps : List DepResolution)
    → (add_dep dep r).unsatisfied ++ blockers deps ≡ r.unsatisfied ++ blockers (dep ∷ deps)
unfolding add_dep
blockers-add dep r deps = elim (Bool-cases (dep.status == "SHIPPED")) [
  | inl e ↦ simp e refl
  | inr e ↦ simp e (append_assoc r.unsatisfied (_ ∷ []) (blockers deps))
]

satisfied-of :
    (unsatisfied : List Blocker) (deps : List DepResolution)
    → unsatisfied ≡ blockers deps
    → (is_nil unsatisfied ≡ true) ↔ All IsShipped deps
satisfied-of unsatisfied deps e =
    subst (λ u. (is_nil u ≡ true) ↔ All IsShipped deps) (sym e) (is_nil-blockers deps)

module _ (py : Runtime) (fs : Files) (plans_dir : String) (archive_dir : Option String) where
  abbrev pub dep_of : String → DepResolution
  dep_of stem = resolve_dep py fs stem plans_dir archive_dir

  resolve_all_lem :
      (stems : List String) (r : Resolution)
      → let r' = resolve_all py fs plans_dir archive_dir stems r in
        (r'.depends_on ≡ r.depends_on ++ map dep_of stems)
        × (r'.unsatisfied ≡ r.unsatisfied ++ blockers (map dep_of stems))
        × (r'.plan_stem ≡ r.plan_stem)
  unfolding resolve_all add_dep
  resolve_all_lem [] r = (sym (append-nil r.depends_on), sym (append-nil r.unsatisfied), refl)
  resolve_all_lem (stem ∷ stems) r =
      let dep = dep_of stem in
      let (deps, blocked, name) = resolve_all_lem stems (add_dep dep r) in
      (
        deps ∙ append_assoc r.depends_on (dep ∷ []) (map dep_of stems),
        blocked ∙ blockers-add dep r (map dep_of stems),
        name,
      )

  -- The stems that a plan declares: none where it has no status block.
  abbrev pub declared : String → List String
  declared text = elim (find_status_block text) [
    | none ↦ []
    | some block ↦ parse_depends_on py.word_code py.digit_code block
  ]

  -- What a resolution says, for the text of its plan.
  pub record IsResolved (text : String) (r : Resolution) : Type 0 where
    pub deps : r.depends_on ≡ map dep_of (declared text)
    pub blocked : r.unsatisfied ≡ blockers r.depends_on
    pub satisfied : (r.all_satisfied ≡ true) ↔ All IsShipped r.depends_on

  resolve_text-IsResolved :
      (stem text : String) → IsResolved text (resolve_text py fs stem text plans_dir archive_dir)
  unfolding resolve_text
  resolve_text-IsResolved stem text = elim (Option-cases (find_status_block text)) [
    | inl e ↦ record {
      deps = simp (e, resolve_text, declared) refl;
      blocked = simp (e, resolve_text, declared) refl;
      satisfied = simp (e, resolve_text, declared) (λ _. tt, λ _. refl);
    }
    | inr (block, e) ↦
        let stems = parse_depends_on py.word_code py.digit_code block in
        let (deps, blocked, _) = resolve_all_lem stems (no_deps stem) in
        let agree = blocked ∙ ap blockers (sym deps) in
        record {
          deps = simp (e, resolve_text, declared) deps;
          blocked = simp (e, resolve_text, declared) agree;
          satisfied = simp (e, resolve_text, declared) (satisfied-of _ _ agree);
        }
  ]

  Content-cases :
      (c : Content) → ((text : String) × (c ≡ readable text)) ⊎ ((e : String) × (c ≡ os_error e))
  Content-cases (readable text) = inl (text, refl)
  Content-cases (os_error e) = inr (e, refl)

  resolve_plan-returns :
      (path : String) (r : Resolution)
      → resolve_plan py fs path plans_dir archive_dir ≡ returns r
      → (text : String) × (fs.exists path ≡ true)
        × (fs.is_file path ≡ true)
        × (fs.content path ≡ readable text)
        × (resolve_text py fs (fs.stem path) text plans_dir archive_dir ≡ r)
  unfolding resolve_plan
  resolve_plan-returns path r e = elim (Content-cases (fs.content path)) [
    | inl (text, c) ↦ elim (Bool-cases (fs.exists path)) [
      | inl x ↦ elim (Bool-cases (fs.is_file path)) [
        | inl f ↦ (text, x, f, c, ground (arith, rw (c, x, f, resolve_plan) at e))
        | inr f ↦ cc (rw (c, x, f, resolve_plan) at e)
      ]
      | inr x ↦ cc (rw (c, x, resolve_plan) at e)
    ]
    | inr (error, c) ↦ elim (Bool-cases (fs.exists path)) [
      | inl x ↦ elim (Bool-cases (fs.is_file path)) [
        | inl f ↦ cc (rw (c, x, f, resolve_plan) at e)
        | inr f ↦ cc (rw (c, x, f, resolve_plan) at e)
      ]
      | inr x ↦ cc (rw (c, x, resolve_plan) at e)
    ]
  ]

  -- A plan that is resolved is a file that can be read; its dependencies are those that its text
  -- declares, in their order, the unsatisfied ones are those not shipped, each with its reason, and
  -- all are satisfied exactly where each is shipped.
  pub resolve_plan-IsResolved :
      (path : String) (r : Resolution)
      → resolve_plan py fs path plans_dir archive_dir ≡ returns r
      → (text : String) × (fs.content path ≡ readable text)
        × (fs.is_file path ≡ true)
        × IsResolved text r
  resolve_plan-IsResolved path r e =
      let (text, _, file, content, same) = resolve_plan-returns path r e in
      (
        text,
        content,
        file,
        subst (IsResolved text) same (resolve_text-IsResolved (fs.stem path) text),
      )

  exit_code-zero :
      (o : Outcome Resolution)
      → exit_code o ≡ 0
      → (r : Resolution) × (o ≡ returns r) × (r.all_satisfied ≡ true)
  unfolding exit_code
  exit_code-zero (returns r) e = (r, refl, ground (arith, e))
  exit_code-zero (input_error message) e = absurd (omega arith)

  exit_code-IsShipped :
      (path : String)
      → (exit_code (resolve_plan py fs path plans_dir archive_dir) ≡ 0) ↔ (
          (text : String) × (fs.exists path ≡ true)
          × (fs.is_file path ≡ true)
          × (fs.content path ≡ readable text)
          × All IsShipped (map dep_of (declared text)))
  unfolding exit_code resolve_plan
  exit_code-IsShipped path = (
    λ e.
        let (r, resolved, all_satisfied) =
          exit_code-zero (resolve_plan py fs path plans_dir archive_dir) e in
        let (text, x, file, content, same) = resolve_plan-returns path r resolved in
        let h = subst (IsResolved text) same (resolve_text-IsResolved (fs.stem path) text) in
        (text, x, file, content, subst (All IsShipped) h.deps (h.satisfied.0 all_satisfied)),
    λ (text, x, file, content, shipped).
        let r = resolve_text py fs (fs.stem path) text plans_dir archive_dir in
        let h = resolve_text-IsResolved (fs.stem path) text in
        let zero_code =
          ap (λ b. if b then 0 else 1)
            (h.satisfied.1 (subst (All IsShipped) (sym h.deps) shipped)) in
        rw (x, file, content, resolve_plan) zero_code,
  )

module _ (py : Runtime) (fs : Files) (o : Options) where
  -- The directory of plans: the flag's, the environment's, or the default.
  abbrev pub plans_at : String
  plans_at = fs.resolved (given o.default_plans_dir (first_text (o.plans_flag ∷ o.plans_env ∷ [])))

  abbrev pub archive_at : Option String
  archive_at = resolve_archive_dir fs o.archive_flag o.archive_env

  main-at :
      fs.is_dir plans_at ≡ true
      → main py fs o ≡ exit_code (resolve_plan py fs o.plan_path plans_at archive_at)
  unfolding main resolve_in_dirs resolve_plans_dir
  main-at d = simp (main, resolve_in_dirs, resolve_plans_dir, d) refl

  main-nowhere : fs.is_dir plans_at ≡ false → main py fs o ≡ 2
  unfolding main resolve_in_dirs resolve_plans_dir exit_code
  main-nowhere d = simp (main, resolve_in_dirs, resolve_plans_dir, d) refl

  -- The program returns 0 exactly where the directory of plans is there, the plan is an existing file
  -- that can be read, and each dependency that its text declares is shipped.
  pub main-IsShipped : (main py fs o ≡ 0) ↔ (
      (text : String) × (fs.is_dir plans_at ≡ true)
      × (fs.exists o.plan_path ≡ true)
      × (fs.is_file o.plan_path ≡ true)
      × (fs.content o.plan_path ≡ readable text)
      × All IsShipped
          (map (dep_of py fs plans_at archive_at) (declared py fs plans_at archive_at text)))
  main-IsShipped =
      let shipped = exit_code-IsShipped py fs plans_at archive_at o.plan_path in
      elim (Bool-cases (fs.is_dir plans_at)) [
        | inl d ↦ (
          λ e.
              let (text, x, file, content, all) = shipped.0 (sym (main-at d) ∙ e) in
              (text, d, x, file, content, all),
          λ (text, _, x, file, content, all). main-at d ∙ shipped.1 (text, x, file, content, all),
        )
        | inr d ↦ (
          λ e. absurd (omega (arith, main-nowhere d, e)),
          λ (text, is_dir, x, file, content, all). cc,
        )
      ]
