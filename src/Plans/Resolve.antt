-- ===== src/Plans/Resolve.antt =====
-- scripts/resolve-plan-deps.py: the status of each plan that a plan depends on, and whether all of
-- them are shipped.
pub mod Laws
use qontinui_stack.Prelude.{
  ℕ, String, ◌≡◌, refl, Bool, true, false, Option, none, some, List, [], ◌∷◌, ◌++◌, elem, length,
  map, ◌==◌, if◌then◌else◌,
}
use qontinui_stack.Prelude.Decimal.{decimal}
use qontinui_stack.Python.{concat, join}
use qontinui_stack.Python.Json.{Runtime}
use qontinui_stack.Plans.Files.{
  Content, readable, os_error, Files, Outcome, returns, input_error, forward_slashes,
  resolve_plans_dir, resolve_archive_dir,
}
use qontinui_stack.Plans.Status.{find_status_block, parse_depends_on, extract_lifecycle}

abbrev pub unsatisfied_not_shipped : List String
unsatisfied_not_shipped = "DRAFT" ∷ "VETTED" ∷ "IN PROGRESS" ∷ "PARTIAL" ∷ "NOT STARTED" ∷ []

abbrev pub unsatisfied_terminal : List String
unsatisfied_terminal = "SUPERSEDED" ∷ "OBSOLETE" ∷ []

-- Every call of the constructor in the source gives a status, so none is never held there.
pub record DepResolution : Type 0 where
  pub stem : String
  pub status : String
  pub location : Option String
  pub summary : Option String

pub record Blocker : Type 0 where
  pub stem : String
  pub reason : String

pub record Resolution : Type 0 where
  pub plan_stem : String
  pub depends_on : List DepResolution
  pub all_satisfied : Bool
  pub unsatisfied : List Blocker

abbrev pub no_deps : String → Resolution
no_deps stem = record { plan_stem = stem; depends_on = []; all_satisfied = true; unsatisfied = [] }

-- The reason why a dependency is not satisfied, for one that is not shipped.
unfoldable pub reason_of : String → String
reason_of status =
    if status == "MISSING"
    then "missing_file"
    else (if elem status unsatisfied_terminal then "terminal_blocker" else "not_yet_shipped")

-- The turn of one dependency in the loop of `resolve_plan`.
unfoldable pub add_dep : DepResolution → Resolution → Resolution
unfolding reason_of
add_dep dep r = record r {
  depends_on = r.depends_on ++ dep ∷ [];
  unsatisfied =
      if dep.status == "SHIPPED"
      then r.unsatisfied
      else r.unsatisfied ++ record { stem = dep.stem; reason = reason_of dep.status } ∷ [];
}

abbrev pub is_nil {ℓ} : {A : Type ℓ} → List A → Bool
is_nil [] = true
is_nil (x ∷ xs) = false

module _ (py : Runtime) (fs : Files) where
  unfoldable pub candidate_paths : String → String → Option String → List String
  candidate_paths stem plans_dir archive_dir =
      let file = concat (stem ∷ ".md" ∷ []) in
      let first = fs.child plans_dir file in
      elim archive_dir [
        | none ↦ first ∷ []
        | some dir ↦
            if fs.child dir file == first then first ∷ [] else first ∷ fs.child dir file ∷ []
      ]

  abbrev pub word_or_draft : Option String → String
  word_or_draft none = "DRAFT"
  word_or_draft (some word) = word

  -- The resolution by a candidate that is a file.
  unfoldable pub read_dep : String → String → DepResolution
  unfolding find_status_block extract_lifecycle forward_slashes
  read_dep stem path =
      let location = some (forward_slashes path) in
      elim (fs.content path) [
        | os_error _ ↦ record {
          stem = stem;
          status = "MISSING";
          location = location;
          summary = none;
        }
        | readable text ↦ elim (find_status_block text) [
          | none ↦ record { stem = stem; status = "DRAFT"; location = location; summary = none }
          | some block ↦
              let (lifecycle, summary) = extract_lifecycle py.word_code py.digit_code block in
              record {
                stem = stem;
                status = word_or_draft lifecycle;
                location = location;
                summary = summary;
              }
        ]
      ]

  unfoldable pub first_file : String → List String → DepResolution
  unfolding read_dep
  first_file stem [] = record { stem = stem; status = "MISSING"; location = none; summary = none }
  first_file stem (path ∷ paths) =
      let later = first_file stem paths in if fs.is_file path then read_dep stem path else later

  unfoldable pub resolve_dep : String → String → Option String → DepResolution
  unfolding first_file candidate_paths
  resolve_dep stem plans_dir archive_dir =
      first_file stem (candidate_paths stem plans_dir archive_dir)

  unfoldable pub resolve_all : String → Option String → List String → Resolution → Resolution
  unfolding resolve_dep add_dep
  resolve_all plans_dir archive_dir [] r = r
  resolve_all plans_dir archive_dir (stem ∷ stems) r =
      resolve_all plans_dir archive_dir stems (add_dep (resolve_dep stem plans_dir archive_dir) r)

  -- The resolution of a plan whose file was read.
  unfoldable pub resolve_text : String → String → String → Option String → Resolution
  unfolding resolve_all find_status_block parse_depends_on
  resolve_text plan_stem text plans_dir archive_dir = elim (find_status_block text) [
    | none ↦ no_deps plan_stem
    | some block ↦
        let r =
          resolve_all plans_dir archive_dir (parse_depends_on py.word_code py.digit_code block)
            (no_deps plan_stem) in
        record r { all_satisfied = is_nil r.unsatisfied }
  ]

  unfoldable pub resolve_plan : String → String → Option String → Outcome Resolution
  unfolding resolve_text
  resolve_plan path plans_dir archive_dir =
      let stem = fs.stem path in
      if fs.exists path
      then (if fs.is_file path
          then elim (fs.content path) [
            | os_error e ↦ input_error (concat ("cannot read " ∷ path ∷ ": " ∷ e ∷ []))
            | readable text ↦ returns (resolve_text stem text plans_dir archive_dir)
          ]
          else input_error (concat ("not a file: " ∷ path ∷ [])))
      else input_error (concat ("plan file does not exist: " ∷ path ∷ []))

abbrev pub or_default : String → Option String → String
or_default default none = default
or_default default (some s) = if s == "" then default else s

abbrev summary_part : Option String → String
summary_part none = ""
summary_part (some s) = if s == "" then "" else concat (" — " ∷ s ∷ [])

abbrev dep_line : DepResolution → String
dep_line dep = concat (
    "    - "
    ∷ dep.stem
    ∷ " ["
    ∷ (if dep.status == "" then "?" else dep.status)
    ∷ "] @ "
    ∷ or_default "<not found>" dep.location
    ∷ summary_part dep.summary
    ∷ [])

abbrev blocker_line : Blocker → String
blocker_line b = concat ("    - " ∷ b.stem ∷ ": " ∷ b.reason ∷ [])

abbrev bool_text : Bool → String
bool_text true = "true"
bool_text false = "false"

unfoldable pub format_human : Resolution → String
unfolding decimal
format_human r =
    let top = concat ("Plan: " ∷ r.plan_stem ∷ []) in
    join "\n" (
      if is_nil r.depends_on
      then top ∷ "  (no Depends-On declared)" ∷ "Result: all_satisfied = true" ∷ []
      else top
          ∷ concat ("  Depends-On (" ∷ decimal (length r.depends_on) ∷ " dep(s)):" ∷ [])
          ∷ map dep_line r.depends_on
        ++ concat ("Result: all_satisfied = " ∷ bool_text r.all_satisfied ∷ [])
          ∷ (if is_nil r.unsatisfied then [] else "Unsatisfied:" ∷ map blocker_line r.unsatisfied))

-- What `main` returns for a resolution, or for the InputError that it catches.
unfoldable pub exit_code : Outcome Resolution → ℕ
exit_code (returns r) = if r.all_satisfied then 0 else 1
exit_code (input_error message) = 2

-- What `main` reads besides the file system: the plan's path, made absolute; the workspace's default
-- directory of plans; and the flag and the environment variable for either directory.
pub record Options : Type 0 where
  pub plan_path : String
  pub default_plans_dir : String
  pub plans_flag : Option String
  pub plans_env : Option String
  pub archive_flag : Option String
  pub archive_env : Option String

-- `_resolve_dirs` and what follows it in the `try` of `main`.
unfoldable pub resolve_in_dirs : Runtime → Files → Options → Outcome Resolution
unfolding resolve_plan resolve_plans_dir resolve_archive_dir
resolve_in_dirs py fs o = elim (resolve_plans_dir fs o.default_plans_dir o.plans_flag o.plans_env) [
  | input_error message ↦ input_error message
  | returns plans_dir ↦
      resolve_plan py fs o.plan_path plans_dir (resolve_archive_dir fs o.archive_flag o.archive_env)
]

-- The code that `main` returns.
unfoldable pub main : Runtime → Files → Options → ℕ
unfolding resolve_in_dirs exit_code
main py fs o = exit_code (resolve_in_dirs py fs o)
