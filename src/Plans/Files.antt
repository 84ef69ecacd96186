-- ===== src/Plans/Files.antt =====
-- scripts/resolve-plan-deps.py: the directories of plans and what the file system answers, which is
-- a parameter. A path is its text; the files that are read are UTF-8.
use Prim.Native.Char.{code}
use Prim.Native.String.{[] as nil, ◌∷◌ as cons}
use qontinui_stack.Prelude.{String, Bool, Option, none, some, List, [], ◌∷◌, nat_eq, if◌then◌else◌}
use qontinui_stack.Python.{concat, is_empty}

-- The content of a file, or the text of the OSError that reading it raises.
pub data Content : Type 0 where
  readable : String → Content
  os_error : String → Content

pub record Files : Type 0 where
  pub exists : String → Bool
  pub is_file : String → Bool
  pub is_dir : String → Bool
  pub content : String → Content
  -- the paths of the *.md files of a directory
  pub plans_in : String → List String
  -- path.stem, and directory / name
  pub stem : String → String
  pub child : String → String → String
  -- Path(raw).expanduser().resolve()
  pub resolved : String → String

-- A result, or the InputError that is raised.
pub data Outcome {ℓ} (A : Type ℓ) : Type ℓ where
  returns : A → Outcome A
  input_error : String → Outcome A

-- str(path).replace("\\", "/")
unfoldable pub forward_slashes : String → String
forward_slashes nil = ""
forward_slashes (cons c s) =
    let rest = forward_slashes s in if nat_eq (code c) b'\\' then cons "/" rest else cons c rest

-- value or default, for texts that may be absent
abbrev pub first_text : List (Option String) → Option String
first_text [] = none
first_text (none ∷ rest) = first_text rest
first_text (some s ∷ rest) = let later = first_text rest in if is_empty s then later else some s

abbrev pub given : String → Option String → String
given default none = default
given default (some s) = s

module _ (fs : Files) where
  -- The value of the flag, of the environment, or the default of the workspace.
  unfoldable pub resolve_plans_dir : String → Option String → Option String → Outcome String
  resolve_plans_dir default cli env =
      let dir = fs.resolved (given default (first_text (cli ∷ env ∷ []))) in
      if fs.is_dir dir
      then returns dir
      else input_error (
          concat (
            "plans dir does not exist: " ∷ dir ∷ " - set QONTINUI_PLANS_DIR "
            ∷ "(or --plans-dir) to your active plans directory" ∷ []))

  unfoldable pub resolve_archive_dir : Option String → Option String → Option String
  resolve_archive_dir cli env = elim (first_text (cli ∷ env ∷ [])) [
    | none ↦ none
    | some raw ↦ some (fs.resolved raw)
  ]
