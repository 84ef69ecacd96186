-- ===== src/Examples/Catalogs.antt =====
-- local/postgres/lib/qpg/secdiff.py on catalogs that agree, and on one with a role too strong.
use qontinui_stack.Prelude.{String, ◌≡◌, refl, ◌↔◌, true, List, [], ◌∷◌, ◌==◌, if◌then◌else◌}
use qontinui_stack.Python.Json.{Json, str}
use qontinui_stack.Python.Lists.{without}
use qontinui_stack.Secdiff.{Side, owner, relforcerowsecurity, diff, owner_premise, run}
use qontinui_stack.Secdiff.Agreement.{Agree, run-Agree}

-- The rows as texts, in place of what json.loads makes of them.
abbrev loads : String → Json
loads row = str row

abbrev with_roles : String → List String → Side
with_roles label roles = record {
  label = label;
  rows = λ section. if section == "roles" then roles else [];
}

abbrev publisher : Side
publisher = with_roles "pub" ("[\"coord_tenant\", false]" ∷ "[\"qontinui_user\", false]" ∷ [])

abbrev subscriber : Side
subscriber = with_roles "sub" ("[\"qontinui_user\", false]" ∷ "[\"coord_tenant\", false]" ∷ [])

abbrev too_strong : Side
too_strong = with_roles "sub" ("[\"qontinui_user\", true]" ∷ "[\"coord_tenant\", false]" ∷ [])

diff_test : diff loads publisher too_strong ≡ (
    record { section = "roles"; only_on = "pub"; row = str "[\"qontinui_user\", false]" }
    ∷ record { section = "roles"; only_on = "sub"; row = str "[\"qontinui_user\", true]" }
    ∷ [])
unfolding diff without
diff_test = refl

-- The order of the rows does not matter.
run_test : (run loads publisher subscriber "qontinui_user" [] []).empty ≡ true
unfolding run
run_test = refl

premise_test :
    owner_premise "qontinui_user" (("coord.plans", "postgres") ∷ []) ("coord.plans" ∷ [])
    ≡ (owner "coord.plans" "postgres" "qontinui_user" ∷ relforcerowsecurity "coord.plans" ∷ [])
unfolding owner_premise
premise_test = refl

abbrev no_rows : List (String × String)
no_rows = []

abbrev no_tables : List String
no_tables = []

run-Agree_example :
    ((run loads publisher subscriber "qontinui_user" no_rows no_tables).empty ≡ true)
    ↔ (Agree publisher subscriber × (no_rows ≡ []) × (no_tables ≡ []))
run-Agree_example = run-Agree loads publisher subscriber "qontinui_user" no_rows no_tables
