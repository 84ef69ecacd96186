-- ===== src/Secdiff.antt =====
-- local/postgres/lib/qpg/secdiff.py: the difference of the security catalogs of publisher and
-- subscriber, and the premise on owners. The rows that the queries return are a parameter, and so is
-- json.loads on them.
pub mod Agreement
use qontinui_stack.Prelude.{
  String, ◌≡◌, refl, Bool, true, false, not, ◌&&◌, List, [], ◌∷◌, ◌++◌, map, is_nil,
}
use qontinui_stack.Python.Json.{Json}
use qontinui_stack.Python.Lists.{sorted}
use qontinui_stack.Partitions.{set_minus}

-- A database: its label, and the rows of each section's query.
pub record Side : Type 0 where
  pub label : String
  pub rows : String → List String

-- The keys of `queries`, in order.
unfoldable pub section_names : List String
section_names =
    "roles" ∷ "memberships" ∷ "policies" ∷ "relations" ∷ "relation_acls" ∷ "schema_acls"
    ∷ "default_acls" ∷ "views" ∷ []

pub record Entry : Type 0 where
  pub section : String
  pub only_on : String
  pub row : Json

pub data Violation : Type 0 where
  owner : (table owner expected : String) → Violation
  relforcerowsecurity : (table : String) → Violation

unfoldable pub owner_premise :
    (app_role : String) → List (String × String) → List String → List Violation
owner_premise app_role rows forced =
    map (λ r. owner r.0 r.1 app_role) rows ++ map (λ table. relforcerowsecurity table) forced

pub record Report : Type 0 where
  pub differences : List Entry
  pub owner_premise_violations : List Violation
  pub empty : Bool

module _ (loads : String → Json) (left right : Side) where
  abbrev entries : (section label : String) → List String → List Entry
  entries section label rows =
      map (λ row. record { section = section; only_on = label; row = loads row }) rows

  -- The turn of the loop for a section.
  unfoldable pub diff_section : String → List Entry
  unfolding sorted set_minus
  diff_section section =
      let a = left.rows section in
      let b = right.rows section in
      entries section left.label (sorted (set_minus a b))
      ++ entries section right.label (sorted (set_minus b a))

  unfoldable pub diff_sections : List String → List Entry
  unfolding diff_section
  diff_sections [] = []
  diff_sections (section ∷ rest) = diff_section section ++ diff_sections rest

  unfoldable pub diff : List Entry
  unfolding diff_sections section_names
  diff = diff_sections section_names

  -- `run`, with the rows of the two queries of `owner_premise`.
  unfoldable pub run : (app_role : String) → List (String × String) → List String → Report
  unfolding diff owner_premise
  run app_role rows forced =
      let premise = owner_premise app_role rows forced in
      record {
        differences = diff;
        owner_premise_violations = premise;
        empty = is_nil diff && is_nil premise;
      }
