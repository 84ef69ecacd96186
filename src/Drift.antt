-- ===== src/Drift.antt =====
-- scripts/terraform-plan-drift.py: the classification of a terraform plan. Python's equality of JSON
-- values is a parameter, and so is the text that `!r` gives for a list of texts.
pub mod Tables
pub mod Negations
use qontinui_stack.Prelude.{
  is_nil, ℕ, zero, suc, String, ◌≡◌, refl, Bool, true, false, not, ◌&&◌, ◌||◌, Option, none, some,
  List, [], ◌∷◌, ◌++◌, elem, length, map, ltb, ◌==◌, if◌then◌else◌,
}
use qontinui_stack.Python.{concat, join}
use qontinui_stack.Python.Json.{Json, Fields, end, field, get, truthy}
use qontinui_stack.Python.Lists.{sorted, minus, same_texts}
use qontinui_stack.Python.Sets.{add}
use qontinui_stack.Drift.Tables.{
  Key, serving_resource_types, security_sensitive_create_types, negating_attributes,
  negating_attribute_priority, ci_owned_task_def_attributes, ci_owned_resource_types,
}

pub data Class : Type 0 where
  is_ok is_unknown benign_add in_place_change active_negation : Class

unfoldable pub severity : Class → ℕ
severity is_ok = 0
severity is_unknown = 1
severity benign_add = 2
severity in_place_change = 3
severity active_negation = 4

-- A classification, the attribute that drove it, and the reason.
pub record Verdict : Type 0 where
  pub class : Class
  pub attribute : Option String
  pub reason : String

abbrev verdict : Class → Option String → List String → Verdict
verdict class attribute parts = record {
  class = class;
  attribute = attribute;
  reason = concat parts;
}

abbrev same_key : Key → Key → Bool
same_key a b = a.0 == b.0 && a.1 == b.1

-- NEGATING_ATTRIBUTES.get(key)
unfoldable pub negation_of : List (Key × String) → Key → Option String
negation_of [] key = none
negation_of ((k, reason) ∷ rest) key =
    let later = negation_of rest key in if same_key k key then some reason else later

-- A negating attribute with its reason.
pub record Hit : Type 0 where
  pub attr : String
  pub reason : String

abbrev hit_or_none : String → Option String → List Hit → List Hit
hit_or_none attr none rest = rest
hit_or_none attr (some reason) rest = record { attr = attr; reason = reason } ∷ rest

unfoldable pub hits_of : String → List String → List Hit
unfolding negation_of
hits_of resource_type [] = []
hits_of resource_type (attr ∷ attrs) =
    hit_or_none attr (negation_of negating_attributes (resource_type, attr))
      (hits_of resource_type attrs)

-- The place of the key in the priorities, or their number.
abbrev index_of : Key → List Key → ℕ
index_of key [] = 0
index_of key (k ∷ rest) = let later = suc (index_of key rest) in if same_key k key then 0 else later

unfoldable pub rank : String → Hit → ℕ
rank resource_type hit = index_of (resource_type, hit.attr) negating_attribute_priority

-- min(hits, key=rank): the first of those with the least rank.
unfoldable pub least_hit : String → Hit → List Hit → Hit
unfolding rank
least_hit resource_type best [] = best
least_hit resource_type best (hit ∷ rest) =
    least_hit resource_type
      (if ltb (rank resource_type hit) (rank resource_type best) then hit else best) rest

abbrev others : String → List Hit → List String
others attr [] = []
others attr (hit ∷ rest) =
    let kept = others attr rest in if hit.attr == attr then kept else hit.attr ∷ kept

abbrev told : Hit → List Hit → List String
told best (a ∷ b ∷ rest) =
    best.reason ∷ " [also negating: " ∷ join ", " (others best.attr (a ∷ b ∷ rest)) ∷ "]" ∷ []
told best hits = best.reason ∷ []

abbrev first_of : List String → Option String
first_of [] = none
first_of (x ∷ xs) = some x

unfoldable pub classify_update : String → List String → List Hit → Verdict
unfolding least_hit
classify_update resource_type changed [] =
    verdict in_place_change (first_of changed) ("update in place" ∷ [])
classify_update resource_type changed (hit ∷ rest) =
    let best = least_hit resource_type hit rest in
    verdict active_negation (some best.attr) (told best (hit ∷ rest))

unfoldable pub classify_delete : String → Bool → Verdict
classify_delete resource_type creates =
    if elem resource_type serving_resource_types
    then verdict active_negation none (
        (if creates then "replace" else "destroy")
        ∷ " of a live serving resource ("
        ∷ resource_type
        ∷ ")"
        ∷ [])
    else verdict in_place_change none ("destroy of " ∷ resource_type ∷ [])

unfoldable pub classify_create : String → Verdict
classify_create resource_type =
    if elem resource_type security_sensitive_create_types
    then verdict in_place_change none (
        "create of a security-sensitive resource (" ∷ resource_type ∷ ") - a NEW "
        ∷ "grant or rule is still a change to who can reach what" ∷ [])
    else verdict benign_add none ("create" ∷ [])

module _ (repr : List String → String) where
  unfoldable pub classify_change : String → List String → List String → Verdict
  unfolding classify_delete classify_create classify_update hits_of minus same_texts
  classify_change resource_type actions changed =
      let acts = minus actions ("no-op" ∷ []) in
      if is_nil acts || same_texts actions ("no-op" ∷ [])
      then verdict is_ok none ("no change" ∷ [])
      else if same_texts actions ("read" ∷ [])
      then verdict is_ok none ("data source refresh" ∷ [])
      else if elem "delete" acts
      then classify_delete resource_type (elem "create" acts)
      else if same_texts acts ("create" ∷ [])
      then classify_create resource_type
      else if elem "update" acts
      then classify_update resource_type changed (hits_of resource_type changed)
      else verdict is_unknown none ("unrecognised actions " ∷ repr actions ∷ [])

unfoldable pub is_terraform_owned : String → List String → Bool
unfolding minus
is_terraform_owned resource_type changed = not (
    elem resource_type ci_owned_resource_types
    && not (is_nil changed)
    && is_nil (minus changed ci_owned_task_def_attributes))

-- One entry of resource_changes, with the defaults of its `or`s taken: its address and type, the
-- actions, and the values before and after, and those that are not known yet.
pub record Change : Type 0 where
  pub address : Option String
  pub type : String
  pub actions : List String
  pub before : Fields
  pub after : Fields
  pub after_unknown : Fields

abbrev names_of : Fields → List String
names_of end = []
names_of (field k v rest) = k ∷ names_of rest

-- The keys whose values differ, and those whose value is unknown, added to a set.
abbrev pub add_differing :
    (Json → Json → Bool) → Fields → Fields → List String → List String → List String
unfolding get
add_differing equal before after [] names = names
add_differing equal before after (key ∷ keys) names =
    add_differing equal before after keys
      (if equal (get before key) (get after key) then names else add key names)

abbrev pub add_unknown : Fields → List String → List String
unfolding truthy
add_unknown end names = names
add_unknown (field k v rest) names = add_unknown rest (if truthy v then add k names else names)

unfoldable pub changed_attributes : (Json → Json → Bool) → Change → List String
unfolding add_differing add_unknown sorted
changed_attributes equal change =
    let keys = names_of change.before ++ names_of change.after in
    sorted
      (add_unknown change.after_unknown (add_differing equal change.before change.after keys []))

pub record Record : Type 0 where
  pub resource : String
  pub kind : String
  pub attribute : Option String
  pub class : Class
  pub terraform_owned : Bool
  pub reason : String

abbrev or_type : Option String → String → String
or_type none kind = kind
or_type (some s) kind = if s == "" then kind else s

abbrev is_clean : Class → Bool
is_clean is_ok = true
is_clean class = false

module _ (repr : List String → String) (equal : Json → Json → Bool) where
  unfoldable pub record_of : Change → Record
  unfolding classify_change changed_attributes is_terraform_owned
  record_of change =
      let changed = changed_attributes equal change in
      let v = classify_change repr change.type change.actions changed in
      record {
        resource = or_type change.address change.type;
        kind = change.type;
        attribute = v.attribute;
        class = v.class;
        terraform_owned = is_terraform_owned change.type changed;
        reason = v.reason;
      }

  unfoldable pub classify_plan : List Change → List Record
  unfolding record_of
  classify_plan [] = []
  classify_plan (change ∷ rest) =
      let r = record_of change in
      let later = classify_plan rest in if is_clean r.class then later else r ∷ later

abbrev worst_from : Class → List Record → Class
unfolding severity
worst_from best [] = best
worst_from best (r ∷ rest) =
    worst_from (if ltb (severity best) (severity r.class) then r.class else best) rest

-- max(classifications, key=severity), the first of the greatest.
unfoldable pub worst : List Record → Class
unfolding worst_from
worst [] = is_ok
worst (r ∷ rest) = worst_from r.class rest
