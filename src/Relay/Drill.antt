-- ===== src/Relay/Drill.antt =====
-- Drill or real (aws/lambdas/operator_pager_relay/handler.py): the child alarms that a composite
-- notification names, and the history of the drill child.
use Prim.Native.String.{compare}
use text.Mathlib.Text.{is_lt}
use mathlib.Core.List.{reverse}
use qontinui_stack.Prelude.{
  ℕ, ◌+◌, ◌*◌, String, Bool, true, false, not, ◌||◌, Option, none, some, List, [], ◌∷◌, ltb, leb,
  ◌==◌, if◌then◌else◌,
}
use qontinui_stack.Python.{strip}
use qontinui_stack.Python.Json.{
  Json, str, Fields, end, get, truthy, as_object, as_text, as_items, to_list, Runtime, str_or_empty,
}
use qontinui_stack.Relay.Reasons.{drill_reason, alarm_names}

-- A Timestamp: boto3's datetime in microseconds, or another value.
pub data Stamp : Type 0 where
  datetime : ℕ → Stamp
  value : Json → Stamp

-- One entry of `AlarmHistoryItems`.
pub data Item : Type 0 where
  entry : (timestamp : Stamp) (history_data : Json) → Item
  not_a_dict : Item

pub record Step : Type 0 where
  pub at : ℕ
  pub old : String
  pub new : String
  pub reason : String

abbrev pub drill_ok_follow_secs : ℕ
drill_ok_follow_secs = 120

abbrev pub history_skew_secs : ℕ
history_skew_secs = 5

abbrev pub second : ℕ
second = 1000000

abbrev pub items_or_empty : Option (List Item) → List Item
items_or_empty none = []
items_or_empty (some items) = items

module _ (py : Runtime) where
  -- The names in `TriggeringChildren`.
  child_names : List Json → List String
  child_names [] = []
  child_names (child ∷ rest) = elim (as_object child) [
    | none ↦ child_names rest
    | some fields ↦ elim (as_text (get fields "Arn")) [
      | none ↦ child_names rest
      | some arn ↦ elim (alarm_names py.word_code py.digit_code arn) [
        | [] ↦ child_names rest
        | name ∷ _ ↦ name ∷ child_names rest
      ]
    ]
  ]

  abbrev children_field : Json → List String
  children_field v = elim (as_items v) [ none ↦ [] | some items ↦ child_names (to_list items) ]

  abbrev names_in_reason : Json → List String
  names_in_reason v = elim (as_text v) [
    | none ↦ []
    | some reason ↦ alarm_names py.word_code py.digit_code reason
  ]

  abbrev or_else : List String → List String → List String
  or_else [] other = other
  or_else (x ∷ xs) other = x ∷ xs

  unfoldable pub triggering_children : Fields → List String
  unfolding child_names
  triggering_children doc =
      or_else (children_field (get doc "TriggeringChildren"))
        (names_in_reason (get doc "NewStateReason"))

  -- `json.loads(item.get("HistoryData") or "{}")`, none where it raises.
  load_history : Json → Option Json
  load_history v =
      if truthy v then (elim (as_text v) [ none ↦ none | some s ↦ py.loads s ]) else py.loads "{}"

  abbrev stamp_text : Stamp → String
  stamp_text (datetime t) = py.iso_text t
  stamp_text (value v) = str_or_empty py v

  -- The drill id of an item that is a transition to ALARM with a drill's reason.
  alarm_drill : Json → Option String
  alarm_drill data' = elim (as_object data') [
    | none ↦ none
    | some fields ↦ elim (as_object (get fields "newState")) [
      | none ↦ none
      | some new ↦ elim (as_text (get new "stateValue")) [
        | none ↦ none
        | some state ↦
            if state == "ALARM"
            then drill_reason (str_or_empty py (get new "stateReason"))
            else none
      ]
    ]
  ]

  item_drill : Item → Option (String × String)
  item_drill not_a_dict = none
  item_drill (entry stamp history) = elim (load_history history) [
    | none ↦ none
    | some data' ↦ elim (alarm_drill data') [ none ↦ none | some id ↦ some (stamp_text stamp, id) ]
  ]

  abbrev newer : Option (String × String) → Option (String × String) → Option (String × String)
  newer best none = best
  newer none (some found) = some found
  newer (some best) (some found) = if is_lt (compare best.0 found.0) then some found else some best

  best_drill : Option (String × String) → List Item → Option (String × String)
  best_drill best [] = best
  best_drill best (item ∷ rest) = best_drill (newer best (item_drill item)) rest

  abbrev id_of : Option (String × String) → Option String
  id_of none = none
  id_of (some best) = some best.1

  unfoldable pub drill_id_from_history : Option (List Item) → Option String
  unfolding best_drill item_drill alarm_drill load_history
  drill_id_from_history items = id_of (best_drill none (items_or_empty items))

  -- The text branch strips and normalises before `fromisoformat`; an empty text gives none.
  unfoldable pub parse_ts : Stamp → Option ℕ
  parse_ts (datetime t) = some t
  parse_ts (value (str s)) = if s == "" then none else py.from_iso (strip s)
  parse_ts (value _) = none

  abbrev object_or_empty : Json → Fields
  object_or_empty v = elim (as_object v) [ none ↦ end | some fields ↦ fields ]

  read_step : Item → Option Step
  read_step not_a_dict = none
  read_step (entry stamp history) = elim (load_history history) [
    | none ↦ none
    | some data' ↦ elim (parse_ts stamp) [
      | none ↦ none
      | some at ↦ elim (as_object data') [
        | none ↦ none
        | some fields ↦
            let old = object_or_empty (get fields "oldState") in
            let new = object_or_empty (get fields "newState") in
            some (record {
              at = at;
              old = str_or_empty py (get old "stateValue");
              new = str_or_empty py (get new "stateValue");
              reason = str_or_empty py (get new "stateReason");
            })
      ]
    ]
  ]

  -- out.sort(key=...): stable, so a step goes behind those of its own time.
  pub insert_step : Step → List Step → List Step
  insert_step s [] = s ∷ []
  insert_step s (t ∷ rest) = if ltb s.at t.at then s ∷ t ∷ rest else t ∷ insert_step s rest

  read_steps : List Step → List Item → List Step
  read_steps sorted [] = sorted
  read_steps sorted (item ∷ rest) = elim (read_step item) [
    | none ↦ read_steps sorted rest
    | some s ↦ read_steps (insert_step s sorted) rest
  ]

  unfoldable pub steps : Option (List Item) → List Step
  unfolding read_steps insert_step read_step load_history parse_ts
  steps items = read_steps [] (items_or_empty items)

  pub up_to : ℕ → List Step → List Step
  up_to limit [] = []
  up_to limit (s ∷ rest) = let kept = up_to limit rest in if leb s.at limit then s ∷ kept else kept

  -- What the steps, newest first, say of a composite that moved to `state` at `at`.
  unfoldable pub decide : ℕ → String → List Step → Bool × Option String
  decide at state [] = (false, none)
  decide at state (last ∷ before) =
      if state == "ALARM"
      then (elim (drill_reason last.reason) [
        | none ↦ (false, none)
        | some id ↦ if last.new == "ALARM" then (true, some id) else (false, none)
      ])
      else if state == "OK"
      then if not (last.new == "OK")
          || not (last.old == "ALARM")
          || ltb (last.at + drill_ok_follow_secs * second) at
        then (false, none)
        else (elim before [
          | [] ↦ (false, none)
          | prev ∷ _ ↦ elim (drill_reason prev.reason) [
            | none ↦ (false, none)
            | some id ↦ if prev.new == "ALARM" then (true, some id) else (false, none)
          ]
        ])
      else (false, none)

  unfoldable pub drill_from_history : Option (List Item) → String → String → Bool × Option String
  unfolding up_to decide steps
  drill_from_history items change_time state = elim (parse_ts (value (str change_time))) [
    | none ↦ (false, none)
    | some at ↦ decide at state (reverse (up_to (at + history_skew_secs * second) (steps items)))
  ]
