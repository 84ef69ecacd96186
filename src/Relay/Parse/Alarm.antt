-- ===== src/Relay/Parse/Alarm.antt =====
-- `parse_alarm` of aws/lambdas/operator_pager_relay/handler.py: a CloudWatch notification.
use text.Mathlib.Text.{◌==◌ as str_eq}
use qontinui_stack.Prelude.{
  String, Bool, true, false, not, ◌&&◌, ◌||◌, Option, none, some, List, [], ◌∷◌, any, ◌==◌,
  if◌then◌else◌,
}
use qontinui_stack.Python.{concat}
use qontinui_stack.Python.Json.{
  Json, str, Fields, get, get_or, truthy, member, as_object, as_text, Runtime, str_of, str_or_empty,
}
use qontinui_stack.Relay.Types.{conditions, aws_agent_line, Page, Drop, Parsed, page, drop}
use qontinui_stack.Relay.Reasons.{ends_with}
use qontinui_stack.Relay.Drill.{
  Item, triggering_children, drill_id_from_history, drill_from_history,
}

-- `DrillHistory`: the state history of an alarm around a time, none where the read failed.
abbrev pub History : Type 0
History = String → String → Option (List Item)

-- What was decided about a composite: drill or not, the drill's id, and how.
pub record Decision : Type 0 where
  pub drill : Bool
  pub drill_id : Option String
  pub detection : String

abbrev pub not_drill : String → Decision
not_drill how = record { drill = false; drill_id = none; detection = how }

-- c == drill_child or c.endswith("-drill")
abbrev pub is_drill_child : Json → String → Bool
is_drill_child drill_child c =
    (elim (as_text drill_child) [ none ↦ false | some d ↦ c == d ]) || ends_with "-drill" c

abbrev pub alarm_drop :
    String → Option String → Option String → String → Option String → Bool → Drop
alarm_drop reason condition kind name drill_id suppressed = record {
  reason = reason;
  condition = condition;
  kind = kind;
  origin = "cloudwatch";
  source = "aws.cloudwatch";
  signal = name;
  drill_id = drill_id;
  alert_ids = [];
  suppressed = suppressed;
}

-- The kind of page of a state, none where the state is not paged.
abbrev pub state_kind : Json → Option String
state_kind v = elim (as_text v) [
  | none ↦ none
  | some s ↦ if s == "ALARM" then some "page" else if s == "OK" then some "resolved" else none
]

module _ (py : Runtime) (doc : Fields) where
  abbrev pub change_time : String
  change_time = str_or_empty py (get doc "StateChangeTime")

  -- The read of the drill child's history, when the alarm has one and a reader was given.
  unfoldable pub read_history : Json → Option History → Option (List Item)
  read_history drill_child none = none
  read_history drill_child (some read) =
      if truthy drill_child then read (str_of py drill_child) change_time else none

  unfoldable pub detect_unnamed : Option (List Item) → String → Decision
  detect_unnamed none state = not_drill "composite_child_unnamed"
  detect_unnamed (some items) state =
      let (drill, drill_id) = drill_from_history py (some items) change_time state in
      record { drill = drill; drill_id = drill_id; detection = "composite_history" }

  unfoldable pub detect_named : Json → Option (List Item) → List String → String → Decision
  detect_named drill_child history [] state = detect_unnamed history state
  detect_named drill_child history (c ∷ children) state =
      let drill = any (is_drill_child drill_child) (c ∷ children) in
      record {
        drill = drill;
        drill_id = if drill then drill_id_from_history py history else none;
        detection = "composite_child";
      }

  unfoldable pub detect : Json → Option History → String → Decision
  unfolding detect_unnamed detect_named
  detect drill_child history state =
      if truthy drill_child
      then detect_named drill_child (read_history drill_child history) (triggering_children py doc)
          state
      else not_drill "no_drill_child"

  -- `Alarm … is … since … . Reason: …`
  what_text : String → String → Decision → String
  what_text name state decision =
      let when = str_or_empty py (get doc "StateChangeTime") in
      let reason = str_or_empty py (get doc "NewStateReason") in
      concat (
        "Alarm "
        ∷ name
        ∷ " is "
        ∷ state
        ∷ (if when == "" then "" else concat (" since " ∷ when ∷ []))
        ∷ "."
        ∷ (if not (reason == "") && not decision.drill
            then concat (" Reason: " ∷ reason ∷ [])
            else "")
        ∷ [])

  unfoldable pub alarm_page : Fields → String → String → String → String → Decision → Page
  unfolding what_text
  alarm_page entry name condition state kind decision = record {
    condition = some condition;
    kind = if decision.drill then "drill" else kind;
    origin = "cloudwatch";
    source = "aws.cloudwatch";
    signal = name;
    what = what_text name state decision;
    remediation = str_or_empty py (get entry "remediation");
    remediation_state = "in force";
    agents = aws_agent_line;
    dedup_key = concat (condition ∷ ":" ∷ name ∷ []);
    alert_ids = [];
    drill = decision.drill;
    drill_id = decision.drill_id;
    drill_detection = decision.detection;
    conditions = [];
  }

  -- The last part of `parse_alarm`: the end of a drill is dropped, all else is a page.
  unfoldable pub conclude : Fields → String → String → String → String → Decision → Parsed
  conclude entry name condition state kind decision =
      if decision.drill && state == "OK"
      then drop (
          alarm_drop "drill_returned_to_ok" (some condition) (some "drill") name decision.drill_id
            true)
      else page (alarm_page entry name condition state kind decision)

  unfoldable pub parse_entry : Fields → String → String → Option History → Parsed
  parse_entry entry name condition history = elim (state_kind (get doc "NewStateValue")) [
    | none ↦ drop (alarm_drop "state_not_paged" (some condition) none name none false)
    | some kind ↦
        let state = str_of py (get doc "NewStateValue") in
        conclude entry name condition state kind (detect (get entry "drill_child") history state)
  ]

  unfoldable pub parse_alarm : Fields → Option History → Parsed
  parse_alarm alarm_map history =
      let name = str_of py (get_or doc "AlarmName" (str "")) in
      elim (as_object (get alarm_map name)) [
        | none ↦ drop (alarm_drop "unmapped_alarm" none none name none false)
        | some entry ↦ elim (member (get entry "condition") conditions) [
          | none ↦ drop (
              alarm_drop "condition_not_in_the_five" (some (str_of py (get entry "condition"))) none
                name none false)
          | some condition ↦ parse_entry entry name condition history
        ]
      ]
