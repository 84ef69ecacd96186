-- ===== src/Relay/Parse.antt =====
-- From an SNS message to a page or a drop: `load_alarm_map`, `parse_message`, `parse_alarm` and
-- `parse_page_v1` of aws/lambdas/operator_pager_relay/handler.py.
pub mod Alarm
pub mod PageV1
pub mod Cap
pub mod Drills
use qontinui_stack.Prelude.{
  String, ◌≡◌, Bool, true, false, ◌&&◌, Option, none, some, List, [], ◌∷◌, if◌then◌else◌,
}
use qontinui_stack.Python.Json.{Json, Fields, end, get, has_key, equals_one, as_object, Runtime}
use qontinui_stack.Relay.Types.{Drop, Parsed, drop}
use qontinui_stack.Relay.Parse.Alarm.{History, parse_alarm}
use qontinui_stack.Relay.Parse.PageV1.{parse_page_v1}

abbrev pub unparseable : Parsed
unparseable = drop (record {
  reason = "unparseable";
  condition = none;
  kind = none;
  origin = "unknown";
  source = "unknown";
  signal = "";
  drill_id = none;
  alert_ids = [];
  suppressed = false;
})

module _ (py : Runtime) where
  -- A malformed map reads as empty, so every alarm is then unmapped.
  unfoldable pub load_alarm_map : Option String → Fields
  load_alarm_map none = end
  load_alarm_map (some raw) = elim (py.loads raw) [
    | none ↦ end
    | some parsed ↦ elim (as_object parsed) [ none ↦ end | some fields ↦ fields ]
  ]

  unfoldable pub parse_message : String → Fields → Option History → Parsed
  parse_message message alarm_map history = elim (py.loads message) [
    | none ↦ unparseable
    | some parsed ↦ elim (as_object parsed) [
      | none ↦ unparseable
      | some doc ↦
          if has_key doc "AlarmName" && has_key doc "NewStateValue"
          then parse_alarm py doc alarm_map history
          else if equals_one (get doc "page_version")
          then parse_page_v1 py doc
          else unparseable
    ]
  ]
