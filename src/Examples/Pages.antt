-- ===== src/Examples/Pages.antt =====
-- Pages parsed and rendered at concrete inputs.
use Prim.Native.String.{count}
use qontinui_stack.Prelude.{
  ◌≤◌, String, ◌≡◌, refl, true, false, none, some, [], ◌∷◌, map, Bool, ◌↔◌, ◌||◌, ◌&&◌, leb, nat_eq,
  if◌then◌else◌, ◌==◌,
}
use qontinui_stack.Python.Json.{
  str, obj, Fields, end, field, Runtime, get, get_or, has_key, truthy, str_of, member,
}
use qontinui_stack.Relay.Types.{Page, Parsed, page, drop, known}
use qontinui_stack.Relay.Parse.{parse_message}
use qontinui_stack.Python.{is_space}
use qontinui_stack.Relay.Drill.{triggering_children}
use qontinui_stack.Relay.Reasons.{alarm_names}
use qontinui_stack.Relay.Parse.Alarm.{parse_alarm, parse_entry, conclude, detect, alarm_page}
use qontinui_stack.Relay.Parse.Cap.{IsCapped, parse_message-IsCapped}
use qontinui_stack.Relay.Parse.Drills.{IsSilenced, IsDrillAlarm, parse_alarm-IsSilenced}
use qontinui_stack.Relay.Render.{render, asks_in, contains_asking_words, sns_subject}
use qontinui_stack.Relay.Render.Bounds.{IsFitting, render-IsFitting}
use qontinui_stack.Relay.Render.Subject.{AllChars, IsPrintable, sns_subject-IsPrintable}
use qontinui_stack.Relay.Render.Asking.{SameKept, render-withheld_same}

abbrev doc_in : (state : String) → Fields
doc_in state =
    field "AlarmName" (str "build-red")
      (field "NewStateValue" (str state) (field "NewStateReason" (str "Threshold Crossed") end))

abbrev pub py : Runtime
py = record {
  loads = λ s. if s == "{}" then some (obj (doc_in "ALARM")) else none;
  repr = λ v. "{}";
  from_iso = λ s. none;
  iso_text = λ n. "";
  word_code =
      λ c. leb 97 c && leb c 122 || leb 65 c && leb c 90 || leb 48 c && leb c 57 || nat_eq c 95;
  digit_code = λ c. leb 48 c && leb c 57;
}

abbrev entry : Fields
entry = field "condition" (str "deploy_failed") end

abbrev pub alarm_map : Fields
alarm_map = field "build-red" (obj entry) end

abbrev shown : Parsed → Page
shown (page p) = p
shown (drop d) = record {
  condition = none;
  kind = "";
  origin = "";
  source = "";
  signal = "";
  what = "";
  remediation = "";
  remediation_state = "";
  agents = "";
  dedup_key = "";
  alert_ids = [];
  drill = false;
  drill_id = none;
  drill_detection = "";
  conditions = [];
}

abbrev pub sample : Page
sample = shown (parse_message py "{}" alarm_map none)

is_page : parse_message py "{}" alarm_map none ≡ page sample
unfolding parse_message parse_alarm parse_entry conclude get get_or has_key str_of member known
    truthy detect
is_page = refl

parse_message-IsCapped_example : IsCapped sample
parse_message-IsCapped_example = parse_message-IsCapped py "{}" alarm_map none sample is_page

-- A composite whose map entry has a drill child, with the child's name in the reason.
abbrev by_drill : (state : String) → Fields
by_drill state = field "AlarmName" (str "composite") (
    field "NewStateValue" (str state) (
      field "NewStateReason"
        (str "arn:aws:cloudwatch:us-east-1:123456789012:alarm:paging-drill fired") end))

abbrev drilled_map : Fields
drilled_map =
    field "composite"
      (obj (field "condition" (str "deploy_failed") (field "drill_child" (str "paging-drill") end)))
      end

abbrev kind_or_suppressed : Parsed → String × Bool
kind_or_suppressed (page p) = (p.kind, false)
kind_or_suppressed (drop d) = ("", d.suppressed)

drill_test :
    map
      (λ state. kind_or_suppressed (parse_alarm py (by_drill state) drilled_map none))
      ("ALARM" ∷ "OK" ∷ "INSUFFICIENT_DATA" ∷ [])
    ≡ (("drill", false) ∷ ("", true) ∷ ("", false) ∷ [])
unfolding parse_alarm get str_of get_or member parse_entry conclude detect truthy
    triggering_children alarm_names is_space alarm_page
drill_test = refl

parse_alarm-IsSilenced_example :
    IsSilenced (parse_alarm py (by_drill "ALARM") drilled_map none)
    ↔ IsDrillAlarm py (by_drill "ALARM") drilled_map none
parse_alarm-IsSilenced_example = parse_alarm-IsSilenced py (by_drill "ALARM") drilled_map none

render-IsFitting_example :
    IsFitting (render py.word_code sample).title (render py.word_code sample).body
render-IsFitting_example = render-IsFitting py.word_code sample

sns_subject-IsPrintable_example :
    (count (sns_subject "Deploy failed\n— é") ≤ 100)
    × AllChars IsPrintable (sns_subject "Deploy failed\n— é")
sns_subject-IsPrintable_example = sns_subject-IsPrintable "Deploy failed\n— é"

abbrev asking : String → Page
asking what = record {
  condition = some "deploy_failed";
  kind = "page";
  origin = "coord";
  source = "coord";
  signal = "s";
  what = what;
  remediation = "";
  remediation_state = "";
  agents = "";
  dedup_key = "k";
  alert_ids = [];
  drill = false;
  drill_id = none;
  drill_detection = "";
  conditions = [];
}

same_kept : SameKept (asking "please reply") (asking "approve this, confirm that")
same_kept = record {
  condition = refl;
  kind = refl;
  source = refl;
  conditions = refl;
  remediation = refl;
  agents = refl;
}

withheld : (render py.word_code (asking "please reply")).source_text_withheld ≡ true
unfolding render asks_in contains_asking_words qontinui_stack.Relay.Render.asking_patterns
    qontinui_stack.Python.Regex.search qontinui_stack.Relay.Render.assemble
    qontinui_stack.Relay.Render.clip qontinui_stack.Python.strip
    qontinui_stack.Relay.Render.title_for qontinui_stack.Relay.Render.lines_for
    qontinui_stack.Python.lstrip qontinui_stack.Python.rstrip qontinui_stack.Python.take
    qontinui_stack.Python.is_space qontinui_stack.Python.Regex.literal
    qontinui_stack.Relay.Render.withhold
withheld = refl

withheld_too :
    (render py.word_code (asking "approve this, confirm that")).source_text_withheld ≡ true
unfolding render asks_in contains_asking_words qontinui_stack.Relay.Render.asking_patterns
    qontinui_stack.Python.Regex.search qontinui_stack.Relay.Render.assemble
    qontinui_stack.Relay.Render.clip qontinui_stack.Python.strip
    qontinui_stack.Relay.Render.title_for qontinui_stack.Relay.Render.lines_for
    qontinui_stack.Python.lstrip qontinui_stack.Python.rstrip qontinui_stack.Python.take
    qontinui_stack.Python.is_space qontinui_stack.Python.Regex.literal
    qontinui_stack.Relay.Render.withhold
withheld_too = refl

render-withheld_same_example :
    render py.word_code (asking "please reply")
    ≡ render py.word_code (asking "approve this, confirm that")
render-withheld_same_example =
    render-withheld_same py.word_code (asking "please reply") (asking "approve this, confirm that")
      same_kept withheld withheld_too
