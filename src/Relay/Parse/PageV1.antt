-- ===== src/Relay/Parse/PageV1.antt =====
-- `parse_page_v1` of aws/lambdas/operator_pager_relay/handler.py: `page_version: 1` messages.
use qontinui_stack.Prelude.{
  String, Bool, true, false, ◌&&◌, ◌||◌, Option, none, some, List, [], ◌∷◌, ◌++◌, ◌==◌,
  if◌then◌else◌,
}
use qontinui_stack.Python.{concat, join}
use qontinui_stack.Python.Json.{
  Json, null, str, arr, Fields, get, truthy, member, as_text, to_list, Runtime, str_of, str_or,
  str_or_empty,
}
use qontinui_stack.Relay.Types.{conditions, known, kinds, aws_agent_line, Parsed, page, drop}
use qontinui_stack.Relay.Reasons.{drill_reason}

-- a or b
abbrev or_text : String → String → String
or_text a b = if a == "" then b else a

abbrev first_reason : Option String → Option String → Option String
first_reason none other = other
first_reason (some s) other = some s

-- doc.get("kind") or "page"
abbrev pub kind_or_page : Json → Json
kind_or_page v = if truthy v then v else str "page"

-- The conditions of a list that are not of the five.
unfoldable pub strangers : List String → List String
strangers [] = []
strangers (c ∷ rest) = let others = strangers rest in if known c then others else c ∷ others

module _ (py : Runtime) where
  texts_of : List Json → List String
  texts_of [] = []
  texts_of (null ∷ rest) = texts_of rest
  texts_of (v ∷ rest) = str_of py v ∷ texts_of rest

  unfoldable pub str_list : Json → List String
  unfolding texts_of
  str_list (arr items) = texts_of (to_list items)
  str_list null = []
  str_list (str s) = if s == "" then [] else s ∷ []
  str_list v = str_of py v ∷ []

  abbrev reason_in : Json → Option String
  reason_in v = elim (as_text v) [ none ↦ none | some s ↦ drill_reason s ]

  -- doc.get("drill_id"), or else the id in the first text that is a drill's reason
  unfoldable pub drill_id_of : Fields → Option String
  drill_id_of doc =
      if truthy (get doc "drill_id")
      then some (str_of py (get doc "drill_id"))
      else first_reason (reason_in (get doc "reason"))
          (first_reason (reason_in (get doc "message")) (reason_in (get doc "what")))

  abbrev part : Json → List String
  part v = if truthy v then str_of py v ∷ [] else []

  abbrev on_resources : List String → List String
  on_resources [] = []
  on_resources (r ∷ rs) = concat ("on " ∷ join ", " (r ∷ rs) ∷ []) ∷ []

  abbrev at_time : Json → List String
  at_time v = if truthy v then concat ("at " ∷ str_of py v ∷ []) ∷ [] else []

  -- The text composed of the raw event fields.
  composed : Fields → String
  composed doc =
      let event_name =
        if truthy (get doc "event_name") then get doc "event_name" else get doc "event_id" in
      let resources = str_list (get doc "resources") ++ part (get doc "source_identifier") in
      join " " (
        part event_name
        ++ (part (get doc "reason")
            ++ (part (get doc "message") ++ (on_resources resources ++ at_time (get doc "time")))))

  what_of : Fields → String
  unfolding composed
  what_of doc = or_text (str_or_empty py (get doc "what")) (composed doc)

  abbrev origin_of : Fields → String
  origin_of doc = str_or py (get doc "origin") "unknown"

  abbrev source_of : Fields → String
  source_of doc = str_or py (get doc "source") (origin_of doc)

  abbrev v1_drop :
      Fields → String → Option String → Option String → Option String → List String → Parsed
  v1_drop doc reason condition kind drill_id alert_ids = drop (record {
    reason = reason;
    condition = condition;
    kind = kind;
    origin = origin_of doc;
    source = source_of doc;
    signal = str_or_empty py (get doc "signal");
    drill_id = drill_id;
    alert_ids = alert_ids;
    suppressed = false;
  })

  abbrev identified : Option String → String
  identified none = "None"
  identified (some id) = id

  abbrev comma_or_none : List String → Option String
  comma_or_none [] = none
  comma_or_none (c ∷ cs) = let text = join "," (c ∷ cs) in if text == "" then none else some text

  abbrev summary_drop : Fields → List String → Parsed
  summary_drop doc bad =
      v1_drop doc "condition_not_in_the_five" (comma_or_none bad) (some "drill_summary")
        (drill_id_of doc) []

  abbrev summary_page : Fields → List String → Parsed
  summary_page doc names = page (record {
    condition = none;
    kind = "drill_summary";
    origin = origin_of doc;
    source = source_of doc;
    signal = or_text (str_or_empty py (get doc "signal")) "drill-summary";
    what = str_or_empty py (get doc "what");
    remediation = "";
    remediation_state = "";
    agents = "";
    dedup_key = concat ("drill_summary:" ∷ identified (drill_id_of doc) ∷ []);
    alert_ids = [];
    drill = true;
    drill_id = drill_id_of doc;
    drill_detection = "kind";
    conditions = names;
  })

  -- A drill summary names at least one condition, and only conditions of the five.
  unfoldable pub parse_summary : Fields → Parsed
  parse_summary doc = elim (str_list (get doc "conditions")) [
    | [] ↦ summary_drop doc []
    | n ∷ ns ↦ elim (strangers (n ∷ ns)) [
      | [] ↦ summary_page doc (n ∷ ns)
      | bad ∷ more ↦ summary_drop doc (bad ∷ more)
    ]
  ]

  abbrev agents_of : Fields → String
  agents_of doc =
      let agents = str_or_empty py (get doc "agents") in
      if agents == "" && origin_of doc == "eventbridge" then aws_agent_line else agents

  abbrev json_is_drill : Json → Bool
  json_is_drill v = elim (as_text v) [ none ↦ false | some s ↦ s == "drill" ]

  unfoldable pub condition_page : Fields → String → String → Parsed
  unfolding what_of
  condition_page doc kind condition =
      let from_drill_source = source_of doc == "qontinui.drill" in
      let drill = kind == "drill" || from_drill_source in
      let signal = str_or_empty py (get doc "signal") in
      page (record {
        condition = some condition;
        kind = if drill then "drill" else kind;
        origin = origin_of doc;
        source = source_of doc;
        signal = signal;
        what = what_of doc;
        remediation = str_or_empty py (get doc "remediation");
        remediation_state = str_or_empty py (get doc "remediation_state");
        agents = agents_of doc;
        dedup_key = str_or py (get doc "dedup_key") (concat (condition ∷ ":" ∷ signal ∷ []));
        alert_ids = str_list (get doc "alert_ids");
        drill = drill;
        drill_id = drill_id_of doc;
        drill_detection =
            if json_is_drill (get doc "kind")
            then "kind"
            else if from_drill_source
            then "event_source"
            else "n/a";
        conditions = [];
      })

  abbrev condition_text : Json → Option String
  condition_text null = none
  condition_text v = some (str_of py v)

  unfoldable pub parse_page_v1 : Fields → Parsed
  parse_page_v1 doc = elim (member (kind_or_page (get doc "kind")) kinds) [
    | none ↦
        v1_drop doc "unknown_kind" none (some (str_of py (kind_or_page (get doc "kind")))) none []
    | some kind ↦
        if kind == "drill_summary"
        then parse_summary doc
        else (elim (member (get doc "condition") conditions) [
          | none ↦
              v1_drop doc "condition_not_in_the_five" (condition_text (get doc "condition"))
                (some kind) (drill_id_of doc) (str_list (get doc "alert_ids"))
          | some condition ↦ condition_page doc kind condition
        ])
  ]
