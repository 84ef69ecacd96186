-- ===== src/Relay/Parse/Cap.antt =====
-- The cap: what may become a page (aws/lambdas/operator_pager_relay/handler.py).
use qontinui_stack.Prelude.{
  String, ◌≡◌, ◌≢◌, refl, Bool, true, false, Option, none, some, List, [], ◌∷◌, all, arith,
  Bool-cases, ◌⊎◌, inl, inr,
}
use qontinui_stack.Python.Json.{Json, Fields, member, member-elem, Runtime}
use qontinui_stack.Relay.Types.{conditions, known, Page, page}
use qontinui_stack.Relay.Parse.Alarm.{
  History, Decision, alarm_page, conclude, parse_entry, parse_alarm,
}
use qontinui_stack.Relay.Parse.{parse_message}
use qontinui_stack.Relay.Parse.PageV1.{strangers, parse_summary, condition_page, parse_page_v1}

abbrev pub names_one : Option String → Bool
names_one none = false
names_one (some c) = known c

-- A page names one of the five conditions, or it is a drill summary that names some of the five.
abbrev pub IsCapped : Page → Type 0
IsCapped p =
    (names_one p.condition ≡ true)
    ⊎ ((p.kind ≡ "drill_summary") × (p.conditions ≢ []) × (all known p.conditions ≡ true))

member-known : (v : Json) (c : String) → member v conditions ≡ some c → known c ≡ true
unfolding known
member-known v c h = member-elem v conditions c h

strangers-all : (names : List String) → strangers names ≡ [] → all known names ≡ true
unfolding strangers
strangers-all [] h = refl
strangers-all (c ∷ rest) h = elim (Bool-cases (known c)) [
  | inl e ↦ rw e (strangers-all rest (rw e at h))
  | inr e ↦ cc (rw e at h)
]

module _ (py : Runtime) (doc : Fields) where
  conclude-condition :
      (entry : Fields) (name condition state kind : String) (d : Decision) (p : Page)
      → conclude py doc entry name condition state kind d ≡ page p
      → p.condition ≡ some condition
  unfolding conclude alarm_page
  conclude-condition entry name condition state kind d p h = ground arith

  parse_entry-condition :
      (entry : Fields) (name condition : String) (history : Option History) (p : Page)
      → parse_entry py doc entry name condition history ≡ page p
      → p.condition ≡ some condition
  unfolding parse_entry
  parse_entry-condition entry name condition history p h = grind (arith, conclude-condition)

  parse_alarm-IsCapped :
      (alarm_map : Fields) (history : Option History) (p : Page)
      → parse_alarm py doc alarm_map history ≡ page p
      → IsCapped p
  unfolding parse_alarm
  parse_alarm-IsCapped alarm_map history p h = grind (arith, parse_entry-condition, member-known)

  parse_summary-IsCapped : (p : Page) → parse_summary py doc ≡ page p → IsCapped p
  unfolding parse_summary
  parse_summary-IsCapped p h = grind (arith, strangers-all)

  condition_page-condition :
      (kind condition : String) (p : Page)
      → condition_page py doc kind condition ≡ page p
      → p.condition ≡ some condition
  unfolding condition_page
  condition_page-condition kind condition p h = ground arith

  parse_page_v1-IsCapped : (p : Page) → parse_page_v1 py doc ≡ page p → IsCapped p
  unfolding parse_page_v1
  parse_page_v1-IsCapped p h =
      grind (arith, parse_summary-IsCapped, condition_page-condition, member-known)

-- Every message that becomes a page is capped, whatever the map and the history say.
pub parse_message-IsCapped :
    (py : Runtime) (message : String) (alarm_map : Fields) (history : Option History) (p : Page)
    → parse_message py message alarm_map history ≡ page p
    → IsCapped p
unfolding parse_message
parse_message-IsCapped py message alarm_map history p h =
    grind (arith, parse_alarm-IsCapped, parse_page_v1-IsCapped)
