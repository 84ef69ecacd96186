-- ===== src/Relay/Handler.antt =====
-- `handler` of aws/lambdas/operator_pager_relay/handler.py: the loop over the records of one event.
pub mod Laws
pub mod Capped
use qontinui_stack.Prelude.{
  ℕ, ◌+◌, ◌≤◌, String, ◌≡◌, refl, Bool, true, false, not, ◌&&◌, ◌||◌, Option, none, some, List, [],
  ◌∷◌, ◌++◌, arith, ◌==◌, if◌then◌else◌,
}
use qontinui_stack.Python.Json.{Json, Fields, as_text, Runtime}
use qontinui_stack.Relay.Types.{Page, Drop, Parsed, page, drop}
use qontinui_stack.Relay.Parse.{parse_message, unparseable}
use qontinui_stack.Relay.Parse.Alarm.{History}
use qontinui_stack.Relay.Render.{Rendered, render}
use qontinui_stack.Relay.Deliver.{Event, Adapter, Delivery, deliver}
use qontinui_stack.Relay.Record.{OutcomeRecord, drop_record, page_record}

-- One entry of `event["Records"]`: its `Sns.MessageId` and `Sns.Message`.
pub record SnsRecord : Type 0 where
  pub message_id : Json
  pub message : Json

-- What the handler reads of its environment and of the outside.
pub record Setup : Type 0 where
  pub environment : String
  pub alarm_map : Fields
  pub adapter : Adapter
  pub fallback : Option Adapter
  pub clock : List Event → ℕ
  pub history : Option History

-- What the loop has done: the events of the deliveries, last first, and the records it emitted, in
-- order; `failed` is set once a delivery was rejected.
pub record State : Type 0 where
  pub events : List Event
  pub emitted : List OutcomeRecord
  pub failed : Bool

pub data Outcome : Type 0 where
  results : List (String × Option String × Option String) → Outcome
  delivery_failed : Outcome

abbrev pub start : State
start = record { events = []; emitted = []; failed = false }

-- A page that would still ask is dropped instead of sent.
unfoldable pub asks_drop : Page → Drop
asks_drop p = record {
  reason = "asks";
  condition = p.condition;
  kind = some p.kind;
  origin = p.origin;
  source = p.source;
  signal = p.signal;
  drill_id = p.drill_id;
  alert_ids = p.alert_ids;
  suppressed = false;
}

module _ (py : Runtime) (setup : Setup) where
  emit_drop : Json → Drop → State → State
  emit_drop id d s = record s {
    emitted = s.emitted ++ drop_record setup.environment id d (setup.clock s.events) ∷ [];
  }

  emit_delivery : Json → Page → Rendered → State → Delivery × List Event → State
  emit_delivery id p rendered s (delivery, events) = record {
    events = events;
    emitted =
        s.emitted ++ page_record setup.environment id p rendered delivery (setup.clock events) ∷ [];
    failed = s.failed || delivery.outcome == "rejected";
  }

  -- `json.loads` raises on a message that is no text.
  abbrev parse_record : SnsRecord → Parsed
  parse_record r = elim (as_text r.message) [
    | none ↦ unparseable
    | some message ↦ parse_message py message setup.alarm_map setup.history
  ]

  deliver_page : Json → Page → State → State
  deliver_page id p s =
      let rendered = render py.word_code p in
      if rendered.asks
      then emit_drop id (asks_drop p) s
      else emit_delivery id p rendered s (deliver setup.adapter setup.fallback rendered s.events)

  handle_parsed : Json → Parsed → State → State
  handle_parsed id (page p) s = deliver_page id p s
  handle_parsed id (drop d) s = emit_drop id d s

  pub handle_record : SnsRecord → State → State
  handle_record r s = handle_parsed r.message_id (parse_record r) s

  pub handle_records : List SnsRecord → State → State
  handle_records [] s = s
  handle_records (r ∷ rest) s = handle_records rest (handle_record r s)

  abbrev result_of : OutcomeRecord → String × Option String × Option String
  result_of r = (r.outcome, r.condition, r.kind)

  abbrev pub map_results : List OutcomeRecord → List (String × Option String × Option String)
  map_results [] = []
  map_results (r ∷ rest) = result_of r ∷ map_results rest

  -- The records are emitted before the handler raises.
  pub handler : List SnsRecord → State × Outcome
  handler records =
      let done = handle_records records start in
      (done, if done.failed then delivery_failed else results (map_results done.emitted))
