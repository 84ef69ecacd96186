-- ===== src/Examples/Deliveries.antt =====
-- Deliveries and runs of the handler at concrete inputs.
use qontinui_stack.Prelude.{
  ◌+◌, ◌≤◌, ◌≡◌, ◌||◌, none, some, List, [], ◌∷◌, length, any, All, if◌then◌else◌, ◌==◌,
}
use qontinui_stack.Python.Json.{str}
use qontinui_stack.Relay.Render.{Rendered, render}
use qontinui_stack.Relay.Deliver.{Adapter, accepted, permanent, deliver}
use qontinui_stack.Relay.Deliver.Policy.{
  first, sleeps, sends, accepts, deliver-attempts, deliver-accepts,
}
use qontinui_stack.Relay.Record.{page_record, drop_record}
use qontinui_stack.Relay.Record.Counts.{taken_by, taken_elsewhere, outcome_record-metrics}
use qontinui_stack.Relay.Handler.{
  SnsRecord, Setup, delivery_failed, results, map_results, handler, asks_drop,
}
use qontinui_stack.Relay.Handler.Laws.{is_rejected, NeverAsks, handler_lem}
use qontinui_stack.Relay.Handler.Capped.{IsCappedCall, handler-IsCappedCall}
use qontinui_stack.Examples.Pages.{py, alarm_map, sample}

-- It fails at first, and is there after that.
abbrev vendor : Adapter
vendor = record {
  name = "pager";
  answer = λ past rendered. elim past [
    | [] ↦ record { status = none; ref = none }
    | e ∷ rest ↦ record { status = some 202; ref = some "r1" }
  ];
}

abbrev email : Adapter
email = record {
  name = "sns_forward";
  answer = λ past rendered. record { status = some 200; ref = none };
}

abbrev rendered : Rendered
rendered = render py.word_code sample

deliver-attempts_example :
    let r = (deliver vendor (some email) rendered []).0 in
    let events = (deliver vendor (some email) rendered []).1 in
    (r.attempts ≡ (
      if accepted (first vendor (some email) rendered [])
        || permanent (first vendor (some email) rendered [])
      then 1
      else 2))
    × (sleeps events + 1 ≡ 0 + r.attempts)
    × (0 + r.attempts ≤ sends events)
    × (sends events ≤ 0 + r.attempts + 1)
deliver-attempts_example = deliver-attempts vendor (some email) rendered []

deliver-accepts_example :
    accepts (deliver vendor (some email) rendered []).1
    ≡ 0 + (if (deliver vendor (some email) rendered []).0.outcome == "rejected" then 0 else 1)
deliver-accepts_example = deliver-accepts vendor (some email) rendered []

outcome_record-metrics_example :
    let (delivery, events) = deliver vendor (some email) rendered [] in
    let m = (page_record "prod" (str "m1") sample rendered delivery 5).metrics in
    let n = (drop_record "prod" (str "m1") (asks_drop sample) 5).metrics in
    (m.vendor_accepted ≡ taken_by vendor.name events)
    × (m.vendor_accepted + m.vendor_rejected ≡ 1)
    × (m.fallback_forwarded ≡ taken_elsewhere vendor.name events)
    × (m.dropped ≡ 0)
    × (n.vendor_accepted + n.vendor_rejected + n.fallback_forwarded ≡ 0)
    × (n.dropped ≡ (if (asks_drop sample).suppressed then 0 else 1))
outcome_record-metrics_example =
    outcome_record-metrics vendor (some email) "prod" (str "m1") 5 sample (asks_drop sample)
      rendered

abbrev setup : Setup
setup = record {
  environment = "prod";
  alarm_map = alarm_map;
  adapter = vendor;
  fallback = some email;
  clock = λ events. 5;
  history = none;
}

abbrev messages : List SnsRecord
messages =
    record { message_id = str "m1"; message = str "{}" }
    ∷ record { message_id = str "m2"; message = str "no json" }
    ∷ []

handler_lem_example :
    (length (handler py setup messages).0.emitted ≡ 2)
    × All (NeverAsks py.word_code) (handler py setup messages).0.events
    × ((handler py setup messages).1 ≡ (
        if any is_rejected (handler py setup messages).0.emitted
        then delivery_failed
        else results (map_results py setup (handler py setup messages).0.emitted)))
handler_lem_example = handler_lem py setup messages

handler-IsCappedCall_example : All (IsCappedCall py) (handler py setup messages).0.events
handler-IsCappedCall_example = handler-IsCappedCall py setup messages
