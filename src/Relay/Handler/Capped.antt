-- ===== src/Relay/Handler/Capped.antt =====
-- What the calls of a run carry (aws/lambdas/operator_pager_relay/handler.py).
use qontinui_stack.Prelude.{
  String, ◌≡◌, refl, false, Option, none, some, List, [], ◌∷◌, All, arith, inl, inr, Bool-cases,
}
use qontinui_stack.Python.Json.{Json, as_text, Runtime}
use qontinui_stack.Relay.Types.{Page, Parsed, page, drop}
use qontinui_stack.Relay.Parse.{parse_message, unparseable}
use qontinui_stack.Relay.Parse.Cap.{IsCapped, parse_message-IsCapped}
use qontinui_stack.Relay.Render.{render}
use qontinui_stack.Relay.Deliver.{Event, sent, slept}
use qontinui_stack.Relay.Deliver.Policy.{deliver-All}
use qontinui_stack.Relay.Handler.{
  SnsRecord, Setup, State, start, deliver_page, emit_drop, emit_delivery, handle_parsed,
  handle_record, handle_records, handler, parse_record,
}

-- A call carries the rendering of a page under the cap, which does not ask.
abbrev pub IsCappedCall : Runtime → Event → Type 0
IsCappedCall py (sent name rendered r) =
    (p : Page) × IsCapped p × (rendered ≡ render py.word_code p) × (rendered.asks ≡ false)
IsCappedCall py (slept secs) = Unit {0}

module _ (py : Runtime) (setup : Setup) where
  deliver_page-IsCappedCall :
      (id : Json) (p : Page) (s : State)
      → IsCapped p
      → All (IsCappedCall py) s.events
      → All (IsCappedCall py) (deliver_page py setup id p s).events
  unfolding deliver_page emit_drop emit_delivery
  deliver_page-IsCappedCall id p s c h = elim (Bool-cases (render py.word_code p).asks) [
    | inl e ↦ rw e h
    | inr e ↦ simp e (
        deliver-All (IsCappedCall py) (render py.word_code p) (λ name r. (p, c, refl, e))
          (λ secs. tt) setup.adapter setup.fallback s.events h)
  ]

  handle_parsed-IsCappedCall :
      (id : Json) (r : Parsed) (s : State)
      → ((p : Page) → r ≡ page p → IsCapped p)
      → All (IsCappedCall py) s.events
      → All (IsCappedCall py) (handle_parsed py setup id r s).events
  unfolding handle_parsed emit_drop
  handle_parsed-IsCappedCall id (page p) s c h = deliver_page-IsCappedCall id p s (c p refl) h
  handle_parsed-IsCappedCall id (drop d) s c h = h

  parse_text-IsCapped :
      (m : Option String) (p : Page)
      → (elim m [
        | none ↦ unparseable
        | some message ↦ parse_message py message setup.alarm_map setup.history
      ])
        ≡ page p
      → IsCapped p
  parse_text-IsCapped none p e = ground arith
  parse_text-IsCapped (some message) p e =
      parse_message-IsCapped py message setup.alarm_map setup.history p e

  handle_records-IsCappedCall :
      (records : List SnsRecord) (s : State)
      → All (IsCappedCall py) s.events
      → All (IsCappedCall py) (handle_records py setup records s).events
  unfolding handle_records handle_record
  handle_records-IsCappedCall [] s h = h
  handle_records-IsCappedCall (r ∷ rest) s h = handle_records-IsCappedCall rest _ (
      handle_parsed-IsCappedCall r.message_id (parse_record py setup r) s
        (parse_text-IsCapped (as_text r.message)) h)

  -- Whatever records arrive and whatever the adapters answer, every call of an adapter carries the
  -- rendering of a page under the cap (one of the five conditions, or a drill summary of some of
  -- them only), and that rendering does not ask.
  pub handler-IsCappedCall :
      (records : List SnsRecord) → All (IsCappedCall py) (handler py setup records).0.events
  unfolding handler
  handler-IsCappedCall records = handle_records-IsCappedCall records start tt
