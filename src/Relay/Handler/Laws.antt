-- ===== src/Relay/Handler/Laws.antt =====
-- What a run of the handler did, over all its records (aws/lambdas/operator_pager_relay/handler.py).
use native.Mathlib.Nat.{add-zero}
use Prim.Native.String.{◌++◌ as append}
use qontinui_stack.Prelude.{
  ℕ, suc, ◌+◌, String, ◌≡◌, refl, Bool, false, ◌||◌, List, [], ◌∷◌, ◌++◌, inl, inr, length,
  length-append, any, All, arith, ◌==◌, Bool-cases, if◌then◌else◌,
}
use qontinui_stack.Python.Json.{Json, Runtime}
use qontinui_stack.Relay.Types.{Page, Drop, Parsed, page, drop}
use qontinui_stack.Relay.Render.{render, contains_asking_words}
use qontinui_stack.Relay.Render.Asking.{render-asks_not}
use qontinui_stack.Relay.Deliver.{Event, sent, slept, deliver}
use qontinui_stack.Relay.Deliver.Policy.{deliver-All}
use qontinui_stack.Relay.Record.{OutcomeRecord, drop_record, page_record}
use qontinui_stack.Relay.Handler.{
  SnsRecord, Setup, State, start, delivery_failed, emit_drop, emit_delivery, deliver_page,
  handle_parsed, handle_record, handle_records, handler, asks_drop, parse_record, results,
  map_results,
}

abbrev pub is_rejected : OutcomeRecord → Bool
is_rejected r = r.outcome == "rejected"

-- What was sent did not ask.
abbrev pub NeverAsks : (ℕ → Bool) → Event → Type 0
NeverAsks word_code (sent name rendered r) =
    contains_asking_words word_code (append rendered.title (append "\n" rendered.body)) ≡ []
NeverAsks word_code (slept secs) = Unit

module _ (py : Runtime) (setup : Setup) where
  -- One record is handled: one record more is emitted, and no call asks.
  record IsHandled (n : ℕ) (s : State) : Type 0 where
    count : length s.emitted ≡ n
    quiet : All (NeverAsks py.word_code) s.events
    told : s.failed ≡ any is_rejected s.emitted

  any-snoc :
      (xs : List OutcomeRecord) (x : OutcomeRecord)
      → any is_rejected (xs ++ x ∷ []) ≡ any is_rejected xs || is_rejected x
  any-snoc [] x = ground arith
  any-snoc (y ∷ xs) x = ground (arith, any-snoc xs x)

  drop-not_rejected :
      (e : String) (id : Json) (d : Drop) (now : ℕ) → is_rejected (drop_record e id d now) ≡ false
  unfolding drop_record
  drop-not_rejected e id d now = elim (Bool-cases d.suppressed) [ inl e ↦ rw e | inr e ↦ rw e ]

  emit_drop-IsHandled :
      (n : ℕ) (id : Json) (d : Drop) (s : State)
      → IsHandled n s
      → IsHandled (n + 1) (emit_drop py setup id d s)
  unfolding emit_drop
  emit_drop-IsHandled n id d s h = record {
    count = omega (
      arith,
      h.count,
      length-append s.emitted (drop_record setup.environment id d (setup.clock s.events) ∷ []),
    );
    quiet = h.quiet;
    told = ground (
      arith,
      h.told,
      any-snoc s.emitted (drop_record setup.environment id d (setup.clock s.events)),
      drop-not_rejected setup.environment id d (setup.clock s.events),
    );
  }

  abbrev delivery_record : Json → Page → State → OutcomeRecord
  delivery_record id p s =
      let (delivery, events) =
        deliver setup.adapter setup.fallback (render py.word_code p) s.events in
      page_record setup.environment id p (render py.word_code p) delivery (setup.clock events)

  emit_delivery-IsHandled :
      (n : ℕ) (id : Json) (p : Page) (s : State)
      → (render py.word_code p).asks ≡ false
      → IsHandled n s
      → IsHandled (n + 1) (
          emit_delivery py setup id p
            (render py.word_code p)
            s
            (deliver setup.adapter setup.fallback (render py.word_code p) s.events))
  unfolding emit_delivery page_record
  emit_delivery-IsHandled n id p s a h = record {
    count = omega (arith, h.count, length-append s.emitted (delivery_record id p s ∷ []));
    quiet =
        deliver-All (NeverAsks py.word_code) (render py.word_code p)
          (λ name r. render-asks_not py.word_code p a) (λ secs. tt) setup.adapter setup.fallback
          s.events h.quiet;
    told = ground (arith, h.told, any-snoc s.emitted (delivery_record id p s));
  }

  deliver_page-IsHandled :
      (n : ℕ) (id : Json) (p : Page) (s : State)
      → IsHandled n s
      → IsHandled (n + 1) (deliver_page py setup id p s)
  unfolding deliver_page
  deliver_page-IsHandled n id p s h = elim (Bool-cases (render py.word_code p).asks) [
    | inl e ↦ rw e (emit_drop-IsHandled n id (asks_drop p) s h)
    | inr e ↦ simp e (emit_delivery-IsHandled n id p s e h)
  ]

  handle_parsed-IsHandled :
      (n : ℕ) (id : Json) (r : Parsed) (s : State)
      → IsHandled n s
      → IsHandled (n + 1) (handle_parsed py setup id r s)
  unfolding handle_parsed
  handle_parsed-IsHandled n id (page p) s h = deliver_page-IsHandled n id p s h
  handle_parsed-IsHandled n id (drop d) s h = emit_drop-IsHandled n id d s h

  handle_records-IsHandled :
      (n : ℕ) (records : List SnsRecord) (s : State)
      → IsHandled n s
      → IsHandled (n + length records) (handle_records py setup records s)
  unfolding handle_records handle_record
  handle_records-IsHandled n [] s h = rw add-zero h
  handle_records-IsHandled n (r ∷ rest) s h =
      let one = handle_parsed-IsHandled n r.message_id (parse_record py setup r) s h in
      rw regroup at (
        handle_records-IsHandled (n + 1) rest
          (handle_parsed py setup r.message_id (parse_record py setup r) s) one)
    where
      regroup : n + 1 + length rest ≡ n + suc (length rest)
      regroup = omega arith

  -- A run over any records, with any adapters: one record is emitted for each message, no call of
  -- an adapter carries a title and body that ask, and the handler raises exactly when some record
  -- says that its page was rejected by all channels.
  pub handler_lem :
      (records : List SnsRecord)
      → (length (handler py setup records).0.emitted ≡ length records)
        × All (NeverAsks py.word_code) (handler py setup records).0.events
        × ((handler py setup records).1 ≡ (
            if any is_rejected (handler py setup records).0.emitted
            then delivery_failed
            else results (map_results py setup (handler py setup records).0.emitted)))
  unfolding handler
  handler_lem records =
      let done =
        handle_records-IsHandled 0 records start
          (record { count = refl; quiet = tt; told = refl }) in
      (omega (arith, done.count), done.quiet, rw done.told)
