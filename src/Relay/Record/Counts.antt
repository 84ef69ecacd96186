-- ===== src/Relay/Record/Counts.antt =====
-- What the metrics of a record count (aws/lambdas/operator_pager_relay/handler.py).
use qontinui_stack.Prelude.{
  ℕ, suc, ◌+◌, String, ◌≡◌, refl, ap, ◌==◌, eq_iff, eq_refl, false, not, ◌&&◌, Option, none, some,
  List, [], ◌∷◌, arith, inl, inr, Bool-cases, if◌then◌else◌,
}
use qontinui_stack.Python.Json.{Json}
use qontinui_stack.Relay.Types.{Page, Drop}
use qontinui_stack.Relay.Render.{Rendered}
use qontinui_stack.Relay.Deliver.{
  AdapterResponse, Event, sent, slept, Adapter, accepted, send, finish, deliver, Delivery,
}
use qontinui_stack.Relay.Record.{drop_record, page_record, delivery_metrics}

-- How many calls of the adapter with this name were accepted, and how many of any other.
abbrev pub taken_by : String → List Event → ℕ
taken_by name [] = 0
taken_by name (sent other rendered r ∷ rest) =
    let later = taken_by name rest in if other == name && accepted r then suc later else later
taken_by name (slept secs ∷ rest) = taken_by name rest

abbrev pub taken_elsewhere : String → List Event → ℕ
taken_elsewhere name [] = 0
taken_elsewhere name (sent other rendered r ∷ rest) =
    let later = taken_elsewhere name rest in
    if not (other == name) && accepted r then suc later else later
taken_elsewhere name (slept secs ∷ rest) = taken_elsewhere name rest

delivery_metrics_lem :
    (outcome : String)
    → ((delivery_metrics outcome).vendor_accepted ≡ (if outcome == "accepted" then 1 else 0))
      × ((delivery_metrics outcome).vendor_rejected ≡ (if outcome == "accepted" then 0 else 1))
      × ((delivery_metrics outcome).fallback_forwarded ≡ (if outcome == "fallback" then 1 else 0))
      × ((delivery_metrics outcome).dropped ≡ 0)
unfolding delivery_metrics
delivery_metrics_lem outcome = elim (Bool-cases (outcome == "accepted")) [
  | inl e ↦
      let same : outcome ≡ "accepted" = ground (arith, eq_iff outcome "accepted", e) in
      let other : (outcome == "fallback") ≡ false = ap (λ o. o == "fallback") same in
      simp (e, other) (refl, refl, refl, refl)
  | inr e ↦ ground (arith, e)
]

-- What the last answer decides: the outcome is accepted exactly where it was accepted, and the
-- fallback adds one accepted call elsewhere exactly where the outcome is fallback.
finish-takes :
    (adapter : Adapter) (fallback : Option Adapter) (rendered : Rendered) (attempts : ℕ)
    (resp : AdapterResponse) (past : List Event)
    → let (delivery, events) = finish adapter fallback rendered attempts (resp, past) in
      ((delivery.outcome == "accepted") ≡ accepted resp)
      × (taken_by adapter.name events ≡ taken_by adapter.name past)
      × (taken_elsewhere adapter.name events
          ≡ taken_elsewhere adapter.name past + (if delivery.outcome == "fallback" then 1 else 0))
unfolding finish send
finish-takes adapter none rendered attempts resp past = elim (Bool-cases (accepted resp)) [
  | inl e ↦ rw e (refl, refl, omega arith)
  | inr e ↦ rw e (refl, refl, omega arith)
]
finish-takes adapter (some fb) rendered attempts resp past = elim (Bool-cases (accepted resp)) [
  | inl e ↦ rw e (refl, refl, omega arith)
  | inr e ↦ elim (Bool-cases (fb.name == adapter.name)) [
    | inl f ↦ rw (e, f) (refl, refl, omega arith)
    | inr f ↦ elim (Bool-cases (accepted (fb.answer past rendered))) [
      | inl g ↦ rw (e, f, g) (ground (arith, f, g))
      | inr g ↦ rw (e, f, g) (ground (arith, f, g))
    ]
  ]
]

module _ (adapter : Adapter) (fallback : Option Adapter) (rendered : Rendered) where
  abbrev delivery : Delivery
  delivery = (deliver adapter fallback rendered []).0

  abbrev events : List Event
  events = (deliver adapter fallback rendered []).1

  deliver-takes :
      (taken_by adapter.name events ≡ (if delivery.outcome == "accepted" then 1 else 0))
      × (taken_elsewhere adapter.name events ≡ (if delivery.outcome == "fallback" then 1 else 0))
  unfolding deliver send
  deliver-takes =
      let first : AdapterResponse = adapter.answer [] rendered in
      let calls : List Event = sent adapter.name rendered first ∷ [] in
      let second : AdapterResponse = adapter.answer (slept 5 ∷ calls) rendered in
      let again : List Event = sent adapter.name rendered second ∷ slept 5 ∷ calls in
      ground (
        arith,
        eq_refl adapter.name,
        finish-takes adapter fallback rendered 1 first calls,
        finish-takes adapter fallback rendered 2 second again,
      )

-- The record of a page after its delivery: the accepted counter is the number of calls of the page's
-- own adapter that were accepted, the rejected one is 1 exactly where that is 0, the counter of the
-- fallback is the number of accepted calls of another adapter, and nothing is dropped. The record of
-- a drop counts one drop, or nothing where the drop is the end of a drill.
pub outcome_record-metrics :
    (adapter : Adapter) (fallback : Option Adapter) (environment : String) (id : Json) (now : ℕ)
    (p : Page) (d : Drop) (rendered : Rendered)
    → let (delivery, events) = deliver adapter fallback rendered [] in
      let m = (page_record environment id p rendered delivery now).metrics in
      let n = (drop_record environment id d now).metrics in
      (m.vendor_accepted ≡ taken_by adapter.name events)
      × (m.vendor_accepted + m.vendor_rejected ≡ 1)
      × (m.fallback_forwarded ≡ taken_elsewhere adapter.name events)
      × (m.dropped ≡ 0)
      × (n.vendor_accepted + n.vendor_rejected + n.fallback_forwarded ≡ 0)
      × (n.dropped ≡ (if d.suppressed then 0 else 1))
unfolding page_record drop_record
outcome_record-metrics adapter fallback environment id now p d rendered = ground (
  arith,
  delivery_metrics_lem (deliver adapter fallback rendered []).0.outcome,
  deliver-takes adapter fallback rendered,
)
