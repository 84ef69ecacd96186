-- ===== src/Relay/Deliver/Policy.antt =====
-- The retry rule and the fallback rule of `deliver` (aws/lambdas/operator_pager_relay/handler.py).
use qontinui_stack.Prelude.{
  ℕ, suc, ◌+◌, ◌≤◌, String, ◌≡◌, not, ◌&&◌, ◌||◌, Option, none, some, List, [], ◌∷◌, ◌⊎◌, inl, inr,
  All, arith, ◌==◌, Bool-cases, if◌then◌else◌,
}
use qontinui_stack.Relay.Render.{Rendered}
use qontinui_stack.Relay.Deliver.{
  AdapterResponse, Event, sent, slept, Adapter, accepted, permanent, send, finish, deliver,
  Delivery,
}

-- How often something was sent, sent and accepted, slept.
abbrev pub sends : List Event → ℕ
sends [] = 0
sends (sent name rendered r ∷ rest) = suc (sends rest)
sends (slept secs ∷ rest) = sends rest

abbrev pub accepts : List Event → ℕ
accepts [] = 0
accepts (sent name rendered r ∷ rest) = if accepted r then suc (accepts rest) else accepts rest
accepts (slept secs ∷ rest) = accepts rest

abbrev pub sleeps : List Event → ℕ
sleeps [] = 0
sleeps (sent name rendered r ∷ rest) = sleeps rest
sleeps (slept secs ∷ rest) = suc (sleeps rest)

finish-accepts :
    (adapter : Adapter) (fallback : Option Adapter) (rendered : Rendered) (attempts : ℕ)
    (resp : AdapterResponse) (past : List Event)
    → accepts (finish adapter fallback rendered attempts (resp, past)).1
        + (if accepted resp then 1 else 0)
      ≡ accepts past
        + (if (finish adapter fallback rendered attempts (resp, past)).0.outcome == "rejected"
            then 0
            else 1)
unfolding finish send
finish-accepts adapter none rendered attempts resp past = elim (Bool-cases (accepted resp)) [
  | inl e ↦ rw e (omega arith)
  | inr e ↦ rw e (omega arith)
]
finish-accepts adapter (some fb) rendered attempts resp past = elim (Bool-cases (accepted resp)) [
  | inl e ↦ rw e (omega arith)
  | inr e ↦ elim (Bool-cases (fb.name == adapter.name)) [
    | inl f ↦ rw (e, f) (omega arith)
    | inr f ↦ elim (Bool-cases (accepted (fb.answer past rendered))) [
      | inl g ↦ rw (e, f, g) (ground arith)
      | inr g ↦ rw (e, f, g) (ground arith)
    ]
  ]
]

module _ (adapter : Adapter) (fallback : Option Adapter) (rendered : Rendered)
    (past : List Event) where
  abbrev pub first : AdapterResponse
  first = adapter.answer past rendered

  abbrev second : AdapterResponse
  second = adapter.answer (slept 5 ∷ sent adapter.name rendered first ∷ past) rendered

  abbrev pub result : Delivery
  result = (deliver adapter fallback rendered past).0

  abbrev pub after : List Event
  after = (deliver adapter fallback rendered past).1

  -- A 2xx or 4xx answer is never retried: one attempt, no sleep, and at most the fallback besides.
  -- Any other answer, and a transport error, is retried once, after one sleep of 5 seconds.
  pub deliver-attempts :
      (result.attempts ≡ (if accepted first || permanent first then 1 else 2))
      × (sleeps after + 1 ≡ sleeps past + result.attempts)
      × (sends past + result.attempts ≤ sends after)
      × (sends after ≤ sends past + result.attempts + 1)
  unfolding deliver finish permanent accepted send
  deliver-attempts = ground arith

  -- A page is accepted at most once, and it is reported rejected exactly when no call took it.
  pub deliver-accepts :
      accepts after ≡ accepts past + (if result.outcome == "rejected" then 0 else 1)
  unfolding deliver send
  deliver-accepts = ground (
    arith,
    finish-accepts adapter fallback rendered 1 first (sent adapter.name rendered first ∷ past),
    finish-accepts adapter fallback rendered 2 second
        (sent adapter.name rendered second ∷ slept 5 ∷ sent adapter.name rendered first ∷ past),
  )

finish-events :
    (adapter : Adapter) (fallback : Option Adapter) (rendered : Rendered) (attempts : ℕ)
    (resp : AdapterResponse) (past : List Event)
    → ((finish adapter fallback rendered attempts (resp, past)).1 ≡ past)
      ⊎ ((fb : Adapter) × ((finish adapter fallback rendered attempts (resp, past)).1
            ≡ sent fb.name rendered (fb.answer past rendered) ∷ past))
unfolding finish send
finish-events adapter none rendered attempts resp past = inl (ground arith)
finish-events adapter (some fb) rendered attempts resp past = elim (Bool-cases (accepted resp)) [
  | inl e ↦ inl (rw e)
  | inr e ↦ elim (Bool-cases (fb.name == adapter.name)) [
    | inl f ↦ inl (rw (e, f))
    | inr f ↦ inr (fb, rw (e, f) (ground arith))
  ]
]

-- What holds of every call with this rendered page holds of all events of its delivery.
module _ {κ} (P : Event → Type κ) (rendered : Rendered)
    (call : (name : String) (r : AdapterResponse) → P (sent name rendered r))
    (pause : (secs : ℕ) → P (slept secs)) where
  finish-All :
      (adapter : Adapter) (fallback : Option Adapter) (attempts : ℕ) (resp : AdapterResponse)
      (past : List Event)
      → All P past
      → All P (finish adapter fallback rendered attempts (resp, past)).1
  finish-All adapter fallback attempts resp past h =
      elim (finish-events adapter fallback rendered attempts resp past) [
        | inl e ↦ rw e h
        | inr (fb, e) ↦ rw e (call fb.name _, h)
      ]

  pub deliver-All :
      (adapter : Adapter) (fallback : Option Adapter) (past : List Event)
      → All P past
      → All P (deliver adapter fallback rendered past).1
  unfolding deliver send
  deliver-All adapter fallback past h =
      let first : AdapterResponse = adapter.answer past rendered in
      let h1 : All P (sent adapter.name rendered first ∷ past) = (call adapter.name first, h) in
      elim (Bool-cases (not (accepted first) && not (permanent first))) [
        | inl e ↦ rw e (finish-All adapter fallback 2 _ _ (call adapter.name _, (pause 5, h1)))
        | inr e ↦ rw e (finish-All adapter fallback 1 _ _ h1)
      ]
