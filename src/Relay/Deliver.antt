-- ===== src/Relay/Deliver.antt =====
-- Delivery through an adapter (aws/lambdas/operator_pager_relay/handler.py): `SnsForwardAdapter`,
-- `_accepted`, `_permanent`, `deliver`. What an adapter answers is the outside's choice: it may
-- depend on all that happened before.
pub mod Policy
use qontinui_stack.Prelude.{
  ℕ, zero, suc, ◌+◌, ◌≤◌, String, ◌≡◌, refl, Bool, true, false, not, ◌&&◌, ◌||◌, Option, none, some,
  List, [], ◌∷◌, ◌++◌, arith, ltb, leb, ◌==◌, if◌then◌else◌,
}
use qontinui_stack.Relay.Render.{Rendered}

-- What an adapter observed; no status means a transport error.
pub record AdapterResponse : Type 0 where
  pub status : Option ℕ
  pub ref : Option String

-- What the SNS client's `publish` did: raise, perhaps with a status in the error's response
-- metadata, or return a response, perhaps with one.
pub data Publish : Type 0 where
  raised : (status : Option ℕ) → Publish
  returned : (status : Option ℕ) (message_id : Option String) → Publish

-- `SnsForwardAdapter.send`, given what `publish` did. A response without a status counts as 200.
unfoldable pub sns_send : String → Publish → AdapterResponse
sns_send topic_arn published =
    if topic_arn == "" then record { status = none; ref = none } else (elim published [
      | raised status ↦ record { status = status; ref = none }
      | returned none id ↦ record { status = some 200; ref = id }
      | returned (some status) id ↦ record { status = some status; ref = id }
    ])

-- A call of `send` with what it observed, and a sleep in seconds.
pub data Event : Type 0 where
  sent : String → Rendered → AdapterResponse → Event
  slept : ℕ → Event

-- An adapter: its name, and its answer after some events, the last one first.
pub record Adapter : Type 0 where
  pub name : String
  pub answer : List Event → Rendered → AdapterResponse

abbrev pub retry_delay_secs : ℕ
retry_delay_secs = 5

abbrev in_range : ℕ → ℕ → Option ℕ → Bool
in_range low high none = false
in_range low high (some s) = leb low s && ltb s high

unfoldable pub accepted : AdapterResponse → Bool
accepted r = in_range 200 300 r.status

unfoldable pub permanent : AdapterResponse → Bool
permanent r = in_range 400 500 r.status

pub record Delivery : Type 0 where
  pub outcome : String
  pub adapter : String
  pub vendor_status : Option ℕ
  pub vendor_ref : Option String
  pub attempts : ℕ
  pub fallback_status : Option ℕ

abbrev outcome_of : String → Adapter → AdapterResponse → Option String → ℕ → Option ℕ → Delivery
outcome_of outcome adapter resp ref attempts fallback_status = record {
  outcome = outcome;
  adapter = adapter.name;
  vendor_status = resp.status;
  vendor_ref = ref;
  attempts = attempts;
  fallback_status = fallback_status;
}

-- adapter.send(rendered, page), recorded.
unfoldable pub send : Adapter → Rendered → List Event → AdapterResponse × List Event
send adapter rendered past =
    let r = adapter.answer past rendered in (r, sent adapter.name rendered r ∷ past)

abbrev fallback_step :
    Adapter → AdapterResponse → ℕ → AdapterResponse × List Event → Delivery × List Event
fallback_step adapter resp attempts (fb, past) =
    if accepted fb
    then (outcome_of "fallback" adapter resp fb.ref attempts fb.status, past)
    else (outcome_of "rejected" adapter resp none attempts fb.status, past)

-- What follows the last answer of the adapter.
unfoldable pub finish :
    Adapter → Option Adapter → Rendered → ℕ → AdapterResponse × List Event → Delivery × List Event
finish adapter fallback rendered attempts (resp, past) =
    if accepted resp
    then (outcome_of "accepted" adapter resp resp.ref attempts none, past)
    else (elim fallback [
      | none ↦ (outcome_of "rejected" adapter resp none attempts none, past)
      | some fb ↦
          if not (fb.name == adapter.name)
          then fallback_step adapter resp attempts (send fb rendered past)
          else (outcome_of "rejected" adapter resp none attempts none, past)
    ])

abbrev retry :
    Adapter → Option Adapter → Rendered → AdapterResponse × List Event → Delivery × List Event
retry adapter fallback rendered (resp, past) =
    if not (accepted resp) && not (permanent resp)
    then finish adapter fallback rendered 2 (send adapter rendered (slept retry_delay_secs ∷ past))
    else finish adapter fallback rendered 1 (resp, past)

unfoldable pub deliver : Adapter → Option Adapter → Rendered → List Event → Delivery × List Event
deliver adapter fallback rendered past =
    retry adapter fallback rendered (send adapter rendered past)
