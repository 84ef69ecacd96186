-- ===== src/Relay/Record.antt =====
-- `outcome_record` of aws/lambdas/operator_pager_relay/handler.py: the one record per message.
pub mod Counts
use qontinui_stack.Prelude.{
  ℕ, ◌+◌, ◌≤◌, String, ◌≡◌, refl, Bool, true, false, not, ◌&&◌, ◌||◌, Option, none, some, List, [],
  ◌∷◌, arith, ◌==◌, if◌then◌else◌,
}
use qontinui_stack.Python.Json.{Json}
use qontinui_stack.Relay.Types.{Page, Drop}
use qontinui_stack.Relay.Render.{Rendered}
use qontinui_stack.Relay.Deliver.{Delivery}

-- The four metrics that the record emits.
pub record Metrics : Type 0 where
  pub vendor_accepted : ℕ
  pub vendor_rejected : ℕ
  pub fallback_forwarded : ℕ
  pub dropped : ℕ

-- The fields that only a delivered page's record has.
pub record Delivered : Type 0 where
  pub drill_detection : String
  pub conditions : List String
  pub adapter : String
  pub vendor_status : Option ℕ
  pub vendor_ref : Option String
  pub attempts : ℕ
  pub fallback_used : Bool
  pub fallback_status : Option ℕ
  pub remediation_named : Option String
  pub asks : Bool
  pub source_text_withheld : Bool
  pub title : String

-- `drop_reason` (with adapter, vendor_status and vendor_ref null) or the fields above.
pub data Details : Type 0 where
  drop_reason : String → Details
  delivered : Delivered → Details

pub record OutcomeRecord : Type 0 where
  pub sns_message_id : Json
  pub condition : Option String
  pub kind : Option String
  pub origin : String
  pub source : String
  pub signal : String
  pub dedup_key : Option String
  pub alert_ids : List String
  pub drill : Bool
  pub drill_id : Option String
  pub outcome : String
  pub details : Details
  pub environment : String
  pub metrics : Metrics
  pub timestamp : ℕ

abbrev pub text_or_none : String → Option String
text_or_none s = if s == "" then none else some s

abbrev pub no_metrics : Metrics
no_metrics = record {
  vendor_accepted = 0;
  vendor_rejected = 0;
  fallback_forwarded = 0;
  dropped = 0;
}

unfoldable pub drop_record : String → Json → Drop → ℕ → OutcomeRecord
drop_record environment id drop now = record {
  sns_message_id = id;
  condition = drop.condition;
  kind = drop.kind;
  origin = drop.origin;
  source = drop.source;
  signal = drop.signal;
  dedup_key = none;
  alert_ids = drop.alert_ids;
  drill = drop.source == "qontinui.drill";
  drill_id = drop.drill_id;
  outcome = if drop.suppressed then "suppressed" else "dropped";
  details = drop_reason drop.reason;
  environment = environment;
  metrics = if drop.suppressed then no_metrics else record no_metrics { dropped = 1 };
  timestamp = now;
}

unfoldable pub delivery_metrics : String → Metrics
delivery_metrics outcome =
    if outcome == "accepted"
    then record no_metrics { vendor_accepted = 1 }
    else if outcome == "fallback"
    then record no_metrics { vendor_rejected = 1; fallback_forwarded = 1 }
    else record no_metrics { vendor_rejected = 1 }

unfoldable pub page_record : String → Json → Page → Rendered → Delivery → ℕ → OutcomeRecord
page_record environment id page rendered delivery now = record {
  sns_message_id = id;
  condition = page.condition;
  kind = some page.kind;
  origin = page.origin;
  source = page.source;
  signal = page.signal;
  dedup_key = text_or_none page.dedup_key;
  alert_ids = page.alert_ids;
  drill = page.drill || page.source == "qontinui.drill";
  drill_id = page.drill_id;
  outcome = delivery.outcome;
  details = delivered (record {
    drill_detection = page.drill_detection;
    conditions = page.conditions;
    adapter = delivery.adapter;
    vendor_status = delivery.vendor_status;
    vendor_ref = delivery.vendor_ref;
    attempts = delivery.attempts;
    fallback_used = delivery.outcome == "fallback";
    fallback_status = delivery.fallback_status;
    remediation_named = text_or_none page.remediation;
    asks = rendered.asks;
    source_text_withheld = rendered.source_text_withheld;
    title = rendered.title;
  });
  environment = environment;
  metrics = delivery_metrics delivery.outcome;
  timestamp = now;
}
