-- ===== src/Examples/Accounts.antt =====
-- Sign-ups, links, checks, notices and partitions at concrete inputs.
use qontinui_stack.Prelude.{
  ◌||◌, Option, String, ◌≡◌, refl, ◌↔◌, true, false, ◌⊎◌, none, some, List, [], ◌∷◌, ◌+◌, ◌*◌, All,
  arith, ◌≤◌, map,
}
use qontinui_stack.Prelude.Assoc.{lookup}
use qontinui_stack.Autolink.{
  is_admin, User, Event, Link, Cloud, returned, raised, cognito_error, handler, admits, allowlist,
  split_commas, is_external, provider_name, before_underscore, after_underscore, has_underscore,
  candidates, is_candidate,
}
use qontinui_stack.Autolink.Linking.{
  IsLinkable, IsConfirmed, IsNamed, handler-links, handler-asks, handler-IsNamed,
}
use qontinui_stack.Autolink.Gate.{is_refusal, handler-refuses}
use qontinui_stack.Python.{strip, lstrip, rstrip, is_space}
use qontinui_stack.Partitions.{parity}
use qontinui_stack.Partitions.Parity.{IsMatched, parity-equal}
use qontinui_stack.Watchdog.{is_ok, is_alert, Reading, read, failed, is_bad, Sent, run}
use qontinui_stack.Watchdog.Notices.{IsTold, run-tells}
use qontinui_stack.Watchdog.Checks.{LagRow, check_apply_lag}
use qontinui_stack.Watchdog.Checks.Outage.{disabled_runs, outage-alerts}

abbrev native : User
native = record {
  username = "ann";
  user_status = some "CONFIRMED";
  attributes = ("email_verified", "true") ∷ [];
}

abbrev cloud : Cloud
cloud = record {
  lower = λ s. s;
  allowlist = some "a@x.org, b@x.org";
  pool = some "pool";
  list_users = λ pool query. some (native ∷ []);
  accepts = λ link. true;
}

abbrev event_with : String → Event
event_with email = record {
  user_name = some "Google_17";
  trigger = some "PreSignUp_ExternalProvider";
  attributes = ("email", email) ∷ ("email_verified", "true") ∷ [];
  response = [];
}

abbrev link : Link
link = record { pool = "pool"; destination = "ann"; provider = "Google"; subject = "17" }

linkable : IsLinkable cloud (event_with "a@x.org") link
unfolding is_external admits allowlist provider_name before_underscore after_underscore
    has_underscore candidates is_candidate split_commas strip lstrip rstrip is_space
linkable = record {
  email = "a@x.org";
  users = native ∷ [];
  user = native;
  external = refl;
  admitted = refl;
  has_email = refl;
  email_filled = refl;
  verified = refl;
  has_pool = refl;
  from_provider = refl;
  trusted = refl;
  listed = refl;
  unique = refl;
  made = refl;
}

handler-links_example :
    ((handler cloud (event_with "a@x.org")).1 ≡ link ∷ [])
    × (cloud.accepts link ≡ true
        → (after : Event) × ((handler cloud (event_with "a@x.org")).0 ≡ returned after)
          × IsConfirmed (event_with "a@x.org") after)
    × (cloud.accepts link ≡ false → (handler cloud (event_with "a@x.org")).0 ≡ raised cognito_error)
handler-links_example = handler-links cloud (event_with "a@x.org") link linkable

handler-asks_example :
    All (IsLinkable cloud (event_with "a@x.org")) (handler cloud (event_with "a@x.org")).1
handler-asks_example = handler-asks cloud (event_with "a@x.org")

handler-refuses_example :
    ((is_refusal (handler cloud (event_with "c@x.org")).0 ≡ true) ↔ (
      is_admin cloud (event_with "c@x.org")
        || admits cloud (lookup "email" (event_with "c@x.org").attributes)
      ≡ false))
    × (is_refusal (handler cloud (event_with "c@x.org")).0 ≡ true
        → (handler cloud (event_with "c@x.org")).1 ≡ [])
handler-refuses_example = handler-refuses cloud (event_with "c@x.org")

-- The gate keeps a stranger out.
admits_test : admits cloud (some "c@x.org") ≡ false
unfolding admits allowlist split_commas strip lstrip rstrip is_space
admits_test = refl

handler-IsNamed_example :
    All (IsNamed (event_with "a@x.org")) (handler cloud (event_with "a@x.org")).1
handler-IsNamed_example = handler-IsNamed cloud (event_with "a@x.org")

abbrev readings : List (String × Reading)
readings =
    ("slot", failed "timeout")
    ∷ ("archiver", read (record { name = "archiver"; status = is_alert; message = "failing" }))
    ∷ []

abbrev before : List (String × Sent)
before = ("archiver:ALERT", record { message = "failing"; at = 100 }) ∷ []

run-tells_example :
    All
      (λ c.
        (is_bad c ≡ false)
        ⊎ IsTold (60 * 60) 160 "RDS" before (run 60 160 "RDS" before readings).2 c)
      (run 60 160 "RDS" before readings).0
run-tells_example = run-tells 60 160 "RDS" before readings

abbrev off_row : LagRow
off_row = record { enabled = false; age = some 5; running = false }

-- The limit of 1800 seconds is over from 1801 whole seconds on.
outage-alerts_example :
    ((check_apply_lag "sub" 1800 1802000000
        (disabled_runs "sub" 1800 off_row (1000000 ∷ 61000000 ∷ 121000000 ∷ []) none)
        (some off_row)).0.status
      ≡ is_alert)
    ↔ (1000000 + (1800 + 1) * 1000000 ≤ 1802000000)
outage-alerts_example =
    outage-alerts "sub" 1800 1000000 1802000000 (61000000 ∷ 121000000 ∷ []) off_row refl
      (omega arith)

held_test :
    map
      (λ now. (check_apply_lag "sub" 1800 now (some 1000000) (some off_row)).0.status)
      (1801500000 ∷ 1802000000 ∷ [])
    ≡ (is_ok ∷ is_alert ∷ [])
unfolding check_apply_lag
held_test = refl

abbrev on_publisher : String → Option (List String)
on_publisher parent = some ("p1" ∷ "p2" ∷ [])

abbrev on_subscriber : String → Option (List String)
on_subscriber parent = some ("p2" ∷ "p1" ∷ [])

parity-equal_example :
    ((parity on_publisher on_subscriber ("t" ∷ [])).equal ≡ true)
    ↔ All (λ parent. IsMatched (on_publisher parent) (on_subscriber parent)) ("t" ∷ [])
parity-equal_example = parity-equal on_publisher on_subscriber ("t" ∷ [])
