-- ===== src/Watchdog/Checks.antt =====
-- Checks of local/postgres/lib/qpg/watchdog.py: the slot, the lag of apply, the follower and the
-- reverse subscription, each from the row that its query returned.
pub mod Outage
pub mod Orphans
use qontinui_stack.Prelude.{
  ℕ, ◌-◌, ◌/◌, String, ◌≡◌, refl, Bool, true, false, not, ◌&&◌, ◌||◌, Option, none, some, List, [],
  ◌∷◌, ltb, leb, ◌==◌, if◌then◌else◌,
}
use qontinui_stack.Prelude.Decimal.{decimal}
use qontinui_stack.Python.{concat, is_empty, join}
use qontinui_stack.Watchdog.{Status, is_ok, is_info, is_alert, is_unknown, Check}

-- f"{n / GB:.2f}" of an integer, which is none where it is negative, and f"{n / GB:.1f}"
pub record Format : Type 0 where
  pub gigabytes : Option ℕ → String
  pub threshold : ℕ → String

abbrev pub check_of : String → Status → List String → Check
check_of name status parts = record { name = name; status = status; message = concat parts }

-- The row of the slot on the publisher.
pub record SlotRow : Type 0 where
  pub wal_status : String
  pub active : String
  pub retained : Option ℕ
  pub lag : Option ℕ

abbrev slot_text : Format → String → SlotRow → String
slot_text format slot row = concat (
    "slot "
    ∷ slot
    ∷ ": wal_status="
    ∷ row.wal_status
    ∷ " active="
    ∷ row.active
    ∷ " retained="
    ∷ format.gigabytes row.retained
    ∷ " GB unconfirmed="
    ∷ format.gigabytes row.lag
    ∷ " GB"
    ∷ [])

abbrev past_keep_size : String
past_keep_size = concat (
    " — the slot is past max_slot_wal_keep_size; when it is lost, recovery is a full re-seed and the "
    ∷ "local backups stop advancing (r02's copy goes stale, not lost) until the re-seed reaches 'r'"
    ∷ [])

abbrev by_retention : Format → (threshold : ℕ) (text : String) → Option ℕ → Check
by_retention format threshold text none = check_of "slot" is_unknown (text ∷ [])
by_retention format threshold text (some retained) =
    if leb threshold retained
    then check_of "slot" is_alert
        (text ∷ " — at or over " ∷ format.threshold threshold ∷ " GB" ∷ [])
    else check_of "slot" is_ok (text ∷ [])

abbrev by_slot_row : Format → (threshold : ℕ) (slot : String) → Option SlotRow → Check
by_slot_row format threshold slot none =
    check_of "slot" is_alert
      ("slot " ∷ slot ∷ " is MISSING on the publisher: a full re-seed is needed (D11)" ∷ [])
by_slot_row format threshold slot (some row) =
    if row.wal_status == "unreserved" || row.wal_status == "lost"
    then check_of "slot" is_alert (slot_text format slot row ∷ past_keep_size ∷ [])
    else by_retention format threshold (slot_text format slot row) row.retained

-- `check_slot`
unfoldable pub check_slot :
    Format → (subscription : String) (threshold : ℕ) (slot : Option String) → Option SlotRow → Check
check_slot format subscription threshold none row =
    check_of "slot" is_unknown ("subscription " ∷ subscription ∷ " or its slot name is absent" ∷ [])
check_slot format subscription threshold (some slot) row =
    if is_empty slot
    then check_of "slot" is_unknown
        ("subscription " ∷ subscription ∷ " or its slot name is absent" ∷ [])
    else by_slot_row format threshold slot row

-- The row of the subscription and its worker; `age` is none where it reads as the empty text.
pub record LagRow : Type 0 where
  pub enabled : Bool
  pub age : Option ℕ
  pub running : Bool

abbrev held_for : (limit held : ℕ) → Check
held_for limit held =
    if ltb limit held
    then check_of "apply_lag" is_alert (
        "subscription has been DISABLED for "
        ∷ decimal held
        ∷ " s (limit "
        ∷ decimal limit
        ∷ ")"
        ∷ [])
    else check_of "apply_lag" is_ok
        ("subscription disabled for " ∷ decimal held ∷ " s (within " ∷ decimal limit ∷ " s)" ∷ [])

abbrev by_age : (limit : ℕ) → Option ℕ → Check
by_age limit none = check_of "apply_lag" is_unknown ("apply worker reports no latest_end_time" ∷ [])
by_age limit (some age) =
    if ltb limit age
    then check_of "apply_lag" is_alert (
        "apply has reported no progress for "
        ∷ decimal age
        ∷ " s (limit "
        ∷ decimal limit
        ∷ ")"
        ∷ [])
    else check_of "apply_lag" is_ok ("last progress " ∷ decimal age ∷ " s ago" ∷ [])

-- int(x) of a difference of times in seconds; a clock that went back counts as no time here.
abbrev pub whole_seconds : ℕ → ℕ
whole_seconds microseconds = microseconds / 1000000

abbrev by_enabled : (limit now since : ℕ) → LagRow → Check × Option ℕ
by_enabled limit now since row =
    if not row.enabled
    then (held_for limit (whole_seconds (now - since)), some since)
    else if not row.running
    then (check_of "apply_lag" is_alert ("no apply worker is running" ∷ []), none)
    else (by_age limit row.age, none)

abbrev since_or_now : ℕ → Option ℕ → ℕ
since_or_now now none = now
since_or_now now (some since) = since

-- `check_apply_lag`, with `disabled_since` of the watchdog's saved state before and after it. The
-- times are in microseconds, where the program has doubles of seconds, and its two reads of the clock
-- are one.
unfoldable pub check_apply_lag :
    (subscription : String) (limit now : ℕ) → Option ℕ → Option LagRow → Check × Option ℕ
check_apply_lag subscription limit now since none =
    (check_of "apply_lag" is_unknown ("subscription " ∷ subscription ∷ " absent" ∷ []), since)
check_apply_lag subscription limit now since (some row) =
    by_enabled limit now (since_or_now now since) row

pub record FollowerRow : Type 0 where
  pub status : String
  pub reason : String
  pub age : ℕ
  pub mismatch : Option ℕ

abbrev over : ℕ → Option ℕ → Bool
over limit none = false
over limit (some n) = ltb limit n

abbrev mismatch_text : Option ℕ → String
mismatch_text none = ""
mismatch_text (some n) = decimal n

-- `check_follower`
unfoldable pub check_follower : (limit : ℕ) → Option FollowerRow → Check
check_follower limit none = check_of "follower" is_unknown ("follower.state is empty" ∷ [])
check_follower limit (some row) =
    if row.status == "halted"
    then check_of "follower" is_alert ("follower HALTED: " ∷ row.reason ∷ [])
    else if row.status == "in_progress" && ltb limit row.age
    then check_of "follower" is_alert
        ("follower step in progress for " ∷ decimal row.age ∷ " s" ∷ [])
    else if over limit row.mismatch
    then check_of "follower" is_alert (
        "publisher and subscriber schema versions differ for "
        ∷ mismatch_text row.mismatch
        ∷ " s"
        ∷ [])
    else check_of "follower" is_ok ("status=" ∷ row.status ∷ [])

abbrev rose : Option ℕ → ℕ → Bool
rose none errors = false
rose (some before) errors = ltb before errors

abbrev stale : ℕ → Option ℕ → Bool
stale limit none = true
stale limit (some age) = ltb limit age

abbrev age_text : (missing : String) → Option ℕ → String
age_text missing none = missing
age_text missing (some age) = decimal age

-- `check_reverse` on a configured reverse subscription: the row is its error count and its lag, and
-- the saved count is the one before, then the one read now.
unfoldable pub check_reverse :
    (name : String) (limit : ℕ) → Option ℕ → Option (ℕ × Option ℕ) → Check × Option ℕ
check_reverse name limit before none = (
  check_of "reverse" is_unknown ("reverse subscription " ∷ name ∷ " not readable on RDS" ∷ []),
  before,
)
check_reverse name limit before (some (errors, age)) = (
  if rose before errors
      then check_of "reverse" is_alert (
          "reverse apply_error_count rose "
          ∷ age_text "" before
          ∷ " -> "
          ∷ decimal errors
          ∷ ": a schema change reached the reverse window (A6); end the window (Phase 8) or fix it"
          ∷ [])
      else if stale limit age
      then check_of "reverse" is_alert
          ("reverse lag " ∷ age_text "UNKNOWN" age ∷ " s over " ∷ decimal limit ∷ " s" ∷ [])
      else check_of "reverse" is_ok
          ("reverse errors=" ∷ decimal errors ∷ ", lag " ∷ age_text "" age ∷ " s" ∷ []),
  some errors,
)

-- `check_replica_identity`, from the offenders on the publisher.
unfoldable pub check_replica_identity : List String → Check
check_replica_identity [] =
    check_of "replica_identity" is_ok
      ("every published table has a primary key or a replica identity" ∷ [])
check_replica_identity (t ∷ rest) = check_of "replica_identity" is_alert (
    "published table(s) with no usable replica identity; production UPDATE/DELETE on them "
    ∷ "fails while they are published: "
    ∷ join ", " (t ∷ rest)
    ∷ [])

-- The row of pg_stat_archiver; the times are empty where there is none.
pub record ArchiverRow : Type 0 where
  pub failed_count : String
  pub last_failed : String
  pub last_ok : String
  pub failing : Bool

abbrev or_never : String → String
or_never time = if time == "" then "never" else time

-- `check_archiver`
unfoldable pub check_archiver : (enabled : Bool) → ArchiverRow → Check
check_archiver enabled row =
    if not enabled
    then check_of "archiver" is_ok ("pgBackRest not enabled" ∷ [])
    else if row.failing
    then check_of "archiver" is_alert (
        "WAL archiving is failing (last failure "
        ∷ row.last_failed
        ∷ ", last success "
        ∷ or_never row.last_ok
        ∷ "); PITR is accumulating a gap"
        ∷ [])
    else check_of "archiver" is_ok
        ("failed_count=" ∷ row.failed_count ∷ ", last success " ∷ or_never row.last_ok ∷ [])
