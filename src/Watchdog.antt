-- ===== src/Watchdog.antt =====
-- local/postgres/lib/qpg/watchdog.py: the checks as decisions on what they read, and the notices of
-- a run. What the databases, the clock and Python's formatting answer are parameters.
pub mod Checks
pub mod Notices
use qontinui_stack.Prelude.{
  ℕ, ◌+◌, ◌*◌, ◌-◌, String, ◌≡◌, refl, Bool, true, false, not, ◌&&◌, ◌||◌, Option, none, some, List,
  [], ◌∷◌, ◌++◌, map, ltb, leb, ◌==◌, if◌then◌else◌,
}
use qontinui_stack.Prelude.Assoc.{lookup, insert}
use qontinui_stack.Python.{concat}

pub data Status : Type 0 where
  is_ok is_info is_alert is_unknown : Status

pub record Check : Type 0 where
  pub name : String
  pub status : Status
  pub message : String

abbrev pub status_text : Status → String
status_text is_ok = "OK"
status_text is_info = "INFO"
status_text is_alert = "ALERT"
status_text is_unknown = "UNKNOWN"

-- What a check ran into: it read, or one of the errors that `_guard` catches with its text.
pub data Reading : Type 0 where
  read : Check → Reading
  failed : (error : String) → Reading

-- `_guard`
unfoldable pub guard : String → Reading → Check
guard name (read check) = check
guard name (failed error) = record {
  name = name;
  status = is_unknown;
  message = concat ("could not read: " ∷ error ∷ []);
}

-- c.status in ("ALERT", "UNKNOWN")
unfoldable pub is_bad : Check → Bool
is_bad check = elim check.status [
  | is_ok ↦ false
  | is_info ↦ false
  | is_alert ↦ true
  | is_unknown ↦ true
]

unfoldable pub bad : List Check → List Check
bad [] = []
bad (c ∷ rest) = if is_bad c then c ∷ bad rest else bad rest

-- An entry of `sent`: the message of the last notice and when it was sent, in whole seconds.
pub record Sent : Type 0 where
  pub message : String
  pub at : ℕ

unfoldable pub key_of : Check → String
key_of c = concat (c.name ∷ ":" ∷ status_text c.status ∷ [])

pub record Notice : Type 0 where
  pub title : String
  pub body : String
  pub check : String
  pub status : String

abbrev notice_of : (storage : String) → Check → Notice
notice_of storage c = record {
  title = concat ("local/postgres watchdog " ∷ status_text c.status ∷ ": " ∷ c.name ∷ []);
  body = concat (c.message ∷ "\n" ∷ storage ∷ []);
  check = c.name;
  status = status_text c.status;
}

-- Whether a notice with the same text was sent less than `renotify` seconds ago.
unfoldable pub suppressed : (renotify now : ℕ) → Check → Option Sent → Bool
suppressed renotify now c none = false
suppressed renotify now c (some prior) = prior.message == c.message && ltb now (renotify + prior.at)

abbrev fresh_entry : (renotify now : ℕ) → Check → Option Sent → Sent
fresh_entry renotify now c none = record { message = c.message; at = now }
fresh_entry renotify now c (some prior) =
    if suppressed renotify now c (some prior)
    then prior
    else record { message = c.message; at = now }

-- The loop over the bad checks: the new `sent` and the notices, in order.
unfoldable pub notify_all :
    (renotify now : ℕ) (storage : String) (sent : List (String × Sent))
    → List Check
    → List (String × Sent)
    → List (String × Sent) × List Notice
notify_all renotify now storage sent [] fresh = (fresh, [])
notify_all renotify now storage sent (c ∷ rest) fresh =
    let prior = lookup (key_of c) sent in
    let (final, notices) =
      notify_all renotify now storage sent rest
        (insert (key_of c) (fresh_entry renotify now c prior) fresh) in
    (final, if suppressed renotify now c prior then notices else notice_of storage c ∷ notices)

-- `run`, from what its checks read: the checks, the `sent` that it saves and the notices it sends.
unfoldable pub run :
    (renotify_minutes now : ℕ) (storage : String) (sent : List (String × Sent))
    → List (String × Reading)
    → List Check × List (String × Sent) × List Notice
run renotify_minutes now storage sent readings =
    let checks = map (λ r. guard r.0 r.1) readings in
    let (fresh, notices) = notify_all (renotify_minutes * 60) now storage sent (bad checks) [] in
    (checks, fresh, notices)
