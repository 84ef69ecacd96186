-- ===== src/Watchdog/Checks/Orphans.antt =====
-- local/postgres/lib/qpg/watchdog.py: the check of the slots that a tablesync left on the publisher.
use qontinui_stack.Prelude.{
  ℕ, String, ◌≡◌, ◌≢◌, refl, sym, ◌↔◌, Bool, false, not, Option, none, some, List, [], ◌∷◌, length,
  map, all, elem, is_nil, ltb, ◌==◌, arith, if◌then◌else◌,
}
use qontinui_stack.Prelude.Decimal.{decimal}
use qontinui_stack.Python.{concat, join}
use qontinui_stack.Watchdog.{Status, is_ok, is_info, is_alert, Check, Reading, read, failed, guard}
use qontinui_stack.Watchdog.Checks.{Format, check_of}

-- An inactive slot: its name, its database and the bytes it retains, none where they read -1.
pub record SyncSlot : Type 0 where
  pub name : String
  pub database : String
  pub retained : Option ℕ

abbrev retained_text : Format → Option ℕ → List String
retained_text format none = "UNKNOWN" ∷ []
retained_text format (some r) = decimal r ∷ " B = " ∷ format.gigabytes (some r) ∷ " GB" ∷ []

unfoldable pub describe : Format → List SyncSlot → String
describe format slots = join ", " (
    map
      (λ s. concat (
        s.name
        ∷ " (db "
        ∷ (if s.database == "" then "?" else s.database)
        ∷ ", retained "
        ∷ concat (retained_text format s.retained)
        ∷ ")"
        ∷ []))
      slots)

unfoldable pub known_retained : List SyncSlot → List ℕ
known_retained [] = []
known_retained (s ∷ rest) = elim s.retained [
  | none ↦ known_retained rest
  | some r ↦ r ∷ known_retained rest
]

abbrev max_from : ℕ → List ℕ → ℕ
max_from best [] = best
max_from best (r ∷ rest) = max_from (if ltb best r then r else best) rest

abbrev pinned_by : (all_known : Bool) → List ℕ → String
pinned_by all_known [] = "UNKNOWN bytes"
pinned_by all_known (r ∷ rest) =
    concat ((if all_known then "" else "at least ") ∷ decimal (max_from r rest) ∷ " B" ∷ [])

unfoldable pub pinned : List SyncSlot → String
unfolding known_retained
pinned slots =
    pinned_by (not (ltb (length (known_retained slots)) (length slots))) (known_retained slots)

-- The names of this subscription's slots, of rows with the subscription's and the table's oid.
unfoldable pub syncing_names : (sysid : String) → List (String × String) → List String
syncing_names sysid rows = map (λ r. concat ("pg_" ∷ r.0 ∷ "_sync_" ∷ r.1 ∷ "_" ∷ sysid ∷ [])) rows

-- [o for o in found if o[0] in syncing], and the others. A slot of `found` is in the first list
-- exactly where its name is in `syncing`.
unfoldable pub own : List String → List SyncSlot → List SyncSlot
own syncing [] = []
own syncing (o ∷ rest) =
    let kept = own syncing rest in if elem o.name syncing then o ∷ kept else kept

unfoldable pub orphans : List String → List SyncSlot → List SyncSlot
orphans syncing [] = []
orphans syncing (o ∷ rest) =
    let kept = orphans syncing rest in if elem o.name syncing then kept else o ∷ kept

abbrev orphan_check : Status → List String → Check
orphan_check status parts = check_of "orphan_sync_slots" status parts

abbrev also_own : Format → List SyncSlot → List String
unfolding describe
also_own format [] = []
also_own format (o ∷ rest) =
    ". Also INFO: this subscription's own syncing slot(s): " ∷ describe format (o ∷ rest) ∷ []

-- The check on the slots that are found, those of them that are its own, and the others.
unfoldable pub by_slots : Format → (found own orphans : List SyncSlot) → Check
unfolding describe pinned
by_slots format [] mine others =
    orphan_check is_ok ("no inactive tablesync slot on the publisher" ∷ [])
by_slots format (o ∷ found) mine [] = orphan_check is_info (
    "no orphan; "
    ∷ pinned mine
    ∷ " of WAL held by this subscription's own tablesync slot(s) for "
    ∷ "tables still syncing (stuck while the subscription is disabled): "
    ∷ describe format mine
    ∷ [])
by_slots format (o ∷ found) mine (other ∷ others) = orphan_check is_alert (
    decimal (length (other ∷ others))
    ∷ " inactive tablesync slot(s) on the publisher pin "
    ∷ pinned (other ∷ others)
    ∷ " of WAL: "
    ∷ describe format (other ∷ others)
    ∷ " — left by a subscriber that died mid-copy; DROP SUBSCRIPTION does not remove them. "
    ∷ "Not dropped automatically: confirm no live subscription owns one, then "
    ∷ "pg_drop_replication_slot(<name>) on the publisher"
    ∷ also_own format mine)

abbrev no_sysid : Reading
no_sysid = failed "the subscriber's system_identifier read empty"

abbrev by_sysid : Format → List SyncSlot → List (String × String) → String → Reading
unfolding by_slots own orphans syncing_names
by_sysid format found rows sysid =
    let syncing = syncing_names sysid rows in
    read (by_slots format found (own syncing found) (orphans syncing found))

-- `check_orphan_sync_slots`, from the inactive slots on the publisher, the subscriber's system
-- identifier, and the oids of the subscription and of each table that is not synced yet.
unfoldable pub check_orphan_sync_slots :
    Format → List SyncSlot → Option String → List (String × String) → Reading
unfolding by_sysid
check_orphan_sync_slots format found none rows = no_sysid
check_orphan_sync_slots format found (some sysid) rows =
    if sysid == "" then no_sysid else by_sysid format found rows sysid

orphans-none :
    (syncing : List String) (found : List SyncSlot)
    → is_nil (orphans syncing found) ≡ all (λ o. elem o.name syncing) found
unfolding orphans
orphans-none syncing [] = refl
orphans-none syncing (o ∷ found) = ground (arith, orphans-none syncing found)

alerts_on_orphans :
    (format : Format) (found mine others : List SyncSlot)
    → (others ≢ [] → found ≢ [])
    → ((by_slots format found mine others).status ≡ is_alert) ↔ (is_nil others ≡ false)
unfolding by_slots
alerts_on_orphans format [] mine [] h = (λ e. ground arith, λ e. ground arith)
alerts_on_orphans format [] mine (o ∷ others) h =
    (λ e. ground arith, λ e. absurd (h (λ q. ground arith) refl))
alerts_on_orphans format (s ∷ found) mine [] h = (λ e. ground arith, λ e. ground arith)
alerts_on_orphans format (s ∷ found) mine (o ∷ others) h = (λ e. refl, λ e. refl)

orphans_of_none :
    (syncing : List String) (found : List SyncSlot) → orphans syncing found ≢ [] → found ≢ []
unfolding orphans
orphans_of_none syncing [] h = h
orphans_of_none syncing (o ∷ found) h = λ q. ground arith

-- With a system identifier, the guarded check alerts exactly where an inactive slot is not one of the
-- subscription's own that are syncing.
pub check_orphan_sync_slots-alerts :
    (format : Format) (found : List SyncSlot) (sysid : String) (rows : List (String × String))
    → (sysid == "") ≡ false
    → ((guard "orphan_sync_slots" (check_orphan_sync_slots format found (some sysid) rows)).status
        ≡ is_alert)
      ↔ (all (λ o. elem o.name (syncing_names sysid rows)) found ≡ false)
unfolding guard check_orphan_sync_slots
check_orphan_sync_slots-alerts format found sysid rows e =
    let syncing = syncing_names sysid rows in
    rw (e, sym (orphans-none syncing found))
      (alerts_on_orphans format found (own syncing found) (orphans syncing found)
        (orphans_of_none syncing found))
