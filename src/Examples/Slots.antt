-- ===== src/Examples/Slots.antt =====
-- local/postgres/lib/qpg/watchdog.py on slots that a tablesync left, and on the archiver.
use qontinui_stack.Prelude.{
  ℕ, String, ◌≡◌, ◌↔◌, all, elem, refl, false, true, Option, none, some, List, [], ◌∷◌, map,
}
use qontinui_stack.Prelude.Decimal.{decimal}
use qontinui_stack.Watchdog.{Check, is_ok, is_info, is_alert, guard}
use qontinui_stack.Watchdog.Checks.{Format, check_archiver}
use qontinui_stack.Watchdog.Checks.Orphans.{
  SyncSlot, pinned, syncing_names, check_orphan_sync_slots, check_orphan_sync_slots-alerts,
}

abbrev plain : Option ℕ → String
plain none = "-0.00"
plain (some n) = decimal n

abbrev format : Format
format = record { gigabytes = plain; threshold = decimal }

abbrev slot : String → Option ℕ → SyncSlot
slot name retained = record { name = name; database = ""; retained = retained }

pinned_test :
    map pinned (
      (slot "a" (some 5) ∷ slot "b" (some 9) ∷ [])
      ∷ (slot "a" none ∷ slot "b" (some 9) ∷ [])
      ∷ (slot "a" none ∷ [])
      ∷ [])
    ≡ ("9 B" ∷ "at least 9 B" ∷ "UNKNOWN bytes" ∷ [])
unfolding pinned decimal
pinned_test = refl

abbrev status_of : List SyncSlot → Check
unfolding guard check_orphan_sync_slots
status_of found =
    guard "orphan_sync_slots" (check_orphan_sync_slots format found (some "77") (("16", "20") ∷ []))

-- A slot of the dead cluster with the same oids is an orphan.
statuses_test :
    map
      (λ found. (status_of found).status)
      ([] ∷ (slot "pg_16_sync_20_77" none ∷ []) ∷ (slot "pg_16_sync_20_78" none ∷ []) ∷ [])
    ≡ (is_ok ∷ is_info ∷ is_alert ∷ [])
unfolding status_of
statuses_test = refl

archiver_test :
    (check_archiver true
      (record { failed_count = "2"; last_failed = "09:00"; last_ok = ""; failing = true }))
    ≡ record {
      name = "archiver";
      status = is_alert;
      message =
          "WAL archiving is failing (last failure 09:00, last success never); PITR is accumulating a gap";
    }
unfolding check_archiver
archiver_test = refl

check_orphan_sync_slots-alerts_example :
    ((guard "orphan_sync_slots" (
        check_orphan_sync_slots format
          (slot "pg_16_sync_20_78" none ∷ [])
          (some "77")
          (("16", "20") ∷ []))).status
      ≡ is_alert)
    ↔ (all
          (λ o. elem o.name (syncing_names "77" (("16", "20") ∷ [])))
          (slot "pg_16_sync_20_78" none ∷ [])
        ≡ false)
check_orphan_sync_slots-alerts_example =
    check_orphan_sync_slots-alerts format (slot "pg_16_sync_20_78" none ∷ []) "77"
      (("16", "20") ∷ []) refl
