-- ===== src/Watchdog/Checks/Outage.antt =====
-- How local/postgres/lib/qpg/watchdog.py measures an outage of apply across its runs.
use qontinui_stack.Prelude.{
  ℕ, ◌+◌, ◌-◌, ◌*◌, ◌/◌, ◌≤◌, String, ◌≡◌, refl, ◌↔◌, false, Option, none, some, List, [], ◌∷◌, ltb,
  ltb→lt, lt→ltb, inl, inr, arith, Bool-cases,
}
use qontinui_stack.Watchdog.{is_alert}
use qontinui_stack.Watchdog.Checks.{LagRow, check_apply_lag, held_for, whole_seconds}

-- The saved `disabled_since` after the runs at these times, which all find the subscription
-- disabled.
unfoldable pub disabled_runs :
    (subscription : String) (limit : ℕ) → LagRow → List ℕ → Option ℕ → Option ℕ
disabled_runs subscription limit row [] since = since
disabled_runs subscription limit row (now ∷ rest) since =
    disabled_runs subscription limit row rest
      (check_apply_lag subscription limit now since (some row)).1

runs_keep_since :
    (subscription : String) (limit : ℕ) (row : LagRow)
    → row.enabled ≡ false
    → (times : List ℕ) (since : ℕ)
    → disabled_runs subscription limit row times (some since) ≡ some since
unfolding disabled_runs check_apply_lag
runs_keep_since subscription limit row e [] since = refl
runs_keep_since subscription limit row e (now ∷ rest) since =
    simp e (runs_keep_since subscription limit row e rest since)

since_first :
    (subscription : String) (limit first : ℕ) (times : List ℕ) (row : LagRow)
    → row.enabled ≡ false
    → disabled_runs subscription limit row (first ∷ times) none ≡ some first
unfolding disabled_runs check_apply_lag
since_first subscription limit first times row e =
    simp e (runs_keep_since subscription limit row e times first)

held_alerts :
    (limit first now : ℕ)
    → first ≤ now
    → ((held_for limit (whole_seconds (now - first))).status ≡ is_alert)
      ↔ (first + (limit + 1) * 1000000 ≤ now)
held_alerts limit first now le = elim (Bool-cases (ltb limit ((now - first) / 1000000))) [
  | inl h ↦ rw h (λ u. omega (arith, le, ltb→lt _ _ h), λ u. refl)
  | inr h ↦ rw h (
    λ u. ground arith,
    λ u. ground (arith, lt→ltb limit ((now - first) / 1000000) (omega (arith, le, u))),
  )
]

-- After a run that finds the subscription enabled, from the first run that finds it disabled on,
-- each later run without an enabled one between alerts exactly where at least `limit` whole seconds and
-- one more have passed since that first run, however often it ran in between. Times are in
-- microseconds, the limit in seconds.
pub outage-alerts :
    (subscription : String) (limit first now : ℕ) (times : List ℕ) (row : LagRow)
    → row.enabled ≡ false
    → first ≤ now
    → ((check_apply_lag subscription limit now
          (disabled_runs subscription limit row (first ∷ times) none)
          (some row)).0.status
        ≡ is_alert)
      ↔ (first + (limit + 1) * 1000000 ≤ now)
unfolding check_apply_lag
outage-alerts subscription limit first now times row e le =
    rw (since_first subscription limit first times row e) (simp e (held_alerts limit first now le))
