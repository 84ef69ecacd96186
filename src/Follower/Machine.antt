-- ===== src/Follower/Machine.antt =====
-- The step machine of local/postgres/lib/qpg/follower.py: `_advance` with the steps that it calls.
-- Each step has one successor, so the `while True` of `_advance` is a call of the next step's part.
pub mod Safety
use Prim.Native.Char.{code}
use Prim.Native.String.{[] as nil, ◌∷◌ as cons}
use qontinui_stack.Prelude.{
  ℕ, String, ◌≡◌, refl, Bool, true, false, not, ◌&&◌, ◌||◌, Option, none, some, List, [], ◌∷◌, ◌++◌,
  elem, all, any, arith, nat_eq, ◌==◌, if◌then◌else◌,
}
use qontinui_stack.Python.Lists.{sorted, minus, same_texts}
use qontinui_stack.Follower.Types.{
  Table, Detail, Reason, Step, disable, log, relog, migrate, undo, enable, StateRow, idle,
  in_progress, workers_alive, migration_failed, versions_differ, lane_lacks_versions,
  others_unsubscribed, Result, ok, err, Applied, Resolution,
}
use qontinui_stack.Follower.Effects.{
  Act, disabled, enabled, refreshed, truncated_log, installed_triggers, dropped_triggers, migrated,
  undone, World, Env, Command, M, ◌>>=◌, ◌>>◌, pure, raise, query, gets, note, execute, set_state,
  log_event,
}
use qontinui_stack.Follower.Shape.{halt_plain, lookup_table, scope_of, check_replay_shape}

abbrev pub set_subscription : Option Bool → Bool → Option Bool
set_subscription none value = none
set_subscription (some old) value = some value

-- ALTER SUBSCRIPTION … ENABLE / DISABLE
abbrev pub alter : Bool → World → World
alter value w = record w { subscription = set_subscription w.subscription value }

abbrev pub with_triggers : Bool → World → World
with_triggers value w = record w { triggers = value }

abbrev halt_unless : Bool → Reason → M (Unit {0})
halt_unless true reason = pure tt
halt_unless false reason = raise (halt_plain reason)

abbrev pub at_step : Detail → Step → Detail
at_step detail step = record detail { step = step }

-- `source.split(":", 1)[1]`, the lane of a coord source.
unfoldable pub lane_of : String → String
lane_of nil = ""
lane_of (cons c s) = if nat_eq (code c) b':' then s else lane_of s

-- The commands of the versions: a version of the web lane is prepared first, where that is
-- configured.
unfoldable pub commands_of : (prepares : Bool) → List String → List Command
commands_of prepares [] = []
commands_of prepares (v ∷ rest) =
    let later = record { prepare = false; version = v } ∷ commands_of prepares rest in
    if prepares then record { prepare = true; version = v } ∷ later else later

abbrev is_empty : List String → Bool
is_empty [] = true
is_empty (x ∷ xs) = false

abbrev when : Bool → M (Unit {0}) → M (Unit {0})
when true m = m
when false m = pure tt

abbrev lookup_lane : String → List (String × List String) → List String
lookup_lane lane [] = []
lookup_lane lane ((l, versions) ∷ rest) = if l == lane then versions else lookup_lane lane rest

-- The tables that the migration created, partitions aside.
abbrev created : List Table → List Table → List String
created scope [] = []
created scope (t ∷ now) = elim (lookup_table t.oid scope) [
  | some old ↦ created scope now
  | none ↦ if t.partition then created scope now else t.name ∷ created scope now
]

abbrev pub applied_rows : (source xid : String) → List String → List Applied
applied_rows source xid [] = []
applied_rows source xid (v ∷ rest) =
    record { source = source; version = v; xid = xid } ∷ applied_rows source xid rest

-- ON CONFLICT … DO UPDATE: the row of a version is replaced.
abbrev same_version : Applied → Applied → Bool
same_version a b = a.source == b.source && a.version == b.version

abbrev keep_others : List Applied → List Applied → List Applied
keep_others new [] = []
keep_others new (a ∷ rest) =
    if any (same_version a) new then keep_others new rest else a ∷ keep_others new rest

abbrev keep_unrelated : String → List Resolution → List Resolution
keep_unrelated xid [] = []
keep_unrelated xid (r ∷ rest) =
    if r.xid == xid then keep_unrelated xid rest else r ∷ keep_unrelated xid rest

-- The effect of the one transaction of the undo: the rows are deleted, the versions recorded as
-- applied, the resolutions of the transaction removed, and the next step persisted.
abbrev pub undo_effect : Detail → World → World
undo_effect detail w =
    let rows = applied_rows detail.source detail.xid detail.versions in
    record w {
      applied = rows ++ keep_others rows w.applied;
      resolutions = keep_unrelated detail.xid w.resolutions;
      state = in_progress detail;
    }

-- The tables whose OID the stored scope and the current one both hold, by their current names.
abbrev still_there : List Table → List Table → List Table
still_there [] current = []
still_there (t ∷ scope) current = elim (lookup_table t.oid current) [
  | none ↦ still_there scope current
  | some c ↦ c ∷ still_there scope current
]

abbrev row_triggered : List Table → List String
row_triggered [] = []
row_triggered (t ∷ rest) = if t.partition then row_triggered rest else t.name ∷ row_triggered rest

abbrev keys_of : List (String × String × String × String) → List String
keys_of [] = []
keys_of ((key, oid, column, value) ∷ rest) = key ∷ keys_of rest

module _ (env : Env) where
  -- `_disable`: DISABLE, and wait until the workers are gone.
  unfoldable pub disable_subscription : M (Unit {0})
  disable_subscription = do
    execute env disabled (alter false)
    gone ← query env.workers_exited
    halt_unless gone workers_alive

  -- The loop of `_migrate` over its commands; a failing one halts.
  unfoldable pub run_commands : (source : String) → List Command → M (Unit {0})
  run_commands source [] = pure tt
  run_commands source (c ∷ rest) = do
    status ← query (env.run_command source c)
    subscription ← gets (λ w. w.subscription)
    note (migrated source c.version subscription)
    halt_unless (nat_eq status 0) migration_failed
    run_commands source rest

  -- `_migrate`
  unfoldable pub run_migrations : (source : String) → List String → M (Unit {0})
  run_migrations source versions =
      run_commands source (commands_of (env.prepares && source == "web") versions)

  -- `_verify_local`
  unfoldable pub verify_local : (source : String) → List String → M (Unit {0})
  verify_local source versions =
      if source == "web"
      then (do
        found ← query env.local_web_versions
        halt_unless (same_texts found (sorted versions)) versions_differ)
      else (do
        found ← query env.local_coord_versions
        halt_unless (all (λ v. elem v (lookup_lane (lane_of source) found)) versions)
            lane_lacks_versions)

  -- `_enable`
  unfoldable pub enable_subscription : Detail → M (Unit {0})
  enable_subscription detail = do
    published ← query env.publication_tables
    subscribed ← query env.subscribed_tables
    let pending = minus published subscribed
    let others = minus pending detail.new_tables
    halt_unless (is_empty detail.new_tables || is_empty others) others_unsubscribed
    when detail.was_enabled (execute env enabled (alter true))
    when (any (λ t. elem t pending) detail.new_tables) (execute env refreshed (λ w. w))

  unfoldable pub from_enable : Detail → M (Unit {0})
  from_enable detail = do
    enable_subscription detail
    log_event env "applied"
    now ← query env.now
    set_state env (idle (some now))

  unfoldable pub undo_replay_inserts : Detail → M Detail
  undo_replay_inserts detail = do
    now ← query env.scope_snapshot
    let next = record detail {
      new_tables = sorted (created (scope_of detail.scope) now);
      step = enable;
    }
    subscription ← gets (λ w. w.subscription)
    execute env (undone detail.xid subscription) (undo_effect next)
    pure next

  unfoldable pub from_undo : Detail → M (Unit {0})
  from_undo detail = do
    execute env dropped_triggers (with_triggers false)
    verify_local detail.source detail.versions
    check_replay_shape env detail
    next ← undo_replay_inserts detail
    from_enable next

  unfoldable pub from_migrate : Detail → M (Unit {0})
  from_migrate detail = do
    run_migrations detail.source detail.versions
    set_state env (in_progress (at_step detail undo))
    from_undo (at_step detail undo)

  -- `_install_log_triggers`: the row triggers go on all tables but partitions, the statement
  -- triggers on all, and the event trigger comes with them even where the scope is empty.
  unfoldable pub install_on : List Table → M (Unit {0})
  install_on tables = execute env (installed_triggers (row_triggered tables)) (with_triggers true)

  unfoldable pub from_log : Detail → M (Unit {0})
  from_log detail = do
    scope ← query env.scope_snapshot
    missing ← query (env.missing_value_columns scope)
    attnums ← query (env.max_attnums scope)
    execute env truncated_log (λ w. w)
    install_on scope
    let next = record detail {
      scope = some scope;
      missing_before = sorted (keys_of missing);
      attnums_before = attnums;
      step = migrate;
    }
    set_state env (in_progress next)
    from_migrate next

  unfoldable pub from_relog : Detail → M (Unit {0})
  from_relog detail = do
    current ← query env.scope_snapshot
    install_on (still_there (scope_of detail.scope) current)
    set_state env (in_progress (at_step detail migrate))
    from_migrate (at_step detail migrate)

  unfoldable pub from_disable : Detail → M (Unit {0})
  from_disable detail = do
    disable_subscription
    set_state env (in_progress (at_step detail log))
    from_log (at_step detail log)

  abbrev pub from_step : Step → Detail → M (Unit {0})
  from_step disable detail = from_disable detail
  from_step log detail = from_log detail
  from_step relog detail = from_relog detail
  from_step migrate detail = from_migrate detail
  from_step undo detail = from_undo detail
  from_step enable detail = from_enable detail

  unfoldable pub advance : Detail → M (Unit {0})
  advance detail = from_step detail.step detail
