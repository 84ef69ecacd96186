-- ===== src/Examples/Replays.antt =====
-- Replays, halts and resolutions at a concrete environment.
use qontinui_stack.Prelude.{◌≡◌, refl, true, false, ◌⊎◌, none, some, [], ◌∷◌, elem, ◌&&◌}
use qontinui_stack.Relay.Reasons.{drop_prefix}
use qontinui_stack.Follower.Types.{
  Stall, Detail, idle, halted, HaltDetail, Reason, renamed, ok, Head, undo, no_other,
}
use qontinui_stack.Follower.Effects.{World, Env, Act}
use qontinui_stack.Follower.Machine.Safety.{IsSafe}
use qontinui_stack.Follower.Stalls.{begin, handle_stall, already_processed, identify}
use qontinui_stack.Follower.Stalls.Guards.{IsMigration, handle_stall-guarded}
use qontinui_stack.Follower.Halting.{halt_with, resolve, resolvable, same_case}
use qontinui_stack.Follower.Halting.Quiet.{IsQuieted, halt_with-quiets, resolve-guarded}
use qontinui_stack.Follower.Cycle.{cycle}
use qontinui_stack.Follower.Cycle.Safety.{a_cycle, a_resume, a_resolve, calls, calls-IsSafe}

abbrev pub env : Env
env = record {
  fault = λ act w. none;
  coord_lane = false;
  phase8_violated = false;
  stall_fresh = 600;
  read_state = λ w. ok tt;
  is_old = λ w h. false;
  relation_named = λ target w. ok none;
  substream = λ w. ok "t";
  pub_snapshot = λ w.
      ok (record { lsn = "0/10"; web = record { xmin = "7"; version = "v2" } ∷ []; coord = [] });
  latest_apply_error = λ w. ok (some stall);
  error_context = λ s w. ok (none, 5, false);
  flushed_lsn = λ w. ok (some "0/8");
  sync_pending = λ w. ok false;
  publication_tables = λ w. ok [];
  subscribed_tables = λ w. ok [];
  moved_out_of_publication = λ w. ok [];
  syncs_in_flight = λ w. ok [];
  scope_snapshot = λ w. ok [];
  missing_value_columns = λ tables w. ok [];
  publisher_value = λ table column w. ok none;
  max_attnums = λ tables w. ok [];
  gained_columns = λ oid after w. ok [];
  partition_parent = λ oid w. ok "";
  changed_keys = λ w. ok [];
  rewrites = λ w. ok [];
  local_web_versions = λ w. ok ("v2" ∷ []);
  local_coord_versions = λ w. ok [];
  workers_exited = λ w. ok true;
  prepares = true;
  run_command = λ source c w. ok 0;
  now = λ w. ok "t0";
}
  where
    stall : Stall
    stall = record {
      xid = "7";
      finish_lsn = "0/9";
      sqlstate = "42703";
      message = "no column";
      at = "t0";
    }

abbrev stuck : Stall
stuck = record {
  xid = "7";
  finish_lsn = "0/9";
  sqlstate = "42703";
  message = "no column";
  at = "t0";
}

abbrev head : Head
head = record { source = "web"; writer_xid = "7"; versions = "v2" ∷ [] }

abbrev world : World
world = record {
  state = idle none;
  subscription = some true;
  triggers = false;
  heads = head ∷ [];
  applied = [];
  resolutions = [];
  owed = [];
  mismatch = false;
  trace = [];
}

world-IsSafe : IsSafe world
world-IsSafe = record { quiet = tt; row = tt }

calls-IsSafe_example :
    IsSafe (calls (a_cycle env ∷ a_resolve env "rename" "t" ∷ a_resume env ∷ []) world)
calls-IsSafe_example =
    calls-IsSafe (a_cycle env ∷ a_resolve env "rename" "t" ∷ a_resume env ∷ []) world world-IsSafe

migration : IsMigration env stuck world head
unfolding already_processed identify drop_prefix
migration = record {
  unprocessed = refl;
  identified = refl;
  accepted = refl;
  lane = refl;
  in_place = refl;
  settled = refl;
}

handle_stall-guarded_example :
    ((h : Head) × IsMigration env stuck world h) ⊎ ((handle_stall env stuck world).1 ≡ world)
handle_stall-guarded_example = handle_stall-guarded env stuck world

abbrev nothing_kept : HaltDetail
nothing_kept = record {
  in_progress = none;
  other = no_other;
  kase = none;
  targets = [];
  disabled_by_halt = false;
}

halt_with-quiets_example :
    IsQuieted renamed nothing_kept (some true) (halt_with env renamed nothing_kept world)
halt_with-quiets_example = halt_with-quiets env (λ act w. refl) renamed nothing_kept world

abbrev violated : Env
violated = record env { phase8_violated = true }

abbrev renaming : HaltDetail
renaming = record {
  in_progress = some (record {
    xid = "7";
    finish_lsn = "0/9";
    source = "web";
    versions = "v2" ∷ [];
    step = undo;
    was_enabled = true;
    scope = some [];
    missing_before = [];
    attnums_before = [];
    new_tables = [];
  });
  other = no_other;
  kase = some "rename";
  targets = "t" ∷ [];
  disabled_by_halt = false;
}

abbrev pub stopped : World
stopped = record world { state = halted renamed renaming; subscription = some false }

resolve-guarded_example :
    ((reason : Reason) × (detail : HaltDetail) × (prior : Detail) × (stopped.state
        ≡ halted reason detail)
      × (detail.in_progress ≡ some prior)
      × (elem "rename" resolvable && (same_case detail.kase "rename" && elem "t" detail.targets)
          ≡ true))
    ⊎ ((resolve env "rename" "t" stopped).1 ≡ stopped)
resolve-guarded_example = resolve-guarded env "rename" "t" stopped

-- One poll replays the migration and enables the subscription again.
cycle_test :
    ((cycle env world).1.state ≡ idle (some "t0")) × ((cycle env world).1.subscription ≡ some true)
unfolding cycle qontinui_stack.Follower.Cycle.catch_halt qontinui_stack.Follower.Cycle.poll
    qontinui_stack.Follower.Shape.sub_oid qontinui_stack.Follower.Cycle.pub_snapshot
    qontinui_stack.Follower.Cycle.record_heads qontinui_stack.Follower.Effects.execute
    qontinui_stack.Follower.Stalls.current_stall qontinui_stack.Follower.Stalls.still_stuck
    qontinui_stack.Follower.Lsn.lsn_int handle_stall already_processed identify
    qontinui_stack.Follower.Stalls.handle_migration drop_prefix begin
    qontinui_stack.Follower.Effects.set_state qontinui_stack.Follower.Effects.log_event
    qontinui_stack.Follower.Cycle.add_heads qontinui_stack.Follower.Machine.advance
    qontinui_stack.Follower.Machine.disable_subscription
    qontinui_stack.Follower.Machine.enable_subscription qontinui_stack.Follower.Machine.from_disable
    qontinui_stack.Follower.Machine.from_enable qontinui_stack.Follower.Machine.from_log
    qontinui_stack.Follower.Machine.from_migrate qontinui_stack.Follower.Machine.from_undo
    qontinui_stack.Follower.Machine.install_on qontinui_stack.Follower.Machine.lane_of
    qontinui_stack.Follower.Machine.run_migrations qontinui_stack.Follower.Machine.run_commands
    qontinui_stack.Follower.Machine.commands_of qontinui_stack.Follower.Machine.undo_replay_inserts
    qontinui_stack.Follower.Machine.verify_local qontinui_stack.Follower.Shape.check_keys
    qontinui_stack.Follower.Shape.check_missing qontinui_stack.Follower.Shape.check_renames
    qontinui_stack.Follower.Shape.check_replay_shape qontinui_stack.Follower.Shape.check_rewrites
    qontinui_stack.Follower.Shape.differing qontinui_stack.Follower.Shape.renamed_targets
    qontinui_stack.Follower.Shape.unresolved qontinui_stack.Follower.Shape.unsafe_rewrites
    qontinui_stack.Python.Lists.minus qontinui_stack.Python.Lists.same_texts
    qontinui_stack.Python.Lists.sorted qontinui_stack.Python.Lists.without
cycle_test = (refl, refl)
