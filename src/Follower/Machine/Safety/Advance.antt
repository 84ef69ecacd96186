-- ===== src/Follower/Machine/Safety/Advance.antt =====
-- The steps of `_advance`, and the invariant of local/postgres/lib/qpg/follower.py.
use qontinui_stack.Prelude.{subst, ◌≡◌, refl, true, false, List}
use qontinui_stack.Follower.Types.{
  Detail, Table, Step, disable, log, relog, migrate, undo, enable, in_progress, workers_alive,
}
use qontinui_stack.Follower.Effects.{disabled, truncated_log, dropped_triggers, undone, World, Env}
use qontinui_stack.Follower.Effects.Triples.{
  Post, Triple, bind, of_query, of_execute, of_pure, of_gets,
}
use qontinui_stack.Follower.Shape.Reads.{check_replay_shape-keeps}
use qontinui_stack.Follower.Machine.{
  alter, applied_rows, keep_others, undo_effect, at_step, disable_subscription, undo_replay_inserts,
  from_undo, from_migrate, install_on, from_log, from_relog, from_disable, from_step, advance,
}
use qontinui_stack.Follower.Machine.Safety.{
  StepHolds, RowHolds, IsSafe, IsOff, IsEnabling, alter-off, keep-IsOff, set_subscription-off,
}
use qontinui_stack.Python.Lists.{sorted}
use qontinui_stack.Follower.Shape.{scope_of}
use qontinui_stack.Follower.Machine.{created}
use qontinui_stack.Follower.Machine.Safety.Parts.{
  halt_unless-keeps, run_migrations-IsOff, verify_local-IsOff, save-IsOff, triggers-IsOff,
  from_enable-IsSafe,
}

-- The detail that the undo persists.
abbrev undone_detail : Detail → List Table → Detail
undone_detail d now = record d {
  new_tables = sorted (created (scope_of d.scope) now);
  step = enable;
}

module _ (env : Env) where
  undo_replay_inserts-IsEnabling :
      (d : Detail) → Triple IsOff (undo_replay_inserts env d) IsEnabling IsSafe
  unfolding undo_replay_inserts
  undo_replay_inserts-IsEnabling d = bind _ (of_query env.scope_snapshot (λ w h. h.safe)) (λ now.
      bind _ (of_gets (λ w. w.subscription)) (λ subscription.
        bind (λ u. IsEnabling (undone_detail d now))
          (of_execute env (undone d.xid subscription) (undo_effect (undone_detail d now))
            (λ w h. record {
              quiet = (rw (h.1) h.0.off, h.0.safe.quiet);
              state = refl;
              at = refl;
              done = (keep_others (applied_rows d.source d.xid d.versions) w.applied, refl);
            })
            (λ w h. h.0.safe))
          (λ u. of_pure _ (undone_detail d now) (λ w h. h))))

  from_undo-IsSafe : (d : Detail) → Triple IsOff (from_undo env d) (λ u. IsSafe) IsSafe
  unfolding from_undo
  from_undo-IsSafe d = bind _ (triggers-IsOff env dropped_triggers false tt) (λ u.
      bind _ (verify_local-IsOff env d.source d.versions) (λ v.
        bind _ (check_replay_shape-keeps (λ w h. h.safe) env d)
          (λ x. bind _ (undo_replay_inserts-IsEnabling d) (λ next. from_enable-IsSafe env next))))

  from_migrate-IsSafe : (d : Detail) → Triple IsOff (from_migrate env d) (λ u. IsSafe) IsSafe
  unfolding from_migrate
  from_migrate-IsSafe d =
      bind _ (run_migrations-IsOff env d.source d.versions)
        (λ u. bind _ (save-IsOff env (at_step d undo) tt) (λ v. from_undo-IsSafe (at_step d undo)))

  install_on-IsOff :
      (tables : List Table) → Triple IsOff (install_on env tables) (λ u. IsOff) IsSafe
  unfolding install_on
  install_on-IsOff tables = triggers-IsOff env _ true tt

  from_log-IsSafe : (d : Detail) → Triple IsOff (from_log env d) (λ u. IsSafe) IsSafe
  unfolding from_log
  from_log-IsSafe d = bind _ (of_query env.scope_snapshot (λ w h. h.safe)) (λ scope.
      bind _ (of_query (env.missing_value_columns scope) (λ w h. h.safe)) (λ missing.
        bind _ (of_query (env.max_attnums scope) (λ w h. h.safe)) (λ attnums.
          bind _
            (of_execute env truncated_log (λ w. w)
              (λ w h. keep-IsOff truncated_log w.triggers w tt h) (λ w h. h.safe))
            (λ u.
              bind _ (install_on-IsOff scope)
                (λ v. bind _ (save-IsOff env _ tt) (λ x. from_migrate-IsSafe _))))))

  from_relog-IsSafe : (d : Detail) → Triple IsOff (from_relog env d) (λ u. IsSafe) IsSafe
  unfolding from_relog
  from_relog-IsSafe d = bind _ (of_query env.scope_snapshot (λ w h. h.safe)) (λ current.
      bind _ (install_on-IsOff _) (λ v. bind _ (save-IsOff env _ tt) (λ x. from_migrate-IsSafe _)))

  disable_subscription-IsOff : Triple IsSafe (disable_subscription env) (λ u. IsOff) IsSafe
  unfolding disable_subscription
  disable_subscription-IsOff =
      bind (λ u. IsOff)
        (of_execute env disabled (alter false)
          (λ w h. record { safe = alter-off w h; off = set_subscription-off w.subscription })
          (λ w h. h))
        (λ u.
          bind _ (of_query env.workers_exited (λ w h. h.safe))
            (λ gone. halt_unless-keeps env gone workers_alive (λ w h. h.safe)))

  from_disable-IsSafe : (d : Detail) → Triple IsSafe (from_disable env d) (λ u. IsSafe) IsSafe
  unfolding from_disable
  from_disable-IsSafe d =
      bind _ disable_subscription-IsOff
        (λ u. bind _ (save-IsOff env (at_step d log) tt) (λ v. from_log-IsSafe (at_step d log)))

  from_step-IsSafe :
      (step : Step) (d : Detail) (w : World)
      → IsSafe w
      → w.state ≡ in_progress d
      → d.step ≡ step
      → StepHolds step d w.subscription w.applied
      → Post (λ u. IsSafe) IsSafe (from_step env step d w)
  from_step-IsSafe disable d w h e s k = (from_disable-IsSafe d).at w h
  from_step-IsSafe log d w h e s k = (from_log-IsSafe d).at w (record { safe = h; off = k })
  from_step-IsSafe relog d w h e s k = (from_relog-IsSafe d).at w (record { safe = h; off = k })
  from_step-IsSafe migrate d w h e s k = (from_migrate-IsSafe d).at w (record { safe = h; off = k })
  from_step-IsSafe undo d w h e s k = (from_undo-IsSafe d).at w (record { safe = h; off = k })
  from_step-IsSafe enable d w h e s k =
      (from_enable-IsSafe env d).at w (record { quiet = h.quiet; state = e; at = s; done = k })

  -- In a safe world whose state is a step in progress, advancing that step, whatever statement
  -- fails, ends in a safe world.
  pub advance-IsSafe :
      (d : Detail) (w : World)
      → IsSafe w
      → w.state ≡ in_progress d
      → Post (λ u. IsSafe) IsSafe (advance env d w)
  unfolding advance
  advance-IsSafe d w h e =
      from_step-IsSafe d.step d w h e refl
        (subst (λ row. RowHolds row w.subscription w.applied) e h.row)
