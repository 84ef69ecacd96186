-- ===== src/Follower/Machine/Safety/Parts.antt =====
-- The parts of a step, and the invariant of local/postgres/lib/qpg/follower.py.
use qontinui_stack.Prelude.{String, Bool, true, false, some, List, [], ◌∷◌, ◌==◌, nat_eq}
use qontinui_stack.Follower.Types.{
  Detail, StateRow, idle, in_progress, migration_failed, versions_differ, lane_lacks_versions,
  others_unsubscribed, Reason,
}
use qontinui_stack.Follower.Effects.{
  Act, enabled, refreshed, wrote_state, event, migrated, World, Env, Command, M, execute, set_state,
  log_event,
}
use qontinui_stack.Follower.Effects.Triples.{
  Triple, bind, of_query, of_execute, of_pure, of_raise, of_gets, of_note, of_if,
}
use qontinui_stack.Follower.Machine.{
  halt_unless, when, alter, run_commands, run_migrations, verify_local, enable_subscription,
  from_enable,
}
use qontinui_stack.Follower.Machine.Safety.{
  IsQuiet, RowHolds, IsSafe, IsOff, IsEnabling, IsEnabling-IsSafe, keep-IsOff, NeedsOff,
  StepHolds-NeedsOff,
}

module _ (env : Env) where
  pub halt_unless-keeps :
      {P E : World → Type 0} (b : Bool) (reason : Reason)
      → ((w : World) → P w → E w)
      → Triple P (halt_unless b reason) (λ u. P) E
  halt_unless-keeps true reason pe = of_pure _ tt (λ w p. p)
  halt_unless-keeps false reason pe = of_raise _ pe

  run_commands-IsOff :
      (source : String) (commands : List Command)
      → Triple IsOff (run_commands env source commands) (λ u. IsOff) IsSafe
  unfolding run_commands
  run_commands-IsOff source [] = of_pure _ tt (λ w h. h)
  run_commands-IsOff source (c ∷ rest) =
      bind _ (of_query (env.run_command source c) (λ w h. h.safe)) (λ status.
        bind _ (of_gets (λ w. w.subscription)) (λ subscription.
          bind (λ u. IsOff)
            (of_note _ (λ w h.
              keep-IsOff (migrated source c.version subscription) w.triggers w (rw (h.1) h.0.off)
                h.0))
            (λ u.
              bind _ (halt_unless-keeps (nat_eq status 0) migration_failed (λ w h. h.safe))
                (λ x. run_commands-IsOff source rest))))

  pub run_migrations-IsOff :
      (source : String) (versions : List String)
      → Triple IsOff (run_migrations env source versions) (λ u. IsOff) IsSafe
  unfolding run_migrations
  run_migrations-IsOff source versions = run_commands-IsOff source _

  pub verify_local-IsOff :
      (source : String) (versions : List String)
      → Triple IsOff (verify_local env source versions) (λ u. IsOff) IsSafe
  unfolding verify_local
  verify_local-IsOff source versions =
      of_if (source == "web")
        (bind _ (of_query env.local_web_versions (λ w h. h.safe))
          (λ found. halt_unless-keeps _ versions_differ (λ w h. h.safe)))
        (bind _ (of_query env.local_coord_versions (λ w h. h.safe))
          (λ found. halt_unless-keeps _ lane_lacks_versions (λ w h. h.safe)))

  pub save-IsOff :
      (d : Detail)
      → NeedsOff d.step
      → Triple IsOff (set_state env (in_progress d)) (λ u. IsOff) IsSafe
  unfolding set_state
  save-IsOff d n =
      of_execute env wrote_state _
        (λ w h. record {
          safe = record {
            quiet = (tt, h.safe.quiet);
            row = StepHolds-NeedsOff d.step d w.subscription w.applied n h.off;
          };
          off = h.off;
        })
        (λ w h. h.safe)

  pub triggers-IsOff :
      (act : Act) (value : Bool)
      → IsQuiet act
      → Triple IsOff (execute env act (λ w. record w { triggers = value })) (λ u. IsOff) IsSafe
  triggers-IsOff act value q =
      of_execute env act _ (λ w h. keep-IsOff act value w q h) (λ w h. h.safe)

  pub save-IsSafe :
      (row : StateRow)
      → ((w : World) → IsSafe w → RowHolds row w.subscription w.applied)
      → Triple IsSafe (set_state env row) (λ u. IsSafe) IsSafe
  unfolding set_state
  save-IsSafe row holds =
      of_execute env wrote_state (λ w. record w { state = row })
        (λ w h. record { quiet = (tt, h.quiet); row = holds w h }) (λ w h. h)

  -- A statement that changes nothing that safety reads.
  pub inert :
      (act : Act) → IsQuiet act → Triple IsSafe (execute env act (λ w. w)) (λ u. IsSafe) IsSafe
  inert act q =
      of_execute env act (λ w. w) (λ w h. record { quiet = (q, h.quiet); row = h.row }) (λ w h. h)

  pub log_event-IsSafe : (kind : String) → Triple IsSafe (log_event env kind) (λ u. IsSafe) IsSafe
  unfolding log_event
  log_event-IsSafe kind = inert (event kind) tt

  when-keeps :
      {P E : World → Type 0} (b : Bool) {m : M (Unit {0})}
      → Triple P m (λ u. P) E
      → Triple P (when b m) (λ u. P) E
  when-keeps true h = h
  when-keeps false h = of_pure _ tt (λ w p. p)

  enable_act :
      (d : Detail)
      → Triple (IsEnabling d) (execute env enabled (alter true)) (λ u. IsEnabling d) IsSafe
  enable_act d =
      of_execute env enabled (alter true)
        (λ w h. record { quiet = (tt, h.quiet); state = h.state; at = h.at; done = h.done })
        (λ w h. IsEnabling-IsSafe d w h)

  refresh_act :
      (d : Detail)
      → Triple (IsEnabling d) (execute env refreshed (λ w. w)) (λ u. IsEnabling d) IsSafe
  refresh_act d =
      of_execute env refreshed (λ w. w)
        (λ w h. record { quiet = (tt, h.quiet); state = h.state; at = h.at; done = h.done })
        (λ w h. IsEnabling-IsSafe d w h)

  enable_subscription-IsEnabling :
      (d : Detail) → Triple (IsEnabling d) (enable_subscription env d) (λ u. IsEnabling d) IsSafe
  unfolding enable_subscription
  enable_subscription-IsEnabling d =
      bind _ (of_query env.publication_tables (λ w h. IsEnabling-IsSafe d w h)) (λ published.
        bind _ (of_query env.subscribed_tables (λ w h. IsEnabling-IsSafe d w h)) (λ subscribed.
          bind _ (halt_unless-keeps _ others_unsubscribed (λ w h. IsEnabling-IsSafe d w h)) (λ u.
            bind _ (when-keeps d.was_enabled (enable_act d)) (λ v. when-keeps _ (refresh_act d)))))

  pub from_enable-IsSafe :
      (d : Detail) → Triple (IsEnabling d) (from_enable env d) (λ u. IsSafe) IsSafe
  unfolding from_enable
  from_enable-IsSafe d = bind _ (enable_subscription-IsEnabling d) (λ u.
      bind (λ v. IsSafe) (of_log d)
        (λ v.
          bind _ (of_query env.now (λ w h. h)) (λ now. save-IsSafe (idle (some now)) (λ w h. tt))))
    where
      of_log : (d : Detail) → Triple (IsEnabling d) (log_event env "applied") (λ u. IsSafe) IsSafe
      of_log d = record { at = λ w h. (log_event-IsSafe "applied").at w (IsEnabling-IsSafe d w h) }
