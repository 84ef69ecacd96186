-- ===== src/Follower/Halting/Safety.antt =====
-- Halting and resuming, and the invariant of local/postgres/lib/qpg/follower.py.
use qontinui_stack.Prelude.{
  subst, ◌≡◌, refl, Bool, true, false, ◌||◌, Option, none, some, List, ◌∷◌, All,
}
use qontinui_stack.Follower.Types.{
  not_in_a_step, Detail, Step, disable, log, relog, migrate, undo, enable, StateRow, idle,
  in_progress, stepless, halted, HaltDetail, Other, no_other, empty_other, filled_other, Reason,
  Result, ok, err, Applied,
}
use qontinui_stack.Follower.Effects.{
  disabled, enabled, dropped_triggers, wrote_state, World, Env, ◌>>=◌, execute, set_state,
  log_event,
}
use qontinui_stack.Follower.Effects.Triples.{Post, Triple, bind, of_execute, of_pure}
use qontinui_stack.Follower.Machine.{alter, with_triggers, at_step}
use qontinui_stack.Follower.Machine.Safety.{
  IsQuiet, StepHolds, DetailHolds, KeptHolds, RowHolds, IsSafe, alter-off, RowHolds-off,
}
use qontinui_stack.Follower.Machine.Safety.Parts.{save-IsSafe, log_event-IsSafe}
use qontinui_stack.Follower.Halting.{
  forgive, flag, disable_if_enabled, set_halted, halt_with, has_scope, resume_step, resumed, when,
  resume_other, resume_from, resume_row, resume,
}

-- The kept detail holds in the world.
abbrev Kept : HaltDetail → World → Type 0
Kept detail w = KeptHolds detail.in_progress w.subscription w.applied

-- Safe, and what the halt keeps holds as well.
record IsHaltable (detail : HaltDetail) (w : World) : Type 0 where
  safe : IsSafe w
  kept : Kept detail w

keeps-forgive :
    (P : World → Type 0) (r : Result (Unit {0}) × World) → Post (λ u. P) P r → P (forgive r)
keeps-forgive P (ok u, w) h = h
keeps-forgive P (err e, w) h = h

keeps-flag : (P : World → Type 0) (r : Result (Unit {0}) × World) → Post (λ u. P) P r → P (flag r).1
keeps-flag P (ok u, w) h = h
keeps-flag P (err e, w) h = h

IsHaltable-off :
    (detail : HaltDetail) (w : World)
    → IsHaltable detail w
    → IsHaltable detail (record (alter false w) { trace = disabled ∷ w.trace })
IsHaltable-off detail w h = record {
  safe = alter-off w h.safe;
  kept = RowHolds-off (halted not_in_a_step detail) w.subscription w.applied h.kept;
}

-- Safe, halted, with no step in progress kept.
record IsFree (reason : Reason) (detail : HaltDetail) (w : World) : Type 0 where
  quiet : All IsQuiet w.trace
  state : w.state ≡ halted reason detail
  none_kept : detail.in_progress ≡ none

IsFree-IsSafe :
    (reason : Reason) (detail : HaltDetail) (w : World) → IsFree reason detail w → IsSafe w
IsFree-IsSafe reason detail w h = record { quiet = h.quiet; row = rw (h.state, h.none_kept) tt }

StepHolds-resume_step :
    (step : Step) (scoped : Bool) (d : Detail) (s : Option Bool) (applied : List Applied)
    → StepHolds step d s applied
    → StepHolds (resume_step step scoped) d s applied
StepHolds-resume_step disable scoped d s applied h = tt
StepHolds-resume_step log true d s applied h = h
StepHolds-resume_step log false d s applied h = h
StepHolds-resume_step relog scoped d s applied h = h
StepHolds-resume_step migrate true d s applied h = h
StepHolds-resume_step migrate false d s applied h = h
StepHolds-resume_step undo scoped d s applied h = h
StepHolds-resume_step enable scoped d s applied h = h

-- What a step promises does not read the step that the detail itself holds.
StepHolds-at_step :
    (step new : Step) (d : Detail) (s : Option Bool) (applied : List Applied)
    → StepHolds step d s applied
    → StepHolds step (at_step d new) s applied
StepHolds-at_step disable new d s applied h = tt
StepHolds-at_step log new d s applied h = h
StepHolds-at_step relog new d s applied h = h
StepHolds-at_step migrate new d s applied h = h
StepHolds-at_step undo new d s applied h = h
StepHolds-at_step enable new d s applied h = h

DetailHolds-resumed :
    (d : Detail) (s : Option Bool) (applied : List Applied)
    → DetailHolds d s applied
    → DetailHolds (resumed d) s applied
unfolding resumed
DetailHolds-resumed d s applied h =
    StepHolds-at_step _ _ d s applied (StepHolds-resume_step d.step (has_scope d) d s applied h)

module _ (env : Env) where
  written :
      (reason : Reason) (final : HaltDetail)
      → Triple (IsHaltable final) (set_state env (halted reason final)) (λ u. IsSafe) IsSafe
  unfolding set_state
  written reason final =
      of_execute env wrote_state (λ w. record w { state = halted reason final })
        (λ w h. record { quiet = (tt, h.safe.quiet); row = h.kept }) (λ w h. h.safe)

  set_halted-IsSafe :
      (reason : Reason) (detail : HaltDetail) (done : Bool)
      → Triple
          (IsHaltable detail)
          (λ w. set_halted env reason detail (done, w))
          (λ u. IsSafe)
          IsSafe
  set_halted-IsSafe reason detail done =
      bind (λ u. IsSafe)
        (record {
          at = λ w h.
              (written reason
                  (record detail { disabled_by_halt = done || detail.disabled_by_halt })).at
                w (record { safe = h.safe; kept = h.kept });
        })
        (λ u. log_event-IsSafe env "halted")

  disable_if_enabled-IsHaltable :
      (detail : HaltDetail) (s : Option Bool) (w : World)
      → IsHaltable detail w
      → IsHaltable detail (disable_if_enabled env s w).1
  disable_if_enabled-IsHaltable detail (some true) w h = keeps-flag (IsHaltable detail) _ (
      (of_execute {P = IsHaltable detail} env disabled (alter false) (IsHaltable-off detail)
          (λ v k. k)).at
        w h)
  disable_if_enabled-IsHaltable detail (some false) w h = h
  disable_if_enabled-IsHaltable detail none w h = h

  clean-IsHaltable :
      (detail : HaltDetail) (w : World)
      → IsHaltable detail w
      → IsHaltable detail (forgive (execute env dropped_triggers (with_triggers false) w))
  clean-IsHaltable detail w h = keeps-forgive (IsHaltable detail) _ (
      (of_execute {P = IsHaltable detail} env dropped_triggers (with_triggers false)
          (λ v k. record {
            safe = record { quiet = (tt, k.safe.quiet); row = k.safe.row };
            kept = k.kept;
          })
          (λ v k. k)).at
        w h)

  -- Halting a safe world, whatever statement fails, ends in a safe world, where the step kept by
  -- the halt holds before.
  pub halt_with-IsSafe :
      (reason : Reason) (detail : HaltDetail) (w : World)
      → IsSafe w
      → KeptHolds detail.in_progress w.subscription w.applied
      → Post (λ u. IsSafe) IsSafe (halt_with env reason detail w)
  unfolding halt_with
  halt_with-IsSafe reason detail w h k = (set_halted-IsSafe reason detail _).at _ (
      disable_if_enabled-IsHaltable detail _ _
        (clean-IsHaltable detail w (record { safe = h; kept = k })))

  resumed-IsSafe :
      (prior : Detail) (w : World)
      → IsSafe w
      → DetailHolds prior w.subscription w.applied
      → Post (λ u. IsSafe) IsSafe (set_state env (in_progress (resumed prior)) w)
  unfolding set_state
  resumed-IsSafe prior w h k =
      (of_execute {P = λ v. IsSafe v × DetailHolds prior v.subscription v.applied} env wrote_state
          (λ v. record v { state = in_progress (resumed prior) })
          (λ v m. record {
            quiet = (tt, m.0.quiet);
            row = DetailHolds-resumed prior v.subscription v.applied m.1;
          })
          (λ v m. m.0)).at
        w (h, k)

  reenable :
      (reason : Reason) (detail : HaltDetail) (again : Bool)
      → Triple
          (IsFree reason detail)
          (when again (execute env enabled (alter true)))
          (λ u. IsSafe)
          IsSafe
  reenable reason detail false = of_pure _ tt (λ w h. IsFree-IsSafe reason detail w h)
  reenable reason detail true =
      of_execute env enabled (alter true)
        (λ w h.
          IsFree-IsSafe reason detail _
            (record { quiet = (tt, h.quiet); state = h.state; none_kept = h.none_kept }))
        (λ w h. IsFree-IsSafe reason detail w h)

  resume_free-IsSafe :
      (reason : Reason) (detail : HaltDetail) (w : World)
      → IsFree reason detail w
      → Post
          (λ u. IsSafe)
          IsSafe
          ((when detail.disabled_by_halt (execute env enabled (alter true)) >>= λ u.
              set_state env (idle none) >>= λ v. log_event env "resumed")
            w)
  resume_free-IsSafe reason detail w h =
      (bind (λ u. IsSafe) (reenable reason detail detail.disabled_by_halt)
          (λ u.
            bind (λ u. IsSafe) (save-IsSafe env (idle none) (λ v m. tt))
              (λ v. log_event-IsSafe env "resumed"))).at
        w h

  resume_other-IsSafe :
      (reason : Reason) (detail : HaltDetail) (other : Other) (w : World)
      → IsFree reason detail w
      → Post (λ u. IsSafe) IsSafe (resume_other env detail other w)
  resume_other-IsSafe reason detail filled_other w h =
      (bind (λ u. IsSafe) (save-IsSafe env stepless (λ v m. tt))
          (λ v. log_event-IsSafe env "resumed")).at
        w (IsFree-IsSafe reason detail w h)
  resume_other-IsSafe reason detail no_other w h = resume_free-IsSafe reason detail w h
  resume_other-IsSafe reason detail empty_other w h = resume_free-IsSafe reason detail w h

  resume_from-IsSafe :
      (reason : Reason) (detail : HaltDetail) (kept : Option Detail) (w : World)
      → IsSafe w
      → w.state ≡ halted reason detail
      → detail.in_progress ≡ kept
      → KeptHolds kept w.subscription w.applied
      → Post (λ u. IsSafe) IsSafe (resume_from env detail kept w)
  resume_from-IsSafe reason detail (some prior) w h e f k =
      (bind {P = λ v. IsSafe v × DetailHolds prior v.subscription v.applied} (λ u. IsSafe)
          (record { at = λ v m. resumed-IsSafe prior v m.0 m.1 })
          (λ u. log_event-IsSafe env "resumed")).at
        w (h, k)
  resume_from-IsSafe reason detail none w h e f k =
      resume_other-IsSafe reason detail detail.other w
        (record { quiet = h.quiet; state = e; none_kept = f })

  resume_row-IsSafe :
      (row : StateRow) (w : World)
      → IsSafe w
      → w.state ≡ row
      → Post (λ u. IsSafe) IsSafe (resume_row env row w)
  resume_row-IsSafe (halted reason detail) w h e =
      resume_from-IsSafe reason detail detail.in_progress w h e refl
        (subst (λ row. RowHolds row w.subscription w.applied) e h.row)
  resume_row-IsSafe (idle at) w h e = h
  resume_row-IsSafe (in_progress d) w h e = h
  resume_row-IsSafe stepless w h e = h

  pub resume-IsSafe : Triple IsSafe (resume env) (λ u. IsSafe) IsSafe
  unfolding resume
  resume-IsSafe = record { at = λ w h. resume_row-IsSafe w.state w h refl }
