-- ===== src/Follower/Machine/Safety.antt =====
-- The invariant of local/postgres/lib/qpg/follower.py: what its trace, its step in progress, its
-- subscription and its applied versions have to do with each other.
pub mod Parts
pub mod Advance
use qontinui_stack.Prelude.{
  ℕ, String, ◌≡◌, refl, Bool, true, false, ◌&&◌, Option, none, some, List, [], ◌∷◌, ◌++◌, All,
  Bool-cases, ◌⊎◌, inl, inr, if◌then◌else◌, ◌==◌, nat_eq,
}
use qontinui_stack.Follower.Types.{
  Error, Detail, Table, Step, disable, log, relog, migrate, undo, enable, StateRow, idle,
  in_progress, stepless, halted, migration_failed, versions_differ, lane_lacks_versions,
  others_unsubscribed, workers_alive, Reason, Result, ok, err, Applied,
}
use qontinui_stack.Follower.Effects.{
  Act, disabled, enabled, refreshed, truncated_log, dropped_triggers, wrote_state, recorded_heads,
  cleared_mismatch, marked_mismatch, resolved, event, installed_triggers, migrated, undone, World,
  Env, M, ◌>>=◌, pure, raise, query, gets, note, execute, set_state, log_event,
}
use qontinui_stack.Follower.Effects.Triples.{
  Triple, bind, of_query, of_execute, of_pure, of_raise, of_gets, of_note, of_if,
}
use qontinui_stack.Follower.Shape.Reads.{check_replay_shape-keeps}
use qontinui_stack.Follower.Machine.{
  halt_unless, when, set_subscription, alter, applied_rows, keep_others, undo_effect, at_step,
  disable_subscription, run_migrations, verify_local, enable_subscription, from_enable,
  undo_replay_inserts, from_undo, from_migrate, install_on, from_log, from_relog, from_disable,
  from_step, advance,
}

abbrev is_on : Option Bool → Bool
is_on none = false
is_on (some b) = b

-- A migration or an undo is done only while the subscription is disabled or absent.
abbrev pub IsQuiet : Act → Type 0
IsQuiet (migrated source version subscription) = is_on subscription ≡ false
IsQuiet (undone xid subscription) = is_on subscription ≡ false
IsQuiet act = Unit {0}

-- What a persisted step promises on the subscription and on the applied versions.
abbrev pub StepHolds : Step → Detail → Option Bool → List Applied → Type 0
StepHolds disable d s applied = Unit {0}
StepHolds log d s applied = is_on s ≡ false
StepHolds relog d s applied = is_on s ≡ false
StepHolds migrate d s applied = is_on s ≡ false
StepHolds undo d s applied = is_on s ≡ false
StepHolds enable d s applied =
    (rest : List Applied) × (applied ≡ applied_rows d.source d.xid d.versions ++ rest)

abbrev pub DetailHolds : Detail → Option Bool → List Applied → Type 0
DetailHolds d s applied = StepHolds d.step d s applied

abbrev pub KeptHolds : Option Detail → Option Bool → List Applied → Type 0
KeptHolds none s applied = Unit {0}
KeptHolds (some d) s applied = DetailHolds d s applied

abbrev pub RowHolds : StateRow → Option Bool → List Applied → Type 0
RowHolds (idle at) s applied = Unit {0}
RowHolds (in_progress d) s applied = DetailHolds d s applied
RowHolds stepless s applied = Unit {0}
RowHolds (halted reason detail) s applied = KeptHolds detail.in_progress s applied

pub record IsSafe (w : World) : Type 0 where
  pub quiet : All IsQuiet w.trace
  pub row : RowHolds w.state w.subscription w.applied

-- Safe, with the subscription off.
pub record IsOff (w : World) : Type 0 where
  pub safe : IsSafe w
  pub off : is_on w.subscription ≡ false

-- Safe, with the step `enable` of a detail persisted and its versions applied.
pub record IsEnabling (d : Detail) (w : World) : Type 0 where
  pub quiet : All IsQuiet w.trace
  pub state : w.state ≡ in_progress d
  pub at : d.step ≡ enable
  pub done : StepHolds enable d w.subscription w.applied

IsEnabling-IsSafe : (d : Detail) (w : World) → IsEnabling d w → IsSafe w
IsEnabling-IsSafe d w h = record { quiet = h.quiet; row = rw (h.state, h.at) h.done }

set_subscription-off : (s : Option Bool) → is_on (set_subscription s false) ≡ false
set_subscription-off none = refl
set_subscription-off (some b) = refl

StepHolds-off :
    (step : Step) (d : Detail) (s : Option Bool) (applied : List Applied)
    → StepHolds step d s applied
    → StepHolds step d (set_subscription s false) applied
StepHolds-off disable d s applied h = tt
StepHolds-off log d s applied h = set_subscription-off s
StepHolds-off relog d s applied h = set_subscription-off s
StepHolds-off migrate d s applied h = set_subscription-off s
StepHolds-off undo d s applied h = set_subscription-off s
StepHolds-off enable d s applied h = h

pub RowHolds-off :
    (row : StateRow) (s : Option Bool) (applied : List Applied)
    → RowHolds row s applied
    → RowHolds row (set_subscription s false) applied
RowHolds-off (idle at) s applied h = tt
RowHolds-off (in_progress d) s applied h = StepHolds-off d.step d s applied h
RowHolds-off stepless s applied h = tt
RowHolds-off (halted reason detail) s applied h = KeptHolds-off detail.in_progress h
  where
    KeptHolds-off :
        (kept : Option Detail)
        → KeptHolds kept s applied
        → KeptHolds kept (set_subscription s false) applied
    KeptHolds-off none k = tt
    KeptHolds-off (some d) k = StepHolds-off d.step d s applied k

-- Disabling the subscription keeps a world safe.
pub alter-off :
    (w : World) → IsSafe w → IsSafe (record (alter false w) { trace = disabled ∷ w.trace })
alter-off w h = record {
  quiet = (tt, h.quiet);
  row = RowHolds-off w.state w.subscription w.applied h.row;
}

keep-IsOff :
    (act : Act) (triggers : Bool) (w : World)
    → IsQuiet act
    → IsOff w
    → IsOff (record w { trace = act ∷ w.trace; triggers = triggers })
keep-IsOff act triggers w q h = record {
  safe = record { quiet = (q, h.safe.quiet); row = h.safe.row };
  off = h.off;
}

-- A step before the undo may be persisted while the subscription is off.
abbrev NeedsOff : Step → Type 0
NeedsOff disable = Unit {0}
NeedsOff log = Unit {0}
NeedsOff relog = Unit {0}
NeedsOff migrate = Unit {0}
NeedsOff undo = Unit {0}
NeedsOff enable = ⊥

StepHolds-NeedsOff :
    (step : Step) (d : Detail) (s : Option Bool) (applied : List Applied)
    → NeedsOff step
    → is_on s ≡ false
    → StepHolds step d s applied
StepHolds-NeedsOff disable d s applied n h = tt
StepHolds-NeedsOff log d s applied n h = h
StepHolds-NeedsOff relog d s applied n h = h
StepHolds-NeedsOff migrate d s applied n h = h
StepHolds-NeedsOff undo d s applied n h = h
StepHolds-NeedsOff enable d s applied n h = elim n [ ]
