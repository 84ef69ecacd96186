-- ===== src/Examples/Loops.antt =====
-- The loop of local/postgres/lib/qpg/follower.py where the subscriber fails in a step.
use qontinui_stack.Follower.Halting.{halt_with, resume}
use qontinui_stack.Prelude.{String, ◌≡◌, refl, true, false, none, some, [], ◌∷◌, arith}
use qontinui_stack.Follower.Types.{Detail, undo, in_progress, pg_error, ok, err, stepless}
use qontinui_stack.Follower.Effects.{World, Env, execute, set_state, log_event}
use qontinui_stack.Follower.Shape.{sub_oid}
use qontinui_stack.Follower.Cycle.{cycle, catch_halt, poll}
use qontinui_stack.Follower.Machine.Safety.{IsSafe}
use qontinui_stack.Follower.Loop.{Loop, Round, Config, halt_failing_step, still, poll_round, rounds}
use qontinui_stack.Follower.Loop.Halts.{Fails, IsOutage, rounds-outage}
use qontinui_stack.Follower.Loop.Safety.{EndsSafe, rounds-EndsSafe}
use qontinui_stack.Examples.Replays.{env, stopped}

abbrev detail : Detail
detail = record {
  xid = "7";
  finish_lsn = "0/9";
  source = "web";
  versions = "v2" ∷ [];
  step = undo;
  was_enabled = true;
  scope = some [];
  missing_before = [];
  attnums_before = [];
  new_tables = [];
}

abbrev working : World
working = record stopped { state = in_progress detail; trace = [] }

abbrev refusing : String → Env
refusing label = record env { substream = λ w. err (pg_error label) }

abbrev round : String → Round
round label = record {
  locked = false;
  unread = none;
  env = refusing label;
  reads_to_notify = true;
  reads_to_halt = true;
  lsn = ok "0/10";
  timed_out = false;
}

abbrev service : Config
service = record { acknowledged = true; max_failures = 2; once = false; until_idle = false }

abbrev begun : Loop
begun = record { world = working; notified = none; failures = 0; notices = [] }

Fails-again : Fails (round "subscriber") (poll_round service (round "subscriber") begun).1
unfolding cycle poll_round catch_halt poll sub_oid
Fails-again = record {
  unlocked = refl;
  opened = refl;
  label = "subscriber";
  world = working;
  error = refl;
  subscriber = refl;
  detail = detail;
  step = refl;
  noticed = refl;
}

IsOutage-first : IsOutage service (round "publisher") begun
unfolding cycle catch_halt poll sub_oid
IsOutage-first = record {
  unlocked = refl;
  opened = refl;
  left = working;
  error = refl;
  in_time = refl;
}

IsOutage-again :
    IsOutage service (round "publisher") (poll_round service (round "publisher") begun).1
unfolding cycle poll_round catch_halt poll sub_oid
IsOutage-again = record {
  unlocked = refl;
  opened = refl;
  left = working;
  error = refl;
  in_time = refl;
}

-- The service is still in the loop after both rounds.
rounds-outage_example :
    (l : Loop) × (rounds service (round "publisher" ∷ round "publisher" ∷ []) begun ≡ still l)
    × (l.failures ≡ 0)
rounds-outage_example =
    rounds-outage service (round "publisher" ∷ round "publisher" ∷ []) begun refl refl (omega arith)
      (IsOutage-first, (IsOutage-again, tt))

-- A halt of a failing step that finds the follower halted already nests the detail of that halt, and
-- resuming from it leaves no step to go on with.
nested_test :
    (resume env (halt_failing_step true env (record begun { world = stopped })).1.world).1.state
    ≡ stepless
unfolding halt_failing_step halt_with resume execute set_state log_event
nested_test = refl

working-IsSafe : IsSafe working
working-IsSafe = record { quiet = tt; row = refl }

rounds-EndsSafe_example : EndsSafe (rounds service (round "subscriber" ∷ []) begun)
rounds-EndsSafe_example = rounds-EndsSafe service (round "subscriber" ∷ []) begun working-IsSafe
