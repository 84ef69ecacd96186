-- ===== src/Follower/Loop/Safety.antt =====
-- The loop of local/postgres/lib/qpg/follower.py and the invariant of its worlds.
use qontinui_stack.Prelude.{
  String, ◌≡◌, refl, sym, subst, ◌∙◌, Bool, true, false, none, some, List, [], ◌∷◌, ◌==◌, leb,
  Bool-cases, Option-cases, inl, inr,
}
use qontinui_stack.Follower.Types.{
  StateRow, idle, in_progress, halted, halt, pg_error, config_error, Result, ok, err,
  step_keeps_failing, stepless, key_error,
}
use qontinui_stack.Follower.Effects.{World, Env}
use qontinui_stack.Follower.Effects.Triples.{Post}
use qontinui_stack.Follower.Machine.Safety.{IsSafe, RowHolds, KeptHolds}
use qontinui_stack.Follower.Halting.Safety.{halt_with-IsSafe}
use qontinui_stack.Follower.Cycle.{cycle}
use qontinui_stack.Follower.Cycle.Safety.{cycle-IsSafe}
use qontinui_stack.Follower.Loop.{
  Loop, Round, Config, Polled, Ending, exits, raises, still, failing, stuck_in, notify_stuck_step,
  count_failure, halt_outcome, halt_failing_step, on_error, after_cycle, read_and_cycle, read_fault,
  poll_round, exit_code, rounds, step_of,
}

-- The world of an ending is safe.
abbrev pub EndsSafe : Ending → Type 0
EndsSafe (exits code l) = IsSafe l.world
EndsSafe (raises e l) = IsSafe l.world
EndsSafe (still l) = IsSafe l.world

notify-world : (reads : Bool) (l : Loop) → (notify_stuck_step reads l).world ≡ l.world
unfolding notify_stuck_step
notify-world reads l = elim (Option-cases (stuck_in reads l.world.state)) [
  | inl e ↦ simp (e, notify_stuck_step) refl
  | inr (s, e) ↦ simp (e, notify_stuck_step) refl
]

count-world : (label : String) (l : Loop) → (count_failure label l).world ≡ l.world
unfolding count_failure
count-world label l = elim (Bool-cases (label == "publisher")) [
  | inl e ↦ simp e refl
  | inr e ↦ simp e refl
]

halt_outcome-IsSafe :
    (l : Loop) (r : Result (Unit {0}) × World)
    → Post (λ u. IsSafe) IsSafe r
    → IsSafe (halt_outcome l r).1.world
halt_outcome-IsSafe l (ok u, w) h = h
halt_outcome-IsSafe l (err (pg_error label), w) h = h
halt_outcome-IsSafe l (err (halt reason kase targets), w) h = h
halt_outcome-IsSafe l (err config_error, w) h = h
halt_outcome-IsSafe l (err key_error, w) h = h

step_of-holds :
    (row : StateRow) (w : World)
    → RowHolds row w.subscription w.applied
    → KeptHolds (step_of row) w.subscription w.applied
step_of-holds (idle at) w h = tt
step_of-holds (in_progress d) w h = h
step_of-holds stepless w h = tt
step_of-holds (halted reason detail) w h = tt

halt_failing_step-IsSafe :
    (reads : Bool) (env : Env) (l : Loop)
    → IsSafe l.world
    → IsSafe (halt_failing_step reads env l).1.world
unfolding halt_failing_step
halt_failing_step-IsSafe false env l h = h
halt_failing_step-IsSafe true env l h = halt_outcome-IsSafe l _ (
    halt_with-IsSafe env step_keeps_failing (failing l.world.state) l.world h
      (step_of-holds l.world.state l.world h.row))

on_error-IsSafe :
    (cfg : Config) (r : Round) (label : String) (l : Loop)
    → IsSafe l.world
    → IsSafe (on_error cfg r label l).1.world
unfolding on_error
on_error-IsSafe cfg r label l h =
    let counted = count_failure label (notify_stuck_step r.reads_to_notify l) in
    let same : counted.world ≡ l.world =
      count-world label (notify_stuck_step r.reads_to_notify l)
      ∙ notify-world r.reads_to_notify l in
    let safe = subst IsSafe (sym same) h in
    elim (Bool-cases (leb cfg.max_failures counted.failures)) [
      | inl e ↦ simp e (halt_failing_step-IsSafe r.reads_to_halt r.env counted safe)
      | inr e ↦ simp e safe
    ]

after_cycle-IsSafe :
    (cfg : Config) (r : Round) (l : Loop) (o : Result (Unit {0}) × World)
    → Post (λ u. IsSafe) IsSafe o
    → IsSafe (after_cycle cfg r l o).1.world
unfolding after_cycle
after_cycle-IsSafe cfg r l (ok u, w) h = h
after_cycle-IsSafe cfg r l (err (pg_error label), w) h =
    on_error-IsSafe cfg r label (record l { world = w }) h
after_cycle-IsSafe cfg r l (err (halt reason kase targets), w) h = h
after_cycle-IsSafe cfg r l (err config_error, w) h = h
after_cycle-IsSafe cfg r l (err key_error, w) h = h

poll_round-IsSafe :
    (cfg : Config) (r : Round) (l : Loop) → IsSafe l.world → IsSafe (poll_round cfg r l).1.world
unfolding poll_round read_and_cycle
poll_round-IsSafe cfg r l h = elim (Bool-cases r.locked) [
  | inl e ↦ simp e h
  | inr e ↦ elim (Option-cases (read_fault r)) [
    | inl f ↦
        simp (e, f)
          (after_cycle-IsSafe cfg r l (cycle r.env l.world) ((cycle-IsSafe r.env).at l.world h))
    | inr (label, f) ↦ simp (e, f) (on_error-IsSafe cfg r label l h)
  ]
]

ends-round :
    (cfg : Config) (r : Round) (rest : List Round) (p : Result Polled) (l : Loop)
    → IsSafe l.world
    → ((l' : Loop) → IsSafe l'.world → EndsSafe (rounds cfg rest l'))
    → EndsSafe (elim p [
      | err e ↦ raises e l
      | ok status ↦ elim (exit_code cfg r status l.world) [
        | some code ↦ exits code l
        | none ↦ rounds cfg rest l
      ]
    ])
ends-round cfg r rest (err e) l h k = h
ends-round cfg r rest (ok status) l h k = elim (Option-cases (exit_code cfg r status l.world)) [
  | inl e ↦ simp e (k l h)
  | inr (code, e) ↦ simp e h
]

-- From a safe world the loop stays in safe worlds, however many rounds it runs, whatever fails in
-- them and however it ends.
pub rounds-EndsSafe :
    (cfg : Config) (rs : List Round) (l : Loop) → IsSafe l.world → EndsSafe (rounds cfg rs l)
unfolding rounds
rounds-EndsSafe cfg [] l h = h
rounds-EndsSafe cfg (r ∷ rest) l h =
    ends-round cfg r rest (poll_round cfg r l).0 (poll_round cfg r l).1
      (poll_round-IsSafe cfg r l h) (rounds-EndsSafe cfg rest)
