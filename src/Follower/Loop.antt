-- ===== src/Follower/Loop.antt =====
-- The loop `run` of local/postgres/lib/qpg/follower.py, with `_notify_stuck_step` and
-- `_halt_failing_step`. The rounds of its `while True` are a list; what happens around a poll is
-- the environment's choice.
pub mod Halts
pub mod Safety
use qontinui_stack.Prelude.{
  ℕ, zero, suc, String, ◌≡◌, refl, Bool, true, false, not, ◌&&◌, ◌||◌, Option, none, some, List, [],
  ◌∷◌, ◌++◌, leb, ◌==◌, if◌then◌else◌,
}
use qontinui_stack.Follower.Types.{
  Detail, Step, disable, log, relog, migrate, undo, enable, StateRow, idle, in_progress, halted,
  HaltDetail, step_keeps_failing, Error, halt, pg_error, config_error, Result, ok, err, Other,
  no_other, empty_other, filled_other, stepless, key_error,
}
use qontinui_stack.Follower.Effects.{World, Env}
use qontinui_stack.Follower.Halting.{halt_with}
use qontinui_stack.Follower.Cycle.{
  Status, is_idle, is_in_progress, is_halted, status_of, cycle, settled,
}

abbrev step_text : Step → String
step_text disable = "disable"
step_text log = "log"
step_text relog = "relog"
step_text migrate = "migrate"
step_text undo = "undo"
step_text enable = "enable"

-- The text of a step that is notified: status, step and transaction. That of a detail without a step is
-- taken as one text, whatever transaction it names.
pub data Stuck : Type 0 where
  in_step : (step xid : String) → Stuck
  no_step unknown : Stuck

abbrev pub same_stuck : Stuck → Option Stuck → Bool
same_stuck (in_step step xid) (some (in_step step' xid')) = step == step' && xid == xid'
same_stuck no_step (some no_step) = true
same_stuck unknown (some unknown) = true
same_stuck s other = false

-- What the loop carries from round to round.
pub record Loop : Type 0 where
  pub world : World
  pub notified : Option Stuck
  pub failures : ℕ
  pub notices : List Stuck

-- One round: whether copy-columns holds the lock; the label of the PgError that the poll's read of
-- the state raises, if it does; whether the state can be read after a failure, to notify and to
-- halt; the publisher's position for `settled`; and whether the deadline has passed.
pub record Round : Type 0 where
  pub locked : Bool
  pub unread : Option String
  pub env : Env
  pub reads_to_notify : Bool
  pub reads_to_halt : Bool
  pub lsn : Result String
  pub timed_out : Bool

pub record Config : Type 0 where
  pub acknowledged : Bool
  pub max_failures : ℕ
  pub once : Bool
  pub until_idle : Bool

-- The status of a round, with "locked" and "error" besides those of the state.
pub data Polled : Type 0 where
  polled : Status → Polled
  was_locked failed : Polled

abbrev pub stuck_in : Bool → StateRow → Option Stuck
stuck_in false row = some unknown
stuck_in true (in_progress d) = some (in_step (step_text d.step) d.xid)
stuck_in true stepless = some no_step
stuck_in true (idle at) = none
stuck_in true (halted reason detail) = none

-- `_notify_stuck_step`: one notice for each step.
unfoldable pub notify_stuck_step : Bool → Loop → Loop
notify_stuck_step reads l = elim (stuck_in reads l.world.state) [
  | none ↦ l
  | some stuck ↦ record l {
    notified = some stuck;
    notices = if same_stuck stuck l.notified then l.notices else l.notices ++ stuck ∷ [];
  }
]

abbrev pub is_in_step : Option Stuck → Bool
is_in_step none = false
is_in_step (some (in_step step xid)) = true
is_in_step (some no_step) = true
is_in_step (some unknown) = false

-- A publisher outage is not counted.
unfoldable pub count_failure : String → Loop → Loop
count_failure label l =
    if label == "publisher"
    then l
    else record l { failures = if is_in_step l.notified then suc l.failures else 0 }

abbrev pub halt_outcome : Loop → Result (Unit {0}) × World → Result Polled × Loop
halt_outcome l (ok u, w) = (ok (polled is_halted), record l { world = w })
halt_outcome l (err (pg_error label), w) = (ok failed, record l { world = w })
halt_outcome l (err (halt reason kase targets), w) =
    (err (halt reason kase targets), record l { world = w })
halt_outcome l (err config_error, w) = (err config_error, record l { world = w })
halt_outcome l (err key_error, w) = (err key_error, record l { world = w })

abbrev is_step : Option Detail → Bool
is_step none = false
is_step (some detail) = true

abbrev is_case : Option String → Bool
is_case none = false
is_case (some kase) = true

abbrev is_no_other : Other → Bool
is_no_other no_other = true
is_no_other other = false

-- The dictionary of a halt's detail has no key.
abbrev is_empty_detail : HaltDetail → Bool
is_empty_detail detail =
    not (is_step detail.in_progress)
    && (is_no_other detail.other && (not (is_case detail.kase) && not detail.disabled_by_halt))

-- The detail of a state that is no step, under the key `in_progress` of another detail.
abbrev held : StateRow → Other
held (idle none) = empty_other
held (idle (some at)) = filled_other
held (in_progress detail) = no_other
held stepless = filled_other
held (halted reason detail) = if is_empty_detail detail then empty_other else filled_other

abbrev pub step_of : StateRow → Option Detail
step_of (in_progress detail) = some detail
step_of row = none

-- The detail of the halt of a step that keeps failing: that of the state, whatever its status.
abbrev pub failing : StateRow → HaltDetail
failing row = record {
  in_progress = step_of row;
  other = held row;
  kase = none;
  targets = [];
  disabled_by_halt = false;
}

-- `_halt_failing_step`, with whether the state can be read.
unfoldable pub halt_failing_step : Bool → Env → Loop → Result Polled × Loop
halt_failing_step false env l = (ok failed, l)
halt_failing_step true env l =
    halt_outcome l (halt_with env step_keeps_failing (failing l.world.state) l.world)

-- except PgError
unfoldable pub on_error : Config → Round → String → Loop → Result Polled × Loop
unfolding notify_stuck_step count_failure halt_failing_step
on_error cfg r label l =
    let counted = count_failure label (notify_stuck_step r.reads_to_notify l) in
    if leb cfg.max_failures counted.failures
    then halt_failing_step r.reads_to_halt r.env counted
    else (ok failed, counted)

abbrev pub after_cycle : Config → Round → Loop → Result (Unit {0}) × World → Result Polled × Loop
unfolding on_error
after_cycle cfg r l (ok u, w) =
    (ok (polled (status_of w.state)), record l { world = w; notified = none; failures = 0 })
after_cycle cfg r l (err (pg_error label), w) = on_error cfg r label (record l { world = w })
after_cycle cfg r l (err (halt reason kase targets), w) =
    (err (halt reason kase targets), record l { world = w })
after_cycle cfg r l (err config_error, w) = (err config_error, record l { world = w })
after_cycle cfg r l (err key_error, w) = (err key_error, record l { world = w })

abbrev pub read_and_cycle : Config → Round → Loop → Option String → Result Polled × Loop
unfolding on_error after_cycle cycle
read_and_cycle cfg r l (some label) = on_error cfg r label l
read_and_cycle cfg r l none = after_cycle cfg r l (cycle r.env l.world)

-- The guard on phase 8 stands before the read of the state.
abbrev pub read_fault : Round → Option String
read_fault r = if r.env.phase8_violated then none else r.unread

-- The `try` of a round.
unfoldable pub poll_round : Config → Round → Loop → Result Polled × Loop
unfolding read_and_cycle
poll_round cfg r l = if r.locked then (ok was_locked, l) else read_and_cycle cfg r l (read_fault r)

-- How the call of `run` ends: it returns a code, raises, or is still in the loop.
pub data Ending : Type 0 where
  exits : ℕ → Loop → Ending
  raises : Error → Loop → Ending
  still : Loop → Ending

abbrev is_settled : Result Bool × World → Bool
is_settled (ok b, w) = b
is_settled (err e, w) = false

abbrev settles : Round → World → Bool
unfolding settled
settles r w = elim r.lsn [ ok lsn ↦ is_settled (settled r.env lsn w) | err e ↦ false ]

abbrev is_failed : Polled → Bool
is_failed failed = true
is_failed was_locked = false
is_failed (polled status) = false

abbrev says_halted : Polled → Bool
says_halted (polled is_halted) = true
says_halted p = false

abbrev says_idle : Polled → Bool
says_idle (polled is_idle) = true
says_idle p = false

-- The returns after a round, in their order; none where the loop goes on.
unfoldable pub exit_code : Config → Round → Polled → World → Option ℕ
unfolding settles
exit_code cfg r p w =
    if says_halted p && (cfg.once || cfg.until_idle)
    then some 3
    else if cfg.once
    then some (if is_failed p then 1 else 0)
    else if cfg.until_idle && says_idle p && settles r w
    then some 0
    else if r.timed_out
    then some 4
    else none

unfoldable pub rounds : Config → List Round → Loop → Ending
unfolding poll_round exit_code
rounds cfg [] l = still l
rounds cfg (r ∷ rest) l =
    let (p, l') = poll_round cfg r l in
    elim p [
      | err e ↦ raises e l'
      | ok status ↦ elim (exit_code cfg r status l'.world) [
        | some code ↦ exits code l'
        | none ↦ rounds cfg rest l'
      ]
    ]

unfoldable pub run : Config → List Round → World → Ending
unfolding rounds
run cfg rs w =
    let start : Loop = record { world = w; notified = none; failures = 0; notices = [] } in
    if cfg.acknowledged then rounds cfg rs start else raises config_error start
