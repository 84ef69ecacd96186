-- ===== src/Follower/Halting.antt =====
-- `halt`, `resume` and `resolve` of local/postgres/lib/qpg/follower.py.
pub mod Safety
pub mod Quiet
pub mod Resolving
use Prim.Native.Char.{Char, code}
use Prim.Native.String.{[] as nil, ◌∷◌ as cons}
use qontinui_stack.Prelude.{
  nat_eq, ℕ, String, ◌≡◌, refl, Bool, true, false, not, ◌&&◌, ◌||◌, Option, none, some, List, [],
  ◌∷◌, ◌++◌, elem, any, arith, ◌==◌, if◌then◌else◌,
}
use qontinui_stack.Follower.Types.{
  Table, Detail, Reason, Step, disable, log, relog, migrate, undo, enable, StateRow, idle,
  in_progress, halted, HaltDetail, not_in_a_step, Other, filled_other, stepless, Error,
  config_error, key_error, Result, ok, err, Resolution, Owed,
}
use qontinui_stack.Follower.Effects.{
  Act, disabled, enabled, dropped_triggers, World, Env, M, ◌>>=◌, ◌>>◌, pure, raise, query, gets,
  execute, set_state, log_event,
}
use qontinui_stack.Follower.Shape.{halt_plain, sub_oid, resolved, unresolved}
use qontinui_stack.Follower.Machine.{alter, with_triggers, at_step}

-- try: … except PgError: the failure is told in the notice, and the halt goes on. No other error
-- comes out of these statements.
abbrev forgive : Result (Unit {0}) × World → World
forgive (r, w) = w

abbrev flag : Result (Unit {0}) × World → Bool × World
flag (ok u, w) = (true, w)
flag (err e, w) = (false, w)

abbrev disable_if_enabled : Env → Option Bool → World → Bool × World
disable_if_enabled env (some true) w = flag (execute env disabled (alter false) w)
disable_if_enabled env (some false) w = (false, w)
disable_if_enabled env none w = (false, w)

abbrev set_halted : Env → Reason → HaltDetail → Bool × World → Result (Unit {0}) × World
set_halted env reason detail (done, w) =
    (do
      set_state env
          (halted reason (record detail { disabled_by_halt = done || detail.disabled_by_halt }))
      log_event env "halted")
      w

-- `halt`: the triggers are removed and the subscription disabled where that can be done, and the
-- state says so in any case.
unfoldable pub halt_with : Env → Reason → HaltDetail → M (Unit {0})
halt_with env reason detail w =
    let cleaned = forgive (execute env dropped_triggers (with_triggers false) w) in
    set_halted env reason detail (disable_if_enabled env cleaned.subscription cleaned)

has_scope : Detail → Bool
has_scope detail = elim detail.scope [ none ↦ false | some tables ↦ true ]

-- A migration that halted before its undo goes back to where its triggers are installed.
abbrev resume_step : Step → Bool → Step
resume_step log scoped = if scoped then relog else log
resume_step migrate scoped = if scoped then relog else log
resume_step step scoped = step

unfoldable pub resumed : Detail → Detail
unfolding has_scope
resumed detail = at_step detail (resume_step detail.step (has_scope detail))

abbrev when : Bool → M (Unit {0}) → M (Unit {0})
when true m = m
when false m = pure tt

abbrev resume_other : Env → HaltDetail → Other → M (Unit {0})
resume_other env detail filled_other = do set_state env stepless; log_event env "resumed"
resume_other env detail other = do
  when detail.disabled_by_halt (execute env enabled (alter true))
  set_state env (idle none)
  log_event env "resumed"

abbrev resume_from : Env → HaltDetail → Option Detail → M (Unit {0})
resume_from env detail (some prior) = do
  set_state env (in_progress (resumed prior))
  log_event env "resumed"
resume_from env detail none = resume_other env detail detail.other

abbrev resume_row : Env → StateRow → M (Unit {0})
resume_row env (halted reason detail) = resume_from env detail detail.in_progress
resume_row env (idle at) = pure tt
resume_row env (in_progress detail) = pure tt
resume_row env stepless = pure tt

-- `resume`: nothing is done to a follower that is not halted.
unfoldable pub resume : Env → M (Unit {0})
resume env w = resume_row env w.state w

abbrev pub resolvable : List String
resolvable = "rename" ∷ "missing-value" ∷ "rewrite" ∷ "key-change" ∷ []

abbrev pub same_case : Option String → String → Bool
same_case none kase = false
same_case (some k) kase = k == kase

abbrev check : Bool → Error → M (Unit {0})
check true e = pure tt
check false e = raise e

abbrev add_resolution : String → String → String → World → World
add_resolution xid kase target w = record w {
  resolutions = record { xid = xid; kase = kase; target = target } ∷ w.resolutions;
}

abbrev after_dot : Char → String → Option (String × String) → Option (String × String)
after_dot c s (some (table, column)) = some (cons c table, column)
after_dot c s none = if nat_eq (code c) b'.' then some ("", s) else none

-- target.rsplit(".", 1), where there is a dot
unfoldable pub rsplit_dot : String → Option (String × String)
rsplit_dot nil = none
rsplit_dot (cons c s) = after_dot c s (rsplit_dot s)

abbrev owe : (relation columns xid kase : String) → List Owed
owe relation columns xid kase =
    record { relation = relation; columns = columns; xid = xid; kase = kase } ∷ []

abbrev owe_table : (xid kase : String) → Option String → M (List Owed)
owe_table xid kase (some relation) = pure (owe relation "*" xid kase)
owe_table xid kase none = raise config_error

abbrev owe_column : (xid kase : String) → Option (String × String) → List Owed
owe_column xid kase (some (table, column)) = owe table column xid kase
owe_column xid kase none = []

-- The copies that a resolution owes. A target of the case missing-value is a column with its table, so
-- it has a dot.
unfoldable pub owing : Env → (xid kase target : String) → M (List Owed)
unfolding rsplit_dot
owing env xid kase target =
    if kase == "rewrite" || kase == "key-change"
    then (do name ← query (env.relation_named target); owe_table xid kase name)
    else pure (if kase == "missing-value" then owe_column xid kase (rsplit_dot target) else [])

-- The primary key of the table.
abbrev same_owed : Owed → Owed → Bool
same_owed a b = a.relation == b.relation && a.columns == b.columns

-- ON CONFLICT DO NOTHING
abbrev add_owed : List Owed → List Owed → List Owed
add_owed [] owed = owed
add_owed (o ∷ rest) owed = add_owed rest (if any (same_owed o) owed then owed else o ∷ owed)

abbrev resume_when_done : Env → List String → M (Unit {0})
resume_when_done env [] = resume env
resume_when_done env (t ∷ ts) = pure tt

-- No halt that holds such a dictionary names a case.
abbrev resolve_other : (kase target : String) → HaltDetail → Other → M (Unit {0})
resolve_other kase target detail filled_other = do
  check (same_case detail.kase kase) config_error
  check (elem target detail.targets) config_error
  sub_oid
  raise key_error
resolve_other kase target detail other = raise (halt_plain not_in_a_step)

abbrev resolve_in : Env → String → String → HaltDetail → Option Detail → M (Unit {0})
resolve_in env kase target detail none = resolve_other kase target detail detail.other
resolve_in env kase target detail (some prior) = do
  check (same_case detail.kase kase) config_error
  check (elem target detail.targets) config_error
  sub_oid
  owed ← owing env prior.xid kase target
  execute env Act.resolved
      (λ w. record (add_resolution prior.xid kase target w) { owed = add_owed owed w.owed })
  log_event env "resolved"
  remaining ← unresolved prior.xid kase detail.targets
  resume_when_done env remaining

abbrev resolve_row : Env → String → String → StateRow → M (Unit {0})
resolve_row env kase target (halted reason detail) =
    resolve_in env kase target detail detail.in_progress
resolve_row env kase target (idle at) = raise (halt_plain not_in_a_step)
resolve_row env kase target (in_progress d) = raise (halt_plain not_in_a_step)
resolve_row env kase target stepless = raise (halt_plain not_in_a_step)

-- The rows of the replay log, which a resolution of a rewrite or a key change removes, are the
-- environment's.
--
-- `resolve`: only the current halt's own case and targets are accepted, and the follower resumes
-- once all of them are resolved.
unfoldable pub resolve : Env → (kase target : String) → M (Unit {0})
unfolding resume owing
resolve env kase target w =
    (do check (elem kase resolvable) config_error; resolve_row env kase target w.state) w
