-- ===== src/Follower/Cycle/Safety.antt =====
-- One poll, and sequences of the calls of the loop and of the operator, and the invariant of
-- local/postgres/lib/qpg/follower.py.
use qontinui_stack.Prelude.{
  String, refl, Bool, true, false, Option, none, some, List, [], ◌∷◌, ◌==◌, Bool-cases, inl, inr,
}
use qontinui_stack.Follower.Types.{
  Stall, StateRow, idle, in_progress, halted, halt, pg_error, config_error, Reason,
  phase8_violation, several_heads, parallel_streaming, marker_did_not_fire, Result, ok, err,
  Snapshot, stepless, key_error,
}
use qontinui_stack.Follower.Effects.{
  recorded_heads, cleared_mismatch, marked_mismatch, World, Env, M, continue,
}
use qontinui_stack.Follower.Effects.Triples.{
  Post, Triple, bind, of_query, of_execute, of_pure, of_raise,
}
use qontinui_stack.Follower.Shape.Reads.{sub_oid-keeps}
use qontinui_stack.Follower.Machine.Safety.{KeptHolds, RowHolds, IsSafe}
use qontinui_stack.Follower.Halting.{halt_with, resume, resolve}
use qontinui_stack.Follower.Halting.Safety.{halt_with-IsSafe, resume-IsSafe}
use qontinui_stack.Follower.Halting.Resolving.{resolve-IsSafe}
use qontinui_stack.Follower.Stalls.Safety.{
  IsAt, advance-IsAt, handle_stall-IsSafe, current_stall-IsSafe, caught_up-IsSafe,
}
use qontinui_stack.Follower.Cycle.{
  halt_if, several, pub_snapshot, record_heads, and_lanes, heads_agree, settle_mismatch,
  compare_heads, with_stall, by_state, poll, kept_detail, kept_halt, catch_halt, cycle_from, cycle,
}

module _ (env : Env) where
  halt_if-keeps :
      {P E : World → Type 0} (b : Bool) (reason : Reason)
      → ((w : World) → P w → E w)
      → Triple P (halt_if b reason) (λ u. P) E
  halt_if-keeps true reason pe = of_raise _ pe
  halt_if-keeps false reason pe = of_pure _ tt (λ w p. p)

  and_lanes-IsSafe :
      (snap : Snapshot) (same b : Bool)
      → Triple IsSafe (and_lanes env snap same b) (λ a. IsSafe) IsSafe
  and_lanes-IsSafe snap same false = of_pure _ same (λ w h. h)
  and_lanes-IsSafe snap same true =
      bind _ (of_query env.local_coord_versions (λ w h. h)) (λ here. of_pure _ _ (λ w h. h))

  settle_mismatch-IsSafe :
      (snap : Snapshot) (same : Bool)
      → Triple IsSafe (settle_mismatch env snap same) (λ u. IsSafe) IsSafe
  settle_mismatch-IsSafe snap true =
      of_execute env cleared_mismatch (λ w. record w { mismatch = false })
        (λ w h. record { quiet = (tt, h.quiet); row = h.row }) (λ w h. h)
  settle_mismatch-IsSafe snap false =
      bind (λ u. IsSafe)
        (of_execute env marked_mismatch (λ w. record w { mismatch = true })
          (λ w h. record { quiet = (tt, h.quiet); row = h.row }) (λ w h. h))
        (λ u.
          bind _ (caught_up-IsSafe env snap.lsn)
            (λ passed. halt_if-keeps passed marker_did_not_fire (λ w h. h)))

  compare_heads-IsSafe :
      (snap : Snapshot) → Triple IsSafe (compare_heads env snap) (λ u. IsSafe) IsSafe
  unfolding compare_heads heads_agree
  compare_heads-IsSafe snap =
      bind (λ b. IsSafe)
        (bind _ (of_query env.local_web_versions (λ w h. h))
          (λ web. and_lanes-IsSafe snap _ env.coord_lane))
        (λ same. settle_mismatch-IsSafe snap same)

  with_stall-IsSafe :
      (snap : Snapshot) (s : Option Stall)
      → Triple IsSafe (with_stall env snap s) (λ u. IsSafe) IsSafe
  with_stall-IsSafe snap (some stall) =
      bind _ (handle_stall-IsSafe env stall) (λ u. of_query env.read_state (λ w h. h))
  with_stall-IsSafe snap none = compare_heads-IsSafe snap

  weaken :
      {P Q E : World → Type 0} {A : Type 0} {R : A → World → Type 0} {m : M A}
      → ((w : World) → P w → Q w)
      → Triple Q m R E
      → Triple P m R E
  weaken pq h = record { at = λ w p. h.at w (pq w p) }

  by_state-IsSafe :
      (snap : Snapshot) (row : StateRow)
      → Triple (IsAt row) (by_state env snap row) (λ u. IsSafe) IsSafe
  by_state-IsSafe snap (in_progress d) =
      bind _ (advance-IsAt env d) (λ u. of_query env.read_state (λ w h. h))
  by_state-IsSafe snap (idle at) =
      weaken (λ w h. h.safe)
        (bind _ (current_stall-IsSafe env) (λ stall. with_stall-IsSafe snap stall))
  by_state-IsSafe snap stepless = of_raise _ (λ w h. h.safe)
  by_state-IsSafe snap (halted reason detail) =
      weaken (λ w h. h.safe)
        (bind _ (current_stall-IsSafe env) (λ stall. with_stall-IsSafe snap stall))

  pub_snapshot-IsAt :
      (row : StateRow) → Triple (IsAt row) (pub_snapshot env) (λ snap. IsAt row) IsSafe
  unfolding pub_snapshot
  pub_snapshot-IsAt row = bind _ (of_query env.pub_snapshot (λ w h. h.safe)) (λ snap.
      bind _ (halt_if-keeps (several snap.web) several_heads (λ w h. h.safe))
        (λ u. of_pure _ snap (λ w h. h)))

  record_heads-IsAt :
      (row : StateRow) (snap : Snapshot)
      → Triple (IsAt row) (record_heads env snap) (λ u. IsAt row) IsSafe
  unfolding record_heads
  record_heads-IsAt row snap =
      of_execute env recorded_heads _
        (λ w h. record {
          safe = record { quiet = (tt, h.safe.quiet); row = h.safe.row };
          state = h.state;
        })
        (λ w h. h.safe)

  poll-IsSafe : (row : StateRow) → Triple (IsAt row) (poll env row) (λ u. IsSafe) IsSafe
  unfolding poll
  poll-IsSafe row = bind _ (sub_oid-keeps (λ w h. h.safe)) (λ a.
      bind _ (of_query env.substream (λ w h. h.safe)) (λ streaming.
        bind _ (halt_if-keeps (streaming == "p") parallel_streaming (λ w h. h.safe)) (λ b.
          bind _ (pub_snapshot-IsAt row)
            (λ snap. bind _ (record_heads-IsAt row snap) (λ c. by_state-IsSafe snap row)))))

  pub kept_detail-holds :
      (row : StateRow) (w : World)
      → RowHolds row w.subscription w.applied
      → KeptHolds (kept_detail env row) w.subscription w.applied
  kept_detail-holds (idle at) w h = tt
  kept_detail-holds (in_progress d) w h = h
  kept_detail-holds stepless w h = tt
  kept_detail-holds (halted reason detail) w h = tt

  reread-IsSafe :
      (read : Result (Unit {0})) (reason : Reason) (kase : Option String) (targets : List String)
      (w : World)
      → IsSafe w
      → Post
          (λ u. IsSafe)
          IsSafe
          (continue read (λ u. halt_with env reason (kept_halt env kase targets w)) w)
  reread-IsSafe (ok u) reason kase targets w h =
      halt_with-IsSafe env reason _ w h (kept_detail-holds w.state w h.row)
  reread-IsSafe (err e) reason kase targets w h = h

  catch_halt-IsSafe :
      (r : Result (Unit {0}) × World)
      → Post (λ u. IsSafe) IsSafe r
      → Post (λ u. IsSafe) IsSafe (catch_halt env r)
  unfolding catch_halt
  catch_halt-IsSafe (ok u, w) h = h
  catch_halt-IsSafe (err (halt reason kase targets), w) h =
      reread-IsSafe (env.read_state w) reason kase targets w h
  catch_halt-IsSafe (err (pg_error label), w) h = h
  catch_halt-IsSafe (err config_error, w) h = h
  catch_halt-IsSafe (err key_error, w) h = h

  cycle_from-IsSafe :
      (row : StateRow) (w : World) → IsAt row w → Post (λ u. IsSafe) IsSafe (cycle_from env row w)
  cycle_from-IsSafe (halted reason detail) w h = h.safe
  cycle_from-IsSafe (idle at) w h = catch_halt-IsSafe _ ((poll-IsSafe (idle at)).at w h)
  cycle_from-IsSafe stepless w h = catch_halt-IsSafe _ ((poll-IsSafe stepless).at w h)
  cycle_from-IsSafe (in_progress d) w h = catch_halt-IsSafe _ ((poll-IsSafe (in_progress d)).at w h)

  -- One poll takes a safe world to a safe world, whatever statements fail and whatever the
  -- databases answer.
  pub cycle-IsSafe : Triple IsSafe (cycle env) (λ u. IsSafe) IsSafe
  unfolding cycle
  cycle-IsSafe = record { at = cycle-post }
    where
      cycle-post : (w : World) → IsSafe w → Post (λ u. IsSafe) IsSafe (cycle env w)
      cycle-post w h = elim (Bool-cases env.phase8_violated) [
        | inl e ↦ simp e (halt_with-IsSafe env phase8_violation _ w h tt)
        | inr e ↦ simp e (cycle_from-IsSafe w.state w (record { safe = h; state = refl }))
      ]

-- A call of the follower's loop or of its operator, in the environment of that moment.
pub data Call : Type 0 where
  a_cycle a_resume : Env → Call
  a_resolve : Env → (kase target : String) → Call

abbrev world_of : Result (Unit {0}) × World → World
world_of (r, w) = w

abbrev pub call : Call → World → World
call (a_cycle env) w = world_of (cycle env w)
call (a_resume env) w = world_of (resume env w)
call (a_resolve env kase target) w = world_of (resolve env kase target w)

abbrev pub calls : List Call → World → World
calls [] w = w
calls (c ∷ rest) w = calls rest (call c w)

IsSafe-world : (r : Result (Unit {0}) × World) → Post (λ u. IsSafe) IsSafe r → IsSafe (world_of r)
IsSafe-world (ok u, w) h = h
IsSafe-world (err e, w) h = h

call-IsSafe : (c : Call) (w : World) → IsSafe w → IsSafe (call c w)
call-IsSafe (a_cycle env) w h = IsSafe-world _ ((cycle-IsSafe env).at w h)
call-IsSafe (a_resume env) w h = IsSafe-world _ ((resume-IsSafe env).at w h)
call-IsSafe (a_resolve env kase target) w h =
    IsSafe-world _ ((resolve-IsSafe env kase target).at w h)

-- From a safe world, after any sequence of polls, resumes and resolutions, each in its own
-- environment with its own failures, the world is safe: each migration and each undo so far ran
-- while the subscription was disabled or absent; while a step between `log` and `undo` is in
-- progress, or kept by a halt, the subscription is disabled or absent; and while the step `enable`
-- is, the versions of the migration are recorded as applied.
pub calls-IsSafe : (cs : List Call) (w : World) → IsSafe w → IsSafe (calls cs w)
calls-IsSafe [] w h = h
calls-IsSafe (c ∷ rest) w h = calls-IsSafe rest (call c w) (call-IsSafe c w h)
