-- ===== src/Follower/Cycle.antt =====
-- One poll: `pub_snapshot`, `record_heads`, `_compare_heads`, `cycle` and `settled` of
-- local/postgres/lib/qpg/follower.py.
pub mod Safety
use qontinui_stack.Prelude.{
  ℕ, zero, suc, ◌+◌, ◌≤◌, String, ◌≡◌, refl, Bool, true, false, not, ◌&&◌, ◌||◌, Option, none, some,
  List, [], ◌∷◌, ◌++◌, elem, any, arith, ltb, leb, ◌==◌, if◌then◌else◌,
}
use qontinui_stack.Python.{concat}
use qontinui_stack.Python.Lists.{sorted, without, same_texts}
use qontinui_stack.Follower.Types.{
  Stall, Detail, Reason, StateRow, idle, in_progress, halted, HaltDetail, phase8_violation,
  parallel_streaming, several_heads, marker_did_not_fire, Error, halt, pg_error, config_error,
  Result, ok, err, Snapshot, VersionRow, Head, Other, no_other, empty_other, filled_other, stepless,
  unknown_step, key_error,
}
use qontinui_stack.Follower.Effects.{
  Act, recorded_heads, cleared_mismatch, marked_mismatch, World, Env, M, ◌>>=◌, ◌>>◌, pure, raise,
  query, gets, execute,
}
use qontinui_stack.Follower.Shape.{halt_plain, sub_oid}
use qontinui_stack.Follower.Machine.{advance}
use qontinui_stack.Follower.Halting.{halt_with}
use qontinui_stack.Follower.Stalls.{current_stall, handle_stall, caught_up}

pub data Status : Type 0 where
  is_idle is_in_progress is_halted : Status

abbrev pub status_of : StateRow → Status
status_of (idle at) = is_idle
status_of (in_progress detail) = is_in_progress
status_of stepless = is_in_progress
status_of (halted reason detail) = is_halted

abbrev versions_of : List VersionRow → List String
versions_of [] = []
versions_of (r ∷ rest) = r.version ∷ versions_of rest

-- sorted({r["v"] for r in rows})
abbrev version_set : List String → List String
version_set [] = []
version_set (v ∷ rest) = v ∷ without v (version_set rest)

abbrev written_by : String → List VersionRow → List String
written_by xmin [] = []
written_by xmin (r ∷ rest) =
    if r.xmin == xmin then r.version ∷ written_by xmin rest else written_by xmin rest

abbrev web_heads : List String → List VersionRow → List Head
web_heads versions [] = []
web_heads versions (r ∷ rest) =
    record { source = "web"; writer_xid = r.xmin; versions = versions } ∷ web_heads versions rest

abbrev lane_heads : String → List VersionRow → List VersionRow → List Head
lane_heads lane all_rows [] = []
lane_heads lane all_rows (r ∷ rest) =
    record {
      source = concat ("coord:" ∷ lane ∷ []);
      writer_xid = r.xmin;
      versions = sorted (written_by r.xmin all_rows);
    }
    ∷ lane_heads lane all_rows rest

abbrev coord_heads : List (String × List VersionRow) → List Head
coord_heads [] = []
coord_heads ((lane, rows) ∷ rest) = lane_heads lane rows rows ++ coord_heads rest

abbrev same_key : Head → Head → Bool
same_key a b = a.source == b.source && a.writer_xid == b.writer_xid

-- ON CONFLICT DO NOTHING: the first observation of a transaction stays.
unfoldable pub add_heads : List Head → List Head → List Head
add_heads heads [] = heads
add_heads heads (h ∷ rest) =
    add_heads (if any (same_key h) heads then heads else heads ++ h ∷ []) rest

-- DELETE of the observations that are more than 30 days old.
unfoldable pub prune : (Head → Bool) → List Head → List Head
prune is_old [] = []
prune is_old (h ∷ rest) = let kept = prune is_old rest in if is_old h then kept else h ∷ kept

abbrev lookup_lane : String → List (String × List String) → List String
lookup_lane lane [] = []
lookup_lane lane ((l, versions) ∷ rest) = if l == lane then versions else lookup_lane lane rest

abbrev lanes_agree : List (String × List String) → List (String × List VersionRow) → Bool
lanes_agree here [] = true
lanes_agree here ((lane, rows) ∷ rest) =
    same_texts (lookup_lane lane here) (sorted (versions_of rows)) && lanes_agree here rest

abbrev several : List VersionRow → Bool
several [] = false
several (r ∷ []) = false
several (r ∷ s ∷ rest) = true

abbrev halt_if : Bool → Reason → M (Unit {0})
halt_if true reason = raise (halt_plain reason)
halt_if false reason = pure tt

module _ (env : Env) where
  unfoldable pub pub_snapshot : M Snapshot
  pub_snapshot = do
    snap ← query env.pub_snapshot
    halt_if (several snap.web) several_heads
    pure snap

  unfoldable pub record_heads : Snapshot → M (Unit {0})
  unfolding add_heads prune
  record_heads snap =
      let new =
        web_heads (sorted (version_set (versions_of snap.web))) snap.web
        ++ coord_heads snap.coord in
      execute env recorded_heads
        (λ w. record w { heads = prune (env.is_old w) (add_heads w.heads new) })

  abbrev and_lanes : Snapshot → Bool → Bool → M Bool
  and_lanes snap same false = pure same
  and_lanes snap same true = do
    here ← query env.local_coord_versions
    pure (same && lanes_agree here snap.coord)

  unfoldable pub heads_agree : Snapshot → M Bool
  heads_agree snap = do
    web ← query env.local_web_versions
    and_lanes snap (same_texts (sorted (version_set (versions_of snap.web))) web) env.coord_lane

  abbrev settle_mismatch : Snapshot → Bool → M (Unit {0})
  settle_mismatch snap true = execute env cleared_mismatch (λ w. record w { mismatch = false })
  settle_mismatch snap false = do
    execute env marked_mismatch (λ w. record w { mismatch = true })
    passed ← caught_up env snap.lsn
    halt_if passed marker_did_not_fire

  -- `_compare_heads`: apply that passed a moved head without a stall halts the follower.
  unfoldable pub compare_heads : Snapshot → M (Unit {0})
  compare_heads snap = do same ← heads_agree snap; settle_mismatch snap same

  abbrev with_stall : Snapshot → Option Stall → M (Unit {0})
  with_stall snap (some stall) = do handle_stall env stall; query env.read_state
  with_stall snap none = compare_heads snap

  abbrev by_state : Snapshot → StateRow → M (Unit {0})
  by_state snap (in_progress detail) = do advance env detail; query env.read_state
  by_state snap stepless = raise (halt_plain unknown_step)
  by_state snap row = do stall ← current_stall env; with_stall snap stall

  -- The body of the `try` of `cycle`.
  unfoldable pub poll : StateRow → M (Unit {0})
  poll row = do
    sub_oid
    streaming ← query env.substream
    halt_if (streaming == "p") parallel_streaming
    snap ← pub_snapshot
    record_heads snap
    by_state snap row

  abbrev pub kept_detail : StateRow → Option Detail
  kept_detail (in_progress detail) = some detail
  kept_detail row = none

  abbrev kept_other : StateRow → Other
  kept_other stepless = filled_other
  kept_other row = no_other

  abbrev kept_halt : Option String → List String → World → HaltDetail
  kept_halt kase targets w = record {
    in_progress = kept_detail w.state;
    other = kept_other w.state;
    kase = kase;
    targets = targets;
    disabled_by_halt = false;
  }

  -- `except Halt`: the state is read again, and the step in progress is kept in the halt's detail.
  -- Other errors go up.
  unfoldable pub catch_halt : Result (Unit {0}) × World → Result (Unit {0}) × World
  catch_halt (ok u, w) = (ok u, w)
  catch_halt (err (halt reason kase targets), w) =
      (do query env.read_state; halt_with env reason (kept_halt kase targets w)) w
  catch_halt (err (pg_error label), w) = (err (pg_error label), w)
  catch_halt (err config_error, w) = (err config_error, w)
  catch_halt (err key_error, w) = (err key_error, w)

  abbrev cycle_from : StateRow → M (Unit {0})
  cycle_from (halted reason detail) w = (ok tt, w)
  cycle_from (idle at) w = catch_halt (poll (idle at) w)
  cycle_from (in_progress detail) w = catch_halt (poll (in_progress detail) w)
  cycle_from stepless w = catch_halt (poll stepless w)

  -- `cycle`, whose returned status is that of the state it leaves.
  unfoldable pub cycle : M (Unit {0})
  cycle w =
      if env.phase8_violated
      then halt_with env phase8_violation
          (record {
            in_progress = none;
            other = no_other;
            kase = none;
            targets = [];
            disabled_by_halt = false;
          })
          w
      else cycle_from w.state w

  -- `settled`: idle, heads equal, and apply caught up to `lsn`, the publisher's position now.
  unfoldable pub settled : (lsn : String) → M Bool
  settled lsn w = elim (status_of w.state) [
    | is_idle ↦ if w.mismatch then (ok false, w) else caught_up env lsn w
    | is_in_progress ↦ (ok false, w)
    | is_halted ↦ (ok false, w)
  ]
