-- ===== src/Follower/Stalls.antt =====
-- Apply errors and what they mean: `current_stall`, `caught_up`, `_identify`,
-- `_already_processed`, `_restall_reason` and `_handle_stall` of local/postgres/lib/qpg/follower.py.
pub mod Safety
pub mod Guards
use qontinui_stack.Prelude.{
  ℕ, ◌+◌, ◌≤◌, String, ◌≡◌, refl, Bool, true, false, not, ◌&&◌, ◌||◌, Option, none, some, List, [],
  ◌∷◌, ◌++◌, elem, any, arith, ltb, leb, ◌==◌, if◌then◌else◌,
}
use qontinui_stack.Python.{concat}
use qontinui_stack.Relay.Reasons.{drop_prefix}
use qontinui_stack.Follower.Lsn.{lsn_int}
use qontinui_stack.Follower.Types.{
  Stall, Detail, Reason, Step, disable, StateRow, in_progress, dml_before_ddl, unique_violation,
  failed_again, not_a_migration, refused_sqlstate, coord_lane_off, moved_out, Result, ok, err, Head,
  Applied,
}
use qontinui_stack.Follower.Effects.{
  Act, World, Env, M, ◌>>=◌, ◌>>◌, pure, raise, query, gets, set_state, log_event,
}
use qontinui_stack.Follower.Shape.{halt_plain}
use qontinui_stack.Follower.Machine.{advance}

abbrev refused_sqlstates : List String
refused_sqlstates = "42501" ∷ "P0001" ∷ []

-- An apply error is what apply is stuck on: not applied since, not older than the last enable, and
-- retried recently.
unfoldable pub still_stuck : (fresh : ℕ) → Stall → Option String × ℕ × Bool → Bool
still_stuck fresh stall (progress, age, before_enable) =
    not (leb (lsn_int (some stall.finish_lsn)) (lsn_int progress))
    && (not before_enable && not (ltb fresh age))

abbrev halt_if : Bool → Reason → M (Unit {0})
halt_if true reason = raise (halt_plain reason)
halt_if false reason = pure tt

-- `_identify`: the first head that the transaction wrote.
unfoldable pub identify : String → List Head → Option Head
identify xid [] = none
identify xid (h ∷ rest) = if h.writer_xid == xid then some h else identify xid rest

unfoldable pub already_processed : String → List Applied → Bool
already_processed xid applied = any (λ a. a.xid == xid) applied

unfoldable pub restall_reason : Stall → Reason
restall_reason stall =
    if stall.sqlstate == "55000" || stall.sqlstate == "23502"
    then dml_before_ddl
    else if stall.sqlstate == "23505"
    then unique_violation
    else failed_again

abbrev starts_coord : String → Bool
starts_coord source = elim (drop_prefix "coord:" source) [ none ↦ false | some lane ↦ true ]

abbrev non_empty {ℓ} : {A : Type ℓ} → List A → Bool
non_empty [] = false
non_empty (x ∷ xs) = true

abbrev is_true : Option Bool → Bool
is_true none = false
is_true (some b) = b

abbrev first_detail : Stall → Head → Bool → Detail
first_detail stall head was_enabled = record {
  xid = stall.xid;
  finish_lsn = stall.finish_lsn;
  source = head.source;
  versions = head.versions;
  step = disable;
  was_enabled = was_enabled;
  scope = none;
  missing_before = [];
  attnums_before = [];
  new_tables = [];
}

module _ (env : Env) where
  abbrev stuck_or_none : Option Stall → M (Option Stall)
  stuck_or_none none = pure none
  stuck_or_none (some stall) = do
    context ← query (env.error_context stall)
    pure (if still_stuck env.stall_fresh stall context then some stall else none)

  unfoldable pub current_stall : M (Option Stall)
  current_stall = do error ← query env.latest_apply_error; stuck_or_none error

  abbrev reached : Option String → String → Bool
  reached none lsn = false
  reached (some flushed) lsn = not (ltb (lsn_int (some flushed)) (lsn_int (some lsn)))

  abbrev when_reached : Bool → M Bool
  when_reached false = pure false
  when_reached true = do pending ← query env.sync_pending; pure (not pending)

  -- `caught_up`: the slot has flushed the position, and no table is still syncing.
  unfoldable pub caught_up : String → M Bool
  caught_up lsn = do flushed ← query env.flushed_lsn; when_reached (reached flushed lsn)

  unfoldable pub begin : Stall → Head → M (Unit {0})
  begin stall head = do
    subscription ← gets (λ w. w.subscription)
    let detail = first_detail stall head (is_true subscription)
    set_state env (in_progress detail)
    log_event env "stall"
    advance env detail

  -- The guards on an identified migration, and the wait for table syncs.
  unfoldable pub handle_migration : Stall → Head → M (Unit {0})
  handle_migration stall head = do
    halt_if (elem stall.sqlstate refused_sqlstates) refused_sqlstate
    halt_if (starts_coord head.source && not env.coord_lane) coord_lane_off
    moved ← query env.moved_out_of_publication
    halt_if (non_empty moved) moved_out
    syncs ← query env.syncs_in_flight
    if non_empty syncs then pure tt else begin stall head

  abbrev handle_identified : Stall → Option Head → M (Unit {0})
  handle_identified stall none = raise (halt_plain not_a_migration)
  handle_identified stall (some head) = handle_migration stall head

  unfoldable pub handle_stall : Stall → M (Unit {0})
  handle_stall stall w =
      (do
        halt_if (already_processed stall.xid w.applied) (restall_reason stall)
        handle_identified stall (identify stall.xid w.heads))
        w
