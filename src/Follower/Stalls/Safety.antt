-- ===== src/Follower/Stalls/Safety.antt =====
-- Handling a stall, and the invariant of local/postgres/lib/qpg/follower.py.
use qontinui_stack.Prelude.{
  String, ◌≡◌, refl, Bool, true, false, not, ◌&&◌, Option, none, some, elem,
}
use qontinui_stack.Follower.Types.{
  Stall, Detail, disable, StateRow, in_progress, Reason, refused_sqlstate, coord_lane_off,
  moved_out, Head,
}
use qontinui_stack.Follower.Effects.{wrote_state, event, World, Env, set_state, log_event}
use qontinui_stack.Follower.Effects.Triples.{
  Triple, bind, of_query, of_execute, of_pure, of_raise, of_read, of_if,
}
use qontinui_stack.Follower.Machine.{advance}
use qontinui_stack.Follower.Machine.Safety.{IsSafe}
use qontinui_stack.Follower.Machine.Safety.Advance.{advance-IsSafe}
use qontinui_stack.Follower.Stalls.{
  halt_if, stuck_or_none, current_stall, when_reached, reached, caught_up, first_detail, is_true,
  begin, starts_coord, non_empty, refused_sqlstates, handle_migration, handle_identified, identify,
  already_processed, restall_reason, handle_stall,
}

-- Safe, with a given row.
pub record IsAt (row : StateRow) (w : World) : Type 0 where
  pub safe : IsSafe w
  pub state : w.state ≡ row

module _ (env : Env) where
  pub halt_if-keeps :
      {P E : World → Type 0} (b : Bool) (reason : Reason)
      → ((w : World) → P w → E w)
      → Triple P (halt_if b reason) (λ u. P) E
  halt_if-keeps true reason pe = of_raise _ pe
  halt_if-keeps false reason pe = of_pure _ tt (λ w p. p)

  persist :
      (row : Detail)
      → row.step ≡ disable
      → Triple IsSafe (set_state env (in_progress row)) (λ u. IsAt (in_progress row)) IsSafe
  unfolding set_state
  persist row e =
      of_execute env wrote_state (λ w. record w { state = in_progress row })
        (λ w h. record { safe = record { quiet = (tt, h.quiet); row = rw e tt }; state = refl })
        (λ w h. h)

  pub log_event-IsAt :
      (row : StateRow) (kind : String)
      → Triple (IsAt row) (log_event env kind) (λ u. IsAt row) IsSafe
  unfolding log_event
  log_event-IsAt row kind =
      of_execute env (event kind) (λ w. w)
        (λ w h. record {
          safe = record { quiet = (tt, h.safe.quiet); row = h.safe.row };
          state = h.state;
        })
        (λ w h. h.safe)

  pub advance-IsAt :
      (d : Detail) → Triple (IsAt (in_progress d)) (advance env d) (λ u. IsSafe) IsSafe
  advance-IsAt d = record { at = λ w h. advance-IsSafe env d w h.safe h.state }

  begin-IsSafe :
      (stall : Stall) (head : Head) → Triple IsSafe (begin env stall head) (λ u. IsSafe) IsSafe
  unfolding begin
  begin-IsSafe stall head =
      bind (λ s. IsSafe) (of_read (λ w. w.subscription))
        (λ s.
          bind (λ u. IsAt (in_progress (first_detail stall head (is_true s))))
            (persist (first_detail stall head (is_true s)) refl)
            (λ u.
              bind _ (log_event-IsAt (in_progress (first_detail stall head (is_true s))) "stall")
                (λ v. advance-IsAt (first_detail stall head (is_true s)))))

  handle_migration-IsSafe :
      (stall : Stall) (head : Head)
      → Triple IsSafe (handle_migration env stall head) (λ u. IsSafe) IsSafe
  unfolding handle_migration
  handle_migration-IsSafe stall head =
      bind _ (halt_if-keeps (elem stall.sqlstate refused_sqlstates) refused_sqlstate (λ w h. h))
        (λ a.
          bind _
            (halt_if-keeps (starts_coord head.source && not env.coord_lane) coord_lane_off
              (λ w h. h))
            (λ b. bind _ (of_query env.moved_out_of_publication (λ w h. h)) (λ moved.
              bind _ (halt_if-keeps (non_empty moved) moved_out (λ w h. h)) (λ c.
                bind _ (of_query env.syncs_in_flight (λ w h. h)) (λ syncs.
                  of_if (non_empty syncs) (of_pure _ tt (λ w h. h)) (begin-IsSafe stall head))))))

  handle_identified-IsSafe :
      (stall : Stall) (head : Option Head)
      → Triple IsSafe (handle_identified env stall head) (λ u. IsSafe) IsSafe
  handle_identified-IsSafe stall none = of_raise _ (λ w h. h)
  handle_identified-IsSafe stall (some head) = handle_migration-IsSafe stall head

  pub handle_stall-IsSafe :
      (stall : Stall) → Triple IsSafe (handle_stall env stall) (λ u. IsSafe) IsSafe
  unfolding handle_stall
  handle_stall-IsSafe stall = record {
    at = λ w h.
        (bind {P = IsSafe} (λ u. IsSafe)
            (halt_if-keeps (already_processed stall.xid w.applied) (restall_reason stall)
              (λ v k. k))
            (λ u. handle_identified-IsSafe stall (identify stall.xid w.heads))).at
          w h;
  }

  stuck_or_none-IsSafe :
      (e : Option Stall) → Triple IsSafe (stuck_or_none env e) (λ a. IsSafe) IsSafe
  stuck_or_none-IsSafe none = of_pure _ none (λ w h. h)
  stuck_or_none-IsSafe (some stall) =
      bind _ (of_query (env.error_context stall) (λ w h. h)) (λ context. of_pure _ _ (λ w h. h))

  pub current_stall-IsSafe : Triple IsSafe (current_stall env) (λ a. IsSafe) IsSafe
  unfolding current_stall
  current_stall-IsSafe =
      bind _ (of_query env.latest_apply_error (λ w h. h)) (λ e. stuck_or_none-IsSafe e)

  when_reached-IsSafe : (b : Bool) → Triple IsSafe (when_reached env b) (λ a. IsSafe) IsSafe
  when_reached-IsSafe false = of_pure _ false (λ w h. h)
  when_reached-IsSafe true =
      bind _ (of_query env.sync_pending (λ w h. h)) (λ p. of_pure _ _ (λ w h. h))

  pub caught_up-IsSafe : (lsn : String) → Triple IsSafe (caught_up env lsn) (λ a. IsSafe) IsSafe
  unfolding caught_up
  caught_up-IsSafe lsn =
      bind _ (of_query env.flushed_lsn (λ w h. h))
        (λ flushed. when_reached-IsSafe (reached env flushed lsn))
