-- ===== src/Follower/Stalls/Guards.antt =====
-- Which apply errors the follower of local/postgres/lib/qpg/follower.py acts on.
use qontinui_stack.Prelude.{
  String, ◌≡◌, refl, false, not, ◌&&◌, Option, none, some, List, [], ◌∷◌, ◌⊎◌, inl, inr, elem,
  Bool-cases,
}
use qontinui_stack.Follower.Types.{Stall, Head, Result, ok, err}
use qontinui_stack.Follower.Effects.{World, Env}
use qontinui_stack.Follower.Stalls.{
  begin, starts_coord, refused_sqlstates, handle_migration, handle_identified, identify,
  already_processed, handle_stall,
}

-- The stall is a migration of the publisher that was not processed before, whose error may be a
-- missing migration, in a lane that is on, while no table left the publication and no table is
-- syncing.
pub record IsMigration (env : Env) (stall : Stall) (w : World) (head : Head) : Type 0 where
  pub unprocessed : already_processed stall.xid w.applied ≡ false
  pub identified : identify stall.xid w.heads ≡ some head
  pub accepted : elem stall.sqlstate refused_sqlstates ≡ false
  pub lane : starts_coord head.source && not env.coord_lane ≡ false
  pub in_place : env.moved_out_of_publication w ≡ ok []
  pub settled : env.syncs_in_flight w ≡ ok []

-- On a migration to replay, the follower begins the replay.
handle_stall-begins :
    (env : Env) (stall : Stall) (w : World) (head : Head)
    → IsMigration env stall w head
    → handle_stall env stall w ≡ begin env stall head w
unfolding handle_stall handle_migration
handle_stall-begins env stall w head h =
    simp (h.unprocessed, h.identified, h.accepted, h.lane, h.in_place, h.settled) refl

module _ (env : Env) (stall : Stall) (w : World) where
  -- Acting is either justified, or nothing is changed.
  Guarded : Result (Unit {0}) × World → Type 0
  Guarded r = ((head : Head) × IsMigration env stall w head) ⊎ (r.1 ≡ w)

  by_syncs :
      (head : Head) (syncs : Result (List String))
      → already_processed stall.xid w.applied ≡ false
      → identify stall.xid w.heads ≡ some head
      → elem stall.sqlstate refused_sqlstates ≡ false
      → starts_coord head.source && not env.coord_lane ≡ false
      → env.moved_out_of_publication w ≡ ok []
      → env.syncs_in_flight w ≡ syncs
      → Guarded (handle_migration env stall head w)
  unfolding Guarded handle_migration
  by_syncs head (ok []) a b c d e f = inl (
    head,
    record { unprocessed = a; identified = b; accepted = c; lane = d; in_place = e; settled = f },
  )
  by_syncs head (ok (s ∷ rest)) a b c d e f = inr (simp (c, d, e, f) refl)
  by_syncs head (err x) a b c d e f = inr (simp (c, d, e, f) refl)

  by_moved :
      (head : Head) (moved : Result (List (String × String)))
      → already_processed stall.xid w.applied ≡ false
      → identify stall.xid w.heads ≡ some head
      → elem stall.sqlstate refused_sqlstates ≡ false
      → starts_coord head.source && not env.coord_lane ≡ false
      → env.moved_out_of_publication w ≡ moved
      → Guarded (handle_migration env stall head w)
  unfolding Guarded handle_migration
  by_moved head (ok []) a b c d e = by_syncs head _ a b c d e refl
  by_moved head (ok (m ∷ rest)) a b c d e = inr (simp (c, d, e) refl)
  by_moved head (err x) a b c d e = inr (simp (c, d, e) refl)

  by_lane :
      (head : Head)
      → already_processed stall.xid w.applied ≡ false
      → identify stall.xid w.heads ≡ some head
      → Guarded (handle_migration env stall head w)
  unfolding Guarded handle_migration
  by_lane head a b = elim (Bool-cases (elem stall.sqlstate refused_sqlstates)) [
    | inl c ↦ inr (simp (c) refl)
    | inr c ↦ elim (Bool-cases (starts_coord head.source && not env.coord_lane)) [
      | inl d ↦ inr (simp (c, d) refl)
      | inr d ↦ by_moved head _ a b c d refl
    ]
  ]

  by_head :
      (m : Option Head)
      → already_processed stall.xid w.applied ≡ false
      → identify stall.xid w.heads ≡ m
      → Guarded (handle_identified env stall m w)
  unfolding Guarded
  by_head none a b = inr refl
  by_head (some head) a b = by_lane head a b

  -- Handling a stall leaves the databases and the state as they are, unless the stall is a migration
  -- to replay: of a transaction not processed before, identified by a publisher head, with an error
  -- that a missing migration may cause, in a lane that is on, with no table moved out or syncing.
  pub handle_stall-guarded :
      ((head : Head) × IsMigration env stall w head) ⊎ ((handle_stall env stall w).1 ≡ w)
  unfolding handle_stall Guarded
  handle_stall-guarded = elim (Bool-cases (already_processed stall.xid w.applied)) [
    | inl a ↦ inr (simp a refl)
    | inr a ↦ simp a (by_head _ a refl)
  ]
