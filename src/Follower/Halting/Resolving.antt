-- ===== src/Follower/Halting/Resolving.antt =====
-- Resolving a case of a halt, and the invariant of local/postgres/lib/qpg/follower.py.
use qontinui_stack.Prelude.{
  String, Bool, true, false, Option, none, some, List, [], ◌∷◌, elem, ◌==◌, ◌||◌, Bool-cases, inl,
  inr,
}
use qontinui_stack.Follower.Types.{
  Error, config_error, Detail, StateRow, idle, in_progress, halted, HaltDetail, Owed, Other,
  no_other, empty_other, filled_other, stepless,
}
use qontinui_stack.Follower.Effects.{resolved, Env, execute}
use qontinui_stack.Follower.Effects.Triples.{Triple, bind, of_execute, of_pure, of_query, of_raise}
use qontinui_stack.Follower.Shape.Reads.{sub_oid-keeps, unresolved-keeps}
use qontinui_stack.Follower.Machine.Safety.{IsSafe}
use qontinui_stack.Follower.Machine.Safety.Parts.{log_event-IsSafe}
use qontinui_stack.Follower.Halting.{
  resolvable, check, add_resolution, owe_table, owing, add_owed, resume_when_done, resolve_in,
  resolve_row, resolve, same_case, resolve_other,
}
use qontinui_stack.Follower.Halting.Safety.{resume-IsSafe}

module _ (env : Env) where
  check-IsSafe : (b : Bool) (e : Error) → Triple IsSafe (check b e) (λ u. IsSafe) IsSafe
  check-IsSafe true e = of_pure _ tt (λ w h. h)
  check-IsSafe false e = of_raise e (λ w h. h)

  resume_when_done-IsSafe :
      (open_targets : List String)
      → Triple IsSafe (resume_when_done env open_targets) (λ u. IsSafe) IsSafe
  resume_when_done-IsSafe [] = resume-IsSafe env
  resume_when_done-IsSafe (t ∷ ts) = of_pure _ tt (λ w h. h)

  owe_table-IsSafe :
      (xid kase : String) (name : Option String)
      → Triple IsSafe (owe_table xid kase name) (λ owed. IsSafe) IsSafe
  owe_table-IsSafe xid kase (some name) = of_pure _ _ (λ w h. h)
  owe_table-IsSafe xid kase none = of_raise _ (λ w h. h)

  owing-IsSafe :
      (xid kase target : String) → Triple IsSafe (owing env xid kase target) (λ owed. IsSafe) IsSafe
  unfolding owing
  owing-IsSafe xid kase target = elim (Bool-cases (kase == "rewrite" || kase == "key-change")) [
    | inl e ↦ rw e (
        bind _ (of_query (env.relation_named target) (λ w h. h))
          (λ name. owe_table-IsSafe xid kase name))
    | inr e ↦ rw e (of_pure _ _ (λ w h. h))
  ]

  record_resolution :
      (xid kase target : String) (owed : List Owed)
      → Triple IsSafe
          (execute env resolved
            (λ w. record (add_resolution xid kase target w) { owed = add_owed owed w.owed }))
          (λ u. IsSafe)
          IsSafe
  record_resolution xid kase target owed =
      of_execute env resolved _ (λ w h. record { quiet = (tt, h.quiet); row = h.row }) (λ w h. h)

  resolve_other-IsSafe :
      (kase target : String) (detail : HaltDetail) (other : Other)
      → Triple IsSafe (resolve_other kase target detail other) (λ u. IsSafe) IsSafe
  resolve_other-IsSafe kase target detail filled_other =
      bind _ (check-IsSafe (same_case detail.kase kase) config_error) (λ a.
        bind _ (check-IsSafe (elem target detail.targets) config_error)
          (λ b. bind _ (sub_oid-keeps (λ w h. h)) (λ c. of_raise _ (λ w h. h))))
  resolve_other-IsSafe kase target detail no_other = of_raise _ (λ w h. h)
  resolve_other-IsSafe kase target detail empty_other = of_raise _ (λ w h. h)

  resolve_in-IsSafe :
      (kase target : String) (detail : HaltDetail) (kept : Option Detail)
      → Triple IsSafe (resolve_in env kase target detail kept) (λ u. IsSafe) IsSafe
  resolve_in-IsSafe kase target detail none = resolve_other-IsSafe kase target detail detail.other
  resolve_in-IsSafe kase target detail (some prior) =
      bind _ (check-IsSafe (same_case detail.kase kase) config_error) (λ a.
        bind _ (check-IsSafe (elem target detail.targets) config_error) (λ b.
          bind _ (sub_oid-keeps (λ w h. h)) (λ c.
            bind _ (owing-IsSafe prior.xid kase target) (λ owed.
              bind _ (record_resolution prior.xid kase target owed) (λ d.
                bind _ (log_event-IsSafe env "resolved") (λ e.
                  bind _ (unresolved-keeps (λ w h. h) prior.xid kase detail.targets)
                    (λ remaining. resume_when_done-IsSafe remaining)))))))

  resolve_row-IsSafe :
      (kase target : String) (row : StateRow)
      → Triple IsSafe (resolve_row env kase target row) (λ u. IsSafe) IsSafe
  resolve_row-IsSafe kase target (halted reason detail) =
      resolve_in-IsSafe kase target detail detail.in_progress
  resolve_row-IsSafe kase target (idle at) = of_raise _ (λ w h. h)
  resolve_row-IsSafe kase target (in_progress d) = of_raise _ (λ w h. h)
  resolve_row-IsSafe kase target stepless = of_raise _ (λ w h. h)

  pub resolve-IsSafe :
      (kase target : String) → Triple IsSafe (resolve env kase target) (λ u. IsSafe) IsSafe
  unfolding resolve
  resolve-IsSafe kase target = record {
    at = λ w h.
        (bind {P = IsSafe} (λ u. IsSafe) (check-IsSafe (elem kase resolvable) config_error)
            (λ u. resolve_row-IsSafe kase target w.state)).at
          w h;
  }
