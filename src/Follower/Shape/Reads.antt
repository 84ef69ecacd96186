-- ===== src/Follower/Shape/Reads.antt =====
-- What the checks on the replay shape of local/postgres/lib/qpg/follower.py leave of a world.
use qontinui_stack.Prelude.{ℕ, String, Bool, true, Option, none, some, List, [], ◌∷◌}
use qontinui_stack.Follower.Types.{Error, Detail, Table, Rewrite}
use qontinui_stack.Follower.Effects.{World, Env, pure}
use qontinui_stack.Follower.Effects.Triples.{
  Triple, bind, of_query, of_pure, of_raise, of_read, of_if,
}
use qontinui_stack.Follower.Shape.{
  sub_oid, no_sub, resolved, unresolved, halt_unless_empty, check_keys, check_missing,
  check_renames, check_rewrites, check_replay_shape, is_unsafe, unsafe_rewrites, differing,
}

module _ {P E : World → Type 0} (pe : (w : World) → P w → E w) where
  no_sub-keeps : (s : Option Bool) → Triple P (no_sub s) (λ u. P) E
  no_sub-keeps none = of_raise _ pe
  no_sub-keeps (some b) = of_pure _ tt (λ w p. p)

  pub sub_oid-keeps : Triple P sub_oid (λ u. P) E
  unfolding sub_oid
  sub_oid-keeps = record { at = λ w p. (no_sub-keeps w.subscription).at w p }

  resolved-keeps : (xid kase target : String) → Triple P (resolved xid kase target) (λ a. P) E
  unfolding resolved
  resolved-keeps xid kase target = bind _ sub_oid-keeps (λ u. of_read _)

  then_pure : {A : Type 0} (a : A) → Triple P (pure a) (λ b. P) E
  then_pure a = of_pure _ a (λ w p. p)

  pub unresolved-keeps :
      (xid kase : String) (targets : List String)
      → Triple P (unresolved xid kase targets) (λ a. P) E
  unfolding unresolved
  unresolved-keeps xid kase [] = then_pure []
  unresolved-keeps xid kase (t ∷ rest) =
      bind _ (resolved-keeps xid kase t)
        (λ done. bind _ (unresolved-keeps xid kase rest) (λ more. then_pure _))

  halt_unless_empty-keeps :
      (targets : List String) (e : List String → Error)
      → Triple P (halt_unless_empty targets e) (λ u. P) E
  halt_unless_empty-keeps [] e = then_pure tt
  halt_unless_empty-keeps (t ∷ ts) e = of_raise _ pe

  module _ (env : Env) where
    check_renames-keeps :
        (xid : String) (scope now : List Table)
        → Triple P (check_renames env xid scope now) (λ u. P) E
    unfolding check_renames
    check_renames-keeps xid scope now =
        bind _ (unresolved-keeps xid _ _) (λ open_targets. halt_unless_empty-keeps open_targets _)

    check_keys-keeps : Triple P (check_keys env) (λ u. P) E
    unfolding check_keys
    check_keys-keeps = bind _ (of_query _ pe) (λ changed. halt_unless_empty-keeps changed _)

    is_unsafe-keeps :
        (attnums : List (String × ℕ)) (r : Rewrite) → Triple P (is_unsafe env attnums r) (λ a. P) E
    unfolding is_unsafe
    is_unsafe-keeps attnums r =
        of_if _ (then_pure true) (bind _ (of_query _ pe) (λ gained. then_pure _))

    unsafe_rewrites-keeps :
        (scope : List Table) (attnums : List (String × ℕ)) (rows : List Rewrite)
        → Triple P (unsafe_rewrites env scope attnums rows) (λ a. P) E
    unfolding unsafe_rewrites
    unsafe_rewrites-keeps scope attnums [] = then_pure []
    unsafe_rewrites-keeps scope attnums (r ∷ rest) =
        of_if _ (unsafe_rewrites-keeps scope attnums rest) (
          bind _ (of_query _ pe) (λ table.
            bind _ (is_unsafe-keeps attnums r)
              (λ unsafe. bind _ (unsafe_rewrites-keeps scope attnums rest) (λ more. then_pure _))))

    check_rewrites-keeps :
        (scope : List Table) (attnums : List (String × ℕ))
        → Triple P (check_rewrites env scope attnums) (λ u. P) E
    unfolding check_rewrites
    check_rewrites-keeps scope attnums = bind _ (of_query _ pe) (λ rows.
        bind _ (unsafe_rewrites-keeps scope attnums rows)
          (λ unsafe. halt_unless_empty-keeps unsafe _))

    differing-keeps :
        (xid : String) (scope now : List Table) (before : List String)
        (columns : List (String × String × String × String))
        → Triple P (differing env xid scope now before columns) (λ a. P) E
    unfolding differing
    differing-keeps xid scope now before [] = then_pure []
    differing-keeps xid scope now before ((key, oid, column, value) ∷ rest) =
        of_if _ (differing-keeps xid scope now before rest) (
          bind _ (resolved-keeps xid _ _) (λ done.
            bind _ (of_if done (then_pure none) (of_query _ pe))
              (λ remote. bind _ (differing-keeps xid scope now before rest) (λ more. then_pure _))))

    check_missing-keeps :
        (detail : Detail) (scope now : List Table)
        → Triple P (check_missing env detail scope now) (λ u. P) E
    unfolding check_missing
    check_missing-keeps detail scope now = bind _ (of_query _ pe) (λ columns.
        bind _ (differing-keeps detail.xid scope now _ columns)
          (λ targets. halt_unless_empty-keeps targets _))

    pub check_replay_shape-keeps :
        (detail : Detail) → Triple P (check_replay_shape env detail) (λ u. P) E
    unfolding check_replay_shape
    check_replay_shape-keeps detail = bind _ (of_query _ pe) (λ now.
        bind _ (check_renames-keeps detail.xid _ now) (λ u.
          bind _ check_keys-keeps
            (λ v. bind _ (check_rewrites-keeps _ _) (λ x. check_missing-keeps detail _ now))))
