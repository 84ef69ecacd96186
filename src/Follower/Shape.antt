-- ===== src/Follower/Shape.antt =====
-- The replay shapes that the follower refuses: `_check_replay_shape`, `_check_rewrites`, `_resolved`
-- and `sub_oid` of local/postgres/lib/qpg/follower.py.
pub mod Reads
use qontinui_stack.Prelude.{
  ℕ, ◌+◌, ◌/◌, ◌%◌, String, ◌≡◌, refl, Bool, true, false, not, ◌&&◌, ◌||◌, Option, none, some, List,
  [], ◌∷◌, ◌++◌, elem, any, arith, nat_eq, ◌==◌, if◌then◌else◌,
}
use qontinui_stack.Python.{concat}
use qontinui_stack.Python.Lists.{sorted, without}
use qontinui_stack.Follower.Types.{
  Table, Detail, Reason, Error, halt, no_subscription, renamed, key_changed, rewritten,
  missing_values, Result, ok, err, Resolution, Rewrite,
}
use qontinui_stack.Follower.Effects.{World, Env, M, ◌>>=◌, ◌>>◌, pure, raise, query, gets}

abbrev pub halt_plain : Reason → Error
halt_plain reason = halt reason none []

abbrev pub halt_case : Reason → String → List String → Error
halt_case reason kase targets = halt reason (some kase) targets

abbrev pub lookup_table : String → List Table → Option Table
lookup_table oid [] = none
lookup_table oid (t ∷ rest) = if t.oid == oid then some t else lookup_table oid rest

abbrev pub name_in : String → List Table → Option String
name_in oid tables = elim (lookup_table oid tables) [ none ↦ none | some t ↦ some t.name ]

abbrev no_sub : Option Bool → M (Unit {0})
no_sub none = raise (halt_plain no_subscription)
no_sub (some enabled) = pure tt

-- `sub_oid`: there is a subscription.
unfoldable pub sub_oid : M (Unit {0})
sub_oid w = no_sub w.subscription w

abbrev is_resolution : (xid kase target : String) → Resolution → Bool
is_resolution xid kase target r = r.xid == xid && (r.kase == kase && r.target == target)

unfoldable pub recorded : (xid kase target : String) → World → Bool
recorded xid kase target w = any (is_resolution xid kase target) w.resolutions

unfoldable pub resolved : (xid kase target : String) → M Bool
unfolding sub_oid
resolved xid kase target = do sub_oid; gets (recorded xid kase target)

-- The targets of a case that no recorded resolution names.
unfoldable pub unresolved : (xid kase : String) → List String → M (List String)
unresolved xid kase [] = pure []
unresolved xid kase (t ∷ rest) = do
  done ← resolved xid kase t
  more ← unresolved xid kase rest
  pure (if done then more else t ∷ more)

-- The new names of the tables whose name changed while their OID stayed.
unfoldable pub renamed_targets : List Table → List Table → List String
renamed_targets [] now = []
renamed_targets (t ∷ scope) now = elim (name_in t.oid now) [
  | none ↦ renamed_targets scope now
  | some name ↦
      if name == t.name then renamed_targets scope now else name ∷ renamed_targets scope now
]

abbrev halt_unless_empty : List String → (List String → Error) → M (Unit {0})
halt_unless_empty [] e = pure tt
halt_unless_empty (t ∷ ts) e = raise (e (t ∷ ts))

abbrev attnum_of : String → List (String × ℕ) → ℕ
attnum_of oid [] = 0
attnum_of oid ((o, n) ∷ rest) = if o == oid then n else attnum_of oid rest

abbrev is_some : Option Table → Bool
is_some none = false
is_some (some t) = true

-- `int(reason) & 2`
abbrev pub volatile_default : ℕ → Bool
volatile_default reason = nat_eq (reason / 2 % 2) 1

abbrev non_empty : List String → Bool
non_empty [] = false
non_empty (x ∷ xs) = true

abbrev pub scope_of : Option (List Table) → List Table
scope_of none = []
scope_of (some tables) = tables

module _ (env : Env) where
  -- Whether a rewrite of a table in scope loses the publisher's values.
  unfoldable pub is_unsafe : List (String × ℕ) → Rewrite → M Bool
  is_unsafe attnums r = if r.dml_before || volatile_default r.reason then pure true else (do
    gained ← query (env.gained_columns r.oid (attnum_of r.oid attnums))
    pure (non_empty gained))

  -- The tables to name, a partition by its parent.
  unfoldable pub unsafe_rewrites : List Table → List (String × ℕ) → List Rewrite → M (List String)
  unsafe_rewrites scope attnums [] = pure []
  unsafe_rewrites scope attnums (r ∷ rest) =
      if not (is_some (lookup_table r.oid scope)) then unsafe_rewrites scope attnums rest else (do
        table ← query (env.partition_parent r.oid)
        unsafe ← is_unsafe attnums r
        more ← unsafe_rewrites scope attnums rest
        pure (if unsafe then table ∷ without table more else more))

  unfoldable pub check_rewrites : List Table → List (String × ℕ) → M (Unit {0})
  unfolding unsafe_rewrites is_unsafe
  check_rewrites scope attnums = do
    rows ← query env.rewrites
    unsafe ← unsafe_rewrites scope attnums rows
    halt_unless_empty unsafe (λ targets. halt_case rewritten "rewrite" (sorted targets))

  abbrev table_name : String → List Table → List Table → String
  table_name oid now scope = elim (name_in oid now) [
    | some name ↦ name
    | none ↦ elim (name_in oid scope) [ none ↦ "" | some name ↦ name ]
  ]

  abbrev differs : Option String → String → Bool
  differs none value = true
  differs (some remote) value = not (remote == value)

  -- The columns the migration added with a stored value that the publisher does not have. The
  -- environment lists the columns in the order of their keys.
  unfoldable pub differing :
      (xid : String) (scope now : List Table) (before : List String)
      → List (String × String × String × String)
      → M (List String)
  differing xid scope now before [] = pure []
  differing xid scope now before ((key, oid, column, value) ∷ rest) =
      if elem key before then differing xid scope now before rest else (do
        let table = table_name oid now scope
        let target = concat (table ∷ "." ∷ column ∷ [])
        done ← resolved xid "missing-value" target
        remote ← (if done then pure none else query (env.publisher_value table column))
        more ← differing xid scope now before rest
        pure (if done then more else if differs remote value then target ∷ more else more))

  unfoldable pub check_renames : (xid : String) → List Table → List Table → M (Unit {0})
  check_renames xid scope now = do
    open_targets ← unresolved xid "rename" (renamed_targets scope now)
    halt_unless_empty open_targets (halt_case renamed "rename")

  unfoldable pub check_keys : M (Unit {0})
  check_keys = do
    changed ← query env.changed_keys
    halt_unless_empty changed (halt_case key_changed "key-change")

  unfoldable pub check_missing : Detail → List Table → List Table → M (Unit {0})
  check_missing detail scope now = do
    columns ← query (env.missing_value_columns scope)
    targets ← differing detail.xid scope now detail.missing_before columns
    halt_unless_empty targets (halt_case missing_values "missing-value")

  unfoldable pub check_replay_shape : Detail → M (Unit {0})
  check_replay_shape detail = do
    now ← query env.scope_snapshot
    check_renames detail.xid (scope_of detail.scope) now
    check_keys
    check_rewrites (scope_of detail.scope) detail.attnums_before
    check_missing detail (scope_of detail.scope) now
