-- ===== src/Follower/Effects.antt =====
-- The two databases as the follower of local/postgres/lib/qpg/follower.py sees them. The subscriber's
-- part that the follower owns is the state; all else that it reads, and whether a statement
-- fails, is the environment's choice at each moment.
pub mod Triples
use qontinui_stack.Prelude.{
  ℕ, String, ◌≡◌, refl, Bool, true, false, Option, none, some, List, [], ◌∷◌, ◌++◌,
}
use qontinui_stack.Follower.Types.{
  Stall, Table, Detail, StateRow, Error, pg_error, Result, ok, err, Snapshot, Head, Applied,
  Resolution, Owed, Rewrite,
}

-- A statement that was carried out. `migrated` and `undone` keep whether the subscription was
-- enabled at that moment.
pub data Act : Type 0 where
  disabled enabled refreshed truncated_log dropped_triggers wrote_state : Act
  recorded_heads cleared_mismatch marked_mismatch resolved : Act
  event : String → Act
  installed_triggers : (on : List String) → Act
  migrated : (source version : String) (subscription : Option Bool) → Act
  undone : (xid : String) (subscription : Option Bool) → Act

-- `subscription` is `subenabled`, none where there is no subscription; `trace` is what was carried
-- out so far, the last first.
pub record World : Type 0 where
  pub state : StateRow
  pub subscription : Option Bool
  pub triggers : Bool
  pub heads : List Head
  pub applied : List Applied
  pub resolutions : List Resolution
  pub owed : List Owed
  pub mismatch : Bool
  pub trace : List Act

-- A command of a migration: the one that prepares a version, or the one that migrates to it.
pub record Command : Type 0 where
  pub prepare : Bool
  pub version : String

pub record Env : Type 0 where
  -- the label of the PgError that a statement raises; it then changes nothing
  pub fault : Act → World → Option String
  pub coord_lane : Bool
  pub phase8_violated : Bool
  pub stall_fresh : ℕ
  -- the read of the state's row
  pub read_state : World → Result (Unit {0})
  -- whether a row of `publisher_heads` was observed more than 30 days ago
  pub is_old : World → Head → Bool
  -- the table that a target of a halt names on the subscriber, as schema.table
  pub relation_named : (target : String) → World → Result (Option String)
  pub substream : World → Result String
  pub pub_snapshot : World → Result Snapshot
  pub latest_apply_error : World → Result (Option Stall)
  -- of an apply error: the origin's progress, its age in seconds, logged before the last enable
  pub error_context : Stall → World → Result (Option String × ℕ × Bool)
  pub flushed_lsn : World → Result (Option String)
  pub sync_pending : World → Result Bool
  pub publication_tables : World → Result (List String)
  pub subscribed_tables : World → Result (List String)
  pub moved_out_of_publication : World → Result (List (String × String))
  pub syncs_in_flight : World → Result (List String)
  pub scope_snapshot : World → Result (List Table)
  -- `oid:attnum` with the column's name and stored value; and the publisher's stored value
  pub missing_value_columns : List Table → World → Result (List (String × String × String × String))
  pub publisher_value : (table column : String) → World → Result (Option String)
  pub max_attnums : List Table → World → Result (List (String × ℕ))
  pub gained_columns : (oid : String) (after : ℕ) → World → Result (List String)
  pub partition_parent : (oid : String) → World → Result String
  pub changed_keys : World → Result (List String)
  pub rewrites : World → Result (List Rewrite)
  pub local_web_versions : World → Result (List String)
  pub local_coord_versions : World → Result (List (String × List String))
  pub workers_exited : World → Result Bool
  -- whether `prepare_cmd` is configured, and the exit status of a migration command
  pub prepares : Bool
  pub run_command : (source : String) → Command → World → Result ℕ
  pub now : World → Result String

abbrev pub M : Type 0 → Type 0
M A = World → Result A × World

abbrev pub continue : {A B : Type 0} → Result A → (A → M B) → M B
continue (ok a) f w = f a w
continue (err e) f w = (err e, w)

infixl 5 ◌>>=◌ ◌>>◌
abbrev pub ◌>>=◌ : {A B : Type 0} → M A → (A → M B) → M B
◌>>=◌ m f w = let (r, w') = m w in continue r f w'

abbrev pub ◌>>◌ : {A B : Type 0} → M A → M B → M B
m >> n = m >>= λ _. n

abbrev pub pure : {A : Type 0} → A → M A
pure a w = (ok a, w)

abbrev pub raise : {A : Type 0} → Error → M A
raise e w = (err e, w)

-- A query: it changes nothing.
abbrev pub query : {A : Type 0} → (World → Result A) → M A
query f w = (f w, w)

abbrev pub gets : {A : Type 0} → (World → A) → M A
gets f w = (ok (f w), w)

-- What ran outside the database.
abbrev pub note : Act → M (Unit {0})
note act w = (ok tt, record w { trace = act ∷ w.trace })

abbrev pub outcome : Option String → Act → (World → World) → M (Unit {0})
outcome (some label) act effect w = (err (pg_error label), w)
outcome none act effect w = (ok tt, record (effect w) { trace = act ∷ w.trace })

-- `admin.execute`: one transaction, which fails as a whole or takes effect.
unfoldable pub execute : Env → Act → (World → World) → M (Unit {0})
execute env act effect w = outcome (env.fault act w) act effect w

unfoldable pub set_state : Env → StateRow → M (Unit {0})
set_state env row = execute env wrote_state (λ w. record w { state = row })

unfoldable pub log_event : Env → String → M (Unit {0})
log_event env kind = execute env (event kind) (λ w. w)
