-- ===== src/Follower/Types.antt =====
-- The data of local/postgres/lib/qpg/follower.py: stalls, the persisted step with its detail, the
-- row `follower.state`, and why the follower halts.
use qontinui_stack.Prelude.{ℕ, String, Bool, Option, List}

pub record Stall : Type 0 where
  pub xid : String
  pub finish_lsn : String
  pub sqlstate : String
  pub message : String
  pub at : String

pub data Step : Type 0 where
  disable log relog migrate undo enable : Step

-- One table in scope, by its OID: its name, whether it is a partition, and apply's key.
pub record Table : Type 0 where
  pub oid : String
  pub name : String
  pub partition : Bool
  pub key : List String

-- The detail of a step in progress.
pub record Detail : Type 0 where
  pub xid : String
  pub finish_lsn : String
  pub source : String
  pub versions : List String
  pub step : Step
  pub was_enabled : Bool
  pub scope : Option (List Table)
  pub missing_before : List String
  pub attnums_before : List (String × ℕ)
  pub new_tables : List String

-- Why the follower halts: one constructor for each place that raises or halts.
pub data Reason : Type 0 where
  phase8_violation no_subscription parallel_streaming several_heads marker_did_not_fire : Reason
  dml_before_ddl unique_violation failed_again : Reason
  not_a_migration refused_sqlstate coord_lane_off moved_out workers_alive : Reason
  migration_failed versions_differ lane_lacks_versions others_unsubscribed : Reason
  renamed key_changed rewritten missing_values : Reason
  step_keeps_failing not_in_a_step unknown_step : Reason

-- What the key `in_progress` of a halt's detail holds where it is no step: the key is absent, or holds an
-- empty dictionary, or another one.
pub data Other : Type 0 where
  no_other empty_other filled_other : Other

-- The detail of a halt; `kase` names a case that an operator can resolve, with its targets.
pub record HaltDetail : Type 0 where
  pub in_progress : Option Detail
  pub other : Other
  pub kase : Option String
  pub targets : List String
  pub disabled_by_halt : Bool

-- The row `follower.state`, whose status decides what its detail holds; `stepless` is in progress, with
-- a detail that is no step.
pub data StateRow : Type 0 where
  idle : (enabled_at : Option String) → StateRow
  in_progress : Detail → StateRow
  stepless : StateRow
  halted : Reason → HaltDetail → StateRow

-- What a call raises: a Halt with its case and targets, a PgError with its label, a ConfigError,
-- a KeyError.
pub data Error : Type 0 where
  halt : Reason → (kase : Option String) (targets : List String) → Error
  pg_error : (label : String) → Error
  config_error key_error : Error

pub data Result {ℓ} (A : Type ℓ) : Type ℓ where
  ok : A → Result A
  err : Error → Result A

-- A version row of the publisher with the transaction that wrote it.
pub record VersionRow : Type 0 where
  pub xmin : String
  pub version : String

pub record Snapshot : Type 0 where
  pub lsn : String
  pub web : List VersionRow
  pub coord : List (String × List VersionRow)

-- A row of `follower.publisher_heads`.
pub record Head : Type 0 where
  pub source : String
  pub writer_xid : String
  pub versions : List String

-- A row of `applied_revisions` (source web) or `applied_coord_versions`.
pub record Applied : Type 0 where
  pub source : String
  pub version : String
  pub xid : String

pub record Resolution : Type 0 where
  pub xid : String
  pub kase : String
  pub target : String

-- A row of `follower.owed`: columns that are to be copied from the publisher after a resolution.
pub record Owed : Type 0 where
  pub relation : String
  pub columns : String
  pub xid : String
  pub kase : String

-- A row of `follower.replay_log` with op R: the rewritten table, the bits of the reason, and whether
-- the migration had changed its rows before.
pub record Rewrite : Type 0 where
  pub oid : String
  pub reason : ℕ
  pub dml_before : Bool
