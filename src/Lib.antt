-- ===== src/Lib.antt =====
-- The operator pager relay, the schema follower, the watchdog, the partition parity, the sign-up
-- handler, the plan graph and the plan drift of qontinui-stack, modelled as executable definitions.
--
-- Parts, and the files that model them:
--
-- * Relay (aws/lambdas/operator_pager_relay/handler.py). An SNS message is parsed into a page or a
--   drop (Relay/Parse.antt: parse_message; Relay/Parse/Alarm.antt: parse_alarm;
--   Relay/Parse/PageV1.antt: parse_page_v1; Relay/Drill.antt: triggering_children, _steps and
--   drill_from_history; Relay/Reasons.antt: the two expressions on alarm texts), rendered
--   (Relay/Render.antt: render, sns_subject and the asking patterns), delivered (Relay/Deliver.antt:
--   deliver), and recorded (Relay/Record.antt: outcome_record). Relay/Handler.antt is the loop of
--   handler. The files below these prove what their names say.
-- * Follower (local/postgres/lib/qpg/follower.py). A logical-replication subscriber replays the
--   migrations of its publisher. Follower/Types.antt is the row of state with the step in progress,
--   Follower/Effects.antt the two databases: a World holds what the follower owns (its state row,
--   whether the subscription is enabled, its tables of heads, applied versions and resolutions, and
--   a trace of the statements carried out), and an Env answers every query and may fail any
--   statement; an action is a function from World to a result and a World. Follower/Shape.antt is
--   _check_replay_shape, Follower/Machine.antt _advance with its steps, Follower/Halting.antt halt,
--   resume and resolve, Follower/Stalls.antt _handle_stall with current_stall and caught_up, and
--   Follower/Cycle.antt cycle and settled, and
--   Follower/Loop.antt run, whose rounds are a list. Follower/Effects/Triples.antt has triples on actions,
--   with a condition after a return and one after a raise.
-- * Autolink (aws/lambdas/cognito_presignup_autolink/handler.py). The gate on sign-ups and the link
--   of a federated identity onto a native user.
-- * Watchdog (local/postgres/lib/qpg/watchdog.py). Watchdog.antt is run with its notices,
--   Watchdog/Checks.antt the checks on what they read.
-- * Partitions (local/postgres/lib/qpg/partitions.py). The parity of partitions on both sides, and
--   the outcome of the maintenance run.
-- * Plans (scripts/resolve-plan-deps.py, scripts/plan-graph.py). Plans/Status.antt reads a status
--   block (find_status_block, parse_depends_on, extract_lifecycle), Plans/Files.antt has the
--   directories, Plans/Resolve.antt is resolve_dep, resolve_plan and _format_human. The second
--   script builds on the parser of the first: Plans/Graph.antt has its Node and Graph,
--   Plans/Build.antt build_graph, Plans/Cycles.antt _detect_cycles, Plans/Subgraph.antt
--   restrict_to_root, Plans/Visible.antt _filter_visible, Plans/Render.antt _render_text and
--   Plans/Render/Mermaid.antt the two other renderings. A graph is valid (Plans/Graph/Valid.antt)
--   where it is as build_graph leaves it.
-- * Sequences (local/postgres/lib/qpg/seqsync.py). The margin of a sequence and run.
-- * Drift (scripts/terraform-plan-drift.py). Drift/Tables.antt has the tables of resource types and
--   attributes, Drift.antt classify_change, is_terraform_owned, changed_attributes, classify_plan and
--   worst. An entry of the plan is a record whose absent parts are filled in as by the `or`s.
-- * Secdiff (local/postgres/lib/qpg/secdiff.py). diff, owner_premise and run, on the rows that the
--   queries return.
-- * Prelude and Python are shared: tests and lists over the native numbers, dictionaries as
--   association lists, Python's operations on text, the values of json.loads, and a matcher for the
--   regular expressions in use. Examples has tests and each theorem at a concrete input.
--
-- Numbers are the native ones: sizes, counts, ages, times and HTTP statuses, none of which the
-- programs let go below 0, except where an Option says that a number is absent or negative. Fuel
-- is used by Prelude/Decimal.antt, which prints a number with as much fuel as the number, and by the
-- searches of the plan graph: the depth of _detect_cycles and of render_node has as much fuel as
-- there are nodes, each walk of _filter_visible twice as much, and restrict_to_root one more than
-- there are edges; that each suffices is among the results. All other loops are structural. The step machine of the follower has one successor for
-- each step, so its `while True` is a chain of calls.
--
-- The rates of seqsync are exact fractions, where the program has doubles. The times by which
-- the watchdog measures a disabled subscription are in microseconds.
--
-- Parameters: json.loads and equality of its values, repr of containers, fromisoformat and the letters of \w (Runtime), what an
-- adapter answers (Adapter), what Cognito answers and str.lower (Cloud), what the databases answer and
-- which statements fail (Env), what the file system answers (Files, with texts in UTF-8), isalnum, and the formatting of sizes (Format).
--
-- Not modelled: the boto3 clients and the paging of the alarm history; the SQL texts and the rows
-- of user tables; install, seed, copy-columns and the coord commands of the follower; the
-- watchdog's check of free space; from_data of seqsync; the SQL of secdiff and its ignored roles;
-- configuration, roles, credentials and the command line; the claims and lint scripts; terraform
-- itself and the posting of a drift report; the sccache statistics server; Terraform and shell.
pub mod Prelude
pub mod Python
pub mod Relay
pub mod Follower
pub mod Autolink
pub mod Watchdog
pub mod Partitions
pub mod Plans
pub mod Sequences
pub mod Drift
pub mod Secdiff
pub mod Examples
