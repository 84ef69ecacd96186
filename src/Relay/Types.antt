-- ===== src/Relay/Types.antt =====
-- The closed set of conditions and kinds, and the messages, of
-- aws/lambdas/operator_pager_relay/handler.py.
use qontinui_stack.Prelude.{String, Bool, Option, List, [], ◌∷◌, elem}

abbrev pub conditions : List String
conditions =
    "train_stalled" ∷ "leader_crash_loop" ∷ "deploy_failed" ∷ "storage_or_iops"
    ∷ "github_budget_exhausted" ∷ []

-- c in CONDITIONS
unfoldable pub known : String → Bool
known c = elem c conditions

abbrev pub condition_labels : List (String × String)
condition_labels =
    ("train_stalled", "The merge train has stopped landing")
    ∷ ("leader_crash_loop", "coord is crash-looping")
    ∷ ("deploy_failed", "A deploy failed")
    ∷ ("storage_or_iops", "Database storage or IOPS is at risk")
    ∷ ("github_budget_exhausted", "GitHub API budget is exhausted")
    ∷ []

abbrev pub kinds : List String
kinds = "page" ∷ "update" ∷ "resolved" ∷ "drill" ∷ "drill_summary" ∷ []

abbrev pub aws_agent_line : String
aws_agent_line = "Agent dispatch follows from coord; the agent state is not known yet."

-- One message that the relay renders and delivers.
pub record Page : Type 0 where
  pub condition : Option String
  pub kind : String
  pub origin : String
  pub source : String
  pub signal : String
  pub what : String
  pub remediation : String
  pub remediation_state : String
  pub agents : String
  pub dedup_key : String
  pub alert_ids : List String
  pub drill : Bool
  pub drill_id : Option String
  pub drill_detection : String
  pub conditions : List String

-- A message that the relay does not deliver.
pub record Drop : Type 0 where
  pub reason : String
  pub condition : Option String
  pub kind : Option String
  pub origin : String
  pub source : String
  pub signal : String
  pub drill_id : Option String
  pub alert_ids : List String
  pub suppressed : Bool

-- Page | Drop
pub data Parsed : Type 0 where
  page : Page → Parsed
  drop : Drop → Parsed
