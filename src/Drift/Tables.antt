-- ===== src/Drift/Tables.antt =====
-- scripts/terraform-plan-drift.py: the tables of resource types and attributes.
use qontinui_stack.Prelude.{String, List, [], ◌∷◌}

-- A resource type with one of its attributes.
abbrev pub Key : Type 0
Key = String × String

unfoldable pub serving_resource_types : List String
serving_resource_types =
    "aws_db_instance" ∷ "aws_elasticache_replication_group" ∷ "aws_ecs_service" ∷ "aws_lb"
    ∷ "aws_lb_target_group" ∷ "aws_lb_listener" ∷ "aws_secretsmanager_secret" ∷ "aws_iam_role"
    ∷ "aws_iam_role_policy" ∷ "aws_lambda_function" ∷ "aws_cloudwatch_log_group"
    ∷ "aws_security_group_rule" ∷ "aws_lb_listener_rule" ∷ "aws_iam_role_policy_attachment"
    ∷ "aws_s3_bucket_public_access_block" ∷ "aws_s3_bucket_server_side_encryption_configuration"
    ∷ []

unfoldable pub security_sensitive_create_types : List String
security_sensitive_create_types =
    "aws_security_group_rule" ∷ "aws_security_group" ∷ "aws_iam_role_policy"
    ∷ "aws_iam_role_policy_attachment" ∷ "aws_iam_role" ∷ "aws_lb_listener_rule" ∷ []

-- Attributes whose update in place is an active negation, with the reason.
unfoldable pub negating_attributes : List (Key × String)
negating_attributes =
    (
      ("aws_db_instance", "instance_class"),
      "RDS instance class change — PR #66 found a 4x production database downsize hiding inside an ordinary 'update in place'",
    )
    ∷ (
      ("aws_db_instance", "allocated_storage"),
      "RDS storage change — a shrink is destructive and AWS rejects it, so either direction warrants a human glance",
    )
    ∷ (("aws_db_instance", "multi_az"), "RDS availability topology change")
    ∷ (("aws_db_instance", "deletion_protection"), "RDS deletion protection toggled")
    ∷ (("aws_db_instance", "backup_retention_period"), "RDS backup retention changed")
    ∷ (("aws_elasticache_replication_group", "node_type"), "Redis node class change")
    ∷ (
      ("aws_elasticache_replication_group", "transit_encryption_enabled"),
      "Redis in-transit encryption toggled",
    )
    ∷ (
      ("aws_ecs_service", "desired_count"),
      "ECS desired count change — a drop to 0 is an outage expressed as an update",
    )
    ∷ (
      ("aws_lambda_function", "environment"),
      "Lambda environment change — PR #66 found a SIGNUP_ALLOWLIST fail-open hiding inside an ordinary 'update in place'",
    )
    ∷ (("aws_iam_role", "assume_role_policy"), "IAM trust relationship change")
    ∷ (
      ("aws_iam_role_policy", "policy"),
      "IAM inline policy change — the 2026-05-30 reconciliation exists because a plan silently stripped exec-role secret grants",
    )
    ∷ (("aws_security_group", "ingress"), "Security group ingress change")
    ∷ (("aws_security_group", "egress"), "Security group egress change")
    ∷ (("aws_security_group_rule", "cidr_blocks"), "Security group rule CIDR change")
    ∷ (("aws_security_group_rule", "source_security_group_id"), "Security group rule source change")
    ∷ (("aws_security_group_rule", "from_port"), "Security group rule port range change")
    ∷ (("aws_security_group_rule", "to_port"), "Security group rule port range change")
    ∷ (
      ("aws_lb_listener_rule", "condition"),
      "ALB listener rule condition change - this stack gates coord /metrics on an X-Metrics-Token header condition plus a sibling deny rule",
    )
    ∷ (("aws_lb_listener_rule", "action"), "ALB listener rule action change")
    ∷ (
      ("aws_lb_listener_rule", "priority"),
      "ALB listener rule priority change - ordering decides whether the deny rule is reached at all",
    )
    ∷ (
      ("aws_db_instance", "engine_version"),
      "RDS major-version upgrade is one-way and cannot be rolled back",
    )
    ∷ (("aws_db_instance", "publicly_accessible"), "RDS public accessibility toggled")
    ∷ (
      ("aws_db_instance", "skip_final_snapshot"),
      "RDS final-snapshot skip toggled - turning it on makes a later destroy unrecoverable",
    )
    ∷ (("aws_db_instance", "storage_encrypted"), "RDS storage encryption toggled")
    ∷ (
      ("aws_elasticache_replication_group", "at_rest_encryption_enabled"),
      "Redis at-rest encryption toggled",
    )
    ∷ (
      ("aws_elasticache_replication_group", "automatic_failover_enabled"),
      "Redis automatic failover toggled",
    )
    ∷ (
      ("aws_elasticache_replication_group", "num_cache_clusters"),
      "Redis cluster count change - a drop removes a replica",
    )
    ∷ (
      ("aws_elasticache_replication_group", "snapshot_retention_limit"),
      "Redis snapshot retention changed",
    )
    ∷ (("aws_s3_bucket_public_access_block", "block_public_acls"), "S3 public-ACL block toggled")
    ∷ (
      ("aws_s3_bucket_public_access_block", "block_public_policy"),
      "S3 public-policy block toggled",
    )
    ∷ (("aws_s3_bucket_public_access_block", "ignore_public_acls"), "S3 ignore-public-ACLs toggled")
    ∷ (
      ("aws_s3_bucket_public_access_block", "restrict_public_buckets"),
      "S3 restrict-public-buckets toggled",
    )
    ∷ []

-- Which of several negating attributes is told.
unfoldable pub negating_attribute_priority : List Key
negating_attribute_priority =
    ("aws_db_instance", "instance_class")
    ∷ ("aws_db_instance", "engine_version")
    ∷ ("aws_db_instance", "publicly_accessible")
    ∷ ("aws_lambda_function", "environment")
    ∷ ("aws_iam_role_policy", "policy")
    ∷ ("aws_iam_role", "assume_role_policy")
    ∷ ("aws_lb_listener_rule", "condition")
    ∷ ("aws_ecs_service", "desired_count")
    ∷ []

abbrev pub ci_owned_task_def_attributes : List String
ci_owned_task_def_attributes = "container_definitions" ∷ []

abbrev pub ci_owned_resource_types : List String
ci_owned_resource_types = "aws_ecs_task_definition" ∷ []
