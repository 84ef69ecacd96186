-- ===== src/Examples/Drifts.antt =====
-- scripts/terraform-plan-drift.py on a plan whose updates hide a smaller database.
use qontinui_stack.Prelude.{
  String, ◌≡◌, refl, Bool, true, false, ◌==◌, none, some, List, [], ◌∷◌, map, inr,
}
use qontinui_stack.Python.{join}
use qontinui_stack.Python.Json.{Json, null, bool, num, str, end, field}
use qontinui_stack.Drift.{
  is_ok, is_unknown, in_place_change, active_negation, Change, classify_plan, worst,
  is_terraform_owned, classify_change, changed_attributes, negation_of,
}
use qontinui_stack.Drift.Tables.{
  serving_resource_types, security_sensitive_create_types, negating_attributes,
  negating_attribute_priority,
}
use qontinui_stack.Drift.Negations.{worst-Negates}

abbrev repr : List String → String
repr texts = join ", " texts

-- Equality on null, numbers and texts, which are the values here.
abbrev equal : Json → Json → Bool
equal null null = true
equal (num a) (num b) = a == b
equal (str a) (str b) = a == b
equal a b = false

abbrev network : Change
network = record {
  address = some "aws_vpc.main";
  type = "aws_vpc";
  actions = "create" ∷ [];
  before = end;
  after = field "cidr_block" (str "10.0.0.0/16") end;
  after_unknown = field "id" (bool true) end;
}

abbrev database : Change
database = record {
  address = none;
  type = "aws_db_instance";
  actions = "update" ∷ [];
  before = field "allocated_storage" (num "100") (field "instance_class" (str "db.t4g.large") end);
  after = field "allocated_storage" (num "50") (field "instance_class" (str "db.t4g.micro") end);
  after_unknown = end;
}

abbrev balancer : Change
balancer = record {
  address = some "aws_lb.web";
  type = "aws_lb";
  actions = "delete" ∷ "create" ∷ [];
  before = field "name" (str "web") end;
  after = field "name" (str "www") end;
  after_unknown = end;
}

changed_attributes_test :
    changed_attributes equal database ≡ ("allocated_storage" ∷ "instance_class" ∷ [])
unfolding changed_attributes
changed_attributes_test = refl

-- The reason is that of the instance class, which has the priority.
database_test : map (λ r. r.reason) (classify_plan repr equal (network ∷ database ∷ [])) ≡ (
    "create"
    ∷ "RDS instance class change — PR #66 found a 4x production database downsize hiding inside an ordinary 'update in place' [also negating: allocated_storage]"
    ∷ [])
unfolding classify_plan security_sensitive_create_types negating_attributes
    negating_attribute_priority
database_test = refl

balancer_test :
    map (λ r. r.reason) (classify_plan repr equal (balancer ∷ []))
    ≡ ("replace of a live serving resource (aws_lb)" ∷ [])
unfolding classify_plan serving_resource_types
balancer_test = refl

classes_test :
    map
      (λ actions. (classify_change repr "aws_iam_role" actions []).class)
      (("no-op" ∷ [])
        ∷ []
        ∷ ("read" ∷ [])
        ∷ ("create" ∷ [])
        ∷ ("update" ∷ [])
        ∷ ("forget" ∷ [])
        ∷ ("no-op" ∷ "delete" ∷ [])
        ∷ [])
    ≡ (is_ok ∷ is_ok ∷ is_ok ∷ in_place_change ∷ in_place_change ∷ is_unknown ∷ active_negation
        ∷ [])
unfolding classify_change security_sensitive_create_types serving_resource_types
classes_test = refl

ownership_test :
    map
      (is_terraform_owned "aws_ecs_task_definition")
      (("container_definitions" ∷ []) ∷ ("container_definitions" ∷ "cpu" ∷ []) ∷ [] ∷ [])
    ≡ (false ∷ true ∷ true ∷ [])
unfolding is_terraform_owned
ownership_test = refl

worst-Negates_example :
    worst (classify_plan repr equal (network ∷ database ∷ balancer ∷ [])) ≡ active_negation
unfolding changed_attributes negation_of negating_attributes
worst-Negates_example =
    worst-Negates repr equal database (balancer ∷ [])
      (inr (
        refl,
        refl,
        (
          "instance_class",
          "RDS instance class change — PR #66 found a 4x production database downsize hiding inside an ordinary 'update in place'",
          refl, refl,
        ),
      ))
      (network ∷ [])
