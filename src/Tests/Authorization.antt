-- ===== src/Tests/Authorization.antt =====
-- The theorems on the policy evaluation at one governed path with an approving and a denying rule.
use ot_soc_fusion_x.Base.{
  ◌≡◌, ◌≢◌, ◌↔◌, refl, String, true, none, some, List, [], ◌∷◌, inl, inr, ok, err,
}
use ot_soc_fusion_x.Protocols.Model
use ot_soc_fusion_x.Context.Model as C
use ot_soc_fusion_x.Context.Model.{
  Decision, GovernedPath, CommunicationPolicyRule, AssetResolution, AssetContextEvent,
  AuthorizationInput, PolicyEvaluationResult, PolicyStatus,
}
use ot_soc_fusion_x.Context.Policy.{
  LoadedPolicy, evaluate_policy, evaluate_path, evaluate_rule, path_between, matching_rule, applies,
  is_forbidden_write, result, unknown_dimensions,
}
use ot_soc_fusion_x.Context.Policy.Verdict.{AllSatisfied, approved_iff_dimensions}
use ot_soc_fusion_x.Context.Policy.Approval.{IsApproved, approved_iff}
use ot_soc_fusion_x.Context.Policy.Denial.{deny_overrides}

abbrev path : GovernedPath
path = record {
  path_id = "P1";
  source_asset_key = "HMI-01";
  source_role = C.operator_interface;
  source_zone = C.ot_control_zone;
  destination_asset_key = "PLC-01";
  destination_role = C.control_execution;
  destination_zone = C.ot_control_zone;
  approved_protocols = "modbus_tcp" ∷ [];
}

abbrev rule : Decision → String → CommunicationPolicyRule
rule decision rule_id = record {
  rule_id = rule_id;
  path_id = "P1";
  source_asset_key = "HMI-01";
  source_role = C.operator_interface;
  source_zone = C.ot_control_zone;
  destination_asset_key = "PLC-01";
  destination_role = C.control_execution;
  destination_zone = C.ot_control_zone;
  protocol = "modbus_tcp";
  operations = Model.write ∷ [];
  function_semantics = Model.write_single_register ∷ [];
  point_ids = "valve_command" ∷ [];
  point_access_classes = Model.commandable_synthetic ∷ [];
  decision = decision;
  reason_code = C.communication_not_approved;
  enabled = true;
}

abbrev pub policy : List CommunicationPolicyRule → LoadedPolicy
policy rules = record {
  profile = record {
    profile_version = "1.0.0";
    protocol_profile_sha256 = "00";
    governed_paths = path ∷ [];
    rules = rules;
    reason_precedence = [];
  };
  sha256 = "11";
}

abbrev asset : String → AssetResolution
asset key = record {
  status = C.resolved;
  known_asset = true;
  enabled = some true;
  asset_id = some key;
  asset_key = some key;
  asset_kind = none;
  asset_type = none;
  asset_role = none;
  zone_id = some C.ot_control_zone;
  criticality = none;
}

abbrev pub context : AssetContextEvent
context = record {
  asset_context_event_id = "context-1";
  source_evidence_id = "evidence-1";
  source_evidence_integrity_sha256 = "00";
  semantic_event_id = "semantic-1";
  semantic_evidence_integrity_sha256 = "00";
  inventory_version = "1.0.0";
  inventory_sha256 = "00";
  resolver_version = "1.0.0";
  observed_at = 100;
  source_identity_claims = [];
  destination_identity_claims = [];
  source_resolution = asset "HMI-01";
  destination_resolution = asset "PLC-01";
  relevant_relationships = [];
  target_process_asset = none;
  derived_from = "evidence-1";
}

abbrev pub auth : AuthorizationInput
auth = record {
  source_evidence_verified = true;
  semantic_evidence_verified = true;
  source_evidence_id = "evidence-1";
  source_evidence_integrity_sha256 = "00";
  semantic_event_id = "semantic-1";
  semantic_evidence_integrity_sha256 = "00";
  observed_at = 100;
  protocol_profile_sha256 = "00";
  protocol = "modbus_tcp";
  operation_category = Model.write;
  function_semantic = some Model.write_single_register;
  function_code = 6;
  target_point = some "valve_command";
  point_access_class = some Model.commandable_synthetic;
  fictional_target_component = some "V-101";
  operation_compatibility = Model.compatible;
}

abbrev evaluated : List CommunicationPolicyRule → PolicyEvaluationResult
evaluated rules = elim (evaluate_policy auth context (policy rules)) [
  | ok r ↦ r
  | err e ↦ result unknown_dimensions C.PolicyStatus.unknown C.source_unknown none none
]

abbrev pub approving : List CommunicationPolicyRule
approving = rule Decision.approved "R1" ∷ []

abbrev contested : List CommunicationPolicyRule
contested = rule Decision.approved "R1" ∷ rule Decision.denied "R2" ∷ []

approving_status : (evaluated approving).policy_status ≡ PolicyStatus.approved
unfolding evaluate_policy evaluate_path evaluate_rule path_between matching_rule applies
    is_forbidden_write result
approving_status = refl

approving_run : evaluate_policy auth context (policy approving) ≡ ok (evaluated approving)
unfolding evaluate_policy evaluate_path evaluate_rule path_between matching_rule applies
    is_forbidden_write result
approving_run = refl

contested_run : evaluate_policy auth context (policy contested) ≡ ok (evaluated contested)
unfolding evaluate_policy evaluate_path evaluate_rule path_between matching_rule applies
    is_forbidden_write result
contested_run = refl

contested_path :
    path_between context.source_resolution context.destination_resolution (policy contested)
    ≡ some path
unfolding path_between
contested_path = refl

contested_applies : applies auth "P1" (rule Decision.denied "R2") ≡ true
unfolding applies
contested_applies = refl

approved_iff_dimensions_example :
    ((evaluated approving).policy_status ≡ PolicyStatus.approved)
    ↔ AllSatisfied ((evaluated approving).dimension_results)
approved_iff_dimensions_example =
    approved_iff_dimensions auth context (policy approving) (evaluated approving) approving_run

approved_iff_example :
    ((r : PolicyEvaluationResult) × (evaluate_policy auth context (policy approving) ≡ ok r)
      × (r.policy_status ≡ PolicyStatus.approved))
    ↔ IsApproved auth context (policy approving)
approved_iff_example = approved_iff auth context (policy approving)

deny_overrides_example : (evaluated contested).policy_status ≢ PolicyStatus.approved
deny_overrides_example =
    deny_overrides auth context (policy contested) path (evaluated contested) contested_path
      (inr (inl (contested_applies, refl))) contested_run
