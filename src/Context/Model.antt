-- ===== src/Context/Model.antt =====
-- backend/app/context/models.py: the data that the policy evaluation reads and returns. Fields whose
-- type is a `Literal` of one value are left out.
use ot_soc_fusion_x.Base.{ℕ, String, Bool, true, false, Option, List}
use ot_soc_fusion_x.Platform.{Uuid, Sha256, Datetime}
use ot_soc_fusion_x.Protocols.Model.{
  OperationCategory, FunctionSemantic, PointAccessClass, OperationCompatibility,
}

pub data AssetKind : Type 0 where
  cyber process : AssetKind

pub data AssetType : Type 0 where
  ot_controller human_machine_interface engineering_workstation it_workstation : AssetType
  monitoring_sensor ot_soc_platform source_tank transfer_pump pipeline : AssetType
  control_valve receiving_tank : AssetType

pub data AssetRole : Type 0 where
  control_execution operator_interface engineering_maintenance enterprise_user : AssetRole
  passive_monitor analyst_platform source_storage liquid_transfer : AssetRole
  transfer_path flow_control destination_storage : AssetRole

pub data ZoneId : Type 0 where
  it_zone ot_control_zone process_zone monitoring_zone soc_zone : ZoneId

pub data Criticality : Type 0 where
  low medium high critical : Criticality

pub data IdentifierType : Type 0 where
  logical_id protocol_endpoint_id process_tag : IdentifierType

pub data RelationshipType : Type 0 where
  hosts_endpoint controls observes monitors : RelationshipType

pub data RelationshipTargetKind : Type 0 where
  asset endpoint : RelationshipTargetKind

pub data ResolutionStatus : Type 0 where
  resolved unknown conflict : ResolutionStatus

pub data PolicyStatus : Type 0 where
  approved denied unknown : PolicyStatus

pub data DimensionStatus : Type 0 where
  satisfied not_satisfied unknown not_applicable : DimensionStatus

pub data PolicyReasonCode : Type 0 where
  source_evidence_not_verified semantic_evidence_not_verified : PolicyReasonCode
  profile_version_unsupported policy_profile_invalid identity_conflict : PolicyReasonCode
  source_unknown destination_unknown source_disabled destination_disabled : PolicyReasonCode
  source_zone_unexpected destination_zone_unexpected point_write_not_approved : PolicyReasonCode
  protocol_not_approved operation_not_approved source_role_not_approved : PolicyReasonCode
  communication_not_approved policy_not_classified policy_match_approved : PolicyReasonCode

-- Literal["APPROVED", "DENIED"]
pub data Decision : Type 0 where
  approved denied : Decision

-- `==` on the members.
abbrev pub zone_is : ZoneId → ZoneId → Bool
zone_is it_zone it_zone = true
zone_is ot_control_zone ot_control_zone = true
zone_is process_zone process_zone = true
zone_is monitoring_zone monitoring_zone = true
zone_is soc_zone soc_zone = true
zone_is _ _ = false

abbrev pub is_conflict : ResolutionStatus → Bool
is_conflict conflict = true
is_conflict _ = false

abbrev pub is_unknown : ResolutionStatus → Bool
is_unknown ResolutionStatus.unknown = true
is_unknown _ = false

abbrev pub is_denied : Decision → Bool
is_denied Decision.denied = true
is_denied Decision.approved = false

pub record GovernedPath : Type 0 where
  pub path_id : String
  pub source_asset_key : String
  pub source_role : AssetRole
  pub source_zone : ZoneId
  pub destination_asset_key : String
  pub destination_role : AssetRole
  pub destination_zone : ZoneId
  pub approved_protocols : List String

pub record CommunicationPolicyRule : Type 0 where
  pub rule_id : String
  pub path_id : String
  pub source_asset_key : String
  pub source_role : AssetRole
  pub source_zone : ZoneId
  pub destination_asset_key : String
  pub destination_role : AssetRole
  pub destination_zone : ZoneId
  pub protocol : String
  pub operations : List OperationCategory
  pub function_semantics : List FunctionSemantic
  pub point_ids : List String
  pub point_access_classes : List PointAccessClass
  pub decision : Decision
  pub reason_code : PolicyReasonCode
  pub enabled : Bool

pub record CommunicationPolicyProfile : Type 0 where
  pub profile_version : String
  pub protocol_profile_sha256 : Sha256
  pub governed_paths : List GovernedPath
  pub rules : List CommunicationPolicyRule
  pub reason_precedence : List PolicyReasonCode

pub record IdentityClaim : Type 0 where
  pub identifier_type : IdentifierType
  pub value : String

pub record AssetResolution : Type 0 where
  pub status : ResolutionStatus
  pub known_asset : Bool
  pub enabled : Option Bool
  pub asset_id : Option Uuid
  pub asset_key : Option String
  pub asset_kind : Option AssetKind
  pub asset_type : Option AssetType
  pub asset_role : Option AssetRole
  pub zone_id : Option ZoneId
  pub criticality : Option Criticality

pub record ResolvedRelationship : Type 0 where
  pub relationship_type : RelationshipType
  pub source_asset_key : String
  pub target_kind : RelationshipTargetKind
  pub target_ref : String

pub record AssetContextEvent : Type 0 where
  pub asset_context_event_id : Uuid
  pub source_evidence_id : Uuid
  pub source_evidence_integrity_sha256 : Sha256
  pub semantic_event_id : Uuid
  pub semantic_evidence_integrity_sha256 : Sha256
  pub inventory_version : String
  pub inventory_sha256 : Sha256
  pub resolver_version : String
  pub observed_at : Datetime
  pub source_identity_claims : List IdentityClaim
  pub destination_identity_claims : List IdentityClaim
  pub source_resolution : AssetResolution
  pub destination_resolution : AssetResolution
  pub relevant_relationships : List ResolvedRelationship
  pub target_process_asset : Option AssetResolution
  pub derived_from : Uuid

pub record AuthorizationDimensions : Type 0 where
  pub source_asset_known : DimensionStatus
  pub destination_asset_known : DimensionStatus
  pub source_zone_expected : DimensionStatus
  pub destination_zone_expected : DimensionStatus
  pub communication_path_approved : DimensionStatus
  pub protocol_approved : DimensionStatus
  pub operation_approved : DimensionStatus
  pub point_classification_allows : DimensionStatus
  pub source_role_approved : DimensionStatus

pub record AuthorizationInput : Type 0 where
  pub source_evidence_verified : Bool
  pub semantic_evidence_verified : Bool
  pub source_evidence_id : Uuid
  pub source_evidence_integrity_sha256 : Sha256
  pub semantic_event_id : Uuid
  pub semantic_evidence_integrity_sha256 : Sha256
  pub observed_at : Datetime
  pub protocol_profile_sha256 : Sha256
  pub protocol : String
  pub operation_category : OperationCategory
  pub function_semantic : Option FunctionSemantic
  pub function_code : ℕ
  pub target_point : Option String
  pub point_access_class : Option PointAccessClass
  pub fictional_target_component : Option String
  pub operation_compatibility : OperationCompatibility

pub record PolicyEvaluationResult : Type 0 where
  pub dimension_results : AuthorizationDimensions
  pub matched_path_id : Option String
  pub matched_rule_id : Option String
  pub policy_status : PolicyStatus
  pub reason_code : PolicyReasonCode
  pub statement_template_id : String
  pub analyst_readable_statement : String

pub record Identifier : Type 0 where
  pub identifier_type : IdentifierType
  pub value : String

pub record AssetDefinition : Type 0 where
  pub asset_key : String
  pub display_name : String
  pub asset_kind : AssetKind
  pub asset_type : AssetType
  pub asset_role : AssetRole
  pub zone_id : ZoneId
  pub criticality : Criticality
  pub process_role : Option String
  pub protocol_capabilities : List String
  pub enabled : Bool
  pub identifiers : List Identifier

abbrev pub identifier_type_is : IdentifierType → IdentifierType → Bool
identifier_type_is logical_id logical_id = true
identifier_type_is protocol_endpoint_id protocol_endpoint_id = true
identifier_type_is process_tag process_tag = true
identifier_type_is _ _ = false
