-- ===== src/Incidents/Tables.antt =====
-- backend/app/incidents/models.py and backend/app/auth/models.py: the rows of the tables that the
-- incident workflow reads and writes. The `relationship` attributes are the rows of the other tables
-- with the same incident_id.
use ot_soc_fusion_x.Base.{ℕ, String, Text, Bool, Option, List}
use ot_soc_fusion_x.Platform.{Uuid, Sha256, Datetime, Details}
use ot_soc_fusion_x.Incidents.Model.{
  IncidentCategory, IncidentSeverity, IncidentStatus, IncidentDisposition, TimelineEntryType,
  AuditAction, EvidenceRole,
}

pub record Incident : Type 0 where
  pub incident_id : Uuid
  pub incident_schema : String
  pub incident_schema_version : String
  pub incident_profile_id : String
  pub incident_profile_version : String
  pub incident_profile_sha256 : Sha256
  pub qualification_rule_id : String
  pub qualification_rule_version : String
  pub grouping_key_sha256 : Sha256
  pub category : IncidentCategory
  pub title : String
  pub summary : String
  pub status : IncidentStatus
  pub severity : IncidentSeverity
  pub assignee_user_id : Option Uuid
  pub assigned_at : Option Datetime
  pub disposition : IncidentDisposition
  pub disposition_reason : Option Text
  pub disposition_set_by_user_id : Option Uuid
  pub disposition_set_at : Option Datetime
  pub primary_evidence_id : Uuid
  pub primary_evidence_type : String
  pub primary_evidence_schema : String
  pub primary_evidence_schema_version : String
  pub primary_evidence_integrity_sha256 : Sha256
  pub identity_asset_scope : List String
  pub source_asset_id : Option Uuid
  pub destination_asset_id : Option Uuid
  pub controller_asset_id : Option Uuid
  pub process_asset_ids : List Uuid
  pub process_asset_keys : List String
  pub target_point_ids : List String
  pub correlation_rule_id : Option String
  pub correlation_rule_version : Option String
  pub run_scope : String
  pub configuration_scope : String
  pub bound_simulation_id : Option String
  pub bound_configuration_hash : Option String
  pub s3_semantic_evidence_id : Option Uuid
  pub grouping_epoch_start : Datetime
  pub first_observed_at : Datetime
  pub last_observed_at : Datetime
  pub policy_context : String
  pub correlation_context : String
  pub evidence_completeness : String
  pub version : ℕ
  pub evidence_count : ℕ
  pub ground_truth_used : Bool
  pub malicious_intent_inferred : Bool
  pub causality_inferred : Bool
  pub created_at : Datetime
  pub updated_at : Datetime

pub record IncidentEvidenceMembership : Type 0 where
  pub membership_id : Uuid
  pub incident_id : Uuid
  pub evidence_id : Uuid
  pub evidence_type : String
  pub evidence_schema : String
  pub evidence_schema_version : String
  pub integrity_sha256 : Sha256
  pub role : EvidenceRole
  pub observed_at : Datetime
  pub received_at : Datetime
  pub added_at : Datetime

pub record IncidentTimelineEntry : Type 0 where
  pub timeline_entry_id : Uuid
  pub incident_id : Uuid
  pub timeline_schema : String
  pub timeline_schema_version : String
  pub producer : String
  pub producer_version : String
  pub observed_at : Datetime
  pub recorded_at : Datetime
  pub entry_type : TimelineEntryType
  pub reference_id : Uuid
  pub evidence_id : Option Uuid
  pub evidence_type : Option String
  pub evidence_schema : Option String
  pub evidence_schema_version : Option String
  pub evidence_integrity_sha256 : Option Sha256
  pub received_at : Option Datetime
  pub asset_ids : List Uuid
  pub process_asset_ids : List Uuid
  pub summary : String
  pub actor_context : String
  pub aggregate_version : ℕ

pub record IncidentStatusHistory : Type 0 where
  pub status_history_id : Uuid
  pub incident_id : Uuid
  pub previous_status : Option IncidentStatus
  pub new_status : IncidentStatus
  pub changed_at : Datetime
  pub actor_context : String
  pub actor_user_id : Option Uuid
  pub reason : Option Text
  pub request_id : String
  pub version_before : ℕ
  pub version_after : ℕ

pub record IncidentSeverityHistory : Type 0 where
  pub severity_history_id : Uuid
  pub incident_id : Uuid
  pub previous_severity : Option IncidentSeverity
  pub new_severity : IncidentSeverity
  pub triggering_evidence_id : Uuid
  pub triggering_integrity_sha256 : Sha256
  pub profile_version : String
  pub rule_version : String
  pub calculated_at : Datetime
  pub aggregate_version : ℕ

pub record IncidentNote : Type 0 where
  pub note_id : Uuid
  pub incident_id : Uuid
  pub content : Text
  pub actor_context : String
  pub actor_user_id : Option Uuid
  pub request_id : String
  pub created_at : Datetime
  pub aggregate_version : ℕ

pub record IncidentAuditEvent : Type 0 where
  pub audit_event_id : Uuid
  pub incident_id : Uuid
  pub action : AuditAction
  pub occurred_at : Datetime
  pub actor_context : String
  pub actor_user_id : Option Uuid
  pub request_id : String
  pub result : String
  pub safe_reason : Option String
  pub version_before : ℕ
  pub version_after : ℕ
  pub details : Details

-- The seven analyst fields, REPORT_FIELD_NAMES, that a report and each of its revisions hold.
pub record ReportFields : Type 0 where
  pub investigation_summary : Text
  pub analyst_assessment : Text
  pub evidence_assessment : Text
  pub process_impact_assessment : Text
  pub disposition_rationale : Text
  pub recommended_follow_up : Text
  pub final_conclusion : Text

pub record IncidentReport : Type 0 where
  pub incident_id : Uuid
  pub fields : ReportFields
  pub version : ℕ
  pub created_by_user_id : Uuid
  pub created_at : Datetime
  pub updated_by_user_id : Uuid
  pub updated_at : Datetime

pub record IncidentReportRevision : Type 0 where
  pub revision_id : Uuid
  pub incident_id : Uuid
  pub fields : ReportFields
  pub version : ℕ
  pub saved_by_user_id : Uuid
  pub saved_at : Datetime
