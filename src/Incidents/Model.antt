-- ===== src/Incidents/Model.antt =====
-- backend/app/incidents/models.py: the enumerations of the incident workflow and the membership
-- that a verified evidence record gives. A column that a CHECK constraint restricts to the values of
-- an enumeration has that enumeration as its type.
use ot_soc_fusion_x.Base.{String, Bool, true, false}
use ot_soc_fusion_x.Platform.{Uuid, Sha256, Datetime}

pub data IncidentCategory : Type 0 where
  asset_identity_anomaly communication_policy_violation : IncidentCategory
  control_command_investigation process_inconsistency : IncidentCategory

pub data IncidentSeverity : Type 0 where
  low medium high : IncidentSeverity

pub data IncidentStatus : Type 0 where
  open_status investigating resolved : IncidentStatus

pub data IncidentDisposition : Type 0 where
  unreviewed true_positive false_positive : IncidentDisposition

pub data EvidenceRole : Type 0 where
  primary supporting contradicting context : EvidenceRole

pub data TimelineEntryType : Type 0 where
  incident_created evidence_added status_changed severity_changed : TimelineEntryType
  analyst_note_added : TimelineEntryType

pub data AuditAction : Type 0 where
  incident_created incident_reused evidence_enriched status_transitioned : AuditAction
  severity_escalated analyst_note_added authorization_denied assignment_changed : AuditAction
  disposition_changed report_saved : AuditAction

-- The `value` of each member.
abbrev pub status_value : IncidentStatus → String
status_value open_status = "OPEN"
status_value investigating = "INVESTIGATING"
status_value resolved = "RESOLVED"

abbrev pub severity_value : IncidentSeverity → String
severity_value low = "LOW"
severity_value medium = "MEDIUM"
severity_value high = "HIGH"

abbrev pub disposition_value : IncidentDisposition → String
disposition_value unreviewed = "UNREVIEWED"
disposition_value true_positive = "TRUE_POSITIVE"
disposition_value false_positive = "FALSE_POSITIVE"

abbrev pub entry_type_value : TimelineEntryType → String
entry_type_value TimelineEntryType.incident_created = "INCIDENT_CREATED"
entry_type_value evidence_added = "EVIDENCE_ADDED"
entry_type_value status_changed = "STATUS_CHANGED"
entry_type_value severity_changed = "SEVERITY_CHANGED"
entry_type_value TimelineEntryType.analyst_note_added = "ANALYST_NOTE_ADDED"

abbrev pub action_value : AuditAction → String
action_value AuditAction.incident_created = "INCIDENT_CREATED"
action_value incident_reused = "INCIDENT_REUSED"
action_value evidence_enriched = "EVIDENCE_ENRICHED"
action_value status_transitioned = "STATUS_TRANSITIONED"
action_value severity_escalated = "SEVERITY_ESCALATED"
action_value AuditAction.analyst_note_added = "ANALYST_NOTE_ADDED"
action_value authorization_denied = "AUTHORIZATION_DENIED"
action_value assignment_changed = "ASSIGNMENT_CHANGED"
action_value disposition_changed = "DISPOSITION_CHANGED"
action_value report_saved = "REPORT_SAVED"

-- `is` on the members.
abbrev pub status_is : IncidentStatus → IncidentStatus → Bool
status_is open_status open_status = true
status_is investigating investigating = true
status_is resolved resolved = true
status_is _ _ = false

pub record CandidateMembership : Type 0 where
  pub evidence_id : Uuid
  pub evidence_type : String
  pub evidence_schema : String
  pub evidence_schema_version : String
  pub integrity_sha256 : Sha256
  pub role : EvidenceRole
  pub observed_at : Datetime
  pub received_at : Datetime
