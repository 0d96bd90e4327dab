-- ===== src/Tests/Samples.antt =====
-- One incident as backend/app/incidents/service.py leaves it on creation, for the tests.
use ot_soc_fusion_x.Base.{Bool, codes, none, some, [], ◌∷◌}
use ot_soc_fusion_x.Platform.{Platform}
use ot_soc_fusion_x.Incidents.Model.{
  open_status, investigating, unreviewed, communication_policy_violation, medium, AuditAction,
}
use ot_soc_fusion_x.Incidents.Tables.{Incident, IncidentStatusHistory, IncidentAuditEvent}
use ot_soc_fusion_x.Incidents.Store.{Session}
use ot_soc_fusion_x.Incidents.Notes.{NoteRequest}
use ot_soc_fusion_x.Incidents.Lifecycle.{StatusRequest}
use ot_soc_fusion_x.Incidents.Report.{ReportRequest}
use ot_soc_fusion_x.Auth.Model.{LocalUser, soc_analyst}

-- Identifiers are the names that they are made of, which is enough to tell them apart.
abbrev pub platform : Platform
platform = record {
  uuid5 = λ namespace name. name;
  sha256_hex = λ text. "00";
  repr_items = λ details. [];
  isoformat = λ moment. "2026";
}

abbrev pub created : Incident
created = record {
  incident_id = "incident-1";
  incident_schema = "otsoc.incident";
  incident_schema_version = "1.0.0";
  incident_profile_id = "profile";
  incident_profile_version = "1.0.0";
  incident_profile_sha256 = "00";
  qualification_rule_id = "Q1";
  qualification_rule_version = "1.0.0";
  grouping_key_sha256 = "00";
  category = communication_policy_violation;
  title = "Denied write";
  summary = "A denied write was observed.";
  status = open_status;
  severity = medium;
  assignee_user_id = none;
  assigned_at = none;
  disposition = unreviewed;
  disposition_reason = none;
  disposition_set_by_user_id = none;
  disposition_set_at = none;
  primary_evidence_id = "evidence-1";
  primary_evidence_type = "POLICY";
  primary_evidence_schema = "otsoc.policy";
  primary_evidence_schema_version = "1.0.0";
  primary_evidence_integrity_sha256 = "00";
  identity_asset_scope = [];
  source_asset_id = none;
  destination_asset_id = none;
  controller_asset_id = none;
  process_asset_ids = [];
  process_asset_keys = [];
  target_point_ids = [];
  correlation_rule_id = none;
  correlation_rule_version = none;
  run_scope = "run";
  configuration_scope = "configuration";
  bound_simulation_id = none;
  bound_configuration_hash = none;
  s3_semantic_evidence_id = none;
  grouping_epoch_start = 100;
  first_observed_at = 110;
  last_observed_at = 110;
  policy_context = "DENIED";
  correlation_context = "NONE";
  evidence_completeness = "COMPLETE";
  version = 1;
  evidence_count = 1;
  ground_truth_used = Bool.false;
  malicious_intent_inferred = Bool.false;
  causality_inferred = Bool.false;
  created_at = 120;
  updated_at = 120;
}

abbrev pub created_row : IncidentStatusHistory
created_row = record {
  status_history_id = "status-1";
  incident_id = "incident-1";
  previous_status = none;
  new_status = open_status;
  changed_at = 120;
  actor_context = "SYSTEM";
  actor_user_id = none;
  reason = none;
  request_id = "request-0";
  version_before = 0;
  version_after = 1;
}

abbrev pub created_event : IncidentAuditEvent
created_event = record {
  audit_event_id = "audit-1";
  incident_id = "incident-1";
  action = AuditAction.incident_created;
  occurred_at = 120;
  actor_context = "SYSTEM";
  actor_user_id = none;
  request_id = "request-0";
  result = "ACCEPTED";
  safe_reason = none;
  version_before = 0;
  version_after = 1;
  details = [];
}

abbrev pub start : Session
start = record {
  incidents = created ∷ [];
  timeline_entries = [];
  status_history = created_row ∷ [];
  severity_history = [];
  notes = [];
  audit_events = created_event ∷ [];
  reports = [];
  report_revisions = [];
  local_users = [];
  memberships = [];
}

abbrev pub note_request : NoteRequest
note_request = record {
  incident_id = "incident-1";
  content = codes "Asked the operator.";
  expected_version = 1;
  actor_context = "analyst";
  actor_user_id = some "user-1";
  request_id = "request-1";
  created_at = none;
}

abbrev pub take_up_request : StatusRequest
take_up_request = record {
  incident_id = "incident-1";
  new_status = investigating;
  expected_version = 1;
  actor_context = "analyst";
  actor_user_id = some "user-1";
  reason = none;
  request_id = "request-2";
  changed_at = none;
}

abbrev pub analyst : LocalUser
analyst = record {
  user_id = "user-1";
  username = codes "analyst";
  display_name = "Analyst";
  role = soc_analyst;
  password_hash = [];
  active = Bool.true;
  version = 1;
  created_at = 10;
  updated_at = 10;
  password_changed_at = 10;
}

abbrev pub report_request : ReportRequest
report_request = record {
  incident_id = "incident-1";
  fields = record {
    investigation_summary = codes "Seen.";
    analyst_assessment = [];
    evidence_assessment = [];
    process_impact_assessment = [];
    disposition_rationale = [];
    recommended_follow_up = [];
    final_conclusion = codes "Benign.";
  };
  expected_version = 0;
  actor_user = analyst;
  request_id = "request-3";
  saved_at = none;
}
