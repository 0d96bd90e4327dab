-- ===== src/Incidents/Severity.antt =====
-- backend/app/incidents/severity.py: the escalation of an incident by its evidence.
pub mod Highest
use ot_soc_fusion_x.Base.{
  ℕ, String, Bool, Option, none, some, [], ◌∷◌, ◌++◌, ltb, if◌then◌else◌, concat, join, str_int,
}
use ot_soc_fusion_x.Platform.{Platform, Uuid, Datetime, str}
use ot_soc_fusion_x.Incidents.Model.{
  IncidentSeverity, low, medium, high, severity_value, CandidateMembership, severity_changed,
  severity_escalated,
}
use ot_soc_fusion_x.Incidents.Tables.{Incident, IncidentSeverityHistory}
use ot_soc_fusion_x.Incidents.Store.{Session, save_incident}
use ot_soc_fusion_x.Incidents.Audit.{append_audit_event}
use ot_soc_fusion_x.Incidents.Timeline.{append_timeline_entry}

abbrev pub severity_history_id_namespace : Uuid
severity_history_id_namespace = "d22ac2cd-f1c4-5c4e-bcad-b54a4a222d99"

abbrev pub severity_rank : IncidentSeverity → ℕ
severity_rank low = 1
severity_rank medium = 2
severity_rank high = 3

unfoldable pub severity_increases : IncidentSeverity → IncidentSeverity → Bool
severity_increases current proposed = ltb (severity_rank current) (severity_rank proposed)

-- The arguments of `record_severity_escalation` beside the session and the incident.
pub record Escalation : Type 0 where
  pub proposed : IncidentSeverity
  pub triggering_membership : CandidateMembership
  pub calculated_at : Datetime
  pub request_id : String
  pub version_before : ℕ
  pub version_after : ℕ

module _ (platform : Platform) where
  severity_history_row : Incident → Escalation → IncidentSeverityHistory
  unfolding str_int
  severity_history_row incident e = record {
    severity_history_id = platform.uuid5 severity_history_id_namespace (
        join "|" (
          incident.incident_id
          ∷ severity_value incident.severity
          ∷ severity_value e.proposed
          ∷ e.triggering_membership.evidence_id
          ∷ str_int e.version_after
          ∷ []));
    incident_id = incident.incident_id;
    previous_severity = some incident.severity;
    new_severity = e.proposed;
    triggering_evidence_id = e.triggering_membership.evidence_id;
    triggering_integrity_sha256 = e.triggering_membership.integrity_sha256;
    profile_version = incident.incident_profile_version;
    rule_version = incident.qualification_rule_version;
    calculated_at = e.calculated_at;
    aggregate_version = e.version_after;
  }

  unfoldable pub escalate :
      Incident → Escalation → Session → Incident × Session × Option IncidentSeverityHistory
  unfolding severity_history_row append_audit_event append_timeline_entry save_incident
  escalate incident e session =
      let history = severity_history_row incident e in
      let incident' = record incident { severity = e.proposed } in
      let changed =
        save_incident incident'
          (record session { severity_history = session.severity_history ++ history ∷ [] }) in
      let entered =
        append_timeline_entry platform incident'
          (record {
            entry_type = severity_changed;
            reference_id = history.severity_history_id;
            observed_at = e.triggering_membership.observed_at;
            recorded_at = e.calculated_at;
            summary = concat (
                "Incident severity increased from "
                ∷ severity_value incident.severity
                ∷ " to "
                ∷ severity_value e.proposed
                ∷ "."
                ∷ []);
            actor_context = "SYSTEM";
            aggregate_version = e.version_after;
            membership = none;
          })
          changed in
      let audited =
        append_audit_event platform incident'
          (record {
            action = severity_escalated;
            occurred_at = e.calculated_at;
            actor_context = "SYSTEM";
            actor_user_id = none;
            request_id = e.request_id;
            result = "ACCEPTED";
            safe_reason = some "Verified evidence increased investigation priority.";
            version_before = e.version_before;
            version_after = e.version_after;
            details =
                ("previous", str (severity_value incident.severity))
                ∷ ("new", str (severity_value e.proposed))
                ∷ [];
          })
          entered in
      (incident', audited, some history)

  -- The mutated incident, the tables, and the row that is returned.
  unfoldable pub record_severity_escalation :
      Incident → Escalation → Session → Incident × Session × Option IncidentSeverityHistory
  unfolding escalate severity_increases
  record_severity_escalation incident e session =
      if severity_increases incident.severity e.proposed
      then escalate incident e session
      else (incident, session, none)
