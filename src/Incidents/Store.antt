-- ===== src/Incidents/Store.antt =====
-- The SQLAlchemy `Session` as the tables that the workflow reads and writes, in the order of
-- insertion. `session.add` appends a row; a row that the code holds and mutates is written back under
-- its primary key. backend/app/db/session.py rolls back on an exception, so an operation that raises
-- leaves the tables as they were: it returns an error alone.
pub mod Laws
pub mod Reports
use ot_soc_fusion_x.Base.{String, Option, List, [], ◌∷◌, find, str_eq, if◌then◌else◌}
use ot_soc_fusion_x.Platform.{Uuid}
use ot_soc_fusion_x.Auth.Model.{LocalUser}
use ot_soc_fusion_x.Incidents.Tables.{
  Incident, IncidentTimelineEntry, IncidentStatusHistory, IncidentSeverityHistory, IncidentNote,
  IncidentAuditEvent, IncidentReport, IncidentReportRevision, IncidentEvidenceMembership,
}

pub record Session : Type 0 where
  pub incidents : List Incident
  pub timeline_entries : List IncidentTimelineEntry
  pub status_history : List IncidentStatusHistory
  pub severity_history : List IncidentSeverityHistory
  pub notes : List IncidentNote
  pub audit_events : List IncidentAuditEvent
  pub reports : List IncidentReport
  pub report_revisions : List IncidentReportRevision
  pub local_users : List LocalUser
  pub memberships : List IncidentEvidenceMembership

-- The exceptions of backend/app/incidents, with their messages.
pub data Error : Type 0 where
  incident_lifecycle_error : String → Error
  incident_note_error : String → Error
  incident_version_conflict_error : String → Error
  incident_workflow_error : String → Error

-- select(Incident).where(Incident.incident_id == incident_id), and session.get(Incident, …)
unfoldable pub find_incident : Uuid → List Incident → Option Incident
find_incident incident_id = find (λ i. str_eq i.incident_id incident_id)

-- The row with the primary key of the given one is replaced.
unfoldable pub put_incident : Incident → List Incident → List Incident
put_incident incident [] = []
put_incident incident (i ∷ rest) =
    if str_eq i.incident_id incident.incident_id
    then incident ∷ rest
    else i ∷ put_incident incident rest

-- session.get(IncidentReport, incident_id)
unfoldable pub find_report : Uuid → List IncidentReport → Option IncidentReport
find_report incident_id = find (λ r. str_eq r.incident_id incident_id)

unfoldable pub put_report : IncidentReport → List IncidentReport → List IncidentReport
put_report report [] = []
put_report report (r ∷ rest) =
    if str_eq r.incident_id report.incident_id then report ∷ rest else r ∷ put_report report rest

unfoldable pub save_incident : Incident → Session → Session
save_incident incident session = record session {
  incidents = put_incident incident session.incidents;
}
