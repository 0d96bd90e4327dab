-- ===== src/Incidents/Workflow.antt =====
-- backend/app/incidents/workflow.py: assignment and disposition. The reports are in Report.antt.
use mathlib.Core.Option
use ot_soc_fusion_x.Base.{
  ℕ, ◌+◌, String, Text, Bool, true, false, ◌&&◌, Option, none, some, [], ◌∷◌, ◌==◌, Result, ok,
  guard, ◌>>=◌, ◌>>◌,
}
use ot_soc_fusion_x.Platform.{Platform, Uuid, Datetime, Value, str, plain, null}
use ot_soc_fusion_x.Auth.Model.{Role, admin, soc_analyst, LocalUser}
use ot_soc_fusion_x.Incidents.Model.{
  IncidentDisposition, disposition_value, assignment_changed, disposition_changed,
}
use ot_soc_fusion_x.Incidents.Tables.{Incident}
use ot_soc_fusion_x.Incidents.Store.{
  Session, Error, incident_workflow_error, incident_version_conflict_error, find_incident,
  save_incident,
}
use ot_soc_fusion_x.Base.{or_raise}
use ot_soc_fusion_x.Auth.Store.{find_user}
use ot_soc_fusion_x.Incidents.Audit.{append_audit_event}
use ot_soc_fusion_x.Platform.{or_now}
use ot_soc_fusion_x.Incidents.PlainText.{bounded_plain_text}

-- role in ASSIGNABLE_ROLES
unfoldable pub is_assignable : Role → Bool
is_assignable admin = true
is_assignable soc_analyst = true
is_assignable _ = false

-- The row, if it is there and its version is the expected one.
unfoldable pub locked_incident : Uuid → ℕ → Session → Result Error Incident
locked_incident incident_id expected_version session = do
  incident ←
      or_raise (incident_workflow_error "Incident was not found.")
        (find_incident incident_id session.incidents)
  guard (incident.version == expected_version)
      (incident_version_conflict_error "Incident aggregate version is stale.")
  ok incident

-- assignee is None or not assignee.active or assignee.role not in ASSIGNABLE_ROLES
unfoldable pub can_be_assigned : Option LocalUser → Bool
unfolding is_assignable
can_be_assigned none = false
can_be_assigned (some user) = user.active && is_assignable user.role

-- The check of the user that is to be assigned; no user clears the assignment.
unfoldable pub checked_assignee : Option Uuid → Session → Result Error (Unit {0})
unfolding can_be_assigned find_user
checked_assignee none session = ok tt
checked_assignee (some user_id) session =
    guard (can_be_assigned (find_user user_id session.local_users))
      (incident_workflow_error "Assignee must be an active local analyst or administrator.")

-- str(user_id) if user_id else None
abbrev id_value : Option Uuid → Value
id_value none = null
id_value (some user_id) = str user_id

-- The arguments of `assign_incident`.
pub record AssignmentRequest : Type 0 where
  pub incident_id : Uuid
  pub assignee_user_id : Option Uuid
  pub expected_version : ℕ
  pub actor_user : LocalUser
  pub request_id : String
  pub changed_at : Option Datetime

-- The arguments of `set_incident_disposition`.
pub record DispositionRequest : Type 0 where
  pub incident_id : Uuid
  pub disposition : IncidentDisposition
  pub reason : Text
  pub expected_version : ℕ
  pub actor_user : LocalUser
  pub request_id : String
  pub changed_at : Option Datetime

module _ (platform : Platform) where
  unfoldable pub record_assignment :
      Datetime → AssignmentRequest → Incident → Session → Incident × Session
  unfolding append_audit_event save_incident
  record_assignment now request incident session =
      let incident' = record incident {
        assignee_user_id = request.assignee_user_id;
        assigned_at = Option.map (λ _. now) request.assignee_user_id;
        version = incident.version + 1;
        updated_at = now;
      } in
      let audited =
        append_audit_event platform incident'
          (record {
            action = assignment_changed;
            occurred_at = now;
            actor_context = request.actor_user.display_name;
            actor_user_id = some request.actor_user.user_id;
            request_id = request.request_id;
            result = "ACCEPTED";
            safe_reason = some "Authenticated local assignment update.";
            version_before = incident.version;
            version_after = incident'.version;
            details =
                ("previous_assignee_user_id", id_value incident.assignee_user_id)
                ∷ ("assignee_user_id", id_value request.assignee_user_id)
                ∷ [];
          })
          (save_incident incident' session) in
      (incident', audited)

  unfoldable pub assign_incident :
      Datetime → AssignmentRequest → Session → Result Error (Incident × Session)
  assign_incident clock request session = do
    incident ← locked_incident request.incident_id request.expected_version session
    checked_assignee request.assignee_user_id session
    ok (record_assignment (or_now clock request.changed_at) request incident session)

  unfoldable pub record_disposition :
      Datetime → DispositionRequest → Text → Incident → Session → Incident × Session
  unfolding append_audit_event save_incident
  record_disposition now request reason incident session =
      let incident' = record incident {
        disposition = request.disposition;
        disposition_reason = some reason;
        disposition_set_by_user_id = some request.actor_user.user_id;
        disposition_set_at = some now;
        version = incident.version + 1;
        updated_at = now;
      } in
      let audited =
        append_audit_event platform incident'
          (record {
            action = disposition_changed;
            occurred_at = now;
            actor_context = request.actor_user.display_name;
            actor_user_id = some request.actor_user.user_id;
            request_id = request.request_id;
            result = "ACCEPTED";
            safe_reason = some "Authenticated analyst disposition rationale recorded.";
            version_before = incident.version;
            version_after = incident'.version;
            details =
                ("previous", str (disposition_value incident.disposition))
                ∷ ("new", str (disposition_value request.disposition))
                ∷ ("reason", plain reason)
                ∷ [];
          })
          (save_incident incident' session) in
      (incident', audited)

  unfoldable pub set_incident_disposition :
      Datetime → DispositionRequest → Session → Result Error (Incident × Session)
  set_incident_disposition clock request session = do
    reason ← bounded_plain_text request.reason 2000 false
    incident ← locked_incident request.incident_id request.expected_version session
    ok (record_disposition (or_now clock request.changed_at) request reason incident session)
