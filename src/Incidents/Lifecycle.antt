-- ===== src/Incidents/Lifecycle.antt =====
-- backend/app/incidents/lifecycle.py: the state machine of an incident's status.
pub mod Edges
pub mod Reasons
pub mod Outcome
pub mod Refusal
use ot_soc_fusion_x.Base.{
  ℕ, ◌+◌, String, Text, Bool, not, ◌&&◌, ◌||◌, Option, none, some, List, [], ◌∷◌, ◌++◌, ◌==◌, any,
  is_some, concat, join, str_int, Result, ok, err, guard, ◌>>=◌, ◌>>◌,
}
use ot_soc_fusion_x.Platform.{Platform, Uuid, Datetime, Value, str, plain, null}
use ot_soc_fusion_x.Incidents.Model.{
  IncidentStatus, open_status, investigating, resolved, status_is, status_value, status_changed,
  status_transitioned,
}
use ot_soc_fusion_x.Incidents.Tables.{Incident, IncidentStatusHistory}
use ot_soc_fusion_x.Incidents.Store.{
  Session, Error, incident_lifecycle_error, incident_note_error, incident_version_conflict_error,
  find_incident, save_incident,
}
use ot_soc_fusion_x.Base.{or_raise}
use ot_soc_fusion_x.Incidents.Audit.{append_audit_event}
use ot_soc_fusion_x.Incidents.Timeline.{append_timeline_entry}
use ot_soc_fusion_x.Incidents.Notes.{validate_note_text}
use ot_soc_fusion_x.Platform.{or_now}

abbrev pub status_history_id_namespace : Uuid
status_history_id_namespace = "18131f2f-b42b-5c82-af12-ffb09581380e"

abbrev pub allowed_transitions : List (IncidentStatus × IncidentStatus)
allowed_transitions =
    (open_status, investigating)
    ∷ (open_status, resolved)
    ∷ (investigating, resolved)
    ∷ (resolved, investigating)
    ∷ []

-- (previous, new_status) in ALLOWED_TRANSITIONS
unfoldable pub is_allowed : IncidentStatus → IncidentStatus → Bool
is_allowed previous new_status =
    any (λ t. status_is t.0 previous && status_is t.1 new_status) allowed_transitions

unfoldable pub requires_reason : IncidentStatus → IncidentStatus → Bool
requires_reason previous new_status = status_is new_status resolved || status_is previous resolved

-- The arguments of `transition_incident_status`.
pub record StatusRequest : Type 0 where
  pub incident_id : Uuid
  pub new_status : IncidentStatus
  pub expected_version : ℕ
  pub actor_context : String
  pub actor_user_id : Option Uuid
  pub reason : Option Text
  pub request_id : String
  pub changed_at : Option Datetime

-- except IncidentNoteError as exc: raise IncidentLifecycleError(str(exc))
abbrev pub as_lifecycle_error {ℓ} : {A : Type ℓ} → Result Error A → Result Error A
as_lifecycle_error (ok a) = ok a
as_lifecycle_error (err (incident_note_error message)) = err (incident_lifecycle_error message)
as_lifecycle_error (err other) = err other

-- validate_note_text(reason, maximum=500) if reason is not None else None
unfoldable pub clean_reason : Option Text → Result Error (Option Text)
unfolding validate_note_text
clean_reason none = ok none
clean_reason (some reason) =
    as_lifecycle_error (do text ← validate_note_text reason 500; ok (some text))

abbrev reason_value : Option Text → Value
reason_value none = null
reason_value (some reason) = plain reason

module _ (platform : Platform) where
  unfoldable pub status_history_row :
      Datetime → StatusRequest → Option Text → Incident → IncidentStatusHistory
  unfolding str_int
  status_history_row now request reason incident = record {
    status_history_id = platform.uuid5 status_history_id_namespace (
        join "|" (
          request.incident_id
          ∷ status_value incident.status
          ∷ status_value request.new_status
          ∷ request.actor_context
          ∷ str_int incident.version
          ∷ []));
    incident_id = request.incident_id;
    previous_status = some incident.status;
    new_status = request.new_status;
    changed_at = now;
    actor_context = request.actor_context;
    actor_user_id = request.actor_user_id;
    reason = reason;
    request_id = request.request_id;
    version_before = incident.version;
    version_after = incident.version + 1;
  }

  -- What is written once the checks have passed.
  unfoldable pub record_transition :
      Datetime → StatusRequest → Option Text → Incident → Session → Incident × Session
  unfolding status_history_row append_audit_event append_timeline_entry save_incident
  record_transition now request reason incident session =
      let history = status_history_row now request reason incident in
      let after = incident.version + 1 in
      let incident' = record incident {
        status = request.new_status;
        version = after;
        updated_at = now;
      } in
      let changed =
        save_incident incident'
          (record session { status_history = session.status_history ++ history ∷ [] }) in
      let entered =
        append_timeline_entry platform incident'
          (record {
            entry_type = status_changed;
            reference_id = history.status_history_id;
            observed_at = now;
            recorded_at = now;
            summary = concat (
                "Incident status changed from "
                ∷ status_value incident.status
                ∷ " to "
                ∷ status_value request.new_status
                ∷ "."
                ∷ []);
            actor_context = request.actor_context;
            aggregate_version = after;
            membership = none;
          })
          changed in
      let audited =
        append_audit_event platform incident'
          (record {
            action = status_transitioned;
            occurred_at = now;
            actor_context = request.actor_context;
            actor_user_id = request.actor_user_id;
            request_id = request.request_id;
            result = "ACCEPTED";
            safe_reason = some "Authenticated incident lifecycle reason recorded.";
            version_before = incident.version;
            version_after = after;
            details =
                ("previous", str (status_value incident.status))
                ∷ ("new", str (status_value request.new_status))
                ∷ ("reason", reason_value reason)
                ∷ [];
          })
          entered in
      (incident', audited)

  unfoldable pub transition_incident_status :
      Datetime → StatusRequest → Session → Result Error (Incident × Session)
  transition_incident_status clock request session = do
    incident ←
        or_raise (incident_lifecycle_error "Incident was not found.")
          (find_incident request.incident_id session.incidents)
    guard (incident.version == request.expected_version)
        (incident_version_conflict_error "Incident aggregate version is stale.")
    guard (is_allowed incident.status request.new_status)
        (incident_lifecycle_error "The requested incident status transition is not allowed.")
    reason ← clean_reason request.reason
    guard (not (requires_reason incident.status request.new_status && not (is_some reason)))
        (incident_lifecycle_error "A resolution or reopen reason is required.")
    ok (record_transition (or_now clock request.changed_at) request reason incident session)
