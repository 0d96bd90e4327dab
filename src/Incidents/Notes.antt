-- ===== src/Incidents/Notes.antt =====
-- backend/app/incidents/notes.py
pub mod Safety
use ot_soc_fusion_x.Base.{
  is_control, ℕ, ◌+◌, String, Text, Bool, not, ◌&&◌, ◌||◌, Option, none, some, [], ◌∷◌, ◌++◌, leb,
  ◌==◌, if◌then◌else◌, any, length, concat, join, str_int, Result, ok, err, guard, ◌>>=◌, ◌>>◌,
}
use ot_soc_fusion_x.Platform.{or_now, Platform, Uuid, Datetime, str}
use ot_soc_fusion_x.Incidents.Model.{TimelineEntryType, AuditAction}
use ot_soc_fusion_x.Incidents.Tables.{Incident, IncidentNote}
use ot_soc_fusion_x.Incidents.Store.{
  Session, Error, incident_note_error, incident_version_conflict_error, find_incident,
  save_incident,
}
use ot_soc_fusion_x.Base.{or_raise}
use ot_soc_fusion_x.Incidents.Audit.{append_audit_event}
use ot_soc_fusion_x.Incidents.Timeline.{append_timeline_entry}

abbrev note_id_namespace : Uuid
note_id_namespace = "a33ea2e2-d9fd-5d87-8b1f-d07334e1a5c6"

-- category(char) == "Cc" and char not in "\n\t"
unfoldable pub is_unsafe : ℕ → Bool
unfolding is_control
is_unsafe c = is_control c && not (c == 10 || c == 9)

unfoldable pub validate_note_text : Text → ℕ → Result Error Text
unfolding is_unsafe str_int
validate_note_text content maximum =
    if not (leb 1 (length content) && leb (length content) maximum)
    then err (
        incident_note_error (
          concat ("Note text must contain between 1 and " ∷ str_int maximum ∷ " characters." ∷ [])))
    else if any (λ c. c == 0) content
    then err (incident_note_error "Note text must not contain NUL.")
    else if any is_unsafe content
    then err (incident_note_error "Note text contains an unsafe control character.")
    else ok content

-- The arguments of `add_analyst_note`.
pub record NoteRequest : Type 0 where
  pub incident_id : Uuid
  pub content : Text
  pub expected_version : ℕ
  pub actor_context : String
  pub actor_user_id : Option Uuid
  pub request_id : String
  pub created_at : Option Datetime

module _ (platform : Platform) where
  -- What is written once the checks have passed.
  unfoldable pub record_note :
      Datetime → NoteRequest → Text → Incident → Session → Incident × Session
  unfolding str_int append_audit_event append_timeline_entry save_incident
  record_note now request clean incident session =
      let before = incident.version in
      let after = before + 1 in
      let name = join "|" (
        request.incident_id
        ∷ request.actor_context
        ∷ platform.sha256_hex clean
        ∷ str_int before
        ∷ []) in
      let note : IncidentNote = record {
        note_id = platform.uuid5 note_id_namespace name;
        incident_id = request.incident_id;
        content = clean;
        actor_context = request.actor_context;
        actor_user_id = request.actor_user_id;
        request_id = request.request_id;
        created_at = now;
        aggregate_version = after;
      } in
      let incident' = record incident { version = after; updated_at = now } in
      let noted = save_incident incident' (record session { notes = session.notes ++ note ∷ [] }) in
      let entered =
        append_timeline_entry platform incident'
          (record {
            entry_type = TimelineEntryType.analyst_note_added;
            reference_id = note.note_id;
            observed_at = now;
            recorded_at = now;
            summary = "An analyst note was added to the investigation container.";
            actor_context = request.actor_context;
            aggregate_version = after;
            membership = none;
          })
          noted in
      let audited =
        append_audit_event platform incident'
          (record {
            action = AuditAction.analyst_note_added;
            occurred_at = now;
            actor_context = request.actor_context;
            actor_user_id = request.actor_user_id;
            request_id = request.request_id;
            result = "ACCEPTED";
            safe_reason = some "Bounded analyst context appended.";
            version_before = before;
            version_after = after;
            details = ("note_id", str note.note_id) ∷ [];
          })
          entered in
      (incident', audited)

  -- `clock` is the time that `datetime.now(UTC)` gives.
  unfoldable pub add_analyst_note :
      Datetime → NoteRequest → Session → Result Error (Incident × Session)
  add_analyst_note clock request session = do
    clean ← validate_note_text request.content 2000
    incident ←
        or_raise (incident_note_error "Incident was not found.")
          (find_incident request.incident_id session.incidents)
    guard (incident.version == request.expected_version)
        (incident_version_conflict_error "Incident aggregate version is stale.")
    ok (record_note (or_now clock request.created_at) request clean incident session)
