-- ===== src/Incidents/Requests.antt =====
-- backend/app/api/incidents.py: patch_incident_status reads the incident before
-- transition_incident_status locks it, if it is asked to resolve it. The select that locks the row then
-- gives the instance that the session holds already, with the values of the first read, as SQLAlchemy
-- does unless it is told to populate existing instances.
pub mod Serial
pub mod Stale
pub mod Overtaken
use ot_soc_fusion_x.Base.{
  not, ◌&&◌, Option, none, some, ◌==◌, if◌then◌else◌, is_some, Result, ok, guard, or_raise, ◌>>=◌,
  ◌>>◌,
}
use ot_soc_fusion_x.Platform.{Platform, Datetime, or_now}
use ot_soc_fusion_x.Incidents.Model.{resolved, status_is}
use ot_soc_fusion_x.Incidents.Tables.{Incident}
use ot_soc_fusion_x.Incidents.Store.{
  Session, Error, incident_lifecycle_error, incident_version_conflict_error, find_incident,
  save_incident,
}
use ot_soc_fusion_x.Incidents.Lifecycle.{
  StatusRequest, is_allowed, requires_reason, clean_reason, record_transition,
}
use ot_soc_fusion_x.Incidents.Operations.{Operation, note, transition, assign, dispose, report, run}

-- What the route reads before the operation: session.get(Incident, incident_id)
unfoldable pub loads : Operation → Session → Option Incident
unfolding find_incident
loads (transition request) session =
    if status_is request.new_status resolved
    then find_incident request.incident_id session.incidents
    else none
loads _ session = none

-- The instance of a row that is selected: the one that is held, if there is one.
abbrev pub instance_of : Option Incident → Incident → Incident
instance_of none row = row
instance_of (some held) row = held

-- The flush updates the columns that have been changed; the row keeps the others.
abbrev pub flushed : Incident → Incident → Incident
flushed row changed = record row {
  status = changed.status;
  version = changed.version;
  updated_at = changed.updated_at;
}

unfoldable pub flush_transition : Incident → Session → Incident × Session → Incident × Session
unfolding save_incident
flush_transition row session (changed, written) = (
  changed,
  save_incident (flushed row changed) (record written { incidents = session.incidents }),
)

module _ (platform : Platform) where
  -- `transition_incident_status` in a session that may hold the incident already.
  unfoldable pub transition_held :
      Option Incident → Datetime → StatusRequest → Session → Result Error (Incident × Session)
  unfolding flush_transition
  transition_held held clock request session = do
    row ←
        or_raise (incident_lifecycle_error "Incident was not found.")
          (find_incident request.incident_id session.incidents)
    let incident = instance_of held row
    guard (incident.version == request.expected_version)
        (incident_version_conflict_error "Incident aggregate version is stale.")
    guard (is_allowed incident.status request.new_status)
        (incident_lifecycle_error "The requested incident status transition is not allowed.")
    reason ← clean_reason request.reason
    guard (not (requires_reason incident.status request.new_status && not (is_some reason)))
        (incident_lifecycle_error "A resolution or reopen reason is required.")
    ok (
        flush_transition row session (
          record_transition platform (or_now clock request.changed_at) request reason incident
            session))

  -- The operation of a request, whatever the session holds since the first read.
  unfoldable pub finish : Option Incident → Datetime → Operation → Session → Result Error Session
  unfolding transition_held run
  finish held clock (transition request) session = do
    r ← transition_held held clock request session
    ok r.1
  finish held clock (note request) session = run platform clock (note request) session
  finish held clock (assign request) session = run platform clock (assign request) session
  finish held clock (dispose request) session = run platform clock (dispose request) session
  finish held clock (report request) session = run platform clock (report request) session
