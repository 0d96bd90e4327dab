-- ===== src/Incidents/Change.antt =====
-- What an accepted operation does to the tables, in the terms that the invariants are stated in: the
-- incident that it is about before and after, the one audit event that it appends, and the row of
-- the status history, if the status moves.
pub mod Written
pub mod OfOperation
use ot_soc_fusion_x.Base.{◌+◌, ◌≡◌, ◌⊎◌, some, [], ◌∷◌, ◌++◌}
use ot_soc_fusion_x.Platform.{Uuid}
use ot_soc_fusion_x.Incidents.Tables.{Incident, IncidentStatusHistory, IncidentAuditEvent}
use ot_soc_fusion_x.Incidents.Store.{Session, find_incident}
use ot_soc_fusion_x.Incidents.Lifecycle.Edges.{Edge}

pub data StatusChange (s s' : Session) (before after : Incident) : Type 0 where
  kept :
      s'.status_history ≡ s.status_history
      → after.status ≡ before.status
      → StatusChange s s' before after
  moved :
      (row : IncidentStatusHistory)
      → s'.status_history ≡ s.status_history ++ row ∷ []
      → row.incident_id ≡ before.incident_id
      → row.previous_status ≡ some before.status
      → row.new_status ≡ after.status
      → Edge before.status after.status
      → row.version_before ≡ before.version
      → row.version_after ≡ after.version
      → after.version ≡ before.version + 1
      → StatusChange s s' before after

pub record Change (s s' : Session) : Type 0 where
  pub id : Uuid
  pub before : Incident
  pub after : Incident
  pub found : find_incident id s.incidents ≡ some before
  pub stored : find_incident id s'.incidents ≡ some after
  pub others : (j : Uuid) → ¬ (id ≡ j) → find_incident j s'.incidents ≡ find_incident j s.incidents
  pub event : IncidentAuditEvent
  pub audited : s'.audit_events ≡ s.audit_events ++ event ∷ []
  pub event_id : event.incident_id ≡ id
  pub event_before : event.version_before ≡ before.version
  pub event_after : event.version_after ≡ after.version
  pub version : (after.version ≡ before.version) ⊎ (after.version ≡ before.version + 1)
  pub status : StatusChange s s' before after
