-- ===== src/Incidents/Operations.antt =====
-- The analyst operations of backend/app/incidents as one type, the way backend/app/api/incidents.py
-- calls them: one operation in one database session, which is committed if it returns and rolled back
-- if it raises. A run takes the requests one after another; what a route reads before its operation is
-- in Incidents/Requests.
use ot_soc_fusion_x.Base.{List, [], ◌∷◌, Result, ok, err, ◌>>=◌}
use ot_soc_fusion_x.Platform.{Platform, Datetime}
use ot_soc_fusion_x.Incidents.Store.{Session, Error}
use ot_soc_fusion_x.Incidents.Notes.{NoteRequest, add_analyst_note}
use ot_soc_fusion_x.Incidents.Lifecycle.{StatusRequest, transition_incident_status}
use ot_soc_fusion_x.Incidents.Workflow.{
  AssignmentRequest, DispositionRequest, assign_incident, set_incident_disposition,
}
use ot_soc_fusion_x.Incidents.Report.{ReportRequest, save_incident_report}

pub data Operation : Type 0 where
  note : NoteRequest → Operation
  transition : StatusRequest → Operation
  assign : AssignmentRequest → Operation
  dispose : DispositionRequest → Operation
  report : ReportRequest → Operation

module _ (platform : Platform) where
  unfoldable pub run : Datetime → Operation → Session → Result Error Session
  run clock (note request) s = do r ← add_analyst_note platform clock request s; ok r.1
  run clock (transition request) s = do
    r ← transition_incident_status platform clock request s
    ok r.1
  run clock (assign request) s = do r ← assign_incident platform clock request s; ok r.1
  run clock (dispose request) s = do r ← set_incident_disposition platform clock request s; ok r.1
  run clock (report request) s = do r ← save_incident_report platform clock request s; ok r.1

  -- session.rollback()
  abbrev pub committed : Session → Result Error Session → Session
  committed s (ok s') = s'
  committed s (err error) = s

  -- The sessions of the requests one after another, each with its own time.
  unfoldable pub serve : List (Datetime × Operation) → Session → Session
  serve [] s = s
  serve ((clock, operation) ∷ rest) s = serve rest (committed s (run clock operation s))
