-- ===== src/Incidents/Change/OfOperation.antt =====
-- Every accepted analyst operation is a `Change`.
use ot_soc_fusion_x.Base.{◌≡◌, ap, subst, false, Text, some, Result, >>=-eq-ok, ok, arith}
use ot_soc_fusion_x.Platform.{Platform, Datetime}
use ot_soc_fusion_x.Incidents.Tables.{Incident, IncidentReport, ReportFields}
use ot_soc_fusion_x.Incidents.Store.{Session, Error, find_incident, find_report}
use ot_soc_fusion_x.Incidents.Notes.{NoteRequest, record_note, add_analyst_note, validate_note_text}
use ot_soc_fusion_x.Platform.{or_now}
use ot_soc_fusion_x.Incidents.PlainText.{bounded_plain_text}
use ot_soc_fusion_x.Incidents.Lifecycle.{transition_incident_status}
use ot_soc_fusion_x.Incidents.Lifecycle.Edges.{Edge-is_allowed}
use ot_soc_fusion_x.Incidents.Lifecycle.Outcome.{transition-inversion}
use ot_soc_fusion_x.Incidents.Workflow.{
  AssignmentRequest, DispositionRequest, record_assignment, record_disposition, assign_incident,
  set_incident_disposition, locked_incident,
}
use ot_soc_fusion_x.Incidents.Report.{
  ReportRequest, record_report, save_incident_report, report_version, clean_fields,
}
use ot_soc_fusion_x.Incidents.Operations.{Operation, note, transition, assign, dispose, report, run}
use ot_soc_fusion_x.Incidents.Change.{Change}
use ot_soc_fusion_x.Incidents.Change.Written.{
  record_note-Change, record_transition-Change, record_assignment-Change, record_disposition-Change,
  record_report-Change,
}

module _ (platform : Platform) (clock : Datetime) (s : Session) where
  pub add_analyst_note-inversion :
      (request : NoteRequest) {r : Incident × Session}
      → add_analyst_note platform clock request s ≡ ok r
      → (clean : Text) × (i : Incident) × (validate_note_text request.content 2000 ≡ ok clean)
        × (find_incident request.incident_id s.incidents ≡ some i)
        × (i.version ≡ request.expected_version)
        × (r ≡ record_note platform (or_now clock request.created_at) request clean i s)
  unfolding add_analyst_note
  add_analyst_note-inversion request h = ground arith

  pub assign_incident-inversion :
      (request : AssignmentRequest) {r : Incident × Session}
      → assign_incident platform clock request s ≡ ok r
      → (i : Incident) × (find_incident request.incident_id s.incidents ≡ some i)
        × (i.version ≡ request.expected_version)
        × (r ≡ record_assignment platform (or_now clock request.changed_at) request i s)
  unfolding assign_incident locked_incident
  assign_incident-inversion request h = ground arith

  pub set_incident_disposition-inversion :
      (request : DispositionRequest) {r : Incident × Session}
      → set_incident_disposition platform clock request s ≡ ok r
      → (reason : Text) × (i : Incident) × (bounded_plain_text request.reason 2000 false
          ≡ ok reason)
        × (find_incident request.incident_id s.incidents ≡ some i)
        × (i.version ≡ request.expected_version)
        × (r ≡ record_disposition platform (or_now clock request.changed_at) request reason i s)
  unfolding set_incident_disposition locked_incident
  set_incident_disposition-inversion request h = ground arith

  pub save_incident_report-inversion :
      (request : ReportRequest) {r : IncidentReport × Session}
      → save_incident_report platform clock request s ≡ ok r
      → (i : Incident) × (fields : ReportFields) × (find_incident request.incident_id s.incidents
          ≡ some i)
        × (clean_fields request.fields ≡ ok fields)
        × (report_version (find_report request.incident_id s.reports) ≡ request.expected_version)
        × (r
            ≡ record_report platform
                (or_now clock request.saved_at)
                request
                fields
                i
                (find_report request.incident_id s.reports)
                s)
  unfolding save_incident_report
  save_incident_report-inversion request h = ground arith

  result_Change :
      {A : Type 0} (r q : A × Session) {s' : Session}
      → ◌≡◌ {A = Result Error Session} (ok r.1) (ok s')
      → r ≡ q
      → Change s q.1
      → Change s s'
  result_Change r q out eq c = subst (Change s) (cc (out, ap (λ (x : _ × Session). x.1) eq)) c

  -- An accepted operation changes one incident and leaves the others alone, keeps its version or
  -- raises it by one, appends one audit event with the versions before and after, and keeps the status
  -- and its history, or moves the status along an edge and appends one row that says so.
  pub run-Change : (o : Operation) {s' : Session} → run platform clock o s ≡ ok s' → Change s s'
  unfolding run
  run-Change (note request) h =
      let (r, e, out) = >>=-eq-ok (add_analyst_note platform clock request s) _ h in
      let (clean, i, _, found, _, eq) = add_analyst_note-inversion request e in
      result_Change r _ out eq (record_note-Change platform _ request clean i s found)
  run-Change (transition request) h =
      let (r, e, out) = >>=-eq-ok (transition_incident_status platform clock request s) _ h in
      let (i, reason, found, _, edge, _, _, eq) = transition-inversion platform clock request s e in
      result_Change r _ out eq (
        record_transition-Change platform _ request reason i s found
          ((Edge-is_allowed i.status request.new_status).0 edge))
  run-Change (assign request) h =
      let (r, e, out) = >>=-eq-ok (assign_incident platform clock request s) _ h in
      let (i, found, _, eq) = assign_incident-inversion request e in
      result_Change r _ out eq (record_assignment-Change platform _ request i s found)
  run-Change (dispose request) h =
      let (r, e, out) = >>=-eq-ok (set_incident_disposition platform clock request s) _ h in
      let (reason, i, _, found, _, eq) = set_incident_disposition-inversion request e in
      result_Change r _ out eq (record_disposition-Change platform _ request reason i s found)
  run-Change (report request) h =
      let (r, e, out) = >>=-eq-ok (save_incident_report platform clock request s) _ h in
      let (i, fields, found, _, _, eq) = save_incident_report-inversion request e in
      result_Change r _ out eq (record_report-Change platform _ request fields i _ s found)
