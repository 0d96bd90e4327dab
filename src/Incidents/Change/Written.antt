-- ===== src/Incidents/Change/Written.antt =====
-- What each operation writes is a `Change`.
use ot_soc_fusion_x.Base.{
  ◌+◌, ◌≡◌, refl, sym, ◌∙◌, inl, inr, Option, Text, none, some, [], ◌∷◌, ◌++◌,
}
use ot_soc_fusion_x.Platform.{Platform, Datetime, Uuid}
use ot_soc_fusion_x.Incidents.Tables.{Incident, IncidentAuditEvent, IncidentReport, ReportFields}
use ot_soc_fusion_x.Incidents.Store.{Session, find_incident, put_incident}
use ot_soc_fusion_x.Incidents.Store.Laws.{
  find_incident-id, find_incident-put_self, find_incident-put_other,
}
use ot_soc_fusion_x.Incidents.Notes.{NoteRequest, record_note}
use ot_soc_fusion_x.Incidents.Lifecycle.{StatusRequest, record_transition}
use ot_soc_fusion_x.Incidents.Lifecycle.Edges.{Edge}
use ot_soc_fusion_x.Incidents.Workflow.{
  AssignmentRequest, DispositionRequest, record_assignment, record_disposition,
}
use ot_soc_fusion_x.Incidents.Report.{ReportRequest, record_report}
use ot_soc_fusion_x.Incidents.Change.{Change, StatusChange, kept, moved}

-- An operation that writes the incident back with its version one higher.
written :
    (id : Uuid) (s s' : Session) (i i' : Incident) (event : IncidentAuditEvent)
    → find_incident id s.incidents ≡ some i
    → i'.incident_id ≡ i.incident_id
    → s'.incidents ≡ put_incident i' s.incidents
    → s'.audit_events ≡ s.audit_events ++ event ∷ []
    → event.incident_id ≡ i.incident_id
    → event.version_before ≡ i.version
    → event.version_after ≡ i'.version
    → i'.version ≡ i.version + 1
    → StatusChange s s' i i'
    → Change s s'
written id s s' i i' event found same rows audited eid eb ea v st =
    let key : i.incident_id ≡ id = find_incident-id id s.incidents found in
    record {
      id = id;
      before = i;
      after = i';
      found = found;
      stored = rw rows (find_incident-put_self id i' s.incidents (same ∙ key) found);
      others =
          λ j h. rw rows (find_incident-put_other j i' s.incidents (λ e. h (cc (e, same, key))));
      event = event;
      audited = audited;
      event_id = eid ∙ key;
      event_before = eb;
      event_after = ea;
      version = inr v;
      status = st;
    }

module _ (platform : Platform) (now : Datetime) where
  pub record_note-Change :
      (request : NoteRequest) (clean : Text) (i : Incident) (s : Session)
      → find_incident request.incident_id s.incidents ≡ some i
      → Change s (record_note platform now request clean i s).1
  unfolding record_note
  record_note-Change request clean i s found =
      written request.incident_id s (record_note platform now request clean i s).1 i
        (record_note platform now request clean i s).0 _ found refl refl refl refl refl refl refl
        (kept refl refl)

  pub record_transition-Change :
      (request : StatusRequest) (reason : Option Text) (i : Incident) (s : Session)
      → find_incident request.incident_id s.incidents ≡ some i
      → Edge i.status request.new_status
      → Change s (record_transition platform now request reason i s).1
  unfolding record_transition
  record_transition-Change request reason i s found edge =
      written request.incident_id s (record_transition platform now request reason i s).1 i
        (record_transition platform now request reason i s).0 _ found refl refl refl refl refl refl
        refl
        (moved _ refl (sym (find_incident-id request.incident_id s.incidents found)) refl refl edge
          refl refl refl)

  pub record_assignment-Change :
      (request : AssignmentRequest) (i : Incident) (s : Session)
      → find_incident request.incident_id s.incidents ≡ some i
      → Change s (record_assignment platform now request i s).1
  unfolding record_assignment
  record_assignment-Change request i s found =
      written request.incident_id s (record_assignment platform now request i s).1 i
        (record_assignment platform now request i s).0 _ found refl refl refl refl refl refl refl
        (kept refl refl)

  pub record_disposition-Change :
      (request : DispositionRequest) (reason : Text) (i : Incident) (s : Session)
      → find_incident request.incident_id s.incidents ≡ some i
      → Change s (record_disposition platform now request reason i s).1
  unfolding record_disposition
  record_disposition-Change request reason i s found =
      written request.incident_id s (record_disposition platform now request reason i s).1 i
        (record_disposition platform now request reason i s).0 _ found refl refl refl refl refl refl
        refl (kept refl refl)

  record_report-incidents :
      (request : ReportRequest) (fields : ReportFields) (i : Incident) (old : Option IncidentReport)
      (s : Session)
      → let s' = (record_report platform now request fields i old s).1 in
        (s'.incidents ≡ s.incidents) × (s'.status_history ≡ s.status_history)
  unfolding record_report
  record_report-incidents request fields i none s = (refl, refl)
  record_report-incidents request fields i (some r) s = (refl, refl)

  record_report-audit :
      (request : ReportRequest) (fields : ReportFields) (i : Incident) (old : Option IncidentReport)
      (s : Session)
      → (event : IncidentAuditEvent) × ((record_report platform now request fields i old
            s).1.audit_events
          ≡ s.audit_events ++ event ∷ [])
        × (event.incident_id ≡ i.incident_id)
        × (event.version_before ≡ i.version)
        × (event.version_after ≡ i.version)
  unfolding record_report
  record_report-audit request fields i none s = (_, refl, refl, refl, refl)
  record_report-audit request fields i (some r) s = (_, refl, refl, refl, refl)

  pub record_report-Change :
      (request : ReportRequest) (fields : ReportFields) (i : Incident) (old : Option IncidentReport)
      (s : Session)
      → find_incident request.incident_id s.incidents ≡ some i
      → Change s (record_report platform now request fields i old s).1
  record_report-Change request fields i old s found =
      let same = record_report-incidents request fields i old s in
      let (event, audited, eid, eb, ea) = record_report-audit request fields i old s in
      record {
        id = request.incident_id;
        before = i;
        after = i;
        found = found;
        stored = rw (same.0) found;
        others = λ j h. rw (same.0);
        event = event;
        audited = audited;
        event_id = eid ∙ find_incident-id request.incident_id s.incidents found;
        event_before = eb;
        event_after = ea;
        version = inl refl;
        status = kept same.1 refl;
      }
