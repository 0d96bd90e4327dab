-- ===== src/Incidents/Revisions/Saved.antt =====
-- Every sequence of analyst operations keeps the revisions of the reports.
use ot_soc_fusion_x.Base.{
  ◌≡◌, refl, sym, ◌∙◌, ap, subst, Option, none, some, List, [], ◌∷◌, inl, inr, ok, err, Result,
  str_eq, eq_iff, Bool-cases, arith, >>=-eq-ok,
}
use ot_soc_fusion_x.Platform.{Platform, Datetime}
use ot_soc_fusion_x.Incidents.Tables.{Incident, IncidentReport, ReportFields}
use ot_soc_fusion_x.Incidents.Store.{Session, Error, find_report}
use ot_soc_fusion_x.Incidents.Store.Reports.{
  find_report-id, find_report-put_self, find_report-put_other, find_report-append_self,
  find_report-append_other,
}
use ot_soc_fusion_x.Incidents.Rows.{select-append_pass, select-append_fail, str_eq_self, str_eq-ne}
use ot_soc_fusion_x.Incidents.Notes.{add_analyst_note, record_note}
use ot_soc_fusion_x.Incidents.Lifecycle.{transition_incident_status, record_transition}
use ot_soc_fusion_x.Incidents.Lifecycle.Outcome.{transition-inversion}
use ot_soc_fusion_x.Incidents.Workflow.{
  assign_incident, set_incident_disposition, record_assignment, record_disposition,
}
use ot_soc_fusion_x.Incidents.Report.{ReportRequest, record_report, save_incident_report}
use ot_soc_fusion_x.Incidents.Operations.{
  Operation, note, transition, assign, dispose, report, run, serve, committed,
}
use ot_soc_fusion_x.Incidents.Change.OfOperation.{
  add_analyst_note-inversion, assign_incident-inversion, set_incident_disposition-inversion,
  save_incident_report-inversion,
}
use ot_soc_fusion_x.Incidents.Revisions.{saved, HasRevisions, ReportChange, untouched, revised}

record_report-ReportChange :
    (platform : Platform) (now : Datetime) (request : ReportRequest) (fields : ReportFields)
    (i : Incident) (old : Option IncidentReport) (s : Session)
    → find_report request.incident_id s.reports ≡ old
    → ReportChange s (record_report platform now request fields i old s).1
unfolding record_report
record_report-ReportChange platform now request fields i none s found =
    revised request.incident_id _ _
      (find_report-append_self request.incident_id _ s.reports refl found)
      (λ j ne. find_report-append_other j _ s.reports ne) refl refl refl refl refl refl
      (rw found refl)
record_report-ReportChange platform now request fields i (some r) s found =
    let same = find_report-id request.incident_id s.reports found in
    revised request.incident_id _ _
      (find_report-put_self request.incident_id _ s.reports same found)
      (λ j ne. find_report-put_other j _ s.reports (λ e. ne (sym same ∙ e))) refl refl refl refl
      refl refl (rw found refl)

module _ (platform : Platform) (clock : Datetime) (s : Session) where
  result_ReportChange :
      {A : Type 0} (r q : A × Session) {s' : Session}
      → ◌≡◌ {A = Result Error Session} (ok r.1) (ok s')
      → r ≡ q
      → ReportChange s q.1
      → ReportChange s s'
  result_ReportChange r q out eq c =
      subst (ReportChange s) (cc (out, ap (λ (x : _ × Session). x.1) eq)) c

  run-ReportChange :
      (o : Operation) {s' : Session} → run platform clock o s ≡ ok s' → ReportChange s s'
  unfolding run record_note record_transition record_assignment record_disposition
  run-ReportChange (note request) h =
      let (r, e, out) = >>=-eq-ok (add_analyst_note platform clock request s) _ h in
      let (_, _, _, _, _, eq) = add_analyst_note-inversion platform clock s request e in
      result_ReportChange r _ out eq (untouched refl refl)
  run-ReportChange (transition request) h =
      let (r, e, out) = >>=-eq-ok (transition_incident_status platform clock request s) _ h in
      let (_, _, _, _, _, _, _, eq) = transition-inversion platform clock request s e in
      result_ReportChange r _ out eq (untouched refl refl)
  run-ReportChange (assign request) h =
      let (r, e, out) = >>=-eq-ok (assign_incident platform clock request s) _ h in
      let (_, _, _, eq) = assign_incident-inversion platform clock s request e in
      result_ReportChange r _ out eq (untouched refl refl)
  run-ReportChange (dispose request) h =
      let (r, e, out) = >>=-eq-ok (set_incident_disposition platform clock request s) _ h in
      let (_, _, _, _, _, eq) = set_incident_disposition-inversion platform clock s request e in
      result_ReportChange r _ out eq (untouched refl refl)
  run-ReportChange (report request) h =
      let (r, e, out) = >>=-eq-ok (save_incident_report platform clock request s) _ h in
      let (i, fields, _, _, _, eq) = save_incident_report-inversion platform clock s request e in
      result_ReportChange r _ out eq
        (record_report-ReportChange platform _ request fields i _ s refl)

ReportChange-HasRevisions : {s s' : Session} → ReportChange s s' → HasRevisions s → HasRevisions s'
ReportChange-HasRevisions (untouched reports rows) h = record {
  at = λ id. rw (reports, rows) (h.at id);
}
ReportChange-HasRevisions {s} {s'} (revised id revision new found others rows rid f v by when up)
      h =
    record {
      at = λ j. elim (Bool-cases (str_eq id j)) [
        | inl same ↦
            let e = (eq_iff id j).0 same in
            let mine = str_eq_self _ _ rid in
            rw
              (
                ← e,
                found,
                rows,
                select-append_pass (λ row. str_eq row.incident_id id) s.report_revisions revision
                    mine,
              )
              (saved (h.at id) revision new f v by when up)
        | inr different ↦
            let ne : ¬ (id ≡ j) = λ e. ground (arith, str_eq_self id j e) in
            let foreign = str_eq-ne revision.incident_id j (λ e. ne (sym rid ∙ e)) in
            rw
              (
                others j ne,
                rows,
                select-append_fail (λ row. str_eq row.incident_id j) s.report_revisions revision
                    foreign,
              )
              (h.at j)
      ];
    }

module _ (platform : Platform) where
  committed-HasRevisions :
      (clock : Datetime) (o : Operation) (s : Session) (r : Result Error Session)
      → run platform clock o s ≡ r
      → HasRevisions s
      → HasRevisions (committed platform s r)
  committed-HasRevisions clock o s (ok s') e h =
      ReportChange-HasRevisions (run-ReportChange platform clock s o e) h
  committed-HasRevisions clock o s (err error) e h = h

  -- Whatever analysts ask for, one request after another, the revisions of each report stay its saves in order: they are numbered
  -- from 1 without a gap, and the last has the fields, the version, the editor and the time that the
  -- report has.
  pub serve-HasRevisions :
      (requests : List (Datetime × Operation)) (s : Session)
      → HasRevisions s
      → HasRevisions (serve platform requests s)
  unfolding serve
  serve-HasRevisions [] s h = h
  serve-HasRevisions ((clock, o) ∷ rest) s h =
      serve-HasRevisions rest (committed platform s (run platform clock o s))
        (committed-HasRevisions clock o s (run platform clock o s) refl h)
