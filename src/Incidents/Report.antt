-- ===== src/Incidents/Report.antt =====
-- backend/app/incidents/workflow.py: the incident report, its revisions, and whether an incident is
-- ready to be resolved. The response's context for display is not modelled.
use ot_soc_fusion_x.Base.{
  ℕ, ◌+◌, String, Text, Bool, true, false, not, Option, none, some, [], ◌∷◌, ◌++◌, ◌==◌,
  if◌then◌else◌, join, str_int, Result, ok, guard, ◌>>=◌, ◌>>◌,
}
use ot_soc_fusion_x.Platform.{Platform, Uuid, Datetime, num}
use ot_soc_fusion_x.Auth.Model.{LocalUser}
use ot_soc_fusion_x.Incidents.Model.{IncidentDisposition, unreviewed, report_saved}
use ot_soc_fusion_x.Incidents.Tables.{
  Incident, ReportFields, IncidentReport, IncidentReportRevision,
}
use ot_soc_fusion_x.Incidents.Store.{
  Session, Error, incident_workflow_error, incident_version_conflict_error, find_incident,
  find_report, put_report,
}
use ot_soc_fusion_x.Base.{or_raise}
use ot_soc_fusion_x.Incidents.Audit.{append_audit_event}
use ot_soc_fusion_x.Platform.{or_now}
use ot_soc_fusion_x.Incidents.PlainText.{bounded_plain_text, has_content}

abbrev report_revision_namespace : Uuid
report_revision_namespace = "9f74578a-a139-55c2-9c55-fb12c84bfbce"

-- {name: _bounded_plain_text(getattr(fields, name), …) for name in REPORT_FIELD_NAMES}
unfoldable pub clean_fields : ReportFields → Result Error ReportFields
unfolding bounded_plain_text
clean_fields f = do
  a ← bounded_plain_text f.investigation_summary 4000 true
  b ← bounded_plain_text f.analyst_assessment 4000 true
  c ← bounded_plain_text f.evidence_assessment 4000 true
  d ← bounded_plain_text f.process_impact_assessment 4000 true
  e ← bounded_plain_text f.disposition_rationale 4000 true
  g ← bounded_plain_text f.recommended_follow_up 4000 true
  h ← bounded_plain_text f.final_conclusion 4000 true
  ok (record {
    investigation_summary = a;
    analyst_assessment = b;
    evidence_assessment = c;
    process_impact_assessment = d;
    disposition_rationale = e;
    recommended_follow_up = g;
    final_conclusion = h;
  })

-- "\x1f".join(clean[name] for name in REPORT_FIELD_NAMES)
abbrev joined_fields : ReportFields → Text
joined_fields f =
    f.investigation_summary
    ++ (31
        ∷ (f.analyst_assessment
            ++ (31
                ∷ (f.evidence_assessment
                    ++ (31
                        ∷ (f.process_impact_assessment
                            ++ (31
                                ∷ (f.disposition_rationale
                                    ++ (31
                                        ∷ (f.recommended_follow_up
                                            ++ (31 ∷ f.final_conclusion)))))))))))

abbrev one_if : Bool → ℕ
one_if b = if b then 1 else 0

-- sum(bool(values[name].strip()) for name in REPORT_FIELD_NAMES)
unfoldable pub fields_filled : ReportFields → ℕ
unfolding has_content
fields_filled f =
    one_if (has_content f.investigation_summary)
    + one_if (has_content f.analyst_assessment)
    + one_if (has_content f.evidence_assessment)
    + one_if (has_content f.process_impact_assessment)
    + one_if (has_content f.disposition_rationale)
    + one_if (has_content f.recommended_follow_up)
    + one_if (has_content f.final_conclusion)

-- 0 if report is None else report.version
abbrev pub report_version : Option IncidentReport → ℕ
report_version none = 0
report_version (some report) = report.version

-- The arguments of `save_incident_report`.
pub record ReportRequest : Type 0 where
  pub incident_id : Uuid
  pub fields : ReportFields
  pub expected_version : ℕ
  pub actor_user : LocalUser
  pub request_id : String
  pub saved_at : Option Datetime

-- The report after the save: a new row, or the old one with the fields, version and editor replaced.
unfoldable pub saved_report :
    Datetime → ReportRequest → ReportFields → Option IncidentReport → IncidentReport
saved_report now request fields none = record {
  incident_id = request.incident_id;
  fields = fields;
  version = 1;
  created_by_user_id = request.actor_user.user_id;
  created_at = now;
  updated_by_user_id = request.actor_user.user_id;
  updated_at = now;
}
saved_report now request fields (some report) = record report {
  fields = fields;
  version = report.version + 1;
  updated_by_user_id = request.actor_user.user_id;
  updated_at = now;
}

-- session.add of a new report, or the flush of a changed one
unfoldable pub save_report : Option IncidentReport → IncidentReport → Session → Session
unfolding put_report
save_report none report session = record session { reports = session.reports ++ report ∷ [] }
save_report (some old) report session = record session {
  reports = put_report report session.reports;
}

module _ (platform : Platform) where
  unfoldable pub report_revision :
      Datetime → ReportRequest → ReportFields → ℕ → IncidentReportRevision
  unfolding str_int
  report_revision now request fields version = record {
    revision_id = platform.uuid5 report_revision_namespace (
        join "|" (
          request.incident_id ∷ str_int version ∷ platform.sha256_hex (joined_fields fields) ∷ []));
    incident_id = request.incident_id;
    fields = fields;
    version = version;
    saved_by_user_id = request.actor_user.user_id;
    saved_at = now;
  }

  unfoldable pub record_report :
      Datetime
      → ReportRequest
      → ReportFields
      → Incident
      → Option IncidentReport
      → Session
      → IncidentReport × Session
  unfolding report_revision saved_report save_report append_audit_event fields_filled
  record_report now request fields incident found session =
      let next_version = report_version found + 1 in
      let report = saved_report now request fields found in
      let saved = save_report found report session in
      let revision = report_revision now request fields next_version in
      let revised = record saved { report_revisions = saved.report_revisions ++ revision ∷ [] } in
      let audited =
        append_audit_event platform incident
          (record {
            action = report_saved;
            occurred_at = now;
            actor_context = request.actor_user.display_name;
            actor_user_id = some request.actor_user.user_id;
            request_id = request.request_id;
            result = "ACCEPTED";
            safe_reason = some "Bounded plain-text incident report saved.";
            version_before = incident.version;
            version_after = incident.version;
            details =
                ("report_version", num next_version)
                ∷ ("fields_filled", num (fields_filled fields))
                ∷ [];
          })
          revised in
      (report, audited)

  unfoldable pub save_incident_report :
      Datetime → ReportRequest → Session → Result Error (IncidentReport × Session)
  save_incident_report clock request session = do
    incident ←
        or_raise (incident_workflow_error "Incident was not found.")
          (find_incident request.incident_id session.incidents)
    fields ← clean_fields request.fields
    let found = find_report request.incident_id session.reports
    guard (report_version found == request.expected_version)
        (incident_version_conflict_error "Incident report version is stale.")
    ok (record_report (or_now clock request.saved_at) request fields incident found session)

abbrev is_unreviewed : IncidentDisposition → Bool
is_unreviewed unreviewed = true
is_unreviewed _ = false

-- report is not None and report.final_conclusion.strip()
abbrev has_conclusion : Option IncidentReport → Bool
has_conclusion none = false
has_conclusion (some report) = has_content report.fields.final_conclusion

unfoldable pub validate_resolution_ready : Session → Incident → Result Error (Unit {0})
unfolding find_report has_content
validate_resolution_ready session incident = do
  guard (not (is_unreviewed incident.disposition))
      (incident_workflow_error "A reviewed analyst disposition is required before resolution.")
  guard (has_conclusion (find_report incident.incident_id session.reports))
      (incident_workflow_error "A Final Conclusion is required before resolution.")
