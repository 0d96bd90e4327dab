-- ===== src/Incidents/Revisions.antt =====
-- The revisions of an incident's report are its saves, without a gap.
pub mod Saved
use ot_soc_fusion_x.Base.{◌+◌, ◌≡◌, Option, none, some, List, [], ◌∷◌, ◌++◌, select, str_eq}
use ot_soc_fusion_x.Platform.{Uuid}
use ot_soc_fusion_x.Incidents.Tables.{IncidentReport, IncidentReportRevision}
use ot_soc_fusion_x.Incidents.Store.{Session, find_report}
use ot_soc_fusion_x.Incidents.Report.{report_version}

-- The revisions are numbered from 1, each has the fields that the report had with that version, and the
-- last is the report as it is.
pub data IsRevised : List IncidentReportRevision → Option IncidentReport → Type 0 where
  unsaved : IsRevised [] none
  saved :
      {rows : List IncidentReportRevision} {old : Option IncidentReport}
      → IsRevised rows old
      → (revision : IncidentReportRevision) (report : IncidentReport)
      → revision.fields ≡ report.fields
      → revision.version ≡ report.version
      → revision.saved_by_user_id ≡ report.updated_by_user_id
      → revision.saved_at ≡ report.updated_at
      → report.version ≡ report_version old + 1
      → IsRevised (rows ++ revision ∷ []) (some report)

abbrev pub revisions_of : Uuid → Session → List IncidentReportRevision
revisions_of id s = select (λ row. str_eq row.incident_id id) s.report_revisions

pub record HasRevisions (s : Session) : Type 0 where
  pub at : (id : Uuid) → IsRevised (revisions_of id s) (find_report id s.reports)

-- What an operation does to the reports: nothing, or one save.
pub data ReportChange (s s' : Session) : Type 0 where
  untouched : s'.reports ≡ s.reports → s'.report_revisions ≡ s.report_revisions → ReportChange s s'
  revised :
      (id : Uuid) (revision : IncidentReportRevision) (report : IncidentReport)
      → find_report id s'.reports ≡ some report
      → ((j : Uuid) → ¬ (id ≡ j) → find_report j s'.reports ≡ find_report j s.reports)
      → s'.report_revisions ≡ s.report_revisions ++ revision ∷ []
      → revision.incident_id ≡ id
      → revision.fields ≡ report.fields
      → revision.version ≡ report.version
      → revision.saved_by_user_id ≡ report.updated_by_user_id
      → revision.saved_at ≡ report.updated_at
      → report.version ≡ report_version (find_report id s.reports) + 1
      → ReportChange s s'
