-- ===== src/Incidents/Store/Reports.antt =====
-- Reading a report after writing one, by primary key.
use ot_soc_fusion_x.Base.{◌≡◌, refl, none, some, List, [], ◌∷◌, ◌++◌, arith, eq_iff}
use ot_soc_fusion_x.Platform.{Uuid}
use ot_soc_fusion_x.Incidents.Tables.{IncidentReport}
use ot_soc_fusion_x.Incidents.Store.{find_report, put_report}

pub find_report-id :
    (id : Uuid) (rows : List IncidentReport) {r : IncidentReport}
    → find_report id rows ≡ some r
    → r.incident_id ≡ id
unfolding find_report
find_report-id id [] h = cc
find_report-id id (x ∷ rows) {r} h =
    ground (arith, eq_iff x.incident_id id, find_report-id id rows {r = r})

pub find_report-put_self :
    (id : Uuid) (r : IncidentReport) (rows : List IncidentReport) {old : IncidentReport}
    → r.incident_id ≡ id
    → find_report id rows ≡ some old
    → find_report id (put_report r rows) ≡ some r
unfolding find_report put_report
find_report-put_self id r [] e h = cc
find_report-put_self id r (x ∷ rows) {old} e h = ground (
  arith,
  eq_iff x.incident_id id,
  eq_iff r.incident_id id,
  eq_iff x.incident_id r.incident_id,
  find_report-put_self id r rows {old = old} e,
)

pub find_report-put_other :
    (id : Uuid) (r : IncidentReport) (rows : List IncidentReport)
    → ¬ (r.incident_id ≡ id)
    → find_report id (put_report r rows) ≡ find_report id rows
unfolding find_report put_report
find_report-put_other id r [] h = refl
find_report-put_other id r (x ∷ rows) h = ground (
  arith,
  eq_iff x.incident_id id,
  eq_iff r.incident_id id,
  eq_iff x.incident_id r.incident_id,
  find_report-put_other id r rows h,
)

pub find_report-append_self :
    (id : Uuid) (r : IncidentReport) (rows : List IncidentReport)
    → r.incident_id ≡ id
    → find_report id rows ≡ none
    → find_report id (rows ++ r ∷ []) ≡ some r
unfolding find_report
find_report-append_self id r [] e h = ground (arith, eq_iff r.incident_id id)
find_report-append_self id r (x ∷ rows) e h = ground (arith, find_report-append_self id r rows e)

pub find_report-append_other :
    (id : Uuid) (r : IncidentReport) (rows : List IncidentReport)
    → ¬ (r.incident_id ≡ id)
    → find_report id (rows ++ r ∷ []) ≡ find_report id rows
unfolding find_report
find_report-append_other id r [] h = ground (arith, eq_iff r.incident_id id)
find_report-append_other id r (x ∷ rows) h = ground (arith, find_report-append_other id r rows h)
