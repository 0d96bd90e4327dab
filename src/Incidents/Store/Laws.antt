-- ===== src/Incidents/Store/Laws.antt =====
-- Reading after writing, by primary key.
use ot_soc_fusion_x.Base.{◌≡◌, refl, some, List, [], ◌∷◌, arith, eq_iff}
use ot_soc_fusion_x.Platform.{Uuid}
use ot_soc_fusion_x.Incidents.Tables.{Incident}
use ot_soc_fusion_x.Incidents.Store.{find_incident, put_incident}

-- A found row has the key that was searched for.
pub find_incident-id :
    (id : Uuid) (rows : List Incident) {i : Incident}
    → find_incident id rows ≡ some i
    → i.incident_id ≡ id
unfolding find_incident
find_incident-id id [] h = cc
find_incident-id id (x ∷ rows) {i} h =
    ground (arith, eq_iff x.incident_id id, find_incident-id id rows {i = i})

pub find_incident-put_self :
    (id : Uuid) (i : Incident) (rows : List Incident) {old : Incident}
    → i.incident_id ≡ id
    → find_incident id rows ≡ some old
    → find_incident id (put_incident i rows) ≡ some i
unfolding find_incident put_incident
find_incident-put_self id i [] e h = cc
find_incident-put_self id i (x ∷ rows) {old} e h = ground (
  arith,
  eq_iff x.incident_id id,
  eq_iff i.incident_id id,
  eq_iff x.incident_id i.incident_id,
  find_incident-put_self id i rows {old = old} e,
)

pub find_incident-put_other :
    (id : Uuid) (i : Incident) (rows : List Incident)
    → ¬ (i.incident_id ≡ id)
    → find_incident id (put_incident i rows) ≡ find_incident id rows
unfolding find_incident put_incident
find_incident-put_other id i [] h = refl
find_incident-put_other id i (x ∷ rows) h = ground (
  arith,
  eq_iff x.incident_id id,
  eq_iff i.incident_id id,
  eq_iff x.incident_id i.incident_id,
  find_incident-put_other id i rows h,
)
