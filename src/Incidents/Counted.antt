-- ===== src/Incidents/Counted.antt =====
-- The evidence count of an incident is the number of its memberships, under the grouping of candidates.
pub mod Created
pub mod Enriched
pub mod Received
use ot_soc_fusion_x.Base.{
  ℕ, ◌≡◌, refl, ◌∙◌, ap, Option, none, some, List, [], ◌∷◌, ◌++◌, str_eq, eq_iff, Bool-cases, inl,
  inr, arith, subst,
}
use ot_soc_fusion_x.Platform.{Uuid, Sha256}
use ot_soc_fusion_x.Incidents.Tables.{Incident}
use ot_soc_fusion_x.Incidents.Store.{Session, find_incident, put_incident, save_incident}
use ot_soc_fusion_x.Incidents.Store.Laws.{find_incident-put_self, find_incident-put_other}
use ot_soc_fusion_x.Incidents.Creation.{find_grouping}
use ot_soc_fusion_x.Incidents.Counts.{count}

abbrev pub counted : Option Incident → ℕ
counted none = 0
counted (some i) = i.evidence_count

-- No two incidents have the same identifier.
abbrev pub AreDistinct : List Incident → Type 0
AreDistinct [] = Unit
AreDistinct (i ∷ rest) = (find_incident i.incident_id rest ≡ none) × AreDistinct rest

-- Every incident has as many memberships as it says, and a membership is of an incident.
pub record IsCounted (s : Session) : Type 0 where
  pub at : (id : Uuid) → counted (find_incident id s.incidents) ≡ count id s.memberships
  pub distinct : AreDistinct s.incidents

pub find_incident-append_self :
    (id : Uuid) (i : Incident) (rows : List Incident)
    → i.incident_id ≡ id
    → find_incident id rows ≡ none
    → find_incident id (rows ++ i ∷ []) ≡ some i
unfolding find_incident
find_incident-append_self id i [] e h = ground (arith, eq_iff i.incident_id id)
find_incident-append_self id i (x ∷ rows) e h =
    ground (arith, find_incident-append_self id i rows e)

pub find_incident-append_other :
    (id : Uuid) (i : Incident) (rows : List Incident)
    → ¬ (i.incident_id ≡ id)
    → find_incident id (rows ++ i ∷ []) ≡ find_incident id rows
unfolding find_incident
find_incident-append_other id i [] e = ground (arith, eq_iff i.incident_id id)
find_incident-append_other id i (x ∷ rows) e =
    ground (arith, find_incident-append_other id i rows e)

-- An absent identifier stays absent when a row is replaced.
absent-put :
    (id : Uuid) (i : Incident) (rows : List Incident)
    → find_incident id rows ≡ none
    → find_incident id (put_incident i rows) ≡ none
unfolding find_incident put_incident
absent-put id i [] h = refl
absent-put id i (x ∷ rows) h = ground (
  arith,
  eq_iff x.incident_id id,
  eq_iff i.incident_id id,
  eq_iff x.incident_id i.incident_id,
  absent-put id i rows,
)

put-AreDistinct :
    (i : Incident) (rows : List Incident) → AreDistinct rows → AreDistinct (put_incident i rows)
unfolding put_incident
put-AreDistinct i [] h = tt
put-AreDistinct i (x ∷ rows) h = elim (Bool-cases (str_eq x.incident_id i.incident_id)) [
  | inl t ↦
      let same : x.incident_id ≡ i.incident_id =
        ground (arith, eq_iff x.incident_id i.incident_id) in
      rw t (subst (λ j. find_incident j rows ≡ none) same h.0, h.1)
  | inr f ↦ rw f (absent-put x.incident_id i rows h.0, put-AreDistinct i rows h.1)
]

pub append-AreDistinct :
    (i : Incident) (rows : List Incident)
    → find_incident i.incident_id rows ≡ none
    → AreDistinct rows
    → AreDistinct (rows ++ i ∷ [])
unfolding find_incident
append-AreDistinct i [] a h = (refl, tt)
append-AreDistinct i (x ∷ rows) a h =
    let apart : ¬ (i.incident_id ≡ x.incident_id) =
      ground (arith, eq_iff x.incident_id i.incident_id) in
    let rest : find_incident i.incident_id rows ≡ none = ground arith in
    (
      find_incident-append_other x.incident_id i rows apart ∙ h.0,
      append-AreDistinct i rows rest h.1,
    )

-- The incident of a group is the one with its identifier.
pub find_grouping-found :
    (key : Sha256) (rows : List Incident) {i : Incident}
    → AreDistinct rows
    → find_grouping key rows ≡ some i
    → find_incident i.incident_id rows ≡ some i
unfolding find_grouping find_incident
find_grouping-found key [] d h = cc
find_grouping-found key (x ∷ rows) {i} d h = elim (Bool-cases (str_eq x.grouping_key_sha256 key)) [
  | inl t ↦ ground (arith, eq_iff x.incident_id i.incident_id)
  | inr f ↦
      let later : find_incident i.incident_id rows ≡ some i =
        find_grouping-found key rows d.1 (ground arith) in
      ground (arith, eq_iff x.incident_id i.incident_id, d.0, later)
]

-- A row that is replaced is counted again.
pub saved-IsCounted :
    (i : Incident) (s : Session) {old : Incident}
    → find_incident i.incident_id s.incidents ≡ some old
    → i.evidence_count ≡ count i.incident_id s.memberships
    → ((j : Uuid)
        → ¬ (i.incident_id ≡ j)
        → counted (find_incident j s.incidents) ≡ count j s.memberships)
    → AreDistinct s.incidents
    → IsCounted (save_incident i s)
unfolding save_incident
saved-IsCounted i s {old} found same others d = record {
  at = λ id. elim (Bool-cases (str_eq i.incident_id id)) [
    | inl t ↦
        let here : i.incident_id ≡ id = ground (arith, eq_iff i.incident_id id) in
        subst (λ j. counted (find_incident j (put_incident i s.incidents)) ≡ count j s.memberships)
          here (ap counted (find_incident-put_self i.incident_id i s.incidents refl found) ∙ same)
    | inr f ↦
        let there : ¬ (i.incident_id ≡ id) = ground (arith, eq_iff i.incident_id id) in
        ap counted (find_incident-put_other id i s.incidents there) ∙ others id there
  ];
  distinct = put-AreDistinct i s.incidents d;
}

pub same_tables :
    (s s' : Session)
    → s'.incidents ≡ s.incidents
    → s'.memberships ≡ s.memberships
    → IsCounted s
    → IsCounted s'
same_tables s s' a b h = record { at = λ id. rw (a, b) (h.at id); distinct = rw a h.distinct }
