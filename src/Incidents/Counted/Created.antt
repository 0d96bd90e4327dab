-- ===== src/Incidents/Counted/Created.antt =====
-- The evidence count and the insertion of an incident with its first evidence.
use ot_soc_fusion_x.Base.{
  ◌≡◌, refl, ◌∙◌, sym, ap, Bool, true, false, none, some, [], ◌∷◌, ◌++◌, length, str_eq, eq_iff,
  Bool-cases, Option-cases, inl, inr, arith, ok, err, ok-injective, subst, String,
}
use ot_soc_fusion_x.Platform.{Platform, Datetime}
use ot_soc_fusion_x.Incidents.Tables.{Incident}
use ot_soc_fusion_x.Incidents.Store.{Session, find_incident}
use ot_soc_fusion_x.Incidents.Candidate.{
  QualifiedIncidentCandidate, IncidentIdentity, IncidentProfile, memberships_of, unique_evidence,
}
use ot_soc_fusion_x.Incidents.Creation.{
  incident_persistence_error, integrity_error, find_grouping, new_incident, insert_memberships,
  record_creation, insert_or_load_incident,
}
use ot_soc_fusion_x.Incidents.Counts.{
  count, insert_memberships-incidents, insert_memberships-other, insert_memberships-first,
}
use ot_soc_fusion_x.Incidents.Counted.{
  counted, IsCounted, find_incident-append_self, find_incident-append_other, append-AreDistinct,
  find_grouping-found, same_tables,
}

absurd_new {ℓ} : {A : Type ℓ} → true ≡ false → A
absurd_new h = cc

module _ (platform : Platform) where
  record_creation-tables :
      (i : Incident) (c : QualifiedIncidentCandidate) (now : Datetime) (request_id : String)
      (s : Session)
      → let added = (insert_memberships platform i.incident_id (memberships_of c) now s).1 in
        let s' = record_creation platform i c now request_id s in
        (s'.incidents ≡ added.incidents) × (s'.memberships ≡ added.memberships)
  unfolding record_creation
  record_creation-tables i c now request_id s = (refl, refl)

  -- A new row is counted with the memberships that are inserted for it.
  appended-IsCounted :
      (i : Incident) (c : QualifiedIncidentCandidate) (now : Datetime) (s : Session)
      → unique_evidence (memberships_of c) ≡ true
      → i.evidence_count ≡ length (memberships_of c)
      → find_incident i.incident_id s.incidents ≡ none
      → IsCounted s
      → IsCounted (
          (insert_memberships platform i.incident_id
            (memberships_of c)
            now
            (record s { incidents = s.incidents ++ i ∷ [] })).1)
  appended-IsCounted i c now s u n absent h =
      let s1 : Session = record s { incidents = s.incidents ++ i ∷ [] } in
      let same = insert_memberships-incidents platform i.incident_id now (memberships_of c) s1 in
      let none_yet : count i.incident_id s.memberships ≡ 0 =
        sym (h.at i.incident_id) ∙ ap counted absent in
      let rows =
        insert_memberships-first platform i.incident_id now (memberships_of c) s1 u none_yet in
      record {
        at = λ id. elim (Bool-cases (str_eq i.incident_id id)) [
          | inl t ↦
              let here : i.incident_id ≡ id = ground (arith, eq_iff i.incident_id id) in
              let after = (insert_memberships platform i.incident_id (memberships_of c) now s1).1 in
              subst (λ j. counted (find_incident j after.incidents) ≡ count j after.memberships)
                here
                (ap (λ r. counted (find_incident i.incident_id r)) same
                  ∙ ap counted (find_incident-append_self i.incident_id i s.incidents refl absent)
                  ∙ n
                  ∙ sym rows)
          | inr f ↦
              let there : ¬ (i.incident_id ≡ id) = ground (arith, eq_iff i.incident_id id) in
              ap (λ r. counted (find_incident id r)) same
              ∙ ap counted (find_incident-append_other id i s.incidents there)
              ∙ h.at id
              ∙ sym (
                  insert_memberships-other platform i.incident_id now id (memberships_of c) s1
                    there)
        ];
        distinct = rw same (append-AreDistinct i s.incidents absent h.distinct);
      }

  new_incident-count :
      (c : QualifiedIncidentCandidate) (identity : IncidentIdentity) (profile : IncidentProfile)
      (epoch now : Datetime)
      → (new_incident c identity profile epoch now).evidence_count ≡ length (memberships_of c)
  unfolding new_incident
  new_incident-count c identity profile epoch now = omega arith

  -- The insertion of an incident keeps the counts, and what it loads is in the tables.
  pub insert_or_load_incident-IsCounted :
      (c : QualifiedIncidentCandidate) (identity : IncidentIdentity) (profile : IncidentProfile)
      (epoch now : Datetime) (request_id : String) (s : Session) {i : Incident} {isnew : Bool}
      {s' : Session}
      → unique_evidence (memberships_of c) ≡ true
      → IsCounted s
      → insert_or_load_incident platform c identity profile epoch now request_id s
        ≡ ok ((i, isnew), s')
      → IsCounted s' × (isnew ≡ false → find_incident i.incident_id s'.incidents ≡ some i)
  unfolding insert_or_load_incident new_incident
  insert_or_load_incident-IsCounted c identity profile epoch now request_id s {i} {isnew} {s'} u h
        returned =
      elim (Option-cases (find_grouping identity.grouping_key_sha256 s.incidents)) [
        | inl absent ↦ elim (Option-cases (find_incident identity.incident_id s.incidents)) [
          | inl free ↦
              let fresh = new_incident c identity profile epoch now in
              let s1 : Session = record s { incidents = s.incidents ++ fresh ∷ [] } in
              let e : insert_or_load_incident platform c identity profile epoch now request_id s
                  ≡ ok ((fresh, true), record_creation platform fresh c now request_id s1) =
                rw (insert_or_load_incident, absent, free) refl in
              let p = ok-injective (sym e ∙ returned) in
              let tables = record_creation-tables fresh c now request_id s1 in
              (
                subst IsCounted (ap (λ x. x.1) p) (
                    same_tables _ _ tables.0 tables.1 (
                      appended-IsCounted fresh c now s u
                        (new_incident-count c identity profile epoch now) free h)),
                λ old. absurd_new (ap (λ x. x.0.1) p ∙ old),
              )
          | inr (taken, found) ↦
              let e : insert_or_load_incident platform c identity profile epoch now request_id s
                  ≡ err (integrity_error "duplicate key value violates unique constraint") =
                rw (insert_or_load_incident, absent, found) refl in
              let impossible = sym e ∙ returned in cc
        ]
        | inr (old, found) ↦ elim (Bool-cases (str_eq old.incident_id identity.incident_id)) [
          | inl t ↦
              let e : insert_or_load_incident platform c identity profile epoch now request_id s
                  ≡ ok ((old, false), s) =
                rw (insert_or_load_incident, found, t) refl in
              let p = ok-injective (sym e ∙ returned) in
              (
                subst IsCounted (ap (λ x. x.1) p) h,
                λ _.
                    subst (λ x. find_incident x.0.0.incident_id x.1.incidents ≡ some x.0.0) p
                      (find_grouping-found identity.grouping_key_sha256 s.incidents h.distinct
                        found),
              )
          | inr f ↦
              let e : insert_or_load_incident platform c identity profile epoch now request_id s
                  ≡ err (incident_persistence_error "Incident grouping identity is inconsistent.") =
                rw (insert_or_load_incident, found, f) refl in
              let impossible = sym e ∙ returned in cc
        ]
      ]
