-- ===== src/Incidents/Counts.antt =====
-- The number of memberships that the insertion of evidence adds to an incident.
use ot_soc_fusion_x.Base.{
  ℕ, ◌+◌, ◌≡◌, refl, ◌∙◌, ap, true, false, ◌&&◌, ◌||◌, List, [], ◌∷◌, ◌++◌, any, any-append, select,
  select-append, length, length-append, str_eq, eq_iff, Bool-cases, inl, inr, All, arith, suc,
}
use ot_soc_fusion_x.Platform.{Platform, Uuid, Datetime}
use ot_soc_fusion_x.Incidents.Model.{CandidateMembership}
use ot_soc_fusion_x.Incidents.Tables.{IncidentEvidenceMembership}
use ot_soc_fusion_x.Incidents.Store.{Session}
use ot_soc_fusion_x.Incidents.Candidate.{unique_evidence}
use ot_soc_fusion_x.Incidents.Creation.{
  has_membership, insert_membership, insert_memberships, membership_row,
}

abbrev pub count : Uuid → List IncidentEvidenceMembership → ℕ
count id rows = length (select (λ m. str_eq m.incident_id id) rows)

count-append :
    (id : Uuid) (rows : List IncidentEvidenceMembership) (m : IncidentEvidenceMembership)
    → count id (rows ++ m ∷ []) ≡ count id rows + count id (m ∷ [])
count-append id rows m =
    ap length (select-append (λ x. str_eq x.incident_id id) rows (m ∷ []))
    ∙ length-append (select (λ x. str_eq x.incident_id id) rows)
        (select (λ x. str_eq x.incident_id id) (m ∷ []))

module _ (platform : Platform) (id : Uuid) (now : Datetime) where
  pub insert_memberships-incidents :
      (ms : List CandidateMembership) (s : Session)
      → (insert_memberships platform id ms now s).1.incidents ≡ s.incidents
  unfolding insert_memberships insert_membership
  insert_memberships-incidents [] s = refl
  insert_memberships-incidents (m ∷ ms) s =
      elim (Bool-cases (has_membership id m.evidence_id s.memberships)) [
        | inl t ↦ rw t (insert_memberships-incidents ms s)
        | inr f ↦ rw f (
            insert_memberships-incidents ms
              (record s { memberships = s.memberships ++ membership_row platform id m now ∷ [] }))
      ]

  count-row : (m : CandidateMembership) → count id (membership_row platform id m now ∷ []) ≡ 1
  count-row m = ground (arith, eq_iff id id)

  -- As many rows of the incident as memberships were inserted.
  pub insert_memberships-count :
      (ms : List CandidateMembership) (s : Session)
      → count id (insert_memberships platform id ms now s).1.memberships
        ≡ count id s.memberships + length (insert_memberships platform id ms now s).0
  unfolding insert_memberships insert_membership
  insert_memberships-count [] s = omega arith
  insert_memberships-count (m ∷ ms) s =
      elim (Bool-cases (has_membership id m.evidence_id s.memberships)) [
        | inl t ↦ rw t (insert_memberships-count ms s)
        | inr f ↦
            let row = membership_row platform id m now in
            let s' : Session = record s { memberships = s.memberships ++ row ∷ [] } in
            let later = insert_memberships-count ms s' in
            let added = count-append id s.memberships row in
            rw f (omega (arith, later, added, count-row m))
      ]

  -- No row of another incident is added.
  pub insert_memberships-other :
      (j : Uuid) (ms : List CandidateMembership) (s : Session)
      → ¬ (id ≡ j)
      → count j (insert_memberships platform id ms now s).1.memberships ≡ count j s.memberships
  unfolding insert_memberships insert_membership
  insert_memberships-other j [] s h = refl
  insert_memberships-other j (m ∷ ms) s h =
      elim (Bool-cases (has_membership id m.evidence_id s.memberships)) [
        | inl t ↦ rw t (insert_memberships-other j ms s h)
        | inr f ↦
            let row = membership_row platform id m now in
            let s' : Session = record s { memberships = s.memberships ++ row ∷ [] } in
            let later = insert_memberships-other j ms s' h in
            let added = count-append j s.memberships row in
            let none_more : count j (row ∷ []) ≡ 0 = ground (arith, eq_iff id j) in
            rw f (omega (arith, later, added, none_more))
      ]

  -- No row joins the incident with one of these.
  AreNew : List CandidateMembership → Session → Type 0
  AreNew ms s = All (λ m. has_membership id m.evidence_id s.memberships ≡ false) ms

  apart :
      (m x : CandidateMembership) (s : Session)
      → str_eq x.evidence_id m.evidence_id ≡ false
      → has_membership id x.evidence_id s.memberships ≡ false
      → (any (λ y. str_eq y.incident_id id && str_eq y.evidence_id x.evidence_id) s.memberships
          || any
              (λ y. str_eq y.incident_id id && str_eq y.evidence_id x.evidence_id)
              (membership_row platform id m now ∷ []))
        ≡ false
  unfolding has_membership
  apart m x s h new =
      ground (arith, eq_iff x.evidence_id m.evidence_id, eq_iff m.evidence_id x.evidence_id)

  still_new :
      (m : CandidateMembership) (ms : List CandidateMembership) (s : Session)
      → any (λ other. str_eq other.evidence_id m.evidence_id) ms ≡ false
      → AreNew ms s
      → AreNew ms
          (record s { memberships = s.memberships ++ membership_row platform id m now ∷ [] })
  unfolding has_membership AreNew
  still_new m [] s h all = tt
  still_new m (x ∷ ms) s h all = (
    any-append (λ y. str_eq y.incident_id id && str_eq y.evidence_id x.evidence_id) s.memberships
          (membership_row platform id m now ∷ [])
        ∙ apart m x s (ground arith) all.0,
    still_new m ms s (ground arith) all.1,
  )

  -- All are inserted, if no row joins the incident with their evidence and none is named twice.
  insert_memberships-all :
      (ms : List CandidateMembership) (s : Session)
      → unique_evidence ms ≡ true
      → AreNew ms s
      → length (insert_memberships platform id ms now s).0 ≡ length ms
  unfolding insert_memberships insert_membership AreNew unique_evidence
  insert_memberships-all [] s u all = refl
  insert_memberships-all (m ∷ ms) s u all =
      let s' : Session = record s {
        memberships = s.memberships ++ membership_row platform id m now ∷ [];
      } in
      let once : any (λ other. str_eq other.evidence_id m.evidence_id) ms ≡ false = ground arith in
      let rest : unique_evidence ms ≡ true = ground arith in
      let later = insert_memberships-all ms s' rest (still_new m ms s once all.1) in
      rw all.0 (ap suc later)

  -- An incident that has no row has none with any evidence.
  no_row :
      (e : Uuid) (rows : List IncidentEvidenceMembership)
      → count id rows ≡ 0
      → has_membership id e rows ≡ false
  unfolding has_membership
  no_row e [] h = refl
  no_row e (r ∷ rows) h = ground (arith, no_row e rows)

  all_new : (ms : List CandidateMembership) (s : Session) → count id s.memberships ≡ 0 → AreNew ms s
  unfolding AreNew
  all_new [] s h = tt
  all_new (m ∷ ms) s h = (no_row m.evidence_id s.memberships h, all_new ms s h)

  -- An incident without rows gets one for each of its memberships.
  pub insert_memberships-first :
      (ms : List CandidateMembership) (s : Session)
      → unique_evidence ms ≡ true
      → count id s.memberships ≡ 0
      → count id (insert_memberships platform id ms now s).1.memberships ≡ length ms
  insert_memberships-first ms s u h =
      let n = insert_memberships-count ms s in
      let l = insert_memberships-all ms s u (all_new ms s h) in omega (arith, n, l, h)
