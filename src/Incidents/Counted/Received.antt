-- ===== src/Incidents/Counted/Received.antt =====
-- The evidence count under the whole treatment of a candidate.
use ot_soc_fusion_x.Base.{
  if◌then◌else◌, sym, none, [], ◌∷◌, ◌++◌, length, ◌≡◌, refl, ◌∙◌, ap, Bool, true, false, not, ◌&&◌,
  some, ok, ◌>>=◌, >>=-eq-ok, ok-injective, subst, String, Bool-cases, inl, inr, arith,
}
use ot_soc_fusion_x.Platform.{Platform, Datetime}
use ot_soc_fusion_x.Incidents.Tables.{Incident}
use ot_soc_fusion_x.Incidents.Store.{Session, find_incident}
use ot_soc_fusion_x.Incidents.Candidate.{
  QualifiedIncidentCandidate, IncidentProfile, memberships_of, unique_evidence,
  validate_primary_membership, grouping_epoch_start, deterministic_incident_identity,
}
use ot_soc_fusion_x.Incidents.Enrichment.{enrich_incident}
use ot_soc_fusion_x.Incidents.Intake.{
  Received, created, grouped, requires_separate_bound_scope, separately_bound, load_incident,
  settle, regroup, receive_candidate,
}
use ot_soc_fusion_x.Incidents.Creation.{
  find_grouping, new_incident, record_creation, insert_or_load_incident,
}
use ot_soc_fusion_x.Incidents.Counts.{count, insert_memberships-incidents, insert_memberships-first}
use ot_soc_fusion_x.Incidents.Counted.{IsCounted, counted, find_incident-append_self}
use ot_soc_fusion_x.Incidents.Counted.Created.{insert_or_load_incident-IsCounted}
use ot_soc_fusion_x.Incidents.Counted.Enriched.{enrich_incident-IsCounted}

then_branch {ℓ} :
    {A : Type ℓ} {test : Bool} {a x : A} (b : A) → test ≡ true → (if test then a else b) ≡ x → a ≡ x
then_branch {test = true} b t h = h
then_branch {test = false} b t h = cc

else_branch {ℓ} :
    {A : Type ℓ} {test : Bool} {b x : A} (a : A)
    → test ≡ false
    → (if test then a else b) ≡ x
    → b ≡ x
else_branch {test = true} a t h = cc
else_branch {test = false} a t h = h

module _ (platform : Platform) (now : Datetime) (request_id : String) where
  -- What a loaded incident is: in the tables, and these are counted.
  IsLoaded : (Incident × Bool) × Session → Type 0
  IsLoaded loaded =
      IsCounted loaded.1
      × (loaded.0.1 ≡ false
          → find_incident loaded.0.0.incident_id loaded.1.incidents ≡ some loaded.0.0)

  load_incident-IsLoaded :
      (c : QualifiedIncidentCandidate) (profile : IncidentProfile) (epoch : Datetime) (s : Session)
      {loaded : (Incident × Bool) × Session}
      → unique_evidence (memberships_of c) ≡ true
      → IsCounted s
      → load_incident platform c profile epoch now request_id s ≡ ok loaded
      → IsLoaded loaded
  unfolding load_incident IsLoaded
  load_incident-IsLoaded c profile epoch s u h returned =
      insert_or_load_incident-IsCounted platform c
        (deterministic_incident_identity platform c profile epoch) profile epoch now request_id s u
        h returned

  settle-IsCounted :
      (c : QualifiedIncidentCandidate) (loaded : (Incident × Bool) × Session)
      {out : Received × Session}
      → IsLoaded loaded
      → settle platform c now request_id loaded ≡ ok out
      → IsCounted out.1
  unfolding settle IsLoaded
  settle-IsCounted c ((i, true), s) h returned =
      subst (λ (x : Received × Session). IsCounted x.1) (ok-injective returned) h.0
  settle-IsCounted c ((i, false), s) h returned =
      let ((outcome, s'), e, r) =
        >>=-eq-ok (enrich_incident platform i c now request_id s) (λ x. ok (grouped x.0, x.1))
          returned in
      subst (λ (x : Received × Session). IsCounted x.1) (ok-injective r)
        (enrich_incident-IsCounted platform i c now request_id s (h.1 refl) h.0 e)

  regroup-IsCounted :
      (c : QualifiedIncidentCandidate) (profile : IncidentProfile) (epoch : Datetime)
      (loaded : (Incident × Bool) × Session) {out : Received × Session}
      → unique_evidence (memberships_of c) ≡ true
      → IsLoaded loaded
      → regroup platform c profile epoch now request_id loaded ≡ ok out
      → IsCounted out.1
  unfolding regroup separately_bound IsLoaded
  regroup-IsCounted c profile epoch ((i, isnew), s) {out} u h returned =
      elim (Bool-cases (not isnew && requires_separate_bound_scope i c)) [
        | inl t ↦
            let bound = separately_bound c in
            let again : (load_incident platform bound profile epoch now request_id s
                  >>= (λ loaded. settle platform bound now request_id loaded))
                ≡ ok out =
              then_branch _ t returned in
            let (loaded, e, r) =
              >>=-eq-ok (load_incident platform bound profile epoch now request_id s)
                (λ loaded. settle platform bound now request_id loaded) again in
            settle-IsCounted bound loaded (load_incident-IsLoaded bound profile epoch s u h.0 e) r
        | inr f ↦ settle-IsCounted c ((i, isnew), s) {out = out} h (else_branch _ f returned)
      ]

  -- Where no two incidents have the same identifier and each counts its memberships, this is so after a
  -- validated candidate is received as well, whether it opens an incident, joins one or gets one of its
  -- own scope.
  pub receive_candidate-IsCounted :
      (c : QualifiedIncidentCandidate) (profile : IncidentProfile) (s : Session)
      {out : Received × Session}
      → validate_primary_membership c ≡ true
      → IsCounted s
      → receive_candidate platform c profile now request_id s ≡ ok out
      → IsCounted out.1
  unfolding receive_candidate validate_primary_membership
  receive_candidate-IsCounted c profile s valid h returned =
      let epoch = grouping_epoch_start c.grouping_anchor in
      let u : unique_evidence (memberships_of c) ≡ true = ground arith in
      let (loaded, e, r) =
        >>=-eq-ok (load_incident platform c profile epoch now request_id s)
          (λ loaded. regroup platform c profile epoch now request_id loaded) returned in
      regroup-IsCounted c profile epoch loaded u (load_incident-IsLoaded c profile epoch s u h e) r

  -- A validated candidate whose grouping key and identifier no incident has is received: it creates the
  -- incident of its identity, with a membership for each of its evidence, if each incident counts its
  -- memberships.
  pub receive_candidate-created :
      (c : QualifiedIncidentCandidate) (profile : IncidentProfile) (s : Session)
      → validate_primary_membership c ≡ true
      → IsCounted s
      → let epoch = grouping_epoch_start c.grouping_anchor in
        let identity = deterministic_incident_identity platform c profile epoch in
        find_grouping identity.grouping_key_sha256 s.incidents ≡ none
        → find_incident identity.incident_id s.incidents ≡ none
        → (s' : Session) × (receive_candidate platform c profile now request_id s
            ≡ ok (created, s'))
          × (find_incident identity.incident_id s'.incidents
              ≡ some (new_incident c identity profile epoch now))
          × (count identity.incident_id s'.memberships ≡ length (memberships_of c))
  unfolding receive_candidate validate_primary_membership record_creation load_incident
      insert_or_load_incident regroup settle new_incident
  receive_candidate-created c profile s valid h absent free =
      let epoch = grouping_epoch_start c.grouping_anchor in
      let identity = deterministic_incident_identity platform c profile epoch in
      let u : unique_evidence (memberships_of c) ≡ true = ground arith in
      let i = new_incident c identity profile epoch now in
      let s1 : Session = record s { incidents = s.incidents ++ i ∷ [] } in
      let none_yet : count i.incident_id s.memberships ≡ 0 =
        sym (h.at i.incident_id) ∙ ap counted free in
      (
        record_creation platform i c now request_id s1,
        rw (load_incident, insert_or_load_incident, absent, free) refl,
        ap (find_incident i.incident_id)
              (insert_memberships-incidents platform i.incident_id now (memberships_of c) s1)
            ∙ find_incident-append_self i.incident_id i s.incidents refl free,
        insert_memberships-first platform i.incident_id now (memberships_of c) s1 u none_yet,
      )
