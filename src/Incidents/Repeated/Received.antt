-- ===== src/Incidents/Repeated/Received.antt =====
-- The whole treatment of a candidate that is received again.
use ot_soc_fusion_x.Base.{
  ◌>>=◌, ◌≡◌, refl, ◌∙◌, ap, false, Option, none, some, [], ◌∷◌, ◌++◌, is_some, arith, String, ok,
}
use ot_soc_fusion_x.Platform.{Platform, Datetime}
use ot_soc_fusion_x.Incidents.Tables.{Incident}
use ot_soc_fusion_x.Incidents.Store.{Session, find_incident}
use ot_soc_fusion_x.Incidents.Candidate.{
  QualifiedIncidentCandidate, IncidentProfile, memberships_of, grouping_epoch_start,
  deterministic_incident_identity,
}
use ot_soc_fusion_x.Incidents.Counts.{insert_memberships-incidents}
use ot_soc_fusion_x.Incidents.Intake.{
  created, grouped, unlike, requires_separate_bound_scope, load_incident, regroup, settle,
  receive_candidate,
}
use ot_soc_fusion_x.Incidents.Creation.{
  find_grouping, new_incident, record_creation, insert_or_load_incident,
}
use ot_soc_fusion_x.Incidents.Enrichment.{enrich_incident, existing}
use ot_soc_fusion_x.Incidents.Repeated.{
  str_eq_self, find_grouping-append, AreThere, insert_memberships-AreThere, enrich_incident-again,
}

module _ (platform : Platform) where
  unlike_self : (x : Option String) → unlike x x ≡ false
  unlike_self none = refl
  unlike_self (some x) = rw (str_eq_self x) refl

  own_scope :
      (i : Incident) (c : QualifiedIncidentCandidate)
      → i.bound_simulation_id ≡ c.bound_simulation_id
      → i.bound_configuration_hash ≡ c.bound_configuration_hash
      → requires_separate_bound_scope i c ≡ false
  unfolding requires_separate_bound_scope
  own_scope i c run config =
      rw (run, config)
        (ground (arith, unlike_self c.bound_simulation_id, unlike_self c.bound_configuration_hash))

  load_incident-known :
      (c : QualifiedIncidentCandidate) (profile : IncidentProfile) (epoch now : Datetime)
      (request_id : String) (s : Session) (i : Incident)
      → let identity = deterministic_incident_identity platform c profile epoch in
        i.incident_id ≡ identity.incident_id
        → find_grouping identity.grouping_key_sha256 s.incidents ≡ some i
        → load_incident platform c profile epoch now request_id s ≡ ok ((i, false), s)
  unfolding load_incident insert_or_load_incident
  load_incident-known c profile epoch now request_id s i same known =
      rw
        (
          load_incident,
          insert_or_load_incident,
          known,
          same,
          str_eq_self (deterministic_incident_identity platform c profile epoch).incident_id,
        )
        refl

  regroup-known :
      (c : QualifiedIncidentCandidate) (profile : IncidentProfile) (epoch now : Datetime)
      (request_id : String) (s : Session) (i : Incident)
      → requires_separate_bound_scope i c ≡ false
      → enrich_incident platform i c now request_id s ≡ ok (existing, s)
      → regroup platform c profile epoch now request_id ((i, false), s) ≡ ok (grouped existing, s)
  unfolding regroup settle
  regroup-known c profile epoch now request_id s i own again = rw (regroup, settle, own, again) refl

  -- A candidate that creates an incident, and has either both bound scopes or none, changes nothing when
  -- it is received again, at whatever time and in whatever request.
  pub receive_candidate-repeated :
      (c : QualifiedIncidentCandidate) (profile : IncidentProfile) (now now' : Datetime)
      (request_id request_id' : String) (s : Session)
      → is_some c.bound_simulation_id ≡ is_some c.bound_configuration_hash
      → let epoch = grouping_epoch_start c.grouping_anchor in
        let identity = deterministic_incident_identity platform c profile epoch in
        find_grouping identity.grouping_key_sha256 s.incidents ≡ none
        → find_incident identity.incident_id s.incidents ≡ none
        → (s' : Session) × (receive_candidate platform c profile now request_id s
            ≡ ok (created, s'))
          × (receive_candidate platform c profile now' request_id' s' ≡ ok (grouped existing, s'))
  unfolding receive_candidate record_creation load_incident insert_or_load_incident regroup settle
      new_incident AreThere
  receive_candidate-repeated c profile now now' request_id request_id' s both absent free =
      let epoch = grouping_epoch_start c.grouping_anchor in
      let identity = deterministic_incident_identity platform c profile epoch in
      let i = new_incident c identity profile epoch now in
      let s1 : Session = record s { incidents = s.incidents ++ i ∷ [] } in
      let s' = record_creation platform i c now request_id s1 in
      let known : find_grouping identity.grouping_key_sha256 s'.incidents ≡ some i =
        ap (find_grouping identity.grouping_key_sha256)
          (insert_memberships-incidents platform i.incident_id now (memberships_of c) s1)
        ∙ find_grouping-append identity.grouping_key_sha256 s.incidents i refl absent in
      let again : enrich_incident platform i c now' request_id' s' ≡ ok (existing, s') =
        enrich_incident-again platform i c now' request_id' s' refl refl refl refl both
          (insert_memberships-AreThere platform i.incident_id (memberships_of c) now s1) in
      (
        s',
        rw (load_incident, insert_or_load_incident, absent, free) refl,
        ap (λ r. r >>= (λ loaded. regroup platform c profile epoch now' request_id' loaded))
              (load_incident-known c profile epoch now' request_id' s' i refl known)
            ∙ regroup-known c profile epoch now' request_id' s' i (own_scope i c refl refl) again,
      )
