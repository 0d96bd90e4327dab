-- ===== src/Incidents/Trail/Opened.antt =====
-- The audit events of an incident that a candidate opens, with the requests of analysts after that.
use ot_soc_fusion_x.Base.{
  ◌≡◌, refl, ◌∙◌, ap, sym, some, none, true, List, [], ◌∷◌, ◌++◌, ok, str_eq, Bool-cases, inl, inr,
  String, select,
}
use ot_soc_fusion_x.Platform.{Platform, Uuid, Datetime}
use ot_soc_fusion_x.Incidents.Model.{CandidateMembership}
use ot_soc_fusion_x.Incidents.Tables.{Incident, IncidentAuditEvent}
use ot_soc_fusion_x.Incidents.Store.{Session, find_incident}
use ot_soc_fusion_x.Incidents.Audit.{append_audit_event}
use ot_soc_fusion_x.Incidents.Rows.{select-append_pass, str_eq_self}
use ot_soc_fusion_x.Incidents.Candidate.{
  QualifiedIncidentCandidate, IncidentProfile, memberships_of, grouping_epoch_start,
  deterministic_incident_identity,
}
use ot_soc_fusion_x.Incidents.Creation.{
  has_membership, insert_membership, insert_memberships, record_creation, new_incident,
  find_grouping, insert_or_load_incident,
}
use ot_soc_fusion_x.Incidents.Counts.{insert_memberships-incidents}
use ot_soc_fusion_x.Incidents.Counted.{find_incident-append_self}
use ot_soc_fusion_x.Incidents.Intake.{created, load_incident, regroup, settle, receive_candidate}
use ot_soc_fusion_x.Incidents.Versions.{some-injective}
use ot_soc_fusion_x.Incidents.Operations.{Operation, serve}
use ot_soc_fusion_x.Incidents.Trail.{IsTrail, HasTrail, audit_of, serve-HasTrail}

first_event :
    (id : Uuid) (events : List IncidentAuditEvent) (event : IncidentAuditEvent)
    → str_eq event.incident_id id ≡ true
    → select (λ e. str_eq e.incident_id id) events ≡ []
    → event.version_before ≡ 0
    → event.version_after ≡ 1
    → IsTrail (select (λ e. str_eq e.incident_id id) (events ++ event ∷ [])) 1
first_event id events event own silent before after =
    rw (select-append_pass (λ e. str_eq e.incident_id id) events event own, silent)
      (IsTrail.created event before after)

module _ (platform : Platform) where
  insert_memberships-audit_events :
      (id : Uuid) (now : Datetime) (ms : List CandidateMembership) (s : Session)
      → (insert_memberships platform id ms now s).1.audit_events ≡ s.audit_events
  unfolding insert_memberships insert_membership
  insert_memberships-audit_events id now [] s = refl
  insert_memberships-audit_events id now (m ∷ ms) s =
      elim (Bool-cases (has_membership id m.evidence_id s.memberships)) [
        | inl t ↦ rw t (insert_memberships-audit_events id now ms s)
        | inr f ↦ rw f (insert_memberships-audit_events id now ms _)
      ]

  -- The only event of the new incident is that of its creation.
  record_creation-HasTrail :
      (i : Incident) (c : QualifiedIncidentCandidate) (now : Datetime) (request_id : String)
      (s : Session)
      → i.version ≡ 1
      → find_incident i.incident_id s.incidents ≡ some i
      → audit_of i.incident_id s ≡ []
      → HasTrail i.incident_id (record_creation platform i c now request_id s)
  unfolding record_creation append_audit_event
  record_creation-HasTrail i c now request_id s version found silent = record {
    at = λ j there.
        let kept = insert_memberships-incidents platform i.incident_id now (memberships_of c) s in
        let same : j ≡ i =
          some-injective (sym there ∙ ap (find_incident i.incident_id) kept ∙ found) in
        rw same (
          rw version (
            first_event i.incident_id _ _ (str_eq_self i.incident_id i.incident_id refl)
              (ap (select (λ e. str_eq e.incident_id i.incident_id))
                  (insert_memberships-audit_events i.incident_id now (memberships_of c) s)
                ∙ silent)
              refl refl));
  }

  -- A candidate whose grouping key and identifier no incident and no audit event has is received and
  -- creates an incident whose audit events are a gapless account of its version, from its creation to
  -- whatever analysts ask for after that, one request after another.
  pub opened_trail :
      (c : QualifiedIncidentCandidate) (profile : IncidentProfile) (now : Datetime)
      (request_id : String) (s : Session)
      → let epoch = grouping_epoch_start c.grouping_anchor in
        let identity = deterministic_incident_identity platform c profile epoch in
        find_grouping identity.grouping_key_sha256 s.incidents ≡ none
        → find_incident identity.incident_id s.incidents ≡ none
        → audit_of identity.incident_id s ≡ []
        → (s' : Session) × (receive_candidate platform c profile now request_id s
            ≡ ok (created, s'))
          × ((requests : List (Datetime × Operation))
              → HasTrail identity.incident_id (serve platform requests s'))
  unfolding receive_candidate load_incident insert_or_load_incident regroup settle new_incident
  opened_trail c profile now request_id s absent free silent =
      let epoch = grouping_epoch_start c.grouping_anchor in
      let identity = deterministic_incident_identity platform c profile epoch in
      let i = new_incident c identity profile epoch now in
      let s1 : Session = record s { incidents = s.incidents ++ i ∷ [] } in
      let start =
        record_creation-HasTrail i c now request_id s1 refl
          (find_incident-append_self i.incident_id i s.incidents refl free) silent in
      (
        record_creation platform i c now request_id s1,
        rw (load_incident, insert_or_load_incident, absent, free) refl,
        λ requests.
            serve-HasTrail platform i.incident_id requests
              (record_creation platform i c now request_id s1) start,
      )
