-- ===== src/Incidents/Repeated.antt =====
-- A candidate that is received again.
pub mod Received
use ot_soc_fusion_x.Base.{
  ◌≡◌, refl, ◌∙◌, ap, true, false, Option, none, some, List, [], ◌∷◌, ◌++◌, map, str_eq, eq_iff,
  is_some, Bool-cases, inl, inr, All, arith, String, ok,
}
use ot_soc_fusion_x.Platform.{Platform, Uuid, Sha256, Datetime}
use ot_soc_fusion_x.Incidents.Model.{CandidateMembership, IncidentSeverity, low, medium, high}
use ot_soc_fusion_x.Incidents.Tables.{Incident, IncidentEvidenceMembership}
use ot_soc_fusion_x.Incidents.Store.{Session}
use ot_soc_fusion_x.Incidents.Severity.{severity_increases}
use ot_soc_fusion_x.Incidents.Candidate.{QualifiedIncidentCandidate, memberships_of}
use ot_soc_fusion_x.Incidents.Creation.{
  has_membership, insert_membership, insert_memberships, membership_row, find_grouping,
}
use ot_soc_fusion_x.Incidents.Enrichment.{
  effective, bind_s3_scope, bind_both, bind_scope, enrich_incident, existing,
}

pub str_eq_self : (x : String) → str_eq x x ≡ true
str_eq_self x = ground (arith, eq_iff x x)

pub find_grouping-append :
    (key : Sha256) (rows : List Incident) (i : Incident)
    → i.grouping_key_sha256 ≡ key
    → find_grouping key rows ≡ none
    → find_grouping key (rows ++ i ∷ []) ≡ some i
unfolding find_grouping
find_grouping-append key [] i e h = ground (arith, eq_iff i.grouping_key_sha256 key)
find_grouping-append key (x ∷ rows) i e h = ground (arith, find_grouping-append key rows i e)

severity_increases_self : (s : IncidentSeverity) → severity_increases s s ≡ false
unfolding severity_increases
severity_increases_self low = refl
severity_increases_self medium = refl
severity_increases_self high = refl

effective-evidence :
    (i : Incident) (m : CandidateMembership) → (effective i m).evidence_id ≡ m.evidence_id
unfolding effective
effective-evidence i m = ground arith

module _ (platform : Platform) (id : Uuid) where
  has_membership-append :
      (e : Uuid) (rows more : List IncidentEvidenceMembership)
      → has_membership id e rows ≡ true
      → has_membership id e (rows ++ more) ≡ true
  unfolding has_membership
  has_membership-append e [] more h = cc
  has_membership-append e (r ∷ rows) more h = ground (arith, has_membership-append e rows more)

  has_membership-last :
      (m : CandidateMembership) (now : Datetime) (rows : List IncidentEvidenceMembership)
      → has_membership id m.evidence_id (rows ++ membership_row platform id m now ∷ []) ≡ true
  unfolding has_membership
  has_membership-last m now [] = ground (arith, eq_iff id id, eq_iff m.evidence_id m.evidence_id)
  has_membership-last m now (r ∷ rows) = ground (arith, has_membership-last m now rows)

  -- The evidence of each membership belongs to the incident.
  pub AreThere : List CandidateMembership → Session → Type 0
  AreThere ms s = All (λ m. has_membership id m.evidence_id s.memberships ≡ true) ms

  -- A membership that is there stays there.
  insert_memberships-keeps :
      (e : Uuid) (ms : List CandidateMembership) (now : Datetime) (s : Session)
      → has_membership id e s.memberships ≡ true
      → has_membership id e (insert_memberships platform id ms now s).1.memberships ≡ true
  unfolding insert_memberships insert_membership
  insert_memberships-keeps e [] now s h = h
  insert_memberships-keeps e (m ∷ ms) now s h =
      elim (Bool-cases (has_membership id m.evidence_id s.memberships)) [
        | inl t ↦ rw t (insert_memberships-keeps e ms now s h)
        | inr f ↦ rw f (
            insert_memberships-keeps e ms now
              (record s { memberships = s.memberships ++ membership_row platform id m now ∷ [] })
              (has_membership-append e s.memberships (membership_row platform id m now ∷ []) h))
      ]

  insert_membership-there :
      (m : CandidateMembership) (now : Datetime) (s : Session)
      → has_membership id m.evidence_id (insert_membership platform id m now s).1.memberships ≡ true
  unfolding insert_membership
  insert_membership-there m now s =
      elim (Bool-cases (has_membership id m.evidence_id s.memberships)) [
        | inl t ↦ rw (insert_membership, t) t
        | inr f ↦ rw (insert_membership, f) (has_membership-last m now s.memberships)
      ]

  -- What was inserted is there.
  pub insert_memberships-AreThere :
      (ms : List CandidateMembership) (now : Datetime) (s : Session)
      → AreThere ms (insert_memberships platform id ms now s).1
  unfolding insert_memberships AreThere
  insert_memberships-AreThere [] now s = tt
  insert_memberships-AreThere (m ∷ ms) now s =
      let s' = (insert_membership platform id m now s).1 in
      (
        insert_memberships-keeps m.evidence_id ms now s' (insert_membership-there m now s),
        insert_memberships-AreThere ms now s',
      )

  -- The insertion of what is there inserts nothing.
  insert_memberships-again :
      (i : Incident) (ms : List CandidateMembership) (now : Datetime) (s : Session)
      → AreThere ms s
      → insert_memberships platform id (map (effective i) ms) now s ≡ ([], s)
  unfolding insert_memberships insert_membership AreThere
  insert_memberships-again i [] now s h = refl
  insert_memberships-again i (m ∷ ms) now s h =
      let there : has_membership id (effective i m).evidence_id s.memberships ≡ true =
        ap (λ e. has_membership id e s.memberships) (effective-evidence i m) ∙ h.0 in
      rw there (insert_memberships-again i ms now s h.1)

-- What the binding of the scope does where it is the scope of the incident.
bind_s3_scope-own :
    (i : Incident) (c : QualifiedIncidentCandidate)
    → i.bound_simulation_id ≡ c.bound_simulation_id
    → i.bound_configuration_hash ≡ c.bound_configuration_hash
    → is_some c.bound_simulation_id ≡ is_some c.bound_configuration_hash
    → bind_s3_scope i c ≡ ok (false, i)
unfolding bind_s3_scope bind_both
bind_s3_scope-own i c a b both = go c.bound_simulation_id c.bound_configuration_hash a b both
  where
    go :
        (run : Option String) (config : Option Sha256)
        → i.bound_simulation_id ≡ run
        → i.bound_configuration_hash ≡ config
        → is_some run ≡ is_some config
        → bind_scope i run config ≡ ok (false, i)
    go none none a b both = refl
    go (some run) (some config) a b both =
        rw (bind_both, a, b, str_eq_self run, str_eq_self config) refl
    go (some run) none a b both = cc
    go none (some config) a b both = cc

module _ (platform : Platform) where
  -- An enrichment with what the incident has is none.
  pub enrich_incident-again :
      (i : Incident) (c : QualifiedIncidentCandidate) (now : Datetime) (request_id : String)
      (s : Session)
      → i.qualification_rule_id ≡ c.qualification_rule_id
      → i.severity ≡ c.severity
      → i.bound_simulation_id ≡ c.bound_simulation_id
      → i.bound_configuration_hash ≡ c.bound_configuration_hash
      → is_some c.bound_simulation_id ≡ is_some c.bound_configuration_hash
      → AreThere platform i.incident_id (memberships_of c) s
      → enrich_incident platform i c now request_id s ≡ ok (existing, s)
  unfolding enrich_incident
  enrich_incident-again i c now request_id s rule severity run config both there =
      let same : severity_increases i.severity c.severity ≡ false =
        rw severity (severity_increases_self c.severity) in
      let matches : str_eq i.qualification_rule_id c.qualification_rule_id ≡ true =
        ground (arith, eq_iff i.qualification_rule_id c.qualification_rule_id) in
      let again =
        insert_memberships-again platform i.incident_id i (memberships_of c) now s there in
      rw
        (
          enrich_incident,
          matches,
          bind_s3_scope-own i c run config both,
          ap (λ r. r.0) again,
          ap (λ r. r.1) again,
          same,
        )
        refl
