-- ===== src/Incidents/Enrichment.antt =====
-- backend/app/incidents/service.py: the enrichment of an incident that is already there.
use mathlib.Core.Option
use ot_soc_fusion_x.Base.{
  ℕ, ◌+◌, String, Bool, true, false, not, ◌&&◌, ◌||◌, Option, none, some, List, [], ◌∷◌, ◌++◌, find,
  find_last, length, map, present, if◌then◌else◌, str_eq, ltb, sorted_set, Result, ok, err, guard,
  ◌>>=◌, ◌>>◌, is_some,
}
use ot_soc_fusion_x.Platform.{Platform, Uuid, Sha256, Datetime, str}
use ot_soc_fusion_x.Incidents.Model.{
  CandidateMembership, EvidenceRole, primary, supporting, contradicting, context, evidence_added,
  evidence_enriched,
}
use ot_soc_fusion_x.Incidents.Tables.{Incident}
use ot_soc_fusion_x.Incidents.Store.{Session, save_incident}
use ot_soc_fusion_x.Incidents.Audit.{append_audit_event}
use ot_soc_fusion_x.Incidents.Timeline.{append_timeline_entry}
use ot_soc_fusion_x.Incidents.Severity.{severity_increases, record_severity_escalation}
use ot_soc_fusion_x.Incidents.Candidate.{QualifiedIncidentCandidate, memberships_of, is_primary}
use ot_soc_fusion_x.Incidents.Creation.{
  IntakeError, incident_persistence_error, value_error, insert_memberships,
}

abbrev evidence_role_value : EvidenceRole → String
evidence_role_value primary = "PRIMARY"
evidence_role_value supporting = "SUPPORTING"
evidence_role_value contradicting = "CONTRADICTING"
evidence_role_value context = "CONTEXT"

-- A primary membership that is not the incident's is a supporting one of it.
unfoldable pub effective : Incident → CandidateMembership → CandidateMembership
effective incident m =
    if is_primary m.role && not (str_eq m.evidence_id incident.primary_evidence_id)
    then record m { role = supporting }
    else m

-- a != b, for optional texts
abbrev differs : Option String → String → Bool
differs none b = true
differs (some a) b = not (str_eq a b)

-- The incident takes the scope, or has it already.
unfoldable pub bind_both : Incident → String → Sha256 → Result IntakeError (Bool × Incident)
bind_both incident run config =
    if not (is_some incident.bound_simulation_id) && not (is_some incident.bound_configuration_hash)
    then ok (
      true,
      record incident { bound_simulation_id = some run; bound_configuration_hash = some config },
    )
    else if differs incident.bound_simulation_id run
        || differs incident.bound_configuration_hash config
    then err (incident_persistence_error "A bound incident cannot mix run/configuration scope.")
    else ok (false, incident)

abbrev pub bind_scope :
    Incident → Option String → Option Sha256 → Result IntakeError (Bool × Incident)
bind_scope incident none none = ok (false, incident)
bind_scope incident (some run) (some config) = bind_both incident run config
bind_scope incident _ _ =
    err (incident_persistence_error "S3 binding requires both run and configuration.")

-- Whether the scope was bound, and the incident with it.
unfoldable pub bind_s3_scope :
    Incident → QualifiedIncidentCandidate → Result IntakeError (Bool × Incident)
unfolding bind_both
bind_s3_scope incident candidate =
    bind_scope incident candidate.bound_simulation_id candidate.bound_configuration_hash

-- zip(keys, ids, strict=True)
unfoldable pub zip_strict : List String → List Uuid → Result IntakeError (List (String × Uuid))
zip_strict [] [] = ok []
zip_strict (k ∷ keys) (i ∷ ids) = do rest ← zip_strict keys ids; ok ((k, i) ∷ rest)
zip_strict _ _ = err (value_error "zip() arguments have different lengths")

abbrev entry_key : String × Uuid → String
entry_key entry = entry.0

abbrev earlier : Datetime → Datetime → Datetime
earlier a b = if ltb b a then b else a

abbrev later : Datetime → Datetime → Datetime
later a b = if ltb a b then b else a

-- The columns that an enrichment updates; the later entry of a process asset counts.
unfoldable pub enriched_incident :
    Incident → QualifiedIncidentCandidate → ℕ → List (String × Uuid) → Datetime → Incident
unfolding sorted_set
enriched_incident incident candidate inserted process now =
    let keys = sorted_set (map entry_key process) in
    record incident {
      version = incident.version + 1;
      updated_at = now;
      evidence_count = incident.evidence_count + inserted;
      first_observed_at = earlier incident.first_observed_at candidate.first_observed_at;
      last_observed_at = later incident.last_observed_at candidate.last_observed_at;
      policy_context = candidate.policy_context;
      correlation_context = candidate.correlation_context;
      evidence_completeness = candidate.evidence_completeness;
      process_asset_keys = keys;
      process_asset_ids = present (
          map (λ k. Option.map (λ (e : String × Uuid). e.1) (find_last (λ e. str_eq e.0 k) process))
            keys);
      target_point_ids = sorted_set (incident.target_point_ids ++ candidate.target_point_scope);
    }

-- What `_enrich_incident` returns.
pub data Outcome : Type 0 where
  existing enriched : Outcome

-- return first where the test holds, and go on otherwise
abbrev pub settled :
    Bool
    → Result IntakeError (Outcome × Session)
    → Result IntakeError (Outcome × Session)
    → Result IntakeError (Outcome × Session)
settled test first rest = if test then first else rest

-- The evidence that raised the severity.
abbrev trigger_of : List CandidateMembership → QualifiedIncidentCandidate → CandidateMembership
trigger_of inserted candidate =
    elim (find (λ m. str_eq m.evidence_type "correlation_finding") inserted) [
      | some m ↦ m
      | none ↦ candidate.primary_membership
    ]

abbrev pub is_empty : List CandidateMembership → Bool
is_empty [] = true
is_empty (m ∷ rest) = false

module _ (platform : Platform) where
  -- A timeline entry and an audit event for each inserted membership.
  unfoldable pub record_evidence :
      Incident → ℕ → Datetime → String → List CandidateMembership → Session → Session
  unfolding append_timeline_entry append_audit_event
  record_evidence incident before now request_id [] session = session
  record_evidence incident before now request_id (m ∷ rest) session =
      let entered =
        append_timeline_entry platform incident
          (record {
            entry_type = evidence_added;
            reference_id = m.evidence_id;
            observed_at = m.observed_at;
            recorded_at = now;
            summary = "Compatible verified evidence was added to this investigation container.";
            actor_context = "SYSTEM";
            aggregate_version = before + 1;
            membership = some m;
          })
          session in
      let audited =
        append_audit_event platform incident
          (record {
            action = evidence_enriched;
            occurred_at = now;
            actor_context = "SYSTEM";
            actor_user_id = none;
            request_id = request_id;
            result = "ACCEPTED";
            safe_reason =
                some "Verified evidence matched the deterministic incident grouping scope.";
            version_before = before;
            version_after = before + 1;
            details =
                ("evidence_id", str m.evidence_id)
                ∷ ("role", str (evidence_role_value m.role))
                ∷ [];
          })
          entered in
      record_evidence incident before now request_id rest audited

  -- The escalation, where the candidate is more severe than the incident was.
  unfoldable pub escalate_enriched :
      Incident
      → QualifiedIncidentCandidate
      → List CandidateMembership
      → ℕ
      → Datetime
      → String
      → Session
      → Session
  unfolding record_severity_escalation
  escalate_enriched incident candidate inserted before now request_id session =
      (record_severity_escalation platform incident
        (record {
          proposed = candidate.severity;
          triggering_membership = trigger_of inserted candidate;
          calculated_at = now;
          request_id = request_id;
          version_before = before;
          version_after = before + 1;
        })
        session).1

  -- What is written where something has changed: the incident as it was bound, what was inserted and
  -- the process assets.
  unfoldable pub written :
      Incident
      → Incident
      → QualifiedIncidentCandidate
      → List CandidateMembership
      → Bool
      → Datetime
      → String
      → List (String × Uuid)
      → Session
      → Session
  unfolding enriched_incident record_evidence escalate_enriched save_incident
  written incident bound candidate inserted severity_changed now request_id process session =
      let incident' = enriched_incident bound candidate (length inserted) process now in
      let recorded =
        record_evidence incident' incident.version now request_id inserted
          (save_incident incident' session) in
      if severity_changed
      then escalate_enriched incident' candidate inserted incident.version now request_id recorded
      else recorded

  unfoldable pub write_enrichment :
      Incident
      → Incident
      → QualifiedIncidentCandidate
      → List CandidateMembership
      → Bool
      → Datetime
      → String
      → Session
      → Result IntakeError (Outcome × Session)
  unfolding zip_strict written
  write_enrichment incident bound candidate inserted severity_changed now request_id session = do
    known ← zip_strict incident.process_asset_keys incident.process_asset_ids
    incoming ← zip_strict candidate.process_asset_keys candidate.process_asset_ids
    ok (
      enriched,
      written incident bound candidate inserted severity_changed now request_id (known ++ incoming)
          session,
    )

  unfoldable pub enrich_incident :
      Incident
      → QualifiedIncidentCandidate
      → Datetime
      → String
      → Session
      → Result IntakeError (Outcome × Session)
  unfolding insert_memberships effective bind_s3_scope severity_increases
  enrich_incident incident candidate now request_id session = do
    guard (str_eq incident.qualification_rule_id candidate.qualification_rule_id)
        (incident_persistence_error "Qualification rule mismatch prevents incident grouping.")
    let proposed = map (effective incident) (memberships_of candidate)
    let added = insert_memberships platform incident.incident_id proposed now session
    (binding_changed, bound) ← bind_s3_scope incident candidate
    let severity_changed = severity_increases incident.severity candidate.severity
    settled (is_empty added.0 && not binding_changed && not severity_changed)
        (ok (existing, added.1))
        (write_enrichment incident bound candidate added.0 severity_changed now request_id added.1)
