-- ===== src/Incidents/Creation.antt =====
-- backend/app/incidents/service.py: the insertion of an incident with its first evidence.
-- A row is refused only by the constraints that the code names and by the key of an incident: the keys
-- of the other rows are digests of what the constraints keep apart.
use ot_soc_fusion_x.Base.{
  ◌+◌, String, Bool, true, false, ◌&&◌, Option, none, some, List, [], ◌∷◌, ◌++◌, any, find, length,
  concat, join, if◌then◌else◌, str_eq, is_some, sorted_list, Result, ok, err,
}
use ot_soc_fusion_x.Platform.{Platform, Uuid, Sha256, Datetime, str}
use ot_soc_fusion_x.Incidents.Model.{
  open_status, unreviewed, CandidateMembership, TimelineEntryType, AuditAction, severity_value,
}
use ot_soc_fusion_x.Incidents.Tables.{
  Incident, IncidentEvidenceMembership, IncidentStatusHistory, IncidentSeverityHistory,
}
use ot_soc_fusion_x.Incidents.Store.{Session, find_incident}
use ot_soc_fusion_x.Incidents.Audit.{append_audit_event}
use ot_soc_fusion_x.Incidents.Timeline.{append_timeline_entry}
use ot_soc_fusion_x.Incidents.Lifecycle.{status_history_id_namespace}
use ot_soc_fusion_x.Incidents.Severity.{severity_history_id_namespace}
use ot_soc_fusion_x.Incidents.Candidate.{
  QualifiedIncidentCandidate, IncidentIdentity, IncidentProfile, memberships_of,
}

-- The exceptions of the service, of the database, and of Python's `zip`.
pub data IntakeError : Type 0 where
  incident_persistence_error : String → IntakeError
  integrity_error : String → IntakeError
  value_error : String → IntakeError

abbrev membership_id_namespace : Uuid
membership_id_namespace = "a441344d-2a87-5468-9d40-e1f40cff84d2"

-- The evidence belongs to the incident: the constraint `uq_incident_evidence_membership`.
unfoldable pub has_membership : Uuid → Uuid → List IncidentEvidenceMembership → Bool
has_membership incident_id evidence_id =
    any (λ m. str_eq m.incident_id incident_id && str_eq m.evidence_id evidence_id)

-- select(Incident).where(Incident.grouping_key_sha256 == key)
unfoldable pub find_grouping : Sha256 → List Incident → Option Incident
find_grouping key = find (λ i. str_eq i.grouping_key_sha256 key)

-- The values of a new incident; the other columns have their defaults.
unfoldable pub new_incident :
    QualifiedIncidentCandidate → IncidentIdentity → IncidentProfile → Datetime → Datetime → Incident
unfolding sorted_list
new_incident candidate identity profile epoch now =
    let first = candidate.primary_membership in
    record {
      incident_id = identity.incident_id;
      incident_schema = "otsoc.incident.record";
      incident_schema_version = "1.0.0";
      incident_profile_id = "otsoc.incident.oil_gas_transfer";
      incident_profile_version = "1.0.0";
      incident_profile_sha256 = profile.sha256;
      qualification_rule_id = candidate.qualification_rule_id;
      qualification_rule_version = candidate.qualification_rule_version;
      grouping_key_sha256 = identity.grouping_key_sha256;
      category = candidate.category;
      title = candidate.title;
      summary = candidate.summary;
      status = open_status;
      severity = candidate.severity;
      assignee_user_id = none;
      assigned_at = none;
      disposition = unreviewed;
      disposition_reason = none;
      disposition_set_by_user_id = none;
      disposition_set_at = none;
      primary_evidence_id = first.evidence_id;
      primary_evidence_type = first.evidence_type;
      primary_evidence_schema = first.evidence_schema;
      primary_evidence_schema_version = first.evidence_schema_version;
      primary_evidence_integrity_sha256 = first.integrity_sha256;
      identity_asset_scope = sorted_list candidate.identity_asset_scope;
      source_asset_id = candidate.source_asset_id;
      destination_asset_id = candidate.destination_asset_id;
      controller_asset_id = candidate.controller_asset_id;
      process_asset_ids = candidate.process_asset_ids;
      process_asset_keys = candidate.process_asset_keys;
      target_point_ids = candidate.target_point_scope;
      correlation_rule_id = candidate.correlation_rule_id;
      correlation_rule_version = candidate.correlation_rule_version;
      run_scope = candidate.run_scope;
      configuration_scope = candidate.configuration_scope;
      bound_simulation_id = candidate.bound_simulation_id;
      bound_configuration_hash = candidate.bound_configuration_hash;
      s3_semantic_evidence_id = candidate.s3_semantic_evidence_id;
      grouping_epoch_start = epoch;
      first_observed_at = candidate.first_observed_at;
      last_observed_at = candidate.last_observed_at;
      policy_context = candidate.policy_context;
      correlation_context = candidate.correlation_context;
      evidence_completeness = candidate.evidence_completeness;
      version = 1;
      evidence_count = 1 + length candidate.additional_memberships;
      ground_truth_used = false;
      malicious_intent_inferred = false;
      causality_inferred = false;
      created_at = now;
      updated_at = now;
    }

module _ (platform : Platform) where
  abbrev pub membership_row : Uuid → CandidateMembership → Datetime → IncidentEvidenceMembership
  membership_row incident_id m now = record {
    membership_id =
        platform.uuid5 membership_id_namespace (concat (incident_id ∷ "|" ∷ m.evidence_id ∷ []));
    incident_id = incident_id;
    evidence_id = m.evidence_id;
    evidence_type = m.evidence_type;
    evidence_schema = m.evidence_schema;
    evidence_schema_version = m.evidence_schema_version;
    integrity_sha256 = m.integrity_sha256;
    role = m.role;
    observed_at = m.observed_at;
    received_at = m.received_at;
    added_at = now;
  }

  -- Whether a row was inserted, and the tables.
  unfoldable pub insert_membership :
      Uuid → CandidateMembership → Datetime → Session → Bool × Session
  unfolding has_membership
  insert_membership incident_id m now session =
      if has_membership incident_id m.evidence_id session.memberships then (false, session) else (
        true,
        record session {
          memberships = session.memberships ++ membership_row incident_id m now ∷ [];
        },
      )

  -- The memberships that were inserted, and the tables.
  unfoldable pub insert_memberships :
      Uuid → List CandidateMembership → Datetime → Session → List CandidateMembership × Session
  unfolding insert_membership
  insert_memberships incident_id [] now session = ([], session)
  insert_memberships incident_id (m ∷ rest) now session =
      let r = insert_membership incident_id m now session in
      let later = insert_memberships incident_id rest now r.1 in
      (if r.0 then m ∷ later.0 else later.0, later.1)

  initial_status : Uuid → Datetime → String → IncidentStatusHistory
  initial_status incident_id now request_id = record {
    status_history_id =
        platform.uuid5 status_history_id_namespace
          (join "|" (incident_id ∷ "INITIAL" ∷ "OPEN" ∷ []));
    incident_id = incident_id;
    previous_status = none;
    new_status = open_status;
    changed_at = now;
    actor_context = "SYSTEM";
    actor_user_id = none;
    reason = none;
    request_id = request_id;
    version_before = 0;
    version_after = 1;
  }

  initial_severity : Incident → QualifiedIncidentCandidate → Datetime → IncidentSeverityHistory
  initial_severity incident candidate now = record {
    severity_history_id =
        platform.uuid5 severity_history_id_namespace
          (join "|" (incident.incident_id ∷ "INITIAL" ∷ severity_value candidate.severity ∷ []));
    incident_id = incident.incident_id;
    previous_severity = none;
    new_severity = candidate.severity;
    triggering_evidence_id = candidate.primary_membership.evidence_id;
    triggering_integrity_sha256 = candidate.primary_membership.integrity_sha256;
    profile_version = incident.incident_profile_version;
    rule_version = incident.qualification_rule_version;
    calculated_at = now;
    aggregate_version = 1;
  }

  unfoldable pub record_creation :
      Incident → QualifiedIncidentCandidate → Datetime → String → Session → Session
  unfolding insert_memberships initial_status initial_severity append_timeline_entry
      append_audit_event
  record_creation incident candidate now request_id session =
      let added =
        (insert_memberships incident.incident_id (memberships_of candidate) now session).1 in
      let opened = record added {
        status_history =
            added.status_history ++ initial_status incident.incident_id now request_id ∷ [];
        severity_history = added.severity_history ++ initial_severity incident candidate now ∷ [];
      } in
      append_audit_event platform incident
        (record {
          action = AuditAction.incident_created;
          occurred_at = now;
          actor_context = "SYSTEM";
          actor_user_id = none;
          request_id = request_id;
          result = "ACCEPTED";
          safe_reason = some "Verified stored evidence satisfied a frozen qualification rule.";
          version_before = 0;
          version_after = 1;
          details = ("qualification_rule_id", str incident.qualification_rule_id) ∷ [];
        })
        (append_timeline_entry platform incident
          (record {
            entry_type = TimelineEntryType.incident_created;
            reference_id = incident.incident_id;
            observed_at = candidate.primary_membership.observed_at;
            recorded_at = now;
            summary = "A frozen qualification rule created this analyst investigation container.";
            actor_context = "SYSTEM";
            aggregate_version = 1;
            membership = none;
          })
          opened)

  -- The incident with the grouping key, and whether it is new. The insertion fails if another incident
  -- has the identifier.
  unfoldable pub insert_or_load_incident :
      QualifiedIncidentCandidate
      → IncidentIdentity
      → IncidentProfile
      → Datetime
      → Datetime
      → String
      → Session
      → Result IntakeError ((Incident × Bool) × Session)
  unfolding find_grouping find_incident new_incident
  insert_or_load_incident candidate identity profile epoch now request_id session =
      elim (find_grouping identity.grouping_key_sha256 session.incidents) [
        | some existing ↦
            if str_eq existing.incident_id identity.incident_id
            then ok ((existing, false), session)
            else err (incident_persistence_error "Incident grouping identity is inconsistent.")
        | none ↦
            if is_some (find_incident identity.incident_id session.incidents)
            then err (integrity_error "duplicate key value violates unique constraint")
            else (let incident = new_incident candidate identity profile epoch now in
                let inserted = record session { incidents = session.incidents ++ incident ∷ [] } in
                ok ((incident, true), record_creation incident candidate now request_id inserted))
      ]
