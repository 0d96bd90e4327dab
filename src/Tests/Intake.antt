-- ===== src/Tests/Intake.antt =====
-- Two candidates of one group: the second adds evidence, binds the scope and raises the severity.
use ot_soc_fusion_x.Base.{◌≡◌, refl, String, Option, none, some, List, [], ◌∷◌, ok, err, Result}
use ot_soc_fusion_x.Platform.{Uuid, Datetime}
use ot_soc_fusion_x.Incidents.Model.{
  CandidateMembership, EvidenceRole, IncidentSeverity, primary, supporting, low, high,
  communication_policy_violation,
}
use ot_soc_fusion_x.Incidents.Store.{Session, find_incident}
use ot_soc_fusion_x.Incidents.Candidate.{
  QualifiedIncidentCandidate, IncidentProfile, validate_primary_membership, grouping_epoch_start,
  deterministic_incident_identity,
}
use ot_soc_fusion_x.Incidents.Creation.{IntakeError, new_incident, record_creation, find_grouping}
use ot_soc_fusion_x.Incidents.Enrichment.{existing, enriched, write_enrichment}
use ot_soc_fusion_x.Incidents.Intake.{
  Received, created, grouped, receive_candidate, load_incident, regroup, settle,
}
use ot_soc_fusion_x.Incidents.Counts.{count}
use ot_soc_fusion_x.Incidents.Counted.{IsCounted}
use ot_soc_fusion_x.Incidents.Counted.Received.{
  receive_candidate-IsCounted, receive_candidate-created,
}
use ot_soc_fusion_x.Incidents.Repeated.Received.{receive_candidate-repeated}
use ot_soc_fusion_x.Incidents.Operations.{Operation, serve}
use ot_soc_fusion_x.Incidents.Trail.{HasTrail}
use ot_soc_fusion_x.Incidents.Trail.Opened.{opened_trail}
use ot_soc_fusion_x.Tests.Samples.{platform}

abbrev profile : IncidentProfile
profile = record { profile_id = "profile"; profile_version = "1.0.0"; sha256 = "00" }

abbrev evidence : Uuid → EvidenceRole → CandidateMembership
evidence id role = record {
  evidence_id = id;
  evidence_type = "policy_finding";
  evidence_schema = "otsoc.policy";
  evidence_schema_version = "1.0.0";
  integrity_sha256 = "00";
  role = role;
  observed_at = 100;
  received_at = 110;
}

abbrev candidate :
    IncidentSeverity → List CandidateMembership → Option String → QualifiedIncidentCandidate
candidate severity additional scope = record {
  qualification_rule_id = "Q1";
  qualification_rule_version = "1.0.0";
  category = communication_policy_violation;
  severity = severity;
  title = "Denied write";
  summary = "A denied write was observed.";
  primary_membership = evidence "evidence-1" primary;
  additional_memberships = additional;
  identity_asset_scope = "plc-1" ∷ [];
  process_asset_scope = [];
  target_point_scope = [];
  source_asset_id = none;
  destination_asset_id = none;
  controller_asset_id = none;
  process_asset_ids = [];
  process_asset_keys = [];
  correlation_rule_id = none;
  correlation_rule_version = none;
  run_scope = "run";
  configuration_scope = "configuration";
  bound_simulation_id = scope;
  bound_configuration_hash = scope;
  s3_semantic_evidence_id = none;
  grouping_anchor = 100;
  first_observed_at = 100;
  last_observed_at = 100;
  policy_context = "DENIED";
  correlation_context = "NONE";
  evidence_completeness = "COMPLETE";
}

abbrev first_candidate : QualifiedIncidentCandidate
first_candidate = candidate low (evidence "evidence-2" supporting ∷ []) none

abbrev second_candidate : QualifiedIncidentCandidate
second_candidate = candidate high (evidence "evidence-3" supporting ∷ []) (some "run-1")

abbrev empty : Session
empty = record {
  incidents = [];
  timeline_entries = [];
  status_history = [];
  severity_history = [];
  notes = [];
  audit_events = [];
  reports = [];
  report_revisions = [];
  local_users = [];
  memberships = [];
}

empty-IsCounted : IsCounted empty
unfolding find_incident
empty-IsCounted = record { at = λ id. refl; distinct = tt }

abbrev session_of : Result IntakeError (Received × Session) → Session
session_of (ok (received, session)) = session
session_of (err error) = empty

abbrev after_first : Session
unfolding receive_candidate
after_first = session_of (receive_candidate platform first_candidate profile 200 "request-1" empty)

abbrev after_second : Session
unfolding receive_candidate
after_second =
    session_of (receive_candidate platform second_candidate profile 300 "request-2" after_first)

after_first-IsCounted : IsCounted after_first
unfolding receive_candidate validate_primary_membership load_incident regroup settle
after_first-IsCounted =
    receive_candidate-IsCounted platform 200 "request-1" first_candidate profile empty
      {out = (created, after_first)} refl empty-IsCounted refl

receive_candidate-IsCounted_example : IsCounted after_second
unfolding receive_candidate validate_primary_membership load_incident regroup settle record_creation
    write_enrichment
receive_candidate-IsCounted_example =
    receive_candidate-IsCounted platform 300 "request-2" second_candidate profile after_first
      {out = (grouped enriched, after_second)} refl after_first-IsCounted refl

receive_candidate-created_example :
    let epoch = grouping_epoch_start first_candidate.grouping_anchor in
    let identity = deterministic_incident_identity platform first_candidate profile epoch in
    (s' : Session) × (receive_candidate platform first_candidate profile 200 "request-1" empty
      ≡ ok (created, s'))
    × (find_incident identity.incident_id s'.incidents
        ≡ some (new_incident first_candidate identity profile epoch 200))
    × (count identity.incident_id s'.memberships ≡ 2)
unfolding find_incident validate_primary_membership find_grouping
receive_candidate-created_example =
    receive_candidate-created platform 200 "request-1" first_candidate profile empty refl
      empty-IsCounted refl refl

receive_candidate-repeated_example :
    (s' : Session) × (receive_candidate platform second_candidate profile 200 "request-1" empty
      ≡ ok (created, s'))
    × (receive_candidate platform second_candidate profile 300 "request-2" s'
        ≡ ok (grouped existing, s'))
unfolding find_incident find_grouping
receive_candidate-repeated_example =
    receive_candidate-repeated platform second_candidate profile 200 300 "request-1" "request-2"
      empty refl refl refl

opened_trail_example :
    let epoch = grouping_epoch_start first_candidate.grouping_anchor in
    let identity = deterministic_incident_identity platform first_candidate profile epoch in
    (s' : Session) × (receive_candidate platform first_candidate profile 200 "request-1" empty
      ≡ ok (created, s'))
    × ((requests : List (Datetime × Operation))
        → HasTrail identity.incident_id (serve platform requests s'))
unfolding find_incident find_grouping
opened_trail_example =
    opened_trail platform first_candidate profile 200 "request-1" empty refl refl refl
