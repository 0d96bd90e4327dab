-- ===== src/Incidents/Candidate.antt =====
-- backend/app/incidents: the qualified candidate of models.py, the grouping window of grouping.py and
-- the deterministic identity of identity.py.
use ot_soc_fusion_x.Base.{
  ℕ, ◌+◌, ◌*◌, ◌/◌, ◌-◌, String, Bool, true, false, not, Option, none, some, List, [], ◌∷◌, any,
  ltb, if◌then◌else◌, str_eq, codes, join, sorted_list,
}
use ot_soc_fusion_x.Platform.{Platform, Uuid, Sha256, Datetime}
use ot_soc_fusion_x.Incidents.Model.{
  IncidentCategory, IncidentSeverity, EvidenceRole, primary, CandidateMembership,
  asset_identity_anomaly, communication_policy_violation, control_command_investigation,
  process_inconsistency,
}

pub record QualifiedIncidentCandidate : Type 0 where
  pub qualification_rule_id : String
  pub qualification_rule_version : String
  pub category : IncidentCategory
  pub severity : IncidentSeverity
  pub title : String
  pub summary : String
  pub primary_membership : CandidateMembership
  pub additional_memberships : List CandidateMembership
  pub identity_asset_scope : List String
  pub process_asset_scope : List String
  pub target_point_scope : List String
  pub source_asset_id : Option Uuid
  pub destination_asset_id : Option Uuid
  pub controller_asset_id : Option Uuid
  pub process_asset_ids : List Uuid
  pub process_asset_keys : List String
  pub correlation_rule_id : Option String
  pub correlation_rule_version : Option String
  pub run_scope : String
  pub configuration_scope : String
  pub bound_simulation_id : Option String
  pub bound_configuration_hash : Option Sha256
  pub s3_semantic_evidence_id : Option Uuid
  pub grouping_anchor : Datetime
  pub first_observed_at : Datetime
  pub last_observed_at : Datetime
  pub policy_context : String
  pub correlation_context : String
  pub evidence_completeness : String

abbrev pub is_primary : EvidenceRole → Bool
is_primary primary = true
is_primary _ = false

-- (primary, *additional)
abbrev pub memberships_of : QualifiedIncidentCandidate → List CandidateMembership
memberships_of candidate = candidate.primary_membership ∷ candidate.additional_memberships

-- No evidence is named twice.
unfoldable pub unique_evidence : List CandidateMembership → Bool
unique_evidence [] = true
unique_evidence (m ∷ rest) =
    if any (λ other. str_eq other.evidence_id m.evidence_id) rest
    then false
    else unique_evidence rest

-- Whether the validator admits the candidate.
unfoldable pub validate_primary_membership : QualifiedIncidentCandidate → Bool
unfolding unique_evidence
validate_primary_membership candidate =
    if not (is_primary candidate.primary_membership.role)
    then false
    else if any (λ m. is_primary m.role) candidate.additional_memberships
    then false
    else unique_evidence (memberships_of candidate)

-- 1970-01-01T00:00:00Z in microseconds, and a second.
abbrev unix_epoch : ℕ
unix_epoch = 62135596800000000

abbrev second : ℕ
second = 1000000

-- int(anchor.timestamp()) in seconds since the first datetime: a fraction is cut towards 1970.
abbrev whole_seconds : Datetime → ℕ
whole_seconds anchor =
    if ltb anchor unix_epoch then (anchor + (second - 1)) / second else anchor / second

-- The start of the window of 300 seconds; 1970 is the start of one.
unfoldable pub grouping_epoch_start : Datetime → Datetime
grouping_epoch_start anchor = whole_seconds anchor / 300 * 300 * second

pub record IncidentIdentity : Type 0 where
  pub incident_id : Uuid
  pub grouping_key_sha256 : Sha256
  pub canonical_name : String

-- ",".join(sorted(scope)) or default
abbrev scope_text : String → List String → String
scope_text default scope =
    let text = join "," (sorted_list scope) in if str_eq text "" then default else text

abbrev incident_id_namespace : Uuid
incident_id_namespace = "89b14436-c13d-5f1f-976a-c6dc2240fa7a"

abbrev category_value : IncidentCategory → String
category_value asset_identity_anomaly = "ASSET_IDENTITY_ANOMALY"
category_value communication_policy_violation = "COMMUNICATION_POLICY_VIOLATION"
category_value control_command_investigation = "CONTROL_COMMAND_INVESTIGATION"
category_value process_inconsistency = "PROCESS_INCONSISTENCY"

abbrev semantic_scope : Option Uuid → String
semantic_scope none = "NO_S3_SEMANTIC_SCOPE"
semantic_scope (some evidence_id) = evidence_id

-- The frozen profile that the identity names.
pub record IncidentProfile : Type 0 where
  pub profile_id : String
  pub profile_version : String
  pub sha256 : Sha256

module _ (platform : Platform) where
  unfoldable pub deterministic_incident_identity :
      QualifiedIncidentCandidate → IncidentProfile → Datetime → IncidentIdentity
  unfolding sorted_list
  deterministic_incident_identity candidate profile grouping_epoch =
      let canonical_name = join "|" (
        profile.profile_id
        ∷ profile.profile_version
        ∷ profile.sha256
        ∷ candidate.qualification_rule_id
        ∷ candidate.qualification_rule_version
        ∷ category_value candidate.category
        ∷ scope_text "NO_IDENTITY_ASSET_SCOPE" candidate.identity_asset_scope
        ∷ scope_text "NO_PROCESS_ASSET_SCOPE" candidate.process_asset_scope
        ∷ scope_text "NO_TARGET_POINT_SCOPE" candidate.target_point_scope
        ∷ candidate.run_scope
        ∷ candidate.configuration_scope
        ∷ semantic_scope candidate.s3_semantic_evidence_id
        ∷ platform.isoformat grouping_epoch
        ∷ []) in
      record {
        incident_id = platform.uuid5 incident_id_namespace canonical_name;
        grouping_key_sha256 = platform.sha256_hex (codes canonical_name);
        canonical_name = canonical_name;
      }
