-- ===== src/Context/Policy.antt =====
-- backend/app/context/policy.py: the evaluation of a communication against the loaded policy.
pub mod Verdict
pub mod Approval
pub mod Denial
pub mod Identified
use ot_soc_fusion_x.Base.{
  String, Bool, true, false, not, ◌&&◌, ◌||◌, Option, none, some, List, [], ◌∷◌, str_eq,
  if◌then◌else◌, any, find, select, Result, ok, err,
}
use ot_soc_fusion_x.Platform.{Sha256}
use ot_soc_fusion_x.Protocols.Model.{
  write, read_only, incompatible, category_is, semantic_is, access_is, compatibility_is,
}
use ot_soc_fusion_x.Context.Model.{
  DimensionStatus, PolicyStatus, PolicyReasonCode, GovernedPath, CommunicationPolicyRule,
  CommunicationPolicyProfile, AssetResolution, AssetContextEvent, AuthorizationDimensions,
  AuthorizationInput, PolicyEvaluationResult, zone_is, is_conflict, is_unknown, is_denied,
  satisfied, not_satisfied, source_evidence_not_verified, semantic_evidence_not_verified,
  profile_version_unsupported, policy_profile_invalid, identity_conflict, source_unknown,
  destination_unknown, source_disabled, destination_disabled, source_zone_unexpected,
  destination_zone_unexpected, point_write_not_approved, protocol_not_approved,
  operation_not_approved, source_role_not_approved, communication_not_approved,
  policy_not_classified, policy_match_approved,
}

pub data PolicyProfileError : Type 0 where
  policy_profile_error : String → PolicyProfileError

pub record LoadedPolicy : Type 0 where
  pub profile : CommunicationPolicyProfile
  pub sha256 : Sha256

-- value in items, where value may be None
abbrev pub is_in {ℓ} : {A : Type ℓ} → (A → A → Bool) → Option A → List A → Bool
is_in eq none items = false
is_in eq (some a) items = any (eq a) items

-- a == b, where a may be None
abbrev pub equals {ℓ} : {A : Type ℓ} → (A → A → Bool) → Option A → A → Bool
equals eq none b = false
equals eq (some a) b = eq a b

-- enabled is False
abbrev pub is_false : Option Bool → Bool
is_false (some false) = true
is_false _ = false

abbrev pub unknown_dimensions : AuthorizationDimensions
unknown_dimensions = record {
  source_asset_known = DimensionStatus.unknown;
  destination_asset_known = DimensionStatus.unknown;
  source_zone_expected = DimensionStatus.unknown;
  destination_zone_expected = DimensionStatus.unknown;
  communication_path_approved = DimensionStatus.unknown;
  protocol_approved = DimensionStatus.unknown;
  operation_approved = DimensionStatus.unknown;
  point_classification_allows = DimensionStatus.unknown;
  source_role_approved = DimensionStatus.unknown;
}

-- The statement where only the status decides.
abbrev status_statement : PolicyStatus → String × String
status_statement PolicyStatus.approved = (
  "COMMUNICATION_APPROVED",
  "The communication is approved by synthetic policy 1.0.0; execution, physical effect, and malicious intent are not determined.",
)
status_statement PolicyStatus.denied = (
  "COMMUNICATION_DENIED",
  "The communication is not approved by synthetic policy 1.0.0; malicious intent is not determined.",
)
status_statement PolicyStatus.unknown = (
  "COMMUNICATION_UNCLASSIFIED",
  "Synthetic policy evaluation is unknown and malicious intent is not determined.",
)

-- _statement
unfoldable pub statement : PolicyStatus → PolicyReasonCode → String × String
statement status source_unknown = (
  "SOURCE_IDENTITY_UNKNOWN",
  "The source identity for this synthetic protocol event is not present in asset inventory 1.0.0; authorization remains unknown and malicious intent is not determined.",
)
statement status destination_unknown = (
  "DESTINATION_IDENTITY_UNKNOWN",
  "The destination identity is not present in asset inventory 1.0.0; authorization remains unknown and malicious intent is not determined.",
)
statement status identity_conflict = (
  "IDENTITY_CLAIMS_CONFLICT",
  "Authoritative synthetic identity claims conflict; no asset was selected and malicious intent is not determined.",
)
statement status point_write_not_approved = (
  "POINT_WRITE_INCOMPATIBLE",
  "The synthetic write targets a read-only point; source authorization cannot override protocol-semantic incompatibility.",
)
statement status profile_version_unsupported = (
  "PROFILE_UNAVAILABLE",
  "The requested synthetic profile cannot support policy evaluation; authorization remains unknown.",
)
statement status policy_profile_invalid = (
  "PROFILE_UNAVAILABLE",
  "The requested synthetic profile cannot support policy evaluation; authorization remains unknown.",
)
statement status policy_not_classified = (
  "COMMUNICATION_UNCLASSIFIED",
  "No exact path in synthetic policy 1.0.0 classifies this communication; authorization remains unknown.",
)
statement status _ = status_statement status

-- _result
unfoldable pub result :
    AuthorizationDimensions
    → PolicyStatus
    → PolicyReasonCode
    → Option String
    → Option String
    → PolicyEvaluationResult
result dimensions status reason path_id rule_id = record {
  dimension_results = dimensions;
  matched_path_id = path_id;
  matched_rule_id = rule_id;
  policy_status = status;
  reason_code = reason;
  statement_template_id = (statement status reason).0;
  analyst_readable_statement = (statement status reason).1;
}

-- The conditions on a rule in `_matching_rule`.
unfoldable pub applies : AuthorizationInput → String → CommunicationPolicyRule → Bool
applies auth path_id rule =
    rule.enabled
    && str_eq rule.path_id path_id
    && str_eq rule.protocol auth.protocol
    && any (category_is auth.operation_category) rule.operations
    && is_in semantic_is auth.function_semantic rule.function_semantics
    && is_in str_eq auth.target_point rule.point_ids
    && is_in access_is auth.point_access_class rule.point_access_classes

abbrev pub ambiguous : PolicyProfileError
ambiguous = policy_profile_error "Ambiguous same-precedence policy rules matched."

-- if len(denies) == 1: return denies[0]
abbrev pub only_denial :
    List CommunicationPolicyRule → Result PolicyProfileError (Option CommunicationPolicyRule)
only_denial (rule ∷ []) = ok (some rule)
only_denial _ = err ambiguous

abbrev pub select_match :
    List CommunicationPolicyRule → Result PolicyProfileError (Option CommunicationPolicyRule)
select_match [] = ok none
select_match (rule ∷ []) = ok (some rule)
select_match (rule ∷ other ∷ rest) =
    only_denial (select (λ r. is_denied r.decision) (rule ∷ other ∷ rest))

-- _matching_rule
unfoldable pub matching_rule :
    AuthorizationInput
    → String
    → LoadedPolicy
    → Result PolicyProfileError (Option CommunicationPolicyRule)
matching_rule auth path_id policy =
    select_match (select (applies auth path_id) policy.profile.rules)

-- The updates for a denying rule, by its reason code.
unfoldable pub denial_dimensions :
    PolicyReasonCode → AuthorizationDimensions → AuthorizationDimensions
denial_dimensions source_role_not_approved d = record d {
  operation_approved = satisfied;
  communication_path_approved = satisfied;
  source_role_approved = not_satisfied;
}
denial_dimensions communication_not_approved d = record d {
  operation_approved = satisfied;
  communication_path_approved = not_satisfied;
  source_role_approved = satisfied;
}
denial_dimensions _ d = record d { operation_approved = not_satisfied }

-- What the matched rule decides.
unfoldable pub evaluate_rule :
    AuthorizationDimensions → GovernedPath → Option CommunicationPolicyRule → PolicyEvaluationResult
unfolding result denial_dimensions
evaluate_rule d path none =
    result (record d { operation_approved = not_satisfied }) PolicyStatus.denied
      operation_not_approved (some path.path_id) none
evaluate_rule d path (some rule) =
    if is_denied rule.decision
    then result (denial_dimensions rule.reason_code d) PolicyStatus.denied rule.reason_code
        (some path.path_id) (some rule.rule_id)
    else result
        (record d {
          communication_path_approved = satisfied;
          operation_approved = satisfied;
          source_role_approved = satisfied;
        })
        PolicyStatus.approved policy_match_approved (some path.path_id) (some rule.rule_id)

abbrev map_result {ℓ κ} : {E : Type 0} {A : Type ℓ} {B : Type κ} → (A → B) → Result E A → Result E B
map_result f (ok a) = ok (f a)
map_result f (err e) = err e

-- auth.operation_category is WRITE and (… is READ_ONLY or … is INCOMPATIBLE)
unfoldable pub is_forbidden_write : AuthorizationInput → Bool
is_forbidden_write auth =
    category_is auth.operation_category write
    && (equals access_is auth.point_access_class read_only
        || compatibility_is auth.operation_compatibility incompatible)

-- The checks on the governed path, once both assets are known and enabled.
unfoldable pub evaluate_path :
    AuthorizationInput
    → AuthorizationDimensions
    → AssetResolution
    → AssetResolution
    → LoadedPolicy
    → Option GovernedPath
    → Result PolicyProfileError PolicyEvaluationResult
unfolding result
evaluate_path auth d source destination policy none =
    ok (result d PolicyStatus.unknown policy_not_classified none none)
evaluate_path auth d source destination policy (some path) =
    if not (equals zone_is source.zone_id path.source_zone)
    then ok (
        result (record d { source_zone_expected = not_satisfied }) PolicyStatus.denied
          source_zone_unexpected (some path.path_id) none)
    else if not (equals zone_is destination.zone_id path.destination_zone)
    then ok (
        result
          (record d { source_zone_expected = satisfied; destination_zone_expected = not_satisfied })
          PolicyStatus.denied destination_zone_unexpected (some path.path_id) none)
    else let zoned = record d {
      source_zone_expected = satisfied;
      destination_zone_expected = satisfied;
    } in
      if is_forbidden_write auth
      then ok (
          result (record zoned { point_classification_allows = not_satisfied }) PolicyStatus.denied
            point_write_not_approved (some path.path_id) none)
      else let classified = record zoned { point_classification_allows = satisfied } in
        if not (any (str_eq auth.protocol) path.approved_protocols)
        then ok (
            result (record classified { protocol_approved = not_satisfied }) PolicyStatus.denied
              protocol_not_approved (some path.path_id) none)
        else map_result (evaluate_rule (record classified { protocol_approved = satisfied }) path)
            (matching_rule auth path.path_id policy)

-- The first governed path between the two assets.
unfoldable pub path_between : AssetResolution → AssetResolution → LoadedPolicy → Option GovernedPath
path_between source destination policy =
    find
      (λ candidate.
        equals str_eq source.asset_key candidate.source_asset_key
        && equals str_eq destination.asset_key candidate.destination_asset_key)
      policy.profile.governed_paths

unfoldable pub evaluate_policy :
    AuthorizationInput
    → AssetContextEvent
    → LoadedPolicy
    → Result PolicyProfileError PolicyEvaluationResult
unfolding result
evaluate_policy auth context policy =
    let source = context.source_resolution in
    let destination = context.destination_resolution in
    let d = unknown_dimensions in
    if not auth.source_evidence_verified
    then ok (result d PolicyStatus.unknown source_evidence_not_verified none none)
    else if not auth.semantic_evidence_verified
    then ok (result d PolicyStatus.unknown semantic_evidence_not_verified none none)
    else if is_conflict source.status || is_conflict destination.status
    then ok (result d PolicyStatus.unknown identity_conflict none none)
    else if is_unknown source.status
    then ok (
        result (record d { source_asset_known = not_satisfied }) PolicyStatus.unknown source_unknown
          none none)
    else if is_unknown destination.status
    then ok (
        result
          (record d { source_asset_known = satisfied; destination_asset_known = not_satisfied })
          PolicyStatus.unknown destination_unknown none none)
    else let known = record d {
      source_asset_known = satisfied;
      destination_asset_known = satisfied;
    } in
      if is_false source.enabled
      then ok (result known PolicyStatus.denied source_disabled none none)
      else if is_false destination.enabled
      then ok (result known PolicyStatus.denied destination_disabled none none)
      else evaluate_path auth known source destination policy
          (path_between source destination policy)
