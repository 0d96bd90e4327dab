-- ===== src/Tests/Identities.antt =====
-- The theorems on asset identity, alone and with the policy evaluation, at an inventory of two assets.
use ot_soc_fusion_x.Base.{◌≡◌, refl, String, true, none, some, List, [], ◌∷◌, ok, err}
use ot_soc_fusion_x.Context.Model as C
use ot_soc_fusion_x.Context.Model.{
  AssetDefinition, IdentityClaim, AssetContextEvent, PolicyEvaluationResult, PolicyStatus,
  GovernedPath,
}
use ot_soc_fusion_x.Context.Identity.{LoadedInventory, identified, resolve_identity, resolve_known}
use ot_soc_fusion_x.Context.Identity.Resolution.{
  IsResolution, IsAgreed, resolve_identity-IsResolution,
}
use ot_soc_fusion_x.Context.Policy.{
  evaluate_policy, evaluate_path, evaluate_rule, path_between, matching_rule, applies,
  is_forbidden_write, result, unknown_dimensions,
}
use ot_soc_fusion_x.Context.Policy.Identified.{approved-IsAgreed}
use ot_soc_fusion_x.Tests.Samples
use ot_soc_fusion_x.Tests.Authorization

abbrev asset : String → AssetDefinition
asset key = record {
  asset_key = key;
  display_name = key;
  asset_kind = C.cyber;
  asset_type = C.ot_controller;
  asset_role = C.control_execution;
  zone_id = C.ot_control_zone;
  criticality = C.high;
  process_role = none;
  protocol_capabilities = [];
  enabled = true;
  identifiers = record { identifier_type = C.logical_id; value = key } ∷ [];
}

abbrev inventory : LoadedInventory
inventory = record { assets = asset "HMI-01" ∷ asset "PLC-01" ∷ []; sha256 = "22" }

abbrev claim : String → IdentityClaim
claim value = record { identifier_type = C.logical_id; value = value }

abbrev sources : List IdentityClaim
sources = claim "HMI-01" ∷ claim "HMI-01" ∷ []

abbrev destinations : List IdentityClaim
destinations = claim "PLC-01" ∷ []

-- One claim is known and one is not.
conflict_status :
    (resolve_identity Samples.platform (claim "HMI-01" ∷ claim "PLC-02" ∷ []) inventory).status
    ≡ C.conflict
unfolding resolve_identity resolve_known identified
conflict_status = refl

resolve_identity-IsResolution_example :
    IsResolution Samples.platform inventory sources
      (resolve_identity Samples.platform sources inventory)
resolve_identity-IsResolution_example =
    resolve_identity-IsResolution Samples.platform inventory sources

abbrev context : AssetContextEvent
context = record Authorization.context {
  source_resolution = resolve_identity Samples.platform sources inventory;
  destination_resolution = resolve_identity Samples.platform destinations inventory;
}

abbrev evaluated : PolicyEvaluationResult
evaluated =
    elim (evaluate_policy Authorization.auth context
      (Authorization.policy Authorization.approving)) [
        | ok r ↦ r
        | err e ↦ result unknown_dimensions C.PolicyStatus.unknown C.source_unknown none none
      ]

evaluated_run :
    evaluate_policy Authorization.auth context (Authorization.policy Authorization.approving)
    ≡ ok evaluated
unfolding evaluate_policy evaluate_path evaluate_rule path_between matching_rule applies
    is_forbidden_write result resolve_identity resolve_known identified
evaluated_run = refl

evaluated_status : evaluated.policy_status ≡ PolicyStatus.approved
unfolding evaluate_policy evaluate_path evaluate_rule path_between matching_rule applies
    is_forbidden_write result resolve_identity resolve_known identified
evaluated_status = refl

approved-IsAgreed_example :
    (path : GovernedPath) × (path_between context.source_resolution context.destination_resolution
        (Authorization.policy Authorization.approving)
      ≡ some path)
    × IsAgreed inventory sources path.source_asset_key
    × IsAgreed inventory destinations path.destination_asset_key
approved-IsAgreed_example =
    approved-IsAgreed Samples.platform inventory sources destinations Authorization.auth context
      (Authorization.policy Authorization.approving) evaluated refl refl evaluated_run
      evaluated_status
