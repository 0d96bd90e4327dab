-- ===== src/Context/Policy/Identified.antt =====
-- An approval rests on the identity of both assets: backend/app/context/identity.py with
-- backend/app/context/policy.py.
use ot_soc_fusion_x.Base.{
  ◌≡◌, refl, true, ◌&&◌, Option, none, some, List, ok, arith, find-test, str_eq, eq_iff, subst,
  String, sym,
}
use ot_soc_fusion_x.Platform.{Platform}
use ot_soc_fusion_x.Context.Model.{
  PolicyStatus, ResolutionStatus, IdentityClaim, GovernedPath, AssetResolution, AssetContextEvent,
  AuthorizationInput, PolicyEvaluationResult,
}
use ot_soc_fusion_x.Context.Identity.{LoadedInventory, resolve_identity}
use ot_soc_fusion_x.Context.Identity.Resolution.{
  IsAgreed, IsResolution, unknown, conflict, agreed, resolve_identity-IsResolution,
}
use ot_soc_fusion_x.Context.Policy.{LoadedPolicy, equals, evaluate_policy, path_between}
use ot_soc_fusion_x.Context.Policy.Approval.{approved_conditions}

-- A resolved asset has the key that the claims agree on.
resolved-IsAgreed :
    (platform : Platform) (inventory : LoadedInventory) (claims : List IdentityClaim)
    (resolution : AssetResolution)
    → IsResolution platform inventory claims resolution
    → resolution.status ≡ ResolutionStatus.resolved
    → (key : String) × (resolution.asset_key ≡ some key) × IsAgreed inventory claims key
resolved-IsAgreed platform inventory claims _ (unknown all) h = cc
resolved-IsAgreed platform inventory claims _ (conflict asset found differ) h = cc
resolved-IsAgreed platform inventory claims _ (agreed asset found same) h =
    (asset.asset_key, refl, same)

equals-key :
    (o : Option String) (key t : String) → o ≡ some key → equals str_eq o t ≡ true → key ≡ t
equals-key none key t h e = cc
equals-key (some s) key t h e = cc (h, (eq_iff s t).0 e)

path_between-keys :
    (source destination : AssetResolution) (policy : LoadedPolicy) {path : GovernedPath}
    → path_between source destination policy ≡ some path
    → (equals str_eq source.asset_key path.source_asset_key ≡ true)
      × (equals str_eq destination.asset_key path.destination_asset_key ≡ true)
unfolding path_between
path_between-keys source destination policy {path} h =
    let t =
      find-test
        (λ candidate.
          equals str_eq source.asset_key candidate.source_asset_key
          && equals str_eq destination.asset_key candidate.destination_asset_key)
        policy.profile.governed_paths h in
    (ground (arith, t), ground (arith, t))

-- The claims on one side of an approved communication agree on the key of that side of the path.
side :
    (platform : Platform) (inventory : LoadedInventory) (claims : List IdentityClaim) (key : String)
    (resolution : AssetResolution)
    → resolution ≡ resolve_identity platform claims inventory
    → resolution.status ≡ ResolutionStatus.resolved
    → equals str_eq resolution.asset_key key ≡ true
    → IsAgreed inventory claims key
side platform inventory claims key resolution same resolved on_path =
    let means =
      subst (IsResolution platform inventory claims) (sym same)
        (resolve_identity-IsResolution platform inventory claims) in
    let (k, is_key, agree) =
      resolved-IsAgreed platform inventory claims resolution means resolved in
    subst (IsAgreed inventory claims) (equals-key resolution.asset_key k key is_key on_path) agree

-- With both assets resolved from identity claims, a communication is approved only if all claims of the
-- source name assets of one key and all claims of the destination too, and these keys are the two ends
-- of a governed path.
pub approved-IsAgreed :
    (platform : Platform) (inventory : LoadedInventory) (sources destinations : List IdentityClaim)
    (auth : AuthorizationInput) (context : AssetContextEvent) (policy : LoadedPolicy)
    (r : PolicyEvaluationResult)
    → context.source_resolution ≡ resolve_identity platform sources inventory
    → context.destination_resolution ≡ resolve_identity platform destinations inventory
    → evaluate_policy auth context policy ≡ ok r
    → r.policy_status ≡ PolicyStatus.approved
    → (path : GovernedPath) × (path_between context.source_resolution context.destination_resolution
          policy
        ≡ some path)
      × IsAgreed inventory sources path.source_asset_key
      × IsAgreed inventory destinations path.destination_asset_key
approved-IsAgreed platform inventory sources destinations auth context policy r source destination h
      e =
    let a = approved_conditions auth context policy r h e in
    let (from_key, to_key) =
      path_between-keys context.source_resolution context.destination_resolution policy
        a.governed in
    (
      a.path,
      a.governed,
      side platform inventory sources (a.path.source_asset_key) context.source_resolution source
          a.source_resolved from_key,
      side platform inventory destinations (a.path.destination_asset_key)
          context.destination_resolution destination a.destination_resolved to_key,
    )
