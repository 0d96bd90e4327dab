-- ===== src/Context/Identity.antt =====
-- backend/app/context/identity.py: the asset that identity claims stand for; with the index of
-- backend/app/context/inventory.py and the identifier of backend/app/context/canonical.py.
pub mod Resolution
use ot_soc_fusion_x.Base.{
  String, Bool, not, ◌&&◌, ◌||◌, Option, none, some, List, [], ◌∷◌, map, length, any, find_last,
  present, ◌==◌, str_eq, concat, if◌then◌else◌,
}
use ot_soc_fusion_x.Platform.{Platform, Uuid, Sha256}
use ot_soc_fusion_x.Context.Model.{
  ResolutionStatus, IdentityClaim, AssetDefinition, AssetResolution, identifier_type_is,
}

-- The inventory, of which the profile's assets are read here.
pub record LoadedInventory : Type 0 where
  pub assets : List AssetDefinition
  pub sha256 : Sha256

-- loaded_inventory.identifier_index.get((claim.identifier_type, claim.value))
unfoldable pub identified : LoadedInventory → IdentityClaim → Option AssetDefinition
identified inventory claim =
    find_last
      (λ asset.
        any
          (λ identifier.
            identifier_type_is identifier.identifier_type claim.identifier_type
            && str_eq identifier.value claim.value)
          asset.identifiers)
      inventory.assets

-- uuid.NAMESPACE_URL
abbrev namespace_url : Uuid
namespace_url = "6ba7b811-9dad-11d1-80b4-00c04fd430c8"

unfoldable pub deterministic_asset_id : Platform → String → String → Uuid
deterministic_asset_id platform inventory_profile_id asset_key =
    platform.uuid5 namespace_url
      (concat ("urn:otsoc:asset|" ∷ inventory_profile_id ∷ "|" ∷ asset_key ∷ []))

-- _unresolved
abbrev pub unresolved : ResolutionStatus → AssetResolution
unresolved status = record {
  status = status;
  known_asset = Bool.false;
  enabled = none;
  asset_id = none;
  asset_key = none;
  asset_kind = none;
  asset_type = none;
  asset_role = none;
  zone_id = none;
  criticality = none;
}

-- len(known) != len(matches) or len({asset.asset_key for asset in known}) != 1: the keys of the known
-- assets, of which there is a first, are one if each is the first's.
abbrev pub disagrees : AssetDefinition → List AssetDefinition → List (Option AssetDefinition) → Bool
disagrees asset rest matches =
    not (length (asset ∷ rest) == length matches)
    || any (λ a. not (str_eq a.asset_key asset.asset_key)) (asset ∷ rest)

module _ (platform : Platform) where
  -- The resolution to the asset.
  abbrev pub resolved_as : AssetDefinition → AssetResolution
  resolved_as asset = record {
    status = ResolutionStatus.resolved;
    known_asset = Bool.true;
    enabled = some asset.enabled;
    asset_id =
        some (
          deterministic_asset_id platform "otsoc.asset_inventory.oil_gas_transfer" asset.asset_key);
    asset_key = some asset.asset_key;
    asset_kind = some asset.asset_kind;
    asset_type = some asset.asset_type;
    asset_role = some asset.asset_role;
    zone_id = some asset.zone_id;
    criticality = some asset.criticality;
  }

  -- `resolve_identity` from the test of the known assets on.
  unfoldable pub resolve_known :
      List (Option AssetDefinition) → List AssetDefinition → AssetResolution
  resolve_known matches [] = unresolved ResolutionStatus.unknown
  resolve_known matches (asset ∷ rest) =
      if disagrees asset rest matches
      then unresolved ResolutionStatus.conflict
      else resolved_as asset

  unfoldable pub resolve_identity : List IdentityClaim → LoadedInventory → AssetResolution
  resolve_identity claims inventory =
      let matches = map (identified inventory) claims in resolve_known matches (present matches)
