-- ===== src/Protocols/Profile.antt =====
-- backend/app/protocols/profile.py: the loaded Modbus profile, its two dictionaries and the contract
-- that its validator checks. Fields whose type is a `Literal` of one value are left out.
use ot_soc_fusion_x.Base.{
  ℕ, ◌+◌, String, ◌&&◌, Option, none, List, ◌==◌, find_last, Decimal, ℤ, is_nat, if◌then◌else◌,
}
use ot_soc_fusion_x.Platform.{Sha256}
use ot_soc_fusion_x.Protocols.Model.{
  TableType, OperationCategory, FunctionSemantic, PointAccessClass, LogicalType, table_is,
  discrete_input, input_register, holding_register,
}

pub record SupportedFunction : Type 0 where
  pub function_code : ℕ
  pub semantic : FunctionSemantic
  pub category : OperationCategory
  pub allowed_table : TableType

pub record PointDefinition : Type 0 where
  pub point_id : String
  pub component : String
  pub display_label : String
  pub access_class : PointAccessClass
  pub table_type : TableType
  pub address_offset : ℕ
  pub display_reference : ℕ
  pub logical_type : LogicalType
  pub protocol_representation : String
  pub byte_order : String
  pub scale : Option Decimal
  pub unit : String
  pub engineering_min : Decimal
  pub engineering_max : Decimal
  pub raw_min : ℤ
  pub raw_max : ℤ
  pub compatible_functions : List ℕ
  pub template_id : String
  pub decimal_places : ℕ

-- The profile with the unit id of its fictional endpoint.
pub record ModbusProfile : Type 0 where
  pub unit_id : ℕ
  pub supported_functions : List SupportedFunction
  pub points : List PointDefinition

pub record LoadedProfile : Type 0 where
  pub profile : ModbusProfile
  pub sha256 : Sha256

-- loaded_profile.functions.get(function_code)
unfoldable pub function_of : LoadedProfile → ℕ → Option SupportedFunction
function_of loaded code =
    find_last (λ item. item.function_code == code) loaded.profile.supported_functions

-- loaded_profile.mapping.get((unit_id, table_type, address_offset))
unfoldable pub point_at : LoadedProfile → ℕ → TableType → ℤ → Option PointDefinition
point_at loaded unit_id table_type offset =
    if loaded.profile.unit_id == unit_id
    then find_last
        (λ point. table_is point.table_type table_type && is_nat offset point.address_offset)
        loaded.profile.points
    else none

-- ModbusProfile.display_reference, with the bases that the profile's literals fix
unfoldable pub display_reference : TableType → ℕ → ℕ
display_reference discrete_input offset = 10001 + offset
display_reference input_register offset = 30001 + offset
display_reference holding_register offset = 40001 + offset
