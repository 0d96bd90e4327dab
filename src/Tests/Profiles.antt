-- ===== src/Tests/Profiles.antt =====
-- The theorems on validated profiles at the profile that is shipped.
use ot_soc_fusion_x.Base.{◌≡◌, refl, true, none, some, inl, inr, ok, err, pos, lt_decimal}
use ot_soc_fusion_x.Protocols.Model
use ot_soc_fusion_x.Protocols.Events.{ProtocolSemanticEvent}
use ot_soc_fusion_x.Protocols.Profile.{point_at, function_of, display_reference}
use ot_soc_fusion_x.Protocols.Decoder.{
  built, decode_event, decode_supported, parse_table, valid_address, decode_at, decode_on_table,
  decode_mapped, build_result,
}
use ot_soc_fusion_x.Protocols.Values.{decode_value, decode_uint16, decode_decimal}
use ot_soc_fusion_x.Protocols.Claims.{has_prohibited_claim}
use ot_soc_fusion_x.Protocols.Semantics.{mapped_statement}
use ot_soc_fusion_x.Protocols.Contract.{
  validate_profile, validate_points, validate_representation, validate_logical, validate_access,
  validate_contract, validate_references,
}
use ot_soc_fusion_x.Protocols.Contract.Lookup.{point_at_self}
use ot_soc_fusion_x.Protocols.Contract.Writes.{write-commandable}
use ot_soc_fusion_x.Tests.Shipped.{shipped, control_valve_command_percent}
use ot_soc_fusion_x.Tests.Modbus

shipped_valid : validate_profile shipped.profile ≡ ok tt
unfolding validate_profile validate_points validate_representation validate_logical validate_access
    validate_contract validate_references display_reference lt_decimal
shipped_valid = refl

point_at_self_example :
    point_at shipped 1 Model.holding_register (pos 1) ≡ some control_valve_command_percent
point_at_self_example =
    point_at_self shipped control_valve_command_percent shipped_valid (inr (inl refl))

abbrev returned : ProtocolSemanticEvent
returned = elim (decode_event Modbus.event shipped Modbus.derivation none true) [
  | ok r ↦ r
  | err e ↦
      built Modbus.event shipped Modbus.derivation Model.write none Model.not_applicable
        Model.mapped Model.none_code none none ("", "")
]

returned_run : decode_event Modbus.event shipped Modbus.derivation none true ≡ ok returned
unfolding decode_event function_of decode_supported parse_table valid_address decode_at point_at
    decode_on_table decode_mapped decode_value decode_uint16 decode_decimal lt_decimal build_result
    has_prohibited_claim mapped_statement
returned_run = refl

returned_compatible : returned.operation_compatibility ≡ Model.compatible
unfolding decode_event function_of decode_supported parse_table valid_address decode_at point_at
    decode_on_table decode_mapped decode_value decode_uint16 decode_decimal lt_decimal build_result
    has_prohibited_claim mapped_statement
returned_compatible = refl

write-commandable_example : returned.point_access_class ≡ some Model.commandable_synthetic
write-commandable_example =
    write-commandable Modbus.event shipped Modbus.derivation none true returned shipped_valid refl
      returned_run returned_compatible
