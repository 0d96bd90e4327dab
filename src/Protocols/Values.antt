-- ===== src/Protocols/Values.antt =====
-- backend/app/protocols/decoder.py: `_decode_value`, the value of a point that a raw value stands for.
use ot_soc_fusion_x.Base.{
  ℕ, not, ◌||◌, Option, none, some, ltb, ◌==◌, Decimal, lt_decimal, mul_decimal, pos, negsuc,
  if◌then◌else◌,
}
use ot_soc_fusion_x.Protocols.Model.{
  ReasonCode, none_code, raw_value_required, raw_value_type_invalid, raw_value_out_of_uint16_range,
  engineering_value_out_of_range, LogicalType,
}
use ot_soc_fusion_x.Protocols.Events.{RawScalar, DecodedValue, flag}
use ot_soc_fusion_x.Protocols.Profile.{PointDefinition}

unfoldable pub decode_decimal :
    ℕ → PointDefinition → Option Decimal → Option DecodedValue × ReasonCode
decode_decimal raw point none = (none, raw_value_type_invalid)
decode_decimal raw point (some scale) =
    let decoded = mul_decimal raw scale in
    if lt_decimal decoded point.engineering_min || lt_decimal point.engineering_max decoded
    then (none, engineering_value_out_of_range)
    else (some (DecodedValue.decimal decoded), none_code)

unfoldable pub decode_boolean : ℕ → Option DecodedValue × ReasonCode
decode_boolean raw =
    if not (raw == 0 || raw == 1)
    then (none, engineering_value_out_of_range)
    else (some (flag (raw == 1)), none_code)

unfoldable pub decode_uint16 : ℕ → PointDefinition → LogicalType → Option DecodedValue × ReasonCode
decode_uint16 raw point LogicalType.boolean = decode_boolean raw
decode_uint16 raw point LogicalType.decimal = decode_decimal raw point point.scale

unfoldable pub decode_value : RawScalar → PointDefinition → Option DecodedValue × ReasonCode
decode_value RawScalar.null point = (none, raw_value_required)
decode_value (RawScalar.str s) point = (none, raw_value_type_invalid)
decode_value (RawScalar.bool b) point = (none, raw_value_type_invalid)
decode_value (RawScalar.int (negsuc n)) point = (none, raw_value_out_of_uint16_range)
decode_value (RawScalar.int (pos n)) point =
    if ltb 65535 n
    then (none, raw_value_out_of_uint16_range)
    else decode_uint16 n point point.logical_type
