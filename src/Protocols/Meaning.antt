-- ===== src/Protocols/Meaning.antt =====
-- The value that the decoder of backend/app/protocols/decoder.py gives to a raw value.
use ot_soc_fusion_x.Base.{
  ℕ, ◌≤◌, ◌≡◌, ◌↔◌, inl, inr, refl, true, false, Option, none, some, ◌==◌, Decimal, lt_decimal,
  mul_decimal, pos, negsuc, arith, Bool-cases, subst,
}
use ot_soc_fusion_x.Protocols.Model.{none_code, LogicalType}
use ot_soc_fusion_x.Protocols.Events.{RawScalar, DecodedValue, flag}
use ot_soc_fusion_x.Protocols.Profile.{PointDefinition}
use ot_soc_fusion_x.Protocols.Values.{decode_value, decode_uint16, decode_decimal, decode_boolean}

-- What a decoded value means: the state of a Boolean point, or the raw value times the scale within
-- the engineering limits.
pub data IsValueOf (raw : ℕ) (point : PointDefinition) : DecodedValue → Type 0 where
  off : point.logical_type ≡ LogicalType.boolean → raw ≡ 0 → IsValueOf raw point (flag false)
  on : point.logical_type ≡ LogicalType.boolean → raw ≡ 1 → IsValueOf raw point (flag true)
  scaled :
      (scale : Decimal)
      → point.logical_type ≡ LogicalType.decimal
      → point.scale ≡ some scale
      → lt_decimal (mul_decimal raw scale) point.engineering_min ≡ false
      → lt_decimal point.engineering_max (mul_decimal raw scale) ≡ false
      → IsValueOf raw point (DecodedValue.decimal (mul_decimal raw scale))

decimal_of :
    (raw : ℕ) (point : PointDefinition) (scale : Option Decimal) (d : DecodedValue)
    → point.logical_type ≡ LogicalType.decimal
    → point.scale ≡ scale
    → decode_decimal raw point scale ≡ (some d, none_code)
    → IsValueOf raw point d
unfolding decode_decimal
decimal_of raw point none d t s h = absurd (ground arith)
decimal_of raw point (some scale) d t s h =
    let value : DecodedValue.decimal (mul_decimal raw scale) ≡ d = ground arith in
    subst (IsValueOf raw point) value (scaled scale t s (ground arith) (ground arith))

boolean_of :
    (raw : ℕ) (point : PointDefinition) (d : DecodedValue)
    → point.logical_type ≡ LogicalType.boolean
    → decode_boolean raw ≡ (some d, none_code)
    → IsValueOf raw point d
unfolding decode_boolean
boolean_of raw point d t h = elim (Bool-cases (raw == 1)) [
  | inl one ↦ subst (IsValueOf raw point) (ground arith) (on t (ground arith))
  | inr other ↦ subst (IsValueOf raw point) (ground arith) (off t (ground arith))
]

uint16_of :
    (raw : ℕ) (point : PointDefinition) (l : LogicalType) (d : DecodedValue)
    → point.logical_type ≡ l
    → decode_uint16 raw point l ≡ (some d, none_code)
    → IsValueOf raw point d
unfolding decode_uint16
uint16_of raw point LogicalType.boolean d t h = boolean_of raw point d t h
uint16_of raw point LogicalType.decimal d t h = decimal_of raw point point.scale d t refl h

value_of_uint16 :
    (raw : ℕ) (point : PointDefinition) (d : DecodedValue)
    → IsValueOf raw point d
    → decode_uint16 raw point point.logical_type ≡ (some d, none_code)
unfolding decode_uint16 decode_boolean decode_decimal
value_of_uint16 raw point _ (off t z) = rw t (rw z refl)
value_of_uint16 raw point _ (on t o) = rw t (rw o refl)
value_of_uint16 raw point _ (scaled scale t s low high) = rw t (rw s (rw low (rw high refl)))

uint16_raw :
    (raw_value : RawScalar) (point : PointDefinition) (d : DecodedValue)
    → decode_value raw_value point ≡ (some d, none_code)
    → (raw : ℕ) × (raw_value ≡ RawScalar.int (pos raw))
      × (raw ≤ 65535)
      × (decode_uint16 raw point point.logical_type ≡ (some d, none_code))
unfolding decode_value
uint16_raw RawScalar.null point d h = absurd (ground arith)
uint16_raw (RawScalar.str s) point d h = absurd (ground arith)
uint16_raw (RawScalar.bool b) point d h = absurd (ground arith)
uint16_raw (RawScalar.int (negsuc n)) point d h = absurd (ground arith)
uint16_raw (RawScalar.int (pos n)) point d h = (n, refl, ground arith, ground arith)

-- A raw value decodes to `d` exactly if it is an integer of 16 bits without sign whose value at the
-- point is `d`.
pub decode_value_iff :
    (raw_value : RawScalar) (point : PointDefinition) (d : DecodedValue)
    → (decode_value raw_value point ≡ (some d, none_code))
      ↔ ((raw : ℕ) × (raw_value ≡ RawScalar.int (pos raw)) × (raw ≤ 65535) × IsValueOf raw point d)
unfolding decode_value
decode_value_iff raw_value point d = (
  λ h.
      let (raw, same, small, decoded) = uint16_raw raw_value point d h in
      (raw, same, small, uint16_of raw point point.logical_type d refl decoded),
  λ (raw, same, small, value). rw same (ground (arith, value_of_uint16 raw point d value)),
)
