-- ===== src/Protocols/Contract.antt =====
-- backend/app/protocols/profile.py: the validators of a point and of the profile, which a loaded
-- profile has passed. The checks of literals that pydantic has made before are left out.
pub mod Lookup
pub mod Writes
use ot_soc_fusion_x.Base.{
  ℕ, String, Bool, true, false, not, ◌&&◌, ◌||◌, Option, none, some, List, [], ◌∷◌, map, length,
  any, select, ◌==◌, is_some, str_eq, Decimal, lt_decimal, pos, lt_int, is_nat, Result, ok, guard,
  ◌>>=◌, ◌>>◌, if◌then◌else◌,
}
use ot_soc_fusion_x.Protocols.Model.{
  LogicalType, holding_register, commandable_synthetic, read_only, table_is, access_is,
}
use ot_soc_fusion_x.Protocols.Profile.{
  SupportedFunction, PointDefinition, ModbusProfile, display_reference,
}

pub data ProfileError : Type 0 where
  value_error : String → ProfileError

abbrev pub zero_decimal : Decimal
zero_decimal = record { coefficient = pos 0; places = 0 }

-- scale is not None and scale > 0
abbrev pub is_positive : Option Decimal → Bool
is_positive none = false
is_positive (some scale) = lt_decimal zero_decimal scale

unfoldable pub validate_logical : LogicalType → PointDefinition → Result ProfileError (Unit {0})
validate_logical LogicalType.boolean point =
    guard
      (str_eq point.protocol_representation "single_bit"
        && not (is_some point.scale)
        && str_eq point.byte_order "not_applicable"
        && is_nat point.raw_min 0
        && is_nat point.raw_max 1
        && point.decimal_places == 0)
      (value_error "Boolean point representation is invalid")
validate_logical LogicalType.decimal point =
    guard
      (str_eq point.protocol_representation "uint16"
        && is_positive point.scale
        && str_eq point.byte_order "big_endian")
      (value_error "decimal point representation or scale is invalid")

-- 6 in compatible_functions
abbrev pub writes : PointDefinition → Bool
writes point = any (λ code. code == 6) point.compatible_functions

unfoldable pub validate_access : PointDefinition → Result ProfileError (Unit {0})
validate_access point =
    if access_is point.access_class commandable_synthetic
    then guard (table_is point.table_type holding_register && writes point)
        (value_error "commandable points must be approved FC06 holding registers")
    else guard (not (writes point)) (value_error "read-only points cannot declare a write function")

unfoldable pub validate_representation : PointDefinition → Result ProfileError (Unit {0})
validate_representation point = do
  guard
      (not (
        lt_decimal point.engineering_max point.engineering_min
        || lt_int point.raw_max point.raw_min))
      (value_error "point limits are reversed")
  guard (not (lt_int point.raw_min (pos 0) || lt_int (pos 65535) point.raw_max))
      (value_error "raw bounds must fit uint16")
  validate_logical point.logical_type point
  validate_access point

-- len(items) != len(set(items))
abbrev pub has_duplicate {ℓ} : {A : Type ℓ} → (A → A → Bool) → List A → Bool
has_duplicate eq [] = false
has_duplicate eq (x ∷ xs) = any (eq x) xs || has_duplicate eq xs

-- The canonical addresses are equal; the unit is the same.
abbrev pub same_address : PointDefinition → PointDefinition → Bool
same_address p q = table_is q.table_type p.table_type && p.address_offset == q.address_offset

-- all(test(item) for item in items)
abbrev pub all {ℓ} : {A : Type ℓ} → (A → Bool) → List A → Bool
all test [] = true
all test (x ∷ xs) = test x && all test xs

-- set(codes) == {2, 3, 4, 6}
abbrev pub is_approved_set : List ℕ → Bool
is_approved_set codes =
    all (λ c. any (λ d. c == d) codes) (2 ∷ 3 ∷ 4 ∷ 6 ∷ [])
    && all (λ c. any (λ d. c == d) (2 ∷ 3 ∷ 4 ∷ 6 ∷ [])) codes

abbrev pub statement_templates : List String
statement_templates =
    "COMMAND_CHANGED_TO" ∷ "COMMAND_VALUE_READ" ∷ "PROCESS_VALUE_OBSERVED" ∷ "STATE_OBSERVED"
    ∷ "ADDRESS_UNMAPPED" ∷ "FUNCTION_UNSUPPORTED" ∷ "VALUE_MALFORMED" ∷ "POINT_NOT_COMMANDABLE" ∷ []

unfoldable pub validate_references : List PointDefinition → Result ProfileError (Unit {0})
unfolding display_reference
validate_references [] = ok tt
validate_references (point ∷ rest) = do
  guard (any (str_eq point.template_id) statement_templates)
      (value_error "point references an unknown statement template")
  guard (point.display_reference == display_reference point.table_type point.address_offset)
      (value_error "display reference does not match zero-based address")
  validate_references rest

unfoldable pub validate_contract : ModbusProfile → Result ProfileError (Unit {0})
unfolding validate_references
validate_contract profile = do
  let codes = map (λ (f : SupportedFunction). f.function_code) profile.supported_functions
  let points = profile.points
  guard (not (has_duplicate (λ c d. c == d) codes))
      (value_error "duplicate supported function code")
  guard (is_approved_set codes)
      (value_error "supported function set differs from the approved profile")
  guard (not (has_duplicate (λ p q. str_eq p.point_id q.point_id) points))
      (value_error "duplicate point ID")
  guard (not (has_duplicate same_address points)) (value_error "duplicate canonical address")
  guard (length points == 9) (value_error "profile 1.0.0 requires exactly nine points")
  guard (length (select (λ p. access_is p.access_class commandable_synthetic) points) == 2)
      (value_error "profile must contain exactly two commandable synthetic points")
  guard (length (select (λ p. access_is p.access_class read_only) points) == 7)
      (value_error "profile must contain exactly seven read-only points")
  validate_references points

-- The points are validated one by one, before the profile.
unfoldable pub validate_points : List PointDefinition → Result ProfileError (Unit {0})
validate_points [] = ok tt
validate_points (point ∷ rest) = do validate_representation point; validate_points rest

unfoldable pub validate_profile : ModbusProfile → Result ProfileError (Unit {0})
validate_profile profile = do validate_points profile.points; validate_contract profile
