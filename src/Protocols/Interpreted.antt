-- ===== src/Protocols/Interpreted.antt =====
-- The conditions under which the decoder of backend/app/protocols/decoder.py interprets an event.
use ot_soc_fusion_x.Base.{
  ℕ, ◌≤◌, ◌≡◌, inl, inr, refl, Bool, true, false, ◌&&◌, Option, none, some, ◌==◌, any, ok, pos,
  arith, Option-cases,
}
use ot_soc_fusion_x.Platform.{Sha256}
use ot_soc_fusion_x.Protocols.Model.{
  TableType, ReasonCode, compatible, mapped, none_code, write, read_only, category_is, access_is,
  table_is,
}
use ot_soc_fusion_x.Protocols.Events.{
  RawScalar, DecodedValue, SyntheticModbusEvent, ProtocolSemanticEvent,
}
use ot_soc_fusion_x.Protocols.Profile.{
  SupportedFunction, PointDefinition, LoadedProfile, function_of, point_at,
}
use ot_soc_fusion_x.Protocols.Semantics.{mapped_statement}
use ot_soc_fusion_x.Protocols.Claims.{has_prohibited_claim}
use ot_soc_fusion_x.Protocols.Meaning.{IsValueOf, decode_value_iff}
use ot_soc_fusion_x.Protocols.Values.{decode_value}
use ot_soc_fusion_x.Protocols.Decoder.{
  Derivation, built, parse_table, valid_address, build_result, neutral_result, decode_mapped,
  decode_on_table, decode_at, decode_supported, decode_event, digest_mismatch,
}

module _ (event : SyntheticModbusEvent) (loaded : LoadedProfile) (derivation : Derivation) where
  abbrev pub interpreted :
      SupportedFunction → PointDefinition → DecodedValue → ProtocolSemanticEvent
  interpreted function point decoded =
      built event loaded derivation (function.category) (some (function.semantic)) compatible mapped
        none_code (some point) (some decoded) (mapped_statement point event.function_code decoded)

  -- The decoder interprets the event with the function, the table, the offset, the point and the value.
  pub record IsInterpreted (expected_profile_sha256 : Option Sha256) (verified : Bool)
      : Type 0 where
    pub source_verified : verified ≡ true
    pub digest_expected : digest_mismatch event loaded derivation expected_profile_sha256 ≡ false
    pub modbus : event.protocol_id ≡ 0
    pub function : SupportedFunction
    pub supported : function_of loaded event.function_code ≡ some function
    pub table_type : TableType
    pub table : parse_table event.table_type ≡ some table_type
    pub offset : ℕ
    pub address : valid_address event.address_offset ≡ some offset
    pub point : PointDefinition
    pub found : point_at loaded event.unit_id table_type (pos offset) ≡ some point
    pub writable :
        (category_is function.category write && access_is point.access_class read_only) ≡ false
    pub on_table : table_is function.allowed_table table_type ≡ true
    pub usable : any (λ code. code == event.function_code) point.compatible_functions ≡ true
    pub raw : ℕ
    pub raw_value : event.raw_value ≡ RawScalar.int (pos raw)
    pub decoded : DecodedValue
    pub value : IsValueOf raw point decoded
    pub uint16 : raw ≤ 65535
    pub claim_free :
        has_prohibited_claim ((mapped_statement point event.function_code decoded).1) ≡ false

  mapped_of :
      (function : SupportedFunction) (p : PointDefinition) (v : Option DecodedValue × ReasonCode)
      (r : ProtocolSemanticEvent)
      → decode_mapped event loaded derivation function p v ≡ ok r
      → r.operation_compatibility ≡ compatible
      → (d : DecodedValue) × (v ≡ (some d, none_code))
        × (has_prohibited_claim ((mapped_statement p event.function_code d).1) ≡ false)
  unfolding decode_mapped neutral_result build_result
  mapped_of function p (some d, none_code) r h e = (d, refl, ground arith)
  mapped_of function p (some d, _) r h e = absurd (ground arith)
  mapped_of function p (none, _) r h e = absurd (ground arith)

  on_table_of :
      (function : SupportedFunction) (table_type : TableType) (point : Option PointDefinition)
      (r : ProtocolSemanticEvent)
      → decode_on_table event loaded derivation function table_type point ≡ ok r
      → r.operation_compatibility ≡ compatible
      → (p : PointDefinition) × (point ≡ some p)
        × (table_is function.allowed_table table_type ≡ true)
        × (any (λ code. code == event.function_code) p.compatible_functions ≡ true)
        × (decode_mapped event loaded derivation function p (decode_value event.raw_value p) ≡ ok r)
  unfolding decode_on_table neutral_result build_result
  on_table_of function table_type none r h e = absurd (ground arith)
  on_table_of function table_type (some p) r h e =
      (p, refl, ground arith, ground arith, ground arith)

  at_of :
      (function : SupportedFunction) (table_type : TableType) (p : PointDefinition)
      (r : ProtocolSemanticEvent)
      → decode_at event loaded derivation function table_type (some p) ≡ ok r
      → r.operation_compatibility ≡ compatible
      → ((category_is function.category write && access_is p.access_class read_only) ≡ false)
        × (decode_on_table event loaded derivation function table_type (some p) ≡ ok r)
  unfolding decode_at build_result
  at_of function table_type p r h e = (ground arith, ground arith)

  point_of :
      (function : SupportedFunction) (table_type : TableType) (point : Option PointDefinition)
      (r : ProtocolSemanticEvent)
      → decode_at event loaded derivation function table_type point ≡ ok r
      → r.operation_compatibility ≡ compatible
      → (p : PointDefinition) × (point ≡ some p)
  unfolding decode_at decode_on_table neutral_result build_result
  point_of function table_type none r h e = absurd (ground arith)
  point_of function table_type (some p) r h e = (p, refl)

  supported_of :
      (function : SupportedFunction) (r : ProtocolSemanticEvent)
      → decode_supported event loaded derivation function ≡ ok r
      → r.operation_compatibility ≡ compatible
      → (table_type : TableType) × (offset : ℕ) × (parse_table event.table_type ≡ some table_type)
        × (valid_address event.address_offset ≡ some offset)
        × (decode_at event loaded derivation function table_type
              (point_at loaded event.unit_id table_type (pos offset))
            ≡ ok r)
  unfolding decode_supported neutral_result build_result
  supported_of function r h e = elim (Option-cases (parse_table event.table_type)) [
    | inl missing ↦ absurd (ground arith)
    | inr (table_type, t) ↦ elim (Option-cases (valid_address event.address_offset)) [
      | inl missing ↦ absurd (ground arith)
      | inr (offset, o) ↦ (table_type, offset, t, o, ground arith)
    ]
  ]

  event_of :
      (expected : Option Sha256) (verified : Bool) (r : ProtocolSemanticEvent)
      → decode_event event loaded derivation expected verified ≡ ok r
      → r.operation_compatibility ≡ compatible
      → (verified ≡ true)
        × (digest_mismatch event loaded derivation expected ≡ false)
        × (event.protocol_id ≡ 0)
        × (function : SupportedFunction) × (function_of loaded event.function_code ≡ some function)
        × (decode_supported event loaded derivation function ≡ ok r)
  unfolding decode_event neutral_result build_result
  event_of expected verified r h e = elim (Option-cases (function_of loaded event.function_code)) [
    | inl missing ↦ absurd (ground arith)
    | inr (function, f) ↦ (ground arith, ground arith, ground arith, function, f, ground arith)
  ]

  pub IsInterpreted-of :
      (expected : Option Sha256) (verified : Bool) (r : ProtocolSemanticEvent)
      → decode_event event loaded derivation expected verified ≡ ok r
      → r.operation_compatibility ≡ compatible
      → IsInterpreted expected verified
  IsInterpreted-of expected verified r h e =
      let (v, digest, modbus, function, f, h1) = event_of expected verified r h e in
      let (table_type, offset, t, o, h2) = supported_of function r h1 e in
      let (point, found) =
        point_of function table_type (point_at loaded event.unit_id table_type (pos offset)) r h2
          e in
      let (w, h3) = at_of function table_type point r (rw found at h2) e in
      let (p, same, on, usable, h4) = on_table_of function table_type (some point) r h3 e in
      let (decoded, value, free) = mapped_of function p (decode_value event.raw_value p) r h4 e in
      let (raw, is_raw, small, means) = (decode_value_iff event.raw_value p decoded).0 value in
      let at_point : point ≡ p = cc same in
      record {
        source_verified = v;
        digest_expected = digest;
        modbus = modbus;
        function = function;
        supported = f;
        table_type = table_type;
        table = t;
        offset = offset;
        address = o;
        point = p;
        found = rw at_point at found;
        writable = rw at_point at w;
        on_table = on;
        usable = usable;
        raw = raw;
        raw_value = is_raw;
        decoded = decoded;
        value = means;
        uint16 = small;
        claim_free = free;
      }
