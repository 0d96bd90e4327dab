-- ===== src/Protocols/Compatible.antt =====
-- When the decoder of backend/app/protocols/decoder.py interprets an event, and with which value.
use ot_soc_fusion_x.Base.{
  ℕ, ◌≡◌, ◌↔◌, refl, ◌∙◌, Bool, true, false, ◌&&◌, Option, some, ◌==◌, any, ok, pos, arith,
}
use ot_soc_fusion_x.Platform.{Sha256}
use ot_soc_fusion_x.Protocols.Model.{
  TableType, compatible, none_code, write, read_only, category_is, access_is, table_is,
}
use ot_soc_fusion_x.Protocols.Events.{DecodedValue, SyntheticModbusEvent, ProtocolSemanticEvent}
use ot_soc_fusion_x.Protocols.Profile.{
  SupportedFunction, PointDefinition, LoadedProfile, function_of, point_at,
}
use ot_soc_fusion_x.Protocols.Semantics.{mapped_statement}
use ot_soc_fusion_x.Protocols.Claims.{has_prohibited_claim}
use ot_soc_fusion_x.Protocols.Meaning.{decode_value_iff}
use ot_soc_fusion_x.Protocols.Values.{decode_value}
use ot_soc_fusion_x.Protocols.Decoder.{
  Derivation, parse_table, valid_address, build_result, decode_mapped, decode_on_table, decode_at,
  decode_supported, decode_event, digest_mismatch,
}
use ot_soc_fusion_x.Protocols.Interpreted.{IsInterpreted, interpreted, IsInterpreted-of}

module _ (event : SyntheticModbusEvent) (loaded : LoadedProfile) (derivation : Derivation) where
  on_table_decoded :
      (function : SupportedFunction) (table_type : TableType) (p : PointDefinition)
      (d : DecodedValue)
      → table_is function.allowed_table table_type ≡ true
      → any (λ code. code == event.function_code) p.compatible_functions ≡ true
      → decode_value event.raw_value p ≡ (some d, none_code)
      → has_prohibited_claim ((mapped_statement p event.function_code d).1) ≡ false
      → decode_on_table event loaded derivation function table_type (some p)
        ≡ ok (interpreted event loaded derivation function p d)
  unfolding decode_on_table decode_mapped build_result
  on_table_decoded function table_type p d t c v f = rw t (rw c (rw v (rw f refl)))

  supported_decoded :
      (function : SupportedFunction) (table_type : TableType) (offset : ℕ) (p : PointDefinition)
      → parse_table event.table_type ≡ some table_type
      → valid_address event.address_offset ≡ some offset
      → point_at loaded event.unit_id table_type (pos offset) ≡ some p
      → (category_is function.category write && access_is p.access_class read_only) ≡ false
      → decode_supported event loaded derivation function
        ≡ decode_on_table event loaded derivation function table_type (some p)
  unfolding decode_supported decode_at
  supported_decoded function table_type offset p t o f w =
      rw (decode_supported, t, o, f, decode_at, w) refl

  event_decoded :
      (expected : Option Sha256) (verified : Bool) (function : SupportedFunction)
      → verified ≡ true
      → digest_mismatch event loaded derivation expected ≡ false
      → event.protocol_id ≡ 0
      → function_of loaded event.function_code ≡ some function
      → decode_event event loaded derivation expected verified
        ≡ decode_supported event loaded derivation function
  unfolding decode_event
  event_decoded expected verified function v d p f = ground arith

  pub compatible_of :
      (expected : Option Sha256) (verified : Bool)
      (i : IsInterpreted event loaded derivation expected verified)
      → decode_event event loaded derivation expected verified
        ≡ ok (interpreted event loaded derivation i.function i.point i.decoded)
  compatible_of expected verified i =
      let value =
        (decode_value_iff event.raw_value i.point i.decoded).1
          (i.raw, i.raw_value, i.uint16, i.value) in
      event_decoded expected verified i.function i.source_verified i.digest_expected i.modbus
        i.supported
      ∙ supported_decoded i.function i.table_type i.offset i.point i.table i.address i.found
          i.writable
      ∙ on_table_decoded i.function i.table_type i.point i.decoded i.on_table i.usable value
          i.claim_free

  -- The decoder returns a compatible event exactly if the source evidence is verified, the profile has
  -- the expected digest, the event is Modbus with a supported function, a known table and an address of
  -- 16 bits at which the profile has a point, the function may use the table and the point, a write is
  -- not to a read-only point, the raw value has a meaning at the point, and the statement is free of
  -- prohibited claims.
  pub compatible_iff :
      (expected : Option Sha256) (verified : Bool)
      → ((r : ProtocolSemanticEvent) × (decode_event event loaded derivation expected verified
            ≡ ok r)
          × (r.operation_compatibility ≡ compatible))
        ↔ IsInterpreted event loaded derivation expected verified
  compatible_iff expected verified = (
    λ (r, h, e). IsInterpreted-of event loaded derivation expected verified r h e,
    λ i. (
      interpreted event loaded derivation i.function i.point i.decoded,
      compatible_of expected verified i,
      refl,
    ),
  )
