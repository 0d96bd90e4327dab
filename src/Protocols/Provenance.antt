-- ===== src/Protocols/Provenance.antt =====
-- What every semantic event of backend/app/protocols/decoder.py keeps of its raw event, and that only a
-- compatible one carries a value.
use ot_soc_fusion_x.Base.{
  ◌≡◌, ◌≢◌, refl, subst, Bool, ◌&&◌, Option, none, some, inl, inr, ◌==◌, any, Bool-cases,
  Option-cases, ok, String, arith,
}
use ot_soc_fusion_x.Platform.{Sha256}
use ot_soc_fusion_x.Protocols.Model.{
  TableType, OperationCategory, FunctionSemantic, OperationCompatibility, compatible,
  not_applicable, InterpretationStatus, ReasonCode, none_code, write, read_only, category_is,
  access_is, table_is,
}
use ot_soc_fusion_x.Protocols.Events.{DecodedValue, SyntheticModbusEvent, ProtocolSemanticEvent}
use ot_soc_fusion_x.Protocols.Profile.{
  SupportedFunction, PointDefinition, LoadedProfile, function_of,
}
use ot_soc_fusion_x.Protocols.Values.{decode_value}
use ot_soc_fusion_x.Protocols.Decoder.{
  Derivation, built, parse_table, valid_address, build_result, neutral_result, decode_mapped,
  decode_on_table, decode_at, decode_supported, decode_event, digest_mismatch,
}

module _ (event : SyntheticModbusEvent) (loaded : LoadedProfile) (derivation : Derivation) where
  -- The semantic event repeats what identifies the raw event, its evidence and the profile, and it has a
  -- value and a unit only if it is compatible.
  pub record IsTraced (r : ProtocolSemanticEvent) : Type 0 where
    pub evidence : r.source_evidence_id ≡ derivation.source_evidence_id
    pub derived : r.derived_from ≡ derivation.source_evidence_id
    pub integrity : r.source_evidence_integrity_sha256 ≡ derivation.source_evidence_integrity_sha256
    pub profile : r.profile_sha256 ≡ loaded.sha256
    pub observed : r.observed_at ≡ event.observed_at
    pub source : r.source_identity ≡ event.source_identity
    pub destination : r.destination_identity ≡ event.destination_identity
    pub transaction : r.transaction_id ≡ event.transaction_id
    pub unit_number : r.unit_id ≡ event.unit_id
    pub code : r.function_code ≡ event.function_code
    pub table : r.canonical_address.table_type ≡ event.table_type
    pub address : r.canonical_address.address_offset ≡ event.address_offset
    pub raw : r.raw_value ≡ event.raw_value
    pub no_value : r.operation_compatibility ≢ compatible → r.decoded_value ≡ none
    pub no_unit : r.operation_compatibility ≢ compatible → r.unit ≡ none

  build_result-IsTraced :
      (category : OperationCategory) (semantic : Option FunctionSemantic)
      (compatibility : OperationCompatibility) (status : InterpretationStatus) (reason : ReasonCode)
      (point : Option PointDefinition) (decoded : Option DecodedValue) (statement : String × String)
      (r : ProtocolSemanticEvent)
      → (compatibility ≢ compatible → decoded ≡ none)
      → build_result event loaded derivation category semantic compatibility status reason point
          decoded statement
        ≡ ok r
      → IsTraced r
  unfolding build_result
  build_result-IsTraced category semantic compatibility status reason point decoded statement r bare
        h =
      let same : built event loaded derivation category semantic compatibility status reason point
            decoded statement
          ≡ r =
        ground arith in
      subst IsTraced same (record {
        evidence = refl;
        derived = refl;
        integrity = refl;
        profile = refl;
        observed = refl;
        source = refl;
        destination = refl;
        transaction = refl;
        unit_number = refl;
        code = refl;
        table = refl;
        address = refl;
        raw = refl;
        no_value = bare;
        no_unit = λ n. rw (bare n) refl;
      })

  neutral_result-IsTraced :
      (category : OperationCategory) (semantic : Option FunctionSemantic)
      (status : InterpretationStatus) (reason : ReasonCode) (r : ProtocolSemanticEvent)
      → neutral_result event loaded derivation category semantic status reason ≡ ok r
      → IsTraced r
  unfolding neutral_result
  neutral_result-IsTraced category semantic status reason r h =
      build_result-IsTraced category semantic not_applicable status reason none none _ r (λ _. refl)
        h

  decode_mapped-IsTraced :
      (function : SupportedFunction) (p : PointDefinition) (v : Option DecodedValue × ReasonCode)
      (r : ProtocolSemanticEvent)
      → decode_mapped event loaded derivation function p v ≡ ok r
      → IsTraced r
  unfolding decode_mapped
  decode_mapped-IsTraced function p (some d, none_code) r h =
      build_result-IsTraced _ _ _ _ _ _ _ _ r (λ n. absurd (n refl)) h
  decode_mapped-IsTraced function p (some d, _) r h = neutral_result-IsTraced _ _ _ _ r h
  decode_mapped-IsTraced function p (none, _) r h = neutral_result-IsTraced _ _ _ _ r h

  decode_on_table-IsTraced :
      (function : SupportedFunction) (table_type : TableType) (point : Option PointDefinition)
      (r : ProtocolSemanticEvent)
      → decode_on_table event loaded derivation function table_type point ≡ ok r
      → IsTraced r
  unfolding decode_on_table
  decode_on_table-IsTraced function table_type point r h =
      elim (Bool-cases (table_is function.allowed_table table_type)) [
        | inr f ↦ neutral_result-IsTraced _ _ _ _ r (rw (decode_on_table, f) at h)
        | inl t ↦ elim (Option-cases point) [
          | inl missing ↦ neutral_result-IsTraced _ _ _ _ r (rw (decode_on_table, t, missing) at h)
          | inr (p, found) ↦
              elim (Bool-cases (any (λ code. code == event.function_code) p.compatible_functions)) [
                | inr f ↦ neutral_result-IsTraced _ _ _ _ r (rw (decode_on_table, t, found, f) at h)
                | inl c ↦
                    decode_mapped-IsTraced function p (decode_value event.raw_value p) r
                      (rw (decode_on_table, t, found, c) at h)
              ]
        ]
      ]

  decode_at-IsTraced :
      (function : SupportedFunction) (table_type : TableType) (point : Option PointDefinition)
      (r : ProtocolSemanticEvent)
      → decode_at event loaded derivation function table_type point ≡ ok r
      → IsTraced r
  unfolding decode_at
  decode_at-IsTraced function table_type none r h =
      decode_on_table-IsTraced function table_type none r h
  decode_at-IsTraced function table_type (some p) r h =
      elim (Bool-cases
        (category_is function.category write && access_is p.access_class read_only)) [
          | inl t ↦ build_result-IsTraced _ _ _ _ _ _ _ _ r (λ _. refl) (rw (decode_at, t) at h)
          | inr f ↦ decode_on_table-IsTraced function table_type (some p) r (rw (decode_at, f) at h)
        ]

  decode_supported-IsTraced :
      (function : SupportedFunction) (r : ProtocolSemanticEvent)
      → decode_supported event loaded derivation function ≡ ok r
      → IsTraced r
  unfolding decode_supported
  decode_supported-IsTraced function r h = elim (Option-cases (parse_table event.table_type)) [
    | inl missing ↦ neutral_result-IsTraced _ _ _ _ r (rw (decode_supported, missing) at h)
    | inr (table_type, t) ↦ elim (Option-cases (valid_address event.address_offset)) [
      | inl missing ↦ neutral_result-IsTraced _ _ _ _ r (rw (decode_supported, t, missing) at h)
      | inr (offset, o) ↦
          decode_at-IsTraced function table_type _ r (rw (decode_supported, t, o) at h)
    ]
  ]

  -- Every event that the decoder returns, on each of its branches, repeats the raw event's
  -- identities, unit, function, address, raw value and time, the evidence with its digest and the
  -- profile's digest; and a value and a unit stand in it only if it is compatible.
  pub decode_event-IsTraced :
      (expected : Option Sha256) (verified : Bool) (r : ProtocolSemanticEvent)
      → decode_event event loaded derivation expected verified ≡ ok r
      → IsTraced r
  unfolding decode_event
  decode_event-IsTraced expected verified r h = elim (Bool-cases verified) [
    | inr f ↦ neutral_result-IsTraced _ _ _ _ r (rw (decode_event, f) at h)
    | inl v ↦ elim (Bool-cases (digest_mismatch event loaded derivation expected)) [
      | inl d ↦ neutral_result-IsTraced _ _ _ _ r (rw (decode_event, v, d) at h)
      | inr d ↦ elim (Bool-cases (event.protocol_id == 0)) [
        | inr f ↦ neutral_result-IsTraced _ _ _ _ r (rw (decode_event, v, d, f) at h)
        | inl p ↦ elim (Option-cases (function_of loaded event.function_code)) [
          | inl missing ↦
              neutral_result-IsTraced _ _ _ _ r (rw (decode_event, v, d, p, missing) at h)
          | inr (function, f) ↦
              decode_supported-IsTraced function r (rw (decode_event, v, d, p, f) at h)
        ]
      ]
    ]
  ]
