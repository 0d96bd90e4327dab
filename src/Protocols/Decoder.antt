-- ===== src/Protocols/Decoder.antt =====
-- backend/app/protocols/decoder.py: one raw event of the offline fixtures becomes one semantic event.
use mathlib.Core.Option
use ot_soc_fusion_x.Base.{
  ℕ, String, Bool, false, not, ◌&&◌, Option, none, some, ltb, ◌==◌, any, is_some, str_eq, Result,
  ok, err, ℤ, pos, negsuc, if◌then◌else◌,
}
use ot_soc_fusion_x.Platform.{Uuid, Sha256, Datetime}
use ot_soc_fusion_x.Protocols.Model.{
  TableType, discrete_input, input_register, holding_register, OperationCategory, FunctionSemantic,
  OperationCompatibility, compatible, incompatible, not_applicable, InterpretationStatus, mapped,
  unmapped, malformed, ReasonCode, none_code, address_not_in_profile, address_invalid,
  function_not_supported, function_table_mismatch, point_not_commandable, protocol_id_invalid,
  source_evidence_not_verified, profile_digest_mismatch, write, read_only, category_is, access_is,
  table_is,
}
use ot_soc_fusion_x.Protocols.Events.{DecodedValue, SyntheticModbusEvent, ProtocolSemanticEvent}
use ot_soc_fusion_x.Protocols.Profile.{
  SupportedFunction, PointDefinition, LoadedProfile, function_of, point_at,
}
use ot_soc_fusion_x.Protocols.Semantics.{
  malformed_statement, mapped_statement, not_commandable_statement, unmapped_statement,
  unsupported_statement,
}
use ot_soc_fusion_x.Protocols.Values.{decode_value}
use ot_soc_fusion_x.Protocols.Claims.{has_prohibited_claim}

-- The keyword arguments that name the derivation.
pub record Derivation : Type 0 where
  pub semantic_event_id : Uuid
  pub source_evidence_id : Uuid
  pub source_evidence_integrity_sha256 : Sha256
  pub created_at : Datetime

-- Why the construction of a semantic event fails.
pub data StatementError : Type 0 where
  prohibited_claim : StatementError

-- TableType(table_type) if it is one of the members, else None
unfoldable pub parse_table : Option String → Option TableType
parse_table none = none
parse_table (some s) =
    if str_eq s "discrete_input"
    then some discrete_input
    else if str_eq s "input_register"
    then some input_register
    else if str_eq s "holding_register"
    then some holding_register
    else none

-- address_offset is not None, and 0 <= address_offset <= 65535
unfoldable pub valid_address : Option ℤ → Option ℕ
valid_address none = none
valid_address (some (negsuc n)) = none
valid_address (some (pos n)) = if ltb 65535 n then none else some n

module _ (event : SyntheticModbusEvent) (loaded : LoadedProfile) (derivation : Derivation) where
  -- The event that `_build_result` constructs, before the validator of its statement.
  abbrev pub built :
      OperationCategory
      → Option FunctionSemantic
      → OperationCompatibility
      → InterpretationStatus
      → ReasonCode
      → Option PointDefinition
      → Option DecodedValue
      → String × String
      → ProtocolSemanticEvent
  built category semantic compatibility status reason point decoded statement = record {
    semantic_event_id = derivation.semantic_event_id;
    profile_sha256 = loaded.sha256;
    decoder_version = "1.0.0";
    observed_at = event.observed_at;
    source_evidence_id = derivation.source_evidence_id;
    source_evidence_integrity_sha256 = derivation.source_evidence_integrity_sha256;
    source_identity = event.source_identity;
    destination_identity = event.destination_identity;
    transaction_id = event.transaction_id;
    unit_id = event.unit_id;
    operation_category = category;
    function_code = event.function_code;
    function_semantic = semantic;
    message_role = event.message_role;
    canonical_address = record {
      unit_id = event.unit_id;
      table_type = event.table_type;
      address_offset = event.address_offset;
      display_reference = Option.map (λ p. p.display_reference) point;
    };
    operation_compatibility = compatibility;
    point_id = Option.map (λ p. p.point_id) point;
    point_access_class = Option.map (λ p. p.access_class) point;
    logical_type = Option.map (λ p. p.logical_type) point;
    raw_value = event.raw_value;
    decoded_value = decoded;
    unit = if is_some decoded then Option.map (λ p. p.unit) point else none;
    fictional_target_component = Option.map (λ p. p.component) point;
    statement_template_id = statement.0;
    semantic_statement = statement.1;
    interpretation_status = status;
    reason_code = reason;
    derived_from = derivation.source_evidence_id;
    created_at = derivation.created_at;
  }

  unfoldable pub build_result :
      OperationCategory
      → Option FunctionSemantic
      → OperationCompatibility
      → InterpretationStatus
      → ReasonCode
      → Option PointDefinition
      → Option DecodedValue
      → String × String
      → Result StatementError ProtocolSemanticEvent
  build_result category semantic compatibility status reason point decoded statement =
      if has_prohibited_claim (statement.1)
      then err prohibited_claim
      else ok (built category semantic compatibility status reason point decoded statement)

  abbrev pub neutral_statement : InterpretationStatus → ReasonCode → String × String
  neutral_statement unmapped reason = unmapped_statement event.table_type event.address_offset
  neutral_statement InterpretationStatus.unsupported reason =
      unsupported_statement event.function_code
  neutral_statement mapped reason = malformed_statement reason
  neutral_statement malformed reason = malformed_statement reason

  unfoldable pub neutral_result :
      OperationCategory
      → Option FunctionSemantic
      → InterpretationStatus
      → ReasonCode
      → Result StatementError ProtocolSemanticEvent
  neutral_result category semantic status reason =
      build_result category semantic not_applicable status reason none none
        (neutral_statement status reason)

  -- `decode_event` from the call of `_decode_value` on.
  unfoldable pub decode_mapped :
      SupportedFunction
      → PointDefinition
      → Option DecodedValue × ReasonCode
      → Result StatementError ProtocolSemanticEvent
  decode_mapped function point (some decoded, none_code) =
      build_result function.category (some function.semantic) compatible mapped none_code
        (some point) (some decoded) (mapped_statement point event.function_code decoded)
  decode_mapped function point (_, reason) =
      neutral_result function.category (some function.semantic) malformed reason

  -- `decode_event` from the check of the function's table on.
  unfoldable pub decode_on_table :
      SupportedFunction
      → TableType
      → Option PointDefinition
      → Result StatementError ProtocolSemanticEvent
  decode_on_table function table_type point =
      if not (table_is function.allowed_table table_type)
      then neutral_result function.category (some function.semantic)
          InterpretationStatus.unsupported function_table_mismatch
      else elim point [
        | none ↦
            neutral_result function.category (some function.semantic) unmapped
              address_not_in_profile
        | some point ↦
            if not (any (λ code. code == event.function_code) point.compatible_functions)
            then neutral_result function.category (some function.semantic)
                InterpretationStatus.unsupported function_table_mismatch
            else decode_mapped function point (decode_value event.raw_value point)
      ]

  -- `decode_event` from the lookup of the point on.
  unfoldable pub decode_at :
      SupportedFunction
      → TableType
      → Option PointDefinition
      → Result StatementError ProtocolSemanticEvent
  decode_at function table_type none = decode_on_table function table_type none
  decode_at function table_type (some point) =
      if category_is function.category write && access_is point.access_class read_only
      then build_result function.category (some function.semantic) incompatible mapped
          point_not_commandable (some point) none (not_commandable_statement point)
      else decode_on_table function table_type (some point)

  -- `decode_event` for a supported function.
  unfoldable pub decode_supported : SupportedFunction → Result StatementError ProtocolSemanticEvent
  decode_supported function = elim (parse_table event.table_type) [
    | none ↦
        neutral_result function.category (some function.semantic) InterpretationStatus.unsupported
          function_table_mismatch
    | some table_type ↦ elim (valid_address event.address_offset) [
      | none ↦ neutral_result function.category (some function.semantic) malformed address_invalid
      | some offset ↦
          decode_at function table_type (point_at loaded event.unit_id table_type (pos offset))
    ]
  ]

  -- expected_profile_sha256 is not None and expected_profile_sha256 != loaded_profile.sha256
  abbrev pub digest_mismatch : Option Sha256 → Bool
  digest_mismatch none = false
  digest_mismatch (some expected) = not (str_eq expected loaded.sha256)

  abbrev pub category_of : Option SupportedFunction → OperationCategory
  category_of none = OperationCategory.unsupported
  category_of (some function) = function.category

  unfoldable pub decode_event : Option Sha256 → Bool → Result StatementError ProtocolSemanticEvent
  decode_event expected_profile_sha256 source_evidence_verified =
      let function = function_of loaded event.function_code in
      let category = category_of function in
      let semantic = Option.map (λ f. f.semantic) function in
      if not source_evidence_verified
      then neutral_result category semantic malformed source_evidence_not_verified
      else if digest_mismatch expected_profile_sha256
      then neutral_result category semantic malformed profile_digest_mismatch
      else if not (event.protocol_id == 0)
      then neutral_result category semantic malformed protocol_id_invalid
      else elim function [
        | none ↦
            neutral_result OperationCategory.unsupported none InterpretationStatus.unsupported
              function_not_supported
        | some function ↦ decode_supported function
      ]
