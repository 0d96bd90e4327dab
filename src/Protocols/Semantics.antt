-- ===== src/Protocols/Semantics.antt =====
-- backend/app/protocols/semantics.py: the statement of a semantic event, with its template.
use ot_soc_fusion_x.Base.{
  ℕ, ◌+◌, String, Option, none, some, [], ◌∷◌, ◌==◌, concat, str_int, if◌then◌else◌, format_decimal,
  ℤ, pos, negsuc,
}
use ot_soc_fusion_x.Protocols.Model.{
  ReasonCode, none_code, address_not_in_profile, address_invalid, function_not_supported,
  function_table_mismatch, point_not_commandable, raw_value_required, raw_value_type_invalid,
  raw_value_out_of_uint16_range, engineering_value_out_of_range, protocol_id_invalid,
  source_evidence_not_verified, profile_digest_mismatch, access_is, commandable_synthetic,
}
use ot_soc_fusion_x.Protocols.Events.{DecodedValue, flag}
use ot_soc_fusion_x.Protocols.Profile.{PointDefinition}

unfoldable pub reason_value : ReasonCode → String
reason_value none_code = "NONE"
reason_value address_not_in_profile = "ADDRESS_NOT_IN_PROFILE"
reason_value address_invalid = "ADDRESS_INVALID"
reason_value function_not_supported = "FUNCTION_NOT_SUPPORTED"
reason_value function_table_mismatch = "FUNCTION_TABLE_MISMATCH"
reason_value point_not_commandable = "POINT_NOT_COMMANDABLE"
reason_value raw_value_required = "RAW_VALUE_REQUIRED"
reason_value raw_value_type_invalid = "RAW_VALUE_TYPE_INVALID"
reason_value raw_value_out_of_uint16_range = "RAW_VALUE_OUT_OF_UINT16_RANGE"
reason_value engineering_value_out_of_range = "ENGINEERING_VALUE_OUT_OF_RANGE"
reason_value protocol_id_invalid = "PROTOCOL_ID_INVALID"
reason_value source_evidence_not_verified = "SOURCE_EVIDENCE_NOT_VERIFIED"
reason_value profile_digest_mismatch = "PROFILE_DIGEST_MISMATCH"

-- The decimal branches of `mapped_statement`.
abbrev decimal_statement : PointDefinition → ℕ → String → String × String
decimal_statement point function_code rendered =
    if function_code == 6
    then (
      "COMMAND_CHANGED_TO",
      concat (
          point.component ∷ " " ∷ point.display_label ∷ " changed to " ∷ rendered ∷ point.unit ∷ "."
          ∷ []),
    )
    else if access_is point.access_class commandable_synthetic
    then (
      "COMMAND_VALUE_READ",
      concat (
          point.component ∷ " " ∷ point.display_label ∷ " was read as " ∷ rendered ∷ point.unit
          ∷ "." ∷ []),
    )
    else (
      "PROCESS_VALUE_OBSERVED",
      concat (
          point.component ∷ " " ∷ point.display_label ∷ " was observed at " ∷ rendered ∷ " "
          ∷ point.unit ∷ "." ∷ []),
    )

unfoldable pub mapped_statement : PointDefinition → ℕ → DecodedValue → String × String
unfolding format_decimal
mapped_statement point function_code (flag value) = (
  "STATE_OBSERVED",
  concat (
      point.component
      ∷ " "
      ∷ point.display_label
      ∷ " was observed as "
      ∷ (if value then "running" else "stopped")
      ∷ "."
      ∷ []),
)
mapped_statement point function_code (DecodedValue.decimal value) =
    decimal_statement point function_code (format_decimal value point.decimal_places)

-- How an f-string shows an optional value.
abbrev shown : Option String → String
shown none = "None"
shown (some s) = s

abbrev shown_int : Option ℤ → String
shown_int none = "None"
shown_int (some (pos n)) = str_int n
shown_int (some (negsuc n)) = concat ("-" ∷ str_int (n + 1) ∷ [])

unfoldable pub unmapped_statement : Option String → Option ℤ → String × String
unfolding str_int
unmapped_statement table_type address_offset = (
  "ADDRESS_UNMAPPED",
  concat (
      "No mapping exists for synthetic address "
      ∷ shown table_type
      ∷ ":"
      ∷ shown_int address_offset
      ∷ " in profile 1.0.0."
      ∷ []),
)

unfoldable pub unsupported_statement : ℕ → String × String
unfolding str_int
unsupported_statement function_code = (
  "FUNCTION_UNSUPPORTED",
  concat ("Function code " ∷ str_int function_code ∷ " is unsupported by profile 1.0.0." ∷ []),
)

unfoldable pub malformed_statement : ReasonCode → String × String
unfolding reason_value
malformed_statement reason = (
  "VALUE_MALFORMED",
  concat ("The synthetic event value could not be interpreted: " ∷ reason_value reason ∷ "." ∷ []),
)

unfoldable pub not_commandable_statement : PointDefinition → String × String
not_commandable_statement point = (
  "POINT_NOT_COMMANDABLE",
  concat (
      point.component ∷ " " ∷ point.display_label
      ∷ " is read-only; the synthetic write was not interpreted as a command." ∷ []),
)
