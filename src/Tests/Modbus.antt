-- ===== src/Tests/Modbus.antt =====
-- The theorems on the decoder at a profile with the valve of the transfer line.
use ot_soc_fusion_x.Base.{
  ◌≡◌, ◌↔◌, ◌≤◌, ℕ, refl, true, none, some, [], ◌∷◌, ok, err, pos, lt_decimal,
}
use ot_soc_fusion_x.Protocols.Model
use ot_soc_fusion_x.Protocols.Events.{
  RawScalar, DecodedValue, SyntheticModbusEvent, ProtocolSemanticEvent,
}
use ot_soc_fusion_x.Protocols.Profile.{PointDefinition, LoadedProfile, function_of, point_at}
use ot_soc_fusion_x.Protocols.Values.{decode_value, decode_uint16, decode_decimal}
use ot_soc_fusion_x.Protocols.Decoder.{
  Derivation, built, decode_event, decode_supported, parse_table, valid_address, decode_at,
  decode_on_table, decode_mapped, build_result,
}
use ot_soc_fusion_x.Protocols.Claims.{has_prohibited_claim}
use ot_soc_fusion_x.Protocols.Semantics.{mapped_statement}
use ot_soc_fusion_x.Protocols.Meaning.{IsValueOf, decode_value_iff}
use ot_soc_fusion_x.Protocols.Interpreted.{IsInterpreted}
use ot_soc_fusion_x.Protocols.Compatible.{compatible_iff}
use ot_soc_fusion_x.Protocols.Provenance.{IsTraced, decode_event-IsTraced}

abbrev valve : PointDefinition
valve = record {
  point_id = "valve_command";
  component = "V-101";
  display_label = "valve command";
  access_class = Model.commandable_synthetic;
  table_type = Model.holding_register;
  address_offset = 1;
  display_reference = 40002;
  logical_type = Model.LogicalType.decimal;
  protocol_representation = "uint16";
  byte_order = "big_endian";
  scale = some (record { coefficient = pos 1; places = 1 });
  unit = "%";
  engineering_min = record { coefficient = pos 0; places = 0 };
  engineering_max = record { coefficient = pos 100; places = 0 };
  raw_min = pos 0;
  raw_max = pos 1000;
  compatible_functions = 3 ∷ 6 ∷ [];
  template_id = "COMMAND_CHANGED_TO";
  decimal_places = 1;
}

abbrev loaded : LoadedProfile
loaded = record {
  profile = record {
    unit_id = 1;
    supported_functions =
        (record {
          function_code = 6;
          semantic = Model.write_single_register;
          category = Model.write;
          allowed_table = Model.holding_register;
        })
        ∷ [];
    points = valve ∷ [];
  };
  sha256 = "b3ad";
}

abbrev pub event : SyntheticModbusEvent
event = record {
  capture_mode = Model.offline_fixture;
  observed_at = 100;
  source_identity = "OTSOC-HMI-01";
  destination_identity = "OTSOC-MB-UNIT-01";
  transaction_id = 7;
  protocol_id = 0;
  unit_id = 1;
  message_role = Model.request;
  function_code = 6;
  table_type = some "holding_register";
  address_offset = some (pos 1);
  raw_value = RawScalar.int (pos 455);
  fixture_id = "fixture-1";
}

abbrev pub derivation : Derivation
derivation = record {
  semantic_event_id = "semantic-1";
  source_evidence_id = "evidence-1";
  source_evidence_integrity_sha256 = "00";
  created_at = 200;
}

decode_value_iff_example :
    (decode_value (RawScalar.int (pos 455)) valve ≡ (
      some (DecodedValue.decimal (record { coefficient = pos 455; places = 1 })),
      Model.none_code,
    ))
    ↔ ((raw : ℕ) × (RawScalar.int (pos 455) ≡ RawScalar.int (pos raw))
        × (raw ≤ 65535)
        × IsValueOf raw valve (DecodedValue.decimal (record { coefficient = pos 455; places = 1 })))
decode_value_iff_example =
    decode_value_iff (RawScalar.int (pos 455)) valve
      (DecodedValue.decimal (record { coefficient = pos 455; places = 1 }))

compatible_iff_example :
    ((r : ProtocolSemanticEvent) × (decode_event event loaded derivation (some "b3ad") true ≡ ok r)
      × (r.operation_compatibility ≡ Model.compatible))
    ↔ IsInterpreted event loaded derivation (some "b3ad") true
compatible_iff_example = compatible_iff event loaded derivation (some "b3ad") true

-- What the decoder returns, if it returns.
abbrev returned : ProtocolSemanticEvent
returned = elim (decode_event event loaded derivation none true) [
  | ok r ↦ r
  | err e ↦
      built event loaded derivation Model.write none Model.compatible Model.mapped Model.none_code
        none none ("", "")
]

statement_of : returned.semantic_statement ≡ "V-101 valve command changed to 45.5%."
unfolding decode_event function_of decode_supported parse_table valid_address decode_at point_at
    decode_on_table decode_mapped decode_value decode_uint16 decode_decimal lt_decimal build_result
    has_prohibited_claim mapped_statement
statement_of = refl

decode_event_returns : decode_event event loaded derivation none true ≡ ok returned
unfolding decode_event function_of decode_supported parse_table valid_address decode_at point_at
    decode_on_table decode_mapped decode_value decode_uint16 decode_decimal lt_decimal build_result
    has_prohibited_claim mapped_statement
decode_event_returns = refl

decode_event-IsTraced_example : IsTraced event loaded derivation returned
decode_event-IsTraced_example =
    decode_event-IsTraced event loaded derivation none true returned decode_event_returns
