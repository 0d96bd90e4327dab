-- ===== src/Tests/Shipped.antt =====
-- backend/app/protocols/profiles/oil_gas_modbus_v1.json: the profile that is loaded, as data.
use ot_soc_fusion_x.Base.{pos, none, some, [], ◌∷◌}
use ot_soc_fusion_x.Protocols.Model
use ot_soc_fusion_x.Protocols.Profile.{PointDefinition, LoadedProfile}

abbrev pub transfer_pump_command_percent : PointDefinition
transfer_pump_command_percent = record {
  point_id = "transfer_pump_command_percent";
  component = "P-101";
  display_label = "transfer-pump command";
  access_class = Model.PointAccessClass.commandable_synthetic;
  table_type = Model.holding_register;
  address_offset = 0;
  display_reference = 40001;
  logical_type = Model.LogicalType.decimal;
  protocol_representation = "uint16";
  byte_order = "big_endian";
  scale = some (record { coefficient = pos 1; places = 1 });
  unit = "%";
  engineering_min = record { coefficient = pos 0; places = 1 };
  engineering_max = record { coefficient = pos 1000; places = 1 };
  raw_min = pos 0;
  raw_max = pos 1000;
  compatible_functions = 3 ∷ 6 ∷ [];
  template_id = "COMMAND_CHANGED_TO";
  decimal_places = 1;
}

abbrev pub control_valve_command_percent : PointDefinition
control_valve_command_percent = record {
  point_id = "control_valve_command_percent";
  component = "CV-101";
  display_label = "valve-position command";
  access_class = Model.PointAccessClass.commandable_synthetic;
  table_type = Model.holding_register;
  address_offset = 1;
  display_reference = 40002;
  logical_type = Model.LogicalType.decimal;
  protocol_representation = "uint16";
  byte_order = "big_endian";
  scale = some (record { coefficient = pos 1; places = 1 });
  unit = "% open";
  engineering_min = record { coefficient = pos 0; places = 1 };
  engineering_max = record { coefficient = pos 1000; places = 1 };
  raw_min = pos 0;
  raw_max = pos 1000;
  compatible_functions = 3 ∷ 6 ∷ [];
  template_id = "COMMAND_CHANGED_TO";
  decimal_places = 1;
}

abbrev pub source_tank_level_percent : PointDefinition
source_tank_level_percent = record {
  point_id = "source_tank_level_percent";
  component = "TK-101";
  display_label = "source-tank level";
  access_class = Model.PointAccessClass.read_only;
  table_type = Model.input_register;
  address_offset = 0;
  display_reference = 30001;
  logical_type = Model.LogicalType.decimal;
  protocol_representation = "uint16";
  byte_order = "big_endian";
  scale = some (record { coefficient = pos 1; places = 1 });
  unit = "%";
  engineering_min = record { coefficient = pos 0; places = 1 };
  engineering_max = record { coefficient = pos 1000; places = 1 };
  raw_min = pos 0;
  raw_max = pos 1000;
  compatible_functions = 4 ∷ [];
  template_id = "PROCESS_VALUE_OBSERVED";
  decimal_places = 1;
}

abbrev pub receiving_tank_level_percent : PointDefinition
receiving_tank_level_percent = record {
  point_id = "receiving_tank_level_percent";
  component = "TK-102";
  display_label = "receiving-tank level";
  access_class = Model.PointAccessClass.read_only;
  table_type = Model.input_register;
  address_offset = 1;
  display_reference = 30002;
  logical_type = Model.LogicalType.decimal;
  protocol_representation = "uint16";
  byte_order = "big_endian";
  scale = some (record { coefficient = pos 1; places = 1 });
  unit = "%";
  engineering_min = record { coefficient = pos 0; places = 1 };
  engineering_max = record { coefficient = pos 1000; places = 1 };
  raw_min = pos 0;
  raw_max = pos 1000;
  compatible_functions = 4 ∷ [];
  template_id = "PROCESS_VALUE_OBSERVED";
  decimal_places = 1;
}

abbrev pub pipeline_flow_rate_m3h : PointDefinition
pipeline_flow_rate_m3h = record {
  point_id = "pipeline_flow_rate_m3h";
  component = "PL-101";
  display_label = "pipeline flow";
  access_class = Model.PointAccessClass.read_only;
  table_type = Model.input_register;
  address_offset = 2;
  display_reference = 30003;
  logical_type = Model.LogicalType.decimal;
  protocol_representation = "uint16";
  byte_order = "big_endian";
  scale = some (record { coefficient = pos 1; places = 2 });
  unit = "synthetic m3/h";
  engineering_min = record { coefficient = pos 0; places = 2 };
  engineering_max = record { coefficient = pos 1200; places = 2 };
  raw_min = pos 0;
  raw_max = pos 1200;
  compatible_functions = 4 ∷ [];
  template_id = "PROCESS_VALUE_OBSERVED";
  decimal_places = 2;
}

abbrev pub pipeline_pressure_bar : PointDefinition
pipeline_pressure_bar = record {
  point_id = "pipeline_pressure_bar";
  component = "PL-101";
  display_label = "pipeline pressure";
  access_class = Model.PointAccessClass.read_only;
  table_type = Model.input_register;
  address_offset = 3;
  display_reference = 30004;
  logical_type = Model.LogicalType.decimal;
  protocol_representation = "uint16";
  byte_order = "big_endian";
  scale = some (record { coefficient = pos 1; places = 3 });
  unit = "synthetic bar";
  engineering_min = record { coefficient = pos 0; places = 3 };
  engineering_max = record { coefficient = pos 4000; places = 3 };
  raw_min = pos 0;
  raw_max = pos 4000;
  compatible_functions = 4 ∷ [];
  template_id = "PROCESS_VALUE_OBSERVED";
  decimal_places = 3;
}

abbrev pub process_temperature_c : PointDefinition
process_temperature_c = record {
  point_id = "process_temperature_c";
  component = "PL-101";
  display_label = "process temperature";
  access_class = Model.PointAccessClass.read_only;
  table_type = Model.input_register;
  address_offset = 4;
  display_reference = 30005;
  logical_type = Model.LogicalType.decimal;
  protocol_representation = "uint16";
  byte_order = "big_endian";
  scale = some (record { coefficient = pos 1; places = 1 });
  unit = "degC";
  engineering_min = record { coefficient = pos 0; places = 1 };
  engineering_max = record { coefficient = pos 800; places = 1 };
  raw_min = pos 0;
  raw_max = pos 800;
  compatible_functions = 4 ∷ [];
  template_id = "PROCESS_VALUE_OBSERVED";
  decimal_places = 1;
}

abbrev pub control_valve_position_percent : PointDefinition
control_valve_position_percent = record {
  point_id = "control_valve_position_percent";
  component = "CV-101";
  display_label = "observed valve position";
  access_class = Model.PointAccessClass.read_only;
  table_type = Model.input_register;
  address_offset = 5;
  display_reference = 30006;
  logical_type = Model.LogicalType.decimal;
  protocol_representation = "uint16";
  byte_order = "big_endian";
  scale = some (record { coefficient = pos 1; places = 1 });
  unit = "% open";
  engineering_min = record { coefficient = pos 0; places = 1 };
  engineering_max = record { coefficient = pos 1000; places = 1 };
  raw_min = pos 0;
  raw_max = pos 1000;
  compatible_functions = 4 ∷ [];
  template_id = "PROCESS_VALUE_OBSERVED";
  decimal_places = 1;
}

abbrev pub transfer_pump_running : PointDefinition
transfer_pump_running = record {
  point_id = "transfer_pump_running";
  component = "P-101";
  display_label = "transfer-pump running state";
  access_class = Model.PointAccessClass.read_only;
  table_type = Model.discrete_input;
  address_offset = 0;
  display_reference = 10001;
  logical_type = Model.LogicalType.boolean;
  protocol_representation = "single_bit";
  byte_order = "not_applicable";
  scale = none;
  unit = "state";
  engineering_min = record { coefficient = pos 0; places = 0 };
  engineering_max = record { coefficient = pos 1; places = 0 };
  raw_min = pos 0;
  raw_max = pos 1;
  compatible_functions = 2 ∷ [];
  template_id = "STATE_OBSERVED";
  decimal_places = 0;
}

abbrev pub shipped : LoadedProfile
shipped = record {
  profile = record {
    unit_id = 1;
    supported_functions =
        (record {
          function_code = 2;
          semantic = Model.read_discrete_inputs;
          category = Model.read;
          allowed_table = Model.discrete_input;
        })
        ∷ (record {
          function_code = 3;
          semantic = Model.read_holding_registers;
          category = Model.read;
          allowed_table = Model.holding_register;
        })
        ∷ (record {
          function_code = 4;
          semantic = Model.read_input_registers;
          category = Model.read;
          allowed_table = Model.input_register;
        })
        ∷ (record {
          function_code = 6;
          semantic = Model.write_single_register;
          category = Model.write;
          allowed_table = Model.holding_register;
        })
        ∷ [];
    points =
        transfer_pump_command_percent ∷ control_valve_command_percent ∷ source_tank_level_percent
        ∷ receiving_tank_level_percent ∷ pipeline_flow_rate_m3h ∷ pipeline_pressure_bar
        ∷ process_temperature_c ∷ control_valve_position_percent ∷ transfer_pump_running ∷ [];
  };
  sha256 = "b3ade7b3ae5dd7e5955c54b5a3345dc6f79b5bfa7bf78a2f1a82df3a5f4016ff";
}
