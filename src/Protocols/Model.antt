-- ===== src/Protocols/Model.antt =====
-- backend/app/protocols/models.py: the enumerations of the protocol events.
use ot_soc_fusion_x.Base.{Bool, true, false}

pub data CaptureMode : Type 0 where
  offline_fixture in_memory_test : CaptureMode

pub data MessageRole : Type 0 where
  request response operation : MessageRole

pub data TableType : Type 0 where
  discrete_input input_register holding_register : TableType

pub data OperationCategory : Type 0 where
  read write unsupported : OperationCategory

pub data FunctionSemantic : Type 0 where
  read_discrete_inputs read_holding_registers : FunctionSemantic
  read_input_registers write_single_register : FunctionSemantic

pub data PointAccessClass : Type 0 where
  read_only commandable_synthetic : PointAccessClass

pub data LogicalType : Type 0 where
  decimal boolean : LogicalType

pub data OperationCompatibility : Type 0 where
  compatible incompatible not_applicable : OperationCompatibility

pub data InterpretationStatus : Type 0 where
  mapped unmapped unsupported malformed : InterpretationStatus

pub data ReasonCode : Type 0 where
  none_code address_not_in_profile address_invalid function_not_supported : ReasonCode
  function_table_mismatch point_not_commandable raw_value_required : ReasonCode
  raw_value_type_invalid raw_value_out_of_uint16_range : ReasonCode
  engineering_value_out_of_range protocol_id_invalid : ReasonCode
  source_evidence_not_verified profile_digest_mismatch : ReasonCode

-- `==` and `is` on the members.
abbrev pub table_is : TableType → TableType → Bool
table_is discrete_input discrete_input = true
table_is input_register input_register = true
table_is holding_register holding_register = true
table_is _ _ = false

abbrev pub category_is : OperationCategory → OperationCategory → Bool
category_is read read = true
category_is write write = true
category_is OperationCategory.unsupported OperationCategory.unsupported = true
category_is _ _ = false

abbrev pub semantic_is : FunctionSemantic → FunctionSemantic → Bool
semantic_is read_discrete_inputs read_discrete_inputs = true
semantic_is read_holding_registers read_holding_registers = true
semantic_is read_input_registers read_input_registers = true
semantic_is write_single_register write_single_register = true
semantic_is _ _ = false

abbrev pub access_is : PointAccessClass → PointAccessClass → Bool
access_is read_only read_only = true
access_is commandable_synthetic commandable_synthetic = true
access_is _ _ = false

abbrev pub compatibility_is : OperationCompatibility → OperationCompatibility → Bool
compatibility_is compatible compatible = true
compatibility_is incompatible incompatible = true
compatibility_is not_applicable not_applicable = true
compatibility_is _ _ = false
