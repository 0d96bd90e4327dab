-- ===== src/Protocols/Events.antt =====
-- backend/app/protocols/models.py: the raw event and the semantic event that interprets it. Fields
-- whose type is a `Literal` of one value are left out.
use ot_soc_fusion_x.Base.{ℕ, String, Bool, Option, Decimal, ℤ}
use ot_soc_fusion_x.Platform.{Uuid, Sha256, Datetime}
use ot_soc_fusion_x.Protocols.Model.{
  CaptureMode, MessageRole, OperationCategory, FunctionSemantic, PointAccessClass, LogicalType,
  OperationCompatibility, InterpretationStatus, ReasonCode,
}

-- StrictInt | StrictStr | StrictBool | None
pub data RawScalar : Type 0 where
  int : ℤ → RawScalar
  str : String → RawScalar
  bool : Bool → RawScalar
  null : RawScalar

-- Decimal | bool
pub data DecodedValue : Type 0 where
  decimal : Decimal → DecodedValue
  flag : Bool → DecodedValue

pub record SyntheticModbusEvent : Type 0 where
  pub capture_mode : CaptureMode
  pub observed_at : Datetime
  pub source_identity : String
  pub destination_identity : String
  pub transaction_id : ℕ
  pub protocol_id : ℕ
  pub unit_id : ℕ
  pub message_role : MessageRole
  pub function_code : ℕ
  pub table_type : Option String
  pub address_offset : Option ℤ
  pub raw_value : RawScalar
  pub fixture_id : String

pub record CanonicalAddress : Type 0 where
  pub unit_id : ℕ
  pub table_type : Option String
  pub address_offset : Option ℤ
  pub display_reference : Option ℕ

pub record ProtocolSemanticEvent : Type 0 where
  pub semantic_event_id : Uuid
  pub profile_sha256 : Sha256
  pub decoder_version : String
  pub observed_at : Datetime
  pub source_evidence_id : Uuid
  pub source_evidence_integrity_sha256 : Sha256
  pub source_identity : String
  pub destination_identity : String
  pub transaction_id : ℕ
  pub unit_id : ℕ
  pub operation_category : OperationCategory
  pub function_code : ℕ
  pub function_semantic : Option FunctionSemantic
  pub message_role : MessageRole
  pub canonical_address : CanonicalAddress
  pub operation_compatibility : OperationCompatibility
  pub point_id : Option String
  pub point_access_class : Option PointAccessClass
  pub logical_type : Option LogicalType
  pub raw_value : RawScalar
  pub decoded_value : Option DecodedValue
  pub unit : Option String
  pub fictional_target_component : Option String
  pub statement_template_id : String
  pub semantic_statement : String
  pub interpretation_status : InterpretationStatus
  pub reason_code : ReasonCode
  pub derived_from : Uuid
  pub created_at : Datetime
