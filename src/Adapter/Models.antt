-- ===== src/Adapter/Models.antt =====
-- The messages of src/ucf/adapter_protocol/models.py that the dispatcher reads and writes, and the codes
-- of src/ucf/adapter_protocol/errors.py. A validated `Request` pairs each method with its parameters, so
-- that there is one constructor for each pair; the texts of error messages and the JSON-RPC numbers are
-- left out.
use ucf.Prelude.{ℕ, String, Bool, List}
use ucf.Ir.{Producer}

abbrev pub adapter_protocol_version : String
adapter_protocol_version = "1.0.0"

abbrev pub max_pending_requests : ℕ
max_pending_requests = 64

abbrev pub max_requests_per_session : ℕ
max_requests_per_session = 65_536

-- The members of `Method` that carry an operation.
pub data Operation : Type 0 where
  inventory discover map_operation generate verify : Operation

pub record CapabilityRequest : Type 0 where
  pub name : String
  pub minimum_version : String
  pub required : Bool

pub record AdapterCapability : Type 0 where
  pub name : String
  pub version : String

-- What a request asks for: InitializeParams, OperationParams or ShutdownParams.
pub data RequestParams : Type 0 where
  initialize : String → List CapabilityRequest → RequestParams
  operate : Operation → RequestParams
  shutdown : RequestParams

pub record Request : Type 0 where
  pub id : String
  pub params : RequestParams

pub data ErrorCategory : Type 0 where
  protocol_failure adapter_failure cancelled timeout process_failure : ErrorCategory

-- The members of `ProtocolCode` that the dispatcher answers with.
pub data ProtocolCode : Type 0 where
  incompatible_version invalid_lifecycle duplicate_request_id too_many_pending : ProtocolCode
  session_request_limit duplicate_capability unsupported_capability : ProtocolCode
  capability_not_negotiated request_cancelled operation_failed : ProtocolCode

-- error_category_for_code
unfoldable pub error_category_for_code : ProtocolCode → ErrorCategory
error_category_for_code request_cancelled = cancelled
error_category_for_code operation_failed = adapter_failure
error_category_for_code _ = protocol_failure

-- InitializeResult, OperationResult with the operation that names its kind, and ShutdownResult.
pub data ProtocolResult (P : Type 0) : Type 0 where
  initialize_result : Producer → List AdapterCapability → ProtocolResult P
  operation_result : Operation → P → ProtocolResult P
  shutdown_result : ProtocolResult P

-- SuccessResponse and ErrorResponse.
pub data ServerMessage (P : Type 0) : Type 0 where
  success : String → ProtocolResult P → ServerMessage P
  failure : String → ErrorCategory → ProtocolCode → ServerMessage P
