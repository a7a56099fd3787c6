-- ===== src/Ir/Errors.antt =====
-- src/ucf/ir/errors.py: the codes that the semantic checks raise, and where.
use ucf.Prelude.{ℕ, String}

-- class IRErrorCode(StrEnum)
pub data IrErrorCode : Type 0 where
  invalid_json duplicate_json_member malformed_version unsupported_version unknown_field :
      IrErrorCode
  invalid_structure invalid_value duplicate_identity duplicate_port duplicate_reference :
      IrErrorCode
  duplicate_capability broken_reference wrong_target_kind unknown_port invalid_binding : IrErrorCode
  missing_capability_requirement unsupported_capability document_identity_mismatch : IrErrorCode
  mapping_basis_mismatch missing_claim_basis candidate_is_not_evidence claim_basis_mismatch :
      IrErrorCode
  evidence_not_passed stale_evidence circular_claim_basis verified_unavailable : IrErrorCode

-- The location of an error: "$", f"{location}.{name}" and f"{location}[{position}]".
pub data IrLocation : Type 0 where
  root : IrLocation
  at_field : IrLocation → String → IrLocation
  at_index : IrLocation → ℕ → IrLocation

-- What the checks raise: an IRValidationError (its message is left out), a KeyError, an AssertionError or
-- a ValueError.
pub data IrFailure : Type 0 where
  ir_error : IrErrorCode → IrLocation → IrFailure
  key_error assertion_error value_error : IrFailure
