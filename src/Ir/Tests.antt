-- ===== src/Ir/Tests.antt =====
-- Runs of the semantic checks on the sample documents, and instances of their theorems.
use Prim.Native.String.{◌++◌ as text_append}
use ucf.Prelude.{
  ℕ, zero, suc, String, ◌≡◌, refl, ◌↔◌, true, List, [], ◌∷◌, All, split_dots, map, ok, err,
  string_eq,
}
use ucf.Ir.{entity_kind_eq}
use ucf.Ir.Validation.{
  validate_ref_sequence, validate_ports, value_kind_eq, validate_value, require_semantic_capability,
}
use ucf.Ir.Errors.{broken_reference, root, at_field, at_index, ir_error, value_error}
use ucf.Ir.Validation.Index.{indexed}
use ucf.Ir.Validation.Failures.{RaisesIrError}
use ucf.Ir.Semantics.{validate_ir_semantics}
use ucf.Ir.Semantics.WellFormed.{IsWellFormed, validate_ir_semantics-ok}
use ucf.Ir.Semantics.Typing.{IsTyped, validate_ir_semantics-IsTyped}
use ucf.Ir.Semantics.Failures.{validate_ir_semantics-RaisesIrError}
use ucf.Ir.Capabilities.{validate_required_capabilities, version_tuple, version_numbers, int_of}
use ucf.Ir.Capabilities.Limits.{IsTooLong, version_tuple-exceeds}
use ucf.Ir.Capabilities.Versions.{
  Reads, IsServed, version_at_least-tuple_lt, validate_required_capabilities-ok,
}
use ucf.Adapter.Versioning.{version_at_least}
use ucf.Ir.Sample.{bound, document, broken_document}

-- A use case may run a step twice.
accepted : validate_ir_semantics document ≡ ok tt
unfolding validate_ir_semantics validate_ref_sequence entity_kind_eq validate_ports value_kind_eq
    validate_value require_semantic_capability
accepted = refl

refused :
    validate_ir_semantics broken_document
    ≡ err (
        ir_error broken_reference
          (at_index (at_field (at_index (at_field root "entities") 0) "steps") 0))
unfolding validate_ir_semantics validate_ref_sequence entity_kind_eq validate_ports
refused = refl

validate_ir_semantics-ok_example : (validate_ir_semantics document ≡ ok tt) ↔ IsWellFormed document
validate_ir_semantics-ok_example = validate_ir_semantics-ok document

validate_ir_semantics-IsTyped_example : IsTyped (map indexed document.entities) bound
validate_ir_semantics-IsTyped_example = validate_ir_semantics-IsTyped document bound accepted refl

validate_ir_semantics-RaisesIrError_example : RaisesIrError (validate_ir_semantics broken_document)
validate_ir_semantics-RaisesIrError_example = validate_ir_semantics-RaisesIrError broken_document

new_version : Reads "10.0.0" (10, (0, 0))
unfolding version_numbers int_of split_dots
new_version = refl

old_version : Reads "9.12.1" (9, (12, 1))
unfolding version_numbers int_of split_dots
old_version = refl

version_at_least-tuple_lt_example : version_at_least "10.0.0" "9.12.1" ≡ true
version_at_least-tuple_lt_example =
    version_at_least-tuple_lt "10.0.0" "9.12.1" (10, (0, 0)) (9, (12, 1)) new_version old_version

-- A numeral of that many digits.
abbrev nines : ℕ → String
nines zero = ""
nines (suc n) = text_append "9" (nines n)

-- 4301 digits and two more numbers.
abbrev long_version : String
long_version = text_append (nines 4301) ".0.0"

refuses_long : version_tuple long_version root ≡ err value_error
unfolding version_tuple int_of version_numbers split_dots
refuses_long = refl

version_tuple-exceeds_example :
    (version_tuple long_version root ≡ err value_error) ↔ IsTooLong long_version
version_tuple-exceeds_example = version_tuple-exceeds long_version root

abbrev offered : List (String × String)
offered = ("storage", "1.10.0") ∷ []

-- "1.10.0" is enough for "1.2.0".
served : validate_required_capabilities document offered ≡ ok tt
unfolding validate_required_capabilities
served = refl

validate_required_capabilities-ok_example :
    (validate_required_capabilities document offered ≡ ok tt)
    ↔ All (IsServed offered) document.entities
validate_required_capabilities-ok_example = validate_required_capabilities-ok document offered
