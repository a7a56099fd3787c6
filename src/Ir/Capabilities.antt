-- ===== src/Ir/Capabilities.antt =====
-- src/ucf/ir/validation.py: `validate_required_capabilities` and the versions that it compares.
pub mod Versions
pub mod Limits
use Prim.Native.String.{count}
use ucf.Prelude.Dict.{get}
use ucf.Prelude.{
  ℕ, String, ◌≡◌, refl, Bool, true, false, not, ◌&&◌, ◌||◌, Option, none, some, List, [], ◌∷◌, ltb,
  string_eq, Result, ok, err, ◌>>=◌, ◌>>◌, raise_if, for_each, is_numeral, int_from, split_dots,
  if◌then◌else◌,
}
use ucf.Ir.Document.{
  Entity, action_entity, use_case_entity, step_entity, binding_entity, effect_entity,
  observation_entity, invariant_entity, provenance_entity, evidence_entity, capability_entity,
  CapabilityRequirement, BehaviorIr,
}
use ucf.Ir.Errors.{
  invalid_value, unsupported_capability, IrLocation, root, at_field, at_index, IrFailure, ir_error,
  value_error,
}
use ucf.Ir.Validation.{IrChecked}

-- The digits that CPython converts to an int unless it is told otherwise,
-- sys.int_info.default_max_str_digits.
abbrev pub max_str_digits : ℕ
max_str_digits = 4300

-- int of a numeral, or the ValueError of one with more digits
unfoldable pub int_of : String → Result IrFailure ℕ
int_of segment =
    raise_if (ltb max_str_digits (count segment)) value_error >> ok (int_from 0 segment)

-- SEMANTIC_VERSION.fullmatch of the parts of a text between its dots, and int of each of them
unfoldable pub version_numbers : List String → Option (Result IrFailure (ℕ × (ℕ × ℕ)))
unfolding int_of
version_numbers (major ∷ minor ∷ patch ∷ []) =
    if is_numeral major && (is_numeral minor && is_numeral patch)
    then some (int_of major >>= λ a. int_of minor >>= λ b. int_of patch >>= λ c. ok (a, (b, c)))
    else none
version_numbers _ = none

-- _version_tuple
unfoldable pub version_tuple : String → IrLocation → Result IrFailure (ℕ × (ℕ × ℕ))
unfolding version_numbers split_dots
version_tuple version location = elim (version_numbers (split_dots version)) [
  | none ↦ err (ir_error invalid_value location)
  | some numbers ↦ numbers
]

-- `<` of tuples of int
abbrev pub tuple_lt : ℕ × (ℕ × ℕ) → ℕ × (ℕ × ℕ) → Bool
tuple_lt (a, (b, c)) (x, (y, z)) =
    ltb a x || (not (ltb x a) && (ltb b y || (not (ltb y b) && ltb c z)))

module _ (available : List (String × String)) where
  unfoldable pub check_available : CapabilityRequirement → IrLocation → IrChecked
  unfolding version_tuple
  check_available e location = elim (get available e.name) [
    | none ↦ err (ir_error unsupported_capability location)
    | some actual ↦ do
      actual_version ← version_tuple actual (at_field (at_field root "capabilities") e.name)
      minimum_version ← version_tuple e.minimum_version location
      raise_if (tuple_lt actual_version minimum_version) (ir_error unsupported_capability location)
  ]

  -- The body of the loop of validate_required_capabilities.
  unfoldable pub check_capability : ℕ → Entity → IrChecked
  unfolding check_available
  check_capability position (capability_entity e) =
      let check =
        check_available e
          (at_field (at_index (at_field root "entities") position) "minimum_version") in
      if e.required then check else ok tt
  check_capability position _ = ok tt

-- validate_required_capabilities
unfoldable pub validate_required_capabilities : BehaviorIr → List (String × String) → IrChecked
unfolding check_capability
validate_required_capabilities document available =
    for_each (check_capability available) 0 document.entities
