-- ===== src/Ir/Validation.antt =====
-- src/ucf/ir/validation.py: the semantic checks of a behavior document.
pub mod Refs
pub mod Values
pub mod Index
pub mod Failures
use ucf.Prelude.Dict.{get, has, put}
use ucf.Prelude.{
  ℕ, suc, String, Bool, true, false, not, ◌&&◌, ◌||◌, Option, none, some, List, [], ◌∷◌, Eq, ◌==◌,
  string_eq, pair_eq, contains, Result, ok, err, ◌>>=◌, ◌>>◌, raise_if, for_each, if◌then◌else◌,
  eq_of_discrete,
}
use ucf.Ir.{
  EntityKind, action, use_case, step, binding, effect, observation, invariant, provenance,
  capability_requirement, entity_kind_eq,
}
use ucf.Ir.Document.{
  ValueKind, null, EntityRef, Port, Direction, input, output, PortRef, IrValue, null_value,
  boolean_value, string_value, integer_value, decimal_value, timestamp_value, list_value,
  record_value, IrItems, no_items, item, RecordEntries, no_entries, entry, value_kind_of, Action,
  UseCase, Step, BindingSource, port_source, value_source, Binding, Effect, Observation, Invariant,
  VerificationEvidence, CapabilityRequirement, Entity, action_entity, use_case_entity, step_entity,
  binding_entity, effect_entity, observation_entity, invariant_entity, provenance_entity,
  evidence_entity, capability_entity, entity_id, entity_kind, BehaviorIr,
}
use ucf.Ir.Errors.{
  duplicate_identity, duplicate_port, duplicate_reference, duplicate_capability, broken_reference,
  wrong_target_kind, unknown_port, invalid_binding, missing_capability_requirement, IrLocation,
  root, at_field, at_index, IrFailure, ir_error, key_error, assertion_error,
}

abbrev pub IrChecked : Type 0
IrChecked = Result IrFailure (Unit {0})

-- dict[str, Entity]
abbrev pub EntityIndex : Type 0
EntityIndex = List (String × Entity)

-- `target is ref.target_kind`, of members of an enumeration
unfoldable pub ValueKind-discrete : Discrete ValueKind
ValueKind-discrete = hlevel

instance unfoldable pub value_kind_eq : Eq ValueKind
unfolding eq_of_discrete ValueKind-discrete
value_kind_eq = eq_of_discrete ValueKind-discrete

-- entity.name, of a CapabilityRequirement
abbrev pub declared_name : Entity → Option String
declared_name (capability_entity e) = some e.name
declared_name _ = none

abbrev pub is_declared : List (String × String) → Entity → Bool
is_declared names entity = elim (declared_name entity) [ none ↦ false | some name ↦ has names name ]

abbrev pub declare : List (String × String) → Entity → List (String × String)
declare names entity = elim (declared_name entity) [
  | none ↦ names
  | some name ↦ put name (entity_id entity) names
]

-- The loop of _build_index.
unfoldable pub index_entities :
    ℕ → EntityIndex → List (String × String) → List Entity → Result IrFailure EntityIndex
index_entities position index names [] = ok index
index_entities position index names (entity ∷ entities) =
    let location = at_index (at_field root "entities") position in
    let rest =
      index_entities (suc position) (put (entity_id entity) entity index) (declare names entity)
        entities in
    raise_if (has index (entity_id entity)) (ir_error duplicate_identity (at_field location "id"))
    >> raise_if (is_declared names entity)
        (ir_error duplicate_capability (at_field location "name"))
    >> rest

-- _build_index
unfoldable pub build_index : BehaviorIr → Result IrFailure EntityIndex
unfolding index_entities
build_index document = index_entities 0 [] [] document.entities

-- `expected is None or target.kind in expected`
abbrev pub is_expected : Option (List EntityKind) → EntityKind → Bool
is_expected none kind = true
is_expected (some kinds) kind = contains kinds kind

-- _resolve_ref
unfoldable pub resolve_ref :
    EntityRef → EntityIndex → IrLocation → Option (List EntityKind) → Result IrFailure Entity
resolve_ref ref index location expected = elim (get index ref.target_id) [
  | none ↦ err (ir_error broken_reference location)
  | some target ↦
      raise_if (not (entity_kind target == ref.target_kind))
        (ir_error wrong_target_kind (at_field location "target_kind"))
      >> raise_if (not (is_expected expected (entity_kind target)))
          (ir_error wrong_target_kind (at_field location "target_kind"))
      >> ok target
]

-- A call of _resolve_ref whose result is not used.
unfoldable pub check_ref :
    EntityRef → EntityIndex → IrLocation → Option (List EntityKind) → IrChecked
unfolding resolve_ref
check_ref ref index location expected = resolve_ref ref index location expected >>= λ _. ok tt

abbrev pub ref_identity : EntityRef → EntityKind × String
ref_identity ref = (ref.target_kind, ref.target_id)

module _ (index : EntityIndex) (location : IrLocation) (expected : Option (List EntityKind))
    (unique : Bool) where
  -- The loop of _validate_ref_sequence.
  unfoldable pub check_refs : ℕ → List (EntityKind × String) → List EntityRef → IrChecked
  unfolding check_ref
  check_refs position seen [] = ok tt
  check_refs position seen (ref ∷ refs) =
      let rest = check_refs (suc position) (ref_identity ref ∷ seen) refs in
      raise_if (unique && contains seen (ref_identity ref))
        (ir_error duplicate_reference (at_index location position))
      >> check_ref ref index (at_index location position) expected
      >> rest

-- _validate_ref_sequence with the default for `unique`, and without
unfoldable pub validate_ref_sequence :
    List EntityRef → EntityIndex → IrLocation → Option (List EntityKind) → Bool → IrChecked
unfolding check_refs
validate_ref_sequence refs index location expected unique =
    check_refs index location expected unique 0 [] refs

abbrev pub is_required : Entity → Bool
is_required (capability_entity e) = e.required
is_required _ = false

-- any(...) of _require_semantic_capability; `index[...]` raises a KeyError on what is not there
unfoldable pub any_required : EntityIndex → List EntityRef → Result IrFailure Bool
any_required index [] = ok false
any_required index (ref ∷ refs) =
    let rest = any_required index refs in
    elim (get index ref.target_id) [
      | none ↦ err key_error
      | some entity ↦ if is_required entity then ok true else rest
    ]

-- _require_semantic_capability
unfoldable pub require_semantic_capability : List EntityRef → EntityIndex → IrLocation → IrChecked
unfolding any_required
require_semantic_capability refs index location = any_required index refs >>= λ found.
    raise_if (not found) (ir_error missing_capability_requirement location)

-- The loop of _validate_ports.
unfoldable pub check_ports : IrLocation → ℕ → List String → List Port → IrChecked
check_ports location position seen [] = ok tt
check_ports location position seen (port ∷ ports) =
    let rest = check_ports location (suc position) (port.name ∷ seen) ports in
    raise_if (contains seen port.name)
      (ir_error duplicate_port (at_field (at_index location position) "name"))
    >> rest

-- _validate_ports
unfoldable pub validate_ports : List Port → IrLocation → IrChecked
unfolding check_ports
validate_ports ports location = check_ports location 0 [] ports

-- _validate_value, with its two loops
unfoldable mutual
  pub validate_value : IrValue → IrLocation → IrChecked
  validate_value null_value location = ok tt
  validate_value (boolean_value _) location = ok tt
  validate_value (string_value _) location = ok tt
  validate_value (integer_value _) location = ok tt
  validate_value (decimal_value _) location = ok tt
  validate_value (timestamp_value _) location = ok tt
  validate_value (list_value items) location = check_items items (at_field location "items") 0
  validate_value (record_value entries) location =
      check_entries entries (at_field location "entries") 0 []

  pub check_items : IrItems → IrLocation → ℕ → IrChecked
  check_items no_items location position = ok tt
  check_items (item value items) location position =
      validate_value value (at_index location position) >> check_items items location (suc position)

  pub check_entries : RecordEntries → IrLocation → ℕ → List String → IrChecked
  check_entries no_entries location position seen = ok tt
  check_entries (entry name value entries) location position seen =
      raise_if (contains seen name)
        (ir_error duplicate_identity (at_field (at_index location position) "name"))
      >> validate_value value (at_field (at_index location position) "value")
      >> check_entries entries location (suc position) (name ∷ seen)

-- validate_ir_value
unfoldable pub validate_ir_value : IrValue → IrChecked
unfolding validate_value
validate_ir_value value = validate_value value root
