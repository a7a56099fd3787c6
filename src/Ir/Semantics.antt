-- ===== src/Ir/Semantics.antt =====
-- src/ucf/ir/validation.py: ports, bindings, and `validate_ir_semantics`.
pub mod Ports
pub mod WellFormed
pub mod Typing
pub mod Failures
pub mod Bindings
use ucf.Prelude.{
  ℕ, suc, String, Bool, true, false, not, ◌&&◌, ◌||◌, Option, none, some, List, [], ◌∷◌, ◌==◌,
  string_eq, Result, ok, err, ◌>>=◌, ◌>>◌, raise_if, for_each, if◌then◌else◌,
}
use ucf.Ir.{
  EntityKind, action, use_case, step, binding, effect, observation, invariant, provenance,
  capability_requirement, entity_kind_eq,
}
use ucf.Ir.Document.{
  ValueKind, null, EntityRef, Port, Direction, input, output, PortRef, IrValue, value_kind_of,
  Action, UseCase, Step, BindingSource, port_source, value_source, Binding, Effect, Observation,
  Invariant, VerificationEvidence, CapabilityRequirement, Entity, action_entity, use_case_entity,
  step_entity, binding_entity, effect_entity, observation_entity, invariant_entity,
  provenance_entity, evidence_entity, capability_entity, BehaviorIr,
}
use ucf.Ir.Errors.{
  unknown_port, invalid_binding, IrLocation, root, at_field, at_index, IrFailure, ir_error,
  assertion_error,
}
use ucf.Ir.Validation.{
  IrChecked, EntityIndex, value_kind_eq, build_index, resolve_ref, check_ref, validate_ref_sequence,
  require_semantic_capability, validate_ports, validate_value,
}

abbrev pub only : EntityKind → Option (List EntityKind)
only kind = some (kind ∷ [])

-- {EntityKind.USE_CASE, EntityKind.STEP}
abbrev pub port_owners : Option (List EntityKind)
port_owners = some (use_case ∷ step ∷ [])

-- {EntityKind.ACTION, EntityKind.STEP, EntityKind.USE_CASE}
abbrev pub behaviors : Option (List EntityKind)
behaviors = some (action ∷ step ∷ use_case ∷ [])

-- _step_action
unfoldable pub step_action : Step → EntityIndex → IrLocation → Result IrFailure Action
step_action s index location = resolve_ref s.action index location (only action) >>= λ entity.
    elim entity [ action_entity found ↦ ok found | _ ↦ err assertion_error ]

abbrev pub is_input : Direction → Bool
is_input input = true
is_input output = false

-- The ports of `port_owner` in the direction of the reference.
abbrev pub action_ports : Action → Direction → List Port
action_ports owner direction = if is_input direction then owner.input_ports else owner.output_ports

abbrev pub use_case_ports : UseCase → Direction → List Port
use_case_ports owner direction =
    if is_input direction then owner.input_ports else owner.output_ports

-- next((candidate for candidate in ports if candidate.name == name), None)
abbrev pub find_port : String → List Port → Option Port
find_port name [] = none
find_port name (port ∷ ports) =
    let rest = find_port name ports in if port.name == name then some port else rest

-- The ports of the owner that a reference names.
unfoldable pub owner_ports :
    PortRef → EntityIndex → IrLocation → Entity → Result IrFailure (List Port)
unfolding step_action
owner_ports ref index location (step_entity owner) =
    step_action owner index (at_field (at_field location "owner") "action") >>= λ found.
    ok (action_ports found ref.direction)
owner_ports ref index location (use_case_entity owner) = ok (use_case_ports owner ref.direction)
owner_ports ref index location _ = err assertion_error

-- _resolve_port
unfoldable pub resolve_port : PortRef → EntityIndex → IrLocation → Result IrFailure Port
unfolding owner_ports
resolve_port ref index location = do
  owner ← resolve_ref ref.owner index (at_field location "owner") port_owners
  ports ← owner_ports ref index location owner
  elim (find_port ref.name ports) [
    | none ↦ err (ir_error unknown_port (at_field location "name"))
    | some port ↦ ok port
  ]

abbrev pub is_step : Entity → Bool
is_step (step_entity _) = true
is_step _ = false

-- The owner may be read from in that direction.
abbrev pub is_source : Entity → Direction → Bool
is_source (use_case_entity _) input = true
is_source (step_entity _) output = true
is_source _ _ = false

-- `source_kind` of _validate_binding
unfoldable pub source_kind :
    BindingSource → Port → EntityIndex → IrLocation → Result IrFailure ValueKind
unfolding resolve_port
source_kind (port_source source) target index location = do
  owner ← resolve_ref source.owner index (at_field (at_field location "source") "owner") port_owners
  raise_if (not (is_source owner source.direction))
      (ir_error invalid_binding (at_field (at_field location "source") "direction"))
  port ← resolve_port source index (at_field location "source")
  ok port.value_kind
source_kind (value_source value) target index location = do
  validate_value value (at_field location "source")
  raise_if (value_kind_of value == null && target.required)
      (ir_error invalid_binding (at_field location "source"))
  ok (value_kind_of value)

-- _validate_binding
unfoldable pub validate_binding : Binding → EntityIndex → IrLocation → IrChecked
unfolding source_kind
validate_binding b index location = do
  owner ←
      resolve_ref b.target.owner index (at_field (at_field location "target") "owner") (only step)
  raise_if (not (is_step owner)) assertion_error
  raise_if (not (is_input b.target.direction))
      (ir_error invalid_binding (at_field (at_field location "target") "direction"))
  target ← resolve_port b.target index (at_field location "target")
  kind ← source_kind b.source target index location
  raise_if (not (kind == null) && not (kind == target.value_kind))
      (ir_error invalid_binding (at_field location "source"))

module _ (index : EntityIndex) where
  abbrev refs : List EntityRef → IrLocation → EntityKind → IrChecked
  refs references location kind = validate_ref_sequence references index location (only kind) true

  -- The body of the loop of validate_ir_semantics, before the provenance is resolved.
  unfoldable pub check_entity : Entity → IrLocation → IrChecked
  unfolding validate_binding
  check_entity (action_entity e) location = do
    validate_ports e.input_ports (at_field location "input_ports")
    validate_ports e.output_ports (at_field location "output_ports")
    refs e.effects (at_field location "effects") effect
    refs e.requires (at_field location "requires") capability_requirement
  check_entity (use_case_entity e) location = do
    validate_ports e.input_ports (at_field location "input_ports")
    validate_ports e.output_ports (at_field location "output_ports")
    validate_ref_sequence e.steps index (at_field location "steps") (only step) false
    refs e.invariants (at_field location "invariants") invariant
    refs e.requires (at_field location "requires") capability_requirement
  check_entity (step_entity e) location = do
    step_action e index (at_field location "action") >>= λ _. ok tt
    refs e.bindings (at_field location "bindings") binding
    refs e.effects (at_field location "effects") effect
    refs e.observations (at_field location "observations") observation
    refs e.requires (at_field location "requires") capability_requirement
  check_entity (binding_entity e) location = validate_binding e index location
  check_entity (effect_entity e) location = do
    validate_value e.value (at_field location "value")
    refs e.requires (at_field location "requires") capability_requirement
    require_semantic_capability e.requires index (at_field location "requires")
  check_entity (observation_entity e) location = do
    check_ref e.subject index (at_field location "subject") behaviors
    validate_value e.value (at_field location "value")
  check_entity (invariant_entity e) location = do
    validate_ref_sequence e.applies_to index (at_field location "applies_to") behaviors true
    refs e.requires (at_field location "requires") capability_requirement
    require_semantic_capability e.requires index (at_field location "requires")
  check_entity (provenance_entity e) location = ok tt
  check_entity (evidence_entity e) location =
      validate_ref_sequence e.subjects index (at_field location "subjects") none true
  check_entity (capability_entity e) location = ok tt

  -- entity.provenance, where the entity is no Provenance
  abbrev pub provenance_of : Entity → Option EntityRef
  provenance_of (action_entity e) = some e.provenance
  provenance_of (use_case_entity e) = some e.provenance
  provenance_of (step_entity e) = some e.provenance
  provenance_of (binding_entity e) = some e.provenance
  provenance_of (effect_entity e) = some e.provenance
  provenance_of (observation_entity e) = some e.provenance
  provenance_of (invariant_entity e) = some e.provenance
  provenance_of (provenance_entity e) = none
  provenance_of (evidence_entity e) = some e.provenance
  provenance_of (capability_entity e) = some e.provenance

  unfoldable pub check_provenance : Entity → IrLocation → IrChecked
  check_provenance entity location = elim (provenance_of entity) [
    | none ↦ ok tt
    | some ref ↦ check_ref ref index (at_field location "provenance") (only provenance)
  ]

  unfoldable pub validate_entity : ℕ → Entity → IrChecked
  unfolding check_entity check_provenance
  validate_entity position entity =
      let location = at_index (at_field root "entities") position in
      check_entity entity location >> check_provenance entity location

-- validate_ir_semantics
unfoldable pub validate_ir_semantics : BehaviorIr → IrChecked
unfolding build_index validate_entity
validate_ir_semantics document = do
  index ← build_index document
  validate_ref_sequence document.roots index (at_field root "roots") (only use_case) true
  for_each (validate_entity index) 0 document.entities
