-- ===== src/Ir/Document.antt =====
-- The behavior documents of src/ucf/ir/models.py, with all fields but the literals.
use ucf.Prelude.{ℕ, String, Bool, List}
use ucf.Ir.{
  EntityKind, action, use_case, step, binding, effect, observation, invariant, provenance,
  verification_evidence, capability_requirement, Digest, Producer,
}

-- int
pub data ℤ : Type 0 where
  pos negsuc : ℕ → ℤ

-- class ValueKind(StrEnum)
pub data ValueKind : Type 0 where
  null boolean string integer decimal timestamp list_kind record_kind : ValueKind

pub record EntityRef : Type 0 where
  pub target_kind : EntityKind
  pub target_id : String

pub record Port : Type 0 where
  pub name : String
  pub value_kind : ValueKind
  pub required : Bool

-- Literal["input", "output"]
pub data Direction : Type 0 where
  input output : Direction

pub record PortRef : Type 0 where
  pub owner : EntityRef
  pub direction : Direction
  pub name : String

-- IRValue, with the items of a ListValue and the entries of a RecordValue.
mutual
  pub data IrValue : Type 0 where
    null_value : IrValue
    boolean_value : Bool → IrValue
    string_value : String → IrValue
    integer_value : ℤ → IrValue
    decimal_value : String → IrValue
    timestamp_value : String → IrValue
    list_value : IrItems → IrValue
    record_value : RecordEntries → IrValue

  pub data IrItems : Type 0 where
    no_items : IrItems
    item : IrValue → IrItems → IrItems

  pub data RecordEntries : Type 0 where
    no_entries : RecordEntries
    entry : String → IrValue → RecordEntries → RecordEntries

-- ValueKind(value.kind)
abbrev pub value_kind_of : IrValue → ValueKind
value_kind_of null_value = null
value_kind_of (boolean_value _) = boolean
value_kind_of (string_value _) = string
value_kind_of (integer_value _) = integer
value_kind_of (decimal_value _) = decimal
value_kind_of (timestamp_value _) = timestamp
value_kind_of (list_value _) = list_kind
value_kind_of (record_value _) = record_kind

pub record DomainTarget : Type 0 where
  pub subject : String
  pub path : List String

pub record DeclaredRule : Type 0 where
  pub dialect : String
  pub statement : String

pub record ArtifactSource : Type 0 where
  pub uri : String
  pub revision : Digest

pub record Check : Type 0 where
  pub id : String
  pub version : String
  pub procedure_uri : String

pub record Action : Type 0 where
  pub id : String
  pub input_ports : List Port
  pub output_ports : List Port
  pub effects : List EntityRef
  pub requires : List EntityRef
  pub provenance : EntityRef

pub record UseCase : Type 0 where
  pub id : String
  pub input_ports : List Port
  pub output_ports : List Port
  pub steps : List EntityRef
  pub invariants : List EntityRef
  pub requires : List EntityRef
  pub provenance : EntityRef

pub record Step : Type 0 where
  pub id : String
  pub action : EntityRef
  pub bindings : List EntityRef
  pub effects : List EntityRef
  pub observations : List EntityRef
  pub requires : List EntityRef
  pub provenance : EntityRef

pub data BindingSource : Type 0 where
  port_source : PortRef → BindingSource
  value_source : IrValue → BindingSource

pub record Binding : Type 0 where
  pub id : String
  pub target : PortRef
  pub source : BindingSource
  pub provenance : EntityRef

pub record Effect : Type 0 where
  pub id : String
  pub operation : String
  pub target : DomainTarget
  pub value : IrValue
  pub requires : List EntityRef
  pub provenance : EntityRef

pub record Observation : Type 0 where
  pub id : String
  pub subject : EntityRef
  pub target : DomainTarget
  pub value : IrValue
  pub provenance : EntityRef

pub record Invariant : Type 0 where
  pub id : String
  pub applies_to : List EntityRef
  pub condition : DeclaredRule
  pub requires : List EntityRef
  pub provenance : EntityRef

pub record Provenance : Type 0 where
  pub id : String
  pub source : ArtifactSource
  pub producer : Producer
  pub captured_at : String

-- Literal["passed", "failed", "error"]
pub data CheckOutcome : Type 0 where
  passed failed error : CheckOutcome

pub record VerificationEvidence : Type 0 where
  pub id : String
  pub subjects : List EntityRef
  pub check : Check
  pub outcome : CheckOutcome
  pub executed_at : String
  pub source_revision : Digest
  pub environment : Digest
  pub provenance : EntityRef

pub record CapabilityRequirement : Type 0 where
  pub id : String
  pub name : String
  pub minimum_version : String
  pub required : Bool
  pub provenance : EntityRef

pub data Entity : Type 0 where
  action_entity : Action → Entity
  use_case_entity : UseCase → Entity
  step_entity : Step → Entity
  binding_entity : Binding → Entity
  effect_entity : Effect → Entity
  observation_entity : Observation → Entity
  invariant_entity : Invariant → Entity
  provenance_entity : Provenance → Entity
  evidence_entity : VerificationEvidence → Entity
  capability_entity : CapabilityRequirement → Entity

-- entity.id
abbrev pub entity_id : Entity → String
entity_id (action_entity e) = e.id
entity_id (use_case_entity e) = e.id
entity_id (step_entity e) = e.id
entity_id (binding_entity e) = e.id
entity_id (effect_entity e) = e.id
entity_id (observation_entity e) = e.id
entity_id (invariant_entity e) = e.id
entity_id (provenance_entity e) = e.id
entity_id (evidence_entity e) = e.id
entity_id (capability_entity e) = e.id

-- entity.kind
abbrev pub entity_kind : Entity → EntityKind
entity_kind (action_entity _) = action
entity_kind (use_case_entity _) = use_case
entity_kind (step_entity _) = step
entity_kind (binding_entity _) = binding
entity_kind (effect_entity _) = effect
entity_kind (observation_entity _) = observation
entity_kind (invariant_entity _) = invariant
entity_kind (provenance_entity _) = provenance
entity_kind (evidence_entity _) = verification_evidence
entity_kind (capability_entity _) = capability_requirement

pub record BehaviorIr : Type 0 where
  pub document_id : String
  pub roots : List EntityRef
  pub entities : List Entity
