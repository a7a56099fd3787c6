-- ===== src/Ir.antt =====
-- The records of src/ucf/ir/models.py and src/ucf/ir/trust_models.py that the other parts share. A field
-- whose type is a `Literal` with one value is left out; a constrained text is a `String`.
pub mod Document
pub mod Errors
pub mod Validation
pub mod Semantics
pub mod Capabilities
pub mod Sample
pub mod Tests
use ucf.Prelude.{ℕ, String, Eq, eq_of_discrete, String-discrete}

-- class EntityKind(StrEnum)
pub data EntityKind : Type 0 where
  action use_case step binding effect : EntityKind
  observation invariant provenance verification_evidence capability_requirement : EntityKind

-- EntityKind.value
abbrev pub entity_kind_value : EntityKind → String
entity_kind_value action = "action"
entity_kind_value use_case = "use_case"
entity_kind_value step = "step"
entity_kind_value binding = "binding"
entity_kind_value effect = "effect"
entity_kind_value observation = "observation"
entity_kind_value invariant = "invariant"
entity_kind_value provenance = "provenance"
entity_kind_value verification_evidence = "verification_evidence"
entity_kind_value capability_requirement = "capability_requirement"

pub record Digest : Type 0 where
  pub value : String

pub record Producer : Type 0 where
  pub name : String
  pub version : String

pub record BehaviorEntityRef : Type 0 where
  pub document_id : String
  pub canonical_digest : Digest
  pub target_kind : EntityKind
  pub target_id : String

-- the largest SafeInteger
abbrev pub max_safe_integer : ℕ
max_safe_integer = 9_007_199_254_740_991

unfoldable pub EntityKind-discrete : Discrete EntityKind
EntityKind-discrete = hlevel

unfoldable pub Digest-discrete : Discrete Digest
unfolding String-discrete
Digest-discrete = hlevel String-discrete

unfoldable pub Producer-discrete : Discrete Producer
unfolding String-discrete
Producer-discrete = hlevel String-discrete

unfoldable pub BehaviorEntityRef-discrete : Discrete BehaviorEntityRef
unfolding EntityKind-discrete Digest-discrete String-discrete
BehaviorEntityRef-discrete = hlevel (EntityKind-discrete, Digest-discrete, String-discrete)

instance unfoldable pub entity_kind_eq : Eq EntityKind
unfolding eq_of_discrete EntityKind-discrete
entity_kind_eq = eq_of_discrete EntityKind-discrete
