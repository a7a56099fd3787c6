-- ===== src/Specs/Models.antt =====
-- The records of src/ucf/models: base.py, action.py, component.py, event.py, protocol.py, invariant.py and
-- usecase.py. A dict is an association list; the field `kind` of a spec is its constructor in AnySpec.
use ucf.Prelude.{ℕ, String, Bool, List, Option}
use ucf.Ir.Document.{ℤ}

-- Any, as it is read from JSON; a number is kept as its text.
mutual
  pub data JsonValue : Type 0 where
    json_null : JsonValue
    json_bool : Bool → JsonValue
    json_number : String → JsonValue
    json_string : String → JsonValue
    json_array : JsonItems → JsonValue
    json_object : JsonMembers → JsonValue

  pub data JsonItems : Type 0 where
    no_items : JsonItems
    json_item : JsonValue → JsonItems → JsonItems

  pub data JsonMembers : Type 0 where
    no_members : JsonMembers
    json_member : String → JsonValue → JsonMembers → JsonMembers

pub data FieldType : Type 0 where
  string integer number boolean array object : FieldType

pub data MutationType : Type 0 where
  create set increment decrement append delete : MutationType

pub data Severity : Type 0 where
  critical high medium : Severity

pub record Metadata : Type 0 where
  pub name : String
  pub version : Option String
  pub owner : Option String
  pub actor : Option String
  pub tags : List String
  pub severity : Option Severity
  pub description : Option String

pub record FieldDef : Type 0 where
  pub field_type : FieldType
  pub required : Bool
  pub format : Option String
  pub least : Option String
  pub greatest : Option String
  pub choices : Option (List JsonValue)
  pub description : Option String

-- str | int
pub data StatusCode : Type 0 where
  text_status : String → StatusCode
  int_status : ℤ → StatusCode

pub record ErrorDef : Type 0 where
  pub status : StatusCode
  pub code : String
  pub condition : String
  pub description : Option String

pub record ResourceRead : Type 0 where
  pub resource : String
  pub fields : List String

pub record ResourceWrite : Type 0 where
  pub resource : String
  pub mutation : MutationType
  pub by : Option String
  pub fields : List String

pub record EmitRef : Type 0 where
  pub event : String

pub record Ref : Type 0 where
  pub ref : String

pub data Backoff : Type 0 where
  constant linear exponential : Backoff

-- str | list[str]
pub data RetryErrors : Type 0 where
  one_error : String → RetryErrors
  some_errors : List String → RetryErrors

pub record RetryConfig : Type 0 where
  pub max_attempts : ℕ
  pub on_error : RetryErrors
  pub backoff : Backoff
  pub initial_delay_ms : ℕ

pub record StepDef : Type 0 where
  pub id : String
  pub uses : String
  pub input : List (String × JsonValue)
  pub output : List (String × String)
  pub when : Option String
  pub skip_if : Option String
  pub depends_on : List String
  pub postcondition : Option String
  pub retry : Option RetryConfig

pub record ComponentSpec : Type 0 where
  pub metadata : Metadata
  pub parameters : List (String × FieldDef)
  pub provides : List (String × FieldDef)
  pub steps : List StepDef

pub record HttpBinding : Type 0 where
  pub method : String
  pub path : String

pub record GrpcBinding : Type 0 where
  pub service : String
  pub method : String
  pub proto : Option String

pub record GraphqlBinding : Type 0 where
  pub operation : String
  pub name : String

pub record UiStep : Type 0 where
  pub click : Option String
  pub fill : Option String
  pub value : Option String
  pub assert_condition : Option String

pub record CliBinding : Type 0 where
  pub command : String
  pub exit_code : ℤ

pub record Platform : Type 0 where
  pub http : Option HttpBinding
  pub grpc : Option GrpcBinding
  pub graphql : Option GraphqlBinding
  pub ui : Option (List UiStep)
  pub cli : Option CliBinding
  pub kafka_topic : Option String

pub record ActionSpec : Type 0 where
  pub metadata : Metadata
  pub platform : Option Platform
  pub input : List (String × FieldDef)
  pub output : List (String × FieldDef)
  pub errors : List ErrorDef
  pub reads : List ResourceRead
  pub writes : List ResourceWrite
  pub preconditions : List String
  pub postconditions : List String
  pub emits : List EmitRef

pub record DeliveryChannel : Type 0 where
  pub channel : String
  pub condition : Option String

pub record EventSpec : Type 0 where
  pub metadata : Metadata
  pub trigger_after : Option String
  pub payload : List (String × FieldDef)
  pub delivery : List DeliveryChannel

pub data ImplementationBinding : Type 0 where
  ref_implementation : Ref → ImplementationBinding
  component_implementation : ComponentSpec → ImplementationBinding

pub record ProtocolSpec : Type 0 where
  pub metadata : Metadata
  pub input : List (String × FieldDef)
  pub output : List (String × FieldDef)
  pub writes : List ResourceWrite
  pub guarantees : List String
  pub implementations : List ImplementationBinding

pub data InvariantType : Type 0 where
  data_invariant relationship aggregate state_machine temporal uniqueness composite : InvariantType

pub record ForbiddenTransition : Type 0 where
  pub from_state : String
  pub to_state : String
  pub reason : String

pub record AppliesTo : Type 0 where
  pub resource : Option String
  pub action : Option String
  pub usecase : Option String

pub record InvariantSpec : Type 0 where
  pub metadata : Metadata
  pub invariant_type : InvariantType
  pub rule : Option String
  pub rules : List (List (String × JsonValue))
  pub entity : Option String
  pub field : Option String
  pub condition : Option String
  pub states : List String
  pub transitions : List (String × List String)
  pub forbidden : List ForbiddenTransition
  pub applies_to : List AppliesTo
  pub unique_fields : List String
  pub scope : Option String
  pub entities : List (String × JsonValue)
  pub before : List (String × String)
  pub after : List (String × String)
  pub join : Option String
  pub composed_of : List (List (String × JsonValue))
  pub parameters : List (String × String)
  pub instances : List (List (String × JsonValue))

pub data InvariantBinding : Type 0 where
  ref_invariant : Ref → InvariantBinding
  inline_invariant : InvariantSpec → InvariantBinding

pub record ComponentRequirement : Type 0 where
  pub ref : String
  pub alias : String
  pub params : List (String × JsonValue)

pub record AlternativeFlow : Type 0 where
  pub name : String
  pub trigger : String
  pub handles_error : Option String
  pub steps : List StepDef

pub record ConcurrencyDef : Type 0 where
  pub conflict : String
  pub strategy : String
  pub description : Option String

pub record UseCaseSpec : Type 0 where
  pub metadata : Metadata
  pub extends : Option String
  pub trigger : Option String
  pub input_from_event : List (String × String)
  pub requires : List ComponentRequirement
  pub preconditions : List String
  pub assumed_preconditions : List String
  pub steps : List StepDef
  pub alternative_flows : List AlternativeFlow
  pub postconditions : List String
  pub terminal : Bool
  pub invariants : List InvariantBinding
  pub concurrency : List ConcurrencyDef

pub data AnySpec : Type 0 where
  action_spec : ActionSpec → AnySpec
  event_spec : EventSpec → AnySpec
  component_spec : ComponentSpec → AnySpec
  protocol_spec : ProtocolSpec → AnySpec
  usecase_spec : UseCaseSpec → AnySpec
  invariant_spec : InvariantSpec → AnySpec
