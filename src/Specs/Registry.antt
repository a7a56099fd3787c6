-- ===== src/Specs/Registry.antt =====
-- class SpecRegistry of src/ucf/parser/registry.py. A Path is its text.
pub mod Keys
pub mod Lookup
pub mod Refines
pub mod Tolerant
pub mod Reports
pub mod Paths
use Prim.Native.Char.{Char, code}
use Prim.Native.String.{[] as no_text, ◌∷◌ as text_cons, ◌++◌ as text_append}
use ucf.Prelude.Dict.{get, has, put}
use ucf.Prelude.{
  ℕ, String, ◌≡◌, Bool, true, false, Option, none, some, List, [], ◌∷◌, Eq, eq_of_discrete, ◌==◌,
  nat_eq, string_eq, Result, ok, err, if◌then◌else◌,
}
use ucf.Specs.Models.{
  AnySpec, action_spec, event_spec, component_spec, protocol_spec, usecase_spec, invariant_spec,
  Metadata, ActionSpec, EventSpec, ComponentSpec, ProtocolSpec, UseCaseSpec, InvariantSpec,
}

-- The class of a spec, and its field `kind`, which go together.
pub data SpecKind : Type 0 where
  action event component protocol usecase invariant : SpecKind

unfoldable pub SpecKind-discrete : Discrete SpecKind
SpecKind-discrete = hlevel

instance unfoldable pub spec_kind_eq : Eq SpecKind
unfolding eq_of_discrete SpecKind-discrete
spec_kind_eq = eq_of_discrete SpecKind-discrete

abbrev pub spec_kind : AnySpec → SpecKind
spec_kind (action_spec _) = action
spec_kind (event_spec _) = event
spec_kind (component_spec _) = component
spec_kind (protocol_spec _) = protocol
spec_kind (usecase_spec _) = usecase
spec_kind (invariant_spec _) = invariant

-- spec.kind
abbrev pub kind_value : SpecKind → String
kind_value action = "action"
kind_value event = "event"
kind_value component = "component"
kind_value protocol = "protocol"
kind_value usecase = "usecase"
kind_value invariant = "invariant"

-- _KIND_PLURAL
abbrev pub kind_plural : SpecKind → String
kind_plural action = "actions"
kind_plural event = "events"
kind_plural component = "components"
kind_plural protocol = "protocols"
kind_plural usecase = "use-cases"
kind_plural invariant = "invariants"

abbrev pub spec_metadata : AnySpec → Metadata
spec_metadata (action_spec s) = s.metadata
spec_metadata (event_spec s) = s.metadata
spec_metadata (component_spec s) = s.metadata
spec_metadata (protocol_spec s) = s.metadata
spec_metadata (usecase_spec s) = s.metadata
spec_metadata (invariant_spec s) = s.metadata

-- spec.metadata.name
abbrev pub spec_name : AnySpec → String
spec_name spec = (spec_metadata spec).name

-- f"{prefix}/{name}"
unfoldable pub join_ref : String → String → String
join_ref prefix name = text_append prefix (text_append "/" name)

pub record SpecRegistry : Type 0 where
  pub by_kind : List (String × List (String × AnySpec))
  pub by_ref : List (String × AnySpec)
  pub paths : List (String × String)

-- SpecRegistry()
abbrev pub empty_registry : SpecRegistry
empty_registry = record { by_kind = []; by_ref = []; paths = [] }

pub record DuplicateSpecError : Type 0 where
  pub kind : String
  pub name : String
  pub existing_path : Option String
  pub duplicate_path : Option String

-- self._by_kind.get(kind, {})
abbrev pub group : SpecRegistry → String → List (String × AnySpec)
group registry kind = elim (get registry.by_kind kind) [ none ↦ [] | some specs ↦ specs ]

-- SpecRegistry.get
unfoldable pub get_spec : SpecRegistry → String → String → Option AnySpec
get_spec registry kind name = get (group registry kind) name

abbrev pub ref_key : AnySpec → String
ref_key spec = join_ref (kind_plural (spec_kind spec)) (spec_name spec)

abbrev pub with_path : Option String → String → List (String × String) → List (String × String)
with_path path key paths = elim path [ none ↦ paths | some p ↦ put key p paths ]

-- SpecRegistry.register
unfoldable pub register :
    SpecRegistry → AnySpec → Option String → Result DuplicateSpecError SpecRegistry
unfolding get_spec
register registry spec path =
    let kind = kind_value (spec_kind spec) in
    let name = spec_name spec in
    elim (get_spec registry kind name) [
      | some existing ↦ err (record {
        kind = kind;
        name = name;
        existing_path = get registry.paths (ref_key spec);
        duplicate_path = path;
      })
      | none ↦ ok (record {
        by_kind = put kind (put name spec (group registry kind)) registry.by_kind;
        by_ref = put (ref_key spec) spec registry.by_ref;
        paths = with_path path (ref_key spec) registry.paths;
      })
    ]

-- ref.split("/", 1), where it has two parts
unfoldable pub split_slash : String → Option (String × String)
split_slash no_text = none
split_slash (text_cons c s) =
    let rest = split_slash s in
    if code c == 47
    then some (no_text, s)
    else elim rest [ none ↦ none | some parts ↦ some (text_cons c parts.0, parts.1) ]

-- SpecRegistry._SINGULAR_TO_PLURAL
abbrev pub singular_to_plural : List (String × String)
singular_to_plural =
    ("action", "actions")
    ∷ ("event", "events")
    ∷ ("component", "components")
    ∷ ("protocol", "protocols")
    ∷ ("usecase", "use-cases")
    ∷ ("invariant", "invariants")
    ∷ []

-- The part of SpecRegistry.resolve_ref after a reference that is not there as it stands.
unfoldable pub resolve_singular : SpecRegistry → String → Option AnySpec
unfolding split_slash join_ref
resolve_singular registry ref = elim (split_slash ref) [
  | none ↦ none
  | some parts ↦ elim (get singular_to_plural parts.0) [
    | none ↦ none
    | some plural ↦ get registry.by_ref (join_ref plural parts.1)
  ]
]

-- SpecRegistry.resolve_ref
unfoldable pub resolve_ref : SpecRegistry → String → Option AnySpec
unfolding resolve_singular
resolve_ref registry ref = elim (get registry.by_ref ref) [
  | some spec ↦ some spec
  | none ↦ resolve_singular registry ref
]
