-- ===== src/Specs/Sample.antt =====
-- Specifications of which some extend others, one of them through itself.
use ucf.Prelude.{String, true, Option, none, some, List, [], ◌∷◌, map}
use ucf.Specs.Models.{Metadata, StepDef, UseCaseSpec, AnySpec, usecase_spec, protocol_spec}

abbrev named : String → Metadata
named name = record {
  name = name;
  version = none;
  owner = none;
  actor = none;
  tags = [];
  severity = none;
  description = none;
}

abbrev step_named : String → StepDef
step_named id = record {
  id = id;
  uses = "actions/store";
  input = [];
  output = [];
  when = none;
  skip_if = none;
  depends_on = [];
  postcondition = none;
  retry = none;
}

abbrev use_case : String → Option String → List String → UseCaseSpec
use_case name extends ids = record {
  metadata = named name;
  extends = extends;
  trigger = none;
  input_from_event = [];
  requires = [];
  preconditions = "signed in" ∷ [];
  assumed_preconditions = [];
  steps = map step_named ids;
  alternative_flows = [];
  postconditions = [];
  terminal = true;
  invariants = [];
  concurrency = [];
}

abbrev pub base : UseCaseSpec
base = use_case "base" none ("open" ∷ "check" ∷ [])

abbrev pub middle : UseCaseSpec
middle = use_case "middle" (some "$ref:use-cases/base") ("write" ∷ [])

-- The singular of the kind is a reference too.
abbrev pub leaf : UseCaseSpec
leaf = use_case "leaf" (some "usecase/middle") ("close" ∷ [])

abbrev pub circular : UseCaseSpec
circular = use_case "circular" (some "use-cases/turn") []

abbrev turn : UseCaseSpec
turn = use_case "turn" (some "use-cases/circular") []

abbrev pub clashing : UseCaseSpec
clashing = use_case "clashing" (some "use-cases/middle") ("open" ∷ [])

abbrev pub storage : AnySpec
storage = protocol_spec (record {
  metadata = named "base";
  input = [];
  output = [];
  writes = [];
  guarantees = [];
  implementations = [];
})

abbrev pub entries : List (AnySpec × Option String)
entries =
    map (λ uc. (usecase_spec uc, some "specs"))
      (base ∷ middle ∷ leaf ∷ circular ∷ turn ∷ clashing ∷ [])
