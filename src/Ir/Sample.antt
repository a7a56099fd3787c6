-- ===== src/Ir/Sample.antt =====
-- A small behavior document, and the same with a reference to what is not there.
use ucf.Prelude.{String, true, List, [], ◌∷◌}
use ucf.Ir.{
  EntityKind, action, use_case, step, binding, effect, observation, invariant, provenance,
  capability_requirement, Digest,
}
use ucf.Ir.Document.{
  string, string_value, list_value, item, no_items, record_value, entry, no_entries, null_value,
  EntityRef, Port, input, DomainTarget, Action, Step, port_source, Binding, Effect, Observation,
  Invariant, Provenance, CapabilityRequirement, passed, VerificationEvidence, action_entity,
  use_case_entity, step_entity, binding_entity, effect_entity, observation_entity, invariant_entity,
  provenance_entity, evidence_entity, capability_entity, BehaviorIr,
}

abbrev ref : EntityKind → String → EntityRef
ref kind id = record { target_kind = kind; target_id = id }

abbrev digest : Digest
digest = record { value = "00" }

abbrev by : EntityRef
by = ref provenance "prov"

abbrev link : Port
link = record { name = "link"; value_kind = string; required = true }

abbrev target : DomainTarget
target = record { subject = "links"; path = "slug" ∷ [] }

abbrev origin : Provenance
origin = record {
  id = "prov";
  source = record { uri = "file:shortener"; revision = digest };
  producer = record { name = "ucf"; version = "1.0.0" };
  captured_at = "2026-01-01T00:00:00Z";
}

abbrev store : CapabilityRequirement
store = record {
  id = "cap";
  name = "storage";
  minimum_version = "1.2.0";
  required = true;
  provenance = by;
}

abbrev saved : Effect
saved = record {
  id = "eff";
  operation = "insert";
  target = target;
  value = record_value (
      entry "slug" (string_value "abc")
        (entry "tags" (list_value (item null_value no_items)) no_entries));
  requires = ref capability_requirement "cap" ∷ [];
  provenance = by;
}

abbrev shorten : Action
shorten = record {
  id = "act";
  input_ports = link ∷ [];
  output_ports = [];
  effects = ref effect "eff" ∷ [];
  requires = ref capability_requirement "cap" ∷ [];
  provenance = by;
}

abbrev main_step : Step
main_step = record {
  id = "step";
  action = ref action "act";
  bindings = ref binding "bind" ∷ [];
  effects = [];
  observations = ref observation "obs" ∷ [];
  requires = [];
  provenance = by;
}

abbrev pub bound : Binding
bound = record {
  id = "bind";
  target = record { owner = ref step "step"; direction = input; name = "link" };
  source = port_source (record { owner = ref use_case "uc"; direction = input; name = "link" });
  provenance = by;
}

abbrev seen : Observation
seen = record {
  id = "obs";
  subject = ref step "step";
  target = target;
  value = string_value "abc";
  provenance = by;
}

abbrev kept : Invariant
kept = record {
  id = "inv";
  applies_to = ref action "act" ∷ ref use_case "uc" ∷ [];
  condition = record { dialect = "text"; statement = "one link for each slug" };
  requires = ref capability_requirement "cap" ∷ [];
  provenance = by;
}

abbrev tested : VerificationEvidence
tested = record {
  id = "ev";
  subjects = ref invariant "inv" ∷ [];
  check = record { id = "check"; version = "1.0.0"; procedure_uri = "file:check" };
  outcome = passed;
  executed_at = "2026-01-01T00:00:00Z";
  source_revision = digest;
  environment = digest;
  provenance = by;
}

abbrev with_steps : List EntityRef → BehaviorIr
with_steps steps = record {
  document_id = "doc";
  roots = ref use_case "uc" ∷ [];
  entities =
      use_case_entity (record {
        id = "uc";
        input_ports = link ∷ [];
        output_ports = [];
        steps = steps;
        invariants = ref invariant "inv" ∷ [];
        requires = [];
        provenance = by;
      })
      ∷ action_entity shorten
      ∷ step_entity main_step
      ∷ binding_entity bound
      ∷ effect_entity saved
      ∷ observation_entity seen
      ∷ invariant_entity kept
      ∷ provenance_entity origin
      ∷ evidence_entity tested
      ∷ capability_entity store
      ∷ [];
}

abbrev pub document : BehaviorIr
document = with_steps (ref step "step" ∷ ref step "step" ∷ [])

abbrev pub broken_document : BehaviorIr
broken_document = with_steps (ref step "missing" ∷ [])
