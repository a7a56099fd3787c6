-- ===== src/Ir/Semantics/WellFormed.antt =====
-- The documents that `validate_ir_semantics` of src/ucf/ir/validation.py accepts.
use ucf.Prelude.{
  ℕ, true, ◌≡◌, refl, subst, ◌↔◌, Option, none, some, List, map, ok, All, >>=-iff, ◌>>◌, dropped-ok,
  >>-iff, >>-given_iff, for_each-ok,
}
use ucf.Ir.{
  EntityKind, use_case, step, binding, effect, observation, invariant, provenance,
  capability_requirement,
}
use ucf.Ir.Document.{
  EntityRef, Entity, action_entity, use_case_entity, step_entity, binding_entity, effect_entity,
  observation_entity, invariant_entity, provenance_entity, evidence_entity, capability_entity,
  Action, BehaviorIr,
}
use ucf.Ir.Errors.{IrLocation, root, at_field, at_index}
use ucf.Ir.Validation.{
  IrChecked, EntityIndex, check_ref, validate_ref_sequence, require_semantic_capability,
}
use ucf.Ir.Validation.Refs.{
  IsResolved, check_ref-ok, AreRefs, validate_ref_sequence-ok, validate_ref_sequence_any-ok,
  HasRequired, require_semantic_capability-ok, AreDistinctPorts, validate_ports-ok,
}
use ucf.Ir.Validation.Values.{IsValidValue, validate_value-ok}
use ucf.Ir.Validation.Index.{IsIndexable, indexed, build_index-ok}
use ucf.Ir.Semantics.{
  only, behaviors, check_entity, provenance_of, check_provenance, validate_entity,
  validate_ir_semantics,
}
use ucf.Ir.Semantics.Ports.{Runs, step_action-ok}
use ucf.Ir.Semantics.Bindings.{IsValidBinding, validate_binding-ok}

module _ (index : EntityIndex) where
  abbrev Refs : EntityKind → List EntityRef → Type 0
  Refs kind = AreRefs index (only kind)

  -- What the document asks of each kind of entity, its provenance left aside.
  abbrev pub IsValidContent : Entity → Type 0
  IsValidContent (action_entity e) =
      AreDistinctPorts e.input_ports
      × (AreDistinctPorts e.output_ports
          × (Refs effect e.effects × Refs capability_requirement e.requires))
  IsValidContent (use_case_entity e) =
      AreDistinctPorts e.input_ports
      × (AreDistinctPorts e.output_ports
          × (All (IsResolved index (only step)) e.steps
              × (Refs invariant e.invariants × Refs capability_requirement e.requires)))
  IsValidContent (step_entity e) =
      ((a : Action) × Runs index e a)
      × (Refs binding e.bindings
          × (Refs effect e.effects
              × (Refs observation e.observations × Refs capability_requirement e.requires)))
  IsValidContent (binding_entity e) = IsValidBinding index e
  IsValidContent (effect_entity e) =
      IsValidValue e.value × (Refs capability_requirement e.requires × HasRequired index e.requires)
  IsValidContent (observation_entity e) =
      IsResolved index behaviors e.subject × IsValidValue e.value
  IsValidContent (invariant_entity e) =
      AreRefs index behaviors e.applies_to
      × (Refs capability_requirement e.requires × HasRequired index e.requires)
  IsValidContent (provenance_entity e) = Unit
  IsValidContent (evidence_entity e) = AreRefs index none e.subjects
  IsValidContent (capability_entity e) = Unit

  abbrev pub HasProvenance : Entity → Type 0
  HasProvenance e = elim (provenance_of index e) [
    | none ↦ Unit {0}
    | some ref ↦ IsResolved index (only provenance) ref
  ]

  Refs-ok :
      (refs : List EntityRef) (location : IrLocation) (kind : EntityKind)
      → (validate_ref_sequence refs index location (only kind) true ≡ ok tt) ↔ Refs kind refs
  Refs-ok refs location kind = validate_ref_sequence-ok index refs location (only kind)

  required-ok :
      (refs : List EntityRef) (location : IrLocation)
      → ((validate_ref_sequence refs index location (only capability_requirement) true
            >> require_semantic_capability refs index location)
          ≡ ok tt)
        ↔ (Refs capability_requirement refs × HasRequired index refs)
  required-ok refs location =
      >>-given_iff (Refs-ok refs location capability_requirement)
        (λ r. require_semantic_capability-ok index refs location (only capability_requirement) r.0)

  check_entity-ok :
      (e : Entity) (location : IrLocation)
      → (check_entity index e location ≡ ok tt) ↔ IsValidContent e
  unfolding check_entity
  check_entity-ok (action_entity e) location =
      >>-iff (validate_ports-ok e.input_ports (at_field location "input_ports")) (
        >>-iff (validate_ports-ok e.output_ports (at_field location "output_ports")) (
          >>-iff (Refs-ok e.effects (at_field location "effects") effect)
            (Refs-ok e.requires (at_field location "requires") capability_requirement)))
  check_entity-ok (use_case_entity e) location =
      >>-iff (validate_ports-ok e.input_ports (at_field location "input_ports")) (
        >>-iff (validate_ports-ok e.output_ports (at_field location "output_ports")) (
          >>-iff
            (validate_ref_sequence_any-ok index e.steps (at_field location "steps") (only step))
            (>>-iff (Refs-ok e.invariants (at_field location "invariants") invariant)
              (Refs-ok e.requires (at_field location "requires") capability_requirement))))
  check_entity-ok (step_entity e) location =
      >>-iff (dropped-ok (step_action-ok index e (at_field location "action"))) (
        >>-iff (Refs-ok e.bindings (at_field location "bindings") binding) (
          >>-iff (Refs-ok e.effects (at_field location "effects") effect) (
            >>-iff (Refs-ok e.observations (at_field location "observations") observation)
              (Refs-ok e.requires (at_field location "requires") capability_requirement))))
  check_entity-ok (binding_entity e) location = validate_binding-ok index e location
  check_entity-ok (effect_entity e) location =
      >>-iff (validate_value-ok e.value (at_field location "value"))
        (required-ok e.requires (at_field location "requires"))
  check_entity-ok (observation_entity e) location =
      >>-iff (check_ref-ok index e.subject (at_field location "subject") behaviors)
        (validate_value-ok e.value (at_field location "value"))
  check_entity-ok (invariant_entity e) location =
      >>-iff
        (validate_ref_sequence-ok index e.applies_to (at_field location "applies_to") behaviors)
        (required-ok e.requires (at_field location "requires"))
  check_entity-ok (provenance_entity e) location = (λ _. tt, λ _. refl)
  check_entity-ok (evidence_entity e) location =
      validate_ref_sequence-ok index e.subjects (at_field location "subjects") none
  check_entity-ok (capability_entity e) location = (λ _. tt, λ _. refl)

  given-ok :
      (o : Option EntityRef) (location : IrLocation)
      → (elim o as (λ _. IrChecked) [
        | none ↦ ok tt
        | some ref ↦ check_ref ref index location (only provenance)
      ]
          ≡ ok tt)
        ↔ elim o [ none ↦ Unit {0} | some ref ↦ IsResolved index (only provenance) ref ]
  given-ok none location = (λ _. tt, λ _. refl)
  given-ok (some ref) location = check_ref-ok index ref location (only provenance)

  check_provenance-ok :
      (e : Entity) (location : IrLocation)
      → (check_provenance index e location ≡ ok tt) ↔ HasProvenance e
  unfolding check_provenance
  check_provenance-ok e location = given-ok (provenance_of index e) (at_field location "provenance")

  abbrev pub IsValidEntity : Entity → Type 0
  IsValidEntity e = IsValidContent e × HasProvenance e

  validate_entity-ok : (i : ℕ) (e : Entity) → (validate_entity index i e ≡ ok tt) ↔ IsValidEntity e
  unfolding validate_entity
  validate_entity-ok i e =
      let location = at_index (at_field root "entities") i in
      >>-iff (check_entity-ok e location) (check_provenance-ok e location)

-- A document in which no identifier or capability name repeats, its roots name use cases, and its entities
-- are valid among each other.
pub record IsWellFormed (document : BehaviorIr) : Type 0 where
  pub indexable : IsIndexable document
  pub roots : AreRefs (map indexed document.entities) (only use_case) document.roots
  pub entities : All (IsValidEntity (map indexed document.entities)) document.entities

-- The semantic check of a behavior document passes exactly on the well-formed documents.
pub validate_ir_semantics-ok :
    (document : BehaviorIr) → (validate_ir_semantics document ≡ ok tt) ↔ IsWellFormed document
unfolding validate_ir_semantics
validate_ir_semantics-ok document =
    let index = map indexed document.entities in
    let law = >>=-iff (build_index-ok document) (λ index built.
      >>-iff (Refs-ok index document.roots (at_field root "roots") use_case) (
        for_each-ok (IsValidEntity index) (validate_entity index) (validate_entity-ok index) 0
          document.entities)) in
    (
      λ h.
          let (found, ((indexable, built), (roots, entities))) = law.0 h in
          record {
            indexable = indexable;
            roots =
                subst (λ (i : EntityIndex). AreRefs i (only use_case) document.roots) built roots;
            entities =
                subst (λ (i : EntityIndex). All (IsValidEntity i) document.entities) built entities;
          },
      λ w. law.1 (index, ((w.indexable, refl), (w.roots, w.entities))),
    )
