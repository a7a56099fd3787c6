-- ===== src/Ir/Semantics/Failures.antt =====
-- What `validate_ir_semantics` of src/ucf/ir/validation.py may raise.
use ucf.Prelude.{
  ◌≡◌, ◌⊎◌, inl, inr, Bool-cases, true, false, not, none, List, Result, ok, err, ◌==◌, raise_if,
  arith,
}
use ucf.Ir.{
  entity_kind_eq, EntityKind, action, use_case, step, binding, effect, observation, invariant,
  provenance, capability_requirement,
}
use ucf.Ir.Document.{
  entity_kind, EntityRef, Port, PortRef, Action, value_kind_of, Step, Binding, BindingSource,
  port_source, value_source, Entity, action_entity, use_case_entity, step_entity, binding_entity,
  effect_entity, observation_entity, invariant_entity, provenance_entity, evidence_entity,
  capability_entity, BehaviorIr,
}
use ucf.Ir.Errors.{unknown_port, invalid_binding, IrLocation, at_field, IrFailure, assertion_error}
use ucf.Ir.Validation.{EntityIndex, value_kind_eq, is_expected, validate_ref_sequence}
use ucf.Ir.Validation.Refs.{ResolvesTo, resolve_ref-ok}
use ucf.Ir.Validation.Failures.{
  RaisesIrError, returns, raises, >>=-RaisesIrError, >>-RaisesIrError, raise_if-RaisesIrError,
  for_each-RaisesIrError, found-RaisesIrError, resolve_ref-RaisesIrError, check_ref-RaisesIrError,
  refs-RaisesIrError, required-RaisesIrError, ports-RaisesIrError, validate_value-RaisesIrError,
  build_index-RaisesIrError,
}
use ucf.Ir.Semantics.{
  only, port_owners, behaviors, step_action, owner_ports, find_port, resolve_port, is_step,
  source_kind, validate_binding, check_entity, provenance_of, check_provenance, validate_entity,
  validate_ir_semantics,
}

only_lem : (kind k : EntityKind) → is_expected (only k) kind ≡ true → kind ≡ k
only_lem kind k e = ground (arith, entity_kind_eq.beq_iff kind k)

port_owners_lem :
    (kind : EntityKind) → is_expected port_owners kind ≡ true → (kind ≡ use_case) ⊎ (kind ≡ step)
port_owners_lem kind e = elim (Bool-cases (kind == use_case)) [
  | inl same ↦ inl ((entity_kind_eq.beq_iff kind use_case).0 same)
  | inr other ↦ inr (ground (arith, entity_kind_eq.beq_iff kind step))
]

module _ (index : EntityIndex) where
  -- An entity that resolves as an action is one, so that the assertion holds.
  pub step_action-RaisesIrError :
      (s : Step) (location : IrLocation) → RaisesIrError (step_action s index location)
  unfolding step_action
  step_action-RaisesIrError s location =
      >>=-RaisesIrError (resolve_ref-RaisesIrError index s.action location (only action))
        (λ e found. is_action e ((resolve_ref-ok index s.action location (only action) e).0 found))
    where
      is_action :
          (e : Entity)
          → ResolvesTo index (only action) s.action e
          → RaisesIrError (elim e as (λ _. Result IrFailure Action) [
            | action_entity found ↦ ok found
            | _ ↦ err assertion_error
          ])
      is_action (action_entity e) r = returns e
      is_action (use_case_entity e) r =
          absurd (ground (arith, only_lem (entity_kind (use_case_entity e)) action r.is_allowed))
      is_action (step_entity e) r =
          absurd (ground (arith, only_lem (entity_kind (step_entity e)) action r.is_allowed))
      is_action (binding_entity e) r =
          absurd (ground (arith, only_lem (entity_kind (binding_entity e)) action r.is_allowed))
      is_action (effect_entity e) r =
          absurd (ground (arith, only_lem (entity_kind (effect_entity e)) action r.is_allowed))
      is_action (observation_entity e) r =
          absurd (ground (arith, only_lem (entity_kind (observation_entity e)) action r.is_allowed))
      is_action (invariant_entity e) r =
          absurd (ground (arith, only_lem (entity_kind (invariant_entity e)) action r.is_allowed))
      is_action (provenance_entity e) r =
          absurd (ground (arith, only_lem (entity_kind (provenance_entity e)) action r.is_allowed))
      is_action (evidence_entity e) r =
          absurd (ground (arith, only_lem (entity_kind (evidence_entity e)) action r.is_allowed))
      is_action (capability_entity e) r =
          absurd (ground (arith, only_lem (entity_kind (capability_entity e)) action r.is_allowed))

  owner_ports-RaisesIrError :
      (ref : PortRef) (location : IrLocation) (e : Entity)
      → ResolvesTo index port_owners ref.owner e
      → RaisesIrError (owner_ports ref index location e)
  unfolding owner_ports
  owner_ports-RaisesIrError ref location (step_entity s) r =
      >>=-RaisesIrError
        (step_action-RaisesIrError s (at_field (at_field location "owner") "action"))
        (λ a _. returns _)
  owner_ports-RaisesIrError ref location (use_case_entity u) r = returns _
  owner_ports-RaisesIrError ref location (action_entity e) r =
      absurd (ground (arith, port_owners_lem (entity_kind (action_entity e)) r.is_allowed))
  owner_ports-RaisesIrError ref location (binding_entity e) r =
      absurd (ground (arith, port_owners_lem (entity_kind (binding_entity e)) r.is_allowed))
  owner_ports-RaisesIrError ref location (effect_entity e) r =
      absurd (ground (arith, port_owners_lem (entity_kind (effect_entity e)) r.is_allowed))
  owner_ports-RaisesIrError ref location (observation_entity e) r =
      absurd (ground (arith, port_owners_lem (entity_kind (observation_entity e)) r.is_allowed))
  owner_ports-RaisesIrError ref location (invariant_entity e) r =
      absurd (ground (arith, port_owners_lem (entity_kind (invariant_entity e)) r.is_allowed))
  owner_ports-RaisesIrError ref location (provenance_entity e) r =
      absurd (ground (arith, port_owners_lem (entity_kind (provenance_entity e)) r.is_allowed))
  owner_ports-RaisesIrError ref location (evidence_entity e) r =
      absurd (ground (arith, port_owners_lem (entity_kind (evidence_entity e)) r.is_allowed))
  owner_ports-RaisesIrError ref location (capability_entity e) r =
      absurd (ground (arith, port_owners_lem (entity_kind (capability_entity e)) r.is_allowed))

  resolve_port-RaisesIrError :
      (ref : PortRef) (location : IrLocation) → RaisesIrError (resolve_port ref index location)
  unfolding resolve_port
  resolve_port-RaisesIrError ref location =
      let at = at_field location "owner" in
      >>=-RaisesIrError (resolve_ref-RaisesIrError index ref.owner at port_owners) (λ e found.
        >>=-RaisesIrError
          (owner_ports-RaisesIrError ref location e
            ((resolve_ref-ok index ref.owner at port_owners e).0 found))
          (λ ports _.
            found-RaisesIrError (find_port ref.name ports) _ _
              (raises unknown_port (at_field location "name")) (λ p _. returns p)))

  source_kind-RaisesIrError :
      (source : BindingSource) (target : Port) (location : IrLocation)
      → RaisesIrError (source_kind source target index location)
  unfolding source_kind
  source_kind-RaisesIrError (port_source source) target location =
      >>=-RaisesIrError (resolve_ref-RaisesIrError index source.owner _ port_owners) (λ e _.
        >>-RaisesIrError (raise_if-RaisesIrError _ invalid_binding _) (
          >>=-RaisesIrError (resolve_port-RaisesIrError source (at_field location "source"))
            (λ p _. returns p.value_kind)))
  source_kind-RaisesIrError (value_source value) target location =
      >>-RaisesIrError (validate_value-RaisesIrError value (at_field location "source")) (
        >>-RaisesIrError (raise_if-RaisesIrError _ invalid_binding _)
          (returns (value_kind_of value)))

  owner-RaisesIrError :
      (ref : EntityRef) (e : Entity)
      → ResolvesTo index (only step) ref e
      → RaisesIrError (raise_if (not (is_step e)) assertion_error)
  owner-RaisesIrError ref (step_entity s) r = returns tt
  owner-RaisesIrError ref (use_case_entity u) r =
      absurd (ground (arith, only_lem (entity_kind (use_case_entity u)) step r.is_allowed))
  owner-RaisesIrError ref (action_entity e) r =
      absurd (ground (arith, only_lem (entity_kind (action_entity e)) step r.is_allowed))
  owner-RaisesIrError ref (binding_entity e) r =
      absurd (ground (arith, only_lem (entity_kind (binding_entity e)) step r.is_allowed))
  owner-RaisesIrError ref (effect_entity e) r =
      absurd (ground (arith, only_lem (entity_kind (effect_entity e)) step r.is_allowed))
  owner-RaisesIrError ref (observation_entity e) r =
      absurd (ground (arith, only_lem (entity_kind (observation_entity e)) step r.is_allowed))
  owner-RaisesIrError ref (invariant_entity e) r =
      absurd (ground (arith, only_lem (entity_kind (invariant_entity e)) step r.is_allowed))
  owner-RaisesIrError ref (provenance_entity e) r =
      absurd (ground (arith, only_lem (entity_kind (provenance_entity e)) step r.is_allowed))
  owner-RaisesIrError ref (evidence_entity e) r =
      absurd (ground (arith, only_lem (entity_kind (evidence_entity e)) step r.is_allowed))
  owner-RaisesIrError ref (capability_entity e) r =
      absurd (ground (arith, only_lem (entity_kind (capability_entity e)) step r.is_allowed))

  binding-RaisesIrError :
      (b : Binding) (location : IrLocation) → RaisesIrError (validate_binding b index location)
  unfolding validate_binding
  binding-RaisesIrError b location =
      let at = at_field (at_field location "target") "owner" in
      >>=-RaisesIrError (resolve_ref-RaisesIrError index b.target.owner at (only step)) (λ e found.
        >>-RaisesIrError
          (owner-RaisesIrError b.target.owner e
            ((resolve_ref-ok index b.target.owner at (only step) e).0 found))
          (>>-RaisesIrError (raise_if-RaisesIrError _ invalid_binding _) (
            >>=-RaisesIrError (resolve_port-RaisesIrError b.target (at_field location "target"))
              (λ target _.
                >>=-RaisesIrError (source_kind-RaisesIrError b.source target location)
                  (λ kind _. raise_if-RaisesIrError _ invalid_binding _)))))

  refs-raise :
      (refs : List EntityRef) (location : IrLocation) (kind : EntityKind)
      → RaisesIrError (validate_ref_sequence refs index location (only kind) true)
  refs-raise refs location kind = refs-RaisesIrError index refs location (only kind) true

  entity-RaisesIrError :
      (e : Entity) (location : IrLocation) → RaisesIrError (check_entity index e location)
  unfolding check_entity
  entity-RaisesIrError (action_entity e) location =
      >>-RaisesIrError (ports-RaisesIrError e.input_ports _) (
        >>-RaisesIrError (ports-RaisesIrError e.output_ports _) (
          >>-RaisesIrError (refs-raise e.effects _ effect)
            (refs-raise e.requires _ capability_requirement)))
  entity-RaisesIrError (use_case_entity e) location =
      >>-RaisesIrError (ports-RaisesIrError e.input_ports _) (
        >>-RaisesIrError (ports-RaisesIrError e.output_ports _) (
          >>-RaisesIrError (refs-RaisesIrError index e.steps _ (only step) false) (
            >>-RaisesIrError (refs-raise e.invariants _ invariant)
              (refs-raise e.requires _ capability_requirement))))
  entity-RaisesIrError (step_entity e) location =
      >>-RaisesIrError (>>=-RaisesIrError (step_action-RaisesIrError e _) (λ a _. returns tt)) (
        >>-RaisesIrError (refs-raise e.bindings _ binding) (
          >>-RaisesIrError (refs-raise e.effects _ effect) (
            >>-RaisesIrError (refs-raise e.observations _ observation)
              (refs-raise e.requires _ capability_requirement))))
  entity-RaisesIrError (binding_entity e) location = binding-RaisesIrError e location
  entity-RaisesIrError (effect_entity e) location =
      >>-RaisesIrError (validate_value-RaisesIrError e.value _)
        (required-RaisesIrError index e.requires _ (only capability_requirement))
  entity-RaisesIrError (observation_entity e) location =
      >>-RaisesIrError (check_ref-RaisesIrError index e.subject _ behaviors)
        (validate_value-RaisesIrError e.value _)
  entity-RaisesIrError (invariant_entity e) location =
      >>-RaisesIrError (refs-RaisesIrError index e.applies_to _ behaviors true)
        (required-RaisesIrError index e.requires _ (only capability_requirement))
  entity-RaisesIrError (provenance_entity e) location = returns tt
  entity-RaisesIrError (evidence_entity e) location =
      refs-RaisesIrError index e.subjects _ none true
  entity-RaisesIrError (capability_entity e) location = returns tt

  provenance-RaisesIrError :
      (e : Entity) (location : IrLocation) → RaisesIrError (check_provenance index e location)
  unfolding check_provenance
  provenance-RaisesIrError e location =
      found-RaisesIrError (provenance_of index e) _ _ (returns tt)
        (λ ref _. check_ref-RaisesIrError index ref _ (only provenance))

-- The semantic check of any document returns or raises an IRValidationError: its lookups by identifier
-- never miss, and none of its assertions fails.
pub validate_ir_semantics-RaisesIrError :
    (document : BehaviorIr) → RaisesIrError (validate_ir_semantics document)
unfolding validate_ir_semantics validate_entity
validate_ir_semantics-RaisesIrError document =
    >>=-RaisesIrError (build_index-RaisesIrError document) (λ index _.
      >>-RaisesIrError (refs-raise index document.roots _ use_case) (
        for_each-RaisesIrError (validate_entity index) 0 document.entities (λ i e.
          >>-RaisesIrError (entity-RaisesIrError index e _) (provenance-RaisesIrError index e _))))
