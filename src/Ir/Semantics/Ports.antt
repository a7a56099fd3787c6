-- ===== src/Ir/Semantics/Ports.antt =====
-- What the port and binding checks of src/ucf/ir/validation.py accept.
use ucf.Prelude.{
  ◌≡◌, ap, ◌↔◌, ok_injective, returns-ok, raises-ok, that-one_iff, ↔_trans, Result, err, Option,
  none, some, List, ok, >>=-iff, arith,
}
use ucf.Ir.{action}
use ucf.Ir.Document.{
  Port, Direction, PortRef, Action, Step, Entity, action_entity, use_case_entity, step_entity,
  binding_entity, effect_entity, observation_entity, invariant_entity, provenance_entity,
  evidence_entity, capability_entity,
}
use ucf.Ir.Errors.{IrLocation, IrFailure, assertion_error, at_field, unknown_port, ir_error}
use ucf.Ir.Validation.{EntityIndex, value_kind_eq}
use ucf.Ir.Validation.Refs.{ResolvesTo, resolve_ref-ok}
use ucf.Ir.Semantics.{
  only, port_owners, step_action, action_ports, use_case_ports, find_port, owner_ports,
  resolve_port,
}

module _ (index : EntityIndex) where
  -- The action that a step runs.
  abbrev pub Runs : Step → Action → Type 0
  Runs s a = ResolvesTo index (only action) s.action (action_entity a)

  as_action :
      (e : Entity) (a : Action)
      → (elim e as (λ _. Result IrFailure Action) [
        | action_entity found ↦ ok found
        | _ ↦ err assertion_error
      ]
          ≡ ok a)
        ↔ (e ≡ action_entity a)
  as_action (action_entity e) a = (λ h. ap action_entity (ok_injective h), λ h. ap ok (cc))
  as_action (step_entity e) a = (λ h. absurd (ground arith), λ h. absurd (ground arith))
  as_action (use_case_entity e) a = (λ h. absurd (ground arith), λ h. absurd (ground arith))
  as_action (binding_entity e) a = (λ h. absurd (ground arith), λ h. absurd (ground arith))
  as_action (effect_entity e) a = (λ h. absurd (ground arith), λ h. absurd (ground arith))
  as_action (observation_entity e) a = (λ h. absurd (ground arith), λ h. absurd (ground arith))
  as_action (invariant_entity e) a = (λ h. absurd (ground arith), λ h. absurd (ground arith))
  as_action (provenance_entity e) a = (λ h. absurd (ground arith), λ h. absurd (ground arith))
  as_action (evidence_entity e) a = (λ h. absurd (ground arith), λ h. absurd (ground arith))
  as_action (capability_entity e) a = (λ h. absurd (ground arith), λ h. absurd (ground arith))

  pub step_action-ok :
      (s : Step) (location : IrLocation) (a : Action)
      → (step_action s index location ≡ ok a) ↔ Runs s a
  unfolding step_action
  step_action-ok s location a =
      ↔_trans
        (>>=-iff (resolve_ref-ok index s.action location (only action)) (λ e r. as_action e a))
        (that-one_iff (ResolvesTo index (only action) s.action) (action_entity a))

  -- The ports in a direction that an entity offers: a use case its own, a step those of its action.
  abbrev pub Offers : Entity → Direction → List Port → Type 0
  Offers (step_entity s) d ports = (a : Action) × (Runs s a × (action_ports a d ≡ ports))
  Offers (use_case_entity u) d ports = use_case_ports u d ≡ ports
  Offers _ d ports = ⊥

  owner_ports-ok :
      (ref : PortRef) (location : IrLocation) (e : Entity) (ports : List Port)
      → (owner_ports ref index location e ≡ ok ports) ↔ Offers e ref.direction ports
  unfolding owner_ports
  owner_ports-ok ref location (step_entity s) ports =
      >>=-iff (step_action-ok s (at_field (at_field location "owner") "action"))
        (λ a r. returns-ok (action_ports a ref.direction) ports)
  owner_ports-ok ref location (use_case_entity u) ports =
      returns-ok (use_case_ports u ref.direction) ports
  owner_ports-ok ref location (action_entity e) ports = raises-ok assertion_error ports
  owner_ports-ok ref location (binding_entity e) ports = raises-ok assertion_error ports
  owner_ports-ok ref location (effect_entity e) ports = raises-ok assertion_error ports
  owner_ports-ok ref location (observation_entity e) ports = raises-ok assertion_error ports
  owner_ports-ok ref location (invariant_entity e) ports = raises-ok assertion_error ports
  owner_ports-ok ref location (provenance_entity e) ports = raises-ok assertion_error ports
  owner_ports-ok ref location (evidence_entity e) ports = raises-ok assertion_error ports
  owner_ports-ok ref location (capability_entity e) ports = raises-ok assertion_error ports

  -- The port that a reference names: the first with its name among those of its owner in its direction.
  abbrev pub Names : PortRef → Port → Type 0
  Names ref port =
      (e : Entity) × (ResolvesTo index port_owners ref.owner e
        × ((ports : List Port) × (Offers e ref.direction ports
              × (find_port ref.name ports ≡ some port))))

  found-ok :
      (o : Option Port) (failure : IrFailure) (port : Port)
      → (elim o as (λ _. Result IrFailure Port) [ none ↦ err failure | some p ↦ ok p ] ≡ ok port)
        ↔ (o ≡ some port)
  found-ok none failure port = (λ h. absurd (ground arith), λ h. absurd (ground arith))
  found-ok (some p) failure port = (λ h. ap some (ok_injective h), λ h. ap ok (cc))

  pub resolve_port-ok :
      (ref : PortRef) (location : IrLocation) (port : Port)
      → (resolve_port ref index location ≡ ok port) ↔ Names ref port
  unfolding resolve_port
  resolve_port-ok ref location port =
      >>=-iff (resolve_ref-ok index ref.owner (at_field location "owner") port_owners) (λ e r.
        >>=-iff (owner_ports-ok ref location e) (λ ports o.
          found-ok (find_port ref.name ports) (ir_error unknown_port (at_field location "name"))
            port))
