-- ===== src/Ir/Semantics/Typing.antt =====
-- Bindings of the documents that `validate_ir_semantics` accepts.
use ucf.Prelude.Dict.{get, get-map, get-map-contains}
use ucf.Prelude.{
  ◌≡◌, refl, sym, ap, ◌∙◌, ◌⊎◌, true, some, map, ok, string_eq, subst, some-injective, arith,
}
use ucf.Ir.Document.{
  ValueKind, null, Port, Direction, input, output, Step, Action, Binding, Entity, entity_id,
  step_entity, action_entity, use_case_entity, binding_entity, effect_entity, observation_entity,
  invariant_entity, provenance_entity, evidence_entity, capability_entity, BehaviorIr,
}
use ucf.Ir.Validation.{EntityIndex}
use ucf.Ir.Validation.Index.{indexed}
use ucf.Ir.Semantics.{is_input, is_step, action_ports, find_port, validate_ir_semantics}
use ucf.Ir.Semantics.Ports.{Offers}
use ucf.Ir.Semantics.Bindings.{Delivers, IsValidBinding}
use ucf.Ir.Semantics.WellFormed.{IsValidEntity, validate_ir_semantics-ok}

module _ (index : EntityIndex) where
  -- A step, its action and an input port of the action, found from the target of a binding, and a kind
  -- that its source delivers there: null or the port's.
  pub record IsTyped (b : Binding) : Type 0 where
    pub owner : Step
    pub runs : Action
    pub port : Port
    pub kind : ValueKind
    pub owner_found : get index b.target.owner.target_id ≡ some (step_entity owner)
    pub action_found : get index owner.action.target_id ≡ some (action_entity runs)
    pub port_found : find_port b.target.name runs.input_ports ≡ some port
    pub delivered : Delivers index b.source port kind
    pub fits : (kind ≡ null) ⊎ (kind ≡ port.value_kind)

  step_of : (e : Entity) → is_step e ≡ true → (s : Step) × (e ≡ step_entity s)
  step_of (step_entity s) e = (s, refl)
  step_of (action_entity s) e = absurd (ground arith)
  step_of (use_case_entity s) e = absurd (ground arith)
  step_of (binding_entity s) e = absurd (ground arith)
  step_of (effect_entity s) e = absurd (ground arith)
  step_of (observation_entity s) e = absurd (ground arith)
  step_of (invariant_entity s) e = absurd (ground arith)
  step_of (provenance_entity s) e = absurd (ground arith)
  step_of (evidence_entity s) e = absurd (ground arith)
  step_of (capability_entity s) e = absurd (ground arith)

  input_ports_of :
      (a : Action) (d : Direction) → is_input d ≡ true → action_ports a d ≡ a.input_ports
  input_ports_of a input e = refl
  input_ports_of a output e = absurd (ground arith)

  IsValidBinding-IsTyped : (b : Binding) → IsValidBinding index b → IsTyped b
  IsValidBinding-IsTyped b
        (
          owner,
          (
            resolved,
            (
              is,
              (
                into,
                (target, ((e, (named, (ports, (offered, found)))), (kind, (delivered, fits)))),
              ),
            ),
          ),
        ) =
      let (s, step) = step_of owner is in
      let same : e ≡ step_entity s =
        some-injective e (step_entity s) (sym named.found ∙ resolved.found ∙ ap some step) in
      let (a, (run, list)) =
        subst (λ (x : Entity). Offers index x b.target.direction ports) same offered in
      record {
        owner = s;
        runs = a;
        port = target;
        kind = kind;
        owner_found = resolved.found ∙ ap some step;
        action_found = run.found;
        port_found =
            ap (find_port b.target.name) (sym (input_ports_of a b.target.direction into) ∙ list)
            ∙ found;
        delivered = delivered;
        fits = fits;
      }

-- In an accepted document each binding goes to an input port of the action of a step, both of them in the
-- document, and its source delivers there either null or the kind of the port: a source port is a port
-- of an entity in the document, and a null value goes to no required port.
pub validate_ir_semantics-IsTyped :
    (document : BehaviorIr) (b : Binding)
    → validate_ir_semantics document ≡ ok tt
    → get (map indexed document.entities) b.id ≡ some (binding_entity b)
    → IsTyped (map indexed document.entities) b
validate_ir_semantics-IsTyped document b accepted here =
    let index = map indexed document.entities in
    let w = (validate_ir_semantics-ok document).0 accepted in
    let (e, found, named, valid) =
      get-map entity_id (λ e. e) (IsValidEntity index) document.entities b.id w.entities
        (get-map-contains entity_id (λ e. e) document.entities b.id (binding_entity b) here) in
    IsValidBinding-IsTyped index b
      (subst (IsValidEntity index) (some-injective e (binding_entity b) (sym found ∙ here)) valid).0
