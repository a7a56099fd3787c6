-- ===== src/Ir/Semantics/Bindings.antt =====
-- What `_validate_binding` of src/ucf/ir/validation.py accepts.
use ucf.Prelude.{
  ◌≡◌, ◌↔◌, ◌⊎◌, inl, inr, Bool, true, false, not, ◌&&◌, ◌==◌, ↔_trans, returns-ok, >>-then_iff, ok,
  raise_if, raise_if-ok, >>=-iff, Bool-cases, arith,
}
use ucf.Ir.{step}
use ucf.Ir.Document.{
  ValueKind, null, Port, value_kind_of, BindingSource, port_source, value_source, Binding, Entity,
}
use ucf.Ir.Errors.{IrLocation, IrFailure, at_field, invalid_binding, ir_error, assertion_error}
use ucf.Ir.Validation.{EntityIndex, value_kind_eq}
use ucf.Ir.Validation.Refs.{ResolvesTo, resolve_ref-ok}
use ucf.Ir.Validation.Values.{IsValidValue, validate_value-ok}
use ucf.Ir.Semantics.{
  only, port_owners, is_input, is_step, is_source, source_kind, validate_binding,
}
use ucf.Ir.Semantics.Ports.{Names, resolve_port-ok}

pub raise_unless-ok :
    (b : Bool) (failure : IrFailure) → (raise_if (not b) failure ≡ ok tt) ↔ (b ≡ true)
raise_unless-ok b failure = (λ h. ground arith, λ h. ground arith)

module _ (index : EntityIndex) where
  -- What a source delivers at a target: the kind of the use case's input or the step's output that it
  -- names, or that of a value, which is null only where the target is optional.
  abbrev pub Delivers : BindingSource → Port → ValueKind → Type 0
  Delivers (port_source source) target kind =
      (owner : Entity) × (ResolvesTo index port_owners source.owner owner
        × ((is_source owner source.direction ≡ true)
            × ((port : Port) × (Names index source port × (port.value_kind ≡ kind)))))
  Delivers (value_source value) target kind =
      IsValidValue value
      × (((value_kind_of value == null && target.required) ≡ false) × (value_kind_of value ≡ kind))

  source_kind-ok :
      (source : BindingSource) (target : Port) (location : IrLocation) (kind : ValueKind)
      → (source_kind source target index location ≡ ok kind) ↔ Delivers source target kind
  unfolding source_kind
  source_kind-ok (port_source source) target location kind =
      let at = at_field location "source" in
      >>=-iff (resolve_ref-ok index source.owner (at_field at "owner") port_owners) (λ e r.
        >>-then_iff
          (raise_unless-ok (is_source e source.direction)
            (ir_error invalid_binding (at_field at "direction")))
          (>>=-iff (resolve_port-ok index source at) (λ p n. returns-ok p.value_kind kind)))
  source_kind-ok (value_source value) target location kind =
      let at = at_field location "source" in
      >>-then_iff (validate_value-ok value at) (
        >>-then_iff
          (raise_if-ok (value_kind_of value == null && target.required)
            (ir_error invalid_binding at))
          (returns-ok (value_kind_of value) kind))

  -- A binding into an input of a step, whose source delivers the target's kind, or null.
  abbrev pub IsValidBinding : Binding → Type 0
  IsValidBinding b =
      (owner : Entity) × (ResolvesTo index (only step) b.target.owner owner
        × ((is_step owner ≡ true)
            × ((is_input b.target.direction ≡ true)
                × ((target : Port) × (Names index b.target target
                      × ((kind : ValueKind) × (Delivers b.source target kind
                            × ((kind ≡ null) ⊎ (kind ≡ target.value_kind)))))))))

  fits_iff :
      (kind target : ValueKind)
      → ((not (kind == null) && not (kind == target)) ≡ false) ↔ ((kind ≡ null) ⊎ (kind ≡ target))
  fits_iff kind target =
      let empty = value_kind_eq.beq_iff kind null in
      let same = value_kind_eq.beq_iff kind target in
      (
        λ h. elim (Bool-cases (kind == null)) [
          | inl e ↦ inl (empty.0 e)
          | inr e ↦ inr (same.0 (ground arith))
        ],
        λ h. elim h [ inl e ↦ ground (arith, empty.1 e) | inr e ↦ ground (arith, same.1 e) ],
      )

  pub validate_binding-ok :
      (b : Binding) (location : IrLocation)
      → (validate_binding b index location ≡ ok tt) ↔ IsValidBinding b
  unfolding validate_binding
  validate_binding-ok b location =
      let into = at_field location "target" in
      let from = at_field location "source" in
      >>=-iff (resolve_ref-ok index b.target.owner (at_field into "owner") (only step)) (λ e r.
        >>-then_iff (raise_unless-ok (is_step e) assertion_error) (
          >>-then_iff
            (raise_unless-ok (is_input b.target.direction)
              (ir_error invalid_binding (at_field into "direction")))
            (>>=-iff (resolve_port-ok index b.target into) (λ port n.
              >>=-iff (source_kind-ok b.source port location) (λ kind d.
                ↔_trans
                  (raise_if-ok (not (kind == null) && not (kind == port.value_kind))
                    (ir_error invalid_binding from))
                  (fits_iff kind port.value_kind))))))
