-- ===== src/Ir/Validation/Refs.antt =====
-- What the reference checks of src/ucf/ir/validation.py accept.
use ucf.Prelude.Dict.{get}
use ucf.Prelude.{
  ℕ, suc, String, ◌≡◌, refl, sym, ap, >>-iff, ◌↔◌, inl, inr, true, false, Option, none, some, List,
  [], ◌∷◌, map, string_eq, pair_eq, contains, any, All, AreFresh-start, IsUnique, AreFresh,
  AreFresh-cons, contains-swap, Option-cases, ok, raise_if-ok, >>=-ok, arith,
}
use ucf.Ir.{EntityKind, entity_kind_eq}
use ucf.Ir.Document.{EntityRef, Entity, entity_kind, Port}
use ucf.Ir.Errors.{duplicate_reference, at_index, ir_error, IrLocation}
use ucf.Ir.Validation.{
  EntityIndex, is_expected, resolve_ref, check_ref, ref_identity, check_refs, validate_ref_sequence,
  is_required, any_required, require_semantic_capability, check_ports, validate_ports,
}

module _ (index : EntityIndex) where
  -- A reference to an entity of the document, of the kind it names and of a kind expected there.
  pub record ResolvesTo (expected : Option (List EntityKind)) (ref : EntityRef) (e : Entity)
      : Type 0 where
    pub found : get index ref.target_id ≡ some e
    pub of_kind : entity_kind e ≡ ref.target_kind
    pub is_allowed : is_expected expected (entity_kind e) ≡ true

  abbrev pub IsResolved : Option (List EntityKind) → EntityRef → Type 0
  IsResolved expected ref = (e : Entity) × ResolvesTo expected ref e

  pub resolve_ref-ok :
      (ref : EntityRef) (location : IrLocation) (expected : Option (List EntityKind)) (e : Entity)
      → (resolve_ref ref index location expected ≡ ok e) ↔ ResolvesTo expected ref e
  unfolding resolve_ref
  resolve_ref-ok ref location expected e = elim (Option-cases (get index ref.target_id)) [
    | inl missing ↦ (λ h. ground (arith, missing), λ r. ground (arith, missing, r.found))
    | inr (target, found) ↦
        let same = entity_kind_eq.beq_iff (entity_kind target) ref.target_kind in
        (
          λ h.
              let it : target ≡ e = ground (arith, found, same) in
              record {
                found = rw (sym it) found;
                of_kind = rw (sym it) (ground (arith, found, same));
                is_allowed = rw (sym it) (ground (arith, found, same));
              },
          λ r.
              let it : target ≡ e = ground (arith, found, r.found) in
              ground (arith, found, r.found, r.of_kind, r.is_allowed, same, ap entity_kind it),
        )
  ]

  pub check_ref-ok :
      (ref : EntityRef) (location : IrLocation) (expected : Option (List EntityKind))
      → (check_ref ref index location expected ≡ ok tt) ↔ IsResolved expected ref
  unfolding check_ref
  check_ref-ok ref location expected =
      let law = >>=-ok (resolve_ref ref index location expected) (λ _. ok tt) tt in
      (
        λ h. ((law.0 h).0, (resolve_ref-ok ref location expected (law.0 h).0).0 (law.0 h).1),
        λ (e, r). law.1 (e, (resolve_ref-ok ref location expected e).1 r, refl),
      )

  module _ (location : IrLocation) (expected : Option (List EntityKind)) where
    pub check_refs_unique-ok :
        (i : ℕ) (seen : List (EntityKind × String)) (refs : List EntityRef)
        → (check_refs index location expected true i seen refs ≡ ok tt)
          ↔ (All (IsResolved expected) refs × AreFresh (contains seen) (map ref_identity refs))
    unfolding check_refs
    check_refs_unique-ok i seen [] = (λ _. (tt, (tt, tt)), λ _. refl)
    check_refs_unique-ok i seen (ref ∷ refs) =
        let k = ref_identity ref in
        let rest = check_refs_unique-ok (suc i) (k ∷ seen) refs in
        let one = check_ref-ok ref (at_index location i) expected in
        let fresh =
          AreFresh-cons (contains seen) (contains (k ∷ seen)) k (contains-swap seen k)
            (map ref_identity refs) in
        let chain =
          >>-iff
            (>>-iff
              (raise_if-ok (contains seen k) (ir_error duplicate_reference (at_index location i)))
              one)
            rest in
        (
          λ h.
              let ((new, resolved), (all, others)) = chain.0 h in
              ((resolved, all), fresh.0 (new, others)),
          λ h. let (new, others) = fresh.1 h.1 in chain.1 ((new, h.0.0), (h.0.1, others)),
        )

    pub check_refs_any-ok :
        (i : ℕ) (seen : List (EntityKind × String)) (refs : List EntityRef)
        → (check_refs index location expected false i seen refs ≡ ok tt)
          ↔ All (IsResolved expected) refs
    unfolding check_refs
    check_refs_any-ok i seen [] = (λ _. tt, λ _. refl)
    check_refs_any-ok i seen (ref ∷ refs) =
        let rest = check_refs_any-ok (suc i) (ref_identity ref ∷ seen) refs in
        let one = check_ref-ok ref (at_index location i) expected in >>-iff one rest

  -- The references of a field that may repeat none.
  abbrev pub AreRefs : Option (List EntityKind) → List EntityRef → Type 0
  AreRefs expected refs = All (IsResolved expected) refs × IsUnique (map ref_identity refs)

  pub validate_ref_sequence-ok :
      (refs : List EntityRef) (location : IrLocation) (expected : Option (List EntityKind))
      → (validate_ref_sequence refs index location expected true ≡ ok tt) ↔ AreRefs expected refs
  unfolding validate_ref_sequence
  validate_ref_sequence-ok refs location expected =
      let law = check_refs_unique-ok location expected 0 [] refs in
      (
        λ h. ((law.0 h).0, (law.0 h).1.1),
        λ r. law.1 (r.0, AreFresh-start (map ref_identity refs) r.1),
      )

  pub validate_ref_sequence_any-ok :
      (refs : List EntityRef) (location : IrLocation) (expected : Option (List EntityKind))
      → (validate_ref_sequence refs index location expected false ≡ ok tt)
        ↔ All (IsResolved expected) refs
  unfolding validate_ref_sequence
  validate_ref_sequence_any-ok refs location expected =
      check_refs_any-ok location expected 0 [] refs

  -- A required capability among the references.
  abbrev pub HasRequired : List EntityRef → Type 0
  HasRequired refs =
      any
        (λ (ref : EntityRef). elim (get index ref.target_id) [
          | none ↦ false
          | some e ↦ is_required e
        ])
        refs
      ≡ true

  pub any_required_lem :
      (refs : List EntityRef) (expected : Option (List EntityKind))
      → All (IsResolved expected) refs
      → any_required index refs
        ≡ ok (
            any
              (λ (ref : EntityRef). elim (get index ref.target_id) [
                | none ↦ false
                | some e ↦ is_required e
              ])
              refs)
  unfolding any_required
  any_required_lem [] expected h = refl
  any_required_lem (ref ∷ refs) expected (here, rest) =
      let (e, r) = here in ground (arith, r.found, any_required_lem refs expected rest)

  pub require_semantic_capability-ok :
      (refs : List EntityRef) (location : IrLocation) (expected : Option (List EntityKind))
      → All (IsResolved expected) refs
      → (require_semantic_capability refs index location ≡ ok tt) ↔ HasRequired refs
  unfolding require_semantic_capability
  require_semantic_capability-ok refs location expected h =
      rw (any_required_lem refs expected h) (λ e. ground arith, λ e. ground arith)

abbrev pub AreDistinctPorts : List Port → Type 0
AreDistinctPorts ports = IsUnique (map (λ (p : Port). p.name) ports)

check_ports-ok :
    (location : IrLocation) (i : ℕ) (seen : List String) (ports : List Port)
    → (check_ports location i seen ports ≡ ok tt)
      ↔ AreFresh (contains seen) (map (λ (p : Port). p.name) ports)
unfolding check_ports
check_ports-ok location i seen [] = (λ _. (tt, tt), λ _. refl)
check_ports-ok location i seen (port ∷ ports) =
    let rest = check_ports-ok location (suc i) (port.name ∷ seen) ports in
    let fresh =
      AreFresh-cons (contains seen) (contains (port.name ∷ seen)) port.name
        (contains-swap seen port.name) (map (λ (p : Port). p.name) ports) in
    let chain = >>-iff (raise_if-ok (contains seen port.name) _) rest in
    (λ h. fresh.0 (chain.0 h), λ h. chain.1 (fresh.1 h))

pub validate_ports-ok :
    (ports : List Port) (location : IrLocation)
    → (validate_ports ports location ≡ ok tt) ↔ AreDistinctPorts ports
unfolding validate_ports
validate_ports-ok ports location =
    let law = check_ports-ok location 0 [] ports in
    (λ h. (law.0 h).1, λ u. law.1 (AreFresh-start (map (λ (p : Port). p.name) ports) u))
