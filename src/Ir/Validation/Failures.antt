-- ===== src/Ir/Validation/Failures.antt =====
-- What the checks of src/ucf/ir/validation.py may raise.
use ucf.Prelude.Dict.{get, put}
use ucf.Prelude.{
  ℕ, suc, String, ◌≡◌, refl, Bool, true, false, not, Option, none, some, List, [], ◌∷◌, string_eq,
  pair_eq, Result, ok, err, ◌>>=◌, ◌>>◌, raise_if, for_each, All,
}
use ucf.Ir.{EntityKind, entity_kind_eq}
use ucf.Ir.Document.{
  EntityRef, Port, Entity, entity_id, BehaviorIr, IrValue, null_value, boolean_value, string_value,
  integer_value, decimal_value, timestamp_value, list_value, record_value, IrItems, no_items, item,
  RecordEntries, no_entries, entry,
}
use ucf.Ir.Errors.{
  duplicate_identity, duplicate_capability, duplicate_port, duplicate_reference, broken_reference,
  wrong_target_kind, missing_capability_requirement, IrErrorCode, IrLocation, at_field, at_index,
  IrFailure, ir_error,
}
use ucf.Ir.Validation.{
  EntityIndex, declare, index_entities, build_index, resolve_ref, check_ref, ref_identity,
  check_refs, validate_ref_sequence, any_required, require_semantic_capability, check_ports,
  validate_ports, validate_value, check_items, check_entries,
}
use ucf.Ir.Validation.Refs.{IsResolved, any_required_lem, validate_ref_sequence-ok}

-- A value, or an IRValidationError.
pub data RaisesIrError {A : Type 0} : Result IrFailure A → Type 0 where
  returns : (a : A) → RaisesIrError (ok a)
  raises :
      (code : IrErrorCode) (location : IrLocation) → RaisesIrError (err (ir_error code location))

pub >>=-RaisesIrError :
    {A : Type 0} {B : Type 0} {m : Result IrFailure A} {f : A → Result IrFailure B}
    → RaisesIrError m
    → ((a : A) → m ≡ ok a → RaisesIrError (f a))
    → RaisesIrError (m >>= f)
>>=-RaisesIrError (returns a) q = q a refl
>>=-RaisesIrError (raises code location) q = raises code location

pub >>-RaisesIrError :
    {B : Type 0} {m : Result IrFailure (Unit {0})} {k : Result IrFailure B}
    → RaisesIrError m
    → RaisesIrError k
    → RaisesIrError (m >> k)
>>-RaisesIrError p q = >>=-RaisesIrError p (λ _ e. q)

pub raise_if-RaisesIrError :
    (b : Bool) (code : IrErrorCode) (location : IrLocation)
    → RaisesIrError (raise_if b (ir_error code location))
raise_if-RaisesIrError true code location = raises code location
raise_if-RaisesIrError false code location = returns tt

pub for_each-RaisesIrError :
    {A : Type 0} (body : ℕ → A → Result IrFailure (Unit {0})) (i : ℕ) (xs : List A)
    → ((i : ℕ) (x : A) → RaisesIrError (body i x))
    → RaisesIrError (for_each body i xs)
for_each-RaisesIrError body i [] law = returns tt
for_each-RaisesIrError body i (x ∷ xs) law =
    >>-RaisesIrError (law i x) (for_each-RaisesIrError body (suc i) xs law)

pub found-RaisesIrError :
    {A B : Type 0} (o : Option A) (failure : Result IrFailure B) (found : A → Result IrFailure B)
    → RaisesIrError failure
    → ((a : A) → o ≡ some a → RaisesIrError (found a))
    → RaisesIrError (elim o as (λ _. Result IrFailure B) [ none ↦ failure | some a ↦ found a ])
found-RaisesIrError none failure found p q = p
found-RaisesIrError (some a) failure found p q = q a refl

module _ (index : EntityIndex) where
  pub resolve_ref-RaisesIrError :
      (ref : EntityRef) (location : IrLocation) (expected : Option (List EntityKind))
      → RaisesIrError (resolve_ref ref index location expected)
  unfolding resolve_ref
  resolve_ref-RaisesIrError ref location expected =
      found-RaisesIrError (get index ref.target_id) _ _ (raises broken_reference location) (λ e _.
        >>-RaisesIrError
          (>>-RaisesIrError (raise_if-RaisesIrError _ wrong_target_kind _)
            (raise_if-RaisesIrError _ wrong_target_kind _))
          (returns e))

  pub check_ref-RaisesIrError :
      (ref : EntityRef) (location : IrLocation) (expected : Option (List EntityKind))
      → RaisesIrError (check_ref ref index location expected)
  unfolding check_ref
  check_ref-RaisesIrError ref location expected =
      >>=-RaisesIrError (resolve_ref-RaisesIrError ref location expected) (λ e _. returns tt)

  check_refs-RaisesIrError :
      (location : IrLocation) (expected : Option (List EntityKind)) (unique : Bool) (i : ℕ)
      (seen : List (EntityKind × String)) (refs : List EntityRef)
      → RaisesIrError (check_refs index location expected unique i seen refs)
  unfolding check_refs
  check_refs-RaisesIrError location expected unique i seen [] = returns tt
  check_refs-RaisesIrError location expected unique i seen (ref ∷ refs) =
      >>-RaisesIrError
        (>>-RaisesIrError (raise_if-RaisesIrError _ duplicate_reference _)
          (check_ref-RaisesIrError ref _ expected))
        (check_refs-RaisesIrError location expected unique (suc i) (ref_identity ref ∷ seen) refs)

  pub refs-RaisesIrError :
      (refs : List EntityRef) (location : IrLocation) (expected : Option (List EntityKind))
      (unique : Bool)
      → RaisesIrError (validate_ref_sequence refs index location expected unique)
  unfolding validate_ref_sequence
  refs-RaisesIrError refs location expected unique =
      check_refs-RaisesIrError location expected unique 0 [] refs

  any_required-RaisesIrError :
      (refs : List EntityRef) (expected : Option (List EntityKind))
      → All (IsResolved index expected) refs
      → RaisesIrError (any_required index refs)
  any_required-RaisesIrError refs expected h =
      rw (any_required_lem index refs expected h) (returns _)

  -- Capabilities are looked up only once all references have resolved.
  pub required-RaisesIrError :
      (refs : List EntityRef) (location : IrLocation) (expected : Option (List EntityKind))
      → RaisesIrError (
          validate_ref_sequence refs index location expected true
          >> require_semantic_capability refs index location)
  unfolding require_semantic_capability
  required-RaisesIrError refs location expected =
      >>=-RaisesIrError (refs-RaisesIrError refs location expected true) (λ _ e.
        >>=-RaisesIrError
          (any_required-RaisesIrError refs expected
            ((validate_ref_sequence-ok index refs location expected).0 e).0)
          (λ b _. raise_if-RaisesIrError (not b) missing_capability_requirement location))

check_ports-RaisesIrError :
    (location : IrLocation) (i : ℕ) (seen : List String) (ports : List Port)
    → RaisesIrError (check_ports location i seen ports)
unfolding check_ports
check_ports-RaisesIrError location i seen [] = returns tt
check_ports-RaisesIrError location i seen (port ∷ ports) =
    >>-RaisesIrError (raise_if-RaisesIrError _ duplicate_port _)
      (check_ports-RaisesIrError location (suc i) (port.name ∷ seen) ports)

pub ports-RaisesIrError :
    (ports : List Port) (location : IrLocation) → RaisesIrError (validate_ports ports location)
unfolding validate_ports
ports-RaisesIrError ports location = check_ports-RaisesIrError location 0 [] ports

mutual
  unfolding validate_value

  value_raises :
      (value : IrValue) (location : IrLocation) → RaisesIrError (validate_value value location)
  value_raises null_value location = returns tt
  value_raises (boolean_value _) location = returns tt
  value_raises (string_value _) location = returns tt
  value_raises (integer_value _) location = returns tt
  value_raises (decimal_value _) location = returns tt
  value_raises (timestamp_value _) location = returns tt
  value_raises (list_value items) location = items_raise items (at_field location "items") 0
  value_raises (record_value entries) location =
      entries_raise entries (at_field location "entries") 0 []

  items_raise :
      (items : IrItems) (location : IrLocation) (i : ℕ)
      → RaisesIrError (check_items items location i)
  items_raise no_items location i = returns tt
  items_raise (item value items) location i =
      >>-RaisesIrError (value_raises value (at_index location i))
        (items_raise items location (suc i))

  entries_raise :
      (entries : RecordEntries) (location : IrLocation) (i : ℕ) (seen : List String)
      → RaisesIrError (check_entries entries location i seen)
  entries_raise no_entries location i seen = returns tt
  entries_raise (entry name value entries) location i seen =
      >>-RaisesIrError
        (>>-RaisesIrError (raise_if-RaisesIrError _ duplicate_identity _)
          (value_raises value (at_field (at_index location i) "value")))
        (entries_raise entries location (suc i) (name ∷ seen))

pub validate_value-RaisesIrError :
    (value : IrValue) (location : IrLocation) → RaisesIrError (validate_value value location)
unfolding value_raises
validate_value-RaisesIrError value location = value_raises value location

index_entities-RaisesIrError :
    (i : ℕ) (index : EntityIndex) (names : List (String × String)) (entities : List Entity)
    → RaisesIrError (index_entities i index names entities)
unfolding index_entities
index_entities-RaisesIrError i index names [] = returns index
index_entities-RaisesIrError i index names (entity ∷ entities) =
    >>-RaisesIrError
      (>>-RaisesIrError (raise_if-RaisesIrError _ duplicate_identity _)
        (raise_if-RaisesIrError _ duplicate_capability _))
      (index_entities-RaisesIrError (suc i) (put (entity_id entity) entity index)
        (declare names entity) entities)

pub build_index-RaisesIrError : (document : BehaviorIr) → RaisesIrError (build_index document)
unfolding build_index
build_index-RaisesIrError document = index_entities-RaisesIrError 0 [] [] document.entities
