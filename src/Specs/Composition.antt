-- ===== src/Specs/Composition.antt =====
-- src/ucf/composition.py
pub mod Parents
pub mod Lineage
pub mod Fuel
use Prim.Native.String.{[] as no_text, ◌∷◌ as text_cons}
use Prim.Native.Char.{Char, code}
use ucf.Prelude.Dict.{put}
use ucf.Prelude.{
  ℕ, zero, suc, String, ◌≡◌, Bool, true, false, not, ◌&&◌, ◌||◌, Option, none, some, List, [], ◌∷◌,
  ◌++◌, map, ◌==◌, nat_eq, string_eq, contains, any, filter, length, Result, ok, err, ◌>>=◌, ◌>>◌,
  raise_if, if◌then◌else◌, starts_with,
}
use ucf.Specs.Models.{
  AnySpec, usecase_spec, UseCaseSpec, StepDef, ComponentRequirement, InvariantBinding,
  ref_invariant, inline_invariant,
}
use ucf.Specs.Registry.{SpecRegistry, resolve_ref, join_ref}

pub data CompositionCode : Type 0 where
  parent_not_found circular_extends step_id_clash : CompositionCode

-- A CompositionError, its message left out, or a run that the fuel cuts off.
pub data CompositionFailure : Type 0 where
  composition_error : CompositionCode → CompositionFailure
  out_of_fuel : CompositionFailure

-- What is left after `skip` characters, without the marker wherever it starts.
abbrev pub remove_from : ℕ → String → String
remove_from skip no_text = no_text
remove_from (suc skip) (text_cons c s) = remove_from skip s
remove_from zero (text_cons c s) =
    let found = starts_with "$ref:" (text_cons c s) in
    let rest = remove_from (if found then 4 else 0) s in if found then rest else text_cons c rest

-- extends.replace("$ref:", "")
unfoldable pub parent_ref : String → String
parent_ref extends = remove_from 0 extends

-- The parent, where the reference resolves to a use case.
unfoldable pub find_parent : SpecRegistry → String → Result CompositionFailure UseCaseSpec
unfolding resolve_ref parent_ref
find_parent registry extends = elim (resolve_ref registry (parent_ref extends)) [
  | some (usecase_spec parent) ↦ ok parent
  | _ ↦ err (composition_error parent_not_found)
]

-- The parent's members, and those of the child whose key no member of the parent has.
abbrev pub merge {ℓ} : {A : Type ℓ} → (A → String) → List A → List A → List A
merge key parents children =
    parents ++ filter (λ x. not (contains (map key parents) (key x))) children

-- a or b, for texts that may be None
abbrev pub or_text : Option String → Option String → Option String
or_text none b = b
or_text (some s) b = if s == "" then b else some s

-- {**parent, **child}
abbrev pub merge_dicts : List (String × String) → List (String × String) → List (String × String)
merge_dicts parent [] = parent
merge_dicts parent ((k, v) ∷ child) = merge_dicts (put k v parent) child

-- invariant_reference
unfoldable pub invariant_reference : InvariantBinding → String
unfolding join_ref
invariant_reference (ref_invariant r) = r.ref
invariant_reference (inline_invariant i) = join_ref "invariants" i.metadata.name

abbrev pub step_ids : UseCaseSpec → List String
step_ids uc = map (λ (s : StepDef). s.id) uc.steps

-- UseCaseSpec(...) at the end of resolve_extends: the fields that the call does not give have their defaults.
unfoldable pub flatten : UseCaseSpec → UseCaseSpec → UseCaseSpec
unfolding invariant_reference
flatten parent uc = record {
  metadata = uc.metadata;
  extends = none;
  trigger = or_text uc.trigger parent.trigger;
  input_from_event = merge_dicts parent.input_from_event uc.input_from_event;
  requires = merge (λ (r : ComponentRequirement). r.ref) parent.requires uc.requires;
  preconditions = merge (λ p. p) parent.preconditions uc.preconditions;
  assumed_preconditions = [];
  steps = parent.steps ++ uc.steps;
  alternative_flows = parent.alternative_flows ++ uc.alternative_flows;
  postconditions = merge (λ p. p) parent.postconditions uc.postconditions;
  terminal = false;
  invariants = merge invariant_reference parent.invariants uc.invariants;
  concurrency = parent.concurrency ++ uc.concurrency;
}

-- The use case, the chain of names and the steps of the parent.
pub record Composed : Type 0 where
  pub flattened : UseCaseSpec
  pub extends_chain : List String
  pub parent_step_ids : List String

-- What resolve_extends does with a parent that it has resolved in turn.
unfoldable pub compose :
    UseCaseSpec → UseCaseSpec → List String → Result CompositionFailure Composed
unfolding flatten
compose uc parent chain =
    raise_if (any (contains (step_ids parent)) (step_ids uc)) (composition_error step_id_clash)
    >> ok (record {
      flattened = flatten parent uc;
      extends_chain = chain;
      parent_step_ids = step_ids parent;
    })

-- A use case that extends none.
abbrev pub root_result : UseCaseSpec → Composed
root_result uc = record {
  flattened = uc;
  extends_chain = uc.metadata.name ∷ [];
  parent_step_ids = [];
}

-- resolve_extends from its first look at `extends`; `above` is its own call for a parent that extends
-- another use case.
unfoldable pub resolve_parent :
    (List String → UseCaseSpec → Result CompositionFailure Composed)
    → SpecRegistry
    → List String
    → UseCaseSpec
    → String
    → Result CompositionFailure Composed
unfolding find_parent compose
resolve_parent above registry chain uc extends = do
  parent ← find_parent registry extends
  raise_if (contains chain parent.metadata.name) (composition_error circular_extends)
  let longer = chain ++ (parent.metadata.name ∷ [])
  elim parent.extends [
    | none ↦ compose uc parent longer
    | some _ ↦ above longer parent >>= λ (resolved : Composed).
        compose uc resolved.flattened resolved.extends_chain
  ]

-- resolve_extends with its chain, to which the calls append.
unfoldable pub resolve_from :
    ℕ → SpecRegistry → List String → UseCaseSpec → Result CompositionFailure Composed
unfolding resolve_parent
resolve_from zero registry chain uc = err out_of_fuel
resolve_from (suc fuel) registry chain uc = elim uc.extends [
  | none ↦ ok (root_result uc)
  | some extends ↦ resolve_parent (resolve_from fuel registry) registry chain uc extends
]

-- resolve_extends; the fuel is one more than the specs of the registry.
unfoldable pub resolve_extends : UseCaseSpec → SpecRegistry → Result CompositionFailure Composed
unfolding resolve_from
resolve_extends uc registry =
    resolve_from (suc (length registry.by_ref)) registry (uc.metadata.name ∷ []) uc
