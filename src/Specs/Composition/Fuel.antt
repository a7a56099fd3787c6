-- ===== src/Specs/Composition/Fuel.antt =====
-- `resolve_extends` of src/ucf/composition.py ends: no chain is longer than the registry.
use ucf.Prelude.Dict.{get, get-contains}
use ucf.Prelude.{
  ℕ, zero, suc, ◌+◌, ◌≤◌, String, ◌≡◌, refl, ap, Bool, true, false, Option, none, some, List, [],
  ◌∷◌, ◌++◌, map, contains, IsUnique, IsUnique-last, All, All-append, length, length-append,
  length-map, length-le_of_subset, any, Option-cases, string_eq, Result, ok, err, ◌>>=◌, raise_if,
  raise_if-ok, ok_injective, inl, inr, arith,
}
use ucf.Specs.Models.{
  AnySpec, action_spec, event_spec, component_spec, protocol_spec, usecase_spec, invariant_spec,
  UseCaseSpec,
}
use ucf.Specs.Registry.{
  SpecRegistry, spec_name, join_ref, resolve_ref, split_slash, singular_to_plural,
}
use ucf.Specs.Composition.{
  CompositionCode, circular_extends, parent_not_found, step_id_clash, CompositionFailure,
  composition_error, parent_ref, find_parent, step_ids, Composed, compose, root_result,
  resolve_parent, resolve_from, resolve_extends,
}
use ucf.Specs.Composition.Parents.{name_of, resolve_from-root, resolve_from-child}

-- A value, or a CompositionError.
pub data IsDone {A : Type 0} : Result CompositionFailure A → Type 0 where
  composes : (a : A) → IsDone (ok a)
  refuses : (code : CompositionCode) → IsDone (err (composition_error code))

>>=-IsDone :
    {A B : Type 0} {m : Result CompositionFailure A} {f : A → Result CompositionFailure B}
    → IsDone m
    → ((a : A) → m ≡ ok a → IsDone (f a))
    → IsDone (m >>= f)
>>=-IsDone (composes a) q = q a refl
>>=-IsDone (refuses code) q = refuses code

raise_if-IsDone : (b : Bool) (code : CompositionCode) → IsDone (raise_if b (composition_error code))
raise_if-IsDone true code = refuses code
raise_if-IsDone false code = composes tt

compose-IsDone : (uc parent : UseCaseSpec) (chain : List String) → IsDone (compose uc parent chain)
unfolding compose
compose-IsDone uc parent chain =
    >>=-IsDone (raise_if-IsDone (any (contains (step_ids parent)) (step_ids uc)) step_id_clash)
      (λ _ _. composes _)

-- The specs of the registry, by name.
abbrev spec_names : SpecRegistry → List String
spec_names r = map (λ (e : String × AnySpec). spec_name e.1) r.by_ref

resolve_ref-found :
    (r : SpecRegistry) (ref : String) (s : AnySpec)
    → resolve_ref r ref ≡ some s
    → contains (spec_names r) (spec_name s) ≡ true
unfolding resolve_ref
resolve_ref-found r ref s e = elim (Option-cases (get r.by_ref ref)) [
  | inr (t, found) ↦ get-contains spec_name r.by_ref ref s (ground (arith, found, e))
  | inl missing ↦ elim (Option-cases (split_slash ref)) [
    | inl whole ↦ absurd (ground (arith, missing, whole, e))
    | inr (parts, split) ↦ elim (Option-cases (get singular_to_plural parts.0)) [
      | inl unknown ↦ absurd (ground (arith, missing, split, unknown, e))
      | inr (plural, known) ↦
          get-contains spec_name r.by_ref (join_ref plural parts.1) s
            (ground (arith, missing, split, known, e))
    ]
  ]
]

as_use_case :
    (o : Option AnySpec) (p : UseCaseSpec)
    → elim o as (λ _. Result CompositionFailure UseCaseSpec) [
      | some (usecase_spec parent) ↦ ok parent
      | _ ↦ err (composition_error parent_not_found)
    ]
      ≡ ok p
    → o ≡ some (usecase_spec p)
as_use_case none p e = absurd (ground arith)
as_use_case (some (usecase_spec u)) p e =
    ap (λ (v : UseCaseSpec). some (usecase_spec v)) (ok_injective e)
as_use_case (some (action_spec u)) p e = absurd (ground arith)
as_use_case (some (event_spec u)) p e = absurd (ground arith)
as_use_case (some (component_spec u)) p e = absurd (ground arith)
as_use_case (some (protocol_spec u)) p e = absurd (ground arith)
as_use_case (some (invariant_spec u)) p e = absurd (ground arith)

use_case-IsDone :
    (o : Option AnySpec)
    → IsDone (elim o as (λ _. Result CompositionFailure UseCaseSpec) [
      | some (usecase_spec parent) ↦ ok parent
      | _ ↦ err (composition_error parent_not_found)
    ])
use_case-IsDone none = refuses parent_not_found
use_case-IsDone (some (usecase_spec u)) = composes u
use_case-IsDone (some (action_spec u)) = refuses parent_not_found
use_case-IsDone (some (event_spec u)) = refuses parent_not_found
use_case-IsDone (some (component_spec u)) = refuses parent_not_found
use_case-IsDone (some (protocol_spec u)) = refuses parent_not_found
use_case-IsDone (some (invariant_spec u)) = refuses parent_not_found

find_parent-found :
    (r : SpecRegistry) (ref : String) (p : UseCaseSpec)
    → find_parent r ref ≡ ok p
    → contains (spec_names r) (name_of p) ≡ true
unfolding find_parent
find_parent-found r ref p e =
    resolve_ref-found r (parent_ref ref) (usecase_spec p)
      (as_use_case (resolve_ref r (parent_ref ref)) p e)

find_parent-IsDone : (r : SpecRegistry) (ref : String) → IsDone (find_parent r ref)
unfolding find_parent
find_parent-IsDone r ref = use_case-IsDone (resolve_ref r (parent_ref ref))

either-IsDone :
    (o : Option String) (here there : Result CompositionFailure Composed)
    → IsDone here
    → IsDone there
    → IsDone (elim o as (λ _. Result CompositionFailure Composed) [ none ↦ here | some _ ↦ there ])
either-IsDone none here there p q = p
either-IsDone (some x) here there p q = q

module _ (above : List String → UseCaseSpec → Result CompositionFailure Composed) (r : SpecRegistry)
    (chain : List String) (uc : UseCaseSpec) (ref : String) where
  resolve_parent-IsDone :
      ((p : UseCaseSpec)
        → find_parent r ref ≡ ok p
        → contains chain (name_of p) ≡ false
        → IsDone (above (chain ++ (name_of p ∷ [])) p))
      → IsDone (resolve_parent above r chain uc ref)
  unfolding resolve_parent
  resolve_parent-IsDone h = >>=-IsDone (find_parent-IsDone r ref) (λ p found.
      >>=-IsDone (raise_if-IsDone (contains chain (name_of p)) circular_extends) (λ _ passed.
        either-IsDone p.extends _ _ (compose-IsDone uc p (chain ++ (name_of p ∷ []))) (
          >>=-IsDone
            (h p found (
              (raise_if-ok (contains chain (name_of p)) (composition_error circular_extends)).0
                passed))
            (λ a _. compose-IsDone uc a.flattened a.extends_chain))))

-- The parents that a chain has gone through are specs of the registry with different names, so that the
-- fuel left is enough for the others.
resolve_from-IsDone :
    (fuel : ℕ) (r : SpecRegistry) (first : String) (parents : List String) (uc : UseCaseSpec)
    → IsUnique parents
    → All (λ n. contains (spec_names r) n ≡ true) parents
    → suc (length r.by_ref) ≤ fuel + length parents
    → IsDone (resolve_from fuel r (first ∷ parents) uc)
resolve_from-IsDone zero r first parents uc u all enough = absurd (
    omega (
      arith,
      length-le_of_subset parents (spec_names r) u all,
      length-map r.by_ref (λ (e : String × AnySpec). spec_name e.1),
    ))
resolve_from-IsDone (suc fuel) r first parents uc u all enough = elim (Option-cases uc.extends) [
  | inl root ↦ rw (resolve_from-root r fuel (first ∷ parents) uc root) (composes (root_result uc))
  | inr (ref, has) ↦ rw (resolve_from-child r fuel (first ∷ parents) uc ref has) (
      resolve_parent-IsDone (resolve_from fuel r) r (first ∷ parents) uc ref (λ p found new.
        resolve_from-IsDone fuel r first (parents ++ (name_of p ∷ [])) p
          (IsUnique-last parents (name_of p) u (ground arith))
          (All-append (λ n. contains (spec_names r) n ≡ true) parents (name_of p ∷ []) all
            (find_parent-found r ref p found, tt))
          (omega (arith, length-append {0} parents (name_of p ∷ [])))))
]

-- Composing a use case always ends, with the composed use case or a CompositionError.
pub resolve_extends-IsDone : (uc : UseCaseSpec) (r : SpecRegistry) → IsDone (resolve_extends uc r)
unfolding resolve_extends
resolve_extends-IsDone uc r =
    resolve_from-IsDone (suc (length r.by_ref)) r (name_of uc) [] uc tt tt (omega arith)
