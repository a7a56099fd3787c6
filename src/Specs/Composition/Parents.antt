-- ===== src/Specs/Composition/Parents.antt =====
-- One call of `resolve_extends` of src/ucf/composition.py: the parent that it finds and composes with.
use ucf.Prelude.{
  ℕ, suc, String, ◌≡◌, refl, sym, false, none, some, List, [], ◌∷◌, ◌++◌, contains, any,
  any-false_iff, All, ◌⊎◌, Option-cases, string_eq, Result, ok, >>=-eq-ok, raise_if, raise_if-ok,
  ok_injective, inl, inr, arith,
}
use ucf.Specs.Models.{UseCaseSpec}
use ucf.Specs.Registry.{SpecRegistry}
use ucf.Specs.Composition.{
  CompositionFailure, composition_error, circular_extends, step_id_clash, find_parent, step_ids,
  flatten, Composed, compose, root_result, resolve_parent, resolve_from,
}

abbrev pub name_of : UseCaseSpec → String
name_of uc = uc.metadata.name

pub compose-ok :
    (uc parent : UseCaseSpec) (chain : List String) (c : Composed)
    → compose uc parent chain ≡ ok c
    → All (λ i. contains (step_ids parent) i ≡ false) (step_ids uc)
      × (c ≡ record {
        flattened = flatten parent uc;
        extends_chain = chain;
        parent_step_ids = step_ids parent;
      })
unfolding compose
compose-ok uc parent chain c e =
    let (u, passed, returned) =
      >>=-eq-ok
        (raise_if (any (contains (step_ids parent)) (step_ids uc))
          (composition_error step_id_clash))
        (λ _. _) e in
    (
      (any-false_iff (contains (step_ids parent)) (step_ids uc)).0
          ((raise_if-ok _ (composition_error step_id_clash)).0 passed),
      sym (ok_injective returned),
    )

module _ (r : SpecRegistry) where
  pub resolve_from-root :
      (fuel : ℕ) (chain : List String) (uc : UseCaseSpec)
      → uc.extends ≡ none
      → resolve_from (suc fuel) r chain uc ≡ ok (root_result uc)
  unfolding resolve_from
  resolve_from-root fuel chain uc root = ground (arith, root)

  pub resolve_from-child :
      (fuel : ℕ) (chain : List String) (uc : UseCaseSpec) (ref : String)
      → uc.extends ≡ some ref
      → resolve_from (suc fuel) r chain uc ≡ resolve_parent (resolve_from fuel r) r chain uc ref
  unfolding resolve_from
  resolve_from-child fuel chain uc ref has = ground (arith, has)

module _ (above : List String → UseCaseSpec → Result CompositionFailure Composed) (r : SpecRegistry)
    (chain : List String) (uc : UseCaseSpec) where
  -- The parent as it is composed itself, and the chain up to there.
  abbrev pub IsResolvedParent : UseCaseSpec → UseCaseSpec → List String → Type 0
  IsResolvedParent p flat up =
      ((p.extends ≡ none) × ((flat ≡ p) × (up ≡ chain ++ (name_of p ∷ []))))
      ⊎ ((x : String) × ((p.extends ≡ some x)
            × ((a : Composed) × ((above (chain ++ (name_of p ∷ [])) p ≡ ok a)
                  × ((flat ≡ a.flattened) × (up ≡ a.extends_chain))))))

  pub record HasParent (ref : String) (c : Composed) : Type 0 where
    pub parent : UseCaseSpec
    pub found : find_parent r ref ≡ ok parent
    pub fresh : contains chain (name_of parent) ≡ false
    pub flat : UseCaseSpec
    pub up : List String
    pub resolved : IsResolvedParent parent flat up
    pub composed : compose uc flat up ≡ ok c

  pub resolve_parent-HasParent :
      (ref : String) (c : Composed) → resolve_parent above r chain uc ref ≡ ok c → HasParent ref c
  unfolding resolve_parent
  resolve_parent-HasParent ref c e =
      let (p, found, then_check) = >>=-eq-ok (find_parent r ref) (λ _. _) e in
      let (u, passed, rest) =
        >>=-eq-ok (raise_if (contains chain (name_of p)) (composition_error circular_extends))
          (λ _. _) then_check in
      let fresh =
        (raise_if-ok (contains chain (name_of p)) (composition_error circular_extends)).0 passed in
      elim (Option-cases p.extends) [
        | inl root ↦ record {
          parent = p;
          found = found;
          fresh = fresh;
          flat = p;
          up = chain ++ (name_of p ∷ []);
          resolved = inl (root, (refl, refl));
          composed = ground (arith, root, rest);
        }
        | inr (x, has) ↦
            let (a, resolved, composed) =
              >>=-eq-ok (above (chain ++ (name_of p ∷ [])) p)
                (λ (a : Composed). compose uc a.flattened a.extends_chain)
                (ground (arith, has, rest)) in
            record {
              parent = p;
              found = found;
              fresh = fresh;
              flat = a.flattened;
              up = a.extends_chain;
              resolved = inr (x, (has, (a, (resolved, (refl, refl)))));
              composed = composed;
            }
      ]
