-- ===== src/Specs/Composition/Lineage.antt =====
-- What `resolve_extends` of src/ucf/composition.py returns, from the ancestors of the use case.
use ucf.Prelude.{
  ℕ, zero, suc, String, ◌≡◌, refl, sym, ap, ◌∙◌, false, none, some, List, [], ◌∷◌, ◌++◌, map,
  append_assoc, contains, contains-append, All, All-intro, AreFresh, AreFresh-cons, length, ◌==◌,
  ◌||◌, Option-cases, string_eq, ok, ok_injective, inl, inr, subst, arith,
}
use ucf.Specs.Models.{UseCaseSpec, StepDef}
use ucf.Specs.Registry.{SpecRegistry}
use ucf.Specs.Composition.{
  find_parent, step_ids, flatten, Composed, compose, root_result, resolve_from, resolve_extends,
}
use ucf.Specs.Composition.Parents.{
  name_of, compose-ok, resolve_from-root, resolve_from-child, resolve_parent-HasParent,
}

module _ (r : SpecRegistry) where
  -- The ancestors of a use case, from its parent to one that extends none.
  abbrev pub IsLineage : UseCaseSpec → List UseCaseSpec → Type 0
  IsLineage uc [] = uc.extends ≡ none
  IsLineage uc (p ∷ ps) =
      ((ref : String) × ((uc.extends ≡ some ref) × (find_parent r ref ≡ ok p))) × IsLineage p ps

-- The steps from the first ancestor down to the use case.
abbrev pub steps_down : UseCaseSpec → List UseCaseSpec → List StepDef
steps_down uc [] = uc.steps
steps_down uc (p ∷ ps) = steps_down p ps ++ uc.steps

-- The steps of a parent that is composed in turn.
abbrev pub parent_steps : List UseCaseSpec → List StepDef
parent_steps [] = []
parent_steps (p ∷ ps) = steps_down p ps

abbrev pub ids_of : List StepDef → List String
ids_of steps = map (λ (s : StepDef). s.id) steps

abbrev pub chain_of : List String → UseCaseSpec → List UseCaseSpec → List String
chain_of chain uc [] = name_of uc ∷ []
chain_of chain uc (p ∷ ps) = chain ++ map name_of (p ∷ ps)

-- A use case composed with its ancestors, of which none repeats a name of the chain or of another.
pub record IsComposed (r : SpecRegistry) (chain : List String) (uc : UseCaseSpec) (c : Composed)
    : Type 0 where
  pub ancestors : List UseCaseSpec
  pub lineage : IsLineage r uc ancestors
  pub fresh_names : AreFresh (contains chain) (map name_of ancestors)
  pub names : c.extends_chain ≡ chain_of chain uc ancestors
  pub steps : c.flattened.steps ≡ steps_down uc ancestors
  pub parents : c.parent_step_ids ≡ ids_of (parent_steps ancestors)
  pub disjoint : All (λ i. contains (ids_of (parent_steps ancestors)) i ≡ false) (step_ids uc)
  pub extends_none : c.flattened.extends ≡ none
  pub same_metadata : c.flattened.metadata ≡ uc.metadata

root-IsComposed :
    (r : SpecRegistry) (chain : List String) (uc : UseCaseSpec)
    → uc.extends ≡ none
    → IsComposed r chain uc (root_result uc)
root-IsComposed r chain uc root = record {
  ancestors = [];
  lineage = root;
  fresh_names = (tt, tt);
  names = refl;
  steps = refl;
  parents = refl;
  disjoint = All-intro (λ i. contains [] i ≡ false) (step_ids uc) (λ i. refl);
  extends_none = root;
  same_metadata = refl;
}

contains-last :
    (chain : List String) (k x : String)
    → contains (chain ++ (k ∷ [])) x ≡ (k == x || contains chain x)
contains-last chain k x =
    ground (arith, contains-append chain (k ∷ []) x, string_eq.beq_iff k x, string_eq.beq_iff x k)

-- A parent that is composed with its ancestors.
child-IsComposed :
    (r : SpecRegistry) (chain : List String) (uc p : UseCaseSpec) (ref : String)
    (ps : List UseCaseSpec) (flat : UseCaseSpec) (up : List String) (c : Composed)
    → uc.extends ≡ some ref
    → find_parent r ref ≡ ok p
    → contains chain (name_of p) ≡ false
    → IsLineage r p ps
    → AreFresh (contains (chain ++ (name_of p ∷ []))) (map name_of ps)
    → up ≡ chain ++ map name_of (p ∷ ps)
    → flat.steps ≡ steps_down p ps
    → compose uc flat up ≡ ok c
    → IsComposed r chain uc c
unfolding flatten
child-IsComposed r chain uc p ref ps flat up c has found new line fresh chained steps composed =
    let (apart, made) = compose-ok uc flat up c composed in
    record {
      ancestors = p ∷ ps;
      lineage = ((ref, (has, found)), line);
      fresh_names =
          (AreFresh-cons (contains chain) (contains (chain ++ (name_of p ∷ []))) (name_of p)
              (contains-last chain (name_of p)) (map name_of ps)).0
            (new, fresh);
      names = ap (λ (d : Composed). d.extends_chain) made ∙ chained;
      steps =
          ap (λ (d : Composed). d.flattened.steps) made
          ∙ ap (λ (l : List StepDef). l ++ uc.steps) steps;
      parents = ap (λ (d : Composed). d.parent_step_ids) made ∙ ap ids_of steps;
      disjoint =
          subst (λ (l : List StepDef). All (λ i. contains (ids_of l) i ≡ false) (step_ids uc)) steps
            apart;
      extends_none = ap (λ (d : Composed). d.flattened.extends) made;
      same_metadata = ap (λ (d : Composed). d.flattened.metadata) made;
    }

longer_chain :
    (r : SpecRegistry) (chain : List String) (p : UseCaseSpec) (ps : List UseCaseSpec) (x : String)
    → p.extends ≡ some x
    → IsLineage r p ps
    → chain_of (chain ++ (name_of p ∷ [])) p ps ≡ chain ++ map name_of (p ∷ ps)
longer_chain r chain p [] x has line = absurd (ground (arith, has, line))
longer_chain r chain p (q ∷ qs) x has line =
    append_assoc chain (name_of p ∷ []) (map name_of (q ∷ qs))

resolve_from-IsComposed :
    (fuel : ℕ) (r : SpecRegistry) (chain : List String) (uc : UseCaseSpec) (c : Composed)
    → resolve_from fuel r chain uc ≡ ok c
    → IsComposed r chain uc c
unfolding resolve_from
resolve_from-IsComposed zero r chain uc c e = absurd (ground arith)
resolve_from-IsComposed (suc fuel) r chain uc c e = elim (Option-cases uc.extends) [
  | inl root ↦
      subst (IsComposed r chain uc)
        (ok_injective (sym (resolve_from-root r fuel chain uc root) ∙ e))
        (root-IsComposed r chain uc root)
  | inr (ref, has) ↦
      let h =
        resolve_parent-HasParent (resolve_from fuel r) r chain uc ref c
          (sym (resolve_from-child r fuel chain uc ref has) ∙ e) in
      let p = h.parent in
      elim h.resolved [
        | inl (root, (whole, longer)) ↦
            child-IsComposed r chain uc p ref [] h.flat h.up c has h.found h.fresh root (tt, tt)
              longer (ap (λ (u : UseCaseSpec). u.steps) whole) h.composed
        | inr (x, (extends, (a, (resolved, (whole, longer))))) ↦
            let i = resolve_from-IsComposed fuel r (chain ++ (name_of p ∷ [])) p a resolved in
            child-IsComposed r chain uc p ref i.ancestors h.flat h.up c has h.found h.fresh
              i.lineage i.fresh_names
              (longer ∙ i.names ∙ longer_chain r chain p i.ancestors x extends i.lineage)
              (ap (λ (u : UseCaseSpec). u.steps) whole ∙ i.steps) h.composed
      ]
]

-- A composed use case, from its ancestors up to one that extends none: the steps of all of them, the
-- first ancestor's first; the identifiers of the steps that are not its own, among which none of its
-- own is; the chain of their names, in which none is twice, from the use case itself up to its first
-- ancestor; its own metadata, and no `extends`.
pub resolve_extends-IsComposed :
    (uc : UseCaseSpec) (r : SpecRegistry) (c : Composed)
    → resolve_extends uc r ≡ ok c
    → IsComposed r (name_of uc ∷ []) uc c
unfolding resolve_extends
resolve_extends-IsComposed uc r c e =
    resolve_from-IsComposed (suc (length r.by_ref)) r (name_of uc ∷ []) uc c e

-- Composition drops two fields: whatever a use case that extends another and its ancestors declare, the
-- composed use case is not terminal and assumes no preconditions.
pub resolve_extends-drops :
    (uc : UseCaseSpec) (r : SpecRegistry) (c : Composed) (ref : String)
    → uc.extends ≡ some ref
    → resolve_extends uc r ≡ ok c
    → (c.flattened.terminal ≡ false) × (c.flattened.assumed_preconditions ≡ [])
unfolding resolve_extends flatten
resolve_extends-drops uc r c ref has e =
    let chain = name_of uc ∷ [] in
    let fuel = length r.by_ref in
    let h =
      resolve_parent-HasParent (resolve_from fuel r) r chain uc ref c
        (sym (resolve_from-child r fuel chain uc ref has) ∙ e) in
    let made = (compose-ok uc h.flat h.up c h.composed).1 in
    (
      ap (λ (d : Composed). d.flattened.terminal) made,
      ap (λ (d : Composed). d.flattened.assumed_preconditions) made,
    )
