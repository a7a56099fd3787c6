-- ===== src/Specs/Tests.antt =====
-- Runs of the registry and of the composition on the sample specifications, and instances of their theorems.
use ucf.Prelude.{
  String, List, Option, length, ◌+◌, ◌≡◌, refl, false, none, some, [], ◌∷◌, string_eq, Result, ok,
  err,
}
use ucf.Specs.Models.{AnySpec, usecase_spec}
use ucf.Specs.Registry.{
  usecase, protocol, spec_kind_eq, join_ref, SpecRegistry, empty_registry, DuplicateSpecError,
  get_spec, register, resolve_ref,
}
use ucf.Specs.Loading.{register_all, specs_of, load_registry}
use ucf.Specs.Registry.Lookup.{find_spec}
use ucf.Specs.Registry.Refines.{register_all-refines, register-resolve_ref}
use ucf.Specs.Registry.Reports.{firsts, reports}
use ucf.Specs.Registry.Tolerant.{load_registry-refines}
use ucf.Specs.Composition.{
  CompositionFailure, composition_error, circular_extends, step_id_clash, Composed, root_result,
  resolve_extends,
}
use ucf.Specs.Composition.Lineage.{
  ids_of, IsComposed, resolve_extends-IsComposed, resolve_extends-drops,
}
use ucf.Specs.Composition.Fuel.{IsDone, resolve_extends-IsDone}
use ucf.Specs.Sample.{base, leaf, circular, clashing, storage, entries}

abbrev registry_of : Result DuplicateSpecError SpecRegistry → SpecRegistry
registry_of (ok r) = r
registry_of (err e) = empty_registry

abbrev registry : SpecRegistry
registry = registry_of (register_all empty_registry entries)

all_registered : register_all empty_registry entries ≡ ok registry
unfolding register_all register join_ref
all_registered = refl

-- A kind and a name that are there are refused, and the same name under another kind is not.
refused_again :
    register registry (usecase_spec base) none
    ≡ err (record {
      kind = "usecase";
      name = "base";
      existing_path = some "specs";
      duplicate_path = none;
    })
unfolding register_all register join_ref
refused_again = refl

abbrev with_storage : SpecRegistry
with_storage = registry_of (register registry storage none)

storage_registered : register registry storage none ≡ ok with_storage
unfolding register_all register join_ref
storage_registered = refl

register_all-refines_example :
    (get_spec registry "usecase" "leaf" ≡ find_spec usecase "leaf" (specs_of entries))
    × ((resolve_ref registry (join_ref "use-cases" "leaf")
          ≡ find_spec usecase "leaf" (specs_of entries))
        × (resolve_ref registry (join_ref "usecase" "leaf")
            ≡ find_spec usecase "leaf" (specs_of entries)))
register_all-refines_example = register_all-refines entries registry usecase "leaf" all_registered

register-resolve_ref_example :
    (resolve_ref with_storage (join_ref "protocols" "base") ≡ some storage)
    × (resolve_ref with_storage (join_ref "protocol" "base") ≡ some storage)
unfolding spec_kind_eq
register-resolve_ref_example =
    register-resolve_ref entries registry storage none with_storage protocol "base" all_registered
      storage_registered

abbrev composed_of : Result CompositionFailure Composed → Composed
composed_of (ok c) = c
composed_of (err e) = root_result leaf

abbrev composed : Composed
composed = composed_of (resolve_extends leaf registry)

leaf_composes : resolve_extends leaf registry ≡ ok composed
unfolding register_all register join_ref resolve_extends
leaf_composes = refl

leaf_steps :
    (ids_of composed.flattened.steps ≡ "open" ∷ "check" ∷ "write" ∷ "close" ∷ [])
    × ((composed.parent_step_ids ≡ "open" ∷ "check" ∷ "write" ∷ [])
        × (composed.extends_chain ≡ "leaf" ∷ "middle" ∷ "base" ∷ []))
unfolding register_all register join_ref resolve_extends
leaf_steps = (refl, (refl, refl))

-- A use case that extends itself through another, and one whose step an ancestor has.
circular_refused : resolve_extends circular registry ≡ err (composition_error circular_extends)
unfolding register_all register join_ref resolve_extends
circular_refused = refl

clash_refused : resolve_extends clashing registry ≡ err (composition_error step_id_clash)
unfolding register_all register join_ref resolve_extends
clash_refused = refl

resolve_extends-IsComposed_example : IsComposed registry ("leaf" ∷ []) leaf composed
resolve_extends-IsComposed_example = resolve_extends-IsComposed leaf registry composed leaf_composes

resolve_extends-drops_example :
    (composed.flattened.terminal ≡ false) × (composed.flattened.assumed_preconditions ≡ [])
resolve_extends-drops_example =
    resolve_extends-drops leaf registry composed "usecase/middle" refl leaf_composes

resolve_extends-IsDone_example : IsDone (resolve_extends circular registry)
resolve_extends-IsDone_example = resolve_extends-IsDone circular registry

abbrev twice : List (AnySpec × Option String)
twice = (storage, none) ∷ (usecase_spec base, some "one") ∷ (usecase_spec base, some "two") ∷ []

-- The second `base` is reported, under the kind of use cases only.
load_registry-refines_example :
    (get_spec (load_registry twice).registry "usecase" "base" ≡ some (usecase_spec base))
    × ((resolve_ref (load_registry twice).registry (join_ref "use-cases" "base")
          ≡ some (usecase_spec base))
        × ((resolve_ref (load_registry twice).registry (join_ref "usecase" "base")
              ≡ some (usecase_spec base))
            × ((length (load_registry twice).entries + length (load_registry twice).duplicates ≡ 3)
                × (((load_registry twice).entries ≡ firsts [] twice)
                    × ((load_registry twice).duplicates ≡ reports [] twice)))))
unfolding spec_kind_eq
load_registry-refines_example = load_registry-refines twice usecase "base"

twice_reported :
    reports [] twice
    ≡ record {
      kind = "usecase";
      name = "base";
      existing_path = some "one";
      duplicate_path = some "two";
    }
      ∷ []
unfolding spec_kind_eq
twice_reported = refl
