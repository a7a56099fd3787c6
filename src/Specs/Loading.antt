-- ===== src/Specs/Loading.antt =====
-- Where specifications are registered: `create_app` of src/ucf/web/app.py and `_load_registry` of src/ucf/cli.py.
use ucf.Prelude.{String, Option, List, [], ◌∷◌, ◌++◌, map, Result, ok, err, ◌>>=◌}
use ucf.Specs.Models.{AnySpec}
use ucf.Specs.Registry.{SpecRegistry, DuplicateSpecError, empty_registry, register}

-- The loop of create_app, in which a DuplicateSpecError is raised on.
unfoldable pub register_all :
    SpecRegistry → List (AnySpec × Option String) → Result DuplicateSpecError SpecRegistry
register_all r [] = ok r
register_all r ((s, path) ∷ specs) = register r s path >>= λ next. register_all next specs

abbrev pub specs_of : List (AnySpec × Option String) → List AnySpec
specs_of entries = map (λ (e : AnySpec × Option String). e.0) entries

-- The registry, what has been registered and the errors of what has not.
pub record Loaded : Type 0 where
  pub registry : SpecRegistry
  pub entries : List (AnySpec × Option String)
  pub duplicates : List DuplicateSpecError

-- The body of the loop of _load_registry.
unfoldable pub load_one : Loaded → AnySpec × Option String → Loaded
load_one l entry = elim (register l.registry entry.0 entry.1) [
  | ok next ↦ record l { registry = next; entries = l.entries ++ (entry ∷ []) }
  | err e ↦ record l { duplicates = l.duplicates ++ (e ∷ []) }
]

unfoldable pub load_from : Loaded → List (AnySpec × Option String) → Loaded
unfolding load_one
load_from l [] = l
load_from l (entry ∷ loaded) = load_from (load_one l entry) loaded

-- _load_registry, with what the loader gives it
unfoldable pub load_registry : List (AnySpec × Option String) → Loaded
unfolding load_from
load_registry loaded =
    load_from (record { registry = empty_registry; entries = []; duplicates = [] }) loaded
