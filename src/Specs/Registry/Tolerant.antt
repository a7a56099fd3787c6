-- ===== src/Specs/Registry/Tolerant.antt =====
-- `_load_registry` of src/ucf/cli.py: the first spec of a kind and a name is kept.
use ucf.Prelude.{
  ◌+◌, String, ◌≡◌, sym, ap, ◌∙◌, Option, List, [], ◌∷◌, string_eq, length, length-append,
  Option-cases, inl, inr, subst, arith,
}
use ucf.Specs.Models.{AnySpec}
use ucf.Specs.Registry.{
  SpecKind, spec_kind_eq, kind_value, kind_plural, spec_kind, spec_name, join_ref, empty_registry,
  get_spec, resolve_ref,
}
use ucf.Specs.Loading.{specs_of, Loaded, load_one, load_from, load_registry}
use ucf.Specs.Registry.Lookup.{find_spec, Represents, resolve_ref-plural, resolve_ref-value}
use ucf.Specs.Registry.Paths.{or_else, specs_of-last, known_first}
use ucf.Specs.Registry.Reports.{firsts, reports, load_one-hit, load_one-miss, load_registry-Adds}
use ucf.Specs.Registry.Refines.{
  empty-Represents, find_spec-append, registered, registered-Represents, register-fresh,
  register-known, duplicate_error,
}

-- The registry holds what is listed as registered, and each spec is registered or a duplicate.
record IsLoaded (before : Loaded) (loaded : List (AnySpec × Option String)) (l : Loaded)
    : Type 0 where
  represents : Represents l.registry (specs_of l.entries)
  first :
      (k : SpecKind) (n : String)
      → find_spec k n (specs_of l.entries)
        ≡ or_else (find_spec k n (specs_of before.entries)) (find_spec k n (specs_of loaded))
  counted :
      length l.entries + length l.duplicates
      ≡ length before.entries + length before.duplicates + length loaded

load_one-IsLoaded :
    (l : Loaded) (entry : AnySpec × Option String)
    → Represents l.registry (specs_of l.entries)
    → IsLoaded l (entry ∷ []) (load_one l entry)
load_one-IsLoaded l (s, path) rep =
    let specs = specs_of l.entries in
    elim (Option-cases (find_spec (spec_kind s) (spec_name s) specs)) [
      | inl fresh ↦
          subst (IsLoaded l ((s, path) ∷ []))
            (sym (
              load_one-hit l s path (registered l.registry s path)
                (register-fresh l.registry specs rep s path fresh)))
            (record {
              represents =
                  subst (Represents (registered l.registry s path))
                    (sym (specs_of-last l.entries s path))
                    (registered-Represents l.registry specs rep s path fresh);
              first = λ k n.
                  ap (find_spec k n) (specs_of-last l.entries s path)
                  ∙ ground (arith, find_spec-append specs s k n);
              counted = omega (arith, length-append {0} l.entries ((s, path) ∷ []));
            })
      | inr (x, found) ↦
          subst (IsLoaded l ((s, path) ∷ []))
            (sym (
              load_one-miss l s path (duplicate_error l.registry specs rep s path)
                (register-known l.registry specs rep s path x found)))
            (record {
              represents = rep;
              first = λ k n. known_first specs s x k n found;
              counted = omega (
                arith,
                length-append {0} l.duplicates (duplicate_error l.registry specs rep s path ∷ []),
              );
            })
    ]

load_from-IsLoaded :
    (l : Loaded) (loaded : List (AnySpec × Option String))
    → Represents l.registry (specs_of l.entries)
    → IsLoaded l loaded (load_from l loaded)
unfolding load_from
load_from-IsLoaded l [] rep = record {
  represents = rep;
  first = λ k n. ground arith;
  counted = omega arith;
}
load_from-IsLoaded l (entry ∷ loaded) rep =
    let one = load_one-IsLoaded l entry rep in
    let rest = load_from-IsLoaded (load_one l entry) loaded one.represents in
    record {
      represents = rest.represents;
      first = λ k n. ground (arith, rest.first k n, one.first k n);
      counted = omega (arith, rest.counted, one.counted);
    }

-- Loading never fails as a whole: of the specs that share a kind and a name the first is registered, by
-- `get` and by both of its references; the entries are those firsts, in order; every other spec is
-- reported, in order, with its kind, its name, its own path and the path of the first; and nothing is lost.
pub load_registry-refines :
    (loaded : List (AnySpec × Option String)) (k : SpecKind) (n : String)
    → (get_spec (load_registry loaded).registry (kind_value k) n ≡ find_spec k n (specs_of loaded))
      × ((resolve_ref (load_registry loaded).registry (join_ref (kind_plural k) n)
            ≡ find_spec k n (specs_of loaded))
          × ((resolve_ref (load_registry loaded).registry (join_ref (kind_value k) n)
                ≡ find_spec k n (specs_of loaded))
              × ((length (load_registry loaded).entries + length (load_registry loaded).duplicates
                    ≡ length loaded)
                  × (((load_registry loaded).entries ≡ firsts [] loaded)
                      × ((load_registry loaded).duplicates ≡ reports [] loaded)))))
unfolding load_registry
load_registry-refines loaded k n =
    let start : Loaded = record { registry = empty_registry; entries = []; duplicates = [] } in
    let h = load_from-IsLoaded start loaded empty-Represents in
    let r = (load_registry loaded).registry in
    let specs = specs_of (load_registry loaded).entries in
    let same = h.first k n in
    (
      h.represents.kinds k n ∙ same,
      (
        resolve_ref-plural r specs h.represents k n ∙ same,
        (
          resolve_ref-value r specs h.represents k n ∙ same,
          (omega (arith, h.counted), load_registry-Adds loaded),
        ),
      ),
    )
