-- ===== src/Specs/Registry/Paths.antt =====
-- The paths that the registry of src/ucf/parser/registry.py keeps while `_load_registry` of src/ucf/cli.py
-- loads specs.
use ucf.Prelude.Dict.{get, get-put}
use ucf.Prelude.{
  refl, true, if◌then◌else◌, String, ◌≡◌, sym, ap, ap₂, Bool-cases, ◌∙◌, ◌&&◌, Option, none, some,
  List, [], ◌∷◌, ◌++◌, map-append, ◌==◌, string_eq, inl, inr, subst, arith,
}
use ucf.Specs.Models.{AnySpec}
use ucf.Specs.Registry.{
  DuplicateSpecError, SpecKind, spec_kind_eq, kind_plural, spec_kind, spec_name, join_ref, ref_key,
  with_path,
}
use ucf.Specs.Loading.{specs_of, Loaded}
use ucf.Specs.Registry.Keys.{plural_key_iff}
use ucf.Specs.Registry.Lookup.{find_spec, Represents}
use ucf.Specs.Registry.Refines.{find_spec-append, registered, registered-Represents}

-- The first spec of that kind and name that is registered before, or else among the others.
abbrev pub or_else : Option AnySpec → Option AnySpec → Option AnySpec
or_else none b = b
or_else (some a) b = some a

-- The path of the first spec of that kind and name.
abbrev pub first_path : SpecKind → String → List (AnySpec × Option String) → Option String
first_path k n [] = none
first_path k n ((s, path) ∷ entries) =
    let rest = first_path k n entries in if spec_kind s == k && spec_name s == n then path else rest

-- The spec of the same kind and name that was loaded before.
abbrev pub earlier : List (AnySpec × Option String) → AnySpec → Option AnySpec
earlier before s = find_spec (spec_kind s) (spec_name s) (specs_of before)

pub specs_of-last :
    (entries : List (AnySpec × Option String)) (s : AnySpec) (path : Option String)
    → specs_of (entries ++ ((s, path) ∷ [])) ≡ specs_of entries ++ (s ∷ [])
specs_of-last entries s path =
    map-append (λ (e : AnySpec × Option String). e.0) entries ((s, path) ∷ [])

-- A spec whose kind and name are there adds nothing to find.
pub known_first :
    (specs : List AnySpec) (s x : AnySpec) (k : SpecKind) (n : String)
    → find_spec (spec_kind s) (spec_name s) specs ≡ some x
    → find_spec k n specs ≡ or_else (find_spec k n specs) (find_spec k n (s ∷ []))
known_first specs s x k n found = elim (Bool-cases (spec_kind s == k && spec_name s == n)) [
  | inl same ↦
      let kinds = (spec_kind_eq.beq_iff (spec_kind s) k).0 (ground arith) in
      let names = (string_eq.beq_iff (spec_name s) n).0 (ground arith) in
      let here = ap₂ (λ (j : SpecKind) (m : String). find_spec j m specs) kinds names in
      ground (arith, here, found)
  | inr other ↦ ground arith
]

first_path-absent :
    (entries : List (AnySpec × Option String)) (k : SpecKind) (n : String)
    → find_spec k n (specs_of entries) ≡ none
    → first_path k n entries ≡ none
first_path-absent [] k n h = refl
first_path-absent ((s, path) ∷ entries) k n h = ground (arith, first_path-absent entries k n)

first_path-last :
    (entries : List (AnySpec × Option String)) (s : AnySpec) (path : Option String) (k : SpecKind)
    (n : String)
    → first_path k n (entries ++ ((s, path) ∷ [])) ≡ elim (find_spec k n (specs_of entries)) [
      | some _ ↦ first_path k n entries
      | none ↦ if spec_kind s == k && spec_name s == n then path else none
    ]
first_path-last [] s path k n = refl
first_path-last ((t, at) ∷ entries) s path k n = ground (arith, first_path-last entries s path k n)

-- The registry, its entries and its paths after what was loaded.
pub record Agrees (before : List (AnySpec × Option String)) (l : Loaded) : Type 0 where
  pub represents : Represents l.registry (specs_of l.entries)
  pub first :
      (k : SpecKind) (n : String)
      → find_spec k n (specs_of l.entries) ≡ find_spec k n (specs_of before)
  pub paths :
      (k : SpecKind) (n : String)
      → get l.registry.paths (join_ref (kind_plural k) n) ≡ first_path k n before

get-with_path :
    (path : Option String) (s : AnySpec) (d : List (String × String)) (k : SpecKind) (n : String)
    → get d (ref_key s) ≡ none
    → get (with_path path (ref_key s) d) (join_ref (kind_plural k) n)
      ≡ (if spec_kind s == k && spec_name s == n then path else get d (join_ref (kind_plural k) n))
get-with_path none s d k n h = elim (Bool-cases (spec_kind s == k && spec_name s == n)) [
  | inl same ↦
      let kinds = (spec_kind_eq.beq_iff (spec_kind s) k).0 (ground arith) in
      let names = (string_eq.beq_iff (spec_name s) n).0 (ground arith) in
      let here =
        ap₂ (λ (j : SpecKind) (m : String). get d (join_ref (kind_plural j) m)) kinds names in
      ground (arith, here, h, same)
  | inr other ↦ ground (arith, other)
]
get-with_path (some p) s d k n h =
    get-put (ref_key s) (join_ref (kind_plural k) n) p d
    ∙ rw (plural_key_iff (spec_kind s) k (spec_name s) n) refl

-- A kind and name that a spec has are found as its own.
same_key :
    (entries : List (AnySpec × Option String)) (s : AnySpec) (k : SpecKind) (n : String)
    → (spec_kind s == k && spec_name s == n) ≡ true
    → earlier entries s ≡ find_spec k n (specs_of entries)
same_key entries s k n same =
    ap₂ (λ (j : SpecKind) (m : String). find_spec j m (specs_of entries))
      ((spec_kind_eq.beq_iff (spec_kind s) k).0 (ground arith))
      ((string_eq.beq_iff (spec_name s) n).0 (ground arith))

module _ (before : List (AnySpec × Option String)) (l : Loaded) (a : Agrees before l) (s : AnySpec)
    (path : Option String) where
  find_last :
      (k : SpecKind) (n : String)
      → find_spec k n (specs_of (before ++ ((s, path) ∷ [])))
        ≡ find_spec k n (specs_of before ++ (s ∷ []))
  find_last k n = ap (find_spec k n) (specs_of-last before s path)

  first_path-fresh :
      (k : SpecKind) (n : String)
      → earlier before s ≡ none
      → first_path k n (before ++ ((s, path) ∷ [])) ≡ (
          if spec_kind s == k && spec_name s == n
          then path
          else get l.registry.paths (join_ref (kind_plural k) n))
  first_path-fresh k n fresh = ground (
    arith,
    first_path-last before s path k n,
    first_path-absent before k n,
    same_key before s k n,
    a.paths k n,
    fresh,
  )

  first_path-known :
      (k : SpecKind) (n : String) (x : AnySpec)
      → earlier before s ≡ some x
      → first_path k n (before ++ ((s, path) ∷ [])) ≡ first_path k n before
  first_path-known k n x found = ground (
    arith,
    first_path-last before s path k n,
    first_path-absent before k n,
    same_key before s k n,
    found,
  )

  pub fresh-Agrees :
      earlier before s ≡ none
      → Agrees (before ++ ((s, path) ∷ [])) (record l {
        registry = registered l.registry s path;
        entries = l.entries ++ ((s, path) ∷ []);
      })
  fresh-Agrees fresh =
      let specs = specs_of l.entries in
      let absent = a.first (spec_kind s) (spec_name s) ∙ fresh in
      let no_path =
        a.paths (spec_kind s) (spec_name s)
        ∙ first_path-absent before (spec_kind s) (spec_name s) fresh in
      record {
        represents =
            subst (Represents (registered l.registry s path)) (sym (specs_of-last l.entries s path))
              (registered-Represents l.registry specs a.represents s path absent);
        first = λ k n.
            ap (find_spec k n) (specs_of-last l.entries s path)
            ∙ ground (
              arith,
              find_last k n,
              find_spec-append specs s k n,
              find_spec-append (specs_of before) s k n,
              a.first k n,
            );
        paths = λ k n.
            get-with_path path s l.registry.paths k n no_path ∙ sym (first_path-fresh k n fresh);
      }

  pub known-Agrees :
      (x : AnySpec) (errors : List DuplicateSpecError)
      → earlier before s ≡ some x
      → Agrees (before ++ ((s, path) ∷ [])) (record l { duplicates = errors })
  known-Agrees x errors found = record {
    represents = a.represents;
    first = λ k n.
        a.first k n
        ∙ known_first (specs_of before) s x k n found
        ∙ ground (arith, find_last k n, find_spec-append (specs_of before) s k n);
    paths = λ k n. a.paths k n ∙ sym (first_path-known k n x found);
  }
