-- ===== src/Specs/Registry/Reports.antt =====
-- What `_load_registry` of src/ucf/cli.py keeps and what it reports.
use ucf.Prelude.{
  refl, String, ◌≡◌, sym, ap, ◌∙◌, Option, none, some, List, [], ◌∷◌, ◌++◌, string_eq, append-nil,
  append_assoc, Option-cases, ok, err, inl, inr, subst, arith,
}
use ucf.Specs.Models.{AnySpec}
use ucf.Specs.Registry.{
  DuplicateSpecError, spec_kind_eq, kind_value, spec_kind, spec_name, SpecRegistry, empty_registry,
  register,
}
use ucf.Specs.Loading.{specs_of, Loaded, load_one, load_from, load_registry}
use ucf.Specs.Registry.Paths.{first_path, earlier, Agrees, fresh-Agrees, known-Agrees}
use ucf.Specs.Registry.Refines.{
  empty-Represents, registered, register-fresh, register-known, duplicate_error,
}

-- The error that names a spec, the place of the first of its kind and name, and its own.
abbrev report : List (AnySpec × Option String) → AnySpec × Option String → DuplicateSpecError
report before (s, path) = record {
  kind = kind_value (spec_kind s);
  name = spec_name s;
  existing_path = first_path (spec_kind s) (spec_name s) before;
  duplicate_path = path;
}

-- The entries with a kind and name that none before them has.
abbrev pub firsts :
    List (AnySpec × Option String) → List (AnySpec × Option String) → List (AnySpec × Option String)
firsts before [] = []
firsts before (e ∷ loaded) =
    let rest = firsts (before ++ (e ∷ [])) loaded in
    elim (earlier before e.0) [ none ↦ e ∷ rest | some _ ↦ rest ]

-- The errors for the others.
abbrev pub reports :
    List (AnySpec × Option String) → List (AnySpec × Option String) → List DuplicateSpecError
reports before [] = []
reports before (e ∷ loaded) =
    let rest = reports (before ++ (e ∷ [])) loaded in
    elim (earlier before e.0) [ none ↦ rest | some _ ↦ report before e ∷ rest ]

pub load_one-hit :
    (l : Loaded) (s : AnySpec) (path : Option String) (next : SpecRegistry)
    → register l.registry s path ≡ ok next
    → load_one l (s, path) ≡ record l { registry = next; entries = l.entries ++ ((s, path) ∷ []) }
unfolding load_one
load_one-hit l s path next h = ground (arith, h)

pub load_one-miss :
    (l : Loaded) (s : AnySpec) (path : Option String) (e : DuplicateSpecError)
    → register l.registry s path ≡ err e
    → load_one l (s, path) ≡ record l { duplicates = l.duplicates ++ (e ∷ []) }
unfolding load_one
load_one-miss l s path e h = ground (arith, h)

-- What loading adds to the entries and to the errors.
abbrev Adds :
    List (AnySpec × Option String) → List (AnySpec × Option String) → Loaded → Loaded → Type 0
Adds before loaded l r =
    (r.entries ≡ l.entries ++ firsts before loaded)
    × (r.duplicates ≡ l.duplicates ++ reports before loaded)

Adds-fresh :
    (before loaded : List (AnySpec × Option String)) (l r : Loaded) (s : AnySpec)
    (path : Option String)
    → earlier before s ≡ none
    → Adds
        (before ++ ((s, path) ∷ []))
        loaded
        (record l {
          registry = registered l.registry s path;
          entries = l.entries ++ ((s, path) ∷ []);
        })
        r
    → Adds before ((s, path) ∷ loaded) l r
Adds-fresh before loaded l r s path fresh added =
    let more = before ++ ((s, path) ∷ []) in
    (
      added.0
          ∙ append_assoc l.entries ((s, path) ∷ []) (firsts more loaded)
          ∙ ap (λ xs. l.entries ++ xs) (ground (arith, fresh)),
      added.1 ∙ ap (λ xs. l.duplicates ++ xs) (ground (arith, fresh)),
    )

Adds-known :
    (before loaded : List (AnySpec × Option String)) (l r : Loaded) (s x : AnySpec)
    (path : Option String)
    → earlier before s ≡ some x
    → Adds
        (before ++ ((s, path) ∷ []))
        loaded
        (record l { duplicates = l.duplicates ++ (report before (s, path) ∷ []) })
        r
    → Adds before ((s, path) ∷ loaded) l r
Adds-known before loaded l r s x path found added =
    let more = before ++ ((s, path) ∷ []) in
    (
      added.0 ∙ ap (λ xs. l.entries ++ xs) (ground (arith, found)),
      added.1
          ∙ append_assoc l.duplicates (report before (s, path) ∷ []) (reports more loaded)
          ∙ ap (λ xs. l.duplicates ++ xs) (ground (arith, found)),
    )

-- One spec that is loaded.
load_one-fresh :
    (before : List (AnySpec × Option String)) (l : Loaded) (a : Agrees before l) (s : AnySpec)
    (path : Option String)
    → earlier before s ≡ none
    → load_one l (s, path) ≡ record l {
      registry = registered l.registry s path;
      entries = l.entries ++ ((s, path) ∷ []);
    }
load_one-fresh before l a s path fresh = load_one-hit l s path (registered l.registry s path) (
    register-fresh l.registry (specs_of l.entries) a.represents s path
      (a.first (spec_kind s) (spec_name s) ∙ fresh))

load_one-known :
    (before : List (AnySpec × Option String)) (l : Loaded) (a : Agrees before l) (s x : AnySpec)
    (path : Option String)
    → earlier before s ≡ some x
    → load_one l (s, path)
      ≡ record l { duplicates = l.duplicates ++ (report before (s, path) ∷ []) }
load_one-known before l a s x path found =
    let specs = specs_of l.entries in
    load_one-miss l s path (duplicate_error l.registry specs a.represents s path) (
      register-known l.registry specs a.represents s path x
        (a.first (spec_kind s) (spec_name s) ∙ found))
    ∙ ap
        (λ (p : Option String). record l {
          duplicates =
              l.duplicates
              ++ (record {
                kind = kind_value (spec_kind s);
                name = spec_name s;
                existing_path = p;
                duplicate_path = path;
              }
                  ∷ []);
        })
        (a.paths (spec_kind s) (spec_name s))

load_from-Adds :
    (before : List (AnySpec × Option String)) (l : Loaded) (loaded : List (AnySpec × Option String))
    → Agrees before l
    → Adds before loaded l (load_from l loaded)
unfolding load_from
load_from-Adds before l [] a = (sym (append-nil l.entries), sym (append-nil l.duplicates))
load_from-Adds before l ((s, path) ∷ loaded) a =
    let all = (s, path) ∷ loaded in
    let more = before ++ ((s, path) ∷ []) in
    elim (Option-cases (earlier before s)) [
      | inl fresh ↦
          let kept : Loaded = record l {
            registry = registered l.registry s path;
            entries = l.entries ++ ((s, path) ∷ []);
          } in
          subst (λ (m : Loaded). Adds before all l (load_from m loaded))
            (sym (load_one-fresh before l a s path fresh))
            (Adds-fresh before loaded l (load_from kept loaded) s path fresh
              (load_from-Adds more kept loaded (fresh-Agrees before l a s path fresh)))
      | inr (x, found) ↦
          let errors = l.duplicates ++ (report before (s, path) ∷ []) in
          let kept : Loaded = record l { duplicates = errors } in
          subst (λ (m : Loaded). Adds before all l (load_from m loaded))
            (sym (load_one-known before l a s x path found))
            (Adds-known before loaded l (load_from kept loaded) s x path found
              (load_from-Adds more kept loaded (known-Agrees before l a s path x errors found)))
    ]

-- Loading keeps the first of each kind and name, and reports the others.
pub load_registry-Adds :
    (loaded : List (AnySpec × Option String))
    → ((load_registry loaded).entries ≡ firsts [] loaded)
      × ((load_registry loaded).duplicates ≡ reports [] loaded)
unfolding load_registry
load_registry-Adds loaded =
    load_from-Adds [] (record { registry = empty_registry; entries = []; duplicates = [] }) loaded
      (record { represents = empty-Represents; first = λ k n. refl; paths = λ k n. refl })
