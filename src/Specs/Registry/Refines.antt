-- ===== src/Specs/Registry/Refines.antt =====
-- Registration in src/ucf/parser/registry.py as insertion into a finite map.
use ucf.Prelude.Dict.{get, put, get-put, put_fresh, has-get}
use ucf.Prelude.{
  String, ◌≡◌, refl, sym, ap, ap₂, ◌∙◌, ◌&&◌, Option, none, some, List, [], ◌∷◌, ◌++◌, map-append,
  append_assoc, append-nil, ◌==◌, Bool-cases, Option-cases, string_eq, ok, err, >>=-eq-ok,
  if◌then◌else◌, inl, inr, subst, ok_injective, arith,
}
use ucf.Specs.Models.{AnySpec}
use ucf.Specs.Loading.{register_all, specs_of}
use ucf.Specs.Registry.{
  SpecKind, spec_kind_eq, kind_value, kind_plural, spec_kind, spec_name, join_ref, SpecRegistry,
  empty_registry, DuplicateSpecError, group, get_spec, ref_key, with_path, register, resolve_ref,
}
use ucf.Specs.Registry.Keys.{kind_value_injective}
use ucf.Specs.Registry.Lookup.{
  find_spec, Represents, by_ref_lem, resolve_ref-plural, resolve_ref-value,
}

pub empty-Represents : Represents empty_registry []
unfolding get_spec
empty-Represents = record { refs = refl; kinds = λ k n. refl }

pub find_spec-append :
    (specs : List AnySpec) (s : AnySpec) (k : SpecKind) (n : String)
    → find_spec k n (specs ++ (s ∷ [])) ≡ elim (find_spec k n specs) [
      | some x ↦ some x
      | none ↦ if spec_kind s == k && spec_name s == n then some s else none
    ]
find_spec-append [] s k n = refl
find_spec-append (t ∷ specs) s k n = ground (arith, find_spec-append specs s k n)

find_spec-fresh :
    (specs : List AnySpec) (s : AnySpec) (k : SpecKind) (n : String)
    → find_spec (spec_kind s) (spec_name s) specs ≡ none
    → find_spec k n (specs ++ (s ∷ []))
      ≡ (if spec_kind s == k && spec_name s == n then some s else find_spec k n specs)
find_spec-fresh specs s k n fresh =
    let added = find_spec-append specs s k n in
    elim (Bool-cases (spec_kind s == k && spec_name s == n)) [
      | inl same ↦
          let kinds = (spec_kind_eq.beq_iff (spec_kind s) k).0 (ground arith) in
          let names = (string_eq.beq_iff (spec_name s) n).0 (ground arith) in
          let here = ap₂ (λ (j : SpecKind) (m : String). find_spec j m specs) kinds names in
          ground (arith, added, here, fresh)
      | inr other ↦ ground (arith, added)
    ]

kind_value_key : (j k : SpecKind) → (kind_value j == kind_value k) ≡ (j == k)
kind_value_key j k = ground (
  arith,
  string_eq.beq_iff (kind_value j) (kind_value k),
  spec_kind_eq.beq_iff j k,
  kind_value_injective j k,
)

-- The registry after a spec that was not there.
abbrev pub registered : SpecRegistry → AnySpec → Option String → SpecRegistry
registered r s path = record {
  by_kind =
      put (kind_value (spec_kind s)) (put (spec_name s) s (group r (kind_value (spec_kind s))))
        r.by_kind;
  by_ref = put (ref_key s) s r.by_ref;
  paths = with_path path (ref_key s) r.paths;
}

module _ (r : SpecRegistry) (specs : List AnySpec) (rep : Represents r specs) (s : AnySpec)
    (path : Option String) where
  abbrev known : Option AnySpec
  known = find_spec (spec_kind s) (spec_name s) specs

  get_spec-registered :
      (k : SpecKind) (n : String)
      → get_spec (registered r s path) (kind_value k) n
        ≡ (if spec_kind s == k && spec_name s == n then some s else get_spec r (kind_value k) n)
  unfolding get_spec
  get_spec-registered k n =
      let kind = kind_value (spec_kind s) in
      let outer = get-put kind (kind_value k) (put (spec_name s) s (group r kind)) r.by_kind in
      let inner = get-put (spec_name s) n s (group r kind) in
      elim (Bool-cases (spec_kind s == k)) [
        | inl same ↦
            let e = (spec_kind_eq.beq_iff (spec_kind s) k).0 same in
            ground (
              arith,
              outer,
              inner,
              kind_value_key (spec_kind s) k,
              ap (λ (j : SpecKind). get r.by_kind (kind_value j)) e,
            )
        | inr other ↦ ground (arith, outer, kind_value_key (spec_kind s) k)
      ]

  pub registered-Represents : known ≡ none → Represents (registered r s path) (specs ++ (s ∷ []))
  registered-Represents fresh = record {
    refs =
        put_fresh (ref_key s) s r.by_ref (
          has-get r.by_ref (ref_key s) (by_ref_lem r specs rep (spec_kind s) (spec_name s) ∙ fresh))
        ∙ ap (λ d. d ++ ((ref_key s, s) ∷ [])) rep.refs
        ∙ sym (map-append (λ x. (ref_key x, x)) specs (s ∷ []));
    kinds = λ k n.
        ground (arith, get_spec-registered k n, find_spec-fresh specs s k n fresh, rep.kinds k n);
  }

  -- The error that names both places of a spec.
  abbrev pub duplicate_error : DuplicateSpecError
  duplicate_error = record {
    kind = kind_value (spec_kind s);
    name = spec_name s;
    existing_path = get r.paths (ref_key s);
    duplicate_path = path;
  }

  pub register-fresh : known ≡ none → register r s path ≡ ok (registered r s path)
  unfolding register
  register-fresh fresh =
      let got = rep.kinds (spec_kind s) (spec_name s) ∙ fresh in ground (arith, got)

  pub register-known : (e : AnySpec) → known ≡ some e → register r s path ≡ err duplicate_error
  unfolding register
  register-known e found =
      let got = rep.kinds (spec_kind s) (spec_name s) ∙ found in ground (arith, got)

  -- A registration that returns has added a spec that was not there.
  pub register-ok_lem :
      (r' : SpecRegistry)
      → register r s path ≡ ok r'
      → (known ≡ none) × Represents r' (specs ++ (s ∷ []))
  register-ok_lem r' e = elim (Option-cases known) [
    | inl fresh ↦ (
      fresh,
      subst (λ d. Represents d (specs ++ (s ∷ []))) (ok_injective (sym (register-fresh fresh) ∙ e))
          (registered-Represents fresh),
    )
    | inr (x, found) ↦ let refused = sym (register-known x found) ∙ e in absurd (ground arith)
  ]

register_all-Represents :
    (r : SpecRegistry) (before : List AnySpec) (entries : List (AnySpec × Option String))
    (result : SpecRegistry)
    → Represents r before
    → register_all r entries ≡ ok result
    → Represents result (before ++ specs_of entries)
unfolding register_all
register_all-Represents r before [] result rep e =
    subst (λ (d : SpecRegistry). Represents d (before ++ [])) (ok_injective e)
      (subst (Represents r) (sym (append-nil before)) rep)
register_all-Represents r before ((s, path) ∷ entries) result rep e =
    let (next, one, rest) = >>=-eq-ok (register r s path) (λ next. register_all next entries) e in
    let more = (register-ok_lem r before rep s path next one).1 in
    subst (Represents result) (append_assoc before (s ∷ []) (specs_of entries))
      (register_all-Represents next (before ++ (s ∷ [])) entries result more rest)

-- After registrations that all return, the two indexes of the registry are one map from kind and name to
-- the registered specs: `get`, the reference with the plural of the kind and the one with the singular
-- find the same.
pub register_all-refines :
    (entries : List (AnySpec × Option String)) (r : SpecRegistry) (k : SpecKind) (n : String)
    → register_all empty_registry entries ≡ ok r
    → (get_spec r (kind_value k) n ≡ find_spec k n (specs_of entries))
      × ((resolve_ref r (join_ref (kind_plural k) n) ≡ find_spec k n (specs_of entries))
          × (resolve_ref r (join_ref (kind_value k) n) ≡ find_spec k n (specs_of entries)))
register_all-refines entries r k n e =
    let rep = register_all-Represents empty_registry [] entries r empty-Represents e in
    (
      rep.kinds k n,
      (
        resolve_ref-plural r (specs_of entries) rep k n,
        resolve_ref-value r (specs_of entries) rep k n,
      ),
    )

-- What is registered is found: after one more registration that returns, the references of the new spec,
-- with the plural and the singular of its kind, resolve to it, and all others as before.
pub register-resolve_ref :
    (entries : List (AnySpec × Option String)) (r : SpecRegistry) (s : AnySpec)
    (path : Option String) (after : SpecRegistry) (k : SpecKind) (n : String)
    → register_all empty_registry entries ≡ ok r
    → register r s path ≡ ok after
    → (resolve_ref after (join_ref (kind_plural k) n) ≡ (
        if spec_kind s == k && spec_name s == n
        then some s
        else resolve_ref r (join_ref (kind_plural k) n)))
      × (resolve_ref after (join_ref (kind_value k) n) ≡ (
          if spec_kind s == k && spec_name s == n
          then some s
          else resolve_ref r (join_ref (kind_value k) n)))
register-resolve_ref entries r s path after k n e one =
    let specs = specs_of entries in
    let rep = register_all-Represents empty_registry [] entries r empty-Represents e in
    let (fresh, more) = register-ok_lem r specs rep s path after one in
    let both = specs ++ (s ∷ []) in
    let test = spec_kind s == k && spec_name s == n in
    let step = find_spec-fresh specs s k n fresh in
    (
      resolve_ref-plural after both more k n
          ∙ step
          ∙ ap (λ (o : Option AnySpec). if test then some s else o)
              (sym (resolve_ref-plural r specs rep k n)),
      resolve_ref-value after both more k n
          ∙ step
          ∙ ap (λ (o : Option AnySpec). if test then some s else o)
              (sym (resolve_ref-value r specs rep k n)),
    )
