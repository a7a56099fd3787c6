-- ===== src/Specs/Registry/Lookup.antt =====
-- The registry of src/ucf/parser/registry.py as one finite map from a kind and a name to a spec.
use ucf.Prelude.Dict.{get}
use ucf.Prelude.{
  String, ◌≡◌, refl, ◌&&◌, Option, none, some, List, [], ◌∷◌, map, ◌==◌, pair_eq, string_eq,
  if◌then◌else◌, arith,
}
use ucf.Specs.Models.{AnySpec}
use ucf.Specs.Registry.{
  SpecKind, spec_kind_eq, kind_value, kind_plural, spec_kind, spec_name, join_ref, SpecRegistry,
  get_spec, ref_key, resolve_ref,
}
use ucf.Specs.Registry.Keys.{
  singular_lem, singular-kind_plural, split_slash-plural, split_slash-value, plural_key_iff,
  value_key,
}

-- The specs by kind and name.
abbrev pub find_spec : SpecKind → String → List AnySpec → Option AnySpec
find_spec k n [] = none
find_spec k n (s ∷ specs) =
    let rest = find_spec k n specs in if spec_kind s == k && spec_name s == n then some s else rest

-- A registry that holds exactly these specs, in both of its indexes.
pub record Represents (r : SpecRegistry) (specs : List AnySpec) : Type 0 where
  pub refs : r.by_ref ≡ map (λ s. (ref_key s, s)) specs
  pub kinds : (k : SpecKind) (n : String) → get_spec r (kind_value k) n ≡ find_spec k n specs

get-refs :
    (specs : List AnySpec) (k : SpecKind) (n : String)
    → get (map (λ s. (ref_key s, s)) specs) (join_ref (kind_plural k) n) ≡ find_spec k n specs
get-refs [] k n = refl
get-refs (s ∷ specs) k n =
    rw (plural_key_iff (spec_kind s) k (spec_name s) n, get-refs specs k n) refl

get-refs_value :
    (specs : List AnySpec) (k : SpecKind) (n : String)
    → get (map (λ s. (ref_key s, s)) specs) (join_ref (kind_value k) n) ≡ none
get-refs_value [] k n = refl
get-refs_value (s ∷ specs) k n =
    rw (value_key (spec_kind s) k (spec_name s) n, get-refs_value specs k n) refl

module _ (r : SpecRegistry) (specs : List AnySpec) (rep : Represents r specs) where
  pub by_ref_lem :
      (k : SpecKind) (n : String) → get r.by_ref (join_ref (kind_plural k) n) ≡ find_spec k n specs
  by_ref_lem k n = rw (rep.refs) (get-refs specs k n)

  pub resolve_ref-plural :
      (k : SpecKind) (n : String) → resolve_ref r (join_ref (kind_plural k) n) ≡ find_spec k n specs
  unfolding resolve_ref
  resolve_ref-plural k n =
      let here = by_ref_lem k n in
      let split = split_slash-plural k n in
      let no_alias = singular-kind_plural k in ground (arith, here, split, no_alias)

  pub resolve_ref-value :
      (k : SpecKind) (n : String) → resolve_ref r (join_ref (kind_value k) n) ≡ find_spec k n specs
  unfolding resolve_ref
  resolve_ref-value k n =
      let here : get r.by_ref (join_ref (kind_value k) n) ≡ none =
        rw (rep.refs) (get-refs_value specs k n) in
      let split = split_slash-value k n in
      let alias = singular_lem k in
      let there = by_ref_lem k n in ground (arith, here, split, alias, there)
