-- ===== src/Specs/Registry/Keys.antt =====
-- The references that SpecRegistry of src/ucf/parser/registry.py builds name one kind and one name each.
use Prim.Native.Char.{code}
use Prim.Native.String.append
use Prim.Native.String.{[] as no_text, ◌∷◌ as text_cons, ◌++◌ as text_append}
use ucf.Prelude.Dict.{get}
use ucf.Prelude.{
  String, ◌≡◌, refl, sym, ap, ap₂, false≢true, ◌∙◌, Bool, true, false, ◌&&◌, Option, none, some,
  some-injective, List, [], ◌∷◌, ◌==◌, Bool-cases, nat_eq, string_eq, if◌then◌else◌, inl, inr,
  arith,
}
use ucf.Specs.Registry.{
  SpecKind, action, event, component, protocol, usecase, invariant, spec_kind_eq, kind_value,
  kind_plural, join_ref, split_slash, singular_to_plural,
}

abbrev has_slash : String → Bool
has_slash no_text = false
has_slash (text_cons c s) = if code c == 47 then true else has_slash s

split_slash-append :
    (p n : String)
    → has_slash p ≡ false
    → split_slash (text_append p (text_append "/" n)) ≡ some (p, n)
unfolding split_slash
split_slash-append no_text n h =
    let slash : text_append "/" n ≡ text_cons "/" (text_append no_text n) =
      λ i. append.cons "/" no_text n i in
    let none_left : text_append no_text n ≡ n = λ i. append.nil n i in
    let start : text_append no_text (text_append "/" n) ≡ text_append "/" n =
      λ i. append.nil (text_append "/" n) i in
    rw (start, slash, none_left) refl
split_slash-append (text_cons c p) n h =
    let cons : text_append (text_cons c p) (text_append "/" n)
        ≡ text_cons c (text_append p (text_append "/" n)) =
      λ i. append.cons c p (text_append "/" n) i in
    let rest = split_slash-append p n (ground arith) in ground (arith, ap split_slash cons)

kind_named : List (String × SpecKind) → String → Option SpecKind
kind_named names s = get names s

abbrev values : List (String × SpecKind)
values =
    ("action", action)
    ∷ ("event", event)
    ∷ ("component", component)
    ∷ ("protocol", protocol)
    ∷ ("usecase", usecase)
    ∷ ("invariant", invariant)
    ∷ []

abbrev plurals : List (String × SpecKind)
plurals =
    ("actions", action)
    ∷ ("events", event)
    ∷ ("components", component)
    ∷ ("protocols", protocol)
    ∷ ("use-cases", usecase)
    ∷ ("invariants", invariant)
    ∷ []

values_lem : (k : SpecKind) → get values (kind_value k) ≡ some k
values_lem action = refl
values_lem event = refl
values_lem component = refl
values_lem protocol = refl
values_lem usecase = refl
values_lem invariant = refl

plurals_lem : (k : SpecKind) → get plurals (kind_plural k) ≡ some k
plurals_lem action = refl
plurals_lem event = refl
plurals_lem component = refl
plurals_lem protocol = refl
plurals_lem usecase = refl
plurals_lem invariant = refl

pub singular_lem : (k : SpecKind) → get singular_to_plural (kind_value k) ≡ some (kind_plural k)
singular_lem action = refl
singular_lem event = refl
singular_lem component = refl
singular_lem protocol = refl
singular_lem usecase = refl
singular_lem invariant = refl

pub singular-kind_plural : (k : SpecKind) → get singular_to_plural (kind_plural k) ≡ none
singular-kind_plural action = refl
singular-kind_plural event = refl
singular-kind_plural component = refl
singular-kind_plural protocol = refl
singular-kind_plural usecase = refl
singular-kind_plural invariant = refl

plural_slash : (k : SpecKind) → has_slash (kind_plural k) ≡ false
plural_slash action = refl
plural_slash event = refl
plural_slash component = refl
plural_slash protocol = refl
plural_slash usecase = refl
plural_slash invariant = refl

value_slash : (k : SpecKind) → has_slash (kind_value k) ≡ false
value_slash action = refl
value_slash event = refl
value_slash component = refl
value_slash protocol = refl
value_slash usecase = refl
value_slash invariant = refl

pub kind_value_injective : (j k : SpecKind) → kind_value j ≡ kind_value k → j ≡ k
kind_value_injective j k e =
    some-injective j k (sym (values_lem j) ∙ ap (get values) e ∙ values_lem k)

kind_plural_injective : (j k : SpecKind) → kind_plural j ≡ kind_plural k → j ≡ k
kind_plural_injective j k e =
    some-injective j k (sym (plurals_lem j) ∙ ap (get plurals) e ∙ plurals_lem k)

pub kind_plural-kind_value : (j k : SpecKind) → kind_plural j ≡ kind_value k → ⊥
kind_plural-kind_value j k e =
    let same : none ≡ some (kind_plural k) =
      sym (singular-kind_plural j) ∙ ap (get singular_to_plural) e ∙ singular_lem k in
    absurd (ground arith)

pub split_slash-plural :
    (k : SpecKind) (n : String) → split_slash (join_ref (kind_plural k) n) ≡ some (kind_plural k, n)
unfolding join_ref
split_slash-plural k n = split_slash-append (kind_plural k) n (plural_slash k)

pub split_slash-value :
    (k : SpecKind) (n : String) → split_slash (join_ref (kind_value k) n) ≡ some (kind_value k, n)
unfolding join_ref
split_slash-value k n = split_slash-append (kind_value k) n (value_slash k)

parts :
    (p q n m : String)
    → ◌≡◌ {A = Option (String × String)} (some (p, n)) (some (q, m))
    → (p ≡ q) × (n ≡ m)
parts p q n m e =
    let both = some-injective (p, n) (q, m) e in
    (ap (λ (x : String × String). x.0) both, ap (λ (x : String × String). x.1) both)

-- The keys of two specs agree exactly where kind and name do.
pub plural_key_iff :
    (j k : SpecKind) (m n : String)
    → (join_ref (kind_plural j) m == join_ref (kind_plural k) n) ≡ (j == k && m == n)
plural_key_iff j k m n =
    elim (Bool-cases (join_ref (kind_plural j) m == join_ref (kind_plural k) n)) [
      | inl same ↦
          let e =
            (string_eq.beq_iff (join_ref (kind_plural j) m) (join_ref (kind_plural k) n)).0 same in
          let both =
            parts (kind_plural j) (kind_plural k) m n
              (sym (split_slash-plural j m) ∙ ap split_slash e ∙ split_slash-plural k n) in
          let kinds = (spec_kind_eq.beq_iff j k).1 (kind_plural_injective j k both.0) in
          let names = (string_eq.beq_iff m n).1 both.1 in rw (same, kinds, names) refl
      | inr other ↦ elim (Bool-cases (j == k && m == n)) [
        | inl agree ↦
            let kinds = (spec_kind_eq.beq_iff j k).0 (ground arith) in
            let names = (string_eq.beq_iff m n).0 (ground arith) in
            let same =
              ap₂ (λ (i : SpecKind) (x : String). join_ref (kind_plural i) x) kinds names in
            let hit =
              (string_eq.beq_iff (join_ref (kind_plural j) m) (join_ref (kind_plural k) n)).1
                same in
            absurd (false≢true (sym other ∙ hit))
        | inr differ ↦ other ∙ sym differ
      ]
    ]

pub value_key :
    (j k : SpecKind) (m n : String)
    → (join_ref (kind_plural j) m == join_ref (kind_value k) n) ≡ false
value_key j k m n = elim (Bool-cases (join_ref (kind_plural j) m == join_ref (kind_value k) n)) [
  | inl same ↦
      let e = (string_eq.beq_iff (join_ref (kind_plural j) m) (join_ref (kind_value k) n)).0 same in
      let both =
        parts (kind_plural j) (kind_value k) m n
          (sym (split_slash-plural j m) ∙ ap split_slash e ∙ split_slash-value k n) in
      absurd (kind_plural-kind_value j k both.0)
  | inr other ↦ other
]
