-- ===== src/Ir/Capabilities/Versions.antt =====
-- The capabilities that `validate_required_capabilities` of src/ucf/ir/validation.py accepts, and the
-- comparison of versions of src/ucf/adapter_protocol/versioning.py.
use ucf.Prelude.Dict.{get}
use ucf.Prelude.{
  ℕ, String, ◌≡◌, refl, ◌↔◌, ◌⊎◌, inl, inr, true, false, not, ◌&&◌, some, List, [], ◌∷◌, map,
  string_eq, ok, All, raise_if, ◌>>=◌, sym, subst, ◌∙◌, raise_if-ok, >>=-iff, for_each-ok,
  is_numeral, int_from, split_dots, numeral_order_lem, some-injective, Option-cases, Bool-cases, ap,
  arith,
}
use ucf.Ir.Document.{
  Entity, action_entity, use_case_entity, step_entity, binding_entity, effect_entity,
  observation_entity, invariant_entity, provenance_entity, evidence_entity, capability_entity,
  CapabilityRequirement, BehaviorIr,
}
use ucf.Ir.Errors.{unsupported_capability, IrLocation, root, at_field, at_index, ir_error}
use ucf.Ir.Capabilities.{
  version_numbers, version_tuple, tuple_lt, check_available, check_capability,
  validate_required_capabilities,
}
use ucf.Ir.Capabilities.Limits.{three_numbers-ok}
use ucf.Adapter.Versioning.{version_at_least, keys_lt, segment_key}

-- A text that reads as a normalized version, of which each number has at most 4300 digits.
abbrev pub Reads : String → ℕ × (ℕ × ℕ) → Type 0
Reads version numbers = version_numbers (split_dots version) ≡ some (ok numbers)

-- Three numerals, and their numbers.
record AreThree (xs : List String) (v : ℕ × (ℕ × ℕ)) : Type 0 where
  a : String
  b : String
  c : String
  parts : xs ≡ a ∷ b ∷ c ∷ []
  numeral_a : is_numeral a ≡ true
  numeral_b : is_numeral b ≡ true
  numeral_c : is_numeral c ≡ true
  numbers : v ≡ (int_from 0 a, (int_from 0 b, int_from 0 c))

version_numbers-AreThree :
    (xs : List String) (v : ℕ × (ℕ × ℕ)) → version_numbers xs ≡ some (ok v) → AreThree xs v
unfolding version_numbers
version_numbers-AreThree [] v h = absurd (ground arith)
version_numbers-AreThree (a ∷ []) v h = absurd (ground arith)
version_numbers-AreThree (a ∷ b ∷ []) v h = absurd (ground arith)
version_numbers-AreThree (a ∷ b ∷ c ∷ []) v h =
    elim (Bool-cases (is_numeral a && (is_numeral b && is_numeral c))) [
      | inl numerals ↦ record {
        a = a;
        b = b;
        c = c;
        parts = refl;
        numeral_a = ground arith;
        numeral_b = ground arith;
        numeral_c = ground arith;
        numbers = three_numbers-ok a b c v (ground arith);
      }
      | inr other ↦ absurd (ground arith)
    ]
version_numbers-AreThree (a ∷ b ∷ c ∷ d ∷ xs) v h = absurd (ground arith)

-- Keys that compare as numbers do, in lexicographic order.
module _ (a b c x y z : String) where
  three_lem :
      is_numeral a ≡ true
      → is_numeral b ≡ true
      → is_numeral c ≡ true
      → is_numeral x ≡ true
      → is_numeral y ≡ true
      → is_numeral z ≡ true
      → keys_lt (map segment_key (a ∷ b ∷ c ∷ [])) (map segment_key (x ∷ y ∷ z ∷ []))
        ≡ tuple_lt
            (int_from 0 a, (int_from 0 b, int_from 0 c))
            (int_from 0 x, (int_from 0 y, int_from 0 z))
  three_lem pa pb pc px py pz =
      rw
        (
          numeral_order_lem a x pa px,
          numeral_order_lem x a px pa,
          numeral_order_lem b y pb py,
          numeral_order_lem y b py pb,
          numeral_order_lem c z pc pz,
          numeral_order_lem z c pz pc,
        )
        (ground arith)

-- For two normalized versions whose numbers have at most 4300 digits the comparison by (length, text) of
-- each segment, which the adapter protocol uses, and the comparison of their numbers, which the check of
-- required capabilities uses, agree.
pub version_at_least-tuple_lt :
    (actual minimum : String) (v w : ℕ × (ℕ × ℕ))
    → Reads actual v
    → Reads minimum w
    → version_at_least actual minimum ≡ not (tuple_lt v w)
unfolding version_at_least
version_at_least-tuple_lt actual minimum v w h k =
    let s = version_numbers-AreThree (split_dots actual) v h in
    let t = version_numbers-AreThree (split_dots minimum) w k in
    rw (s.parts, t.parts, s.numbers, t.numbers)
      (ap not (
        three_lem s.a s.b s.c t.a t.b t.c s.numeral_a s.numeral_b s.numeral_c t.numeral_a
          t.numeral_b t.numeral_c))

-- A capability that is there in a version that is not less than the minimum.
module _ (available : List (String × String)) where
  pub record IsAvailable (e : CapabilityRequirement) : Type 0 where
    pub actual : String
    pub offered : get available e.name ≡ some actual
    pub numbers : ℕ × (ℕ × ℕ)
    pub reads : Reads actual numbers
    pub least : ℕ × (ℕ × ℕ)
    pub reads_least : Reads e.minimum_version least
    pub enough : version_at_least actual e.minimum_version ≡ true

  version_tuple-ok :
      (version : String) (location : IrLocation) (v : ℕ × (ℕ × ℕ))
      → (version_tuple version location ≡ ok v) ↔ Reads version v
  unfolding version_tuple
  version_tuple-ok version location v = elim (Option-cases (version_numbers (split_dots version))) [
    | inl missing ↦ (λ h. absurd (ground (arith, missing)), λ h. absurd (ground (arith, missing)))
    | inr (w, found) ↦ (λ h. ground (arith, found), λ h. ground (arith, found))
  ]

  compare-ok :
      (actual minimum : String) (at location : IrLocation)
      → ((version_tuple actual at >>= λ v. version_tuple minimum location >>= λ w.
            raise_if (tuple_lt v w) (ir_error unsupported_capability location))
          ≡ ok tt)
        ↔ ((v : ℕ × (ℕ × ℕ)) × (Reads actual v
              × ((w : ℕ × (ℕ × ℕ)) × (Reads minimum w × (tuple_lt v w ≡ false)))))
  compare-ok actual minimum at location = >>=-iff (version_tuple-ok actual at) (λ v _.
      >>=-iff (version_tuple-ok minimum location)
        (λ w _. raise_if-ok (tuple_lt v w) (ir_error unsupported_capability location)))

  check_available-ok :
      (e : CapabilityRequirement) (location : IrLocation)
      → (check_available available e location ≡ ok tt) ↔ IsAvailable e
  unfolding check_available
  check_available-ok e location = elim (Option-cases (get available e.name)) [
    | inl missing ↦
        (λ h. absurd (ground (arith, missing)), λ r. absurd (ground (arith, missing, r.offered)))
    | inr (actual, found) ↦
        let at = at_field (at_field root "capabilities") e.name in
        let law = compare-ok actual e.minimum_version at location in
        (
          λ h.
              let (v, (reads, (w, (least, lt)))) = law.0 (ground (arith, found)) in
              record {
                actual = actual;
                offered = found;
                numbers = v;
                reads = reads;
                least = w;
                reads_least = least;
                enough =
                    version_at_least-tuple_lt actual e.minimum_version v w reads least ∙ ap not lt;
              },
          λ r.
              let same : r.actual ≡ actual =
                some-injective r.actual actual (sym r.offered ∙ found) in
              let reads = subst (λ (s : String). Reads s r.numbers) same r.reads in
              let agree =
                version_at_least-tuple_lt actual e.minimum_version r.numbers r.least reads
                  r.reads_least in
              let enough =
                subst (λ (s : String). version_at_least s e.minimum_version ≡ true) same r.enough in
              let done = law.1 (r.numbers, (reads, (r.least, (r.reads_least, ground arith)))) in
              ground (arith, found),
        )
  ]

  -- Each required capability is available; optional ones are not asked for.
  abbrev pub IsServed : Entity → Type 0
  IsServed (capability_entity e) = (e.required ≡ false) ⊎ IsAvailable e
  IsServed (action_entity e) = Unit
  IsServed (use_case_entity e) = Unit
  IsServed (step_entity e) = Unit
  IsServed (binding_entity e) = Unit
  IsServed (effect_entity e) = Unit
  IsServed (observation_entity e) = Unit
  IsServed (invariant_entity e) = Unit
  IsServed (provenance_entity e) = Unit
  IsServed (evidence_entity e) = Unit

  check_capability-ok : (i : ℕ) (e : Entity) → (check_capability available i e ≡ ok tt) ↔ IsServed e
  unfolding check_capability
  check_capability-ok i (capability_entity e) =
      let law =
        check_available-ok e (at_field (at_index (at_field root "entities") i) "minimum_version") in
      elim (Bool-cases e.required) [
        | inl needed ↦ (
          λ h. inr (law.0 (ground (arith, needed))),
          λ h. elim h [
            | inl other ↦ absurd (ground (arith, needed, other))
            | inr r ↦ ground (arith, needed, law.1 r)
          ],
        )
        | inr optional ↦ (λ h. inl optional, λ h. ground (arith, optional))
      ]
  check_capability-ok i (action_entity e) = (λ _. tt, λ _. refl)
  check_capability-ok i (use_case_entity e) = (λ _. tt, λ _. refl)
  check_capability-ok i (step_entity e) = (λ _. tt, λ _. refl)
  check_capability-ok i (binding_entity e) = (λ _. tt, λ _. refl)
  check_capability-ok i (effect_entity e) = (λ _. tt, λ _. refl)
  check_capability-ok i (observation_entity e) = (λ _. tt, λ _. refl)
  check_capability-ok i (invariant_entity e) = (λ _. tt, λ _. refl)
  check_capability-ok i (provenance_entity e) = (λ _. tt, λ _. refl)
  check_capability-ok i (evidence_entity e) = (λ _. tt, λ _. refl)

-- The check of required capabilities passes exactly where each required capability of the document is
-- available in a normalized version that is at least the minimum by the adapter protocol's comparison, and
-- no number of either version has more than 4300 digits.
pub validate_required_capabilities-ok :
    (document : BehaviorIr) (available : List (String × String))
    → (validate_required_capabilities document available ≡ ok tt)
      ↔ All (IsServed available) document.entities
unfolding validate_required_capabilities
validate_required_capabilities-ok document available =
    for_each-ok (IsServed available) (check_capability available) (check_capability-ok available) 0
      document.entities
