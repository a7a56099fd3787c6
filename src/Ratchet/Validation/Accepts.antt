-- ===== src/Ratchet/Validation/Accepts.antt =====
-- What the checks of src/ucf/ratchet/validation.py accept, as predicates on the documents.
use ucf.Prelude.{
  ℕ, String, ◌≡◌, ◌↔◌, Bool, true, false, not, List, map, Eq, ◌==◌, string_eq, pair_eq, text_order,
  pair_order, contains, any, any-false_iff, All, All-imp, ap, IsUnique, IsIncreasing, ok, raise_if,
  raise_if-ok, for_each-ok, arith,
}
use ucf.Ratchet.Models.{BehaviorSubjectSnapshot, ViolationKey, RatchetViolation, RatchetBaseline}
use ucf.Ratchet.Identity.{
  RatchetFailure, ratchet_error, at, Hashing, derive_behavior_subject_id, derive_violation_id,
  derive_baseline_id, duplicate_identity, broken_reference, content_identity_mismatch,
}
use ucf.Ratchet.Validation.Canonical.{require_unique-ok, require_unique_and_sorted-ok}
use ucf.Ratchet.Validation.{
  subject_order_key, subject_id, check_subject_id, check_violation_id, validate_subjects,
  validate_ratchet_baseline_structure,
}

-- `if a != b: raise`
pub differs-ok {ℓ} :
    {A : Type ℓ} ⦃e : Eq A⦄ (a b : A) (failure : RatchetFailure)
    → (raise_if (not (a == b)) failure ≡ ok tt) ↔ (a ≡ b)
differs-ok ⦃e⦄ a b failure =
    (λ h. ground (arith, e.beq_iff a b), λ h. ground (arith, e.beq_iff a b))

-- `if any(test(x) for x in xs): raise`
pub none-ok {ℓ} :
    {A : Type ℓ} (test : A → Bool) (xs : List A) (failure : RatchetFailure)
    → (raise_if (any test xs) failure ≡ ok tt) ↔ All (λ x. test x ≡ false) xs
none-ok test xs failure = (
  λ h. (any-false_iff test xs).0 ((raise_if-ok (any test xs) failure).0 h),
  λ h. (raise_if-ok (any test xs) failure).1 ((any-false_iff test xs).1 h),
)

pub not-eq-false : {b : Bool} → not b ≡ false → b ≡ true
not-eq-false {b} e = ground arith

module _ (h : Hashing) where
  abbrev pub SubjectIdDerived : BehaviorSubjectSnapshot → Type 0
  SubjectIdDerived s = s.id ≡ derive_behavior_subject_id h s.key

  abbrev pub ViolationIdDerived : RatchetViolation → Type 0
  ViolationIdDerived v = v.id ≡ derive_violation_id h v.key

  check_subject_id-ok :
      (i : ℕ) (s : BehaviorSubjectSnapshot) → (check_subject_id h i s ≡ ok tt) ↔ SubjectIdDerived s
  unfolding check_subject_id
  check_subject_id-ok i s = differs-ok s.id (derive_behavior_subject_id h s.key) _

  pub check_violation_id-ok :
      (i : ℕ) (v : RatchetViolation) → (check_violation_id h i v ≡ ok tt) ↔ ViolationIdDerived v
  unfolding check_violation_id
  check_violation_id-ok i v = differs-ok v.id (derive_violation_id h v.key) _

  -- The snapshots of subjects that `_validate_subjects` accepts.
  pub record IsValidSubjects (subjects : List BehaviorSubjectSnapshot) : Type 0 where
    pub canonical : IsIncreasing (map subject_order_key subjects)
    pub unique_ids : IsUnique (map subject_id subjects)
    pub derived_ids : All SubjectIdDerived subjects

  pub validate_subjects-ok :
      (subjects : List BehaviorSubjectSnapshot)
      → (validate_subjects h subjects ≡ ok tt) ↔ IsValidSubjects subjects
  unfolding validate_subjects
  validate_subjects-ok subjects =
      let ordered =
        require_unique_and_sorted-ok (map subject_order_key subjects) (at "$.subjects") in
      let distinct = require_unique-ok (map subject_id subjects) (at "$.subjects") in
      let derived =
        for_each-ok SubjectIdDerived (check_subject_id h) check_subject_id-ok 0 subjects in
      (
        λ v. record {
          canonical = ordered.0 (ground arith);
          unique_ids = distinct.0 (ground arith);
          derived_ids = derived.0 (ground arith);
        },
        λ v.
            ground (arith, ordered.1 v.canonical, distinct.1 v.unique_ids, derived.1 v.derived_ids),
      )

  abbrev pub violation_ids : List ViolationKey → List String
  violation_ids keys = map (derive_violation_id h) keys

  -- The baselines that `validate_ratchet_baseline_structure` accepts.
  pub record IsValidBaseline (b : RatchetBaseline) : Type 0 where
    pub valid_subjects : IsValidSubjects b.subjects
    pub canonical_allowances : IsIncreasing (violation_ids b.allowances)
    pub canonical_protected : IsIncreasing (violation_ids b.protected)
    pub disjoint :
        All (λ i. contains (violation_ids b.protected) i ≡ false) (violation_ids b.allowances)
    pub known_subjects :
        All
          (λ (key : ViolationKey).
            contains (map subject_id b.subjects) key.subject.target_id ≡ true)
          b.allowances
    pub derived_id : b.id ≡ derive_baseline_id h b

  -- The structural check of a baseline passes exactly on the well-formed baselines: subjects, allowances
  -- and protections in canonical order, no violation both allowed and protected against, each allowance
  -- on a known subject, and each identity derived from its content.
  pub validate_ratchet_baseline_structure-ok :
      (b : RatchetBaseline) → (validate_ratchet_baseline_structure h b ≡ ok tt) ↔ IsValidBaseline b
  unfolding validate_ratchet_baseline_structure
  validate_ratchet_baseline_structure-ok b =
      let subjects = validate_subjects-ok b.subjects in
      let allowances =
        require_unique_and_sorted-ok (violation_ids b.allowances) (at "$.allowances") in
      let protected = require_unique_and_sorted-ok (violation_ids b.protected) (at "$.protected") in
      let apart =
        none-ok (contains (violation_ids b.protected)) (violation_ids b.allowances)
          (ratchet_error duplicate_identity (at "$")) in
      let known =
        none-ok
          (λ (key : ViolationKey). not (contains (map subject_id b.subjects) key.subject.target_id))
          b.allowances (ratchet_error broken_reference (at "$.allowances")) in
      let derived =
        differs-ok b.id (derive_baseline_id h b)
          (ratchet_error content_identity_mismatch (at "$.id")) in
      (
        λ v. record {
          valid_subjects = subjects.0 (ground arith);
          canonical_allowances = allowances.0 (ground arith);
          canonical_protected = protected.0 (ground arith);
          disjoint = apart.0 (ground arith);
          known_subjects =
              All-imp
                (λ (key : ViolationKey).
                  not (contains (map subject_id b.subjects) key.subject.target_id) ≡ false)
                (λ (key : ViolationKey).
                  contains (map subject_id b.subjects) key.subject.target_id ≡ true)
                b.allowances (λ key e. not-eq-false e) (known.0 (ground arith));
          derived_id = derived.0 (ground arith);
        },
        λ v. ground (
          arith,
          subjects.1 v.valid_subjects,
          allowances.1 v.canonical_allowances,
          protected.1 v.canonical_protected,
          apart.1 v.disjoint,
          known.1 (
              All-imp
                (λ (key : ViolationKey).
                  contains (map subject_id b.subjects) key.subject.target_id ≡ true)
                (λ (key : ViolationKey).
                  not (contains (map subject_id b.subjects) key.subject.target_id) ≡ false)
                b.allowances (λ key e. ap not e) v.known_subjects),
          derived.1 v.derived_id,
        ),
      )
