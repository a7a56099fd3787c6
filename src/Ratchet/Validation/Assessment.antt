-- ===== src/Ratchet/Validation/Assessment.antt =====
-- What `validate_ratchet_assessment_structure` and `validate_ratchet_assessment` of
-- src/ucf/ratchet/validation.py accept.
use ucf.Prelude.{
  ℕ, String, ◌≡◌, ◌↔◌, ap, true, false, not, List, map, string_eq, pair_eq, list_eq, text_order,
  pair_order, contains, All, All-imp, sorted_by, to_set, IsIncreasing, ok, for_each-ok, arith,
}
use ucf.Ratchet.Models.{
  RatchetPolicy, RatchetViolation, RuleCoverage, RatchetAssessment, is_complete,
}
use ucf.Ratchet.Equality.{ratchet_policy_ref_eq}
use ucf.Ratchet.Identity.{
  ratchet_error, at, item, Hashing, derive_assessment_id, policy_ref, broken_reference,
  content_identity_mismatch, document_identity_mismatch,
}
use ucf.Ratchet.Validation.Canonical.{require_unique_and_sorted-ok}
use ucf.Ratchet.Validation.Accepts.{
  differs-ok, none-ok, not-eq-false, ViolationIdDerived, check_violation_id-ok, IsValidSubjects,
  validate_subjects-ok,
}
use ucf.Ratchet.Validation.{
  OnboardingView, subject_id, rule_key, coverage_key, ref_id, violation_id, check_coverage,
  check_violation, check_violation_id, validate_assessment_internal_references,
  validate_ratchet_assessment_structure, validate_ratchet_assessment,
}

-- A coverage record names known subjects in canonical order, and all of them if it is complete.
pub record IsValidCoverage (subjects : List String) (c : RuleCoverage) : Type 0 where
  pub canonical : IsIncreasing (map ref_id c.subjects)
  pub known : All (λ reference. contains subjects reference ≡ true) (map ref_id c.subjects)
  pub exhaustive :
      is_complete c.status ≡ true → map ref_id c.subjects ≡ sorted_by (λ k. k) (to_set subjects)

check_coverage-ok :
    (subjects : List String) (i : ℕ) (c : RuleCoverage)
    → (check_coverage subjects i c ≡ ok tt) ↔ IsValidCoverage subjects c
unfolding check_coverage
check_coverage-ok subjects i c =
    let location = item "$.coverage" i ".subjects" in
    let references = map ref_id c.subjects in
    let all_subjects = sorted_by (λ k. k) (to_set subjects) in
    let ordered = require_unique_and_sorted-ok references location in
    let subset =
      none-ok (λ r. not (contains subjects r)) references
        (ratchet_error broken_reference location) in
    let whole = list_eq.beq_iff references all_subjects in
    (
      λ v. record {
        canonical = ordered.0 (ground arith);
        known =
            All-imp (λ r. not (contains subjects r) ≡ false) (λ r. contains subjects r ≡ true)
              references (λ r e. not-eq-false e) (subset.0 (ground arith));
        exhaustive = λ e. whole.0 (ground arith);
      },
      λ v. ground (
        arith,
        ordered.1 v.canonical,
        subset.1 (
            All-imp (λ r. contains subjects r ≡ true) (λ r. not (contains subjects r) ≡ false)
              references (λ r e. ap not e) v.known),
        v.exhaustive,
        whole.1,
      ),
    )

abbrev pub ViolationKnown : List (String × String) → List String → RatchetViolation → Type 0
ViolationKnown rules subjects v =
    (contains rules (rule_key v.key.rule) ≡ true)
    × (contains subjects v.key.subject.target_id ≡ true)

check_violation-ok :
    (rules : List (String × String)) (subjects : List String) (i : ℕ) (v : RatchetViolation)
    → (check_violation rules subjects i v ≡ ok tt) ↔ ViolationKnown rules subjects v
unfolding check_violation
check_violation-ok rules subjects i v = (λ e. (ground arith, ground arith), λ k. ground arith)

module _ (h : Hashing) where
  -- The assessments that `validate_ratchet_assessment_structure` accepts.
  pub record IsValidAssessment (a : RatchetAssessment) : Type 0 where
    pub valid_subjects : IsValidSubjects h a.subjects
    pub canonical_coverage : IsIncreasing (map coverage_key a.coverage)
    pub canonical_violations : IsIncreasing (map violation_id a.violations)
    pub derived_violations : All (ViolationIdDerived h) a.violations
    pub valid_coverage : All (IsValidCoverage (map subject_id a.subjects)) a.coverage
    pub known_violations :
        All (ViolationKnown (map coverage_key a.coverage) (map subject_id a.subjects)) a.violations
    pub derived_id : a.id ≡ derive_assessment_id h a

  -- The structural check of an assessment passes exactly on the well-formed assessments: subjects,
  -- coverage and violations in canonical order, each identity derived from its content, each coverage
  -- and violation on known rules and subjects, and complete coverage naming every subject.
  pub validate_ratchet_assessment_structure-ok :
      (a : RatchetAssessment)
      → (validate_ratchet_assessment_structure h a ≡ ok tt) ↔ IsValidAssessment a
  unfolding validate_ratchet_assessment_structure validate_assessment_internal_references
  validate_ratchet_assessment_structure-ok a =
      let subject_ids = map subject_id a.subjects in
      let rules = map coverage_key a.coverage in
      let subjects = validate_subjects-ok h a.subjects in
      let coverage = require_unique_and_sorted-ok rules (at "$.coverage") in
      let violations =
        require_unique_and_sorted-ok (map violation_id a.violations) (at "$.violations") in
      let derived =
        for_each-ok (ViolationIdDerived h) (check_violation_id h) (check_violation_id-ok h) 0
          a.violations in
      let covered =
        for_each-ok (IsValidCoverage subject_ids) (check_coverage subject_ids)
          (check_coverage-ok subject_ids) 0 a.coverage in
      let known =
        for_each-ok (ViolationKnown rules subject_ids) (check_violation rules subject_ids)
          (check_violation-ok rules subject_ids) 0 a.violations in
      let identity =
        differs-ok a.id (derive_assessment_id h a)
          (ratchet_error content_identity_mismatch (at "$.id")) in
      (
        λ v. record {
          valid_subjects = subjects.0 (ground arith);
          canonical_coverage = coverage.0 (ground arith);
          canonical_violations = violations.0 (ground arith);
          derived_violations = derived.0 (ground arith);
          valid_coverage = covered.0 (ground arith);
          known_violations = known.0 (ground arith);
          derived_id = identity.0 (ground arith);
        },
        λ v. ground (
          arith,
          subjects.1 v.valid_subjects,
          coverage.1 v.canonical_coverage,
          violations.1 v.canonical_violations,
          derived.1 v.derived_violations,
          covered.1 v.valid_coverage,
          known.1 v.known_violations,
          identity.1 v.derived_id,
        ),
      )

  -- An accepted assessment is well formed.
  pub validate_ratchet_assessment-IsValidAssessment :
      (policy : RatchetPolicy) (bundle : OnboardingView) (a : RatchetAssessment)
      → validate_ratchet_assessment h policy bundle a ≡ ok tt
      → IsValidAssessment a
  unfolding validate_ratchet_assessment
  validate_ratchet_assessment-IsValidAssessment policy bundle a accepted =
      (validate_ratchet_assessment_structure-ok a).0 (ground arith)

  pub validate_ratchet_assessment-policy :
      (policy : RatchetPolicy) (bundle : OnboardingView) (a : RatchetAssessment)
      → validate_ratchet_assessment h policy bundle a ≡ ok tt
      → a.policy ≡ policy_ref h policy
  unfolding validate_ratchet_assessment
  validate_ratchet_assessment-policy policy bundle a accepted =
      (differs-ok a.policy (policy_ref h policy)
          (ratchet_error document_identity_mismatch (at "$.policy"))).0
        (ground arith)
