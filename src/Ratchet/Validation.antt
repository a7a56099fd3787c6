-- ===== src/Ratchet/Validation.antt =====
-- src/ucf/ratchet/validation.py: the checks of a policy, an assessment, a baseline and a report that
-- recompute no other document.
pub mod Canonical
pub mod Accepts
pub mod Assessment
use ucf.Prelude.{
  ℕ, String, Bool, true, false, not, ◌&&◌, ◌||◌, List, [], ◌∷◌, map, Eq, ◌==◌, nat_eq, string_eq,
  pair_eq, list_eq, pair_order, text_order, TotalOrder, length, to_set, contains, any, filter,
  sorted_by, Result, ok, ◌>>=◌, ◌>>◌, raise_if, for_each, if◌then◌else◌, text_lt, pair_lt,
}
use ucf.Ir.{Digest, entity_kind_value}
use ucf.Ratchet.Models.{
  RatchetRule, RatchetPolicy, BehaviorSubjectKey, BehaviorSubjectRef, BehaviorSubjectSnapshot,
  RatchetRuleRef, ViolationKey, RatchetViolation, RuleCoverage, RatchetAssessment, CoverageStatus,
  complete, is_complete, RatchetBaseline,
}
use ucf.Ratchet.Equality.{
  ratchet_policy_ref_eq, onboarding_bundle_ref_eq, coverage_status_eq, behavior_subject_snapshot_eq,
}
use ucf.Ratchet.Identity.{
  RatchetFailure, ratchet_error, broken_reference, content_identity_mismatch,
  document_identity_mismatch, duplicate_identity, incomplete_coverage, summary_mismatch, Location,
  at, item, Hashing, derive_policy_id, derive_assessment_id, derive_behavior_subject_id,
  derive_violation_id, derive_baseline_id, policy_ref,
}
use ucf.Ratchet.Validation.Canonical.{require_unique_and_sorted, require_unique, require_sorted}

abbrev pub Checked : Type 0
Checked = Result RatchetFailure (Unit {0})

-- What the ratchet takes from an onboarding bundle: `canonical_onboarding_digest(bundle)`,
-- `bundle.discovery.coverage.status` and what `derive_subject_snapshots(bundle)` returns or raises.
pub record OnboardingView : Type 0 where
  pub canonical_digest : Digest
  pub discovery_status : CoverageStatus
  pub subject_snapshots : Result RatchetFailure (List BehaviorSubjectSnapshot)

abbrev pub subject_order_key : BehaviorSubjectSnapshot → String × (String × String)
subject_order_key subject =
    (subject.key.subject_uri, (entity_kind_value subject.key.target_kind, subject.key.target_id))

abbrev pub subject_id : BehaviorSubjectSnapshot → String
subject_id subject = subject.id

abbrev pub rule_key : RatchetRuleRef → String × String
rule_key rule = (rule.target_id, rule.version)

abbrev pub policy_rule_key : RatchetRule → String × String
policy_rule_key rule = (rule.id, rule.version)

abbrev pub coverage_key : RuleCoverage → String × String
coverage_key coverage = rule_key coverage.rule

abbrev pub ref_id : BehaviorSubjectRef → String
ref_id reference = reference.target_id

abbrev pub violation_id : RatchetViolation → String
violation_id violation = violation.id

-- _validate_assessment_internal_references, the body of its first loop
unfoldable pub check_coverage : List String → ℕ → RuleCoverage → Checked
check_coverage subjects index coverage = do
  let references = map ref_id coverage.subjects
  let location = item "$.coverage" index ".subjects"
  require_unique_and_sorted references location
  raise_if (any (λ reference. not (contains subjects reference)) references)
      (ratchet_error broken_reference location)
  raise_if (is_complete coverage.status && not (references == sorted_by (λ k. k) (to_set subjects)))
      (ratchet_error incomplete_coverage location)

-- and of its second
unfoldable pub check_violation :
    List (String × String) → List String → ℕ → RatchetViolation → Checked
check_violation rules subjects index violation = do
  raise_if (not (contains rules (rule_key violation.key.rule)))
      (ratchet_error broken_reference (item "$.violations" index ".key.rule"))
  raise_if (not (contains subjects violation.key.subject.target_id))
      (ratchet_error broken_reference (item "$.violations" index ".key.subject"))

unfoldable pub validate_assessment_internal_references : RatchetAssessment → Checked
unfolding check_coverage check_violation
validate_assessment_internal_references assessment = do
  let subjects = map subject_id assessment.subjects
  for_each (check_coverage subjects) 0 assessment.coverage
  for_each (check_violation (map coverage_key assessment.coverage) subjects) 0 assessment.violations

module _ (h : Hashing) where
  unfoldable pub validate_ratchet_policy : RatchetPolicy → Checked
  unfolding require_unique require_sorted
  validate_ratchet_policy policy = do
    let rule_ids = map (λ (rule : RatchetRule). rule.id) policy.rules
    require_unique rule_ids (at "$.rules")
    require_sorted rule_ids (at "$.rules")
    raise_if (not (policy.id == derive_policy_id h policy))
        (ratchet_error content_identity_mismatch (at "$.id"))

  unfoldable pub check_subject_id : ℕ → BehaviorSubjectSnapshot → Checked
  check_subject_id index subject =
      raise_if (not (subject.id == derive_behavior_subject_id h subject.key))
        (ratchet_error content_identity_mismatch (item "$.subjects" index ".id"))

  -- _validate_subjects; every caller passes the location "$.subjects"
  unfoldable pub validate_subjects : List BehaviorSubjectSnapshot → Checked
  unfolding require_unique check_subject_id
  validate_subjects subjects = do
    require_unique_and_sorted (map subject_order_key subjects) (at "$.subjects")
    require_unique (map subject_id subjects) (at "$.subjects")
    for_each check_subject_id 0 subjects

  unfoldable pub check_violation_id : ℕ → RatchetViolation → Checked
  check_violation_id index violation =
      raise_if (not (violation.id == derive_violation_id h violation.key))
        (ratchet_error content_identity_mismatch (item "$.violations" index ".id"))

  unfoldable pub validate_ratchet_assessment_structure : RatchetAssessment → Checked
  unfolding check_violation_id
  validate_ratchet_assessment_structure assessment = do
    validate_subjects assessment.subjects
    require_unique_and_sorted (map coverage_key assessment.coverage) (at "$.coverage")
    require_unique_and_sorted (map violation_id assessment.violations) (at "$.violations")
    for_each check_violation_id 0 assessment.violations
    validate_assessment_internal_references assessment
    raise_if (not (assessment.id == derive_assessment_id h assessment))
        (ratchet_error content_identity_mismatch (at "$.id"))

  unfoldable pub validate_ratchet_baseline_structure : RatchetBaseline → Checked
  validate_ratchet_baseline_structure baseline = do
    validate_subjects baseline.subjects
    let subject_ids = map subject_id baseline.subjects
    let allowance_ids = map (derive_violation_id h) baseline.allowances
    let protected_ids = map (derive_violation_id h) baseline.protected
    require_unique_and_sorted allowance_ids (at "$.allowances")
    require_unique_and_sorted protected_ids (at "$.protected")
    raise_if (any (contains protected_ids) allowance_ids)
        (ratchet_error duplicate_identity (at "$"))
    raise_if
        (any (λ (key : ViolationKey). not (contains subject_ids key.subject.target_id))
          baseline.allowances)
        (ratchet_error broken_reference (at "$.allowances"))
    raise_if (not (baseline.id == derive_baseline_id h baseline))
        (ratchet_error content_identity_mismatch (at "$.id"))

-- _validate_assessment_references, the bodies of its two loops
unfoldable pub check_coverage_rule : List (String × String) → ℕ → RuleCoverage → Checked
check_coverage_rule rules index coverage =
    raise_if (not (contains rules (coverage_key coverage)))
      (ratchet_error broken_reference (item "$.coverage" index ".rule"))

unfoldable pub check_violation_rule : List (String × String) → ℕ → RatchetViolation → Checked
check_violation_rule rules index violation =
    raise_if (not (contains rules (rule_key violation.key.rule)))
      (ratchet_error broken_reference (item "$.violations" index ".key.rule"))

unfoldable pub validate_assessment_references : RatchetPolicy → RatchetAssessment → Checked
unfolding check_coverage_rule check_violation_rule
validate_assessment_references policy assessment = do
  let rules = to_set (map policy_rule_key policy.rules)
  raise_if (not (length assessment.coverage == length rules))
      (ratchet_error broken_reference (at "$.coverage"))
  for_each (check_coverage_rule rules) 0 assessment.coverage
  for_each (check_violation_rule rules) 0 assessment.violations

unfoldable pub validate_ratchet_assessment :
    Hashing → RatchetPolicy → OnboardingView → RatchetAssessment → Checked
validate_ratchet_assessment h policy bundle assessment = do
  validate_ratchet_policy h policy
  validate_ratchet_assessment_structure h assessment
  raise_if (not (assessment.policy == policy_ref h policy))
      (ratchet_error document_identity_mismatch (at "$.policy"))
  raise_if (not (assessment.source == record { canonical_digest = bundle.canonical_digest }))
      (ratchet_error document_identity_mismatch (at "$.source"))
  raise_if (not (assessment.subject_coverage == bundle.discovery_status))
      (ratchet_error summary_mismatch (at "$.subject_coverage"))
  expected_subjects ← bundle.subject_snapshots
  raise_if (not (assessment.subjects == expected_subjects))
      (ratchet_error document_identity_mismatch (at "$.subjects"))
  validate_assessment_references policy assessment
