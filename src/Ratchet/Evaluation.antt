-- ===== src/Ratchet/Evaluation.antt =====
-- src/ucf/ratchet/evaluation.py: an assessment is compared with the accepted baseline.
pub mod Changes
pub mod Classes
pub mod Accepted
pub mod Tolerated
pub mod Outcome
pub mod Passing
pub mod Bounds
use ucf.Prelude.Dict.{get, has, dict_of}
use ucf.Prelude.{
  ℕ, String, Bool, true, false, not, ◌&&◌, ◌||◌, Option, none, some, List, [], ◌∷◌, ◌++◌, map, Eq,
  ◌==◌, string_eq, pair_eq, text_order, TotalOrder, to_set, contains, any, filter, sorted_by,
  Result, ok, err, ◌>>=◌, ◌>>◌, raise_if, traverse, if◌then◌else◌,
}
use ucf.Ratchet.Models.{
  RatchetPolicy, BehaviorSubjectSnapshot, ViolationKey, RatchetViolation, RuleCoverage,
  RatchetAssessment, CoverageStatus, complete, is_complete, RatchetBaseline, SubjectChangeKind,
  SubjectChange, unchanged, semantic_changed, observed_changed, semantic_and_observed_changed,
  new_subject, removed_subject, unknown_subject, ViolationClassificationKind,
  ViolationClassification, unchanged_legacy, new_regression, touched_legacy, reintroduced, resolved,
  unknown, WeakeningDeltaStatus, unweakened, tightening, review_required, WeakeningDelta,
  EvaluationOutcome, pass, fail, inconclusive, RatchetEvaluationReport, report_fits,
}
use ucf.Ratchet.Equality.{semantic_fingerprint_eq, observed_fingerprint_eq, ratchet_policy_ref_eq}
use ucf.Ratchet.Identity.{
  RatchetFailure, ratchet_error, model_error, key_error, attribute_error, broken_reference,
  document_identity_mismatch, at, Hashing, derive_violation_id, derive_evaluation_id, policy_ref,
  assessment_ref, baseline_ref,
}
use ucf.Ratchet.Validation.{
  OnboardingView, subject_id, rule_key, policy_rule_key, coverage_key, violation_id,
  validate_ratchet_assessment, validate_ratchet_baseline_structure,
}

-- The members of _REGRESSIONS.
abbrev pub is_regression : ViolationClassificationKind → Bool
is_regression new_regression = true
is_regression reintroduced = true
is_regression touched_legacy = true
is_regression _ = false

abbrev pub is_unknown : ViolationClassificationKind → Bool
is_unknown unknown = true
is_unknown _ = false

abbrev pub is_resolved : ViolationClassificationKind → Bool
is_resolved resolved = true
is_resolved _ = false

abbrev pub is_reintroduced : ViolationClassificationKind → Bool
is_reintroduced reintroduced = true
is_reintroduced _ = false

abbrev pub is_added : ViolationClassificationKind → Bool
is_added new_regression = true
is_added reintroduced = true
is_added _ = false

abbrev pub is_unchanged_legacy : ViolationClassificationKind → Bool
is_unchanged_legacy unchanged_legacy = true
is_unchanged_legacy _ = false

abbrev pub is_unchanged : SubjectChangeKind → Bool
is_unchanged unchanged = true
is_unchanged _ = false

abbrev pub is_unknown_subject : SubjectChangeKind → Bool
is_unknown_subject unknown_subject = true
is_unknown_subject _ = false

-- _subject_changes: the change of a subject that both documents name
unfoldable pub fingerprint_change :
    BehaviorSubjectSnapshot → BehaviorSubjectSnapshot → SubjectChangeKind
fingerprint_change old new =
    let semantic_changed? = not (old.semantic == new.semantic) in
    let observed_changed? = not (old.observed == new.observed) in
    if semantic_changed? && observed_changed?
    then semantic_and_observed_changed
    else if semantic_changed?
    then semantic_changed
    else if observed_changed?
    then observed_changed
    else unchanged

-- and the change by where the subject is found
unfoldable pub subject_change :
    CoverageStatus
    → Option BehaviorSubjectSnapshot
    → Option BehaviorSubjectSnapshot
    → Result RatchetFailure SubjectChange
subject_change coverage none none = err attribute_error
subject_change coverage none (some new) =
    ok (record { subject = record { target_id = new.id }; change = new_subject })
subject_change coverage (some old) none = ok (record {
  subject = record { target_id = old.id };
  change = if is_complete coverage then removed_subject else unknown_subject;
})
subject_change coverage (some old) (some new) =
    ok (record { subject = record { target_id = new.id }; change = fingerprint_change old new })

unfoldable pub subject_changes :
    RatchetBaseline → RatchetAssessment → Result RatchetFailure (List SubjectChange)
subject_changes baseline assessment =
    let previous = dict_of subject_id (λ s. s) baseline.subjects in
    let current = dict_of subject_id (λ s. s) assessment.subjects in
    traverse
      (λ identifier.
        subject_change assessment.subject_coverage (get previous identifier)
          (get current identifier))
      (sorted_by (λ k. k)
        (to_set (map (λ entry. entry.0) previous ++ map (λ entry. entry.0) current)))

-- The body of the loop over `current.items()`.
unfoldable pub classify_current :
    List (String × ViolationKey)
    → List (String × ViolationKey)
    → List (String × SubjectChangeKind)
    → String × ViolationKey
    → Result RatchetFailure ViolationClassification
classify_current protected allowances change_by_subject (identifier, key) =
    if has protected identifier
    then ok (record { classification = reintroduced; key = key })
    else if not (has allowances identifier)
    then ok (record { classification = new_regression; key = key })
    else elim (get change_by_subject key.subject.target_id) [
      | none ↦ err key_error
      | some change ↦ ok (record {
        classification = if is_unchanged change then unchanged_legacy else touched_legacy;
        key = key;
      })
    ]

-- The body of the loop over `allowances.items()`, past its `continue`.
unfoldable pub classify_absent :
    CoverageStatus
    → List ((String × String) × CoverageStatus)
    → String × ViolationKey
    → ViolationClassification
classify_absent subject_coverage coverage_by_rule (identifier, key) =
    let covered : Bool = elim (get coverage_by_rule (rule_key key.rule)) [
      | none ↦ false
      | some status ↦ is_complete status
    ] in
    record {
      classification = if is_complete subject_coverage && covered then resolved else unknown;
      key = key;
    }

abbrev pub classification_of : ViolationClassification → ViolationClassificationKind
classification_of c = c.classification

-- item.key for item in classifications if the test holds
unfoldable pub keys_where :
    (ViolationClassificationKind → Bool) → List ViolationClassification → List ViolationKey
keys_where test classifications =
    map (λ (c : ViolationClassification). c.key)
      (filter (λ c. test (classification_of c)) classifications)

unfoldable pub has_unknown :
    List SubjectChange → List ViolationClassification → RatchetAssessment → Bool
has_unknown changes classifications assessment =
    any (λ c. is_unknown (classification_of c)) classifications
    || any (λ (c : SubjectChange). is_unknown_subject c.change) changes
    || not (is_complete assessment.subject_coverage)
    || any (λ (c : RuleCoverage). not (is_complete c.status)) assessment.coverage

unfoldable pub weakening_delta : List ViolationClassification → WeakeningDelta
unfolding keys_where
weakening_delta classifications =
    let removed = keys_where is_resolved classifications in
    record {
      status =
          if any (λ c. is_regression (classification_of c)) classifications
          then review_required
          else elim removed [ [] ↦ unweakened | _ ∷ _ ↦ tightening ];
      added_allowances = keys_where is_added classifications;
      removed_allowances = removed;
      removed_protections = keys_where is_reintroduced classifications;
    }

unfoldable pub outcome_of :
    List SubjectChange → List ViolationClassification → RatchetAssessment → EvaluationOutcome
unfolding has_unknown
outcome_of changes classifications assessment =
    if any (λ c. is_regression (classification_of c)) classifications
    then fail
    else if has_unknown changes classifications assessment
    then inconclusive
    else pass

module _ (h : Hashing) where
  -- The classifications, in the order of their violation ids.
  unfoldable pub classify :
      RatchetBaseline
      → RatchetAssessment
      → List SubjectChange
      → Result RatchetFailure (List ViolationClassification)
  unfolding classify_current classify_absent
  classify baseline assessment changes = do
    let change_by_subject =
        dict_of (λ (c : SubjectChange). c.subject.target_id) (λ (c : SubjectChange). c.change)
          changes
    let allowances = dict_of (derive_violation_id h) (λ key. key) baseline.allowances
    let protected = dict_of (derive_violation_id h) (λ key. key) baseline.protected
    let current = dict_of violation_id (λ (v : RatchetViolation). v.key) assessment.violations
    let coverage_by_rule = dict_of coverage_key (λ (c : RuleCoverage). c.status) assessment.coverage
    present ← traverse (classify_current protected allowances change_by_subject) current
    let absent = filter (λ entry. not (has current entry.0)) allowances
    ok (
        sorted_by (λ (c : ViolationClassification). derive_violation_id h c.key)
          (present ++ map (classify_absent assessment.subject_coverage coverage_by_rule) absent))

  -- The report before its own identity is known: `id` is "evaluation." and 64 zeros.
  unfoldable pub provisional_report :
      RatchetPolicy
      → RatchetBaseline
      → RatchetAssessment
      → List SubjectChange
      → List ViolationClassification
      → RatchetEvaluationReport
  unfolding outcome_of weakening_delta
  provisional_report policy baseline assessment changes classifications = record {
    id = "evaluation.0000000000000000000000000000000000000000000000000000000000000000";
    policy = policy_ref h policy;
    baseline = baseline_ref h baseline;
    assessment = assessment_ref h assessment;
    subject_changes = changes;
    classifications = classifications;
    outcome = outcome_of changes classifications assessment;
    weakening_delta = weakening_delta classifications;
  }

  unfoldable pub derive_evaluation :
      RatchetPolicy
      → RatchetBaseline
      → RatchetAssessment
      → Result RatchetFailure RatchetEvaluationReport
  unfolding subject_changes classify provisional_report
  derive_evaluation policy baseline assessment = do
    changes ← subject_changes baseline assessment
    classifications ← classify baseline assessment changes
    let provisional = provisional_report policy baseline assessment changes classifications
    raise_if (not (report_fits provisional)) model_error
    ok (record provisional { id = derive_evaluation_id h provisional })

  unfoldable pub evaluate_ratchet :
      RatchetPolicy
      → RatchetBaseline
      → OnboardingView
      → RatchetAssessment
      → Result RatchetFailure RatchetEvaluationReport
  evaluate_ratchet policy baseline bundle assessment = do
    validate_ratchet_assessment h policy bundle assessment
    validate_ratchet_baseline_structure h baseline
    raise_if (not (baseline.policy == policy_ref h policy))
        (ratchet_error document_identity_mismatch (at "$.baseline.policy"))
    let rules = map policy_rule_key policy.rules
    raise_if
        (any (λ (key : ViolationKey). not (contains rules (rule_key key.rule))) baseline.allowances)
        (ratchet_error broken_reference (at "$.baseline.allowances"))
    raise_if
        (any (λ (key : ViolationKey). not (contains rules (rule_key key.rule))) baseline.protected)
        (ratchet_error broken_reference (at "$.baseline.protected"))
    derive_evaluation policy baseline assessment
