-- ===== src/Ratchet/Report.antt =====
-- src/ucf/ratchet/validation.py: the checks of an evaluation report, alone and against its sources.
pub mod Ids
pub mod Structure
pub mod Exact
use ucf.Prelude.{
  ℕ, String, Bool, true, false, not, ◌&&◌, ◌||◌, List, [], ◌∷◌, map, ◌==◌, string_eq, list_eq,
  text_order, contains, any, Result, ok, ◌>>=◌, ◌>>◌, raise_if, for_each, if◌then◌else◌,
}
use ucf.Ratchet.Models.{
  RatchetPolicy, ViolationKey, RatchetAssessment, RatchetBaseline, SubjectChange,
  ViolationClassification, WeakeningDelta, EvaluationOutcome, pass, fail, inconclusive,
  RatchetEvaluationReport, WeakeningDeltaStatus, unweakened, tightening, review_required,
}
use ucf.Ratchet.Equality.{
  violation_key_eq, ratchet_policy_ref_eq, ratchet_baseline_ref_eq, ratchet_assessment_ref_eq,
  subject_change_eq, violation_classification_eq, evaluation_outcome_eq, weakening_delta_eq,
  weakening_delta_status_eq,
}
use ucf.Ratchet.Identity.{
  RatchetFailure, ratchet_error, broken_reference, content_identity_mismatch, summary_mismatch, at,
  item, Hashing, derive_violation_id, derive_evaluation_id,
}
use ucf.Ratchet.Validation.Canonical.{require_unique_and_sorted}
use ucf.Ratchet.Validation.{Checked, OnboardingView}
use ucf.Ratchet.Evaluation.{
  is_regression, is_unknown, is_resolved, is_added, is_reintroduced, is_unknown_subject,
  classification_of, keys_where, evaluate_ratchet,
}

abbrev pub change_subject_id : SubjectChange → String
change_subject_id change = change.subject.target_id

unfoldable pub check_classification_subject : List String → ℕ → ViolationClassification → Checked
check_classification_subject subject_ids index classification =
    raise_if (not (contains subject_ids classification.key.subject.target_id))
      (ratchet_error broken_reference (item "$.classifications" index ".key.subject"))

-- `report.outcome in expected_outcomes`
unfoldable pub outcome_expected : Bool → Bool → EvaluationOutcome → Bool
outcome_expected true _ fail = true
outcome_expected true _ _ = false
outcome_expected false true inconclusive = true
outcome_expected false true _ = false
outcome_expected false false fail = false
outcome_expected false false _ = true

-- expected_delta_status
unfoldable pub expected_delta_status : Bool → List ViolationKey → WeakeningDeltaStatus
expected_delta_status true _ = review_required
expected_delta_status false [] = unweakened
expected_delta_status false (_ ∷ _) = tightening

-- The loop that compares the report with the recomputed one, field by field.
unfoldable pub compare_reports : RatchetEvaluationReport → RatchetEvaluationReport → Checked
compare_reports report expected = do
  raise_if (not (report.policy == expected.policy)) (ratchet_error summary_mismatch (at "$.policy"))
  raise_if (not (report.baseline == expected.baseline))
      (ratchet_error summary_mismatch (at "$.baseline"))
  raise_if (not (report.assessment == expected.assessment))
      (ratchet_error summary_mismatch (at "$.assessment"))
  raise_if (not (report.subject_changes == expected.subject_changes))
      (ratchet_error summary_mismatch (at "$.subject_changes"))
  raise_if (not (report.classifications == expected.classifications))
      (ratchet_error summary_mismatch (at "$.classifications"))
  raise_if (not (report.outcome == expected.outcome))
      (ratchet_error summary_mismatch (at "$.outcome"))
  raise_if (not (report.weakening_delta == expected.weakening_delta))
      (ratchet_error summary_mismatch (at "$.weakening_delta"))
  raise_if (not (report.id == expected.id)) (ratchet_error summary_mismatch (at "$.id"))

module _ (h : Hashing) where
  -- The three loops over the fields of the weakening delta.
  unfoldable pub check_delta_order : WeakeningDelta → Checked
  check_delta_order delta = do
    require_unique_and_sorted (map (derive_violation_id h) delta.added_allowances)
        (at "$.weakening_delta.added_allowances")
    require_unique_and_sorted (map (derive_violation_id h) delta.removed_allowances)
        (at "$.weakening_delta.removed_allowances")
    require_unique_and_sorted (map (derive_violation_id h) delta.removed_protections)
        (at "$.weakening_delta.removed_protections")

  unfoldable pub check_delta_members : WeakeningDelta → List ViolationClassification → Checked
  check_delta_members delta classifications = do
    raise_if (not (delta.added_allowances == keys_where is_added classifications))
        (ratchet_error summary_mismatch (at "$.weakening_delta.added_allowances"))
    raise_if (not (delta.removed_allowances == keys_where is_resolved classifications))
        (ratchet_error summary_mismatch (at "$.weakening_delta.removed_allowances"))
    raise_if (not (delta.removed_protections == keys_where is_reintroduced classifications))
        (ratchet_error summary_mismatch (at "$.weakening_delta.removed_protections"))

  unfoldable pub validate_ratchet_evaluation_report_structure : RatchetEvaluationReport → Checked
  unfolding check_classification_subject check_delta_order check_delta_members
  validate_ratchet_evaluation_report_structure report = do
    let subject_ids = map change_subject_id report.subject_changes
    let classifications = report.classifications
    require_unique_and_sorted subject_ids (at "$.subject_changes")
    require_unique_and_sorted
        (map (λ (c : ViolationClassification). derive_violation_id h c.key) classifications)
        (at "$.classifications")
    for_each (check_classification_subject subject_ids) 0 classifications
    check_delta_order report.weakening_delta
    let has_regression = any (λ c. is_regression (classification_of c)) classifications
    let has_unknown =
        any (λ c. is_unknown (classification_of c)) classifications
        || any (λ (c : SubjectChange). is_unknown_subject c.change) report.subject_changes
    raise_if (not (outcome_expected has_regression has_unknown report.outcome))
        (ratchet_error summary_mismatch (at "$.outcome"))
    check_delta_members report.weakening_delta classifications
    raise_if
        (not (
          report.weakening_delta.status
          == expected_delta_status has_regression (keys_where is_resolved classifications)))
        (ratchet_error summary_mismatch (at "$.weakening_delta.status"))
    raise_if (not (report.id == derive_evaluation_id h report))
        (ratchet_error content_identity_mismatch (at "$.id"))

  unfoldable pub validate_ratchet_evaluation_report :
      RatchetPolicy
      → RatchetBaseline
      → OnboardingView
      → RatchetAssessment
      → RatchetEvaluationReport
      → Checked
  unfolding compare_reports
  validate_ratchet_evaluation_report policy baseline bundle assessment report = do
    validate_ratchet_evaluation_report_structure report
    expected ← evaluate_ratchet h policy baseline bundle assessment
    compare_reports report expected
