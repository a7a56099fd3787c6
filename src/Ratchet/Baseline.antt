-- ===== src/Ratchet/Baseline.antt =====
-- src/ucf/ratchet/baseline.py, and the checks of an initial and of a successor baseline in
-- src/ucf/ratchet/validation.py.
pub mod Protected
pub mod Successor
pub mod Advance
pub mod Establish
pub mod History
use ucf.Prelude.Dict.{dict_of, dict_from, get}
use ucf.Prelude.{
  ℕ, ◌+◌, String, Bool, true, false, not, ◌&&◌, ◌||◌, Option, none, some, List, [], ◌∷◌, map, ◌==◌,
  nat_eq, string_eq, list_eq, option_eq, text_order, any, filter, sorted_by, Result, ok, ◌>>=◌,
  ◌>>◌, raise_if,
}
use ucf.Ratchet.Models.{
  RatchetPolicy, ViolationKey, RatchetViolation, RuleCoverage, RatchetAssessment, is_complete,
  RatchetBaseline, baseline_fits, validate_generation, ViolationClassification, EvaluationOutcome,
  pass, RatchetEvaluationReport,
}
use ucf.Ratchet.Equality.{
  ratchet_policy_ref_eq, ratchet_assessment_ref_eq, ratchet_evaluation_report_ref_eq,
  ratchet_baseline_ref_eq, behavior_subject_snapshot_eq, violation_key_eq,
}
use ucf.Ratchet.Identity.{
  RatchetFailure, ratchet_error, model_error, incomplete_coverage, illegal_weakening,
  summary_mismatch, at, Hashing, derive_violation_id, derive_baseline_id, assessment_ref,
  baseline_ref, evaluation_ref,
}
use ucf.Ratchet.Validation.{
  Checked, OnboardingView, validate_ratchet_assessment, validate_ratchet_baseline_structure,
}
use ucf.Ratchet.Evaluation.{is_resolved, is_unchanged_legacy, classification_of, keys_where}
use ucf.Ratchet.Report.{validate_ratchet_evaluation_report}

-- Subject and rule coverage are both complete.
unfoldable pub coverage_incomplete : RatchetAssessment → Bool
coverage_incomplete assessment =
    not (is_complete assessment.subject_coverage)
    || any (λ (c : RuleCoverage). not (is_complete c.status)) assessment.coverage

abbrev pub is_pass : EvaluationOutcome → Bool
is_pass pass = true
is_pass _ = false

-- The loop over the fields that a baseline shares with the one derived for it.
unfoldable pub compare_baselines : RatchetBaseline → RatchetBaseline → Checked
compare_baselines baseline expected = do
  raise_if (not (baseline.policy == expected.policy))
      (ratchet_error summary_mismatch (at "$.policy"))
  raise_if (not (baseline.source_assessment == expected.source_assessment))
      (ratchet_error summary_mismatch (at "$.source_assessment"))
  raise_if (not (baseline.source_evaluation == expected.source_evaluation))
      (ratchet_error summary_mismatch (at "$.source_evaluation"))
  raise_if (not (baseline.predecessor == expected.predecessor))
      (ratchet_error summary_mismatch (at "$.predecessor"))
  raise_if (not (baseline.generation == expected.generation))
      (ratchet_error summary_mismatch (at "$.generation"))
  raise_if (not (baseline.subjects == expected.subjects))
      (ratchet_error summary_mismatch (at "$.subjects"))
  raise_if (not (baseline.allowances == expected.allowances))
      (ratchet_error summary_mismatch (at "$.allowances"))
  raise_if (not (baseline.protected == expected.protected))
      (ratchet_error summary_mismatch (at "$.protected"))

module _ (h : Hashing) where
  -- RatchetBaseline(...), which raises on a document that its model refuses, and then
  -- model_copy(update={"id": derive_baseline_id(provisional)})
  unfoldable pub identified_baseline : RatchetBaseline → Result RatchetFailure RatchetBaseline
  identified_baseline provisional = do
    raise_if
        (not (
          baseline_fits provisional
          && validate_generation provisional.generation provisional.predecessor
              provisional.source_evaluation))
        model_error
    ok (record provisional { id = derive_baseline_id h provisional })

  unfoldable pub initial_baseline : RatchetAssessment → RatchetBaseline
  initial_baseline assessment = record {
    id = "baseline.0000000000000000000000000000000000000000000000000000000000000000";
    generation = 0;
    policy = assessment.policy;
    source_assessment = assessment_ref h assessment;
    source_evaluation = none;
    predecessor = none;
    subjects = assessment.subjects;
    allowances =
        sorted_by (derive_violation_id h)
          (map (λ (v : RatchetViolation). v.key) assessment.violations);
    protected = [];
  }

  unfoldable pub derive_initial_baseline : RatchetAssessment → Result RatchetFailure RatchetBaseline
  unfolding identified_baseline initial_baseline
  derive_initial_baseline assessment = identified_baseline (initial_baseline assessment)

  -- The keys of `predecessor.protected`, with those that the report resolves, by violation id.
  unfoldable pub protected_keys :
      List ViolationKey → List ViolationKey → List (String × ViolationKey)
  protected_keys protected resolved =
      dict_from (derive_violation_id h) (λ key. key)
        (dict_of (derive_violation_id h) (λ key. key) protected) resolved

  unfoldable pub successor_baseline :
      RatchetBaseline → RatchetAssessment → RatchetEvaluationReport → RatchetBaseline
  unfolding protected_keys keys_where
  successor_baseline predecessor assessment report = record {
    id = "baseline.0000000000000000000000000000000000000000000000000000000000000000";
    generation = predecessor.generation + 1;
    policy = predecessor.policy;
    source_assessment = assessment_ref h assessment;
    source_evaluation = some (evaluation_ref h report);
    predecessor = some (baseline_ref h predecessor);
    subjects = assessment.subjects;
    allowances =
        sorted_by (derive_violation_id h) (keys_where is_unchanged_legacy report.classifications);
    protected =
        map (λ (entry : String × ViolationKey). entry.1)
          (sorted_by (λ (entry : String × ViolationKey). entry.0)
            (protected_keys predecessor.protected (keys_where is_resolved report.classifications)));
  }

  unfoldable pub derive_successor_baseline :
      RatchetBaseline
      → RatchetAssessment
      → RatchetEvaluationReport
      → Result RatchetFailure RatchetBaseline
  unfolding identified_baseline successor_baseline
  derive_successor_baseline predecessor assessment report =
      identified_baseline (successor_baseline predecessor assessment report)

  unfoldable pub validate_initial_ratchet_baseline :
      RatchetPolicy → OnboardingView → RatchetAssessment → RatchetBaseline → Checked
  unfolding compare_baselines coverage_incomplete derive_initial_baseline
  validate_initial_ratchet_baseline policy bundle assessment baseline = do
    validate_ratchet_assessment h policy bundle assessment
    raise_if (coverage_incomplete assessment)
        (ratchet_error incomplete_coverage (at "$.source_assessment.coverage"))
    expected ← derive_initial_baseline assessment
    compare_baselines baseline expected
    validate_ratchet_baseline_structure h baseline
    raise_if (not (baseline.id == expected.id)) (ratchet_error summary_mismatch (at "$.id"))

  unfoldable pub validate_successor_ratchet_baseline :
      RatchetPolicy
      → RatchetBaseline
      → OnboardingView
      → RatchetAssessment
      → RatchetEvaluationReport
      → RatchetBaseline
      → Checked
  unfolding compare_baselines coverage_incomplete derive_successor_baseline
  validate_successor_ratchet_baseline policy predecessor bundle assessment report baseline = do
    validate_ratchet_evaluation_report h policy predecessor bundle assessment report
    raise_if (coverage_incomplete assessment)
        (ratchet_error incomplete_coverage (at "$.source_assessment.coverage"))
    raise_if (not (is_pass report.outcome))
        (ratchet_error illegal_weakening (at "$.source_evaluation"))
    expected ← derive_successor_baseline predecessor assessment report
    compare_baselines baseline expected
    validate_ratchet_baseline_structure h baseline
    raise_if (not (baseline.id == expected.id)) (ratchet_error summary_mismatch (at "$.id"))

  unfoldable pub establish_ratchet_baseline :
      RatchetPolicy → OnboardingView → RatchetAssessment → Result RatchetFailure RatchetBaseline
  unfolding coverage_incomplete derive_initial_baseline validate_initial_ratchet_baseline
  establish_ratchet_baseline policy bundle assessment = do
    validate_ratchet_assessment h policy bundle assessment
    raise_if (coverage_incomplete assessment)
        (ratchet_error incomplete_coverage (at "$.source_assessment.coverage"))
    baseline ← derive_initial_baseline assessment
    validate_initial_ratchet_baseline policy bundle assessment baseline
    ok baseline

  unfoldable pub advance_ratchet_baseline :
      RatchetPolicy
      → RatchetBaseline
      → OnboardingView
      → RatchetAssessment
      → RatchetEvaluationReport
      → Result RatchetFailure RatchetBaseline
  unfolding coverage_incomplete derive_successor_baseline validate_successor_ratchet_baseline
  advance_ratchet_baseline policy predecessor bundle assessment report = do
    validate_ratchet_evaluation_report h policy predecessor bundle assessment report
    raise_if (coverage_incomplete assessment)
        (ratchet_error incomplete_coverage (at "$.source_assessment.coverage"))
    raise_if (not (is_pass report.outcome)) (ratchet_error illegal_weakening (at "$.outcome"))
    successor ← derive_successor_baseline predecessor assessment report
    validate_successor_ratchet_baseline policy predecessor bundle assessment report successor
    ok successor
