-- ===== src/Ratchet/Tests.antt =====
-- The theorems on src/ucf/ratchet at concrete documents.
use ucf.Prelude.{
  All, IsIncreasing, String, [], contains, false, map, not, ok, refl, some, string_eq, suc,
  text_order, true, ◌&&◌, ◌+◌, ◌||◌, ◌↔◌, ◌≡◌,
}
use ucf.Ratchet.Baseline.{
  advance_ratchet_baseline, establish_ratchet_baseline, initial_baseline, successor_baseline,
}
use ucf.Ratchet.Baseline.Advance.{
  advance-allowances, advance-exact, advance-links, advance-protects, fits,
}
use ucf.Ratchet.Baseline.Establish.{establish-allowances, establish-exact, initial}
use ucf.Ratchet.Baseline.History.{
  History, History-ratchets, resolved-never_again, start, step, unknown-never_allowed,
}
use ucf.Ratchet.Baseline.Successor.{successor}
use ucf.Ratchet.Evaluation.{derive_evaluation, evaluate_ratchet, fingerprint_change, subject_change}
use ucf.Ratchet.Evaluation.Accepted.{Accepted, evaluate-exact, provisional, report}
use ucf.Ratchet.Evaluation.Changes.{change_at}
use ucf.Ratchet.Evaluation.Classes.{absent, present_kind}
use ucf.Ratchet.Evaluation.Bounds.{evaluate_total}
use ucf.Ratchet.Evaluation.Outcome.{FullyCovered, evaluate-fail_iff, evaluate-pass_iff}
use ucf.Ratchet.Evaluation.Tolerated.{Tolerated}
use ucf.Ratchet.Identity.{
  assessment_ref, baseline_ref, derive_assessment_id, derive_baseline_id,
  derive_behavior_subject_id, derive_evaluation_id, derive_policy_id, derive_violation_id,
  evaluation_ref, policy_ref,
}
use ucf.Ratchet.Models.{
  assessment_fits, ViolationClassification, baseline_fits, fail, pass, report_fits,
  validate_generation,
}
use ucf.Ratchet.Equality.{
  behavior_subject_snapshot_eq, coverage_status_eq, evaluation_outcome_eq, observed_fingerprint_eq,
  onboarding_bundle_ref_eq, ratchet_assessment_ref_eq, ratchet_baseline_ref_eq,
  ratchet_evaluation_report_ref_eq, ratchet_policy_ref_eq, semantic_fingerprint_eq,
  subject_change_eq, violation_classification_eq, violation_key_eq, weakening_delta_eq,
  weakening_delta_status_eq,
}
use ucf.Ratchet.Report.{
  expected_delta_status, outcome_expected, validate_ratchet_evaluation_report,
  validate_ratchet_evaluation_report_structure,
}
use ucf.Ratchet.Report.Exact.{validate_report-exact}
use ucf.Ratchet.Report.Ids.{evaluate-classifies_once}
use ucf.Ratchet.Sample.{
  both, bundle, failing_report, first_baseline, hashing, next_baseline, one, passing_report, policy,
}
use ucf.Ratchet.Validation.{
  validate_assessment_internal_references, validate_assessment_references,
  validate_ratchet_assessment, validate_ratchet_assessment_structure,
  validate_ratchet_baseline_structure, validate_ratchet_policy, validate_subjects, violation_id,
}
use ucf.Ratchet.Validation.Accepts.{
  IsValidBaseline, validate_ratchet_baseline_structure-ok, violation_ids,
}
use ucf.Ratchet.Validation.Assessment.{IsValidAssessment, validate_ratchet_assessment_structure-ok}
use ucf.Ratchet.Validation.Canonical.{require_unique_and_sorted}

-- The documents are accepted, and evaluating and advancing them gives the reports and baselines.
runs :
    (validate_ratchet_assessment hashing policy bundle both ≡ ok tt)
    × (establish_ratchet_baseline hashing policy bundle both ≡ ok first_baseline)
    × (evaluate_ratchet hashing policy first_baseline bundle one ≡ ok passing_report)
    × (advance_ratchet_baseline hashing policy first_baseline bundle one passing_report
        ≡ ok next_baseline)
    × (evaluate_ratchet hashing policy next_baseline bundle both ≡ ok failing_report)
    × (contains (violation_ids hashing first_baseline.allowances) "violation.b" ≡ true)
    × (contains (violation_ids hashing next_baseline.allowances) "violation.b" ≡ false)
    × (passing_report.outcome ≡ pass)
    × (failing_report.outcome ≡ fail)
    × (baseline_fits first_baseline ≡ true)
    × (assessment_fits one ≡ true)
unfolding assessment_fits baseline_fits validate_generation report_fits semantic_fingerprint_eq
    observed_fingerprint_eq ratchet_policy_ref_eq onboarding_bundle_ref_eq coverage_status_eq
    behavior_subject_snapshot_eq violation_key_eq ratchet_assessment_ref_eq ratchet_baseline_ref_eq
    ratchet_evaluation_report_ref_eq subject_change_eq violation_classification_eq
    weakening_delta_eq weakening_delta_status_eq evaluation_outcome_eq derive_policy_id
    derive_assessment_id derive_behavior_subject_id derive_violation_id derive_baseline_id
    derive_evaluation_id policy_ref assessment_ref baseline_ref evaluation_ref
    require_unique_and_sorted validate_assessment_internal_references validate_ratchet_policy
    validate_subjects validate_ratchet_assessment_structure validate_ratchet_baseline_structure
    validate_assessment_references validate_ratchet_assessment fingerprint_change subject_change
    derive_evaluation evaluate_ratchet outcome_expected expected_delta_status
    validate_ratchet_evaluation_report_structure validate_ratchet_evaluation_report
    establish_ratchet_baseline advance_ratchet_baseline first_baseline passing_report next_baseline
    failing_report present_kind absent change_at
runs = (refl, refl, refl, refl, refl, refl, refl, refl, refl, refl, refl)

established : establish_ratchet_baseline hashing policy bundle both ≡ ok first_baseline
established = runs.1

evaluated : evaluate_ratchet hashing policy first_baseline bundle one ≡ ok passing_report
evaluated = runs.2

advanced :
    advance_ratchet_baseline hashing policy first_baseline bundle one passing_report
    ≡ ok next_baseline
advanced = runs.3

evaluated_again : evaluate_ratchet hashing policy next_baseline bundle both ≡ ok failing_report
evaluated_again = runs.4

resolved-never_again_example : failing_report.outcome ≡ fail
resolved-never_again_example =
    resolved-never_again hashing policy first_baseline next_baseline next_baseline 0 "violation.b"
      bundle bundle one both passing_report failing_report runs.5 refl advanced start refl
      evaluated_again

one_step : History hashing policy first_baseline 1 next_baseline
one_step = step bundle one passing_report start advanced

History-ratchets_example :
    ((i : String)
      → contains (violation_ids hashing first_baseline.protected) i ≡ true
      → contains (violation_ids hashing next_baseline.protected) i ≡ true)
    × ((i : String)
        → contains (violation_ids hashing next_baseline.allowances) i ≡ true
        → contains (violation_ids hashing first_baseline.allowances) i ≡ true)
    × (next_baseline.generation ≡ first_baseline.generation + 1)
History-ratchets_example = History-ratchets hashing policy first_baseline next_baseline 1 one_step

unknown-never_allowed_example : failing_report.outcome ≡ fail
unknown-never_allowed_example =
    unknown-never_allowed hashing policy next_baseline next_baseline 0 "violation.b" bundle both
      failing_report runs.6 start refl evaluated_again

evaluate-pass_iff_example :
    (passing_report.outcome ≡ pass)
    ↔ (All (Tolerated hashing first_baseline one) one.violations × FullyCovered one)
evaluate-pass_iff_example =
    evaluate-pass_iff hashing policy first_baseline bundle one passing_report evaluated

evaluate-fail_iff_example :
    (failing_report.outcome ≡ fail) ↔ (¬ All (Tolerated hashing next_baseline both) both.violations)
evaluate-fail_iff_example =
    evaluate-fail_iff hashing policy next_baseline bundle both failing_report evaluated_again

evaluate-exact_example :
    (evaluate_ratchet hashing policy first_baseline bundle one ≡ ok passing_report) ↔ (
      Accepted hashing policy first_baseline bundle one
      × (report_fits (provisional hashing policy first_baseline bundle one) ≡ true)
      × (passing_report ≡ report hashing policy first_baseline bundle one))
evaluate-exact_example = evaluate-exact hashing policy first_baseline bundle one passing_report

evaluate_total_example :
    evaluate_ratchet hashing policy first_baseline bundle one
    ≡ ok (report hashing policy first_baseline bundle one)
evaluate_total_example =
    evaluate_total hashing policy first_baseline bundle one (evaluate-exact_example.0 evaluated).0
      runs.9 runs.10

advance-exact_example :
    (advance_ratchet_baseline hashing policy first_baseline bundle one passing_report
      ≡ ok next_baseline)
    ↔ ((evaluate_ratchet hashing policy first_baseline bundle one ≡ ok passing_report)
        × (passing_report.outcome ≡ pass)
        × (fits (successor_baseline hashing first_baseline one passing_report) ≡ true)
        × (next_baseline ≡ successor hashing policy first_baseline bundle one passing_report))
advance-exact_example =
    advance-exact hashing policy first_baseline bundle one passing_report next_baseline

advance-allowances_example :
    (violation_ids hashing next_baseline.allowances ≡ map violation_id one.violations)
    × All
        (λ i. contains (violation_ids hashing first_baseline.allowances) i ≡ true)
        (violation_ids hashing next_baseline.allowances)
advance-allowances_example =
    advance-allowances hashing policy first_baseline bundle one passing_report next_baseline
      advanced

advance-protects_example :
    contains (violation_ids hashing next_baseline.protected) "violation.b" ≡ (
      contains (violation_ids hashing first_baseline.protected) "violation.b"
      || (contains (violation_ids hashing first_baseline.allowances) "violation.b"
          && not (contains (map violation_id one.violations) "violation.b")))
advance-protects_example =
    advance-protects hashing policy first_baseline bundle one passing_report next_baseline advanced
      "violation.b"

advance-links_example :
    (validate_ratchet_baseline_structure hashing next_baseline ≡ ok tt)
    × (next_baseline.policy ≡ first_baseline.policy)
    × (next_baseline.generation ≡ suc first_baseline.generation)
    × (next_baseline.predecessor ≡ some (baseline_ref hashing first_baseline))
    × (next_baseline.source_assessment ≡ assessment_ref hashing one)
    × (next_baseline.source_evaluation ≡ some (evaluation_ref hashing passing_report))
advance-links_example =
    advance-links hashing policy first_baseline bundle one passing_report next_baseline advanced

establish-exact_example :
    (establish_ratchet_baseline hashing policy bundle both ≡ ok first_baseline) ↔ (
      (validate_ratchet_assessment hashing policy bundle both ≡ ok tt)
      × FullyCovered both
      × (fits (initial_baseline hashing both) ≡ true)
      × (first_baseline ≡ initial hashing both))
establish-exact_example = establish-exact hashing policy bundle both first_baseline

establish-allowances_example :
    IsValidBaseline hashing first_baseline
    × (violation_ids hashing first_baseline.allowances ≡ map violation_id both.violations)
    × (first_baseline.protected ≡ [])
establish-allowances_example =
    establish-allowances hashing policy bundle both first_baseline established

validate_report-exact_example :
    (validate_ratchet_evaluation_report hashing policy first_baseline bundle one passing_report
      ≡ ok tt)
    ↔ (evaluate_ratchet hashing policy first_baseline bundle one ≡ ok passing_report)
validate_report-exact_example =
    validate_report-exact hashing policy first_baseline bundle one passing_report

evaluate-classifies_once_example :
    IsIncreasing (
      map
        (λ (c : ViolationClassification). derive_violation_id hashing c.key)
        passing_report.classifications)
    × ((i : String)
        → contains
            (map
              (λ (c : ViolationClassification). derive_violation_id hashing c.key)
              passing_report.classifications)
            i
          ≡ (contains (map violation_id one.violations) i
              || contains (map (derive_violation_id hashing) first_baseline.allowances) i))
evaluate-classifies_once_example =
    evaluate-classifies_once hashing policy first_baseline bundle one passing_report evaluated

validate_ratchet_baseline_structure-ok_example :
    (validate_ratchet_baseline_structure hashing next_baseline ≡ ok tt)
    ↔ IsValidBaseline hashing next_baseline
validate_ratchet_baseline_structure-ok_example =
    validate_ratchet_baseline_structure-ok hashing next_baseline

validate_ratchet_assessment_structure-ok_example :
    (validate_ratchet_assessment_structure hashing both ≡ ok tt) ↔ IsValidAssessment hashing both
validate_ratchet_assessment_structure-ok_example =
    validate_ratchet_assessment_structure-ok hashing both
