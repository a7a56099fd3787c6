-- ===== src/Ratchet/Report/Exact.antt =====
-- What `validate_ratchet_evaluation_report` of src/ucf/ratchet/validation.py accepts.
use ucf.Prelude.{
  ◌≡◌, ◌↔◌, Eq, ap, >>-ok, >>=-eq-ok, String, sym, ◌∙◌, not, ◌==◌, ==_refl, string_eq, list_eq,
  Result, ok, ◌>>◌, raise_if, arith,
}
use ucf.Ratchet.Models.{RatchetPolicy, RatchetAssessment, RatchetBaseline, RatchetEvaluationReport}
use ucf.Ratchet.Equality.{
  ratchet_policy_ref_eq, ratchet_baseline_ref_eq, ratchet_assessment_ref_eq, subject_change_eq,
  violation_classification_eq, evaluation_outcome_eq, weakening_delta_eq,
}
use ucf.Ratchet.Identity.{RatchetFailure, ratchet_error, summary_mismatch, at, Hashing}
use ucf.Ratchet.Validation.{OnboardingView}
use ucf.Ratchet.Validation.Accepts.{differs-ok}
use ucf.Ratchet.Validation.Assessment.{validate_ratchet_assessment-IsValidAssessment}
use ucf.Ratchet.Evaluation.{evaluate_ratchet}
use ucf.Ratchet.Evaluation.Accepted.{evaluate-Accepted, evaluate-report}
use ucf.Ratchet.Report.{
  compare_reports, validate_ratchet_evaluation_report_structure, validate_ratchet_evaluation_report,
}
use ucf.Ratchet.Report.Structure.{report-structure}

-- `if a != b: raise` before the rest.
same-then {ℓ} :
    {A : Type ℓ} ⦃e : Eq A⦄ (a b : A) (failure : RatchetFailure)
    (rest : Result RatchetFailure (Unit {0}))
    → ((raise_if (not (a == b)) failure >> rest) ≡ ok tt) ↔ ((a ≡ b) × (rest ≡ ok tt))
same-then a b failure rest =
    let both = >>-ok (raise_if (not (a == b)) failure) rest in
    let same = differs-ok a b failure in
    (λ h. (same.0 (both.0 h).0, (both.0 h).1), λ h. both.1 (same.1 h.0, h.1))

-- The comparison covers every field of a report.
compare_reports-ok : (r s : RatchetEvaluationReport) → compare_reports r s ≡ ok tt → r ≡ s
unfolding compare_reports
compare_reports-ok r s e =
    let f = λ (location : String). ratchet_error summary_mismatch (at location) in
    let (policy, e1) = (same-then r.policy s.policy (f "$.policy") _).0 e in
    let (baseline, e2) = (same-then r.baseline s.baseline (f "$.baseline") _).0 e1 in
    let (assessment, e3) = (same-then r.assessment s.assessment (f "$.assessment") _).0 e2 in
    let (changes, e4) =
      (same-then r.subject_changes s.subject_changes (f "$.subject_changes") _).0 e3 in
    let (classes, e5) =
      (same-then r.classifications s.classifications (f "$.classifications") _).0 e4 in
    let (outcome, e6) = (same-then r.outcome s.outcome (f "$.outcome") _).0 e5 in
    let (delta, e7) =
      (same-then r.weakening_delta s.weakening_delta (f "$.weakening_delta") _).0 e6 in
    let id = (differs-ok r.id s.id (f "$.id")).0 e7 in cc

compare_reports_self : (r : RatchetEvaluationReport) → compare_reports r r ≡ ok tt
unfolding compare_reports
compare_reports_self r = ground (
  arith,
  ==_refl r.policy,
  ==_refl r.baseline,
  ==_refl r.assessment,
  ==_refl r.subject_changes,
  ==_refl r.classifications,
  ==_refl r.outcome,
  ==_refl r.weakening_delta,
  ==_refl r.id,
)

-- A report is accepted for its sources exactly when it is the report that evaluating them gives.
pub validate_report-exact :
    (h : Hashing) (policy : RatchetPolicy) (b : RatchetBaseline) (bundle : OnboardingView)
    (a : RatchetAssessment) (r : RatchetEvaluationReport)
    → (validate_ratchet_evaluation_report h policy b bundle a r ≡ ok tt)
      ↔ (evaluate_ratchet h policy b bundle a ≡ ok r)
unfolding validate_ratchet_evaluation_report
validate_report-exact h policy b bundle a r = (
  λ e.
      let (tt, _, rest) = >>=-eq-ok (validate_ratchet_evaluation_report_structure h r) _ e in
      let (expected, evaluated, same) =
        >>=-eq-ok (evaluate_ratchet h policy b bundle a) (compare_reports r) rest in
      evaluated ∙ ap ok (sym (compare_reports-ok r expected same)),
  λ e.
      let acc = evaluate-Accepted h policy b bundle a e in
      let va = validate_ratchet_assessment-IsValidAssessment h policy bundle a acc.assessment in
      let structure = report-structure h policy b bundle a acc.baseline va in
      ground (arith, e, structure, evaluate-report h policy b bundle a e, compare_reports_self r),
)
