-- ===== src/Ratchet/Equality.antt =====
-- Equality of the documents of src/ucf/ratchet/models.py, as `==` of pydantic models: field by field.
use ucf.Prelude.{Eq, eq_of_discrete, String-discrete, ℕ_discrete}
use ucf.Ir.{EntityKind-discrete, Digest-discrete, BehaviorEntityRef-discrete}
use ucf.Ratchet.Models.{
  BehaviorSubjectKey, BehaviorSubjectRef, BehaviorSubjectSnapshot, CandidateRef, CoverageStatus,
  EvaluationOutcome, ObservedFingerprint, OnboardingBundleRef, RatchetAssessmentRef,
  RatchetBaselineRef, RatchetEvaluationReportRef, RatchetPolicyRef, RatchetRuleRef,
  SemanticFingerprint, SubjectChange, SubjectChangeKind, SubjectTrace, ViolationClassification,
  ViolationClassificationKind, ViolationKey, WeakeningDelta, WeakeningDeltaStatus,
}

unfoldable pub CoverageStatus-discrete : Discrete CoverageStatus
CoverageStatus-discrete = hlevel

unfoldable pub RatchetPolicyRef-discrete : Discrete RatchetPolicyRef
unfolding String-discrete Digest-discrete
RatchetPolicyRef-discrete = hlevel (String-discrete, Digest-discrete)

unfoldable pub OnboardingBundleRef-discrete : Discrete OnboardingBundleRef
unfolding Digest-discrete
OnboardingBundleRef-discrete = hlevel Digest-discrete

unfoldable pub CandidateRef-discrete : Discrete CandidateRef
unfolding String-discrete Digest-discrete
CandidateRef-discrete = hlevel (String-discrete, Digest-discrete)

unfoldable pub BehaviorSubjectKey-discrete : Discrete BehaviorSubjectKey
unfolding String-discrete EntityKind-discrete
BehaviorSubjectKey-discrete = hlevel (String-discrete, EntityKind-discrete)

unfoldable pub BehaviorSubjectRef-discrete : Discrete BehaviorSubjectRef
unfolding String-discrete
BehaviorSubjectRef-discrete = hlevel String-discrete

unfoldable pub RatchetRuleRef-discrete : Discrete RatchetRuleRef
unfolding String-discrete
RatchetRuleRef-discrete = hlevel String-discrete

unfoldable pub SemanticFingerprint-discrete : Discrete SemanticFingerprint
unfolding Digest-discrete
SemanticFingerprint-discrete = hlevel Digest-discrete

unfoldable pub ObservedFingerprint-discrete : Discrete ObservedFingerprint
unfolding Digest-discrete
ObservedFingerprint-discrete = hlevel Digest-discrete

unfoldable pub SubjectTrace-discrete : Discrete SubjectTrace
unfolding OnboardingBundleRef-discrete BehaviorEntityRef-discrete Digest-discrete
    CandidateRef-discrete String-discrete
SubjectTrace-discrete = hlevel (
  OnboardingBundleRef-discrete, BehaviorEntityRef-discrete, Digest-discrete, CandidateRef-discrete,
  String-discrete,
)

unfoldable pub BehaviorSubjectSnapshot-discrete : Discrete BehaviorSubjectSnapshot
unfolding String-discrete BehaviorSubjectKey-discrete SemanticFingerprint-discrete
    ObservedFingerprint-discrete SubjectTrace-discrete
BehaviorSubjectSnapshot-discrete = hlevel (
  String-discrete, BehaviorSubjectKey-discrete, SemanticFingerprint-discrete,
  ObservedFingerprint-discrete, SubjectTrace-discrete,
)

unfoldable pub ViolationKey-discrete : Discrete ViolationKey
unfolding RatchetRuleRef-discrete BehaviorSubjectRef-discrete String-discrete
ViolationKey-discrete =
    hlevel (RatchetRuleRef-discrete, BehaviorSubjectRef-discrete, String-discrete)

unfoldable pub RatchetAssessmentRef-discrete : Discrete RatchetAssessmentRef
unfolding String-discrete Digest-discrete
RatchetAssessmentRef-discrete = hlevel (String-discrete, Digest-discrete)

unfoldable pub RatchetBaselineRef-discrete : Discrete RatchetBaselineRef
unfolding String-discrete Digest-discrete ℕ_discrete
RatchetBaselineRef-discrete = hlevel (String-discrete, Digest-discrete, ℕ_discrete)

unfoldable pub RatchetEvaluationReportRef-discrete : Discrete RatchetEvaluationReportRef
unfolding String-discrete Digest-discrete
RatchetEvaluationReportRef-discrete = hlevel (String-discrete, Digest-discrete)

unfoldable pub SubjectChangeKind-discrete : Discrete SubjectChangeKind
SubjectChangeKind-discrete = hlevel

unfoldable pub SubjectChange-discrete : Discrete SubjectChange
unfolding BehaviorSubjectRef-discrete SubjectChangeKind-discrete
SubjectChange-discrete = hlevel (BehaviorSubjectRef-discrete, SubjectChangeKind-discrete)

unfoldable pub ViolationClassificationKind-discrete : Discrete ViolationClassificationKind
ViolationClassificationKind-discrete = hlevel

unfoldable pub ViolationClassification-discrete : Discrete ViolationClassification
unfolding ViolationClassificationKind-discrete ViolationKey-discrete
ViolationClassification-discrete =
    hlevel (ViolationClassificationKind-discrete, ViolationKey-discrete)

unfoldable pub WeakeningDeltaStatus-discrete : Discrete WeakeningDeltaStatus
WeakeningDeltaStatus-discrete = hlevel

unfoldable pub WeakeningDelta-discrete : Discrete WeakeningDelta
unfolding WeakeningDeltaStatus-discrete ViolationKey-discrete
WeakeningDelta-discrete = hlevel (WeakeningDeltaStatus-discrete, ViolationKey-discrete)

unfoldable pub EvaluationOutcome-discrete : Discrete EvaluationOutcome
EvaluationOutcome-discrete = hlevel

instance unfoldable pub semantic_fingerprint_eq : Eq SemanticFingerprint
unfolding eq_of_discrete SemanticFingerprint-discrete
semantic_fingerprint_eq = eq_of_discrete SemanticFingerprint-discrete

instance unfoldable pub observed_fingerprint_eq : Eq ObservedFingerprint
unfolding eq_of_discrete ObservedFingerprint-discrete
observed_fingerprint_eq = eq_of_discrete ObservedFingerprint-discrete

instance unfoldable pub ratchet_policy_ref_eq : Eq RatchetPolicyRef
unfolding eq_of_discrete RatchetPolicyRef-discrete
ratchet_policy_ref_eq = eq_of_discrete RatchetPolicyRef-discrete

instance unfoldable pub onboarding_bundle_ref_eq : Eq OnboardingBundleRef
unfolding eq_of_discrete OnboardingBundleRef-discrete
onboarding_bundle_ref_eq = eq_of_discrete OnboardingBundleRef-discrete

instance unfoldable pub coverage_status_eq : Eq CoverageStatus
unfolding eq_of_discrete CoverageStatus-discrete
coverage_status_eq = eq_of_discrete CoverageStatus-discrete

instance unfoldable pub behavior_subject_snapshot_eq : Eq BehaviorSubjectSnapshot
unfolding eq_of_discrete BehaviorSubjectSnapshot-discrete
behavior_subject_snapshot_eq = eq_of_discrete BehaviorSubjectSnapshot-discrete

instance unfoldable pub violation_key_eq : Eq ViolationKey
unfolding eq_of_discrete ViolationKey-discrete
violation_key_eq = eq_of_discrete ViolationKey-discrete

instance unfoldable pub ratchet_assessment_ref_eq : Eq RatchetAssessmentRef
unfolding eq_of_discrete RatchetAssessmentRef-discrete
ratchet_assessment_ref_eq = eq_of_discrete RatchetAssessmentRef-discrete

instance unfoldable pub ratchet_baseline_ref_eq : Eq RatchetBaselineRef
unfolding eq_of_discrete RatchetBaselineRef-discrete
ratchet_baseline_ref_eq = eq_of_discrete RatchetBaselineRef-discrete

instance unfoldable pub ratchet_evaluation_report_ref_eq : Eq RatchetEvaluationReportRef
unfolding eq_of_discrete RatchetEvaluationReportRef-discrete
ratchet_evaluation_report_ref_eq = eq_of_discrete RatchetEvaluationReportRef-discrete

instance unfoldable pub subject_change_eq : Eq SubjectChange
unfolding eq_of_discrete SubjectChange-discrete
subject_change_eq = eq_of_discrete SubjectChange-discrete

instance unfoldable pub violation_classification_eq : Eq ViolationClassification
unfolding eq_of_discrete ViolationClassification-discrete
violation_classification_eq = eq_of_discrete ViolationClassification-discrete

instance unfoldable pub weakening_delta_eq : Eq WeakeningDelta
unfolding eq_of_discrete WeakeningDelta-discrete
weakening_delta_eq = eq_of_discrete WeakeningDelta-discrete

instance unfoldable pub weakening_delta_status_eq : Eq WeakeningDeltaStatus
unfolding eq_of_discrete WeakeningDeltaStatus-discrete
weakening_delta_status_eq = eq_of_discrete WeakeningDeltaStatus-discrete

instance unfoldable pub evaluation_outcome_eq : Eq EvaluationOutcome
unfolding eq_of_discrete EvaluationOutcome-discrete
evaluation_outcome_eq = eq_of_discrete EvaluationOutcome-discrete
