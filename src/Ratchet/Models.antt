-- ===== src/Ratchet/Models.antt =====
-- The documents of src/ucf/ratchet/models.py, and the records of src/ucf/onboarding/models.py that they
-- hold. A field whose type is a `Literal` with one value (kind, ratchet_version, schema_uri,
-- procedure_uri of the report) is left out; a text constrained by a pattern is a `String`.
use ucf.Prelude.{
  ℕ, zero, suc, String, Bool, true, false, ◌&&◌, Option, none, some, List, ◌==◌, nat_eq, ◌*◌, leb,
  length,
}
use ucf.Ir.{EntityKind, Digest, Producer, BehaviorEntityRef, max_safe_integer}

abbrev pub max_ratchet_rules : ℕ
max_ratchet_rules = 256

abbrev pub max_ratchet_subjects : ℕ
max_ratchet_subjects = 256

-- MAX_RATCHET_RULES * MAX_RATCHET_SUBJECTS
abbrev pub max_ratchet_violations : ℕ
max_ratchet_violations = 65_536

-- Literal["complete", "partial"]
pub data CoverageStatus : Type 0 where
  complete partial : CoverageStatus

abbrev pub is_complete : CoverageStatus → Bool
is_complete complete = true
is_complete partial = false

pub record CandidateRef : Type 0 where
  pub discovery_digest : Digest
  pub candidate_id : String
  pub semantic_digest : Digest

pub record CaptureContext : Type 0 where
  pub captured_at : String
  pub environment : Digest

pub record CapabilitySelection : Type 0 where
  pub name : String
  pub version : String

pub record RatchetRule : Type 0 where
  pub id : String
  pub version : String
  pub procedure_uri : String
  pub producer : Producer
  pub summary : String

pub record RatchetPolicy : Type 0 where
  pub id : String
  pub evaluator : CapabilitySelection
  pub rules : List RatchetRule

pub record RatchetPolicyRef : Type 0 where
  pub target_id : String
  pub canonical_digest : Digest

pub record OnboardingBundleRef : Type 0 where
  pub canonical_digest : Digest

pub record BehaviorSubjectKey : Type 0 where
  pub subject_uri : String
  pub target_kind : EntityKind
  pub target_id : String

pub record BehaviorSubjectRef : Type 0 where
  pub target_id : String

pub record RatchetRuleRef : Type 0 where
  pub target_id : String
  pub version : String

pub record SemanticFingerprint : Type 0 where
  pub digest : Digest

pub record ObservedFingerprint : Type 0 where
  pub digest : Digest

pub record SubjectTrace : Type 0 where
  pub onboarding_bundle : OnboardingBundleRef
  pub behavior : BehaviorEntityRef
  pub inventory_source_revision : Digest
  pub candidate : CandidateRef
  pub decision_id : String

pub record BehaviorSubjectSnapshot : Type 0 where
  pub id : String
  pub key : BehaviorSubjectKey
  pub semantic : SemanticFingerprint
  pub observed : ObservedFingerprint
  pub trace : SubjectTrace

pub record ViolationKey : Type 0 where
  pub rule : RatchetRuleRef
  pub subject : BehaviorSubjectRef
  pub slot : String

pub record RatchetViolation : Type 0 where
  pub id : String
  pub key : ViolationKey
  pub message : String

pub record RuleCoverage : Type 0 where
  pub rule : RatchetRuleRef
  pub status : CoverageStatus
  pub subjects : List BehaviorSubjectRef

pub record RatchetAssessment : Type 0 where
  pub id : String
  pub policy : RatchetPolicyRef
  pub source : OnboardingBundleRef
  pub producer : Producer
  pub procedure_uri : String
  pub capture_context : CaptureContext
  pub subject_coverage : CoverageStatus
  pub subjects : List BehaviorSubjectSnapshot
  pub coverage : List RuleCoverage
  pub violations : List RatchetViolation

pub record RatchetAssessmentRef : Type 0 where
  pub target_id : String
  pub canonical_digest : Digest

pub record RatchetBaselineRef : Type 0 where
  pub target_id : String
  pub canonical_digest : Digest
  pub generation : ℕ

pub record RatchetEvaluationReportRef : Type 0 where
  pub target_id : String
  pub canonical_digest : Digest

pub record RatchetBaseline : Type 0 where
  pub id : String
  pub generation : ℕ
  pub policy : RatchetPolicyRef
  pub source_assessment : RatchetAssessmentRef
  pub source_evaluation : Option RatchetEvaluationReportRef
  pub predecessor : Option RatchetBaselineRef
  pub subjects : List BehaviorSubjectSnapshot
  pub allowances : List ViolationKey
  pub protected : List ViolationKey

pub data SubjectChangeKind : Type 0 where
  unchanged semantic_changed observed_changed semantic_and_observed_changed : SubjectChangeKind
  new_subject removed_subject unknown_subject : SubjectChangeKind

pub record SubjectChange : Type 0 where
  pub subject : BehaviorSubjectRef
  pub change : SubjectChangeKind

pub data ViolationClassificationKind : Type 0 where
  unchanged_legacy new_regression touched_legacy : ViolationClassificationKind
  reintroduced resolved unknown : ViolationClassificationKind

pub record ViolationClassification : Type 0 where
  pub classification : ViolationClassificationKind
  pub key : ViolationKey

pub data WeakeningDeltaStatus : Type 0 where
  unweakened tightening review_required : WeakeningDeltaStatus

pub record WeakeningDelta : Type 0 where
  pub status : WeakeningDeltaStatus
  pub added_allowances : List ViolationKey
  pub removed_allowances : List ViolationKey
  pub removed_protections : List ViolationKey

pub data EvaluationOutcome : Type 0 where
  pass fail inconclusive : EvaluationOutcome

pub record RatchetEvaluationReport : Type 0 where
  pub id : String
  pub policy : RatchetPolicyRef
  pub baseline : RatchetBaselineRef
  pub assessment : RatchetAssessmentRef
  pub subject_changes : List SubjectChange
  pub classifications : List ViolationClassification
  pub outcome : EvaluationOutcome
  pub weakening_delta : WeakeningDelta

-- The bounds that the fields of a `RatchetBaseline` declare; pydantic checks them where one is built.
unfoldable pub baseline_fits : RatchetBaseline → Bool
baseline_fits b =
    leb b.generation max_safe_integer
    && leb (length b.subjects) max_ratchet_subjects
    && leb (length b.allowances) max_ratchet_violations
    && leb (length b.protected) max_ratchet_violations

-- RatchetBaseline.validate_generation: whether the built document is accepted
unfoldable pub validate_generation :
    ℕ → Option RatchetBaselineRef → Option RatchetEvaluationReportRef → Bool
validate_generation zero none none = true
validate_generation zero _ _ = false
validate_generation (suc n) (some predecessor) (some _) = predecessor.generation == n
validate_generation (suc n) _ _ = false

-- The bounds that the fields of a `RatchetEvaluationReport` declare.
unfoldable pub report_fits : RatchetEvaluationReport → Bool
report_fits r =
    leb (length r.subject_changes) (max_ratchet_subjects * 2)
    && leb (length r.classifications) (max_ratchet_violations * 2)
    && leb (length r.weakening_delta.added_allowances) max_ratchet_violations
    && leb (length r.weakening_delta.removed_allowances) max_ratchet_violations
    && leb (length r.weakening_delta.removed_protections) max_ratchet_violations

-- The bounds that the fields of a `RatchetAssessment` declare.
unfoldable pub assessment_fits : RatchetAssessment → Bool
assessment_fits a =
    leb (length a.subjects) max_ratchet_subjects
    && leb (length a.coverage) max_ratchet_rules
    && leb (length a.violations) max_ratchet_violations
