-- ===== src/Ratchet/Identity.antt =====
-- src/ucf/ratchet/identity.py, references.py and errors.py. pydantic's `model_dump`, `json.dumps` and
-- SHA-256 are outside the repository: they are the operations of `Hashing`.
use Prim.Native.String.{◌++◌}
use ucf.Prelude.{ℕ, String, ◌≡◌}
use ucf.Ratchet.Models.{
  RatchetPolicy, RatchetPolicyRef, BehaviorSubjectKey, ViolationKey, RatchetAssessment,
  RatchetAssessmentRef, RatchetBaseline, RatchetBaselineRef, RatchetEvaluationReport,
  RatchetEvaluationReportRef,
}

-- errors.py: RatchetErrorCode
pub data RatchetErrorCode : Type 0 where
  broken_reference content_identity_mismatch document_identity_mismatch : RatchetErrorCode
  duplicate_identity illegal_weakening incomplete_coverage non_canonical_order : RatchetErrorCode
  summary_mismatch wrong_target_kind : RatchetErrorCode

-- The `location` of an error: `at "$.rules"`, and `item "$.violations" 3 ".id"` for
-- "$.violations[3].id".
pub data Location : Type 0 where
  at : String → Location
  item : String → ℕ → String → Location

-- What the code raises: a RatchetValidationError (its message is left out), pydantic's
-- ValidationError, the KeyError of a dict and the AttributeError of `None`.
pub data RatchetFailure : Type 0 where
  ratchet_error : RatchetErrorCode → Location → RatchetFailure
  model_error key_error attribute_error : RatchetFailure

-- `dump_x` is `x.model_dump(mode="json")`, `dump_x_without_id` is `x.model_dump(mode="json",
-- exclude={"id"})`, `digest_value` the hexadecimal SHA-256 of the canonical JSON. The laws say that
-- the excluded field does not show in the dump.
pub record Hashing : Type 1 where
  pub Json : Type 0
  pub dump_subject_key : BehaviorSubjectKey → Json
  pub dump_violation_key : ViolationKey → Json
  pub dump_policy : RatchetPolicy → Json
  pub dump_policy_without_id : RatchetPolicy → Json
  pub dump_assessment : RatchetAssessment → Json
  pub dump_assessment_without_id : RatchetAssessment → Json
  pub dump_baseline : RatchetBaseline → Json
  pub dump_baseline_without_id : RatchetBaseline → Json
  pub dump_report : RatchetEvaluationReport → Json
  pub dump_report_without_id : RatchetEvaluationReport → Json
  pub digest_value : Json → String
  pub assessment_id_excluded :
      (a : RatchetAssessment) (id : String)
      → dump_assessment_without_id (record a { id = id }) ≡ dump_assessment_without_id a
  pub baseline_id_excluded :
      (b : RatchetBaseline) (id : String)
      → dump_baseline_without_id (record b { id = id }) ≡ dump_baseline_without_id b
  pub report_id_excluded :
      (r : RatchetEvaluationReport) (id : String)
      → dump_report_without_id (record r { id = id }) ≡ dump_report_without_id r

module _ (h : Hashing) where
  unfoldable pub derive_policy_id : RatchetPolicy → String
  derive_policy_id policy = "policy." ++ h.digest_value (h.dump_policy_without_id policy)

  unfoldable pub derive_assessment_id : RatchetAssessment → String
  derive_assessment_id assessment =
      "assessment." ++ h.digest_value (h.dump_assessment_without_id assessment)

  unfoldable pub derive_behavior_subject_id : BehaviorSubjectKey → String
  derive_behavior_subject_id key = "subject." ++ h.digest_value (h.dump_subject_key key)

  unfoldable pub derive_violation_id : ViolationKey → String
  derive_violation_id key = "violation." ++ h.digest_value (h.dump_violation_key key)

  unfoldable pub derive_baseline_id : RatchetBaseline → String
  derive_baseline_id baseline = "baseline." ++ h.digest_value (h.dump_baseline_without_id baseline)

  unfoldable pub derive_evaluation_id : RatchetEvaluationReport → String
  derive_evaluation_id report = "evaluation." ++ h.digest_value (h.dump_report_without_id report)

  -- references.py
  unfoldable pub policy_ref : RatchetPolicy → RatchetPolicyRef
  policy_ref policy = record {
    target_id = policy.id;
    canonical_digest = record { value = h.digest_value (h.dump_policy policy) };
  }

  unfoldable pub assessment_ref : RatchetAssessment → RatchetAssessmentRef
  assessment_ref assessment = record {
    target_id = assessment.id;
    canonical_digest = record { value = h.digest_value (h.dump_assessment assessment) };
  }

  unfoldable pub baseline_ref : RatchetBaseline → RatchetBaselineRef
  baseline_ref baseline = record {
    target_id = baseline.id;
    canonical_digest = record { value = h.digest_value (h.dump_baseline baseline) };
    generation = baseline.generation;
  }

  unfoldable pub evaluation_ref : RatchetEvaluationReport → RatchetEvaluationReportRef
  evaluation_ref report = record {
    target_id = report.id;
    canonical_digest = record { value = h.digest_value (h.dump_report report) };
  }

  -- An identity that is stamped on its own document is the one derived from the result.
  pub derive_baseline_id-stamp :
      (b : RatchetBaseline) (id : String)
      → derive_baseline_id (record b { id = id }) ≡ derive_baseline_id b
  unfolding derive_baseline_id
  derive_baseline_id-stamp b id = rw (h.baseline_id_excluded b id)

  pub derive_evaluation_id-stamp :
      (r : RatchetEvaluationReport) (id : String)
      → derive_evaluation_id (record r { id = id }) ≡ derive_evaluation_id r
  unfolding derive_evaluation_id
  derive_evaluation_id-stamp r id = rw (h.report_id_excluded r id)
