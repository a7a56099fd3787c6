-- ===== src/Ratchet/Sample.antt =====
-- Concrete documents of the ratchet: a policy of one rule, one subject, and violations in its slots.
use ucf.Prelude.{String, List, [], ◌∷◌, refl, ok}
use ucf.Ir.{Digest, action}
use ucf.Ratchet.Models.{
  RatchetPolicy, BehaviorSubjectSnapshot, RatchetViolation, RatchetAssessment, RatchetBaseline,
  RatchetEvaluationReport, complete,
}
use ucf.Ratchet.Identity.{Hashing}
use ucf.Ratchet.Validation.{OnboardingView}
use ucf.Ratchet.Evaluation.Accepted.{report}
use ucf.Ratchet.Baseline.Establish.{initial}
use ucf.Ratchet.Baseline.Successor.{successor}

-- Documents are told apart by what stands for their content in a text.
abbrev pub hashing : Hashing
hashing = record {
  Json = String;
  dump_subject_key = λ key. key.target_id;
  dump_violation_key = λ key. key.slot;
  dump_policy = λ policy. policy.id;
  dump_policy_without_id = λ policy. policy.evaluator.name;
  dump_assessment = λ assessment. assessment.id;
  dump_assessment_without_id = λ assessment. assessment.producer.name;
  dump_baseline = λ baseline. baseline.id;
  dump_baseline_without_id = λ baseline. baseline.policy.target_id;
  dump_report = λ report. report.id;
  dump_report_without_id = λ report. report.assessment.target_id;
  digest_value = λ text. text;
  assessment_id_excluded = λ _ _. refl;
  baseline_id_excluded = λ _ _. refl;
  report_id_excluded = λ _ _. refl;
}

abbrev digest : String → Digest
digest value = record { value = value }

abbrev pub policy : RatchetPolicy
policy = record {
  id = "policy.engine";
  evaluator = record { name = "engine"; version = "1.0.0" };
  rules =
      record {
        id = "rule.naming";
        version = "1.0.0";
        procedure_uri = "urn:naming";
        producer = record { name = "engine"; version = "1.0.0" };
        summary = "names";
      }
      ∷ [];
}

-- The subject, with a semantic fingerprint.
abbrev pub subject : String → BehaviorSubjectSnapshot
subject fingerprint = record {
  id = "subject.login";
  key = record { subject_uri = "urn:login"; target_kind = action; target_id = "login" };
  semantic = record { digest = digest fingerprint };
  observed = record { digest = digest "observed" };
  trace = record {
    onboarding_bundle = record { canonical_digest = digest "bundle" };
    behavior = record {
      document_id = "document";
      canonical_digest = digest "document";
      target_kind = action;
      target_id = "login";
    };
    inventory_source_revision = digest "revision";
    candidate = record {
      discovery_digest = digest "discovery";
      candidate_id = "candidate";
      semantic_digest = digest "candidate";
    };
    decision_id = "decision";
  };
}

abbrev pub violation_in : String → String → RatchetViolation
violation_in id slot = record {
  id = id;
  key = record {
    rule = record { target_id = "rule.naming"; version = "1.0.0" };
    subject = record { target_id = "subject.login" };
    slot = slot;
  };
  message = "bad name";
}

abbrev pub bundle : OnboardingView
bundle = record {
  canonical_digest = digest "bundle";
  discovery_status = complete;
  subject_snapshots = ok (subject "semantic" ∷ []);
}

abbrev assessment : String → List RatchetViolation → RatchetAssessment
assessment name violations = record {
  id = name;
  policy = record { target_id = "policy.engine"; canonical_digest = digest "policy.engine" };
  source = record { canonical_digest = digest "bundle" };
  producer = record { name = "first"; version = "1.0.0" };
  procedure_uri = "urn:assess";
  capture_context = record {
    captured_at = "2026-01-01T00:00:00Z";
    environment = digest "environment";
  };
  subject_coverage = complete;
  subjects = subject "semantic" ∷ [];
  coverage =
      record {
        rule = record { target_id = "rule.naming"; version = "1.0.0" };
        status = complete;
        subjects = record { target_id = "subject.login" } ∷ [];
      }
      ∷ [];
  violations = violations;
}

-- Two violations; the first of them alone; and both again.
abbrev pub both : RatchetAssessment
both =
    assessment "assessment.first"
      (violation_in "violation.a" "a" ∷ violation_in "violation.b" "b" ∷ [])

abbrev pub one : RatchetAssessment
one = assessment "assessment.first" (violation_in "violation.a" "a" ∷ [])

-- The baseline that allows both, the report on the one, the baseline after it, and the report on both.
unfoldable pub first_baseline : RatchetBaseline
unfolding initial
first_baseline = initial hashing both

unfoldable pub passing_report : RatchetEvaluationReport
unfolding report
passing_report = report hashing policy first_baseline bundle one

unfoldable pub next_baseline : RatchetBaseline
unfolding successor
next_baseline = successor hashing policy first_baseline bundle one passing_report

unfoldable pub failing_report : RatchetEvaluationReport
unfolding report
failing_report = report hashing policy next_baseline bundle both
