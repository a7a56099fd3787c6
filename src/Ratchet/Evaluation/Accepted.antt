-- ===== src/Ratchet/Evaluation/Accepted.antt =====
-- When `evaluate_ratchet` of src/ucf/ratchet/evaluation.py returns, and what it returns.
use ucf.Prelude.{
  ℕ, String, ◌≡◌, ◌↔◌, refl, ◌∙◌, true, false, not, List, map, string_eq, pair_eq, pair_order,
  text_order, contains, contains-to_set, any, length, nat_beq_iff, All, All-map_iff, IsUnique,
  to_set, contains_of_subset, any-not-false_iff, length-map, IsIncreasing-IsUnique, ok, ◌>>◌,
  raise_if, for_each-ok, arith,
}
use ucf.Ratchet.Models.{
  RatchetPolicy, ViolationKey, RuleCoverage, RatchetAssessment, RatchetBaseline, report_fits,
  RatchetEvaluationReport,
}
use ucf.Ratchet.Equality.{ratchet_policy_ref_eq}
use ucf.Ratchet.Identity.{
  ratchet_error, model_error, at, Hashing, policy_ref, derive_evaluation_id,
  document_identity_mismatch,
}
use ucf.Ratchet.Validation.{
  OnboardingView, rule_key, policy_rule_key, coverage_key, check_coverage_rule,
  validate_assessment_references, validate_ratchet_assessment,
}
use ucf.Ratchet.Validation.Accepts.{
  differs-ok, IsValidBaseline, validate_ratchet_baseline_structure-ok,
}
use ucf.Ratchet.Validation.Assessment.{
  IsValidAssessment, validate_ratchet_assessment-IsValidAssessment,
}
use ucf.Ratchet.Evaluation.{provisional_report, derive_evaluation, evaluate_ratchet}
use ucf.Ratchet.Evaluation.Changes.{change_at, changed_ids, subject_changes-eq}
use ucf.Ratchet.Evaluation.Classes.{classes, classify-eq}

check_coverage_rule-ok :
    (rules : List (String × String)) (i : ℕ) (c : RuleCoverage)
    → (check_coverage_rule rules i c ≡ ok tt) ↔ (contains rules (coverage_key c) ≡ true)
unfolding check_coverage_rule
check_coverage_rule-ok rules i c = (λ e. ground arith, λ e. ground arith)

module _ (h : Hashing) (policy : RatchetPolicy) (b : RatchetBaseline) (bundle : OnboardingView)
    (a : RatchetAssessment) where
  abbrev pub PolicyRules : List ViolationKey → Type 0
  PolicyRules keys =
      All
        (λ (key : ViolationKey).
          contains (map policy_rule_key policy.rules) (rule_key key.rule) ≡ true)
        keys

  -- The checks that `evaluate_ratchet` makes of its arguments.
  pub record Accepted : Type 0 where
    pub assessment : validate_ratchet_assessment h policy bundle a ≡ ok tt
    pub baseline : IsValidBaseline h b
    pub same_policy : b.policy ≡ policy_ref h policy
    pub allowance_rules : PolicyRules b.allowances
    pub protected_rules : PolicyRules b.protected

  unfoldable pub provisional : RatchetEvaluationReport
  provisional =
      provisional_report h policy b a (map (change_at b a) (changed_ids b a)) (classes h b a)

  -- The report that the documents determine.
  unfoldable pub report : RatchetEvaluationReport
  unfolding provisional
  report = record provisional { id = derive_evaluation_id h provisional }

  derive_evaluation-eq :
      IsValidBaseline h b
      → IsValidAssessment h a
      → derive_evaluation h policy b a
        ≡ (raise_if (not (report_fits provisional)) model_error >> ok report)
  unfolding derive_evaluation report
  derive_evaluation-eq vb va =
      rw (subject_changes-eq b a vb.valid_subjects.unique_ids va.valid_subjects.unique_ids)
        (rw (classify-eq h b a vb va) refl)

  known_rules :
      (keys : List ViolationKey)
      → (any
            (λ (key : ViolationKey).
              not (contains (map policy_rule_key policy.rules) (rule_key key.rule)))
            keys
          ≡ false)
        ↔ PolicyRules keys
  known_rules keys =
      any-not-false_iff
        (λ (key : ViolationKey). contains (map policy_rule_key policy.rules) (rule_key key.rule))
        keys

  pub evaluate-Accepted :
      {r : RatchetEvaluationReport} → evaluate_ratchet h policy b bundle a ≡ ok r → Accepted
  unfolding evaluate_ratchet
  evaluate-Accepted e = record {
    assessment = ground arith;
    baseline = (validate_ratchet_baseline_structure-ok h b).0 (ground arith);
    same_policy =
        (differs-ok b.policy (policy_ref h policy)
            (ratchet_error document_identity_mismatch (at "$.baseline.policy"))).0
          (ground arith);
    allowance_rules = (known_rules b.allowances).0 (ground arith);
    protected_rules = (known_rules b.protected).0 (ground arith);
  }

  -- On accepted documents the only thing that can fail is the size of the report.
  pub evaluate-eq :
      Accepted
      → evaluate_ratchet h policy b bundle a
        ≡ (raise_if (not (report_fits provisional)) model_error >> ok report)
  unfolding evaluate_ratchet
  evaluate-eq acc = ground (
    arith,
    acc.assessment,
    (validate_ratchet_baseline_structure-ok h b).1 acc.baseline,
    (differs-ok b.policy (policy_ref h policy)
          (ratchet_error document_identity_mismatch (at "$.baseline.policy"))).1
        acc.same_policy,
    (known_rules b.allowances).1 acc.allowance_rules,
    (known_rules b.protected).1 acc.protected_rules,
    derive_evaluation-eq acc.baseline
        (validate_ratchet_assessment-IsValidAssessment h policy bundle a acc.assessment),
  )

  -- What it returns is the report that the documents determine.
  pub evaluate-report :
      {r : RatchetEvaluationReport} → evaluate_ratchet h policy b bundle a ≡ ok r → r ≡ report
  evaluate-report e = ground (arith, evaluate-eq (evaluate-Accepted e))

  -- Every rule of the policy is covered: the coverage records are as many, and name no other rule.
  pub covered_rules :
      (rule : String × String)
      → validate_ratchet_assessment h policy bundle a ≡ ok tt
      → contains (map policy_rule_key policy.rules) rule ≡ true
      → contains (map coverage_key a.coverage) rule ≡ true
  unfolding validate_ratchet_assessment validate_assessment_references
  covered_rules rule accepted m =
      contains_of_subset (map coverage_key a.coverage) rules rule unique inside same
        (contains-to_set (map policy_rule_key policy.rules) rule ∙ m)
    where
      rules : List (String × String)
      rules = to_set (map policy_rule_key policy.rules)

      unique : IsUnique (map coverage_key a.coverage)
      unique =
          IsIncreasing-IsUnique ⦃o = pair_order⦄ (map coverage_key a.coverage)
            (validate_ratchet_assessment-IsValidAssessment h policy bundle a
              accepted).canonical_coverage

      same : length (map coverage_key a.coverage) ≡ length rules
      same =
          length-map a.coverage coverage_key
          ∙ (nat_beq_iff (length a.coverage) (length rules)).0 (ground arith)

      inside : All (λ k. contains rules k ≡ true) (map coverage_key a.coverage)
      inside = (All-map_iff (λ k. contains rules k ≡ true) coverage_key a.coverage).1 (
          (for_each-ok (λ c. contains rules (coverage_key c) ≡ true) (check_coverage_rule rules)
              (check_coverage_rule-ok rules) 0 a.coverage).0
            (ground arith))

-- Evaluating returns a report exactly when the documents are accepted and the report meets the bounds
-- of its model; what it returns is the report that the documents determine.
pub evaluate-exact :
    (h : Hashing) (policy : RatchetPolicy) (b : RatchetBaseline) (bundle : OnboardingView)
    (a : RatchetAssessment) (r : RatchetEvaluationReport)
    → (evaluate_ratchet h policy b bundle a ≡ ok r) ↔ (
        Accepted h policy b bundle a
        × (report_fits (provisional h policy b bundle a) ≡ true)
        × (r ≡ report h policy b bundle a))
evaluate-exact h policy b bundle a r = (
  λ e.
      let acc = evaluate-Accepted h policy b bundle a e in
      (
        acc,
        ground (arith, evaluate-eq h policy b bundle a acc),
        evaluate-report h policy b bundle a e,
      ),
  λ (acc, fits, same). ground (arith, evaluate-eq h policy b bundle a acc, fits, same),
)
