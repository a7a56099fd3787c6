-- ===== src/Ratchet/Evaluation/Outcome.antt =====
-- The outcome of `evaluate_ratchet` of src/ucf/ratchet/evaluation.py.
use ucf.Prelude.Dict.{get-map}
use ucf.Prelude.{
  String, ◌≡◌, ◌↔◌, refl, sym, ◌∙◌, ap, Bool, true, false, ◌||◌, List, ◌++◌, ap₂, map, string_eq,
  pair_eq, text_order, contains, any, any-append, any-map, any-false_iff, any-not-false_iff,
  any-sorted_by, All, All-imp, All-intro, All-filter, ok, Bool-cases, inl, inr, arith,
  if◌then◌else◌,
}
use ucf.Ratchet.Models.{
  RatchetPolicy, ViolationKey, RatchetViolation, RuleCoverage, RatchetAssessment, RatchetBaseline,
  SubjectChange, pass, fail, inconclusive, is_complete, RatchetEvaluationReport,
}
use ucf.Ratchet.Identity.{Hashing}
use ucf.Ratchet.Validation.{OnboardingView, rule_key, coverage_key}
use ucf.Ratchet.Validation.Assessment.{validate_ratchet_assessment-IsValidAssessment}
use ucf.Ratchet.Evaluation.{
  is_regression, is_unknown, is_unknown_subject, classification_of, subject_change,
  fingerprint_change, has_unknown, outcome_of, provisional_report, evaluate_ratchet,
}
use ucf.Ratchet.Evaluation.Changes.{change_at, changed_ids}
use ucf.Ratchet.Evaluation.Classes.{present_kind, present, absent, absent_keys, classes, class_id}
use ucf.Ratchet.Evaluation.Accepted.{
  Accepted, provisional, report, evaluate-Accepted, evaluate-report, covered_rules,
}
use ucf.Ratchet.Evaluation.Tolerated.{Tolerated, present_kind-Tolerated}

or_false : (b : Bool) → (b || false) ≡ b
or_false b = ground arith

-- Subjects and rules were assessed completely.
pub record FullyCovered (a : RatchetAssessment) : Type 0 where
  pub subjects : is_complete a.subject_coverage ≡ true
  pub rules : All (λ (c : RuleCoverage). is_complete c.status ≡ true) a.coverage

module _ (h : Hashing) (b : RatchetBaseline) (a : RatchetAssessment) where
  absent-not_regression :
      (key : ViolationKey) → is_regression (classification_of (absent h b a key)) ≡ false
  unfolding absent
  absent-not_regression key = ground arith

  present-not_unknown :
      (v : RatchetViolation) → is_unknown (classification_of (present h b a v)) ≡ false
  unfolding present_kind
  present-not_unknown v = ground arith

  -- A covered allowance that is gone is resolved.
  pub absent-not_unknown :
      (key : ViolationKey)
      → FullyCovered a
      → contains (map coverage_key a.coverage) (rule_key key.rule) ≡ true
      → is_unknown (classification_of (absent h b a key)) ≡ false
  unfolding absent
  absent-not_unknown key full m =
      let (c, found, _, done) =
        get-map coverage_key (λ (c : RuleCoverage). c.status)
          (λ (c : RuleCoverage). is_complete c.status ≡ true) a.coverage (rule_key key.rule)
          full.rules m in
      rw found (rw done (rw (full.subjects) refl))

  change_at-not_unknown :
      (i : String)
      → is_complete a.subject_coverage ≡ true
      → is_unknown_subject (change_at b a i).change ≡ false
  unfolding change_at subject_change fingerprint_change
  change_at-not_unknown i full = ground arith

  -- Only what is present can be a regression.
  any-classes-regression :
      any (λ c. is_regression (classification_of c)) (classes h b a)
      ≡ any (λ v. is_regression (classification_of (present h b a v))) a.violations
  any-classes-regression =
      any-sorted_by (class_id h b a) _
        (map (present h b a) a.violations ++ map (absent h b a) (absent_keys h b a))
      ∙ any-append _ (map (present h b a) a.violations) (map (absent h b a) (absent_keys h b a))
      ∙ ap₂ ◌||◌ (any-map _ (present h b a) a.violations) (
          any-map _ (absent h b a) (absent_keys h b a)
          ∙ (any-false_iff _ (absent_keys h b a)).1
              (All-intro _ (absent_keys h b a) absent-not_regression))
      ∙ or_false (any (λ v. is_regression (classification_of (present h b a v))) a.violations)

  any-classes-unknown :
      FullyCovered a
      → All
          (λ (key : ViolationKey).
            contains (map coverage_key a.coverage) (rule_key key.rule) ≡ true)
          b.allowances
      → any (λ c. is_unknown (classification_of c)) (classes h b a) ≡ false
  any-classes-unknown full covered =
      any-sorted_by (class_id h b a) _
        (map (present h b a) a.violations ++ map (absent h b a) (absent_keys h b a))
      ∙ any-append _ (map (present h b a) a.violations) (map (absent h b a) (absent_keys h b a))
      ∙ ap₂ ◌||◌
          (any-map _ (present h b a) a.violations
            ∙ (any-false_iff _ a.violations).1 (All-intro _ a.violations present-not_unknown))
          (any-map _ (absent h b a) (absent_keys h b a)
            ∙ (any-false_iff _ (absent_keys h b a)).1 (
                All-imp
                  (λ (key : ViolationKey).
                    contains (map coverage_key a.coverage) (rule_key key.rule) ≡ true)
                  _ (absent_keys h b a) (λ key m. absent-not_unknown key full m)
                  (All-filter _ _ b.allowances covered)))

  abbrev changes : List SubjectChange
  changes = map (change_at b a) (changed_ids b a)

  has_unknown-FullyCovered :
      All
        (λ (key : ViolationKey). contains (map coverage_key a.coverage) (rule_key key.rule) ≡ true)
        b.allowances
      → (has_unknown changes (classes h b a) a ≡ false) ↔ FullyCovered a
  unfolding has_unknown
  has_unknown-FullyCovered covered = (
    λ e. record {
      subjects = ground arith;
      rules =
          (any-not-false_iff (λ (c : RuleCoverage). is_complete c.status) a.coverage).0
            (ground arith);
    },
    λ full. ground (
      arith,
      any-classes-unknown full covered,
      any-map (λ (c : SubjectChange). is_unknown_subject c.change) (change_at b a)
          (changed_ids b a),
      (any-false_iff _ (changed_ids b a)).1
          (All-intro _ (changed_ids b a) (λ i. change_at-not_unknown i full.subjects)),
      full.subjects,
      (any-not-false_iff (λ (c : RuleCoverage). is_complete c.status) a.coverage).1 full.rules,
    ),
  )

module _ (h : Hashing) (policy : RatchetPolicy) (b : RatchetBaseline) (bundle : OnboardingView)
    (a : RatchetAssessment) (r : RatchetEvaluationReport)
    (evaluated : evaluate_ratchet h policy b bundle a ≡ ok r) where
  accepted : Accepted h policy b bundle a
  accepted = evaluate-Accepted h policy b bundle a evaluated

  pub covered :
      All
        (λ (key : ViolationKey). contains (map coverage_key a.coverage) (rule_key key.rule) ≡ true)
        b.allowances
  covered =
      All-imp _ _ b.allowances
        (λ (key : ViolationKey).
          covered_rules h policy b bundle a (rule_key key.rule) accepted.assessment)
        accepted.allowance_rules

  any_regression : Bool
  any_regression = any (λ c. is_regression (classification_of c)) (classes h b a)

  any_regression-Tolerated : (any_regression ≡ false) ↔ All (Tolerated h b a) a.violations
  unfolding any_regression
  any_regression-Tolerated =
      let va =
        validate_ratchet_assessment-IsValidAssessment h policy bundle a accepted.assessment in
      let each =
        present_kind-Tolerated h b a accepted.baseline.valid_subjects.unique_ids
          va.valid_subjects.unique_ids in
      let test =
        any-false_iff (λ v. is_regression (classification_of (present h b a v))) a.violations in
      (
        λ e.
            All-imp _ (Tolerated h b a) a.violations (λ v n. (each v).0 n)
              (test.0 (sym (any-classes-regression h b a) ∙ e)),
        λ t.
            any-classes-regression h b a
            ∙ test.1 (All-imp (Tolerated h b a) _ a.violations (λ v n. (each v).1 n) t),
      )

  outcome-eq : r.outcome ≡ (
      if any_regression
      then fail
      else if has_unknown (changes h b a) (classes h b a) a
      then inconclusive
      else pass)
  unfolding any_regression report provisional provisional_report outcome_of
  outcome-eq =
      ap (λ (q : RatchetEvaluationReport). q.outcome)
        (evaluate-report h policy b bundle a evaluated)

  -- An evaluation passes exactly when the assessment is complete and each of its violations is
  -- tolerated: allowed by the baseline, not protected against, on a subject with the fingerprints
  -- that the baseline recorded.
  pub evaluate-pass_iff : (r.outcome ≡ pass) ↔ (All (Tolerated h b a) a.violations × FullyCovered a)
  evaluate-pass_iff =
      let full = has_unknown-FullyCovered h b a covered in
      (
        λ p. (
          any_regression-Tolerated.0 (ground (arith, outcome-eq)),
          full.0 (ground (arith, outcome-eq)),
        ),
        λ q. ground (arith, outcome-eq, any_regression-Tolerated.1 q.0, full.1 q.1),
      )

  -- An evaluation fails exactly when some violation is not tolerated, complete or not.
  pub evaluate-fail_iff : (r.outcome ≡ fail) ↔ (¬ All (Tolerated h b a) a.violations)
  evaluate-fail_iff = (
    λ f t. absurd (ground (arith, outcome-eq, any_regression-Tolerated.1 t)),
    λ n. elim (Bool-cases any_regression) [
      | inl e ↦ ground (arith, outcome-eq)
      | inr e ↦ absurd (n (any_regression-Tolerated.0 e))
    ],
  )
