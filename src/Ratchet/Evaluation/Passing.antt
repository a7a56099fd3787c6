-- ===== src/Ratchet/Evaluation/Passing.antt =====
-- What a passing report of src/ucf/ratchet/evaluation.py keeps and what it resolves.
use ucf.Prelude.{
  String, ◌≡◌, refl, sym, ◌∙◌, ap, ap₂, Bool, true, false, not, ◌&&◌, ◌||◌, ◌++◌, map, map-map,
  ◌==◌, string_eq, pair_eq, text_order, contains, contains-map, contains-selected, any, any-append,
  any-map, any-filter, any-keyed, any-sorted_by, any_cong, any-false, All, All-imp, All-imp_two,
  All-filter, filter, IsIncreasing, IsIncreasing-filter, ok, arith,
}
use ucf.Ratchet.Models.{
  RatchetPolicy, ViolationKey, RatchetViolation, RatchetAssessment, RatchetBaseline,
  ViolationClassification, ViolationClassificationKind, pass, RatchetEvaluationReport,
}
use ucf.Ratchet.Identity.{Hashing, derive_violation_id}
use ucf.Ratchet.Validation.{OnboardingView, rule_key, coverage_key, violation_id}
use ucf.Ratchet.Validation.Accepts.{violation_ids}
use ucf.Ratchet.Validation.Assessment.{
  IsValidAssessment, validate_ratchet_assessment-IsValidAssessment,
}
use ucf.Ratchet.Evaluation.{
  is_resolved, is_unknown, is_unchanged_legacy, is_regression, classification_of, keys_where,
  provisional_report, evaluate_ratchet,
}
use ucf.Ratchet.Evaluation.Classes.{
  present_kind, present, entry, absent, absent_keys, classes, class_id,
}
use ucf.Ratchet.Evaluation.Accepted.{provisional, report, evaluate-Accepted, evaluate-report}
use ucf.Ratchet.Evaluation.Tolerated.{Tolerated, present_kind-Tolerated}
use ucf.Ratchet.Evaluation.Outcome.{FullyCovered, evaluate-pass_iff, covered, absent-not_unknown}
use ucf.Ratchet.Report.Ids.{class_ids-IsIncreasing}

or_false : (p : Bool) → (p || false) ≡ p
or_false p = ground arith

module _ (h : Hashing) (b : RatchetBaseline) (a : RatchetAssessment) where
  -- The ids of the classified keys that pass a test of the classification.
  contains-keys_where :
      (test : ViolationClassificationKind → Bool) (i : String)
      → contains (violation_ids h (keys_where test (classes h b a))) i ≡ (
          any
            (λ v. test (classification_of (present h b a v)) && i == derive_violation_id h v.key)
            a.violations
          || any
              (λ key.
                test (classification_of (absent h b a key))
                && i == class_id h b a (absent h b a key))
              (absent_keys h b a))
  unfolding keys_where
  contains-keys_where test i =
      ap (λ ids. contains ids i)
        (map-map (derive_violation_id h) (λ (c : ViolationClassification). c.key)
          (filter (λ c. test (classification_of c)) (classes h b a)))
      ∙ contains-selected (class_id h b a) (λ c. test (classification_of c)) (classes h b a) i
      ∙ any-sorted_by (class_id h b a) (λ c. test (classification_of c) && i == class_id h b a c)
          (map (present h b a) a.violations ++ map (absent h b a) (absent_keys h b a))
      ∙ any-append _ (map (present h b a) a.violations) (map (absent h b a) (absent_keys h b a))
      ∙ ap₂ ◌||◌ (any-map _ (present h b a) a.violations)
          (any-map _ (absent h b a) (absent_keys h b a))

  present-kept_or_regression :
      (v : RatchetViolation)
      → is_regression (present_kind h b a (entry h b a v)) ≡ false
      → is_unchanged_legacy (present_kind h b a (entry h b a v)) ≡ true
  unfolding present_kind
  present-kept_or_regression v e = ground arith

  present-not_resolved :
      (v : RatchetViolation) → is_resolved (present_kind h b a (entry h b a v)) ≡ false
  unfolding present_kind
  present-not_resolved v = ground arith

  pub absent-not_kept :
      (key : ViolationKey) → is_unchanged_legacy (classification_of (absent h b a key)) ≡ false
  unfolding absent
  absent-not_kept key = ground arith

  absent-resolved :
      (key : ViolationKey)
      → is_unknown (classification_of (absent h b a key)) ≡ false
      → is_resolved (classification_of (absent h b a key)) ≡ true
  unfolding absent
  absent-resolved key e = ground arith

  absent_id : (key : ViolationKey) → class_id h b a (absent h b a key) ≡ derive_violation_id h key
  unfolding absent
  absent_id key = refl

module _ (h : Hashing) (policy : RatchetPolicy) (b : RatchetBaseline) (bundle : OnboardingView)
    (a : RatchetAssessment) (r : RatchetEvaluationReport)
    (evaluated : evaluate_ratchet h policy b bundle a ≡ ok r) where
  pub same_classes : r.classifications ≡ classes h b a
  unfolding report provisional provisional_report
  same_classes =
      ap (λ (q : RatchetEvaluationReport). q.classifications)
        (evaluate-report h policy b bundle a evaluated)

  pub valid : IsValidAssessment h a
  valid =
      validate_ratchet_assessment-IsValidAssessment h policy bundle a
        (evaluate-Accepted h policy b bundle a evaluated).assessment

  pub keys_where-IsIncreasing :
      (test : ViolationClassificationKind → Bool)
      → IsIncreasing (violation_ids h (keys_where test r.classifications))
  unfolding keys_where
  keys_where-IsIncreasing test =
      let acc = evaluate-Accepted h policy b bundle a evaluated in
      rw same_classes (
        rw
          (map-map (derive_violation_id h) (λ (c : ViolationClassification). c.key)
            (filter (λ c. test (classification_of c)) (classes h b a)))
          (IsIncreasing-filter (class_id h b a) (λ c. test (classification_of c)) (classes h b a)
            (class_ids-IsIncreasing h b a acc.baseline valid)))

  module _ (passed : r.outcome ≡ pass) where
    pub passing : All (Tolerated h b a) a.violations × FullyCovered a
    passing = (evaluate-pass_iff h policy b bundle a r evaluated).0 passed

    All-kept :
        (i : String)
        → All
            (λ v.
              (is_unchanged_legacy (present_kind h b a (entry h b a v))
                && i == derive_violation_id h v.key)
              ≡ (i == violation_id v))
            a.violations
    All-kept i =
        All-imp_two (Tolerated h b a) (λ v. v.id ≡ derive_violation_id h v.key) _ a.violations
          (λ v t d.
            rw
              (present-kept_or_regression h b a v (
                (present_kind-Tolerated h b a
                    (evaluate-Accepted h policy b bundle a
                      evaluated).baseline.valid_subjects.unique_ids
                    valid.valid_subjects.unique_ids v).1
                  t))
              (rw d refl))
          passing.0 valid.derived_violations

    All-resolved :
        All (λ key. is_resolved (classification_of (absent h b a key)) ≡ true) (absent_keys h b a)
    All-resolved =
        All-imp
          (λ (key : ViolationKey).
            contains (map coverage_key a.coverage) (rule_key key.rule) ≡ true)
          _ (absent_keys h b a)
          (λ key m. absent-resolved h b a key (absent-not_unknown h b a key passing.1 m))
          (All-filter _ _ b.allowances (covered h policy b bundle a r evaluated))

    -- What a passing report keeps is what the assessment found.
    pub contains-kept :
        (i : String)
        → contains (violation_ids h (keys_where is_unchanged_legacy r.classifications)) i
          ≡ contains (map violation_id a.violations) i
    contains-kept i = rw same_classes (
        contains-keys_where h b a is_unchanged_legacy i
        ∙ ap₂ ◌||◌ (any_cong _ (λ v. i == violation_id v) a.violations (All-kept i))
            (any-false _ (absent_keys h b a) (λ key. ground (arith, absent-not_kept h b a key)))
        ∙ or_false (any (λ v. i == violation_id v) a.violations)
        ∙ sym (contains-map violation_id a.violations i))

    -- What it resolves is what the baseline allowed and the assessment did not find.
    pub contains-resolved :
        (i : String)
        → contains (violation_ids h (keys_where is_resolved r.classifications)) i ≡ (
            contains (violation_ids h b.allowances) i
            && not (contains (map violation_id a.violations) i))
    contains-resolved i = rw same_classes (
        contains-keys_where h b a is_resolved i
        ∙ ap₂ ◌||◌ (any-false _ a.violations (λ v. ground (arith, present-not_resolved h b a v))) (
            any_cong _ (λ key. i == derive_violation_id h key) (absent_keys h b a)
              (All-imp _ _ (absent_keys h b a) (λ key e. rw e (rw (absent_id h b a key) refl))
                All-resolved)
            ∙ any-filter _ _ b.allowances
            ∙ any-keyed (derive_violation_id h)
                (λ k. not (contains (map violation_id a.violations) k)) b.allowances i))
