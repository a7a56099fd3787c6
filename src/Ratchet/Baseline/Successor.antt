-- ===== src/Ratchet/Baseline/Successor.antt =====
-- The successor that src/ucf/ratchet/baseline.py derives from a passing report is well formed.
use ucf.Prelude.{
  String, ◌≡◌, sym, ◌∙◌, ap, true, false, not, ◌&&◌, ◌||◌, List, ◌++◌, map, string_eq, text_order,
  contains, contains-All, All-contains, All, All-imp, All-imp_two, All-intro, All-append,
  All-filter, All-filter_pass, All-map_iff, All-sorted_by, filter, map-sorted_by, IsIncreasing,
  IsIncreasing-iff, IsIncreasing-ext, IsIncreasing-IsUnique, IsUnique, ok, arith,
}
use ucf.Ratchet.Models.{
  RatchetPolicy, ViolationKey, RatchetAssessment, RatchetBaseline, ViolationClassification, pass,
  RatchetEvaluationReport,
}
use ucf.Ratchet.Identity.{
  Hashing, derive_violation_id, derive_baseline_id, derive_baseline_id-stamp,
}
use ucf.Ratchet.Validation.{OnboardingView, subject_id, coverage_key, violation_id}
use ucf.Ratchet.Validation.Accepts.{IsValidBaseline, violation_ids}
use ucf.Ratchet.Validation.Assessment.{ViolationKnown}
use ucf.Ratchet.Evaluation.{
  is_unchanged_legacy, is_resolved, classification_of, keys_where, evaluate_ratchet,
}
use ucf.Ratchet.Evaluation.Classes.{present, absent, absent_keys, classes, class_id}
use ucf.Ratchet.Evaluation.Accepted.{evaluate-Accepted}
use ucf.Ratchet.Evaluation.Tolerated.{Tolerated}
use ucf.Ratchet.Evaluation.Passing.{
  passing, valid, same_classes, keys_where-IsIncreasing, contains-kept, contains-resolved,
  absent-not_kept,
}
use ucf.Ratchet.Baseline.{successor_baseline}
use ucf.Ratchet.Baseline.Protected.{contains-successor_protected, successor_protected-IsIncreasing}

module _ (h : Hashing) (policy : RatchetPolicy) (b : RatchetBaseline) (bundle : OnboardingView)
    (a : RatchetAssessment) (r : RatchetEvaluationReport) where
  -- The successor with its own identity.
  unfoldable pub successor : RatchetBaseline
  successor = record (successor_baseline h b a r) {
    id = derive_baseline_id h (successor_baseline h b a r);
  }

  module _ (evaluated : evaluate_ratchet h policy b bundle a ≡ ok r)
      (passed : r.outcome ≡ pass) where
    abbrev kept : List ViolationKey
    kept = keys_where is_unchanged_legacy r.classifications

    abbrev resolved_keys : List ViolationKey
    resolved_keys = keys_where is_resolved r.classifications

    old_valid : IsValidBaseline h b
    old_valid = (evaluate-Accepted h policy b bundle a evaluated).baseline

    -- The successor allows what the assessment found.
    pub successor-allowances : violation_ids h successor.allowances ≡ map violation_id a.violations
    unfolding successor successor_baseline
    successor-allowances =
        map-sorted_by (derive_violation_id h) kept
        ∙ sym ((IsIncreasing-iff (violation_ids h kept)).1 increasing).1
        ∙ IsIncreasing-ext (violation_ids h kept) (map violation_id a.violations) increasing
            (valid h policy b bundle a r evaluated).canonical_violations
            (contains-kept h policy b bundle a r evaluated passed)
      where
        increasing : IsIncreasing (violation_ids h kept)
        increasing = keys_where-IsIncreasing h policy b bundle a r evaluated is_unchanged_legacy

    resolved_apart :
        (i : String)
        → contains (violation_ids h resolved_keys) i ≡ true
        → contains (violation_ids h b.protected) i ≡ false
    resolved_apart i m =
        All-contains (λ i. contains (violation_ids h b.protected) i ≡ false)
          (violation_ids h b.allowances) i old_valid.disjoint
          (ground (arith, contains-resolved h policy b bundle a r evaluated passed i))

    IsUnique-protected : IsUnique (violation_ids h b.protected)
    IsUnique-protected =
        IsIncreasing-IsUnique (violation_ids h b.protected) old_valid.canonical_protected

    IsUnique-resolved : IsUnique (violation_ids h resolved_keys)
    IsUnique-resolved =
        IsIncreasing-IsUnique (violation_ids h resolved_keys)
          (keys_where-IsIncreasing h policy b bundle a r evaluated is_resolved)

    -- It protects against what was protected or is no longer found.
    pub successor-protected :
        (i : String)
        → contains (violation_ids h successor.protected) i ≡ (
            contains (violation_ids h b.protected) i
            || (contains (violation_ids h b.allowances) i
                && not (contains (map violation_id a.violations) i)))
    unfolding successor successor_baseline
    successor-protected i =
        contains-successor_protected h b.protected resolved_keys IsUnique-protected
          IsUnique-resolved resolved_apart i
        ∙ ap (λ q. contains (violation_ids h b.protected) i || q)
            (contains-resolved h policy b bundle a r evaluated passed i)

    successor-disjoint :
        All
          (λ i. contains (violation_ids h successor.protected) i ≡ false)
          (violation_ids h successor.allowances)
    successor-disjoint = rw successor-allowances (
        contains-All (λ i. contains (violation_ids h successor.protected) i ≡ false)
          (map violation_id a.violations)
          (λ i m. ground (
            arith,
            successor-protected i,
            All-contains (λ i. contains (violation_ids h b.protected) i ≡ false)
                (map violation_id a.violations) i not_protected m,
          )))
      where
        not_protected :
            All
              (λ i. contains (violation_ids h b.protected) i ≡ false)
              (map violation_id a.violations)
        not_protected = (All-map_iff _ violation_id a.violations).1 (
            All-imp (Tolerated h b a) _ a.violations (λ v t. t.not_protected)
              (passing h policy b bundle a r evaluated passed).0)

    kept_subjects :
        All
          (λ (c : ViolationClassification).
            is_unchanged_legacy (classification_of c) ≡ true
            → contains (map subject_id a.subjects) c.key.subject.target_id ≡ true)
          (classes h b a)
    kept_subjects =
        All-sorted_by (class_id h b a) _
          (map (present h b a) a.violations ++ map (absent h b a) (absent_keys h b a))
          (All-append _ (map (present h b a) a.violations) (map (absent h b a) (absent_keys h b a))
            ((All-map_iff _ (present h b a) a.violations).1 (
              All-imp (ViolationKnown (map coverage_key a.coverage) (map subject_id a.subjects)) _
                a.violations (λ v k e. k.1)
                (valid h policy b bundle a r evaluated).known_violations))
            ((All-map_iff _ (absent h b a) (absent_keys h b a)).1 (
              All-intro _ (absent_keys h b a)
                (λ key e. absurd (ground (arith, absent-not_kept h b a key))))))

    successor-subjects :
        All
          (λ (key : ViolationKey).
            contains (map subject_id a.subjects) key.subject.target_id ≡ true)
          successor.allowances
    unfolding successor successor_baseline keys_where
    successor-subjects = All-sorted_by (derive_violation_id h) _ kept (
        (All-map_iff _ (λ (c : ViolationClassification). c.key) selected).1 (
          rw (same_classes h policy b bundle a r evaluated) (
            All-imp_two
              (λ (c : ViolationClassification).
                is_unchanged_legacy (classification_of c) ≡ true → Known c)
              (λ (c : ViolationClassification). is_unchanged_legacy (classification_of c) ≡ true)
              Known (filter (λ c. is_unchanged_legacy (classification_of c)) (classes h b a))
              (λ c f e. f e) (All-filter _ _ (classes h b a) kept_subjects)
              (All-filter_pass (λ c. is_unchanged_legacy (classification_of c)) (classes h b a)))))
      where
        selected : List ViolationClassification
        selected = filter (λ c. is_unchanged_legacy (classification_of c)) r.classifications

        Known : ViolationClassification → Type 0
        Known c = contains (map subject_id a.subjects) c.key.subject.target_id ≡ true

    pub successor-IsValidBaseline : IsValidBaseline h successor
    unfolding successor successor_baseline
    successor-IsValidBaseline = record {
      valid_subjects = (valid h policy b bundle a r evaluated).valid_subjects;
      canonical_allowances =
          rw successor-allowances ((valid h policy b bundle a r evaluated).canonical_violations);
      canonical_protected =
          successor_protected-IsIncreasing h b.protected resolved_keys IsUnique-protected
            IsUnique-resolved resolved_apart;
      disjoint = successor-disjoint;
      known_subjects = successor-subjects;
      derived_id = sym (derive_baseline_id-stamp h (successor_baseline h b a r) _);
    }
