-- ===== src/Ratchet/Report/Ids.antt =====
-- The violation ids that a report of src/ucf/ratchet/evaluation.py classifies.
use ucf.Prelude.{
  String, ◌≡◌, refl, sym, ◌∙◌, ap, ap₂, true, false, not, ◌||◌, List, ◌++◌, map, map-append,
  map-map, map_cong, filter-map, string_eq, text_order, contains, contains-append, contains-filter,
  contains-All, contains-sorted_by, filter, IsUnique, IsUnique-append, IsUnique-filter, All,
  All-imp, All-intro, All-append, All-filter, All-map_iff, All-sorted_by, sorted_by, map-sorted_by,
  sorted_by-IsIncreasing, IsIncreasing, IsIncreasing-IsUnique, ok, arith,
}
use ucf.Ratchet.Models.{
  RatchetPolicy, ViolationKey, RatchetAssessment, RatchetBaseline, ViolationClassification,
  RatchetEvaluationReport,
}
use ucf.Ratchet.Identity.{Hashing, derive_violation_id}
use ucf.Ratchet.Validation.{OnboardingView, subject_id, violation_id}
use ucf.Ratchet.Validation.Accepts.{IsValidBaseline, violation_ids}
use ucf.Ratchet.Validation.Assessment.{
  IsValidAssessment, validate_ratchet_assessment-IsValidAssessment,
}
use ucf.Ratchet.Evaluation.{classify_absent, provisional_report, evaluate_ratchet}
use ucf.Ratchet.Evaluation.Changes.{changed_ids, contains-changed_ids}
use ucf.Ratchet.Evaluation.Classes.{present, absent, absent_keys, classes, class_id}
use ucf.Ratchet.Evaluation.Accepted.{provisional, report, evaluate-Accepted, evaluate-report}

module _ (h : Hashing) (b : RatchetBaseline) (a : RatchetAssessment) (vb : IsValidBaseline h b)
    (va : IsValidAssessment h a) where
  abbrev current_ids : List String
  current_ids = map violation_id a.violations

  abbrev absent_ids : List String
  absent_ids = filter (λ i. not (contains current_ids i)) (violation_ids h b.allowances)

  class_id-absent :
      (key : ViolationKey) → class_id h b a (absent h b a key) ≡ derive_violation_id h key
  unfolding absent classify_absent
  class_id-absent key = refl

  unsorted_ids :
      map
        (class_id h b a)
        (map (present h b a) a.violations ++ map (absent h b a) (absent_keys h b a))
      ≡ current_ids ++ absent_ids
  unsorted_ids =
      map-append (class_id h b a) (map (present h b a) a.violations)
        (map (absent h b a) (absent_keys h b a))
      ∙ ap₂ ◌++◌
          (map-map (class_id h b a) (present h b a) a.violations
            ∙ map_cong _ violation_id a.violations
                (All-imp _ _ a.violations (λ v d. sym d) va.derived_violations))
          (map-map (class_id h b a) (absent h b a) (absent_keys h b a)
            ∙ map_cong _ (derive_violation_id h) (absent_keys h b a)
                (All-intro _ (absent_keys h b a) class_id-absent)
            ∙ sym (
                filter-map (λ i. not (contains current_ids i)) (derive_violation_id h)
                  b.allowances))

  pub class_ids :
      map (class_id h b a) (classes h b a) ≡ sorted_by (λ k. k) (current_ids ++ absent_ids)
  class_ids =
      map-sorted_by (class_id h b a)
        (map (present h b a) a.violations ++ map (absent h b a) (absent_keys h b a))
      ∙ ap (sorted_by (λ k. k)) unsorted_ids

  IsUnique-ids : IsUnique (current_ids ++ absent_ids)
  IsUnique-ids =
      IsUnique-append current_ids absent_ids
        (IsIncreasing-IsUnique current_ids va.canonical_violations)
        (IsUnique-filter _ (violation_ids h b.allowances)
          (IsIncreasing-IsUnique (violation_ids h b.allowances) vb.canonical_allowances))
        (contains-All (λ i. contains absent_ids i ≡ false) current_ids
          (λ i m. ground (
            arith,
            contains-filter (λ i. not (contains current_ids i)) (violation_ids h b.allowances) i,
          )))

  pub class_ids-IsIncreasing : IsIncreasing (map (class_id h b a) (classes h b a))
  class_ids-IsIncreasing =
      rw class_ids (sorted_by-IsIncreasing (current_ids ++ absent_ids) IsUnique-ids)

  pub contains-class_ids :
      (i : String)
      → contains (map (class_id h b a) (classes h b a)) i
        ≡ (contains current_ids i || contains (violation_ids h b.allowances) i)
  contains-class_ids i = rw class_ids (
      ground (
        arith,
        contains-sorted_by (current_ids ++ absent_ids) i,
        contains-append current_ids absent_ids i,
        contains-filter (λ i. not (contains current_ids i)) (violation_ids h b.allowances) i,
      ))

  absent_subject :
      (key : ViolationKey)
      → contains (map subject_id b.subjects) key.subject.target_id ≡ true
      → contains (changed_ids b a) (absent h b a key).key.subject.target_id ≡ true
  unfolding absent classify_absent
  absent_subject key k = ground (arith, contains-changed_ids b a key.subject.target_id, k)

  -- Each classified subject is one of the report's subject changes.
  pub class_subjects :
      All
        (λ (c : ViolationClassification). contains (changed_ids b a) c.key.subject.target_id ≡ true)
        (classes h b a)
  class_subjects =
      All-sorted_by (class_id h b a) _
        (map (present h b a) a.violations ++ map (absent h b a) (absent_keys h b a))
        (All-append _ (map (present h b a) a.violations) (map (absent h b a) (absent_keys h b a))
          ((All-map_iff _ (present h b a) a.violations).1 (
            All-imp _ _ a.violations
              (λ v k. ground (arith, contains-changed_ids b a v.key.subject.target_id, k.1))
              va.known_violations))
          ((All-map_iff _ (absent h b a) (absent_keys h b a)).1 (
            All-imp _ _ (absent_keys h b a) (λ key k. absent_subject key k)
              (All-filter _ _ b.allowances vb.known_subjects))))

-- The report classifies each violation of the assessment and each allowance of the baseline once, in
-- the order of their ids, and nothing else.
pub evaluate-classifies_once :
    (h : Hashing) (policy : RatchetPolicy) (b : RatchetBaseline) (bundle : OnboardingView)
    (a : RatchetAssessment) (r : RatchetEvaluationReport)
    → evaluate_ratchet h policy b bundle a ≡ ok r
    → IsIncreasing
        (map (λ (c : ViolationClassification). derive_violation_id h c.key) r.classifications)
      × ((i : String)
          → contains
              (map (λ (c : ViolationClassification). derive_violation_id h c.key) r.classifications)
              i
            ≡ (contains (map violation_id a.violations) i
                || contains (map (derive_violation_id h) b.allowances) i))
unfolding report provisional provisional_report
evaluate-classifies_once h policy b bundle a r e =
    let acc = evaluate-Accepted h policy b bundle a e in
    let va = validate_ratchet_assessment-IsValidAssessment h policy bundle a acc.assessment in
    let same =
      ap (λ (q : RatchetEvaluationReport). q.classifications)
        (evaluate-report h policy b bundle a e) in
    (
      rw same (class_ids-IsIncreasing h b a acc.baseline va),
      λ i. rw same (contains-class_ids h b a acc.baseline va i),
    )
