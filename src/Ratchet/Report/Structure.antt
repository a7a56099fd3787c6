-- ===== src/Ratchet/Report/Structure.antt =====
-- The report that src/ucf/ratchet/evaluation.py derives passes its own structural checks.
use ucf.Prelude.{
  ℕ, String, ◌≡◌, ◌↔◌, sym, Bool, true, ◌||◌, List, map, map-map, ==_refl, string_eq, list_eq,
  text_order, contains, any, filter, IsIncreasing, IsIncreasing-filter, ok, for_each, for_each-ok,
  arith,
}
use ucf.Ratchet.Models.{
  RatchetPolicy, RatchetAssessment, RatchetBaseline, SubjectChange, ViolationClassification,
  ViolationClassificationKind,
}
use ucf.Ratchet.Equality.{violation_key_eq, weakening_delta_status_eq}
use ucf.Ratchet.Identity.{
  Hashing, derive_violation_id, derive_evaluation_id, derive_evaluation_id-stamp, at, Location,
  ratchet_error, summary_mismatch, content_identity_mismatch,
}
use ucf.Ratchet.Validation.Canonical.{require_unique_and_sorted, require_unique_and_sorted-ok}
use ucf.Ratchet.Validation.Accepts.{IsValidBaseline, differs-ok}
use ucf.Ratchet.Validation.Assessment.{IsValidAssessment}
use ucf.Ratchet.Validation.{OnboardingView}
use ucf.Ratchet.Evaluation.{
  is_regression, is_unknown, is_resolved, is_added, is_reintroduced, is_unknown_subject,
  classification_of, keys_where, has_unknown, outcome_of, weakening_delta, provisional_report,
}
use ucf.Ratchet.Evaluation.Changes.{change_at, changed_ids, changed_ids-IsIncreasing, map-change_at}
use ucf.Ratchet.Evaluation.Classes.{classes}
use ucf.Ratchet.Evaluation.Accepted.{provisional, report}
use ucf.Ratchet.Report.{
  change_subject_id, check_classification_subject, outcome_expected, expected_delta_status,
  check_delta_order, check_delta_members, validate_ratchet_evaluation_report_structure,
}
use ucf.Ratchet.Report.Ids.{class_ids-IsIncreasing, class_subjects}

-- The derived outcome is one of those that the structural check expects.
outcome_of-expected :
    (changes : List SubjectChange) (cs : List ViolationClassification) (a : RatchetAssessment)
    → outcome_expected
        (any (λ c. is_regression (classification_of c)) cs)
        (any (λ c. is_unknown (classification_of c)) cs
          || any (λ (c : SubjectChange). is_unknown_subject c.change) changes)
        (outcome_of changes cs a)
      ≡ true
unfolding outcome_expected outcome_of has_unknown
outcome_of-expected changes cs a = ground arith

status-expected :
    (cs : List ViolationClassification)
    → (weakening_delta cs).status
      ≡ expected_delta_status
          (any (λ c. is_regression (classification_of c)) cs)
          (keys_where is_resolved cs)
unfolding weakening_delta expected_delta_status
status-expected cs = ground arith

check_classification_subject-ok :
    (ids : List String) (i : ℕ) (c : ViolationClassification)
    → (check_classification_subject ids i c ≡ ok tt) ↔ (contains ids c.key.subject.target_id ≡ true)
unfolding check_classification_subject
check_classification_subject-ok ids i c = (λ e. ground arith, λ e. ground arith)

module _ (h : Hashing) where
  check_delta_order-ok :
      (cs : List ViolationClassification)
      → IsIncreasing (map (λ (c : ViolationClassification). derive_violation_id h c.key) cs)
      → check_delta_order h (weakening_delta cs) ≡ ok tt
  unfolding check_delta_order weakening_delta keys_where
  check_delta_order-ok cs i = ground (
    arith,
    part is_added (at "$.weakening_delta.added_allowances"),
    part is_resolved (at "$.weakening_delta.removed_allowances"),
    part is_reintroduced (at "$.weakening_delta.removed_protections"),
  )
    where
      part :
          (test : ViolationClassificationKind → Bool) (l : Location)
          → require_unique_and_sorted (map (derive_violation_id h) (keys_where test cs)) l ≡ ok tt
      part test l =
          (require_unique_and_sorted-ok (map (derive_violation_id h) (keys_where test cs)) l).1 (
            rw
              (map-map (derive_violation_id h) (λ (c : ViolationClassification). c.key)
                (filter (λ c. test (classification_of c)) cs))
              (IsIncreasing-filter (λ (c : ViolationClassification). derive_violation_id h c.key)
                (λ c. test (classification_of c)) cs i))

  check_delta_members-ok :
      (cs : List ViolationClassification) → check_delta_members h (weakening_delta cs) cs ≡ ok tt
  unfolding check_delta_members weakening_delta
  check_delta_members-ok cs = ground (
    arith,
    ==_refl (keys_where is_added cs),
    ==_refl (keys_where is_resolved cs),
    ==_refl (keys_where is_reintroduced cs),
  )

  module _ (policy : RatchetPolicy) (b : RatchetBaseline) (bundle : OnboardingView)
      (a : RatchetAssessment) (vb : IsValidBaseline h b) (va : IsValidAssessment h a) where
    report_id :
        (report h policy b bundle a).id ≡ derive_evaluation_id h (report h policy b bundle a)
    unfolding report
    report_id = sym (derive_evaluation_id-stamp h (provisional h policy b bundle a) _)

    subject_ids : map change_subject_id (map (change_at b a) (changed_ids b a)) ≡ changed_ids b a
    subject_ids = map-change_at b a

    classified_subjects :
        for_each
          (check_classification_subject
            (map change_subject_id (map (change_at b a) (changed_ids b a))))
          0
          (classes h b a)
        ≡ ok tt
    classified_subjects = rw subject_ids (
        (for_each-ok
            (λ (c : ViolationClassification).
              contains (changed_ids b a) c.key.subject.target_id ≡ true)
            (check_classification_subject (changed_ids b a))
            (check_classification_subject-ok (changed_ids b a)) 0 (classes h b a)).1
          (class_subjects h b a vb va))

    pub report-structure :
        validate_ratchet_evaluation_report_structure h (report h policy b bundle a) ≡ ok tt
    unfolding validate_ratchet_evaluation_report_structure report provisional provisional_report
    report-structure = ground (
      arith,
      (require_unique_and_sorted-ok (map change_subject_id (map (change_at b a) (changed_ids b a)))
            (at "$.subject_changes")).1
          (rw subject_ids (changed_ids-IsIncreasing b a)),
      (require_unique_and_sorted-ok
            (map (λ (c : ViolationClassification). derive_violation_id h c.key) (classes h b a))
            (at "$.classifications")).1
          (class_ids-IsIncreasing h b a vb va),
      classified_subjects,
      check_delta_order-ok (classes h b a) (class_ids-IsIncreasing h b a vb va),
      outcome_of-expected (map (change_at b a) (changed_ids b a)) (classes h b a) a,
      check_delta_members-ok (classes h b a),
      (differs-ok (weakening_delta (classes h b a)).status
            (expected_delta_status (any (λ c. is_regression (classification_of c)) (classes h b a))
              (keys_where is_resolved (classes h b a)))
            (ratchet_error summary_mismatch (at "$.weakening_delta.status"))).1
          (status-expected (classes h b a)),
      (differs-ok (report h policy b bundle a).id
            (derive_evaluation_id h (report h policy b bundle a))
            (ratchet_error content_identity_mismatch (at "$.id"))).1
          report_id,
    )
