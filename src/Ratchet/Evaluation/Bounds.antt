-- ===== src/Ratchet/Evaluation/Bounds.antt =====
-- The report of src/ucf/ratchet/evaluation.py meets the bounds of its model where its sources meet theirs.
use ucf.Prelude.{
  ℕ, ◌+◌, ◌≤◌, ◌≡◌, refl, Bool, true, false, List, [], ◌∷◌, ◌++◌, map, length, length-map,
  length-append, length-filter-le, length-sorted_by, length-to_set-le, filter, to_set, TotalOrder,
  text_order, string_eq, insert_by, sorted_by, ok, arith,
}
use ucf.Ratchet.Models.{
  RatchetPolicy, ViolationKey, RatchetViolation, RatchetAssessment, RatchetBaseline,
  ViolationClassification, ViolationClassificationKind, baseline_fits, assessment_fits, report_fits,
}
use ucf.Ratchet.Identity.{Hashing}
use ucf.Ratchet.Validation.{OnboardingView, subject_id}
use ucf.Ratchet.Evaluation.{
  is_added, is_resolved, is_reintroduced, classification_of, keys_where, weakening_delta,
  provisional_report, evaluate_ratchet,
}
use ucf.Ratchet.Evaluation.Changes.{change_at, changed_ids}
use ucf.Ratchet.Evaluation.Classes.{present_kind, present, absent, absent_keys, classes, class_id}
use ucf.Ratchet.Evaluation.Accepted.{Accepted, provisional, report, evaluate-exact}

module _ {ℓ} {A : Type ℓ} where
  -- How many members pass a test.
  abbrev count : (A → Bool) → List A → ℕ
  count p xs = length (filter p xs)

  count-append : (p : A → Bool) (xs ys : List A) → count p (xs ++ ys) ≡ count p xs + count p ys
  count-append p [] ys = omega arith
  count-append p (x ∷ xs) ys = ground (arith, count-append p xs ys)

  count_none : (p : A → Bool) (xs : List A) → ((x : A) → p x ≡ false) → count p xs ≡ 0
  count_none p [] h = refl
  count_none p (x ∷ xs) h = ground (arith, h x, count_none p xs h)

  module _ {κ} {K : Type κ} ⦃o : TotalOrder K⦄ (key : A → K) (p : A → Bool) where
    count-insert_by : (x : A) (xs : List A) → count p (insert_by key x xs) ≡ count p (x ∷ xs)
    count-insert_by x [] = refl
    count-insert_by x (y ∷ ys) = ground (arith, count-insert_by x ys)

    count-sorted_by : (xs : List A) → count p (sorted_by key xs) ≡ count p xs
    count-sorted_by [] = refl
    count-sorted_by (x ∷ xs) =
        ground (arith, count-insert_by x (sorted_by key xs), count-sorted_by xs)

count-map {ℓ κ} :
    {A : Type ℓ} {B : Type κ} (p : B → Bool) (f : A → B) (xs : List A)
    → count p (map f xs) ≡ count (λ x. p (f x)) xs
count-map p f [] = refl
count-map p f (x ∷ xs) = ground (arith, count-map p f xs)

module _ (h : Hashing) (b : RatchetBaseline) (a : RatchetAssessment) where
  length-changed_ids-le : length (changed_ids b a) ≤ length b.subjects + length a.subjects
  length-changed_ids-le =
      let ids = map subject_id b.subjects ++ map subject_id a.subjects in
      omega (
        arith,
        length-sorted_by (λ k. k) (to_set ids),
        length-to_set-le ids,
        length-append (map subject_id b.subjects) (map subject_id a.subjects),
        length-map b.subjects subject_id,
        length-map a.subjects subject_id,
      )

  count-classes :
      (test : ViolationClassificationKind → Bool)
      → length (keys_where test (classes h b a))
        ≡ count (λ v. test (classification_of (present h b a v))) a.violations
          + count (λ key. test (classification_of (absent h b a key))) (absent_keys h b a)
  unfolding keys_where
  count-classes test =
      let p = λ (c : ViolationClassification). test (classification_of c) in
      omega (
        arith,
        length-map (filter p (classes h b a)) (λ (c : ViolationClassification). c.key),
        count-sorted_by (class_id h b a) p
            (map (present h b a) a.violations ++ map (absent h b a) (absent_keys h b a)),
        count-append p (map (present h b a) a.violations) (map (absent h b a) (absent_keys h b a)),
        count-map p (present h b a) a.violations,
        count-map p (absent h b a) (absent_keys h b a),
      )

  absent-not_added : (key : ViolationKey) → is_added (classification_of (absent h b a key)) ≡ false
  unfolding absent
  absent-not_added key = ground arith

  absent-not_reintroduced :
      (key : ViolationKey) → is_reintroduced (classification_of (absent h b a key)) ≡ false
  unfolding absent
  absent-not_reintroduced key = ground arith

  present-not_resolved :
      (v : RatchetViolation) → is_resolved (classification_of (present h b a v)) ≡ false
  unfolding present_kind
  present-not_resolved v = ground arith

  absent-le : length (absent_keys h b a) ≤ length b.allowances
  absent-le = length-filter-le _ b.allowances

  length-classes-le : length (classes h b a) ≤ length a.violations + length b.allowances
  length-classes-le = omega (
    arith,
    length-sorted_by (class_id h b a)
        (map (present h b a) a.violations ++ map (absent h b a) (absent_keys h b a)),
    length-append (map (present h b a) a.violations) (map (absent h b a) (absent_keys h b a)),
    length-map a.violations (present h b a),
    length-map (absent_keys h b a) (absent h b a),
    absent-le,
  )

  -- A test that no absent allowance passes selects violations of the assessment.
  present-le :
      (test : ViolationClassificationKind → Bool)
      → ((key : ViolationKey) → test (classification_of (absent h b a key)) ≡ false)
      → length (keys_where test (classes h b a)) ≤ length a.violations
  present-le test none = omega (
    arith,
    count-classes test,
    length-filter-le (λ v. test (classification_of (present h b a v))) a.violations,
    count_none (λ key. test (classification_of (absent h b a key))) (absent_keys h b a) none,
  )

  resolved-le : length (keys_where is_resolved (classes h b a)) ≤ length b.allowances
  resolved-le = omega (
    arith,
    count-classes is_resolved,
    absent-le,
    length-filter-le (λ key. is_resolved (classification_of (absent h b a key)))
        (absent_keys h b a),
    count_none (λ v. is_resolved (classification_of (present h b a v))) a.violations
        present-not_resolved,
  )

  module _ (policy : RatchetPolicy) (bundle : OnboardingView) where
    report_fits-provisional :
        baseline_fits b ≡ true
        → assessment_fits a ≡ true
        → report_fits (provisional h policy b bundle a) ≡ true
    unfolding provisional provisional_report weakening_delta baseline_fits assessment_fits
        report_fits keys_where
    report_fits-provisional old new = ground (
      arith,
      length-map (changed_ids b a) (change_at b a),
      length-changed_ids-le,
      length-classes-le,
      present-le is_added absent-not_added,
      present-le is_reintroduced absent-not_reintroduced,
      resolved-le,
    )

-- Evaluating accepted documents returns the report that they determine, where the baseline and the
-- assessment meet the bounds of their own models: the bounds of the report cannot then be exceeded.
pub evaluate_total :
    (h : Hashing) (policy : RatchetPolicy) (b : RatchetBaseline) (bundle : OnboardingView)
    (a : RatchetAssessment)
    → Accepted h policy b bundle a
    → baseline_fits b ≡ true
    → assessment_fits a ≡ true
    → evaluate_ratchet h policy b bundle a ≡ ok (report h policy b bundle a)
evaluate_total h policy b bundle a accepted old new =
    (evaluate-exact h policy b bundle a (report h policy b bundle a)).1
      (accepted, report_fits-provisional h b a policy bundle old new, refl)
