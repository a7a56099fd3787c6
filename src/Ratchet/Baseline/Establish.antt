-- ===== src/Ratchet/Baseline/Establish.antt =====
-- When `establish_ratchet_baseline` of src/ucf/ratchet/baseline.py returns, and what it returns.
use ucf.Prelude.{
  subst, ◌≡◌, ◌↔◌, refl, sym, ◌∙◌, ap, true, List, [], map, map-map, map_cong, ==_refl, string_eq,
  text_order, All-imp, All-intro, All-map_iff, All-sorted_by, sorted_by, map-sorted_by,
  IsIncreasing-iff, ok, arith,
}
use ucf.Ratchet.Models.{
  RatchetPolicy, ViolationKey, RatchetViolation, RatchetAssessment, RatchetBaseline,
}
use ucf.Ratchet.Identity.{
  Hashing, derive_violation_id, derive_baseline_id, derive_baseline_id-stamp,
}
use ucf.Ratchet.Validation.{
  OnboardingView, subject_id, coverage_key, violation_id, validate_ratchet_assessment,
}
use ucf.Ratchet.Validation.Accepts.{
  IsValidBaseline, violation_ids, validate_ratchet_baseline_structure-ok,
}
use ucf.Ratchet.Validation.Assessment.{
  IsValidAssessment, ViolationKnown, validate_ratchet_assessment-IsValidAssessment,
}
use ucf.Ratchet.Evaluation.Outcome.{FullyCovered}
use ucf.Ratchet.Baseline.{
  identified_baseline, initial_baseline, derive_initial_baseline, validate_initial_ratchet_baseline,
  establish_ratchet_baseline,
}
use ucf.Ratchet.Baseline.Advance.{fits, coverage_incomplete-FullyCovered, compare_baselines_self}

module _ (h : Hashing) (a : RatchetAssessment) where
  -- The first baseline with its own identity.
  unfoldable pub initial : RatchetBaseline
  initial = record (initial_baseline h a) { id = derive_baseline_id h (initial_baseline h a) }

  abbrev found_keys : List ViolationKey
  found_keys = map (λ (v : RatchetViolation). v.key) a.violations

  module _ (va : IsValidAssessment h a) where
    found_ids : violation_ids h found_keys ≡ map violation_id a.violations
    found_ids =
        map-map (derive_violation_id h) (λ (v : RatchetViolation). v.key) a.violations
        ∙ map_cong _ violation_id a.violations
            (All-imp _ _ a.violations (λ v d. sym d) va.derived_violations)

    pub initial-allowances : violation_ids h initial.allowances ≡ map violation_id a.violations
    unfolding initial initial_baseline
    initial-allowances =
        map-sorted_by (derive_violation_id h) found_keys
        ∙ ap (sorted_by (λ k. k)) found_ids
        ∙ sym ((IsIncreasing-iff (map violation_id a.violations)).1 va.canonical_violations).1

    initial-IsValidBaseline : IsValidBaseline h initial
    unfolding initial initial_baseline
    initial-IsValidBaseline = record {
      valid_subjects = va.valid_subjects;
      canonical_allowances = rw initial-allowances (va.canonical_violations);
      canonical_protected = tt;
      disjoint = All-intro _ (violation_ids h initial.allowances) (λ i. refl);
      known_subjects = All-sorted_by (derive_violation_id h) _ found_keys (
          (All-map_iff _ (λ (v : RatchetViolation). v.key) a.violations).1 (
            All-imp (ViolationKnown (map coverage_key a.coverage) (map subject_id a.subjects)) _
              a.violations (λ v k. k.1) va.known_violations));
      derived_id = sym (derive_baseline_id-stamp h (initial_baseline h a) _);
    }

module _ (h : Hashing) (policy : RatchetPolicy) (bundle : OnboardingView)
    (a : RatchetAssessment) where
  derive_initial-ok :
      fits (initial_baseline h a) ≡ true → derive_initial_baseline h a ≡ ok (initial h a)
  unfolding derive_initial_baseline identified_baseline initial fits
  derive_initial-ok e = ground (arith, e)

  establish-assessed :
      (b : RatchetBaseline)
      → establish_ratchet_baseline h policy bundle a ≡ ok b
      → (validate_ratchet_assessment h policy bundle a ≡ ok tt)
        × FullyCovered a
        × (fits (initial_baseline h a) ≡ true)
        × (b ≡ initial h a)
  unfolding establish_ratchet_baseline derive_initial_baseline identified_baseline initial fits
  establish-assessed b e = (
    ground arith,
    (coverage_incomplete-FullyCovered a).0 (ground arith),
    ground arith,
    ground arith,
  )

  establish-ok :
      validate_ratchet_assessment h policy bundle a ≡ ok tt
      → FullyCovered a
      → fits (initial_baseline h a) ≡ true
      → establish_ratchet_baseline h policy bundle a ≡ ok (initial h a)
  unfolding establish_ratchet_baseline validate_initial_ratchet_baseline
  establish-ok accepted full e =
      let va = validate_ratchet_assessment-IsValidAssessment h policy bundle a accepted in
      ground (
        arith,
        accepted,
        (coverage_incomplete-FullyCovered a).1 full,
        derive_initial-ok e,
        compare_baselines_self (initial h a),
        (validate_ratchet_baseline_structure-ok h (initial h a)).1 (initial-IsValidBaseline h a va),
        ==_refl (initial h a).id,
      )

-- Establishing returns a baseline exactly when the assessment is accepted, its coverage is complete
-- and the baseline meets the bounds of its model.
pub establish-exact :
    (h : Hashing) (policy : RatchetPolicy) (bundle : OnboardingView) (a : RatchetAssessment)
    (b : RatchetBaseline)
    → (establish_ratchet_baseline h policy bundle a ≡ ok b) ↔ (
        (validate_ratchet_assessment h policy bundle a ≡ ok tt)
        × FullyCovered a
        × (fits (initial_baseline h a) ≡ true)
        × (b ≡ initial h a))
establish-exact h policy bundle a b = (
  establish-assessed h policy bundle a b,
  λ (accepted, full, e, same). establish-ok h policy bundle a accepted full e ∙ ap ok (sym same),
)

-- The first baseline passes the structural checks, allows each violation of the assessment and no
-- other, and protects against none.
pub establish-allowances :
    (h : Hashing) (policy : RatchetPolicy) (bundle : OnboardingView) (a : RatchetAssessment)
    (b : RatchetBaseline)
    → establish_ratchet_baseline h policy bundle a ≡ ok b
    → IsValidBaseline h b
      × (violation_ids h b.allowances ≡ map violation_id a.violations)
      × (b.protected ≡ [])
unfolding initial initial_baseline
establish-allowances h policy bundle a b e =
    let (accepted, _, _, same) = establish-assessed h policy bundle a b e in
    let va = validate_ratchet_assessment-IsValidAssessment h policy bundle a accepted in
    (
      subst (IsValidBaseline h) (sym same) (initial-IsValidBaseline h a va),
      ap (λ (q : RatchetBaseline). violation_ids h q.allowances) same ∙ initial-allowances h a va,
      ap (λ (q : RatchetBaseline). q.protected) same,
    )
