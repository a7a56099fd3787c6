-- ===== src/Ratchet/Baseline/Advance.antt =====
-- When `advance_ratchet_baseline` of src/ucf/ratchet/baseline.py returns, and what it returns.
use ucf.Prelude.{
  subst, All-map_iff, All-imp, String, suc, ◌≡◌, ◌↔◌, sym, ◌∙◌, ap, Bool, true, false, not, ◌&&◌,
  ◌||◌, some, map, ==_refl, nat_eq, string_eq, list_eq, option_eq, text_order, contains,
  any-not-false_iff, All, ok, arith,
}
use ucf.Ratchet.Models.{
  RatchetPolicy, RuleCoverage, RatchetAssessment, RatchetBaseline, is_complete, baseline_fits,
  validate_generation, EvaluationOutcome, pass, RatchetEvaluationReport,
}
use ucf.Ratchet.Equality.{
  ratchet_policy_ref_eq, ratchet_assessment_ref_eq, ratchet_evaluation_report_ref_eq,
  ratchet_baseline_ref_eq, behavior_subject_snapshot_eq, violation_key_eq,
}
use ucf.Ratchet.Identity.{Hashing, baseline_ref, evaluation_ref, assessment_ref}
use ucf.Ratchet.Validation.{OnboardingView, violation_id, validate_ratchet_baseline_structure}
use ucf.Ratchet.Validation.Accepts.{
  IsValidBaseline, violation_ids, validate_ratchet_baseline_structure-ok,
}
use ucf.Ratchet.Evaluation.{evaluate_ratchet}
use ucf.Ratchet.Evaluation.Outcome.{FullyCovered}
use ucf.Ratchet.Evaluation.Tolerated.{Tolerated}
use ucf.Ratchet.Evaluation.Passing.{passing}
use ucf.Ratchet.Report.Exact.{validate_report-exact}
use ucf.Ratchet.Baseline.{
  coverage_incomplete, is_pass, identified_baseline, successor_baseline, derive_successor_baseline,
  compare_baselines, validate_successor_ratchet_baseline, advance_ratchet_baseline,
}
use ucf.Ratchet.Baseline.Successor.{
  successor, successor-allowances, successor-protected, successor-IsValidBaseline,
}

pub coverage_incomplete-FullyCovered :
    (a : RatchetAssessment) → (coverage_incomplete a ≡ false) ↔ FullyCovered a
unfolding coverage_incomplete
coverage_incomplete-FullyCovered a =
    let rules = any-not-false_iff (λ (c : RuleCoverage). is_complete c.status) a.coverage in
    (
      λ e. record { subjects = ground arith; rules = rules.0 (ground arith) },
      λ full. ground (arith, full.subjects, rules.1 full.rules),
    )

pub compare_baselines_self : (b : RatchetBaseline) → compare_baselines b b ≡ ok tt
unfolding compare_baselines
compare_baselines_self b = ground (
  arith,
  ==_refl b.policy,
  ==_refl b.source_assessment,
  ==_refl b.source_evaluation,
  ==_refl b.predecessor,
  ==_refl b.generation,
  ==_refl b.subjects,
  ==_refl b.allowances,
  ==_refl b.protected,
)

unfoldable pub fits : RatchetBaseline → Bool
fits b = baseline_fits b && validate_generation b.generation b.predecessor b.source_evaluation

is_pass_iff : (o : EvaluationOutcome) → (is_pass o ≡ true) ↔ (o ≡ pass)
is_pass_iff o = (λ e. ground arith, λ e. ground arith)

module _ (h : Hashing) (policy : RatchetPolicy) (b : RatchetBaseline) (bundle : OnboardingView)
    (a : RatchetAssessment) (r : RatchetEvaluationReport) where
  derive_successor-ok :
      fits (successor_baseline h b a r) ≡ true
      → derive_successor_baseline h b a r ≡ ok (successor h policy b bundle a r)
  unfolding derive_successor_baseline identified_baseline successor fits
  derive_successor-ok e = ground (arith, e)

  -- Whoever advances has evaluated the same documents, and passed.
  pub advance-evaluated :
      (next : RatchetBaseline)
      → advance_ratchet_baseline h policy b bundle a r ≡ ok next
      → (evaluate_ratchet h policy b bundle a ≡ ok r)
        × (r.outcome ≡ pass)
        × (fits (successor_baseline h b a r) ≡ true)
        × (next ≡ successor h policy b bundle a r)
  unfolding advance_ratchet_baseline derive_successor_baseline identified_baseline successor fits
  advance-evaluated next e = (
    (validate_report-exact h policy b bundle a r).0 (ground arith),
    (is_pass_iff r.outcome).0 (ground arith),
    ground arith,
    ground arith,
  )

  advance-ok :
      evaluate_ratchet h policy b bundle a ≡ ok r
      → r.outcome ≡ pass
      → fits (successor_baseline h b a r) ≡ true
      → advance_ratchet_baseline h policy b bundle a r ≡ ok (successor h policy b bundle a r)
  unfolding advance_ratchet_baseline validate_successor_ratchet_baseline
  advance-ok evaluated passed e =
      let next = successor h policy b bundle a r in
      ground (
        arith,
        (validate_report-exact h policy b bundle a r).1 evaluated,
        (coverage_incomplete-FullyCovered a).1 (passing h policy b bundle a r evaluated passed).1,
        (is_pass_iff r.outcome).1 passed,
        derive_successor-ok e,
        compare_baselines_self next,
        (validate_ratchet_baseline_structure-ok h next).1
            (successor-IsValidBaseline h policy b bundle a r evaluated passed),
        ==_refl next.id,
      )

-- Advancing returns a baseline exactly when the report is what evaluating the documents gives, it
-- passes, and the successor meets the bounds of its model; what it returns is that successor.
pub advance-exact :
    (h : Hashing) (policy : RatchetPolicy) (b : RatchetBaseline) (bundle : OnboardingView)
    (a : RatchetAssessment) (r : RatchetEvaluationReport) (next : RatchetBaseline)
    → (advance_ratchet_baseline h policy b bundle a r ≡ ok next) ↔ (
        (evaluate_ratchet h policy b bundle a ≡ ok r)
        × (r.outcome ≡ pass)
        × (fits (successor_baseline h b a r) ≡ true)
        × (next ≡ successor h policy b bundle a r))
advance-exact h policy b bundle a r next = (
  advance-evaluated h policy b bundle a r next,
  λ (evaluated, passed, e, same).
      advance-ok h policy b bundle a r evaluated passed e ∙ ap ok (sym same),
)

module _ (h : Hashing) (policy : RatchetPolicy) (b : RatchetBaseline) (bundle : OnboardingView)
    (a : RatchetAssessment) (r : RatchetEvaluationReport) (next : RatchetBaseline)
    (advanced : advance_ratchet_baseline h policy b bundle a r ≡ ok next) where
  -- The next baseline allows the violations that the assessment found, and only those; each of them
  -- was allowed before.
  pub advance-allowances :
      (violation_ids h next.allowances ≡ map violation_id a.violations)
      × All
          (λ i. contains (violation_ids h b.allowances) i ≡ true)
          (violation_ids h next.allowances)
  advance-allowances =
      let (evaluated, passed, _, same) = advance-evaluated h policy b bundle a r next advanced in
      let ids =
        ap (λ (q : RatchetBaseline). violation_ids h q.allowances) same
        ∙ successor-allowances h policy b bundle a r evaluated passed in
      (
        ids,
        rw ids (
            (All-map_iff _ violation_id a.violations).1 (
              All-imp (Tolerated h b a) _ a.violations (λ v t. t.allowed)
                (passing h policy b bundle a r evaluated passed).0)),
      )

  -- The next baseline protects against what was protected before and against what was allowed before
  -- and is no longer found, and against nothing else.
  pub advance-protects :
      (i : String)
      → contains (violation_ids h next.protected) i ≡ (
          contains (violation_ids h b.protected) i
          || (contains (violation_ids h b.allowances) i
              && not (contains (map violation_id a.violations) i)))
  advance-protects i =
      let (evaluated, passed, _, same) = advance-evaluated h policy b bundle a r next advanced in
      ap (λ (q : RatchetBaseline). contains (violation_ids h q.protected) i) same
      ∙ successor-protected h policy b bundle a r evaluated passed i

  pub advance-generation : next.generation ≡ suc b.generation
  unfolding successor successor_baseline
  advance-generation =
      let (_, _, _, same) = advance-evaluated h policy b bundle a r next advanced in
      omega (arith, ap (λ (q : RatchetBaseline). q.generation) same)

  -- The next baseline passes the structural checks, keeps the policy, is one generation older, and
  -- names the baseline, the assessment and the report that it comes from.
  pub advance-links :
      (validate_ratchet_baseline_structure h next ≡ ok tt)
      × (next.policy ≡ b.policy)
      × (next.generation ≡ suc b.generation)
      × (next.predecessor ≡ some (baseline_ref h b))
      × (next.source_assessment ≡ assessment_ref h a)
      × (next.source_evaluation ≡ some (evaluation_ref h r))
  unfolding successor successor_baseline
  advance-links =
      let (evaluated, passed, _, same) = advance-evaluated h policy b bundle a r next advanced in
      (
        (validate_ratchet_baseline_structure-ok h next).1 (
            subst (IsValidBaseline h) (sym same)
              (successor-IsValidBaseline h policy b bundle a r evaluated passed)),
        ap (λ (q : RatchetBaseline). q.policy) same,
        advance-generation,
        ap (λ (q : RatchetBaseline). q.predecessor) same,
        ap (λ (q : RatchetBaseline). q.source_assessment) same,
        ap (λ (q : RatchetBaseline). q.source_evaluation) same,
      )
