-- ===== src/Ratchet/Baseline/History.antt =====
-- Baselines that src/ucf/ratchet/baseline.py reaches by advancing, in any number of steps.
use ucf.Prelude.{
  String, ℕ, suc, ◌+◌, ◌≡◌, true, false, map, string_eq, contains, All-imp, All-map_iff,
  All-contains, ok, arith,
}
use ucf.Ratchet.Models.{
  RatchetPolicy, RatchetAssessment, RatchetBaseline, fail, RatchetEvaluationReport,
}
use ucf.Ratchet.Identity.{Hashing}
use ucf.Ratchet.Validation.{OnboardingView, violation_id}
use ucf.Ratchet.Validation.Accepts.{violation_ids}
use ucf.Ratchet.Evaluation.{evaluate_ratchet}
use ucf.Ratchet.Evaluation.Tolerated.{Tolerated}
use ucf.Ratchet.Evaluation.Outcome.{evaluate-fail_iff}
use ucf.Ratchet.Baseline.{advance_ratchet_baseline}
use ucf.Ratchet.Baseline.Advance.{advance-allowances, advance-protects, advance-generation}

-- The baselines that follow a first one, and the number of steps to each.
pub data History (h : Hashing) (policy : RatchetPolicy) (first : RatchetBaseline)
    : ℕ → RatchetBaseline → Type 0 where
  start : History h policy first 0 first
  step :
      {n : ℕ} {b next : RatchetBaseline} (bundle : OnboardingView) (a : RatchetAssessment)
      (r : RatchetEvaluationReport)
      → History h policy first n b
      → advance_ratchet_baseline h policy b bundle a r ≡ ok next
      → History h policy first (suc n) next

module _ (h : Hashing) (policy : RatchetPolicy) where
  History-protected :
      {first b : RatchetBaseline} {n : ℕ} (i : String)
      → History h policy first n b
      → contains (violation_ids h first.protected) i ≡ true
      → contains (violation_ids h b.protected) i ≡ true
  History-protected i start p = p
  History-protected i (step {b = b} {next = next} bundle a r history e) p =
      ground (arith, advance-protects h policy b bundle a r next e i, History-protected i history p)

  History-allowances :
      {first b : RatchetBaseline} {n : ℕ} (i : String)
      → History h policy first n b
      → contains (violation_ids h b.allowances) i ≡ true
      → contains (violation_ids h first.allowances) i ≡ true
  History-allowances i start p = p
  History-allowances i (step {b = b} {next = next} bundle a r history e) p =
      History-allowances i history (
        All-contains (λ i. contains (violation_ids h b.allowances) i ≡ true)
          (violation_ids h next.allowances) i (advance-allowances h policy b bundle a r next e).1 p)

  History-generation :
      {first b : RatchetBaseline} {n : ℕ}
      → History h policy first n b
      → b.generation ≡ first.generation + n
  History-generation start = omega arith
  History-generation (step {b = b} {next = next} bundle a r history e) =
      omega (arith, History-generation history, advance-generation h policy b bundle a r next e)

  protected-fails :
      (b : RatchetBaseline) (bundle : OnboardingView) (a : RatchetAssessment)
      (r : RatchetEvaluationReport) (i : String)
      → evaluate_ratchet h policy b bundle a ≡ ok r
      → contains (map violation_id a.violations) i ≡ true
      → contains (violation_ids h b.protected) i ≡ true
      → r.outcome ≡ fail
  protected-fails b bundle a r i evaluated found protected =
      (evaluate-fail_iff h policy b bundle a r evaluated).1 (λ all. absurd (
        ground (
          arith,
          All-contains (λ i. contains (violation_ids h b.protected) i ≡ false)
              (map violation_id a.violations) i
              ((All-map_iff _ violation_id a.violations).1
                (All-imp (Tolerated h b a) _ a.violations (λ v t. t.not_protected) all))
              found,
        )))

-- Along any number of advances, protections only grow, allowances only shrink, and the generation
-- counts the steps.
pub History-ratchets :
    (h : Hashing) (policy : RatchetPolicy) (first b : RatchetBaseline) (n : ℕ)
    → History h policy first n b
    → ((i : String)
        → contains (violation_ids h first.protected) i ≡ true
        → contains (violation_ids h b.protected) i ≡ true)
      × ((i : String)
          → contains (violation_ids h b.allowances) i ≡ true
          → contains (violation_ids h first.allowances) i ≡ true)
      × (b.generation ≡ first.generation + n)
History-ratchets h policy first b n history = (
  λ i. History-protected h policy i history,
  λ i. History-allowances h policy i history,
  History-generation h policy history,
)

-- A violation that an advance resolves (allowed before it, not found by its assessment) fails every
-- later evaluation that finds it again, whatever advances lie between.
pub resolved-never_again :
    (h : Hashing) (policy : RatchetPolicy) (b first later : RatchetBaseline) (n : ℕ) (i : String)
    (bundle bundle' : OnboardingView) (a a' : RatchetAssessment) (r r' : RatchetEvaluationReport)
    → contains (violation_ids h b.allowances) i ≡ true
    → contains (map violation_id a.violations) i ≡ false
    → advance_ratchet_baseline h policy b bundle a r ≡ ok first
    → History h policy first n later
    → contains (map violation_id a'.violations) i ≡ true
    → evaluate_ratchet h policy later bundle' a' ≡ ok r'
    → r'.outcome ≡ fail
resolved-never_again h policy b first later n i bundle bundle' a a' r r' allowed gone advanced
      history found evaluated =
    protected-fails h policy later bundle' a' r' i evaluated found (
      History-protected h policy i history
        (ground (arith, advance-protects h policy b bundle a r first advanced i, allowed, gone)))

-- A violation that a baseline does not allow fails the evaluation of every baseline that follows.
pub unknown-never_allowed :
    (h : Hashing) (policy : RatchetPolicy) (first later : RatchetBaseline) (n : ℕ) (i : String)
    (bundle : OnboardingView) (a : RatchetAssessment) (r : RatchetEvaluationReport)
    → contains (violation_ids h first.allowances) i ≡ false
    → History h policy first n later
    → contains (map violation_id a.violations) i ≡ true
    → evaluate_ratchet h policy later bundle a ≡ ok r
    → r.outcome ≡ fail
unknown-never_allowed h policy first later n i bundle a r refused history found evaluated =
    (evaluate-fail_iff h policy later bundle a r evaluated).1 (λ all. absurd (
      ground (
        arith,
        History-allowances h policy i history,
        All-contains (λ i. contains (violation_ids h later.allowances) i ≡ true)
            (map violation_id a.violations) i
            ((All-map_iff _ violation_id a.violations).1
              (All-imp (Tolerated h later a) _ a.violations (λ v t. t.allowed) all))
            found,
      )))
