-- ===== src/Ratchet/Evaluation/Classes.antt =====
-- The classifications of src/ucf/ratchet/evaluation.py for accepted documents, without its dicts.
use ucf.Prelude.Dict.{get, has, has-map, dict_of, dict_of_unique, get-graph}
use ucf.Prelude.{
  String, ◌≡◌, refl, ◌∙◌, ap, true, not, some, List, ◌++◌, map, map-map, map_cong, filter-map,
  filter_cong, string_eq, pair_eq, pair_order, text_order, contains, filter, All, All-imp,
  All-map_iff, sorted_by, IsIncreasing-IsUnique, ok, traverse-total, if◌then◌else◌, arith,
}
use ucf.Ratchet.Models.{
  ViolationKey, RatchetViolation, RuleCoverage, RatchetAssessment, RatchetBaseline, SubjectChange,
  SubjectChangeKind, CoverageStatus, ViolationClassification, ViolationClassificationKind,
  unchanged_legacy, new_regression, touched_legacy, reintroduced,
}
use ucf.Ratchet.Identity.{Hashing, derive_violation_id}
use ucf.Ratchet.Validation.{subject_id, coverage_key, violation_id}
use ucf.Ratchet.Validation.Accepts.{IsValidBaseline, violation_ids}
use ucf.Ratchet.Validation.Assessment.{IsValidAssessment, ViolationKnown}
use ucf.Ratchet.Evaluation.{classify, classify_current, classify_absent, is_unchanged}
use ucf.Ratchet.Evaluation.Changes.{
  change_at, changed_ids, contains-changed_ids, map-change_at, changed_ids-IsIncreasing,
  change_at_ids,
}
use ucf.Ratchet.Report.{change_subject_id}

module _ (h : Hashing) (b : RatchetBaseline) (a : RatchetAssessment) where
  unfoldable pub present_kind : String × ViolationKey → ViolationClassificationKind
  present_kind (i, key) =
      if contains (violation_ids h b.protected) i
      then reintroduced
      else if not (contains (violation_ids h b.allowances) i)
      then new_regression
      else if is_unchanged (change_at b a key.subject.target_id).change
      then unchanged_legacy
      else touched_legacy

  abbrev pub entry : RatchetViolation → String × ViolationKey
  entry v = (v.id, v.key)

  abbrev pub present : RatchetViolation → ViolationClassification
  present v = record { classification = present_kind (entry v); key = v.key }

  abbrev statuses : List ((String × String) × CoverageStatus)
  statuses = map (λ (c : RuleCoverage). (coverage_key c, c.status)) a.coverage

  unfoldable pub absent : ViolationKey → ViolationClassification
  unfolding classify_absent
  absent key = classify_absent a.subject_coverage statuses (derive_violation_id h key, key)

  abbrev pub absent_keys : List ViolationKey
  absent_keys =
      filter (λ key. not (contains (map violation_id a.violations) (derive_violation_id h key)))
        b.allowances

  abbrev pub class_id : ViolationClassification → String
  class_id c = derive_violation_id h c.key

  abbrev pub classes : List ViolationClassification
  classes = sorted_by class_id (map present a.violations ++ map absent absent_keys)

  abbrev changes : List SubjectChange
  changes = map (change_at b a) (changed_ids b a)

  -- What the loop finds on a subject of the assessment.
  get-changes :
      (i : String)
      → contains (map subject_id a.subjects) i ≡ true
      → get (dict_of change_subject_id (λ (c : SubjectChange). c.change) changes) i
        ≡ some (change_at b a i).change
  get-changes i m =
      rw
        (dict_of_unique change_subject_id (λ (c : SubjectChange). c.change) changes
          (rw map-change_at
            (IsIncreasing-IsUnique (changed_ids b a) (changed_ids-IsIncreasing b a))))
        (rw graph (
          get-graph (λ i. (change_at b a i).change) (changed_ids b a) i
            (ground (arith, contains-changed_ids b a i))))
    where
      graph :
          map {B = String × SubjectChangeKind}
            (λ (c : SubjectChange). (change_subject_id c, c.change))
            changes
          ≡ map {B = String × SubjectChangeKind}
              (λ i. (i, (change_at b a i).change))
              (changed_ids b a)
      graph =
          map-map {C = String × SubjectChangeKind}
            (λ (c : SubjectChange). (change_subject_id c, c.change)) (change_at b a)
            (changed_ids b a)
          ∙ map_cong {B = String × SubjectChangeKind}
              (λ i. (change_subject_id (change_at b a i), (change_at b a i).change))
              (λ i. (i, (change_at b a i).change)) (changed_ids b a)
              (All-imp (λ i. change_subject_id (change_at b a i) ≡ i) _ (changed_ids b a)
                (λ i e. ap (λ j. (j, (change_at b a i).change)) e) (change_at_ids b a))

  abbrev allowance_dict : List (String × ViolationKey)
  allowance_dict = map (λ key. (derive_violation_id h key, key)) b.allowances

  abbrev protected_dict : List (String × ViolationKey)
  protected_dict = map (λ key. (derive_violation_id h key, key)) b.protected

  abbrev change_dict : List (String × SubjectChangeKind)
  change_dict = dict_of change_subject_id (λ (c : SubjectChange). c.change) changes

  abbrev present_entry : String × ViolationKey → ViolationClassification
  present_entry (i, key) = record { classification = present_kind (i, key); key = key }

  classify_current-eq :
      (v : RatchetViolation)
      → contains (map subject_id a.subjects) v.key.subject.target_id ≡ true
      → classify_current protected_dict allowance_dict change_dict (entry v) ≡ ok (present v)
  unfolding classify_current present_kind
  classify_current-eq v m = rw (has-map (derive_violation_id h) (λ key. key) b.protected v.id) (
      rw (has-map (derive_violation_id h) (λ key. key) b.allowances v.id)
        (rw (get-changes v.key.subject.target_id m) (ground arith)))

  module _ (vb : IsValidBaseline h b) (va : IsValidAssessment h a) where
    All-present :
        All
          (λ e. classify_current protected_dict allowance_dict change_dict e ≡ ok (present_entry e))
          (map entry a.violations)
    All-present = (All-map_iff _ entry a.violations).1 (
        All-imp (ViolationKnown (map coverage_key a.coverage) (map subject_id a.subjects)) _
          a.violations (λ v k. classify_current-eq v k.1) va.known_violations)

    absent_part :
        map
          (classify_absent a.subject_coverage statuses)
          (filter (λ e. not (has (map entry a.violations) e.0)) allowance_dict)
        ≡ map absent absent_keys
    unfolding absent
    absent_part =
        ap (map (classify_absent a.subject_coverage statuses)) (
          filter-map _ _ b.allowances
          ∙ ap (map (λ key. (derive_violation_id h key, key))) (
              filter_cong _ _ b.allowances (λ key. ap not (
                has-map violation_id (λ (v : RatchetViolation). v.key) a.violations
                  (derive_violation_id h key)))))
        ∙ map-map (classify_absent a.subject_coverage statuses) _ absent_keys

    pub classify-eq : classify h b a changes ≡ ok classes
    unfolding classify
    classify-eq =
        rw
          (dict_of_unique (derive_violation_id h) (λ (k : ViolationKey). k) b.allowances
            (IsIncreasing-IsUnique _ vb.canonical_allowances))
          (rw
            (dict_of_unique (derive_violation_id h) (λ (k : ViolationKey). k) b.protected
              (IsIncreasing-IsUnique _ vb.canonical_protected))
            (rw
              (dict_of_unique violation_id (λ (v : RatchetViolation). v.key) a.violations
                (IsIncreasing-IsUnique _ va.canonical_violations))
              (rw
                (dict_of_unique coverage_key (λ (c : RuleCoverage). c.status) a.coverage
                  (IsIncreasing-IsUnique ⦃o = pair_order⦄ (map coverage_key a.coverage)
                    va.canonical_coverage))
                (rw
                  (traverse-total (classify_current protected_dict allowance_dict change_dict)
                    present_entry (map entry a.violations) All-present)
                  (rw absent_part (rw (map-map present_entry entry a.violations) refl))))))
