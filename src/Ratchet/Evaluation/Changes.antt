-- ===== src/Ratchet/Evaluation/Changes.antt =====
-- `_subject_changes` of src/ucf/ratchet/evaluation.py: one change for each subject of the two documents.
use ucf.Prelude.Dict.{get, dict_of, dict_of_unique, get-map, get-map_absent}
use ucf.Prelude.{
  String, ◌≡◌, refl, ◌∙◌, true, false, ◌||◌, Option, none, some, List, ◌++◌, map, map_cong, map-map,
  map_id, string_eq, text_order, contains, contains-append, contains-to_set, contains-sorted_by,
  contains-All, All, All-imp, All-intro, IsUnique, to_set, to_set-IsUnique, sorted_by,
  sorted_by-IsIncreasing, IsIncreasing, Result, ok, err, traverse-total, Bool-cases, inl, inr,
  arith,
}
use ucf.Ratchet.Models.{
  BehaviorSubjectSnapshot, RatchetAssessment, RatchetBaseline, SubjectChange, removed_subject,
}
use ucf.Ratchet.Equality.{semantic_fingerprint_eq, observed_fingerprint_eq}
use ucf.Ratchet.Identity.{RatchetFailure}
use ucf.Ratchet.Validation.{subject_id}
use ucf.Ratchet.Evaluation.{subject_change, subject_changes}
use ucf.Ratchet.Report.{change_subject_id}

-- The snapshot of a subject, by its id.
abbrev pub snapshot_at : List BehaviorSubjectSnapshot → String → Option BehaviorSubjectSnapshot
snapshot_at subjects i = get (map (λ (s : BehaviorSubjectSnapshot). (s.id, s)) subjects) i

abbrev change_or_none : Result RatchetFailure SubjectChange → SubjectChange
change_or_none (ok c) = c
change_or_none (err _) = record { subject = record { target_id = "" }; change = removed_subject }

module _ (b : RatchetBaseline) (a : RatchetAssessment) where
  abbrev pub changed_ids : List String
  changed_ids = sorted_by (λ k. k) (to_set (map subject_id b.subjects ++ map subject_id a.subjects))

  unfoldable pub change_at : String → SubjectChange
  change_at i =
      change_or_none
        (subject_change a.subject_coverage (snapshot_at b.subjects i) (snapshot_at a.subjects i))

  pub changed_ids-IsIncreasing : IsIncreasing changed_ids
  changed_ids-IsIncreasing =
      sorted_by-IsIncreasing (to_set (map subject_id b.subjects ++ map subject_id a.subjects))
        (to_set-IsUnique (map subject_id b.subjects ++ map subject_id a.subjects))

  pub contains-changed_ids :
      (i : String)
      → contains changed_ids i
        ≡ (contains (map subject_id b.subjects) i || contains (map subject_id a.subjects) i)
  contains-changed_ids i =
      let all_ids = map subject_id b.subjects ++ map subject_id a.subjects in
      contains-sorted_by (to_set all_ids) i
      ∙ contains-to_set all_ids i
      ∙ contains-append (map subject_id b.subjects) (map subject_id a.subjects) i

  abbrev Found : String → Type 0
  Found i =
      (subject_change a.subject_coverage (snapshot_at b.subjects i) (snapshot_at a.subjects i)
        ≡ ok (change_at i))
      × ((change_at i).subject.target_id ≡ i)

  pub find :
      (subjects : List BehaviorSubjectSnapshot) (i : String)
      → contains (map subject_id subjects) i ≡ true
      → (s : BehaviorSubjectSnapshot) × (snapshot_at subjects i ≡ some s) × (s.id ≡ i)
  find subjects i m =
      let (s, e, n, _) =
        get-map subject_id (λ s. s) (λ _. Unit {0}) subjects i
          (All-intro (λ _. Unit {0}) subjects (λ _. tt)) m in
      (s, e, n)

  pub missing :
      (subjects : List BehaviorSubjectSnapshot) (i : String)
      → contains (map subject_id subjects) i ≡ false
      → snapshot_at subjects i ≡ none
  missing subjects i m = get-map_absent subject_id (λ s. s) subjects i m

  found : (i : String) → contains changed_ids i ≡ true → Found i
  unfolding change_at subject_change
  found i m = elim (Bool-cases (contains (map subject_id b.subjects) i)) [
    | inl old ↦ elim (Bool-cases (contains (map subject_id a.subjects) i)) [
      | inl new ↦
          let (s, e, n) = find b.subjects i old in
          let (s', e', n') = find a.subjects i new in rw (e, e') (refl, n')
      | inr gone ↦
          let (s, e, n) = find b.subjects i old in rw (e, missing a.subjects i gone) (refl, n)
    ]
    | inr fresh ↦
        let (s', e', n') = find a.subjects i (ground (arith, contains-changed_ids i)) in
        rw (missing b.subjects i fresh, e') (refl, n')
  ]

  Found-All : All Found changed_ids
  Found-All = contains-All Found changed_ids found

  pub change_at_ids : All (λ i. change_subject_id (change_at i) ≡ i) changed_ids
  change_at_ids = All-imp Found _ changed_ids (λ i f. f.1) Found-All

  module _ (unique_old : IsUnique (map subject_id b.subjects))
      (unique_new : IsUnique (map subject_id a.subjects)) where
    keys-dict :
        (subjects : List BehaviorSubjectSnapshot)
        → IsUnique (map subject_id subjects)
        → map
            (λ (entry : String × BehaviorSubjectSnapshot). entry.0)
            (dict_of subject_id (λ s. s) subjects)
          ≡ map subject_id subjects
    keys-dict subjects u =
        rw (dict_of_unique subject_id (λ (s : BehaviorSubjectSnapshot). s) subjects u) (
          map-map (λ (entry : String × BehaviorSubjectSnapshot). entry.0)
            (λ (s : BehaviorSubjectSnapshot). (s.id, s)) subjects)

    -- The changes are those of the ids of both documents, in order.
    pub subject_changes-eq : subject_changes b a ≡ ok (map change_at changed_ids)
    unfolding subject_changes
    subject_changes-eq = rw (keys-dict b.subjects unique_old) (
        rw (keys-dict a.subjects unique_new) (
          rw (dict_of_unique subject_id (λ (s : BehaviorSubjectSnapshot). s) b.subjects unique_old)
            (rw
              (dict_of_unique subject_id (λ (s : BehaviorSubjectSnapshot). s) a.subjects unique_new)
              (traverse-total _ change_at changed_ids
                (All-imp Found _ changed_ids (λ i f. f.0) Found-All)))))

  pub map-change_at : map change_subject_id (map change_at changed_ids) ≡ changed_ids
  map-change_at =
      map-map change_subject_id change_at changed_ids
      ∙ map_cong (λ i. change_subject_id (change_at i)) (λ i. i) changed_ids
          (All-imp Found _ changed_ids (λ i f. f.1) Found-All)
      ∙ map_id changed_ids
