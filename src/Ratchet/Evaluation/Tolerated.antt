-- ===== src/Ratchet/Evaluation/Tolerated.antt =====
-- When a violation of the assessment is no regression, told without the code's classification.
use ucf.Prelude.Dict.{get-map}
use ucf.Prelude.{
  String, ◌≡◌, ◌↔◌, refl, true, false, some, List, [], ◌∷◌, map, ◌==◌, ==_refl, string_eq, contains,
  contains-All, subst, IsUnique, Bool-cases, inl, inr, arith,
}
use ucf.Ratchet.Models.{
  BehaviorSubjectSnapshot, RatchetViolation, RatchetAssessment, RatchetBaseline,
}
use ucf.Ratchet.Equality.{
  semantic_fingerprint_eq, observed_fingerprint_eq, behavior_subject_snapshot_eq,
}
use ucf.Ratchet.Identity.{Hashing}
use ucf.Ratchet.Validation.{subject_id}
use ucf.Ratchet.Validation.Accepts.{violation_ids}
use ucf.Ratchet.Evaluation.{subject_change, fingerprint_change, is_unchanged, is_regression}
use ucf.Ratchet.Evaluation.Changes.{change_at, snapshot_at, find, missing}
use ucf.Ratchet.Evaluation.Classes.{present_kind, entry}

-- The subject stands in both documents with the same two fingerprints.
pub record Untouched (b : RatchetBaseline) (a : RatchetAssessment) (i : String) : Type 0 where
  pub old : BehaviorSubjectSnapshot
  pub new : BehaviorSubjectSnapshot
  pub old_listed : contains b.subjects old ≡ true
  pub new_listed : contains a.subjects new ≡ true
  pub old_id : old.id ≡ i
  pub new_id : new.id ≡ i
  pub same_semantic : old.semantic ≡ new.semantic
  pub same_observed : old.observed ≡ new.observed

fingerprint_change-unchanged :
    (old new : BehaviorSubjectSnapshot)
    → (is_unchanged (fingerprint_change old new) ≡ true)
      ↔ ((old.semantic ≡ new.semantic) × (old.observed ≡ new.observed))
unfolding fingerprint_change
fingerprint_change-unchanged old new =
    let semantic = semantic_fingerprint_eq.beq_iff old.semantic new.semantic in
    let observed = observed_fingerprint_eq.beq_iff old.observed new.observed in
    (
      λ e. (semantic.0 (ground arith), observed.0 (ground arith)),
      λ e. ground (arith, semantic.1 e.0, observed.1 e.1),
    )

contains-id :
    (subjects : List BehaviorSubjectSnapshot) (s : BehaviorSubjectSnapshot)
    → contains subjects s ≡ true
    → contains (map subject_id subjects) s.id ≡ true
contains-id [] s m = m
contains-id (x ∷ xs) s m = elim (Bool-cases (s == x)) [
  | inl same ↦ rw ((behavior_subject_snapshot_eq.beq_iff s x).0 same) (rw (==_refl x.id) refl)
  | inr other ↦ ground (arith, contains-id xs s)
]

-- The snapshot that `get` finds is the one with that id.
snapshot_at-listed :
    (subjects : List BehaviorSubjectSnapshot) (s : BehaviorSubjectSnapshot)
    → IsUnique (map subject_id subjects)
    → contains subjects s ≡ true
    → snapshot_at subjects s.id ≡ some s
snapshot_at-listed [] s u m = absurd (ground arith)
snapshot_at-listed (x ∷ xs) s u m = elim (Bool-cases (s == x)) [
  | inl same ↦ rw ((behavior_subject_snapshot_eq.beq_iff s x).0 same) (rw (==_refl x.id) refl)
  | inr other ↦
      ground
        (arith, snapshot_at-listed xs s u.1, contains-id xs s, string_eq.beq_iff x.id s.id, u.0)
]

find_listed :
    (subjects : List BehaviorSubjectSnapshot) (i : String)
    → contains (map subject_id subjects) i ≡ true
    → (s : BehaviorSubjectSnapshot) × (snapshot_at subjects i ≡ some s)
      × (s.id ≡ i)
      × (contains subjects s ≡ true)
find_listed subjects i m =
    get-map subject_id (λ s. s) (λ s. contains subjects s ≡ true) subjects i
      (contains-All (λ s. contains subjects s ≡ true) subjects (λ s e. e)) m

module _ (b : RatchetBaseline) (a : RatchetAssessment)
    (unique_old : IsUnique (map subject_id b.subjects))
    (unique_new : IsUnique (map subject_id a.subjects)) where
  pub change_at-unchanged :
      (i : String) → (is_unchanged (change_at b a i).change ≡ true) ↔ Untouched b a i
  unfolding change_at subject_change
  change_at-unchanged i = (there i, back i)
    where
      there : (i : String) → is_unchanged (change_at b a i).change ≡ true → Untouched b a i
      there i e = elim (Bool-cases (contains (map subject_id b.subjects) i)) [
        | inr fresh ↦ elim (Bool-cases (contains (map subject_id a.subjects) i)) [
          | inr gone ↦
              absurd (ground (arith, missing b a b.subjects i fresh, missing b a a.subjects i gone))
          | inl now ↦
              let (s', e', _) = find b a a.subjects i now in
              absurd (ground (arith, missing b a b.subjects i fresh, e'))
        ]
        | inl before ↦
            let (s, found, named, listed) = find_listed b.subjects i before in
            elim (Bool-cases (contains (map subject_id a.subjects) i)) [
              | inr gone ↦ absurd (ground (arith, found, missing b a a.subjects i gone))
              | inl now ↦
                  let (s', found', named', listed') = find_listed a.subjects i now in
                  let same =
                    (fingerprint_change-unchanged s s').0 (ground (arith, found, found')) in
                  record {
                    old = s;
                    new = s';
                    old_listed = listed;
                    new_listed = listed';
                    old_id = named;
                    new_id = named';
                    same_semantic = same.0;
                    same_observed = same.1;
                  }
            ]
      ]

      back : (i : String) → Untouched b a i → is_unchanged (change_at b a i).change ≡ true
      back i u =
          rw
            (subst (λ j. snapshot_at b.subjects j ≡ some u.old) u.old_id
              (snapshot_at-listed b.subjects u.old unique_old u.old_listed))
            (rw
              (subst (λ j. snapshot_at a.subjects j ≡ some u.new) u.new_id
                (snapshot_at-listed a.subjects u.new unique_new u.new_listed))
              ((fingerprint_change-unchanged u.old u.new).1 (u.same_semantic, u.same_observed)))

module _ (h : Hashing) (b : RatchetBaseline) (a : RatchetAssessment) where
  -- A violation that the baseline allows and does not protect against, on an untouched subject.
  pub record Tolerated (v : RatchetViolation) : Type 0 where
    pub not_protected : contains (violation_ids h b.protected) v.id ≡ false
    pub allowed : contains (violation_ids h b.allowances) v.id ≡ true
    pub untouched : Untouched b a v.key.subject.target_id

  module _ (unique_old : IsUnique (map subject_id b.subjects))
      (unique_new : IsUnique (map subject_id a.subjects)) where
    pub present_kind-Tolerated :
        (v : RatchetViolation)
        → (is_regression (present_kind h b a (entry h b a v)) ≡ false) ↔ Tolerated v
    unfolding present_kind
    present_kind-Tolerated v =
        let same = change_at-unchanged b a unique_old unique_new v.key.subject.target_id in
        (
          λ e. record {
            not_protected = ground arith;
            allowed = ground arith;
            untouched = same.0 (ground arith);
          },
          λ t. ground (arith, t.not_protected, t.allowed, same.1 t.untouched),
        )
