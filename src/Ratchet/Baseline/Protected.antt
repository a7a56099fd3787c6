-- ===== src/Ratchet/Baseline/Protected.antt =====
-- The violations that a successor of src/ucf/ratchet/baseline.py protects against.
use ucf.Prelude.Dict.{has-map, dict_of_unique, dict_from_unique}
use ucf.Prelude.{
  String, ◌≡◌, refl, ◌∙◌, ap, true, false, ◌||◌, List, ◌++◌, map, map-map, map-append, map_cong,
  string_eq, text_order, contains, contains-append, contains-sorted_by, All, All-intro, All-append,
  All-map_iff, ap₂, sorted_by, map-sorted_by, All-sorted_by, IsIncreasing, sorted_by-IsIncreasing,
  IsUnique, IsUnique-append, contains-All, arith,
}
use ucf.Ratchet.Models.{ViolationKey}
use ucf.Ratchet.Identity.{Hashing, derive_violation_id}
use ucf.Ratchet.Validation.Accepts.{violation_ids}
use ucf.Ratchet.Baseline.{protected_keys}

module _ (h : Hashing) (protected resolved : List ViolationKey)
    (IsUnique-protected : IsUnique (violation_ids h protected))
    (IsUnique-resolved : IsUnique (violation_ids h resolved))
    (apart : (i : String)
      → contains (violation_ids h resolved) i ≡ true
      → contains (violation_ids h protected) i ≡ false) where
  abbrev item : ViolationKey → String × ViolationKey
  item key = (derive_violation_id h key, key)

  abbrev pub successor_protected : List ViolationKey
  successor_protected =
      map (λ (entry : String × ViolationKey). entry.1)
        (sorted_by (λ (entry : String × ViolationKey). entry.0)
          (protected_keys h protected resolved))

  protected_keys-eq : protected_keys h protected resolved ≡ map item protected ++ map item resolved
  unfolding protected_keys
  protected_keys-eq =
      rw
        (dict_of_unique (derive_violation_id h) (λ (k : ViolationKey). k) protected
          IsUnique-protected)
        (dict_from_unique (derive_violation_id h) (λ (k : ViolationKey). k) (map item protected)
          resolved IsUnique-resolved
          (λ i m.
            has-map (derive_violation_id h) (λ (k : ViolationKey). k) protected i ∙ apart i m))

  abbrev entries : List (String × ViolationKey)
  entries = map item protected ++ map item resolved

  abbrev entry_id : String × ViolationKey → String
  entry_id entry = entry.0

  All-keyed :
      All
        (λ (entry : String × ViolationKey). derive_violation_id h entry.1 ≡ entry_id entry)
        entries
  All-keyed =
      All-append _ (map item protected) (map item resolved)
        ((All-map_iff _ item protected).1 (All-intro _ protected (λ key. refl)))
        ((All-map_iff _ item resolved).1 (All-intro _ resolved (λ key. refl)))

  entry_ids : map entry_id entries ≡ violation_ids h protected ++ violation_ids h resolved
  entry_ids =
      map-append entry_id (map item protected) (map item resolved)
      ∙ ap₂ ◌++◌ (map-map entry_id item protected) (map-map entry_id item resolved)

  pub successor_protected_ids :
      violation_ids h successor_protected
      ≡ sorted_by (λ k. k) (violation_ids h protected ++ violation_ids h resolved)
  successor_protected_ids = rw protected_keys-eq (
      map-map (derive_violation_id h) (λ (entry : String × ViolationKey). entry.1)
        (sorted_by entry_id entries)
      ∙ map_cong _ entry_id (sorted_by entry_id entries)
          (All-sorted_by entry_id _ entries All-keyed)
      ∙ map-sorted_by entry_id entries
      ∙ ap (sorted_by (λ k. k)) entry_ids)

  pub successor_protected-IsIncreasing : IsIncreasing (violation_ids h successor_protected)
  successor_protected-IsIncreasing = rw successor_protected_ids (
      sorted_by-IsIncreasing (violation_ids h protected ++ violation_ids h resolved) (
        IsUnique-append (violation_ids h protected) (violation_ids h resolved) IsUnique-protected
          IsUnique-resolved
          (contains-All (λ i. contains (violation_ids h resolved) i ≡ false)
            (violation_ids h protected) (λ i m. ground (arith, apart i)))))

  -- What was protected stays protected, and what was resolved is protected from then on.
  pub contains-successor_protected :
      (i : String)
      → contains (violation_ids h successor_protected) i
        ≡ (contains (violation_ids h protected) i || contains (violation_ids h resolved) i)
  contains-successor_protected i =
      ap (λ ids. contains ids i) successor_protected_ids
      ∙ contains-sorted_by (violation_ids h protected ++ violation_ids h resolved) i
      ∙ contains-append (violation_ids h protected) (violation_ids h resolved) i
