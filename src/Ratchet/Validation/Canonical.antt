-- ===== src/Ratchet/Validation/Canonical.antt =====
-- `_require_unique_and_sorted` of src/ucf/ratchet/validation.py, and its two tests.
use ucf.Prelude.{
  ◌≡◌, ◌↔◌, not, List, Eq, ◌==◌, nat_eq, list_eq, TotalOrder, length, to_set, IsUnique,
  length-to_set_iff, list_beq_iff, sorted_by, IsIncreasing, IsIncreasing-iff, Result, ok, ◌>>◌,
  raise_if, raise_if-ok, >>-ok, arith,
}
use ucf.Ratchet.Identity.{
  RatchetFailure, ratchet_error, duplicate_identity, non_canonical_order, Location,
}

module _ {κ} {K : Type κ} ⦃e : Eq K⦄ where
  unfoldable pub require_unique : List K → Location → Result RatchetFailure (Unit {0})
  require_unique values location =
      raise_if (not (length values == length (to_set values)))
        (ratchet_error duplicate_identity location)

  pub require_unique-ok :
      (values : List K) (location : Location)
      → (require_unique values location ≡ ok tt) ↔ IsUnique values
  unfolding require_unique
  require_unique-ok values location =
      let test =
        raise_if-ok (not (length values == length (to_set values)))
          (ratchet_error duplicate_identity location) in
      let same = length-to_set_iff values in
      (λ h. same.0 (ground (arith, test.0 h)), λ u. test.1 (ground (arith, same.1 u)))

module _ {κ} {K : Type κ} ⦃e : Eq K⦄ ⦃o : TotalOrder K⦄ where
  unfoldable pub require_sorted : List K → Location → Result RatchetFailure (Unit {0})
  require_sorted values location =
      raise_if (not (values == sorted_by (λ k. k) values))
        (ratchet_error non_canonical_order location)

  unfoldable pub require_unique_and_sorted : List K → Location → Result RatchetFailure (Unit {0})
  unfolding require_unique require_sorted
  require_unique_and_sorted values location =
      require_unique values location >> require_sorted values location

  pub require_sorted-ok :
      (values : List K) (location : Location)
      → (require_sorted values location ≡ ok tt) ↔ (values ≡ sorted_by (λ k. k) values)
  unfolding require_sorted
  require_sorted-ok values location =
      let test =
        raise_if-ok (not (values == sorted_by (λ k. k) values))
          (ratchet_error non_canonical_order location) in
      let same = list_beq_iff values (sorted_by (λ k. k) values) in
      (λ h. same.0 (ground (arith, test.0 h)), λ u. test.1 (ground (arith, same.1 u)))

  -- The check passes on strictly increasing values, and on no others.
  pub require_unique_and_sorted-ok :
      (values : List K) (location : Location)
      → (require_unique_and_sorted values location ≡ ok tt) ↔ IsIncreasing values
  require_unique_and_sorted-ok values location =
      let both = >>-ok (require_unique values location) (require_sorted values location) in
      let canonical = IsIncreasing-iff values in
      (
        λ h. canonical.0 (
          (require_unique-ok values location).0 (both.0 (unfold require_unique_and_sorted in h)).0,
          (require_sorted-ok values location).0 (both.0 (unfold require_unique_and_sorted in h)).1,
        ),
        λ i.
            unfold require_unique_and_sorted in
            (both.1 (
              (require_unique-ok values location).1 (canonical.1 i).0,
              (require_sorted-ok values location).1 (canonical.1 i).1,
            )),
      )
