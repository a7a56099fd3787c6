-- ===== src/Prelude/Subset.antt =====
-- Lists whose members are all found in another list, by counting.
use Prim.Native.Nat.{suc, ◌≤◌}
use mathlib.Core.Path.{◌≡◌}
use mathlib.Core.Logic.{inl, inr}
use mathlib.Core.Bool.{true, false}
use mathlib.Core.List.{List, [], ◌∷◌}
use native.Mathlib.Omega.{arith}
use ucf.Prelude.Tests.{if◌then◌else◌, Eq, ◌==◌, Bool-cases}
use ucf.Prelude.Lists.{length, All, contains, IsUnique}

module _ {ℓ} {A : Type ℓ} ⦃e : Eq A⦄ where
  -- xs without a
  abbrev without : A → List A → List A
  without a [] = []
  without a (x ∷ xs) = let rest = without a xs in if x == a then xs else x ∷ rest

  length-without :
      (a : A) (xs : List A) → contains xs a ≡ true → suc (length (without a xs)) ≡ length xs
  length-without a [] m = absurd (ground arith)
  length-without a (x ∷ xs) m = ground (arith, length-without a xs, e.beq_iff x a, e.beq_iff a x)

  contains-without :
      (a b : A) (xs : List A)
      → contains xs b ≡ true
      → (b == a) ≡ false
      → contains (without a xs) b ≡ true
  contains-without a b [] m n = m
  contains-without a b (x ∷ xs) m n =
      ground (arith, contains-without a b xs, e.beq_iff x a, e.beq_iff b x, e.beq_iff b a)

  -- Members that differ from `a` are found without it.
  All-without :
      (a : A) (xs ys : List A)
      → contains xs a ≡ false
      → All (λ x. contains ys x ≡ true) xs
      → All (λ x. contains (without a ys) x ≡ true) xs
  All-without a [] ys u h = tt
  All-without a (x ∷ xs) ys u h = (
    contains-without a x ys h.0 (ground (arith, e.beq_iff a x, e.beq_iff x a)),
    All-without a xs ys (ground arith) h.1,
  )

  pub length-le_of_subset :
      (xs ys : List A) → IsUnique xs → All (λ x. contains ys x ≡ true) xs → length xs ≤ length ys
  length-le_of_subset [] ys u h = omega arith
  length-le_of_subset (x ∷ xs) ys u h = omega (
    arith,
    length-without x ys h.0,
    length-le_of_subset xs (without x ys) u.1 (All-without x xs ys u.0 h.1),
  )

  -- A list without repetitions that fits into one of its own length fills it.
  pub contains_of_subset :
      (xs ys : List A) (a : A)
      → IsUnique xs
      → All (λ x. contains ys x ≡ true) xs
      → length xs ≡ length ys
      → contains ys a ≡ true
      → contains xs a ≡ true
  contains_of_subset xs ys a u h same m = elim (Bool-cases (contains xs a)) [
    | inl found ↦ found
    | inr absent ↦ absurd (
        omega (
          arith,
          length-without a ys m,
          length-le_of_subset xs (without a ys) u (All-without a xs ys absent h),
        ))
  ]
