-- ===== src/Prelude/Sorting.antt =====
-- Python's stable `sorted(xs, key=key)`, canonical (strictly increasing) lists, and the tests for
-- them.
use Prim.Native.Nat.{suc}
use mathlib.Core.Path.{◌≡◌, refl, ap, ◌∙◌}
use mathlib.Core.Logic.{inl, inr}
use mathlib.Core.Bool.{Bool, true, false, ◌||◌}
use mathlib.Core.List.{List, [], ◌∷◌, map}
use native.Mathlib.Omega.{arith}
use ucf.Prelude.Tests.{if◌then◌else◌, Bool-cases}
use ucf.Prelude.Lists.{length, any, All, All-imp}
use ucf.Prelude.Order.{TotalOrder}

module _ {ℓ κ} {A : Type ℓ} {K : Type κ} ⦃o : TotalOrder K⦄ (key : A → K) where
  abbrev pub insert_by : A → List A → List A
  insert_by x [] = x ∷ []
  insert_by x (y ∷ ys) =
      let rest = insert_by x ys in if o.lt (key y) (key x) then y ∷ rest else x ∷ y ∷ ys

  -- A stable sort: members with one key keep their order.
  abbrev pub sorted_by : List A → List A
  sorted_by [] = []
  sorted_by (x ∷ xs) = insert_by x (sorted_by xs)

module _ {κ} {K : Type κ} ⦃o : TotalOrder K⦄ where
  abbrev pub IsSorted : List K → Type 0
  IsSorted [] = Unit
  IsSorted (x ∷ xs) = All (λ y. o.lt y x ≡ false) xs × IsSorted xs

  -- Canonical order: each key is below all that stand behind it.
  abbrev pub IsIncreasing : List K → Type 0
  IsIncreasing [] = Unit
  IsIncreasing (x ∷ xs) = All (λ y. o.lt x y ≡ true) xs × IsIncreasing xs

  pub lt_asymm : (a b : K) → o.lt a b ≡ true → o.lt b a ≡ false
  lt_asymm a b h = ground (arith, o.trans a b a, o.irrefl a)

  -- a ≤ b < c or a < b ≤ c
  pub le_le_trans : (a b c : K) → o.lt b a ≡ false → o.lt c b ≡ false → o.lt c a ≡ false
  le_le_trans a b c h k = ground (arith, o.trans c a b, o.trans b c a, o.total a b, o.total b c)

  pub IsIncreasing-IsSorted : (xs : List K) → IsIncreasing xs → IsSorted xs
  IsIncreasing-IsSorted [] h = tt
  IsIncreasing-IsSorted (x ∷ xs) h = (
    All-imp (λ y. o.lt x y ≡ true) (λ y. o.lt y x ≡ false) xs (λ y. lt_asymm x y) h.0,
    IsIncreasing-IsSorted xs h.1,
  )

module _ {ℓ κ μ} {A : Type ℓ} {K : Type κ} ⦃o : TotalOrder K⦄ (key : A → K) (P : A → Type μ) where
  pub All-insert_by : (x : A) (xs : List A) → P x → All P xs → All P (insert_by key x xs)
  All-insert_by x [] p h = (p, tt)
  All-insert_by x (y ∷ ys) p h = elim (Bool-cases (o.lt (key y) (key x))) [
    | inl e ↦ rw e (h.0, All-insert_by x ys p h.1)
    | inr e ↦ rw e (p, h)
  ]

  pub All-sorted_by : (xs : List A) → All P xs → All P (sorted_by key xs)
  All-sorted_by [] h = tt
  All-sorted_by (x ∷ xs) h = All-insert_by x (sorted_by key xs) h.0 (All-sorted_by xs h.1)

module _ {ℓ κ} {A : Type ℓ} {K : Type κ} ⦃o : TotalOrder K⦄ (key : A → K) (p : A → Bool) where
  any-insert_by : (x : A) (xs : List A) → any p (insert_by key x xs) ≡ (p x || any p xs)
  any-insert_by x [] = refl
  any-insert_by x (y ∷ ys) = ground (arith, any-insert_by x ys)

  pub any-sorted_by : (xs : List A) → any p (sorted_by key xs) ≡ any p xs
  any-sorted_by [] = refl
  any-sorted_by (x ∷ xs) =
      any-insert_by x (sorted_by key xs) ∙ ap (λ q. p x || q) (any-sorted_by xs)

module _ {ℓ κ} {A : Type ℓ} {K : Type κ} ⦃o : TotalOrder K⦄ (key : A → K) where
  length-insert_by : (x : A) (xs : List A) → length (insert_by key x xs) ≡ suc (length xs)
  length-insert_by x [] = refl
  length-insert_by x (y ∷ ys) = ground (arith, length-insert_by x ys)

  pub length-sorted_by : (xs : List A) → length (sorted_by key xs) ≡ length xs
  length-sorted_by [] = refl
  length-sorted_by (x ∷ xs) = length-insert_by x (sorted_by key xs) ∙ ap suc (length-sorted_by xs)

  map-insert_by :
      (x : A) (xs : List A) → map key (insert_by key x xs) ≡ insert_by (λ k. k) (key x) (map key xs)
  map-insert_by x [] = refl
  map-insert_by x (y ∷ ys) = ground (arith, map-insert_by x ys)

  -- The keys of a sorted list are the sorted keys.
  pub map-sorted_by : (xs : List A) → map key (sorted_by key xs) ≡ sorted_by (λ k. k) (map key xs)
  map-sorted_by [] = refl
  map-sorted_by (x ∷ xs) =
      map-insert_by x (sorted_by key xs) ∙ ap (insert_by (λ k. k) (key x)) (map-sorted_by xs)

  -- Sorting leaves a sorted list alone.
  pub sorted_by-eq_self : (xs : List A) → IsSorted (map key xs) → sorted_by key xs ≡ xs
  sorted_by-eq_self [] h = refl
  sorted_by-eq_self (x ∷ []) h = refl
  sorted_by-eq_self (x ∷ y ∷ ys) h = rw (sorted_by-eq_self (y ∷ ys) h.1) (rw (h.0.0) refl)

-- `sorted(xs)` of sorted keys
pub sorted_by-eq_self_of_keys {κ} :
    {K : Type κ} ⦃o : TotalOrder K⦄ (xs : List K) → IsSorted xs → sorted_by (λ k. k) xs ≡ xs
sorted_by-eq_self_of_keys [] h = refl
sorted_by-eq_self_of_keys (x ∷ []) h = refl
sorted_by-eq_self_of_keys (x ∷ y ∷ ys) h =
    rw (sorted_by-eq_self_of_keys (y ∷ ys) h.1) (rw (h.0.0) refl)
