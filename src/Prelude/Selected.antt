-- ===== src/Prelude/Selected.antt =====
-- Which keys are found among those of the members that pass a test.
use mathlib.Core.Path.{◌≡◌, refl}
use mathlib.Core.Bool.{Bool, false, ◌&&◌}
use mathlib.Core.List.{List, [], ◌∷◌, map}
use native.Mathlib.Omega.{arith}
use ucf.Prelude.Tests.{Eq, ◌==◌}
use ucf.Prelude.Lists.{any, filter, All, contains}

module _ {ℓ} {A : Type ℓ} where
  pub any_cong : (p q : A → Bool) (xs : List A) → All (λ x. p x ≡ q x) xs → any p xs ≡ any q xs
  any_cong p q [] h = refl
  any_cong p q (x ∷ xs) h = ground (arith, h.0, any_cong p q xs h.1)

  pub any-false : (p : A → Bool) (xs : List A) → ((x : A) → p x ≡ false) → any p xs ≡ false
  any-false p [] h = refl
  any-false p (x ∷ xs) h = ground (arith, h x, any-false p xs h)

  pub any-filter : (p q : A → Bool) (xs : List A) → any p (filter q xs) ≡ any (λ x. q x && p x) xs
  any-filter p q [] = refl
  any-filter p q (x ∷ xs) = ground (arith, any-filter p q xs)

module _ {ℓ κ} {A : Type ℓ} {K : Type κ} ⦃e : Eq K⦄ (key : A → K) where
  pub contains-map : (xs : List A) (k : K) → contains (map key xs) k ≡ any (λ x. k == key x) xs
  contains-map [] k = refl
  contains-map (x ∷ xs) k = ground (arith, contains-map xs k)

  pub contains-selected :
      (p : A → Bool) (xs : List A) (k : K)
      → contains (map key (filter p xs)) k ≡ any (λ x. p x && k == key x) xs
  contains-selected p [] k = refl
  contains-selected p (x ∷ xs) k = ground (arith, contains-selected p xs k)

  -- A test of the key alone selects the keys that pass it.
  pub any-keyed :
      (t : K → Bool) (xs : List A) (k : K)
      → any (λ x. t (key x) && k == key x) xs ≡ (contains (map key xs) k && t k)
  any-keyed t [] k = refl
  any-keyed t (x ∷ xs) k = ground (arith, any-keyed t xs k, e.beq_iff k (key x))
