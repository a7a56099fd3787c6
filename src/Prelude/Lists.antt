-- ===== src/Prelude/Lists.antt =====
-- Lists measured by native numbers, Boolean searches, and predicates on all members.
use Prim.Native.Nat.{ℕ, suc, ◌+◌, ◌≤◌}
use mathlib.Core.Path.{◌≡◌, refl, ap, ap₂}
use mathlib.Core.Logic.{◌↔◌, inl, inr}
use mathlib.Core.Bool.{Bool, true, false, not, ◌||◌}
use mathlib.Core.List.{List, [], ◌∷◌, ◌++◌, map}
use native.Mathlib.Omega.{arith}
use ucf.Prelude.Tests.{if◌then◌else◌, Eq, ◌==◌, ==_refl, Bool-cases}

module _ {ℓ} {A : Type ℓ} where
  abbrev pub length : List A → ℕ
  length [] = 0
  length (x ∷ xs) = suc (length xs)

  -- any(p(x) for x in xs)
  abbrev pub any : (A → Bool) → List A → Bool
  any p [] = false
  any p (x ∷ xs) = p x || any p xs

  -- tuple(x for x in xs if p(x))
  abbrev pub filter : (A → Bool) → List A → List A
  filter p [] = []
  filter p (x ∷ xs) = let rest = filter p xs in if p x then x ∷ rest else rest

  abbrev pub All {κ} : (A → Type κ) → List A → Type κ
  All P [] = Unit
  All P (x ∷ xs) = P x × All P xs

module _ {ℓ κ} {A : Type ℓ} (P Q : A → Type κ) where
  pub All-imp : (xs : List A) → ((x : A) → P x → Q x) → All P xs → All Q xs
  All-imp [] f h = tt
  All-imp (x ∷ xs) f h = (f x h.0, All-imp xs f h.1)

module _ {ℓ κ} {A : Type ℓ} (P Q R : A → Type κ) where
  pub All-imp_two : (xs : List A) → ((x : A) → P x → Q x → R x) → All P xs → All Q xs → All R xs
  All-imp_two [] f h k = tt
  All-imp_two (x ∷ xs) f h k = (f x h.0 k.0, All-imp_two xs f h.1 k.1)

module _ {ℓ κ} {A : Type ℓ} (P : A → Type κ) where
  pub All-intro : (xs : List A) → ((x : A) → P x) → All P xs
  All-intro [] f = tt
  All-intro (x ∷ xs) f = (f x, All-intro xs f)

  pub All-append : (xs ys : List A) → All P xs → All P ys → All P (xs ++ ys)
  All-append [] ys h k = k
  All-append (x ∷ xs) ys h k = (h.0, All-append xs ys h.1 k)

  pub All-filter : (p : A → Bool) (xs : List A) → All P xs → All P (filter p xs)
  All-filter p [] h = tt
  All-filter p (x ∷ xs) h = elim (Bool-cases (p x)) [
    | inl e ↦ rw e (h.0, All-filter p xs h.1)
    | inr e ↦ rw e (All-filter p xs h.1)
  ]

pub All-filter_pass {ℓ} :
    {A : Type ℓ} (p : A → Bool) (xs : List A) → All (λ x. p x ≡ true) (filter p xs)
All-filter_pass p [] = tt
All-filter_pass p (x ∷ xs) = elim (Bool-cases (p x)) [
  | inl e ↦ rw e (e, All-filter_pass p xs)
  | inr e ↦ rw e (All-filter_pass p xs)
]

pub map_cong {ℓ κ} :
    {A : Type ℓ} {B : Type κ} (f g : A → B) (xs : List A)
    → All (λ x. f x ≡ g x) xs
    → map f xs ≡ map g xs
map_cong f g [] h = refl
map_cong f g (x ∷ xs) h = ap₂ ◌∷◌ h.0 (map_cong f g xs h.1)

pub map-map {ℓ κ μ} :
    {A : Type ℓ} {B : Type κ} {C : Type μ} (g : B → C) (f : A → B) (xs : List A)
    → map g (map f xs) ≡ map (λ x. g (f x)) xs
map-map g f [] = refl
map-map g f (x ∷ xs) = ap (λ ys. g (f x) ∷ ys) (map-map g f xs)

pub filter-map {ℓ κ} :
    {A : Type ℓ} {B : Type κ} (p : B → Bool) (f : A → B) (xs : List A)
    → filter p (map f xs) ≡ map f (filter (λ x. p (f x)) xs)
filter-map p f [] = refl
filter-map p f (x ∷ xs) = ground (arith, filter-map p f xs)

pub filter_cong {ℓ} :
    {A : Type ℓ} (p q : A → Bool) (xs : List A) → ((x : A) → p x ≡ q x) → filter p xs ≡ filter q xs
filter_cong p q [] h = refl
filter_cong p q (x ∷ xs) h = ground (arith, h x, filter_cong p q xs h)

pub map_id {ℓ} : {A : Type ℓ} (xs : List A) → map (λ x. x) xs ≡ xs
map_id [] = refl
map_id (x ∷ xs) = ap (λ ys. x ∷ ys) (map_id xs)

pub All-map_iff {ℓ κ μ} :
    {A : Type ℓ} {B : Type κ} (P : B → Type μ) (f : A → B) (xs : List A)
    → All P (map f xs) ↔ All (λ x. P (f x)) xs
All-map_iff P f [] = (λ _. tt, λ _. tt)
All-map_iff P f (x ∷ xs) =
    (λ h. (h.0, (All-map_iff P f xs).0 h.1), λ h. (h.0, (All-map_iff P f xs).1 h.1))

pub any-map {ℓ κ} :
    {A : Type ℓ} {B : Type κ} (p : B → Bool) (f : A → B) (xs : List A)
    → any p (map f xs) ≡ any (λ x. p (f x)) xs
any-map p f [] = refl
any-map p f (x ∷ xs) = ground (arith, any-map p f xs)

module _ {ℓ} {A : Type ℓ} where
  pub any-append : (p : A → Bool) (xs ys : List A) → any p (xs ++ ys) ≡ (any p xs || any p ys)
  any-append p [] ys = refl
  any-append p (x ∷ xs) ys = ground (arith, any-append p xs ys)

module _ {ℓ} {A : Type ℓ} where
  pub any-false_iff : (p : A → Bool) (xs : List A) → (any p xs ≡ false) ↔ All (λ x. p x ≡ false) xs
  any-false_iff p [] = (λ _. tt, λ _. refl)
  any-false_iff p (x ∷ xs) = (
    λ h. (ground arith, (any-false_iff p xs).0 (ground arith)),
    λ h. ground (arith, (any-false_iff p xs).1 h.1),
  )

  -- `any(not p(x) for x in xs)` is false where all pass.
  pub any-not-false_iff :
      (p : A → Bool) (xs : List A) → (any (λ x. not (p x)) xs ≡ false) ↔ All (λ x. p x ≡ true) xs
  any-not-false_iff p [] = (λ _. tt, λ _. refl)
  any-not-false_iff p (x ∷ xs) = (
    λ h. (ground arith, (any-not-false_iff p xs).0 (ground arith)),
    λ h. ground (arith, (any-not-false_iff p xs).1 h.1),
  )

  pub length-append : (xs ys : List A) → length (xs ++ ys) ≡ length xs + length ys
  length-append [] ys = omega arith
  length-append (x ∷ xs) ys = omega (arith, length-append xs ys)

  pub length-map {κ} : {B : Type κ} (xs : List A) (f : A → B) → length (map f xs) ≡ length xs
  length-map [] f = refl
  length-map (x ∷ xs) f = ap suc (length-map xs f)

  pub length-filter-le : (p : A → Bool) (xs : List A) → length (filter p xs) ≤ length xs
  length-filter-le p [] = omega arith
  length-filter-le p (x ∷ xs) = ground (arith, length-filter-le p xs)

module _ {ℓ} {A : Type ℓ} ⦃e : Eq A⦄ where
  -- a in xs
  abbrev pub contains : List A → A → Bool
  contains [] a = false
  contains (x ∷ xs) a = a == x || contains xs a

  -- set(xs), as a list
  abbrev pub to_set : List A → List A
  to_set [] = []
  to_set (x ∷ xs) = let rest = to_set xs in if contains rest x then rest else x ∷ rest

  abbrev pub IsUnique : List A → Type 0
  IsUnique [] = Unit
  IsUnique (x ∷ xs) = (contains xs x ≡ false) × IsUnique xs

  pub contains-to_set : (xs : List A) (a : A) → contains (to_set xs) a ≡ contains xs a
  contains-to_set [] a = refl
  contains-to_set (x ∷ xs) a =
      ground (arith, contains-to_set xs a, contains-to_set xs x, e.beq_iff a x)

  pub length-to_set-le : (xs : List A) → length (to_set xs) ≤ length xs
  length-to_set-le [] = omega arith
  length-to_set-le (x ∷ xs) = ground (arith, length-to_set-le xs)

  -- len(xs) == len(set(xs)) tells a list without repetitions.
  pub length-to_set_iff : (xs : List A) → (length xs ≡ length (to_set xs)) ↔ IsUnique xs
  length-to_set_iff [] = (λ _. tt, λ _. refl)
  length-to_set_iff (x ∷ xs) = elim (Bool-cases (contains xs x)) [
    | inl old ↦
        rw (contains-to_set xs x, old)
          (λ h. absurd (omega (arith, length-to_set-le xs)), λ h. absurd (ground arith))
    | inr new ↦
        rw (contains-to_set xs x, new)
          (
            λ h. (refl, (length-to_set_iff xs).0 (omega arith)),
            λ h. ap suc ((length-to_set_iff xs).1 h.1),
          )
  ]

  pub to_set-IsUnique : (xs : List A) → IsUnique (to_set xs)
  to_set-IsUnique [] = tt
  to_set-IsUnique (x ∷ xs) = elim (Bool-cases (contains (to_set xs) x)) [
    | inl old ↦ rw old (to_set-IsUnique xs)
    | inr new ↦ rw new (new, to_set-IsUnique xs)
  ]

  pub contains-append :
      (xs ys : List A) (a : A) → contains (xs ++ ys) a ≡ (contains xs a || contains ys a)
  contains-append [] ys a = refl
  contains-append (x ∷ xs) ys a = ground (arith, contains-append xs ys a)

  pub All-contains {κ} :
      (P : A → Type κ) (xs : List A) (a : A) → All P xs → contains xs a ≡ true → P a
  All-contains P [] a h m = absurd (ground arith)
  All-contains P (x ∷ xs) a h m = elim (Bool-cases (a == x)) [
    | inl same ↦ rw ((e.beq_iff a x).0 same) (h.0)
    | inr other ↦ All-contains P xs a h.1 (ground arith)
  ]

  pub contains-All {κ} :
      (P : A → Type κ) (xs : List A) → ((a : A) → contains xs a ≡ true → P a) → All P xs
  contains-All P [] f = tt
  contains-All P (x ∷ xs) f = (f x (rw (==_refl x)), contains-All P xs (λ a m. f a (ground arith)))
