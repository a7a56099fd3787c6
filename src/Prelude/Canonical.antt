-- ===== src/Prelude/Canonical.antt =====
-- Canonical lists: without repetitions and sorted, which is to be strictly increasing.
use mathlib.Core.Path.{◌≡◌, refl, ap, ap₂, sym, subst, ◌∙◌}
use mathlib.Core.Logic.{◌↔◌, inl, inr}
use mathlib.Core.Bool.{Bool, true, false, ◌&&◌, ◌||◌}
use mathlib.Core.Option.{Option, none, some}
use mathlib.Core.List.{List, [], ◌∷◌, ◌++◌, map}
use native.Mathlib.Omega.{arith}
use ucf.Prelude.Tests.{Eq, ◌==◌, ==_refl, Bool-cases}
use ucf.Prelude.Lists.{
  contains, contains-append, IsUnique, All, All-imp, filter, All-filter, All-map_iff, All-contains,
  contains-All,
}
use ucf.Prelude.Order.{TotalOrder}
use ucf.Prelude.Sorting.{
  insert_by, sorted_by, IsSorted, IsIncreasing, lt_asymm, le_le_trans, IsIncreasing-IsSorted,
  All-insert_by, sorted_by-eq_self_of_keys,
}

-- Equality of tuples.
module _ {ℓ} {A : Type ℓ} ⦃e : Eq A⦄ where
  abbrev pub list_beq : List A → List A → Bool
  list_beq [] [] = true
  list_beq (x ∷ xs) (y ∷ ys) = x == y && list_beq xs ys
  list_beq _ _ = false

  pub list_beq_iff : (xs ys : List A) → (list_beq xs ys ≡ true) ↔ (xs ≡ ys)
  list_beq_iff [] [] = (λ _. refl, λ _. refl)
  list_beq_iff [] (y ∷ ys) = (λ h. absurd (ground arith), λ h. absurd (ground arith))
  list_beq_iff (x ∷ xs) [] = (λ h. absurd (ground arith), λ h. absurd (ground arith))
  list_beq_iff (x ∷ xs) (y ∷ ys) = (
    λ h. ap₂ ◌∷◌ ((e.beq_iff x y).0 (ground arith)) ((list_beq_iff xs ys).0 (ground arith)),
    λ h. ground (arith, e.beq_iff x y, list_beq_iff xs ys),
  )

  instance abbrev pub list_eq : Eq (List A)
  list_eq = record { beq = list_beq; beq_iff = list_beq_iff }

-- Equality of optional values.
module _ {ℓ} {A : Type ℓ} ⦃e : Eq A⦄ where
  abbrev pub option_beq : Option A → Option A → Bool
  option_beq none none = true
  option_beq (some x) (some y) = x == y
  option_beq _ _ = false

  pub option_beq_iff : (x y : Option A) → (option_beq x y ≡ true) ↔ (x ≡ y)
  option_beq_iff none none = (λ _. refl, λ _. refl)
  option_beq_iff none (some y) = (λ h. absurd (ground arith), λ h. absurd (ground arith))
  option_beq_iff (some x) none = (λ h. absurd (ground arith), λ h. absurd (ground arith))
  option_beq_iff (some x) (some y) =
      (λ h. ap some ((e.beq_iff x y).0 h), λ h. ground (arith, e.beq_iff x y))

  instance abbrev pub option_eq : Eq (Option A)
  option_eq = record { beq = option_beq; beq_iff = option_beq_iff }

module _ {κ} {K : Type κ} ⦃o : TotalOrder K⦄ where
  insert_by-IsSorted : (x : K) (xs : List K) → IsSorted xs → IsSorted (insert_by (λ k. k) x xs)
  insert_by-IsSorted x [] h = (tt, tt)
  insert_by-IsSorted x (y ∷ ys) h = elim (Bool-cases (o.lt y x)) [
    | inl e ↦ rw e (
      All-insert_by (λ k. k) (λ z. o.lt z y ≡ false) x ys (lt_asymm y x e) h.0,
      insert_by-IsSorted x ys h.1,
    )
    | inr e ↦ rw e (
      (
        e,
        All-imp (λ z. o.lt z y ≡ false) (λ z. o.lt z x ≡ false) ys (λ z g. le_le_trans x y z e g)
            h.0,
      ),
      h,
    )
  ]

  pub sorted_by-IsSorted : (xs : List K) → IsSorted (sorted_by (λ k. k) xs)
  sorted_by-IsSorted [] = tt
  sorted_by-IsSorted (x ∷ xs) = insert_by-IsSorted x (sorted_by (λ k. k) xs) (sorted_by-IsSorted xs)

module _ {κ} {K : Type κ} ⦃e : Eq K⦄ ⦃o : TotalOrder K⦄ where
  contains-insert_by :
      (x : K) (xs : List K) (a : K)
      → contains (insert_by (λ k. k) x xs) a ≡ (a == x || contains xs a)
  contains-insert_by x [] a = refl
  contains-insert_by x (y ∷ ys) a = ground (arith, contains-insert_by x ys a)

  pub contains-sorted_by :
      (xs : List K) (a : K) → contains (sorted_by (λ k. k) xs) a ≡ contains xs a
  contains-sorted_by [] a = refl
  contains-sorted_by (x ∷ xs) a =
      contains-insert_by x (sorted_by (λ k. k) xs) a
      ∙ ap (λ b. a == x || b) (contains-sorted_by xs a)

  insert_by-IsUnique :
      (x : K) (xs : List K)
      → contains xs x ≡ false
      → IsUnique xs
      → IsUnique (insert_by (λ k. k) x xs)
  insert_by-IsUnique x [] h u = (refl, tt)
  insert_by-IsUnique x (y ∷ ys) h u = elim (Bool-cases (o.lt y x)) [
    | inl l ↦ rw l (
      ground (arith, contains-insert_by x ys y, e.beq_iff x y, e.beq_iff y x),
      insert_by-IsUnique x ys (ground arith) u.1,
    )
    | inr l ↦ rw l (h, u)
  ]

  pub sorted_by-IsUnique : (xs : List K) → IsUnique xs → IsUnique (sorted_by (λ k. k) xs)
  sorted_by-IsUnique [] u = tt
  sorted_by-IsUnique (x ∷ xs) u =
      insert_by-IsUnique x (sorted_by (λ k. k) xs) (contains-sorted_by xs x ∙ u.0)
        (sorted_by-IsUnique xs u.1)

  above :
      (x y : K) (ys : List K)
      → contains ys x ≡ false
      → o.lt y x ≡ false
      → contains ys y ≡ true
      → o.lt x y ≡ true
  above x y ys u l m = elim (Bool-cases (o.lt x y)) [
    | inl h ↦ h
    | inr h ↦ absurd (ground (arith, o.total x y))
  ]

  IsIncreasing-intro : (xs : List K) → IsUnique xs → IsSorted xs → IsIncreasing xs
  IsIncreasing-intro [] u s = tt
  IsIncreasing-intro (x ∷ xs) u s = (
    contains-All (λ y. o.lt x y ≡ true) xs
        (λ y m. above x y xs u.0 (All-contains (λ z. o.lt z x ≡ false) xs y s.0 m) m),
    IsIncreasing-intro xs u.1 s.1,
  )

  absent : (x : K) (xs : List K) → All (λ y. o.lt x y ≡ true) xs → contains xs x ≡ false
  absent x [] h = refl
  absent x (y ∷ ys) h = ground (arith, absent x ys, o.irrefl x, e.beq_iff x y)

  pub IsIncreasing-IsUnique : (xs : List K) → IsIncreasing xs → IsUnique xs
  IsIncreasing-IsUnique [] h = tt
  IsIncreasing-IsUnique (x ∷ xs) h = (absent x xs h.0, IsIncreasing-IsUnique xs h.1)

  pub sorted_by-IsIncreasing : (xs : List K) → IsUnique xs → IsIncreasing (sorted_by (λ k. k) xs)
  sorted_by-IsIncreasing xs u =
      IsIncreasing-intro (sorted_by (λ k. k) xs) (sorted_by-IsUnique xs u) (sorted_by-IsSorted xs)

  -- What the two tests of the program accept.
  pub IsIncreasing-iff :
      (xs : List K) → (IsUnique xs × (xs ≡ sorted_by (λ k. k) xs)) ↔ IsIncreasing xs
  IsIncreasing-iff xs = (
    λ h. IsIncreasing-intro xs h.0 (rw (h.1) (sorted_by-IsSorted xs)),
    λ h. (
      IsIncreasing-IsUnique xs h,
      sym (sorted_by-eq_self_of_keys xs (IsIncreasing-IsSorted xs h)),
    ),
  )

  heads_equal :
      (x y : K) (xs ys : List K)
      → All (λ z. o.lt x z ≡ true) xs
      → All (λ z. o.lt y z ≡ true) ys
      → contains (y ∷ ys) x ≡ true
      → contains (x ∷ xs) y ≡ true
      → x ≡ y
  heads_equal x y xs ys h k m n = ground (
    arith,
    e.beq_iff x y,
    e.beq_iff y x,
    All-contains (λ z. o.lt y z ≡ true) ys x k,
    All-contains (λ z. o.lt x z ≡ true) xs y h,
    o.trans x y x,
    o.irrefl x,
  )

  tails_same :
      (x : K) (xs ys : List K) (a : K)
      → contains xs x ≡ false
      → contains ys x ≡ false
      → contains (x ∷ xs) a ≡ contains (x ∷ ys) a
      → contains xs a ≡ contains ys a
  tails_same x xs ys a u v same = ground (arith, e.beq_iff a x)

  -- A canonical list is determined by its members.
  pub IsIncreasing-ext :
      (xs ys : List K)
      → IsIncreasing xs
      → IsIncreasing ys
      → ((a : K) → contains xs a ≡ contains ys a)
      → xs ≡ ys
  IsIncreasing-ext [] [] h k same = refl
  IsIncreasing-ext [] (y ∷ ys) h k same = absurd (ground (arith, same y, ==_refl y))
  IsIncreasing-ext (x ∷ xs) [] h k same = absurd (ground (arith, same x, ==_refl x))
  IsIncreasing-ext (x ∷ xs) (y ∷ ys) h k same = ap₂ ◌∷◌ equal (IsIncreasing-ext xs ys h.1 k.1 tails)
    where
      equal : x ≡ y
      equal =
          heads_equal x y xs ys h.0 k.0 (ground (arith, same x, ==_refl x))
            (ground (arith, same y, ==_refl y))

      tails : (a : K) → contains xs a ≡ contains ys a
      tails a =
          tails_same x xs ys a (absent x xs h.0)
            (subst (λ z. contains ys z ≡ false) (sym equal) (absent y ys k.0))
            (ground (arith, same a, equal))

module _ {ℓ} {A : Type ℓ} ⦃e : Eq A⦄ where
  pub contains-filter :
      (p : A → Bool) (xs : List A) (a : A) → contains (filter p xs) a ≡ (contains xs a && p a)
  contains-filter p [] a = refl
  contains-filter p (x ∷ xs) a = elim (Bool-cases (a == x)) [
    | inl same ↦ rw ((e.beq_iff a x).0 same) (ground (arith, contains-filter p xs x, ==_refl x))
    | inr other ↦ ground (arith, contains-filter p xs a)
  ]

  pub IsUnique-filter : (p : A → Bool) (xs : List A) → IsUnique xs → IsUnique (filter p xs)
  IsUnique-filter p [] u = tt
  IsUnique-filter p (x ∷ xs) u = elim (Bool-cases (p x)) [
    | inl kept ↦ rw kept (ground (arith, contains-filter p xs x, u.0), IsUnique-filter p xs u.1)
    | inr dropped ↦ rw dropped (IsUnique-filter p xs u.1)
  ]

  pub IsUnique-append :
      (xs ys : List A)
      → IsUnique xs
      → IsUnique ys
      → All (λ x. contains ys x ≡ false) xs
      → IsUnique (xs ++ ys)
  IsUnique-append [] ys u v d = v
  IsUnique-append (x ∷ xs) ys u v d =
      (ground (arith, contains-append xs ys x, u.0, d.0), IsUnique-append xs ys u.1 v d.1)

module _ {ℓ κ} {A : Type ℓ} {K : Type κ} ⦃o : TotalOrder K⦄ (key : A → K) (p : A → Bool) where
  -- Members that are left out leave the rest in order.
  pub IsIncreasing-filter :
      (xs : List A) → IsIncreasing (map key xs) → IsIncreasing (map key (filter p xs))
  IsIncreasing-filter [] i = tt
  IsIncreasing-filter (x ∷ xs) i = elim (Bool-cases (p x)) [
    | inl kept ↦ rw kept (
      (All-map_iff (λ k. o.lt (key x) k ≡ true) key (filter p xs)).1 (
          All-filter (λ y. o.lt (key x) (key y) ≡ true) p xs
            ((All-map_iff (λ k. o.lt (key x) k ≡ true) key xs).0 i.0)),
      IsIncreasing-filter xs i.1,
    )
    | inr dropped ↦ rw dropped (IsIncreasing-filter xs i.1)
  ]
