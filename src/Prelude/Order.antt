-- ===== src/Prelude/Order.antt =====
-- Python's `<` on texts and on tuples of texts: a strict total order.
use Prim.Native.Nat.{Ordering, compare as compare_ℕ}
use Prim.Native.Char.{Char, code}
use Prim.Native.String.compare
use Prim.Native.String.{String, [], ◌∷◌, compare, then}
use mathlib.Core.Path.{◌≡◌, refl}
use mathlib.Core.Logic.{◌↔◌}
use mathlib.Core.Bool.{Bool, true, false, not, ◌&&◌, ◌||◌}
use native.Mathlib.Omega.{arith}
use text.Mathlib.Text.{is_lt}
use text.Mathlib.TextEquality.{Char-path}
use text.Mathlib.TextPositions.{compare_refl}
use ucf.Prelude.Tests.{Eq, ltb}

pub record TotalOrder {ℓ} (A : Type ℓ) : Type ℓ where
  pub lt : A → A → Bool
  pub irrefl : (a : A) → lt a a ≡ false
  pub trans : (a b c : A) → lt a b ≡ true → lt b c ≡ true → lt a c ≡ true
  pub total : (a b : A) → lt a b ≡ false → lt b a ≡ false → a ≡ b

abbrev pub text_lt : String → String → Bool
text_lt s t = is_lt (compare s t)

-- The clauses of the native comparison, as equations.
nil-cons : (d : Char) (t : String) → compare [] (d ∷ t) ≡ Ordering.lt
nil-cons d t i = compare.nil-cons d t i

cons-nil : (c : Char) (s : String) → compare (c ∷ s) [] ≡ Ordering.gt
cons-nil c s i = compare.cons-nil c s i

cons-cons :
    (c d : Char) (s t : String)
    → compare (c ∷ s) (d ∷ t) ≡ then (compare_ℕ (code c) (code d)) (compare s t)
cons-cons c d s t i = compare.cons-cons c d s t i

-- At the first characters, and then at the rest.
pub text_lt-cons :
    (c d : Char) (s t : String)
    → text_lt (c ∷ s) (d ∷ t)
      ≡ (ltb (code c) (code d) || (not (ltb (code d) (code c)) && text_lt s t))
text_lt-cons c d s t = ground (arith, cons-cons c d s t)

pub text_lt_trans : (r s t : String) → text_lt r s ≡ true → text_lt s t ≡ true → text_lt r t ≡ true
text_lt_trans [] [] t h k = absurd (ground arith)
text_lt_trans [] (d ∷ s) [] h k = ground (arith, cons-nil d s)
text_lt_trans [] (d ∷ s) (e ∷ t) h k = ground (arith, nil-cons e t)
text_lt_trans (c ∷ r) [] t h k = ground (arith, cons-nil c r)
text_lt_trans (c ∷ r) (d ∷ s) [] h k = ground (arith, cons-nil d s)
text_lt_trans (c ∷ r) (d ∷ s) (e ∷ t) h k =
    ground (arith, cons-cons c d r s, cons-cons d e s t, cons-cons c e r t, text_lt_trans r s t)

pub text_lt_total : (s t : String) → text_lt s t ≡ false → text_lt t s ≡ false → s ≡ t
text_lt_total [] [] h k = refl
text_lt_total [] (d ∷ t) h k = ground (arith, nil-cons d t)
text_lt_total (c ∷ s) [] h k = ground (arith, nil-cons c s)
text_lt_total (c ∷ s) (d ∷ t) h k =
    ground (arith, cons-cons c d s t, cons-cons d c t s, text_lt_total s t, Char-path c d)

pub text_lt_irrefl : (s : String) → text_lt s s ≡ false
text_lt_irrefl s = rw compare_refl

instance abbrev pub text_order : TotalOrder String
text_order = record {
  lt = text_lt;
  irrefl = text_lt_irrefl;
  trans = text_lt_trans;
  total = text_lt_total;
}

-- Tuples are compared at the first place where they differ.
module _ {ℓ κ} {A : Type ℓ} {B : Type κ} ⦃a : TotalOrder A⦄ ⦃b : TotalOrder B⦄ where
  abbrev pub pair_lt : A × B → A × B → Bool
  pair_lt (x, y) (x', y') = a.lt x x' || (not (a.lt x' x) && b.lt y y')

  pub pair_lt_irrefl : (p : A × B) → pair_lt p p ≡ false
  pair_lt_irrefl (x, y) = ground (arith, a.irrefl x, b.irrefl y)

  pub pair_lt_trans : (p q r : A × B) → pair_lt p q ≡ true → pair_lt q r ≡ true → pair_lt p r ≡ true
  pair_lt_trans (x, y) (x', y') (x'', y'') h k = ground (
    arith,
    a.trans x x' x'',
    a.trans x'' x x',
    a.trans x' x'' x,
    a.total x x',
    a.total x' x'',
    b.trans y y' y'',
  )

  pub pair_lt_total : (p q : A × B) → pair_lt p q ≡ false → pair_lt q p ≡ false → p ≡ q
  pair_lt_total (x, y) (x', y') h k =
      ground (arith, a.total x x', a.trans x x' x, a.irrefl x, b.total y y')

  instance abbrev pub pair_order : TotalOrder (A × B)
  pair_order = record {
    lt = pair_lt;
    irrefl = pair_lt_irrefl;
    trans = pair_lt_trans;
    total = pair_lt_total;
  }

module _ {ℓ κ} {A : Type ℓ} {B : Type κ} ⦃a : Eq A⦄ ⦃b : Eq B⦄ where
  abbrev pub pair_beq : A × B → A × B → Bool
  pair_beq (x, y) (x', y') = a.beq x x' && b.beq y y'

  pub pair_beq_iff : (p q : A × B) → (pair_beq p q ≡ true) ↔ (p ≡ q)
  pair_beq_iff (x, y) (x', y') = (
    λ h. ground (arith, a.beq_iff x x', b.beq_iff y y'),
    λ h. ground (arith, a.beq_iff x x', b.beq_iff y y'),
  )

  instance abbrev pub pair_eq : Eq (A × B)
  pair_eq = record { beq = pair_beq; beq_iff = pair_beq_iff }
