-- ===== src/Ir/Capabilities/Limits.antt =====
-- The digits that `_version_tuple` of src/ucf/ir/validation.py reads.
use Prim.Native.String.{count}
use ucf.Prelude.{
  ℕ, ◌≤◌, String, ◌≡◌, refl, ◌↔◌, inl, inr, true, ◌&&◌, List, [], ◌∷◌, string_eq, Result, ok, err,
  Bool, ltb, ◌||◌, >>=-eq-ok, ◌>>=◌, is_numeral, int_from, split_dots, Bool-cases, arith,
}
use ucf.Ir.Errors.{IrLocation, IrFailure, value_error}
use ucf.Ir.Capabilities.{max_str_digits, int_of, version_numbers, version_tuple}

int_of-ok :
    (s : String) (n : ℕ) → (int_of s ≡ ok n) → (n ≡ int_from 0 s) × (count s ≤ max_str_digits)
unfolding int_of
int_of-ok s n h = ground arith

-- What int makes of three numerals.
abbrev three_numbers : String → String → String → Result IrFailure (ℕ × (ℕ × ℕ))
three_numbers a b c = int_of a >>= λ n. int_of b >>= λ m. int_of c >>= λ k. ok (n, (m, k))

pub three_numbers-ok :
    (a b c : String) (v : ℕ × (ℕ × ℕ))
    → three_numbers a b c ≡ ok v
    → v ≡ (int_from 0 a, (int_from 0 b, int_from 0 c))
three_numbers-ok a b c v h =
    let (n, at_a, more) =
      >>=-eq-ok (int_of a) (λ n. int_of b >>= λ m. int_of c >>= λ k. ok (n, (m, k))) h in
    let (m, at_b, last) = >>=-eq-ok (int_of b) (λ m. int_of c >>= λ k. ok (n, (m, k))) more in
    let (k, at_c, done) = >>=-eq-ok (int_of c) (λ k. ok (n, (m, k))) last in
    let n_lem = int_of-ok a n at_a in
    let m_lem = int_of-ok b m at_b in
    let k_lem = int_of-ok c k at_c in ground (arith, n_lem, m_lem, k_lem, done)

-- A number of the three has more digits than int reads.
abbrev exceeds : String → String → String → Bool
exceeds a b c =
    ltb max_str_digits (count a) || (ltb max_str_digits (count b) || ltb max_str_digits (count c))

three_numbers-err :
    (a b c : String) → (three_numbers a b c ≡ err value_error) ↔ (exceeds a b c ≡ true)
unfolding int_of
three_numbers-err a b c = elim (Bool-cases (ltb max_str_digits (count a))) [
  | inl long ↦ rw long (λ _. refl, λ _. refl)
  | inr short ↦ elim (Bool-cases (ltb max_str_digits (count b))) [
    | inl long ↦ rw (short, long) (λ _. refl, λ _. refl)
    | inr low ↦ elim (Bool-cases (ltb max_str_digits (count c))) [
      | inl long ↦ rw (short, low, long) (λ _. refl, λ _. refl)
      | inr few ↦ rw (short, low, few) (λ h. absurd (ground arith), λ h. absurd (ground arith))
    ]
  ]
]

-- A normalized version with a number that has more than 4300 digits.
pub record IsTooLong (version : String) : Type 0 where
  pub major : String
  pub minor : String
  pub patch : String
  pub parts : split_dots version ≡ major ∷ minor ∷ patch ∷ []
  pub numerals : (is_numeral major && (is_numeral minor && is_numeral patch)) ≡ true
  pub is_long : exceeds major minor patch ≡ true

too_long :
    (version : String) (location : IrLocation) (xs : List String)
    → split_dots version ≡ xs
    → version_tuple version location ≡ err value_error
    → IsTooLong version
unfolding version_tuple version_numbers
too_long version location [] e h = absurd (ground arith)
too_long version location (a ∷ []) e h = absurd (ground arith)
too_long version location (a ∷ b ∷ []) e h = absurd (ground arith)
too_long version location (a ∷ b ∷ c ∷ []) e h =
    elim (Bool-cases (is_numeral a && (is_numeral b && is_numeral c))) [
      | inl numerals ↦ record {
        major = a;
        minor = b;
        patch = c;
        parts = e;
        numerals = numerals;
        is_long = (three_numbers-err a b c).0 (ground (arith, e, numerals));
      }
      | inr other ↦ absurd (ground arith)
    ]
too_long version location (a ∷ b ∷ c ∷ d ∷ xs) e h = absurd (ground arith)

pub version_tuple-exceeds :
    (version : String) (location : IrLocation)
    → (version_tuple version location ≡ err value_error) ↔ IsTooLong version
unfolding version_tuple version_numbers
version_tuple-exceeds version location = (
  too_long version location (split_dots version) refl,
  λ r.
      let long = (three_numbers-err r.major r.minor r.patch).1 r.is_long in
      ground (arith, r.parts, r.numerals, long),
)
