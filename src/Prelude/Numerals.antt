-- ===== src/Prelude/Numerals.antt =====
-- Decimal numerals: of two without leading zeros the longer one is greater, and of two equally long ones
-- the one that is greater as a text.
use Prim.Native.Nat.{ℕ, zero, suc, ◌+◌, ◌-◌, ◌*◌, ◌≤◌, ◌<◌}
use Prim.Native.Char.{Char, code}
use Prim.Native.String.count
use Prim.Native.String.{String, [] as no_text, ◌∷◌ as text_cons, count}
use mathlib.Core.Path.{◌≡◌, refl, sym, ap, subst, ◌∙◌}
use mathlib.Core.Logic.{inl, inr}
use mathlib.Core.Bool.{Bool, true, false, not, ◌&&◌, ◌||◌}
use native.Mathlib.Omega.{arith}
use native.Mathlib.Nat.{mul-le-mul_right, mul_assoc, add-mul}
use ucf.Prelude.Tests.{◌==◌, nat_eq, leb, ltb, Bool-cases}
use ucf.Prelude.Order.{text_lt, text_lt-cons}
use ucf.Prelude.Texts.{digit, all_digits, int_from}

-- 10 ** n
abbrev power : ℕ → ℕ
power zero = 1
power (suc n) = 10 * power n

abbrev scale : String → ℕ
scale no_text = 1
scale (text_cons c s) = 10 * scale s

abbrev value : String → ℕ
value no_text = 0
value (text_cons c s) = digit c * scale s + value s

-- 0|[1-9][0-9]*
abbrev pub is_numeral : String → Bool
is_numeral no_text = false
is_numeral (text_cons c s) =
    (code c == 48 && count s == 0) || (leb 49 (code c) && leb (code c) 57 && all_digits s)

count-cons : (c : Char) (s : String) → count (text_cons c s) ≡ suc (count s)
count-cons c s i = count.cons c s i

scale-power : (s : String) → scale s ≡ power (count s)
scale-power no_text = refl
scale-power (text_cons c s) = ground (arith, count-cons c s, scale-power s)

int_from-value : (n : ℕ) (s : String) → int_from n s ≡ n * scale s + value s
int_from-value n no_text = omega arith
int_from-value n (text_cons c s) = omega (
  arith,
  int_from-value (n * 10 + digit c) s,
  add-mul (n * 10) (digit c) (scale s),
  mul_assoc n 10 (scale s),
)

value-lt : (s : String) → all_digits s ≡ true → value s < scale s
value-lt no_text h = omega arith
value-lt (text_cons c s) h =
    let small : digit c ≤ 9 = ground arith in
    let rest = value-lt s (ground arith) in omega (arith, mul-le-mul_right (scale s) small)

power-le : (n m : ℕ) → n ≤ m → power n ≤ power m
power-le zero zero h = omega arith
power-le zero (suc m) h = omega (arith, power-le zero m (omega arith))
power-le (suc n) zero h = absurd (omega arith)
power-le (suc n) (suc m) h = omega (arith, power-le n m (omega arith))

-- `<` of two numbers with a leading digit each.
value_cons_lem :
    (k c d v w : ℕ)
    → 48 ≤ c
    → 48 ≤ d
    → v < k
    → w < k
    → (ltb c d || (not (ltb d c) && ltb v w)) ≡ ltb ((c - 48) * k + v) ((d - 48) * k + w)
value_cons_lem k c d v w lc ld lv lw = elim (Bool-cases (ltb c d)) [
  | inl less ↦
      let step = mul-le-mul_right {m = suc (c - 48)} {n = d - 48} k (ground arith) in
      ground (arith, step, add-mul 1 (c - 48) k)
  | inr from ↦ elim (Bool-cases (ltb d c)) [
    | inl more ↦
        let step = mul-le-mul_right {m = suc (d - 48)} {n = c - 48} k (ground arith) in
        ground (arith, step, add-mul 1 (d - 48) k)
    | inr to ↦ let same : c ≡ d = ground arith in rw same (ground arith)
  ]
]

value_same_count :
    (s t : String)
    → count s ≡ count t
    → all_digits s ≡ true
    → all_digits t ≡ true
    → text_lt s t ≡ ltb (value s) (value t)
value_same_count no_text no_text e h k = refl
value_same_count no_text (text_cons d t) e h k = absurd (ground (arith, count-cons d t))
value_same_count (text_cons c s) no_text e h k = absurd (ground (arith, count-cons c s))
value_same_count (text_cons c s) (text_cons d t) e h k =
    let same : count s ≡ count t = ground (arith, count-cons c s, count-cons d t) in
    let rest = value_same_count s t same (ground arith) (ground arith) in
    let scales : scale s ≡ scale t = scale-power s ∙ ap power same ∙ sym (scale-power t) in
    let low = value-lt s (ground arith) in
    let high = value-lt t (ground arith) in
    rw (scales, text_lt-cons c d s t, rest)
      (value_cons_lem (scale t) (code c) (code d) (value s) (value t) (ground arith) (ground arith)
        (subst (λ k. value s < k) scales low) high)

-- A numeral of more than one digit does not start with 0.
value-le : (c : Char) (s : String) → 49 ≤ code c → scale s ≤ value (text_cons c s)
value-le c s h = omega (arith, mul-le-mul_right {m = 1} {n = digit c} (scale s) (omega arith))

is_numeral-digits : (s : String) → is_numeral s ≡ true → all_digits s ≡ true
is_numeral-digits no_text h = refl
is_numeral-digits (text_cons c no_text) h = ground arith
is_numeral-digits (text_cons c (text_cons d s)) h = ground (arith, count-cons d s)

-- A shorter numeral is less.
value_shorter_lem :
    (s t : String)
    → is_numeral s ≡ true
    → is_numeral t ≡ true
    → count s < count t
    → value s < value t
value_shorter_lem no_text t h k l = absurd (ground arith)
value_shorter_lem (text_cons c s) no_text h k l = absurd (ground arith)
value_shorter_lem (text_cons c s) (text_cons d t) h k l =
    let small : value (text_cons c s) < scale (text_cons c s) =
      value-lt (text_cons c s) (is_numeral-digits (text_cons c s) h) in
    let shorter : suc (count s) ≤ count t = ground (arith, count-cons c s, count-cons d t) in
    let big = value-le d t (ground arith) in
    let grows = power-le (suc (count s)) (count t) shorter in
    omega (arith, scale-power s, scale-power t)

pub numeral_order_lem :
    (s t : String)
    → is_numeral s ≡ true
    → is_numeral t ≡ true
    → (ltb (count s) (count t) || (not (ltb (count t) (count s)) && text_lt s t))
      ≡ ltb (int_from 0 s) (int_from 0 t)
numeral_order_lem s t h k = elim (Bool-cases (ltb (count s) (count t))) [
  | inl less ↦
      let values = value_shorter_lem s t h k (ground arith) in
      ground (arith, int_from-value 0 s, int_from-value 0 t)
  | inr from ↦ elim (Bool-cases (ltb (count t) (count s))) [
    | inl more ↦
        let values = value_shorter_lem t s k h (ground arith) in
        ground (arith, int_from-value 0 s, int_from-value 0 t)
    | inr to ↦
        let same =
          value_same_count s t (ground arith) (is_numeral-digits s h) (is_numeral-digits t k) in
        ground (arith, int_from-value 0 s, int_from-value 0 t)
  ]
]
