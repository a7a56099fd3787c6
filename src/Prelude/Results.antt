-- ===== src/Prelude/Results.antt =====
-- Raising code: a value or an exception.
use Prim.Native.Nat.{ℕ, suc}
use mathlib.Core.Path.{◌≡◌, refl, ap, subst}
use mathlib.Core.Logic.{◌↔◌}
use mathlib.Core.Bool.{Bool, true, false}
use mathlib.Core.List.{List, [], ◌∷◌, map}
use native.Mathlib.Omega.{arith}
use ucf.Prelude.Lists.{All}

pub data Result {ℓ} (E : Type 0) (A : Type ℓ) : Type ℓ where
  ok : A → Result E A
  err : E → Result E A

infixl 5 ◌>>=◌ ◌>>◌
abbrev pub ◌>>=◌ {ℓ κ} :
    {E : Type 0} {A : Type ℓ} {B : Type κ} → Result E A → (A → Result E B) → Result E B
ok a >>= f = f a
err e >>= f = err e

abbrev pub ◌>>◌ {κ} : {E : Type 0} {B : Type κ} → Result E (Unit {0}) → Result E B → Result E B
m >> k = m >>= λ _. k

-- if test: raise e
abbrev pub raise_if : {E : Type 0} → Bool → E → Result E (Unit {0})
raise_if true e = err e
raise_if false e = ok tt

-- for index, x in enumerate(xs): body(index, x), from a first index
abbrev pub for_each {ℓ} :
    {E : Type 0} {A : Type ℓ} → (ℕ → A → Result E (Unit {0})) → ℕ → List A → Result E (Unit {0})
for_each body index [] = ok tt
for_each body index (x ∷ xs) = let rest = for_each body (suc index) xs in body index x >> rest

-- [body(x) for x in xs], where the body may raise
abbrev pub traverse {ℓ κ} :
    {E : Type 0} {A : Type ℓ} {B : Type κ} → (A → Result E B) → List A → Result E (List B)
traverse body [] = ok []
traverse body (x ∷ xs) = let rest = traverse body xs in body x >>= λ y. rest >>= λ ys. ok (y ∷ ys)

module _ {E : Type 0} where
  pub ok_injective {ℓ} : {A : Type ℓ} {a b : A} → ◌≡◌ {A = Result E A} (ok a) (ok b) → a ≡ b
  ok_injective e = cc

  -- A body that raises for no member.
  pub traverse-total {ℓ κ} :
      {A : Type ℓ} {B : Type κ} (body : A → Result E B) (total : A → B) (xs : List A)
      → All (λ x. body x ≡ ok (total x)) xs
      → traverse body xs ≡ ok (map total xs)
  traverse-total body total [] h = refl
  traverse-total body total (x ∷ xs) h = rw (h.0) (rw (traverse-total body total xs h.1) refl)

  pub raise_if-ok : (b : Bool) (e : E) → (raise_if b e ≡ ok tt) ↔ (b ≡ false)
  raise_if-ok true e = (λ h. absurd (ground arith), λ h. absurd (ground arith))
  raise_if-ok false e = (λ _. refl, λ _. refl)

  pub >>-ok : (m k : Result E (Unit {0})) → ((m >> k) ≡ ok tt) ↔ ((m ≡ ok tt) × (k ≡ ok tt))
  >>-ok (ok tt) k = (λ h. (refl, h), λ h. h.1)
  >>-ok (err e) k = (λ h. absurd (ground arith), λ h. absurd (ground arith))

  -- Where a chain returns, its first part has returned.
  pub >>=-eq-ok {ℓ κ} :
      {X : Type ℓ} {Y : Type κ} (first : Result E X) (then : X → Result E Y) {result : Y}
      → (first >>= then) ≡ ok result
      → (x : X) × (first ≡ ok x) × (then x ≡ ok result)
  >>=-eq-ok (err failure) then raised = absurd (ground arith)
  >>=-eq-ok (ok x) then returned = (x, refl, returned)

  pub >>=-ok {ℓ κ} :
      {X : Type ℓ} {Y : Type κ} (first : Result E X) (then : X → Result E Y) (y : Y)
      → ((first >>= then) ≡ ok y) ↔ ((x : X) × (first ≡ ok x) × (then x ≡ ok y))
  >>=-ok (err failure) then y = (λ h. absurd (ground arith), λ h. absurd (ground (arith, h.1)))
  >>=-ok (ok x) then y = (λ h. (x, refl, h), λ h. ground (arith, h.1, h.2))

  -- Two checks in turn, by what each accepts.
  pub >>-iff {ℓ κ} :
      {P : Type ℓ} {Q : Type κ} {m k : Result E (Unit {0})}
      → (m ≡ ok tt) ↔ P
      → (k ≡ ok tt) ↔ Q
      → ((m >> k) ≡ ok tt) ↔ (P × Q)
  >>-iff {m = m} {k = k} p q =
      let both = >>-ok m k in
      (λ h. (p.0 (both.0 h).0, q.0 (both.0 h).1), λ h. both.1 (p.1 h.0, q.1 h.1))

  -- A value that is looked up, by what it may be, and what the rest asks of it.
  pub >>=-iff {ℓ κ μ ν} :
      {X : Type ℓ} {Y : Type κ} {P : X → Type μ} {Q : X → Type ν} {m : Result E X}
      {f : X → Result E Y} {y : Y}
      → ((x : X) → (m ≡ ok x) ↔ P x)
      → ((x : X) → P x → (f x ≡ ok y) ↔ Q x)
      → ((m >>= f) ≡ ok y) ↔ ((x : X) × (P x × Q x))
  >>=-iff {m = m} {f = f} {y = y} p q =
      let law = >>=-ok m f y in
      (
        λ h. let (x, found, then) = law.0 h in (x, ((p x).0 found, (q x ((p x).0 found)).0 then)),
        λ (x, (a, b)). law.1 (x, (p x).1 a, (q x a).1 b),
      )

  -- The same, where what the second accepts supposes the first.
  pub >>-given_iff {ℓ κ} :
      {P : Type ℓ} {Q : Type κ} {m k : Result E (Unit {0})}
      → (m ≡ ok tt) ↔ P
      → (P → (k ≡ ok tt) ↔ Q)
      → ((m >> k) ≡ ok tt) ↔ (P × Q)
  >>-given_iff {m = m} {k = k} p q =
      let both = >>-ok m k in
      (
        λ h. let here = p.0 (both.0 h).0 in (here, (q here).0 (both.0 h).1),
        λ h. both.1 (p.1 h.0, (q h.0).1 h.1),
      )

  -- A lookup whose value is not used.
  pub dropped-ok {ℓ κ} :
      {X : Type ℓ} {P : X → Type κ} {m : Result E X}
      → ((x : X) → (m ≡ ok x) ↔ P x)
      → ((m >>= λ _. ok tt) ≡ ok (tt {0})) ↔ ((x : X) × P x)
  dropped-ok {m = ok x} law = (λ h. (x, (law x).0 refl), λ h. refl)
  dropped-ok {m = err e} law =
      (λ h. absurd (ground arith), λ (x, p). absurd (ground (arith, (law x).1 p)))

  -- A check, and what comes after it.
  pub >>-then_iff {ℓ κ μ} :
      {Y : Type ℓ} {P : Type κ} {Q : Type μ} {m : Result E (Unit {0})} {k : Result E Y} {y : Y}
      → (m ≡ ok tt) ↔ P
      → (k ≡ ok y) ↔ Q
      → ((m >> k) ≡ ok y) ↔ (P × Q)
  >>-then_iff {m = ok tt} p q = (λ h. (p.0 refl, q.0 h), λ h. q.1 h.1)
  >>-then_iff {m = err e} p q = (λ h. absurd (ground arith), λ h. absurd (ground (arith, p.1 h.0)))

  pub returns-ok {ℓ} : {A : Type ℓ} (a b : A) → (◌≡◌ {A = Result E A} (ok a) (ok b)) ↔ (a ≡ b)
  returns-ok a b = (ok_injective, λ h. ap ok h)

  pub raises-ok {ℓ} : {A : Type ℓ} (e : E) (a : A) → (err e ≡ ok a) ↔ ⊥
  raises-ok e a = (λ h. absurd (ground arith), λ h. absurd h)

  -- A loop of checks passes exactly when each of its rounds does.
  pub for_each-ok {ℓ κ} :
      {A : Type ℓ} (P : A → Type κ) (body : ℕ → A → Result E (Unit {0}))
      → ((i : ℕ) (x : A) → (body i x ≡ ok tt) ↔ P x)
      → (i : ℕ) (xs : List A) → (for_each body i xs ≡ ok tt) ↔ All P xs
  for_each-ok P body law i [] = (λ _. tt, λ _. refl)
  for_each-ok P body law i (x ∷ xs) =
      let both = >>-ok (body i x) (for_each body (suc i) xs) in
      let rest = for_each-ok P body law (suc i) xs in
      (
        λ h. ((law i x).0 (both.0 h).0, rest.0 (both.0 h).1),
        λ h. both.1 ((law i x).1 h.0, rest.1 h.1),
      )

-- A value that an equation gives.
pub that-one_iff {ℓ κ} : {A : Type ℓ} (P : A → Type κ) (a : A) → ((x : A) × (P x × (x ≡ a))) ↔ P a
that-one_iff P a = (λ (x, (p, e)). subst P e p, λ p. (a, (p, refl)))

pub ↔_trans {ℓ κ μ} : {A : Type ℓ} {B : Type κ} {C : Type μ} → A ↔ B → B ↔ C → A ↔ C
↔_trans f g = (λ a. g.0 (f.0 a), λ c. f.1 (g.1 c))
