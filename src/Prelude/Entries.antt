-- ===== src/Prelude/Entries.antt =====
-- What writing and removing an entry of a dict does to all entries.
use Prim.Native.Nat.{suc}
use mathlib.Core.Path.{◌≡◌, refl, ap, subst}
use mathlib.Core.Logic.{inl, inr}
use mathlib.Core.Bool.{true, false}
use mathlib.Core.Option.{some, some-injective}
use mathlib.Core.List.{List, [], ◌∷◌, map}
use native.Mathlib.Omega.{arith}
use ucf.Prelude.Tests.{Eq, ◌==◌, Bool-cases}
use ucf.Prelude.Lists.{contains, IsUnique, All, length}
use ucf.Prelude.Dict.{put, get, has, pop}

module _ {ℓ κ μ} {K : Type ℓ} {V : Type κ} {B : Type μ} ⦃e : Eq K⦄ ⦃b : Eq B⦄ (f : K × V → B) where
  pub contains-pop :
      (k : K) (d : List (K × V)) (x : B)
      → contains (map f d) x ≡ false
      → contains (map f (pop k d)) x ≡ false
  contains-pop k [] x h = refl
  contains-pop k ((j, w) ∷ d) x h = ground (arith, contains-pop k d x)

  pub IsUnique-pop : (k : K) (d : List (K × V)) → IsUnique (map f d) → IsUnique (map f (pop k d))
  IsUnique-pop k [] u = tt
  IsUnique-pop k ((j, w) ∷ d) u = elim (Bool-cases (j == k)) [
    | inl same ↦ rw same (IsUnique-pop k d u.1)
    | inr other ↦ rw other (contains-pop k d (f (j, w)) u.0, IsUnique-pop k d u.1)
  ]

module _ {ℓ κ μ} {K : Type ℓ} {V : Type κ} {B : Type μ} ⦃e : Eq K⦄ (f : K × V → B) where
  -- An entry written over another with the same image.
  pub map-put_over :
      (k : K) (v w : V) (d : List (K × V))
      → get d k ≡ some w
      → ((j : K) → f (j, v) ≡ f (j, w))
      → map f (put k v d) ≡ map f d
  map-put_over k v w [] h same = absurd (ground arith)
  map-put_over k v w ((j, x) ∷ d) h same = elim (Bool-cases (j == k)) [
    | inl hit ↦
        let it : x ≡ w = some-injective x w (ground arith) in
        rw (hit, it) (ap (λ y. y ∷ map f d) (same j))
    | inr miss ↦ rw miss (ap (λ ys. f (j, x) ∷ ys) (map-put_over k v w d (ground arith) same))
  ]

module _ {ℓ κ μ} {K : Type ℓ} {V : Type κ} ⦃e : Eq K⦄ (P : K × V → Type μ) where
  pub All-pop : (k : K) (d : List (K × V)) → All P d → All P (pop k d)
  All-pop k [] h = tt
  All-pop k ((j, w) ∷ d) h = elim (Bool-cases (j == k)) [
    | inl same ↦ rw same (All-pop k d h.1)
    | inr other ↦ rw other (h.0, All-pop k d h.1)
  ]

  pub All-put_over :
      (k : K) (v w : V) (d : List (K × V))
      → get d k ≡ some w
      → ((j : K) → P (j, w) → P (j, v))
      → All P d
      → All P (put k v d)
  All-put_over k v w [] h step all = absurd (ground arith)
  All-put_over k v w ((j, x) ∷ d) h step all = elim (Bool-cases (j == k)) [
    | inl hit ↦
        let it : x ≡ w = some-injective x w (ground arith) in
        rw hit (step j (subst (λ y. P (j, y)) it all.0), all.1)
    | inr miss ↦ rw miss (all.0, All-put_over k v w d (ground arith) step all.1)
  ]

module _ {ℓ κ} {K : Type ℓ} {V : Type κ} ⦃e : Eq K⦄ where
  pub has-contains : (d : List (K × V)) (k : K) → has d k ≡ contains (map (λ (x : K × V). x.0) d) k
  has-contains [] k = refl
  has-contains ((j, w) ∷ d) k = ground (arith, has-contains d k, e.beq_iff j k, e.beq_iff k j)

  pop_absent : (k : K) (d : List (K × V)) → has d k ≡ false → pop k d ≡ d
  pop_absent k [] h = refl
  pop_absent k ((j, w) ∷ d) h = ground (arith, pop_absent k d)

  -- One entry goes where keys are unique.
  pub length-pop :
      (k : K) (d : List (K × V))
      → IsUnique (map (λ (x : K × V). x.0) d)
      → has d k ≡ true
      → suc (length (pop k d)) ≡ length d
  length-pop k [] u h = absurd (ground arith)
  length-pop k ((j, w) ∷ d) u h = elim (Bool-cases (j == k)) [
    | inl same ↦
        let it : j ≡ k = (e.beq_iff j k).0 same in
        let rest = pop_absent k d (ground (arith, has-contains d k, it, u.0)) in
        rw same (ap (λ l. suc (length l)) rest)
    | inr other ↦ rw other (ap suc (length-pop k d u.1 (ground arith)))
  ]
