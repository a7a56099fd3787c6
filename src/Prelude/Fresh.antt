-- ===== src/Prelude/Fresh.antt =====
-- Loops that keep a set of what they have seen and raise at a repetition.
use mathlib.Core.Path.{◌≡◌, refl}
use mathlib.Core.Logic.{◌↔◌}
use mathlib.Core.Bool.{Bool, false, ◌||◌}
use mathlib.Core.List.{List, [], ◌∷◌, ◌++◌}
use native.Mathlib.Omega.{arith}
use ucf.Prelude.Tests.{Eq, ◌==◌}
use ucf.Prelude.Lists.{contains, contains-append, IsUnique, All, All-intro}
use ucf.Prelude.Dict.{put, has}

module _ {ℓ} {A : Type ℓ} ⦃e : Eq A⦄ where
  -- No member was seen, and none stands twice.
  abbrev pub AreFresh : (A → Bool) → List A → Type 0
  AreFresh seen xs = All (λ x. seen x ≡ false) xs × IsUnique xs

  -- A loop starts with nothing seen.
  pub AreFresh-start : (xs : List A) → IsUnique xs → AreFresh (λ _. false) xs
  AreFresh-start xs u = (All-intro (λ _. ◌≡◌ {A = Bool} false false) xs (λ _. refl), u)

  -- One more seen, at the members that are left.
  pub All-seen_iff :
      (seen after : A → Bool) (k : A)
      → ((x : A) → after x ≡ (k == x || seen x))
      → (xs : List A)
      → All (λ x. after x ≡ false) xs ↔ ((contains xs k ≡ false) × All (λ x. seen x ≡ false) xs)
  All-seen_iff seen after k law [] = (λ _. (refl, tt), λ _. tt)
  All-seen_iff seen after k law (x ∷ xs) =
      let rest = All-seen_iff seen after k law xs in
      (
        λ h. (
          ground (arith, law x, (rest.0 h.1).0, h.0, e.beq_iff k x),
          (ground (arith, law x, h.0), (rest.0 h.1).1),
        ),
        λ h. (ground (arith, law x, h.0, h.1.0), rest.1 (ground (arith, h.0), h.1.1)),
      )

  -- A round that sees one more member.
  pub AreFresh-cons :
      (seen after : A → Bool) (k : A)
      → ((x : A) → after x ≡ (k == x || seen x))
      → (xs : List A) → ((seen k ≡ false) × AreFresh after xs) ↔ AreFresh seen (k ∷ xs)
  AreFresh-cons seen after k law xs =
      let rest = All-seen_iff seen after k law xs in
      (
        λ h. ((h.0, (rest.0 h.1.0).1), ((rest.0 h.1.0).0, h.1.1)),
        λ h. (h.0.0, (rest.1 (h.1.0, h.0.1), h.1.1)),
      )

  pub contains-swap :
      (seen : List A) (k x : A) → contains (k ∷ seen) x ≡ (k == x || contains seen x)
  contains-swap seen k x = ground (arith, e.beq_iff k x, e.beq_iff x k)

  -- One more at the end.
  pub IsUnique-last :
      (xs : List A) (k : A) → IsUnique xs → contains xs k ≡ false → IsUnique (xs ++ (k ∷ []))
  IsUnique-last [] k u h = (refl, tt)
  IsUnique-last (x ∷ xs) k u h = (
    ground (arith, contains-append xs (k ∷ []) x, e.beq_iff x k, e.beq_iff k x, u.0),
    IsUnique-last xs k u.1 (ground arith),
  )

module _ {ℓ κ} {K : Type ℓ} {V : Type κ} ⦃e : Eq K⦄ where
  pub has-put : (k j : K) (v : V) (d : List (K × V)) → has (put k v d) j ≡ (k == j || has d j)
  has-put k j v [] = refl
  has-put k j v ((i, w) ∷ d) =
      ground (arith, has-put k j v d, e.beq_iff i k, e.beq_iff i j, e.beq_iff k j)
