-- ===== src/Prelude/Dict.antt =====
-- Python's dict: an association list in insertion order, where a key that is written again keeps its
-- place and takes the new value.
use mathlib.Core.Path.{◌≡◌, refl, sym, ◌∙◌}
use mathlib.Core.Logic.{inl, inr}
use mathlib.Core.Bool.{Bool, true, false, ◌||◌}
use mathlib.Core.Option.{Option, none, some, some-injective}
use mathlib.Core.List.{List, [], ◌∷◌, ◌++◌, map, append-nil, append_assoc}
use native.Mathlib.Omega.{arith}
use ucf.Prelude.Tests.{if◌then◌else◌, Eq, ◌==◌, ==_refl, Bool-cases}
use ucf.Prelude.Lists.{contains, IsUnique, All}

module _ {ℓ κ} {K : Type ℓ} {V : Type κ} ⦃e : Eq K⦄ where
  -- d[k] = v
  abbrev pub put : K → V → List (K × V) → List (K × V)
  put k v [] = (k, v) ∷ []
  put k v ((j, w) ∷ d) = let rest = put k v d in if j == k then (j, v) ∷ d else (j, w) ∷ rest

  -- d.get(k)
  abbrev pub get : List (K × V) → K → Option V
  get [] k = none
  get ((j, w) ∷ d) k = let rest = get d k in if j == k then some w else rest

  -- k in d
  abbrev pub has : List (K × V) → K → Bool
  has [] k = false
  has ((j, w) ∷ d) k = j == k || has d k

  -- d.pop(k, None)
  abbrev pub pop : K → List (K × V) → List (K × V)
  pop k [] = []
  pop k ((j, w) ∷ d) = let rest = pop k d in if j == k then rest else (j, w) ∷ rest

  pub get-put :
      (k j : K) (v : V) (d : List (K × V))
      → get (put k v d) j ≡ (if k == j then some v else get d j)
  get-put k j v [] = refl
  get-put k j v ((i, w) ∷ d) =
      ground (arith, e.beq_iff i k, e.beq_iff i j, e.beq_iff k j, get-put k j v d)

  pub put_fresh :
      (k : K) (v : V) (d : List (K × V)) → has d k ≡ false → put k v d ≡ d ++ ((k, v) ∷ [])
  put_fresh k v [] h = refl
  put_fresh k v ((j, w) ∷ d) h = ground (arith, put_fresh k v d)

  pub has-get : (d : List (K × V)) (k : K) → get d k ≡ none → has d k ≡ false
  has-get [] k h = refl
  has-get ((j, w) ∷ d) k h = ground (arith, has-get d k)

  pub has-get-some : (d : List (K × V)) (k : K) (v : V) → get d k ≡ some v → has d k ≡ true
  has-get-some [] k v h = absurd (ground arith)
  has-get-some ((j, w) ∷ d) k v h = ground (arith, has-get-some d k v)

  pub get-pop : (k j : K) (d : List (K × V)) → get (pop k d) j ≡ (if k == j then none else get d j)
  get-pop k j [] = ground arith
  get-pop k j ((i, w) ∷ d) =
      ground (arith, get-pop k j d, e.beq_iff i k, e.beq_iff i j, e.beq_iff k j)

  pub has-append : (d d' : List (K × V)) (k : K) → has (d ++ d') k ≡ (has d k || has d' k)
  has-append [] d' k = refl
  has-append ((j, w) ∷ d) d' k = ground (arith, has-append d d' k)

module _ {ℓ κ μ} {A : Type ℓ} {K : Type κ} {V : Type μ} ⦃e : Eq K⦄ (key : A → K)
    (value : A → V) where
  abbrev item : A → K × V
  item x = (key x, value x)

  abbrev pub dict_from : List (K × V) → List A → List (K × V)
  dict_from d [] = d
  dict_from d (x ∷ xs) = dict_from (put (key x) (value x) d) xs

  -- {key(x): value(x) for x in xs}
  abbrev pub dict_of : List A → List (K × V)
  dict_of xs = dict_from [] xs

  pub has-map : (xs : List A) (k : K) → has (map item xs) k ≡ contains (map key xs) k
  has-map [] k = refl
  has-map (x ∷ xs) k = ground (arith, has-map xs k, e.beq_iff k (key x), e.beq_iff (key x) k)

  pub dict_from_unique :
      (d : List (K × V)) (xs : List A)
      → IsUnique (map key xs)
      → ((x : K) → contains (map key xs) x ≡ true → has d x ≡ false)
      → dict_from d xs ≡ d ++ map item xs
  dict_from_unique d [] u fresh = sym (append-nil d)
  dict_from_unique d (x ∷ xs) u fresh =
      rw (put_fresh (key x) (value x) d (fresh (key x) (rw (==_refl (key x))))) (
        dict_from_unique (d ++ (item x ∷ [])) xs u.1 fresh_rest
        ∙ append_assoc d (item x ∷ []) (map item xs))
    where
      fresh_rest : (k : K) → contains (map key xs) k ≡ true → has (d ++ (item x ∷ [])) k ≡ false
      fresh_rest k m = ground (
        arith,
        has-append d (item x ∷ []) k,
        fresh k,
        e.beq_iff (key x) k,
        e.beq_iff k (key x),
        u.0,
      )

  -- With one entry for each key, the dict lists the entries as they come.
  pub dict_of_unique : (xs : List A) → IsUnique (map key xs) → dict_of xs ≡ map item xs
  dict_of_unique xs u = dict_from_unique [] xs u (λ x m. refl)

module _ {ℓ κ μ ν} {A : Type ℓ} {K : Type κ} {V : Type μ} ⦃e : Eq K⦄ (key : A → K) (value : A → V)
    (P : A → Type ν) where
  -- What `get` finds among entries made from a list: a member of that list.
  pub get-map :
      (xs : List A) (k : K)
      → All P xs
      → contains (map key xs) k ≡ true
      → (x : A) × (get (map (λ x. (key x, value x)) xs) k ≡ some (value x)) × (key x ≡ k) × P x
  get-map [] k h m = absurd (ground arith)
  get-map (x ∷ xs) k h m = elim (Bool-cases (key x == k)) [
    | inl same ↦ (x, rw same refl, (e.beq_iff (key x) k).0 same, h.0)
    | inr other ↦
        let (y, found, named, p) =
          get-map xs k h.1 (ground (arith, e.beq_iff (key x) k, e.beq_iff k (key x))) in
        (y, rw other found, named, p)
  ]

module _ {ℓ κ μ} {A : Type ℓ} {K : Type κ} {V : Type μ} ⦃e : Eq K⦄ (key : A → K)
    (value : A → V) where
  pub get-map_absent :
      (xs : List A) (k : K)
      → contains (map key xs) k ≡ false
      → get (map (λ x. (key x, value x)) xs) k ≡ none
  get-map_absent [] k m = refl
  get-map_absent (x ∷ xs) k m =
      ground (arith, get-map_absent xs k, e.beq_iff (key x) k, e.beq_iff k (key x))

pub get-graph {ℓ κ} :
    {K : Type ℓ} {V : Type κ} ⦃e : Eq K⦄ (f : K → V) (ks : List K) (k : K)
    → contains ks k ≡ true
    → get (map (λ i. (i, f i)) ks) k ≡ some (f k)
get-graph f [] k m = absurd (ground arith)
get-graph ⦃e⦄ f (i ∷ ks) k m = ground (arith, get-graph f ks k, e.beq_iff i k, e.beq_iff k i)

pub get-map-contains {ℓ κ μ} :
    {A : Type ℓ} {K : Type κ} {V : Type μ} ⦃e : Eq K⦄ (key : A → K) (value : A → V) (xs : List A)
    (k : K) (v : V)
    → get (map (λ x. (key x, value x)) xs) k ≡ some v
    → contains (map key xs) k ≡ true
get-map-contains key value [] k v h = absurd (ground arith)
get-map-contains ⦃e⦄ key value (x ∷ xs) k v h =
    ground (arith, get-map-contains key value xs k v, e.beq_iff (key x) k, e.beq_iff k (key x))

-- A value that is found stands in the dict.
pub get-contains {ℓ κ μ} :
    {K : Type ℓ} {V : Type κ} {B : Type μ} ⦃e : Eq K⦄ ⦃b : Eq B⦄ (f : V → B) (d : List (K × V))
    (k : K) (v : V)
    → get d k ≡ some v
    → contains (map (λ (x : K × V). f x.1) d) (f v) ≡ true
get-contains f [] k v h = absurd (ground arith)
get-contains ⦃e⦄ ⦃b⦄ f ((j, w) ∷ d) k v h = elim (Bool-cases (j == k)) [
  | inl same ↦
      let it : w ≡ v = some-injective w v (ground arith) in rw it (ground (arith, ==_refl (f v)))
  | inr other ↦ ground (arith, get-contains f d k v)
]
