-- ===== src/Shortener/Batch.antt =====
-- `delete_batch` of src/ucf/shortener/url_service.py.
use ucf.Prelude.Dict.{has, pop}
use ucf.Prelude.{
  ℕ, suc, ◌+◌, String, ◌≡◌, refl, sym, subst, ap, ◌∙◌, Bool, true, false, not, ◌&&◌, ◌==◌, List, [],
  ◌∷◌, ◌++◌, append_assoc, append-nil, string_eq, contains, length, Bool-cases, inl, inr,
  if◌then◌else◌, arith,
}
use ucf.Shortener.{UrlShortener, new_shortener, delete_each, delete_batch, Call, apply_calls}
use ucf.Shortener.Bounds.{
  delete_one-hit, delete_one-miss, delete_each-IsCounted, apply_calls-IsWell,
}

-- The slugs of a batch that cannot be deleted: those that are not stored, and those that the batch has
-- deleted before.
abbrev pub failing : (String → Bool) → List String → List String
failing stored [] = []
failing stored (slug ∷ slugs) =
    let rest = failing (λ k. not (slug == k) && stored k) slugs in
    if stored slug then rest else slug ∷ rest

failing_same :
    (f g : String → Bool) (slugs : List String)
    → ((k : String) → f k ≡ g k)
    → failing f slugs ≡ failing g slugs
failing_same f g [] same = refl
failing_same f g (slug ∷ slugs) same = ground (
  arith,
  same slug,
  failing_same (λ k. not (slug == k) && f k) (λ k. not (slug == k) && g k) slugs
      (λ k. ground (arith, same k)),
)

module _ {ℓ} {V : Type ℓ} where
  has-pop : (k j : String) (d : List (String × V)) → has (pop k d) j ≡ (not (k == j) && has d j)
  has-pop k j [] = ground arith
  has-pop k j ((i, w) ∷ d) =
      ground
        (arith, has-pop k j d, string_eq.beq_iff i k, string_eq.beq_iff i j, string_eq.beq_iff k j)

module _ {T : Type 0} where
  -- What remains, and the slugs that are reported.
  abbrev Deletes :
      UrlShortener T → List String → List String → UrlShortener T × (ℕ × List String) → Type 0
  Deletes s failed slugs r =
      ((k : String) → has r.0.urls k ≡ (has s.urls k && not (contains slugs k)))
      × (r.1.1 ≡ failed ++ failing (has s.urls) slugs)

  missing_key :
      (s : UrlShortener T) (slug k : String)
      → has s.urls slug ≡ false
      → has s.urls k ≡ (not (slug == k) && has s.urls k)
  missing_key s slug k missing = elim (Bool-cases (slug == k)) [
    | inl same ↦
        let here = ap (has s.urls) ((string_eq.beq_iff slug k).0 same) in
        ground (arith, here, missing, same)
    | inr other ↦ ground (arith, other)
  ]

  failing-there :
      (s : UrlShortener T) (slug : String) (slugs : List String)
      → has s.urls slug ≡ true
      → failing (has (pop slug s.urls)) slugs ≡ failing (has s.urls) (slug ∷ slugs)
  failing-there s slug slugs there =
      failing_same (has (pop slug s.urls)) (λ k. not (slug == k) && has s.urls k) slugs
        (λ k. has-pop slug k s.urls)
      ∙ ground (arith, there)

  failing-missing :
      (s : UrlShortener T) (slug : String) (slugs : List String)
      → has s.urls slug ≡ false
      → slug ∷ failing (has s.urls) slugs ≡ failing (has s.urls) (slug ∷ slugs)
  failing-missing s slug slugs missing =
      ap (λ xs. slug ∷ xs)
        (failing_same (has s.urls) (λ k. not (slug == k) && has s.urls k) slugs
          (λ k. missing_key s slug k missing))
      ∙ ground (arith, missing)

  delete_each-Deletes :
      (s : UrlShortener T) (n : ℕ) (failed slugs : List String)
      → Deletes s failed slugs (delete_each s n failed slugs)
  unfolding delete_each
  delete_each-Deletes s n failed [] = (λ k. ground arith, sym (append-nil failed))
  delete_each-Deletes s n failed (slug ∷ slugs) =
      let after : UrlShortener T × (ℕ × List String) → Type 0 =
        λ m. Deletes s failed (slug ∷ slugs) (delete_each m.0 m.1.0 m.1.1 slugs) in
      elim (Bool-cases (has s.urls slug)) [
        | inl there ↦
            let rest =
              delete_each-Deletes (record s { urls = pop slug s.urls }) (suc n) failed slugs in
            subst after (sym (delete_one-hit s n failed slug there)) (
              λ k. ground (
                arith,
                rest.0 k,
                has-pop slug k s.urls,
                string_eq.beq_iff slug k,
                string_eq.beq_iff k slug,
              ),
              rest.1 ∙ ap (λ xs. failed ++ xs) (failing-there s slug slugs there),
            )
        | inr missing ↦
            let rest = delete_each-Deletes s n (failed ++ (slug ∷ [])) slugs in
            subst after (sym (delete_one-miss s n failed slug missing)) (
              λ k. ground (
                arith,
                rest.0 k,
                missing_key s slug k missing,
                string_eq.beq_iff slug k,
                string_eq.beq_iff k slug,
              ),
              rest.1
                  ∙ append_assoc failed (slug ∷ []) (failing (has s.urls) slugs)
                  ∙ ap (λ xs. failed ++ xs) (failing-missing s slug slugs missing),
            )
      ]

  -- The slugs that fail are reported in order, every other one is counted as deleted, as many records are
  -- gone, and what remains stored is what was stored and is not in the batch.
  pub record Accounts (s : UrlShortener T) (slugs : List String)
      (r : UrlShortener T × (ℕ × List String)) : Type 0 where
    pub failures : r.1.1 ≡ failing (has s.urls) slugs
    pub answered : r.1.0 + length (failing (has s.urls) slugs) ≡ length slugs
    pub removed : length r.0.urls + r.1.0 ≡ length s.urls
    pub kept : (k : String) → has r.0.urls k ≡ (has s.urls k && not (contains slugs k))

  pub delete_batch-Accounts :
      (base_url : String) (calls : List (Call T)) (slugs : List String)
      → Accounts
          (apply_calls (new_shortener base_url) calls)
          slugs
          (delete_batch (apply_calls (new_shortener base_url) calls) slugs)
  unfolding delete_batch
  delete_batch-Accounts base_url calls slugs =
      let s = apply_calls (new_shortener base_url) calls in
      let c = delete_each-IsCounted s 0 [] slugs (apply_calls-IsWell base_url calls) in
      let d = delete_each-Deletes s 0 [] slugs in
      record {
        failures = d.1;
        answered =
            ap (λ (xs : List String). (delete_each s 0 [] slugs).1.0 + length xs) (sym d.1)
            ∙ omega (arith, c.answered);
        removed = omega (arith, c.removed);
        kept = d.0;
      }
