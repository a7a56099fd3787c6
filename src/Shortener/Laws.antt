-- ===== src/Shortener/Laws.antt =====
-- The service of src/ucf/shortener/url_service.py as a map from slugs to a URL and its clicks.
use ucf.Prelude.Dict.{get, get-put, get-pop, has-get, has-get-some}
use ucf.Prelude.{
  ℕ, suc, String, ◌≡◌, refl, ap, ◌∙◌, true, Option, none, some, List, [], ◌∷◌, ◌==◌, string_eq,
  contains, Option-cases, if◌then◌else◌, inl, inr, arith,
}
use ucf.Shortener.{
  ShortUrl, UrlShortener, new_url, store_url, increment_clicks, delete_url, delete_one, after_or,
  delete_each, Call, store, click, delete, delete_all, apply_call, apply_calls,
}

-- A slug's URL and clicks.
abbrev pub Visits : Type 0
Visits = String → Option (String × ℕ)

abbrev pub seen_url : {T : Type 0} → Option (ShortUrl T) → Option (String × ℕ)
seen_url none = none
seen_url (some u) = some (u.original_url, u.click_count)

abbrev pub view : {T : Type 0} → UrlShortener T → Visits
view s slug = seen_url (get s.urls slug)

abbrev clicked : Option (String × ℕ) → Option (String × ℕ)
clicked none = none
clicked (some (url, n)) = some (url, suc n)

-- What a call does to the map: a slug that is taken keeps its URL.
abbrev pub spec : {T : Type 0} → Visits → Call T → Visits
spec m (store slug url by now) k =
    if slug == k then elim (m slug) [ none ↦ some (url, 0) | some old ↦ some old ] else m k
spec m (click slug) k = if slug == k then clicked (m slug) else m k
spec m (delete slug) k = if slug == k then none else m k
spec m (delete_all slugs) k = if contains slugs k then none else m k

abbrev pub spec_all : {T : Type 0} → Visits → List (Call T) → Visits
spec_all m [] = m
spec_all m (call ∷ calls) = spec_all (spec m call) calls

module _ {T : Type 0} where
  same_slug :
      (s : UrlShortener T) (slug k : String) → (slug == k) ≡ true → get s.urls slug ≡ get s.urls k
  same_slug s slug k e = ap (get s.urls) ((string_eq.beq_iff slug k).0 e)

  delete-view :
      (s : UrlShortener T) (slug k : String)
      → view (after_or s (λ (r : UrlShortener T). r) (delete_url s slug)) k
        ≡ (if slug == k then none else view s k)
  unfolding delete_url
  delete-view s slug k = elim (Option-cases (get s.urls slug)) [
    | inl missing ↦ ground (arith, has-get s.urls slug missing, same_slug s slug k, missing)
    | inr (u, found) ↦ ground (arith, has-get-some s.urls slug u found, get-pop slug k s.urls)
  ]

  delete_one-view :
      (s : UrlShortener T) (n : ℕ) (failed : List String) (slug k : String)
      → view (delete_one s n failed slug).0 k ≡ (if slug == k then none else view s k)
  unfolding delete_one
  delete_one-view s n failed slug k = ground (arith, delete-view s slug k)

  delete_each-view :
      (s : UrlShortener T) (n : ℕ) (failed slugs : List String) (k : String)
      → view (delete_each s n failed slugs).0 k ≡ (if contains slugs k then none else view s k)
  unfolding delete_each
  delete_each-view s n failed [] k = refl
  delete_each-view s n failed (slug ∷ slugs) k =
      let next = delete_one s n failed slug in
      ground (
        arith,
        delete_each-view next.0 next.1.0 next.1.1 slugs k,
        delete_one-view s n failed slug k,
        string_eq.beq_iff slug k,
        string_eq.beq_iff k slug,
      )

  store-view :
      (s : UrlShortener T) (slug url : String) (by : Option String) (now : T) (k : String)
      → view (apply_call s (store slug url by now)) k
        ≡ spec {T = T} (view s) (store slug url by now) k
  unfolding apply_call store_url
  store-view s slug url by now k = elim (Option-cases (get s.urls slug)) [
    | inl missing ↦ ground (
      arith,
      has-get s.urls slug missing,
      get-put slug k (new_url s slug url by now) s.urls,
      missing,
    )
    | inr (u, found) ↦ ground (arith, has-get-some s.urls slug u found, same_slug s slug k, found)
  ]

  click-view :
      (s : UrlShortener T) (slug k : String)
      → view (apply_call s (click slug)) k ≡ spec {T = T} (view s) (click slug) k
  unfolding apply_call increment_clicks
  click-view s slug k = elim (Option-cases (get s.urls slug)) [
    | inl missing ↦ ground (arith, same_slug s slug k, missing)
    | inr (u, found) ↦
        ground (arith, get-put slug k (record u { click_count = suc u.click_count }) s.urls, found)
  ]

  -- Each call does to the map what its specification says, whether it returns or raises.
  apply_call-view :
      (s : UrlShortener T) (call : Call T) (k : String)
      → view (apply_call s call) k ≡ spec {T = T} (view s) call k
  unfolding apply_call
  apply_call-view s (store slug url by now) k = store-view s slug url by now k
  apply_call-view s (click slug) k = click-view s slug k
  apply_call-view s (delete slug) k = delete-view s slug k
  apply_call-view s (delete_all slugs) k = delete_each-view s 0 [] slugs k

  spec_cong :
      (m n : Visits) (call : Call T)
      → ((k : String) → m k ≡ n k)
      → (k : String) → spec m call k ≡ spec n call k
  spec_cong m n (store slug url by now) h k = ground (arith, h k, h slug)
  spec_cong m n (click slug) h k = ground (arith, h k, h slug)
  spec_cong m n (delete slug) h k = ground (arith, h k)
  spec_cong m n (delete_all slugs) h k = ground (arith, h k)

  spec_all_cong :
      (m n : Visits) (calls : List (Call T))
      → ((k : String) → m k ≡ n k)
      → (k : String) → spec_all m calls k ≡ spec_all n calls k
  spec_all_cong m n [] h k = h k
  spec_all_cong m n (call ∷ calls) h k =
      spec_all_cong (spec m call) (spec n call) calls (spec_cong m n call h) k

  -- Any sequence of calls, of which some may raise, leaves the service with the URL and the clicks of each
  -- slug that the same calls make on a map: a new slug starts without clicks, a taken one keeps its URL,
  -- a click counts where there is a URL, and a deleted slug is free again.
  pub apply_calls-refines :
      (s : UrlShortener T) (calls : List (Call T)) (k : String)
      → view (apply_calls s calls) k ≡ spec_all (view s) calls k
  unfolding apply_calls
  apply_calls-refines s [] k = refl
  apply_calls-refines s (call ∷ calls) k =
      apply_calls-refines (apply_call s call) calls k
      ∙ spec_all_cong (view (apply_call s call)) (spec (view s) call) calls (apply_call-view s call)
          k
