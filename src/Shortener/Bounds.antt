-- ===== src/Shortener/Bounds.antt =====
-- The identifiers and counts of src/ucf/shortener/url_service.py.
use ucf.Prelude.Dict.{get, has, put, pop, put_fresh}
use ucf.Prelude.Entries.{
  IsUnique-pop, map-put_over, All-pop, All-put_over, has-contains, length-pop,
}
use ucf.Prelude.{
  ℕ, suc, ◌+◌, ◌<◌, ◌≤◌, String, ◌≡◌, refl, sym, ap, ◌∙◌, true, false, Option, none, some, List, [],
  ◌∷◌, ◌++◌, map, map-append, string_eq, nat_eq, contains, IsUnique, IsUnique-last, All, All-imp,
  All-append, length, length-append, length-map, Option-cases, Bool-cases, inl, inr, subst, arith,
}
use ucf.Shortener.{
  ShortUrl, UrlShortener, new_shortener, new_url, store_url, increment_clicks, delete_url,
  delete_one, delete_each, delete_batch, Call, store, click, delete, delete_all, apply_call,
  apply_calls,
}

module _ {T : Type 0} where
  abbrev slug_of : String × ShortUrl T → String
  slug_of e = e.0

  abbrev id_of : String × ShortUrl T → ℕ
  id_of e = e.1.id

  -- An identifier that the counter has given out, and a record under its own slug.
  abbrev pub IsNumbered : ℕ → String × ShortUrl T → Type 0
  IsNumbered counter e = (0 < e.1.id) × ((e.1.id ≤ counter) × (e.1.slug ≡ e.0))

  -- Slugs and identifiers that occur once, and no more records than the counter has counted.
  pub record IsWell (s : UrlShortener T) : Type 0 where
    pub unique_slugs : IsUnique (map slug_of s.urls)
    pub unique_ids : IsUnique (map id_of s.urls)
    pub numbered : All (IsNumbered s.id_counter) s.urls
    pub counted : length s.urls ≤ s.id_counter

  fresh_id :
      (counter : ℕ) (urls : List (String × ShortUrl T))
      → All (IsNumbered counter) urls
      → contains (map id_of urls) (suc counter) ≡ false
  fresh_id counter [] h = refl
  fresh_id counter (e ∷ urls) h = ground (arith, fresh_id counter urls h.1, h.0.1.0)

  stored-IsWell :
      (s : UrlShortener T) (slug url : String) (by : Option String) (now : T)
      → IsWell s
      → has s.urls slug ≡ false
      → IsWell (record s {
        urls = put slug (new_url s slug url by now) s.urls;
        id_counter = suc s.id_counter;
      })
  stored-IsWell s slug url by now w free =
      let u = new_url s slug url by now in
      let counter = s.id_counter in
      rw (put_fresh slug u s.urls free) (record {
        unique_slugs = subst IsUnique (sym (map-append slug_of s.urls ((slug, u) ∷ []))) (
            IsUnique-last (map slug_of s.urls) slug w.unique_slugs
              (sym (has-contains s.urls slug) ∙ free));
        unique_ids = subst IsUnique (sym (map-append id_of s.urls ((slug, u) ∷ []))) (
            IsUnique-last (map id_of s.urls) (suc counter) w.unique_ids
              (fresh_id counter s.urls w.numbered));
        numbered =
            All-append (IsNumbered (suc counter)) s.urls ((slug, u) ∷ [])
              (All-imp (IsNumbered counter) (IsNumbered (suc counter)) s.urls
                (λ e h. (h.0, (omega (arith, h.1.0), h.1.1))) w.numbered)
              ((omega arith, (omega arith, refl)), tt);
        counted = omega (arith, length-append {0} s.urls ((slug, u) ∷ []), w.counted);
      })

  clicked-IsWell :
      (s : UrlShortener T) (slug : String) (u : ShortUrl T)
      → IsWell s
      → get s.urls slug ≡ some u
      → IsWell (record s { urls = put slug (record u { click_count = suc u.click_count }) s.urls })
  clicked-IsWell s slug u w found =
      let v : ShortUrl T = record u { click_count = suc u.click_count } in
      let slugs = map-put_over slug_of slug v u s.urls found (λ j. refl) in
      let ids = map-put_over id_of slug v u s.urls found (λ j. refl) in
      record {
        unique_slugs = subst IsUnique (sym slugs) w.unique_slugs;
        unique_ids = subst IsUnique (sym ids) w.unique_ids;
        numbered =
            All-put_over (IsNumbered s.id_counter) slug v u s.urls found (λ j h. h) w.numbered;
        counted = omega (
          arith,
          ap length slugs,
          length-map s.urls slug_of,
          length-map (put slug v s.urls) slug_of,
          w.counted,
        );
      }

  deleted-IsWell :
      (s : UrlShortener T) (slug : String)
      → IsWell s
      → has s.urls slug ≡ true
      → IsWell (record s { urls = pop slug s.urls })
  deleted-IsWell s slug w there = record {
    unique_slugs = IsUnique-pop slug_of slug s.urls w.unique_slugs;
    unique_ids = IsUnique-pop id_of slug s.urls w.unique_ids;
    numbered = All-pop (IsNumbered s.id_counter) slug s.urls w.numbered;
    counted = omega (arith, length-pop slug s.urls w.unique_slugs there, w.counted);
  }

  -- What the loop of a batch keeps count of.
  pub record IsCounted (s : UrlShortener T) (n : ℕ) (failed : List String) (left : ℕ)
      (r : UrlShortener T × (ℕ × List String)) : Type 0 where
    pub well : IsWell r.0
    pub answered : r.1.0 + length r.1.1 ≡ n + length failed + left
    pub removed : length r.0.urls + r.1.0 ≡ length s.urls + n

  pub delete_one-hit :
      (s : UrlShortener T) (n : ℕ) (failed : List String) (slug : String)
      → has s.urls slug ≡ true
      → delete_one s n failed slug ≡ (record s { urls = pop slug s.urls }, (suc n, failed))
  unfolding delete_one delete_url
  delete_one-hit s n failed slug there = ground (arith, there)

  pub delete_one-miss :
      (s : UrlShortener T) (n : ℕ) (failed : List String) (slug : String)
      → has s.urls slug ≡ false
      → delete_one s n failed slug ≡ (s, (n, failed ++ (slug ∷ [])))
  unfolding delete_one delete_url
  delete_one-miss s n failed slug missing = ground (arith, missing)

  delete_one-IsCounted :
      (s : UrlShortener T) (n : ℕ) (failed : List String) (slug : String)
      → IsWell s
      → IsCounted s n failed 1 (delete_one s n failed slug)
  delete_one-IsCounted s n failed slug w = elim (Bool-cases (has s.urls slug)) [
    | inl there ↦
        subst (IsCounted s n failed 1) (sym (delete_one-hit s n failed slug there)) (record {
          well = deleted-IsWell s slug w there;
          answered = omega arith;
          removed = omega (arith, length-pop slug s.urls w.unique_slugs there);
        })
    | inr missing ↦
        subst (IsCounted s n failed 1) (sym (delete_one-miss s n failed slug missing)) (record {
          well = w;
          answered = omega (arith, length-append {0} failed (slug ∷ []));
          removed = refl;
        })
  ]

  pub delete_each-IsCounted :
      (s : UrlShortener T) (n : ℕ) (failed slugs : List String)
      → IsWell s
      → IsCounted s n failed (length slugs) (delete_each s n failed slugs)
  unfolding delete_each
  delete_each-IsCounted s n failed [] w = record {
    well = w;
    answered = omega arith;
    removed = refl;
  }
  delete_each-IsCounted s n failed (slug ∷ slugs) w =
      let next = delete_one s n failed slug in
      let one = delete_one-IsCounted s n failed slug w in
      let rest = delete_each-IsCounted next.0 next.1.0 next.1.1 slugs one.well in
      record {
        well = rest.well;
        answered = omega (arith, rest.answered, one.answered);
        removed = omega (arith, rest.removed, one.removed);
      }

  click-miss :
      (s : UrlShortener T) (slug : String) → get s.urls slug ≡ none → apply_call s (click slug) ≡ s
  unfolding apply_call increment_clicks
  click-miss s slug missing = ground (arith, missing)

  click-hit :
      (s : UrlShortener T) (slug : String) (u : ShortUrl T)
      → get s.urls slug ≡ some u
      → apply_call s (click slug)
        ≡ record s { urls = put slug (record u { click_count = suc u.click_count }) s.urls }
  unfolding apply_call increment_clicks
  click-hit s slug u found = ground (arith, found)

  apply_call-IsWell : (s : UrlShortener T) (call : Call T) → IsWell s → IsWell (apply_call s call)
  unfolding apply_call store_url increment_clicks delete_url delete_batch
  apply_call-IsWell s (store slug url by now) w = elim (Bool-cases (has s.urls slug)) [
    | inl taken ↦ rw taken w
    | inr free ↦ rw free (stored-IsWell s slug url by now w free)
  ]
  apply_call-IsWell s (click slug) w = elim (Option-cases (get s.urls slug)) [
    | inl missing ↦ subst IsWell (sym (click-miss s slug missing)) w
    | inr (u, found) ↦
        subst IsWell (sym (click-hit s slug u found)) (clicked-IsWell s slug u w found)
  ]
  apply_call-IsWell s (delete slug) w = elim (Bool-cases (has s.urls slug)) [
    | inl there ↦ rw there (deleted-IsWell s slug w there)
    | inr missing ↦ rw missing w
  ]
  apply_call-IsWell s (delete_all slugs) w = (delete_each-IsCounted s 0 [] slugs w).well

  IsWell-apply_calls :
      (s : UrlShortener T) (calls : List (Call T)) → IsWell s → IsWell (apply_calls s calls)
  unfolding apply_calls
  IsWell-apply_calls s [] w = w
  IsWell-apply_calls s (call ∷ calls) w =
      IsWell-apply_calls (apply_call s call) calls (apply_call-IsWell s call w)

  -- After any calls on a new service no slug and no identifier occurs twice, each identifier lies between 1
  -- and the counter, each record is filed under its own slug, and there are no more records than the
  -- counter says.
  pub apply_calls-IsWell :
      (base_url : String) (calls : List (Call T))
      → IsWell (apply_calls (new_shortener base_url) calls)
  apply_calls-IsWell base_url calls =
      IsWell-apply_calls (new_shortener base_url) calls
        (record { unique_slugs = tt; unique_ids = tt; numbered = tt; counted = omega arith })
