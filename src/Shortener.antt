-- ===== src/Shortener.antt =====
-- src/ucf/shortener/url_service.py: class URLShortener, with the clock and the random choice as arguments.
pub mod Laws
pub mod Bounds
pub mod Batch
pub mod Tests
use Prim.Native.String.{count, ◌++◌ as text_append}
use ucf.Prelude.Dict.{get, has, put, pop}
use ucf.Prelude.{
  ℕ, suc, ◌+◌, String, ◌≡◌, Bool, true, false, not, ◌&&◌, ◌||◌, Option, none, some, List, [], ◌∷◌,
  ◌++◌, ltb, leb, ◌==◌, string_eq, Result, ok, err, ◌>>◌, raise_if, starts_with, if◌then◌else◌,
}

-- ShortURL; its `id` is the text of the number here, and T the type of a time.
pub record ShortUrl (T : Type 0) : Type 0 where
  pub id : ℕ
  pub slug : String
  pub original_url : String
  pub click_count : ℕ
  pub created_by : Option String
  pub created_at : T

pub record UrlShortener (T : Type 0) : Type 0 where
  pub base_url : String
  pub urls : List (String × ShortUrl T)
  pub id_counter : ℕ

-- A ValueError; its message is left out.
pub data ValueError : Type 0 where
  value_error : ValueError

-- URLShortener.generate_slug; `choices` is the join of random.choices of that many letters and digits.
unfoldable pub generate_slug : (ℕ → String) → ℕ → Result ValueError String
generate_slug choices length =
    raise_if (not (leb 4 length && leb length 20)) value_error >> ok (choices length)

-- URLShortener.validate_url
unfoldable pub validate_url : String → Bool × Option String
validate_url url =
    if url == ""
    then (false, some "URL is required")
    else if not (starts_with "http://" url || starts_with "https://" url)
    then (false, some "URL must start with http:// or https://")
    else if ltb 2048 (count url)
    then (false, some "URL is too long (max 2048 characters)")
    else (true, none)

module _ {T : Type 0} where
  -- URLShortener(base_url)
  abbrev pub new_shortener : String → UrlShortener T
  new_shortener base_url = record { base_url = base_url; urls = []; id_counter = 0 }

  -- URLShortener.slug_exists
  abbrev pub slug_exists : UrlShortener T → String → Bool
  slug_exists s slug = has s.urls slug

  -- URLShortener.get_by_slug
  abbrev pub get_by_slug : UrlShortener T → String → Option (ShortUrl T)
  get_by_slug s slug = get s.urls slug

  -- URLShortener.get_full_short_url
  abbrev pub get_full_short_url : UrlShortener T → String → String
  get_full_short_url s slug = text_append s.base_url (text_append "/" slug)

  abbrev pub new_url : UrlShortener T → String → String → Option String → T → ShortUrl T
  new_url s slug original_url created_by now = record {
    id = suc s.id_counter;
    slug = slug;
    original_url = original_url;
    click_count = 0;
    created_by = created_by;
    created_at = now;
  }

  -- URLShortener.store_url, at a time
  unfoldable pub store_url :
      UrlShortener T
      → String
      → String
      → Option String
      → T
      → Result ValueError (UrlShortener T × ShortUrl T)
  store_url s slug original_url created_by now =
      let url = new_url s slug original_url created_by now in
      raise_if (has s.urls slug) value_error
      >> ok (record s { urls = put slug url s.urls; id_counter = suc s.id_counter }, url)

  -- URLShortener.increment_clicks
  unfoldable pub increment_clicks : UrlShortener T → String → Result ValueError (UrlShortener T × ℕ)
  increment_clicks s slug = elim (get s.urls slug) [
    | none ↦ err value_error
    | some url ↦
        let clicked : ShortUrl T = record url { click_count = suc url.click_count } in
        ok (record s { urls = put slug clicked s.urls }, suc url.click_count)
  ]

  -- URLShortener.delete_url
  unfoldable pub delete_url : UrlShortener T → String → Result ValueError (UrlShortener T)
  delete_url s slug =
      raise_if (not (has s.urls slug)) value_error >> ok (record s { urls = pop slug s.urls })

  -- The body of the loop of URLShortener.delete_batch.
  unfoldable pub delete_one :
      UrlShortener T → ℕ → List String → String → UrlShortener T × (ℕ × List String)
  unfolding delete_url
  delete_one s deleted failed slug = elim (delete_url s slug) [
    | ok after ↦ (after, (suc deleted, failed))
    | err _ ↦ (s, (deleted, failed ++ (slug ∷ [])))
  ]

  unfoldable pub delete_each :
      UrlShortener T → ℕ → List String → List String → UrlShortener T × (ℕ × List String)
  unfolding delete_one
  delete_each s deleted failed [] = (s, (deleted, failed))
  delete_each s deleted failed (slug ∷ slugs) =
      let next = delete_one s deleted failed slug in delete_each next.0 next.1.0 next.1.1 slugs

  -- URLShortener.delete_batch
  unfoldable pub delete_batch : UrlShortener T → List String → UrlShortener T × (ℕ × List String)
  unfolding delete_each
  delete_batch s slugs = delete_each s 0 [] slugs

-- A call that may change the state.
pub data Call (T : Type 0) : Type 0 where
  store : String → String → Option String → T → Call T
  click : String → Call T
  delete : String → Call T
  delete_all : List String → Call T

-- The state after what a call returns, or as it was.
abbrev pub after_or {ℓ} :
    {T : Type 0} {A : Type ℓ}
    → UrlShortener T
    → (A → UrlShortener T)
    → Result ValueError A
    → UrlShortener T
after_or s state (ok a) = state a
after_or s state (err _) = s

module _ {T : Type 0} where
  unfoldable pub apply_call : UrlShortener T → Call T → UrlShortener T
  unfolding store_url increment_clicks delete_url delete_batch
  apply_call s (store slug url by now) =
      after_or s (λ (r : UrlShortener T × ShortUrl T). r.0) (store_url s slug url by now)
  apply_call s (click slug) = after_or s (λ (r : UrlShortener T × ℕ). r.0) (increment_clicks s slug)
  apply_call s (delete slug) = after_or s (λ (r : UrlShortener T). r) (delete_url s slug)
  apply_call s (delete_all slugs) = (delete_batch s slugs).0

  unfoldable pub apply_calls : UrlShortener T → List (Call T) → UrlShortener T
  unfolding apply_call
  apply_calls s [] = s
  apply_calls s (call ∷ calls) = apply_calls (apply_call s call) calls
