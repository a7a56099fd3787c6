-- ===== src/Shortener/Tests.antt =====
-- A run of the service with times that are numbers, and instances of its theorems.
use ucf.Prelude.{ℕ, ◌≡◌, refl, true, false, none, some, List, [], ◌∷◌}
use ucf.Shortener.{
  UrlShortener, new_shortener, validate_url, delete_batch, Call, store, click, delete, apply_calls,
}
use ucf.Shortener.Laws.{view, apply_calls-refines}
use ucf.Shortener.Bounds.{IsWell, apply_calls-IsWell}
use ucf.Shortener.Batch.{Accounts, delete_batch-Accounts}

abbrev calls : List (Call ℕ)
calls =
    store "a" "https://one" none 10
    ∷ store "b" "https://two" (some "me") 20
    ∷ click "a"
    ∷ store "a" "https://other" none 30
    ∷ delete "b"
    ∷ click "b"
    ∷ store "c" "https://three" none 40
    ∷ []

abbrev start : UrlShortener ℕ
start = new_shortener "http://short.ly"

-- A slug that is taken keeps its URL and its clicks.
visits_a : view (apply_calls start calls) "a" ≡ some ("https://one", 1)
unfolding apply_calls
visits_a = refl

-- The slug that is given twice fails the second time.
batch : (delete_batch (apply_calls start calls) ("c" ∷ "b" ∷ "c" ∷ [])).1 ≡ (1, "b" ∷ "c" ∷ [])
unfolding apply_calls delete_batch
batch = refl

url_checks :
    (validate_url "https://one" ≡ (true, none))
    × (validate_url "ftp://one" ≡ (false, some "URL must start with http:// or https://"))
unfolding validate_url
url_checks = (refl, refl)

apply_calls-refines_example : view (apply_calls start calls) "a" ≡ some ("https://one", 1)
apply_calls-refines_example = apply_calls-refines start calls "a"

apply_calls-IsWell_example : IsWell (apply_calls start calls)
apply_calls-IsWell_example = apply_calls-IsWell "http://short.ly" calls

delete_batch-Accounts_example :
    Accounts
      (apply_calls start calls)
      ("c" ∷ "b" ∷ "c" ∷ [])
      (delete_batch (apply_calls start calls) ("c" ∷ "b" ∷ "c" ∷ []))
delete_batch-Accounts_example = delete_batch-Accounts "http://short.ly" calls ("c" ∷ "b" ∷ "c" ∷ [])
