-- ===== src/Tests/Service.antt =====
-- Examples of the URL service's theorems, over the in-memory store.
use goshorty.Go.Url.{ParsedUrl}
use goshorty.Prelude.{
  ℕ, String, ◌≡◌, refl, subst, Bool-cases, inl, inr, false, Option, none, some, List, [], ◌∷◌,
  str_eq, str_eq_iff, arith,
}
use goshorty.Prelude.Int.{ℤ, pos}
use goshorty.Config.{Config, ttl_options}
use goshorty.Models.{UrlData, UrlCursor, ShortenRequest, role_user, role_admin}
use goshorty.Random.{InRange}
use goshorty.Storage.{Storage, set_if_absent, new_storage}
use goshorty.Storage.View.{view, set_if_absent-view}
use goshorty.UrlStore.Memory.{memory_store, memory_model, memory_store-laws, visit-ne-failed}
use goshorty.UrlStore.{IsListing}
use goshorty.UrlService.Access.{
  AllAnswered, get_url_info-view, get_original_url-view, redirects, redirects-view,
  delete_url-answer, delete_url-view,
}
use goshorty.Paging.Walk.{walk}
use goshorty.UrlService.{
  Entropy, url_not_found, get_url_info, get_original_url, delete_url, create_short_url, list_urls,
}
use goshorty.UrlService.Create.{Outcome, create_short_url-Outcome}
use goshorty.UrlService.SamePages.{list_urls-same}
use goshorty.UrlService.Pages.{fetch, list_urls-walk}
use goshorty.Tests.Json.{test_base64, test_base64-laws, cursor_json, cursor_json-laws}
use goshorty.Tests.Store.{url_a, url_b, one_url, one_url-Inv, two_urls, two_urls-Inv}

abbrev position : UrlCursor
position = record { created_at_unix_nano = pos 7; short_code = "ab" }

abbrev pub constant : ℕ → ℕ
constant i = 3

pub constant-InRange : InRange constant
constant-InRange i = omega arith

abbrev requests : List (ℤ × String)
requests = (pos 5, "a") ∷ (pos 6, "b") ∷ (pos 7, "a") ∷ (pos 200, "a") ∷ []

all-AllAnswered :
    (requests : List (ℤ × String)) (s : Storage)
    → AllAnswered memory_store memory_model memory_store-laws requests s
all-AllAnswered [] s = tt
all-AllAnswered ((now, code) ∷ requests) s = (
  visit-ne-failed now code s,
  all-AllAnswered requests (get_original_url memory_store now code s).1,
)

redirects-view_example :
    view (pos 8) (redirects memory_store requests two_urls) "a" ≡ some (record url_a { visits = 2 })
unfolding goshorty.UrlService.Access.hits view goshorty.Go.Map.lookup set_if_absent
    goshorty.Storage.new_storage goshorty.Go.Map.insert goshorty.Go.Map.delete goshorty.Models.add64
redirects-view_example =
    redirects-view memory_store memory_model memory_store-laws requests two_urls
      (all-AllAnswered requests two_urls) (pos 8) "a"

-- Between the two calls, the code has come to stand for a URL of another user.
abbrev renewed : Storage
renewed =
    (set_if_absent (pos 120) "a" (record url_a { created_by = "u2"; expires_at = pos 300 })
      two_urls).1

delete_url-view_example :
    view
      (pos 150)
      (delete_url memory_store (pos 90) (pos 130) "a" "u1" role_user two_urls renewed).1
      "a"
    ≡ none
unfolding view goshorty.Go.Map.lookup goshorty.Storage.set_if_absent new_storage
    goshorty.Go.Map.insert goshorty.Go.Map.delete
delete_url-view_example =
    delete_url-view memory_store memory_model memory_store-laws (pos 90) (pos 130) "a" "u1"
      role_user two_urls renewed (pos 150) "a" (λ down. down) (λ down. down) (omega arith)

list_urls-walk_example :
    let urls =
      walk
        (fetch memory_store test_base64 cursor_json (pos 5) "u1" role_user (pos 1) two_urls)
        2
        "" in
    (urls ≡ url_b ∷ url_a ∷ []) × IsListing memory_model (pos 5) "u1" role_user two_urls urls
unfolding goshorty.Storage.Listing.visible_urls goshorty.Go.Sort.slice_stable
    goshorty.Storage.collect_visible set_if_absent goshorty.Go.Map.lookup
    goshorty.Storage.new_storage goshorty.Go.Map.insert goshorty.Go.Map.delete
    goshorty.Models.newer_than goshorty.UrlService.normalize_limit
list_urls-walk_example =
    list_urls-walk memory_store memory_model memory_store-laws test_base64 cursor_json
      test_base64-laws cursor_json-laws (pos 5) "u1" role_user (pos 1) two_urls (λ down. down) refl
      refl two_urls-Inv (refl, (refl, tt)) 2 (omega arith)

-- After the expiry of the one link, it makes no difference whether its entry is still there.
other_code :
    (code : String)
    → str_eq "b" code ≡ false
    → view (pos 60) one_url code ≡ view (pos 60) two_urls code
other_code code other =
    let seen = (set_if_absent-view (pos 2) "b" url_b one_url).1 (pos 60) code in
    ground (arith, seen, other)

one_left : (code : String) → view (pos 60) one_url code ≡ view (pos 60) two_urls code
unfolding view goshorty.Go.Map.lookup set_if_absent goshorty.Storage.new_storage
    goshorty.Go.Map.insert goshorty.Go.Map.delete
one_left code = elim (Bool-cases (str_eq "b" code)) [
  | inr other ↦ other_code code other
  | inl here ↦
      subst (λ c. view (pos 60) one_url c ≡ view (pos 60) two_urls c) ((str_eq_iff "b" code).0 here)
        refl
]

list_urls-same_example :
    list_urls memory_store test_base64 cursor_json
      (pos 60)
      "u1"
      role_user
      (record { limit = pos 1; cursor = "" })
      two_urls
    ≡ list_urls memory_store test_base64 cursor_json
        (pos 60)
        "u1"
        role_user
        (record { limit = pos 1; cursor = "" })
        one_url
list_urls-same_example =
    list_urls-same memory_store memory_model memory_store-laws (pos 60) "u1" role_user two_urls
      one_url two_urls-Inv one_url-Inv one_left one_left (λ down. down) test_base64 cursor_json
      (record { limit = pos 1; cursor = "" })

abbrev pub config : Config
config = record {
  server = record { port = "8080"; base_url = "http://localhost:8080" };
  database = record { url = "" };
  security = record {
    allowed_origins = [];
    trusted_proxies = [];
    max_request_bytes = pos 1048576;
    metrics_token = "";
    token_ttl = pos 0;
    token_issuer = "";
    token_audience = "";
    register_limit_per_hour = pos 10;
  };
  ops = record { pprof_enabled = false };
  ttl = record { options = ttl_options };
}

abbrev pub accept_url : String → Option ParsedUrl
accept_url raw =
    some (record { scheme = "https"; host = "a.example"; path = ""; hostname = "a.example" })

abbrev pub entropy : Entropy ℤ
entropy = record {
  now = pos 10;
  clock = λ i. pos 11;
  id_draws = constant;
  code_draws = λ i. constant;
}

abbrev pub request : ShortenRequest
request = record { url = "https://a.example"; expires_in = "5m"; custom_code = "" }

create_short_url-Outcome_example :
    Outcome memory_store memory_model memory_store-laws config accept_url entropy request "u1"
      two_urls
      (create_short_url memory_store config accept_url entropy request "u1" two_urls)
create_short_url-Outcome_example =
    create_short_url-Outcome memory_store memory_model memory_store-laws config accept_url entropy
      request "u1" (λ i. constant-InRange) two_urls
