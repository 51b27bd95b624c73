-- ===== src/Tests/Store.antt =====
-- Examples of the store's theorems.
use goshorty.Prelude.{◌≡◌, false, some, List, [], ◌∷◌, arith}
use goshorty.Prelude.Int.{pos}
use goshorty.Go.Sort.{IsSorted}
use goshorty.Models.{UrlData, UrlCursor, newer_than, role_user}
use goshorty.Storage.{
  Storage, key_exists, new_storage, set_if_absent, get_and_increment, list_urls, cleanup_expired,
  tick, stop, Signal,
}
use goshorty.Storage.View.{view, cleanup_expired-view}
use goshorty.Storage.Invariant.{Inv, Reach, start, next, sets, Reach-Inv}
use goshorty.Storage.Listing.{visible_urls, list_urls_lem}

abbrev pub url_a : UrlData
url_a = record {
  id = "1";
  short_code = "a";
  original_url = "https://a.example";
  expires_in = "1h";
  expires_at = pos 100;
  created_at = pos 1;
  created_by = "u1";
  visits = 0;
}

abbrev pub url_b : UrlData
url_b = record url_a { id = "2"; short_code = "b"; expires_at = pos 50; created_at = pos 2 }

abbrev pub one_url : Storage
one_url = (set_if_absent (pos 1) "a" url_a new_storage).1

abbrev pub two_urls : Storage
two_urls = (set_if_absent (pos 2) "b" url_b one_url).1

pub one_url-Inv : Inv one_url
one_url-Inv = Reach-Inv (next start (sets (pos 1) url_a))

two_urls-Reach : Reach two_urls
two_urls-Reach = next (next start (sets (pos 1) url_a)) (sets (pos 2) url_b)

pub two_urls-Inv : Inv two_urls
two_urls-Inv = Reach-Inv two_urls-Reach

abbrev after_a : UrlCursor
after_a = record { created_at_unix_nano = pos 1; short_code = "a" }

abbrev after_b : UrlCursor
after_b = record { created_at_unix_nano = pos 2; short_code = "b" }

list_urls_lem_example :
    list_urls (pos 5) "u1" role_user after_b 1 two_urls
    ≡ record { items = url_a ∷ []; total = 2; has_more = false }
unfolding visible_urls goshorty.Go.Sort.slice_stable goshorty.Storage.collect_visible set_if_absent
    goshorty.Go.Map.lookup new_storage goshorty.Go.Map.insert goshorty.Go.Map.delete newer_than
    goshorty.Models.after_keyset
list_urls_lem_example = list_urls_lem (pos 5) "u1" role_user after_b 1 two_urls two_urls-Inv

abbrev ticks : List Signal
ticks = tick (pos 60) ∷ tick (pos 70) ∷ stop ∷ []

cleanup_expired-view_example : view (pos 80) (cleanup_expired ticks two_urls) "a" ≡ some url_a
unfolding view goshorty.Go.Map.lookup set_if_absent new_storage goshorty.Go.Map.insert
    goshorty.Go.Map.delete
cleanup_expired-view_example =
    cleanup_expired-view ticks (pos 80) two_urls "a" two_urls-Inv.unique
      (omega arith, (omega arith, tt))
