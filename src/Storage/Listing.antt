-- ===== src/Storage/Listing.antt =====
-- One page of `ListURLs` of storage/storage.go, against what a page of a keyset listing should be.
use mathlib.Core.Path.{fun_ext}
use goshorty.Prelude.{
  ◌++◌, false, ℕ, String, ◌≡◌, ap, ◌≢◌, List, [], ◌∷◌, arith, length, drop, str_eq_iff, keep_if,
  if◌then◌else◌, All, Bool-cases, inl, inr, ◌∙◌, sym,
}
use goshorty.Prelude.Int.{ℤ}
use goshorty.Go.Map.{Map, Unique, Absent}
use goshorty.Go.Sort.{slice_stable, IsSorted, Distinct, Apart, keep_if-less, slice_stable-IsSorted}
use goshorty.Go.Search.Sorted.{drop-search}
use goshorty.Paging.{page_of, slice_from-page_of}
use goshorty.Models.{UrlData, UrlCursor, newer_than, after_keyset}
use goshorty.Models.Keyset.{
  newer_than-StrictOrder, newer_than_total, after_keyset_mono, cursor_of, after_keyset-cursor_of,
}
use goshorty.Storage.{Storage, StorageEntry, collect_visible, list_urls, page_start, is_first_page}
use goshorty.Storage.Invariant.{Inv, IsFiled}

-- The URLs that the caller may see, newest first.
unfoldable pub visible_urls : ℤ → String → String → Storage → List UrlData
visible_urls now user_id role s =
    slice_stable newer_than (collect_visible now user_id role s.entries)

-- The part of a listing that lies after the cursor.
abbrev pub after_cursor : UrlCursor → List UrlData → List UrlData
after_cursor cursor urls =
    if is_first_page cursor then urls else keep_if (λ u. after_keyset u cursor) urls

collect_visible-Apart :
    (now : ℤ) (user_id role : String) (u : UrlData) (m : Map StorageEntry)
    → Absent u.short_code m
    → All IsFiled m
    → All (Apart newer_than u) (collect_visible now user_id role m)
unfolding collect_visible
collect_visible-Apart now user_id role u [] a f = tt
collect_visible-Apart now user_id role u ((k, e) ∷ m) a f =
    let other : u.short_code ≢ e.url_data.short_code =
      λ same. cc (a.0, (str_eq_iff k u.short_code).1 (sym (same ∙ f.0.0))) in
    ground (
      arith,
      collect_visible-Apart now user_id role u m a.1 f.1,
      newer_than_total u e.url_data other,
    )

collect_visible-Distinct :
    (now : ℤ) (user_id role : String) (m : Map StorageEntry)
    → Unique m
    → All IsFiled m
    → Distinct newer_than (collect_visible now user_id role m)
unfolding collect_visible
collect_visible-Distinct now user_id role [] u f = tt
collect_visible-Distinct now user_id role ((k, e) ∷ m) u f =
    let absent : Absent e.url_data.short_code m = rw f.0.0 u.0 in
    ground (
      arith,
      collect_visible-Distinct now user_id role m u.1 f.1,
      collect_visible-Apart now user_id role e.url_data m absent f.1,
    )

-- A listing is strictly ordered by (creation time descending, short code ascending).
pub visible_urls-IsSorted :
    (now : ℤ) (user_id role : String) (s : Storage)
    → Inv s
    → IsSorted newer_than (visible_urls now user_id role s)
unfolding visible_urls
visible_urls-IsSorted now user_id role s v =
    slice_stable-IsSorted newer_than newer_than-StrictOrder
      (collect_visible now user_id role s.entries)
      (collect_visible-Distinct now user_id role s.entries v.unique v.filed)

drop-page_start :
    (urls : List UrlData) (cur : UrlCursor)
    → IsSorted newer_than urls
    → drop (page_start urls cur) urls ≡ after_cursor cur urls
unfolding page_start
drop-page_start urls cur s = elim (Bool-cases (is_first_page cur)) [
  | inl e ↦ rw e
  | inr e ↦ rw e (
      drop-search newer_than (λ u. after_keyset u cur)
        (λ u v h less. after_keyset_mono u v cur h less) urls s)
]

-- `ListURLs` answers the first `limit` visible URLs after the cursor, in order, how many URLs are
-- visible in all, and whether more remain after this page.
pub list_urls_lem :
    (now : ℤ) (user_id role : String) (cursor : UrlCursor) (limit : ℕ) (s : Storage)
    → Inv s
    → let urls = visible_urls now user_id role s in
      list_urls now user_id role cursor limit s
      ≡ page_of (length urls) limit (after_cursor cursor urls)
unfolding list_urls visible_urls
list_urls_lem now user_id role cursor limit s v =
    let urls = visible_urls now user_id role s in
    let sorted = visible_urls-IsSorted now user_id role s v in
    slice_from-page_of (page_start urls cursor) urls limit
    ∙ ap (page_of (length urls) limit) (drop-page_start urls cursor sorted)

-- The cursor of a URL in a sorted listing stands for what follows it.
pub after_cursor-cursor_of :
    (urls before : List UrlData) (last : UrlData) (ys : List UrlData)
    → IsSorted newer_than urls
    → is_first_page (cursor_of last) ≡ false
    → urls ≡ before ++ last ∷ ys
    → after_cursor (cursor_of last) urls ≡ ys
after_cursor-cursor_of urls before last ys s named e =
    let same : (λ u. after_keyset u (cursor_of last)) ≡ newer_than last =
      fun_ext (λ u. after_keyset-cursor_of u last) in
    rw (named, same) (keep_if-less newer_than newer_than-StrictOrder urls before last ys s e)
