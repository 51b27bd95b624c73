-- ===== src/UrlService/Pages.antt =====
-- `ListURLs` of services/url_service.go page by page, for a client that follows `next_cursor`.
use goshorty.Prelude.{
  ap, ℕ, zero, suc, ◌*◌, ◌≤◌, ◌<◌, String, ◌≡◌, refl, true, false, ◌||◌, List, [], ◌∷◌, ◌++◌,
  Option, none, some, Result, ok, err, arith, str_eq, str_eq_iff, if◌then◌else◌, length, take,
  get_last?, All, ltb, Bool-cases, inl, inr, All-middle, subst,
}
use goshorty.Prelude.Int.{ℤ, pos, negsuc, eqb_ℤ}
use goshorty.Paging.{page_of}
use goshorty.Paging.Walk.{walk, next_of, walk_all, cut}
use goshorty.Models.{UrlData, UrlCursor}
use goshorty.Models.Keyset.{cursor_of}
use goshorty.Models.Cursor.{
  Json, Base64, JsonLaws, Base64Laws, token_of, encode_cursor_lem, decode-encode_cursor,
  token_of-ne-empty,
}
use goshorty.UrlStore.{UrlStore, StoreModel, UrlStoreLaws, IsListing, zero_cursor}
use goshorty.UrlService.{
  ServiceError, UrlPage, normalize_limit, list_urls, cursor_from, page_with_cursor,
}

pub normalize_limit_bounds : (n : ℤ) → (0 < normalize_limit n) × (normalize_limit n ≤ 200)
unfolding normalize_limit
normalize_limit_bounds (pos zero) = omega arith
normalize_limit_bounds (pos (suc n)) = ground arith
normalize_limit_bounds (negsuc n) = omega arith

-- A URL whose position is no zero cursor: it has a code, and a creation time other than 1970.
abbrev pub IsNamed : UrlData → Type 0
IsNamed u = (eqb_ℤ u.created_at (pos 0) || str_eq u.short_code "") ≡ false

-- What the client takes from an answer.
received : Result ServiceError UrlPage → List UrlData × Option String
received (err e) = ([], none)
received (ok page) = (page.urls, if page.has_more then some page.next_cursor else none)

module _ {E S : Type 0} (store : UrlStore E S) (base64 : Base64) (json : Json UrlCursor) (e : E)
    (user_id role : String) (limit : ℤ) (s : S) where
  -- A client's request for the page at a cursor token: the URLs, and the token of the next page. An
  -- error ends the walk.
  pub fetch : String → List UrlData × Option String
  fetch token =
      received
        (list_urls store base64 json e user_id role (record { limit = limit; cursor = token }) s)

module _ {E S : Type 0} (store : UrlStore E S) (model : StoreModel E S)
    (laws : UrlStoreLaws model store) (base64 : Base64) (json : Json UrlCursor)
    (base64_laws : Base64Laws base64) (json_laws : JsonLaws json) (e : E) (user_id role : String)
    (limit : ℤ) (s : S) (up : model.IsDown e → ⊥) (same_time : model.later e ≡ model.time e)
    (same_state : model.between e s ≡ s) where
  abbrev urls : List UrlData
  urls = model.listing (model.time e) user_id role s

  abbrev token : UrlData → String
  token u = token_of base64 json base64_laws json_laws (cursor_of u)

  -- The token is accepted and stands for the rest `ys` of the listing.
  record At (raw : String) (ys : List UrlData) : Type 0 where
    cursor : UrlCursor
    accepted : cursor_from base64 json raw ≡ ok cursor
    rest : model.after cursor urls ≡ ys

  -- The answer at an accepted token.
  list_urls-At :
      model.Valid s
      → (raw : String) (ys : List UrlData) → At raw ys
      → list_urls store base64 json e user_id role (record { limit = limit; cursor = raw }) s
        ≡ page_with_cursor base64 json (page_of (length urls) (normalize_limit limit) ys)
  unfolding list_urls
  list_urls-At valid raw ys a =
      let n = normalize_limit limit in
      elim (laws.list_page e user_id role a.cursor n s valid) [
        | inl answer ↦
            rw (a.accepted, list_urls)
              (rw (answer, same_time, same_state)
                (ap (λ rest. page_with_cursor base64 json (page_of (length urls) n rest)) a.rest))
        | inr (answer, down) ↦ absurd (up down)
      ]

  found_last :
      (total n : ℕ) (ys : List UrlData) (last : UrlData)
      → ltb n (length ys) ≡ true
      → get_last? (take n ys) ≡ some last
      → received (page_with_cursor base64 json (page_of total n ys))
        ≡ (take n ys, next_of token n ys)
  unfolding received page_with_cursor
  found_last total n ys last more is_last =
      ground (arith, encode_cursor_lem base64 json base64_laws json_laws (cursor_of last))

  received-page :
      (total : ℕ) (ys : List UrlData)
      → let n = normalize_limit limit in
        received (page_with_cursor base64 json (page_of total n ys))
        ≡ (take n ys, next_of token n ys)
  unfolding received page_with_cursor
  received-page total ys =
      let n = normalize_limit limit in
      elim (Bool-cases (ltb n (length ys))) [
        | inr fit ↦ ground (arith, fit)
        | inl more ↦
            let here = cut n ys (normalize_limit_bounds limit).0 (ground arith) in
            found_last total n ys here.last more here.is_last
      ]

  fetch-page :
      model.Valid s
      → (raw : String) (ys : List UrlData) → At raw ys
      → fetch store base64 json e user_id role limit s raw
        ≡ (take (normalize_limit limit) ys, next_of token (normalize_limit limit) ys)
  unfolding fetch
  fetch-page valid raw ys a = rw (list_urls-At valid raw ys a) (received-page (length urls) ys)

  resume :
      model.Valid s
      → All IsNamed urls
      → (before : List UrlData) (last : UrlData) (ys : List UrlData) → urls ≡ before ++ last ∷ ys
      → At (token last) ys
  unfolding cursor_from
  resume valid named before last ys whole =
      let is_named : IsNamed last =
        All-middle IsNamed before last ys (subst (All IsNamed) whole named) in
      let raw = token last in
      let not_empty = token_of-ne-empty base64 json base64_laws json_laws (cursor_of last) in
      let decoded = decode-encode_cursor base64 json base64_laws json_laws (cursor_of last) in
      record {
        cursor = cursor_of last;
        accepted = ground (arith, str_eq_iff raw "", not_empty, decoded, is_named);
        rest =
            laws.list_next (model.time e) user_id role s valid before last ys whole
              (ground (arith, is_named));
      }

  first : model.Valid s → At "" urls
  unfolding cursor_from
  first valid = record { cursor = zero_cursor; accepted = refl; rest = laws.list_first urls }

  -- From the first page, with as many requests as the listing has pages, following the cursors gives
  -- the whole listing: in strict order, and just the URLs that stand under their codes and that the caller
  -- may see. (The store answers. Nothing changes, and no time passes, between the requests and between
  -- the statements of one request. Each URL of the listing has a code, and a creation time other than
  -- 1970.)
  pub list_urls-walk :
      model.Valid s
      → All IsNamed urls
      → (requests : ℕ) → length urls ≤ requests * normalize_limit limit
      → let received_urls = walk (fetch store base64 json e user_id role limit s) requests "" in
        (received_urls ≡ urls) × IsListing model (model.time e) user_id role s received_urls
  list_urls-walk valid named requests fits =
      let whole =
        walk_all urls token (normalize_limit limit) (fetch store base64 json e user_id role limit s)
          At (fetch-page valid) (resume valid named) (normalize_limit_bounds limit).0 requests ""
          (first valid) fits in
      (whole, rw whole (laws.listing-IsListing (model.time e) user_id role s valid))
