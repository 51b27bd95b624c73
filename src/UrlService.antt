-- ===== src/UrlService.antt =====
-- services/url_service.go and services/pagination.go, over any store. Parameters: the store, Go's
-- `url.Parse`, and Go's JSON and base64 codecs. Each call of the store has its own time.
pub mod Reserve
pub mod Create
pub mod Access
pub mod Pages
pub mod SamePages
pub mod Kept
use Prim.Native.String.{◌++◌ as append}
use goshorty.Prelude.{
  ℕ, zero, suc, ◌*◌, String, Bool, true, false, not, ◌&&◌, ◌||◌, Option, none, some, List, [], ◌∷◌,
  Result, ok, err, ltb, leb, ◌==◌, str_eq, if◌then◌else◌, get_last?, is_some,
}
use goshorty.Prelude.Int.{ℤ, pos, negsuc, ◌+ℤ◌, eqb_ℤ}
use goshorty.Go.Url.{ParsedUrl}
use goshorty.Go.Map.{lookup}
use goshorty.Go.Sort.{slice_stable}
use goshorty.Paging.{ListResult}
use goshorty.Random.{generate_id, generate_short_code}
use goshorty.Config.{Config, hour}
use goshorty.Models.{ShortenRequest, ShortenResponse, UrlData, UrlCursor, role_admin, newer_than}
use goshorty.Models.Cursor.{Json, Base64, encode_cursor, decode_cursor}
use goshorty.Storage.{StorageError, key_not_found, key_exists, storage_failed, Stats}
use goshorty.UrlStore.{UrlStore}

pub data ServiceError : Type 0 where
  forbidden url_not_found invalid_cursor : ServiceError
  -- With the text of the error.
  invalid_url : String → ServiceError
  code_taken : String → ServiceError
  not_allocated encode_failed : ServiceError
  store_error : StorageError → ServiceError

abbrev pub url_required : String
url_required = "invalid URL: URL is required"

abbrev pub url_not_allowed : String
url_not_allowed = "invalid URL: only http and https URLs are allowed"

pub record ListOptions : Type 0 where
  pub limit : ℤ
  pub cursor : String

pub record UrlPage : Type 0 where
  pub urls : List UrlData
  pub next_cursor : String
  pub total : ℕ
  pub has_more : Bool

abbrev pub default_page_limit : ℕ
default_page_limit = 50

abbrev pub max_page_limit : ℕ
max_page_limit = 200

unfoldable pub normalize_limit : ℤ → ℕ
normalize_limit (pos zero) = default_page_limit
normalize_limit (negsuc n) = default_page_limit
normalize_limit (pos (suc n)) = if ltb max_page_limit (suc n) then max_page_limit else suc n

abbrev pub default_expires_in : String
default_expires_in = "24h"

abbrev pub max_attempts : ℕ
max_attempts = 100

-- What a call of `CreateShortURL` reads: its `time.Now()`, and for each call of the store the time
-- there; the random draws for the id, and those for the code of each attempt.
pub record Entropy (E : Type 0) : Type 0 where
  pub now : ℤ
  pub clock : ℕ → E
  pub id_draws : ℕ → ℕ
  pub code_draws : ℕ → ℕ → ℕ

-- `err != nil || u.Host == "" || (u.Scheme != "http" && u.Scheme != "https")`
abbrev pub is_rejected : Option ParsedUrl → Bool
is_rejected none = true
is_rejected (some u) =
    str_eq u.host "" || (not (str_eq u.scheme "http") && not (str_eq u.scheme "https"))

-- The lifetime of an option, 24 hours if there is no such option.
abbrev pub duration_of : Config → String → ℤ
duration_of config expires_in = elim (lookup expires_in config.ttl.options) [
  | none ↦ pos (24 * hour)
  | some d ↦ d
]

abbrev pub display_of : String → String
display_of expires_in = if str_eq expires_in "" then default_expires_in else expires_in

abbrev pub new_url : {E : Type 0} → Config → Entropy E → ShortenRequest → String → UrlData
new_url config entropy req user_id = record {
  id = generate_id entropy.id_draws;
  short_code = "";
  original_url = req.url;
  expires_in = display_of req.expires_in;
  expires_at = entropy.now +ℤ duration_of config req.expires_in;
  created_at = entropy.now;
  created_by = user_id;
  visits = 0;
}

abbrev pub response_of : Config → UrlData → ShortenResponse
response_of config u = record {
  id = u.id;
  short_url = append config.server.base_url (append "/r/" u.short_code);
  short_code = u.short_code;
  original_url = u.original_url;
  expires_in = u.expires_in;
  expires_at = u.expires_at;
  created_at = u.created_at;
}

-- The store's answer to `Get`, `GetAndIncrement` or `Delete`, as the service's error.
abbrev pub service_error : StorageError → ServiceError
service_error key_not_found = url_not_found
service_error (key_exists code) = store_error (key_exists code)
service_error storage_failed = store_error storage_failed

-- `codeLength`: 6, and 10 at the last attempt.
abbrev pub code_length_at : ℕ → ℤ
code_length_at i = if i == 99 then pos 10 else pos 6

-- `role != models.RoleAdmin && urlData.CreatedBy != userID`
abbrev pub is_foreign : String → String → UrlData → Bool
is_foreign user_id role u = not (str_eq role role_admin) && not (str_eq u.created_by user_id)

module _ (base64 : Base64) (json : Json UrlCursor) where
  -- The cursor of the options, checked.
  unfoldable pub cursor_from : String → Result ServiceError UrlCursor
  cursor_from raw =
      if str_eq raw ""
      then ok (record { created_at_unix_nano = pos 0; short_code = "" })
      else (elim (decode_cursor base64 json raw) [
        | err e ↦ err invalid_cursor
        | ok c ↦
            if eqb_ℤ c.created_at_unix_nano (pos 0) || str_eq c.short_code ""
            then err invalid_cursor
            else ok c
      ])

  -- `res.HasMore && len(res.Items) > 0`, and the cursor of the last item.
  unfoldable pub page_with_cursor : ListResult UrlData → Result ServiceError UrlPage
  page_with_cursor res =
      let page : UrlPage = record {
        urls = res.items;
        next_cursor = "";
        total = res.total;
        has_more = res.has_more;
      } in
      if res.has_more
      then (elim (get_last? res.items) [
        | none ↦ ok page
        | some last ↦
            (elim (encode_cursor base64 json
              (record { created_at_unix_nano = last.created_at; short_code = last.short_code })) [
                | err e ↦ err encode_failed
                | ok enc ↦ ok (record page { next_cursor = enc })
              ])
      ])
      else ok page

module _ {E S : Type 0} (store : UrlStore E S) where
  -- `SetIfAbsent` of a custom code.
  pub reserve_custom : Entropy E → String → UrlData → S → Result ServiceError UrlData × S
  reserve_custom entropy code u s =
      let u' = record u { short_code = code } in
      let (answer, s') = store.set_if_absent (entropy.clock 0) code u' s in
      elim answer [
        | ok _ ↦ (ok u', s')
        | err e ↦ (elim e [
          | key_exists _ ↦ (err (code_taken code), s')
          | other ↦ (err (store_error other), s')
        ])
      ]

  -- The loop, with `rounds` attempts left and attempt `i` next; then the test of the code.
  unfoldable pub reserve_random : Entropy E → ℕ → ℕ → UrlData → S → Result ServiceError UrlData × S
  reserve_random entropy zero i u s = (err not_allocated, s)
  reserve_random entropy (suc rounds) i u s =
      let code = generate_short_code (code_length_at i) (entropy.code_draws i) in
      let u' = record u { short_code = code } in
      let (answer, s') = store.set_if_absent (entropy.clock i) code u' s in
      let again = reserve_random entropy rounds (suc i) u' s' in
      elim answer [
        | ok _ ↦ if str_eq code "" then (err not_allocated, s') else (ok u', s')
        | err e ↦ (elim e [ key_exists _ ↦ again | other ↦ (err (store_error other), s') ])
      ]

  module _ (config : Config) (parse_url : String → Option ParsedUrl) where
    unfoldable pub respond :
        Result ServiceError UrlData × S → Result ServiceError ShortenResponse × S
    respond (ok u, s) = (ok (response_of config u), s)
    respond (err e, s) = (err e, s)

    unfoldable pub create_short_url :
        Entropy E → ShortenRequest → String → S → Result ServiceError ShortenResponse × S
    create_short_url entropy req user_id s =
        if str_eq req.url ""
        then (err (invalid_url url_required), s)
        else if is_rejected (parse_url req.url)
        then (err (invalid_url url_not_allowed), s)
        else let u = new_url config entropy req user_id in
          respond (
            if not (str_eq req.custom_code "")
            then reserve_custom entropy req.custom_code u s
            else reserve_random entropy max_attempts 0 u s)

  unfoldable pub get_original_url : E → String → S → Result ServiceError String × S
  get_original_url now code s =
      let (answer, s') = store.get_and_increment now code s in
      elim answer [ ok u ↦ (ok u.original_url, s') | err e ↦ (err (service_error e), s') ]

  unfoldable pub get_url_info : E → String → String → String → S → Result ServiceError UrlData
  get_url_info now code user_id role s = elim (store.get now code s) [
    | ok u ↦ if is_foreign user_id role u then err url_not_found else ok u
    | err e ↦ err (service_error e)
  ]

  -- `Get` and `Delete` are two calls: another request may come between them, so the state that the
  -- second one meets is an argument of its own.
  unfoldable pub delete_url :
      E → E → String → String → String → S → S → Result ServiceError (Unit {0}) × S
  delete_url now later code user_id role s between = elim (store.get now code s) [
    | err e ↦ (err (service_error e), between)
    | ok u ↦
        if is_foreign user_id role u
        then (err forbidden, between)
        else let (answer, s') = store.delete_key later code between in
          (elim answer [ ok _ ↦ (ok tt, s') | err e ↦ (err (service_error e), s') ])
  ]

  unfoldable pub get_all_urls : E → String → String → S → Result ServiceError (List UrlData)
  get_all_urls now user_id role s = elim (store.get_all_for now user_id role s) [
    | ok urls ↦ ok (slice_stable newer_than urls)
    | err e ↦ err (store_error e)
  ]

  unfoldable pub get_stats : E → String → String → S → Result ServiceError Stats
  get_stats now user_id role s = elim (store.stats_for now user_id role s) [
    | ok stats ↦ ok stats
    | err e ↦ err (store_error e)
  ]

  module _ (base64 : Base64) (json : Json UrlCursor) where
    unfoldable pub list_urls : E → String → String → ListOptions → S → Result ServiceError UrlPage
    list_urls now user_id role opts s = elim (cursor_from base64 json opts.cursor) [
      | err e ↦ err e
      | ok cursor ↦ (elim (store.list_urls now user_id role cursor (normalize_limit opts.limit) s) [
        | err e ↦ err (store_error e)
        | ok res ↦ page_with_cursor base64 json res
      ])
    ]
