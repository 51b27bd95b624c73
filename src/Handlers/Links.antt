-- ===== src/Handlers/Links.antt =====
-- handlers/handler.go: the handlers of the short links, over any URL store. `user_id` and `role` are what
-- `AuthMiddleware` has set.
pub mod Answers
pub mod Kept
use goshorty.Go.Url.{ParsedUrl}
use goshorty.Prelude.{ℕ, String, Bool, Option, none, some, Result, ok, err, str_eq, if◌then◌else◌}
use goshorty.Prelude.Int.{ℤ}
use goshorty.Config.{Config}
use goshorty.Models.{ShortenRequest, ShortenResponse, UrlCursor}
use goshorty.Models.Cursor.{Json, Base64}
use goshorty.UrlStore.{UrlStore}
use goshorty.UrlService.{
  ServiceError, forbidden, url_not_found, invalid_url, code_taken, invalid_cursor, Entropy, UrlPage,
}
use goshorty.UrlService
use goshorty.Handlers.{
  Body, link_created, url_info, url_deleted, url_page, url_list, statistics, service_status,
  Response, json, redirect, write_error, ListQuery, parse_list_options,
}

abbrev pub not_found : Response
not_found = write_error 404 "NOT_FOUND" "URL not found or has expired"

-- The answer of `requireCode` to an empty code.
abbrev pub missing_code : Response
missing_code = write_error 400 "MISSING_CODE" "Short code is required"

-- The error switch of `CreateShortURL`.
abbrev pub creation_error : ServiceError → Response
creation_error (code_taken code) = write_error 409 "SHORT_CODE_TAKEN" "Short code is already taken"
creation_error (invalid_url message) = write_error 400 "INVALID_URL" message
creation_error other = write_error 500 "CREATION_FAILED" "Failed to create short URL"

abbrev pub deletion_error : ServiceError → Response
deletion_error forbidden = not_found
deletion_error url_not_found = not_found
deletion_error other = write_error 500 "DELETE_FAILED" "Failed to delete URL"

abbrev pub list_error : ServiceError → Response
list_error invalid_cursor = write_error 400 "INVALID_CURSOR" "cursor is invalid or expired"
list_error other = write_error 500 "LIST_FAILED" "Failed to list URLs"

abbrev pub page_response : UrlPage → Response
page_response page =
    json 200 (url_page page.urls page.total (if page.has_more then some page.next_cursor else none))

module _ {E S : Type 0} (store : UrlStore E S) where
  unfoldable pub create_short_url :
      Config
      → (String → Option ParsedUrl)
      → Entropy E
      → Option ShortenRequest
      → String
      → S
      → Response × S
  create_short_url config parse_url entropy none user_id s =
      (write_error 400 "INVALID_REQUEST" "Request body is invalid", s)
  create_short_url config parse_url entropy (some req) user_id s =
      let (answer, s') = UrlService.create_short_url store config parse_url entropy req user_id s in
      elim answer [
        | ok response ↦ (json 201 (link_created response), s')
        | err e ↦ (creation_error e, s')
      ]

  unfoldable pub redirect_link : E → String → S → Response × S
  redirect_link now code s =
      if str_eq code ""
      then (missing_code, s)
      else let (answer, s') = UrlService.get_original_url store now code s in
        (elim answer [
          | ok original_url ↦ (redirect 302 original_url, s')
          | err e ↦ (not_found, s')
        ])

  unfoldable pub get_url_info : E → String → String → String → S → Response
  get_url_info now code user_id role s =
      if str_eq code ""
      then missing_code
      else (elim (UrlService.get_url_info store now code user_id role s) [
        | ok u ↦ json 200 (url_info u)
        | err e ↦ not_found
      ])

  -- With what the service's two calls of the store meet: their times, and their states.
  unfoldable pub delete_url : E → E → String → String → String → S → S → Response × S
  delete_url now later code user_id role s between =
      if str_eq code ""
      then (missing_code, between)
      else let (answer, s') = UrlService.delete_url store now later code user_id role s between in
        (elim answer [
          | ok _ ↦ (json 200 (url_deleted "URL deleted successfully" code), s')
          | err e ↦ (deletion_error e, s')
        ])

  -- `api_version` is "v1" on the canonical surface.
  unfoldable pub get_all_urls :
      Base64
      → Json UrlCursor
      → (String → Option ℤ)
      → E
      → String
      → ListQuery
      → String
      → String
      → S
      → Response
  unfolding parse_list_options
  get_all_urls base64 json_codec atoi now api_version query user_id role s =
      if str_eq api_version "v1"
      then (elim (parse_list_options atoi query) [
        | none ↦ write_error 400 "INVALID_LIMIT" "limit must be a positive integer"
        | some opts ↦ (elim (UrlService.list_urls store base64 json_codec now user_id role opts s) [
          | ok page ↦ page_response page
          | err e ↦ list_error e
        ])
      ])
      else (elim (UrlService.get_all_urls store now user_id role s) [
        | ok urls ↦ json 200 (url_list urls)
        | err e ↦ write_error 500 "LIST_FAILED" "Failed to list URLs"
      ])

  unfoldable pub get_stats : E → String → String → S → Response
  get_stats now user_id role s = elim (UrlService.get_stats store now user_id role s) [
    | ok stats ↦ json 200 (statistics stats)
    | err e ↦ write_error 500 "STATS_FAILED" "Failed to load statistics"
  ]

abbrev pub health : Response
health = json 200 (service_status "ok" "goshorty")

-- `ping` is the store's answer within the two seconds, where the store can be asked.
abbrev pub ready : Option Bool → Response
ready none = json 200 (service_status "ready" "goshorty")
ready (some answers) =
    if answers
    then json 200 (service_status "ready" "goshorty")
    else json 503 (service_status "not_ready" "goshorty")
