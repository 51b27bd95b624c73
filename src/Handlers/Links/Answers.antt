-- ===== src/Handlers/Links/Answers.antt =====
-- The answers of handlers/handler.go, from what stands under a code.
use goshorty.Go.Url.{ParsedUrl}
use goshorty.Prelude.{
  ℕ, String, ◌≡◌, refl, ap, sym, ◌∙◌, true, false, ◌&&◌, Option, none, some, List, Result, ok, err,
  arith, str_eq, str_eq_refl, if◌then◌else◌, is_some, Result-cases, inl, inr,
}
use goshorty.Prelude.Int.{ℤ, ◌≤ℤ◌}
use goshorty.Config.{Config}
use goshorty.Models.{UrlData, ShortenRequest, ShortenResponse}
use goshorty.Random.{InRange}
use goshorty.UrlStore.{UrlStore, StoreModel, UrlStoreLaws, stored}
use goshorty.UrlService
use goshorty.UrlService.{
  ServiceError, forbidden, url_not_found, invalid_cursor, invalid_url, code_taken, not_allocated,
  encode_failed, store_error, Entropy, new_url, response_of,
}
use goshorty.UrlService.Reserve.{Filed}
use goshorty.UrlService.Create.{Outcome, IsPicked, create_short_url-Outcome}
use goshorty.UrlService.Access.{
  shown_to, link_answer, redirects, IsUp, VisitAnswered, get_url_info-view, get_original_url-view,
  redirects-link, delete_url-answer, delete_url-view,
}
use goshorty.Handlers.{link_created, url_info, url_deleted, Response, json, redirect}
use goshorty.Handlers.Links.{
  create_short_url, creation_error, redirect_link, get_url_info, delete_url, not_found,
}

abbrev pub info_response : Option UrlData → Response
info_response none = not_found
info_response (some u) = json 200 (url_info u)

abbrev pub deletion_response : String → Option UrlData → Response
deletion_response code none = not_found
deletion_response code (some u) = json 200 (url_deleted "URL deleted successfully" code)

abbrev pub link_response : Option UrlData → Response
link_response none = not_found
link_response (some u) = redirect 302 u.original_url

module _ {E S : Type 0} (store : UrlStore E S) (model : StoreModel E S)
    (laws : UrlStoreLaws model store) where
  open model use {view, time, alive, round}

  pub get_url_info-Answer :
      (e : E) (code user_id role : String) (s : S)
      → IsUp store model laws e
      → str_eq code "" ≡ false
      → get_url_info store e code user_id role s
        ≡ info_response (shown_to user_id role (view (time e) s code))
  unfolding get_url_info
  get_url_info-Answer e code user_id role s up named =
      ground (arith, get_url_info-view store model laws e code user_id role s up)

  delete_url-Answer :
      (e later : E) (code user_id role : String) (s between : S)
      → IsUp store model laws e
      → IsUp store model laws later
      → str_eq code "" ≡ false
      → is_some (view (time e) s code) ≡ is_some (view (time later) between code)
      → (delete_url store e later code user_id role s between).0
        ≡ deletion_response code (shown_to user_id role (view (time e) s code))
  unfolding delete_url
  delete_url-Answer e later code user_id role s between up up' named same =
      ground
        (arith, delete_url-answer store model laws e later code user_id role s between up up' same)

  view-delete_url :
      (e later : E) (code user_id role : String) (s between : S) (t : ℤ) (j : String)
      → IsUp store model laws e
      → IsUp store model laws later
      → str_eq code "" ≡ false
      → time later ≤ℤ t
      → view t (delete_url store e later code user_id role s between).1 j ≡ (
          if is_some (shown_to user_id role (view (time e) s code)) && str_eq code j
          then none
          else view t between j)
  unfolding delete_url
  view-delete_url e later code user_id role s between t j up up' named le =
      ground
        (arith, delete_url-view store model laws e later code user_id role s between t j up up' le)

  pub redirect_link-Answer :
      (e : E) (code : String) (s : S)
      → VisitAnswered store model laws e code s
      → str_eq code "" ≡ false
      → (redirect_link store e code s).0 ≡ link_response (view (time e) s code)
  unfolding redirect_link
  redirect_link-Answer e code s up named =
      ground (arith, (get_original_url-view store model laws e code s up).0)

  -- Reading and deleting another user's link is answered as for a code with no link: 404 with one and
  -- the same body, and the deletion changes nothing. For its creator and for administrators, reading
  -- answers the link, and deleting answers 200 and removes what stands under the code by then. Between the
  -- two calls of the store in a deletion there may come any other requests, as long as there is a link
  -- under the code at the second one just where there was one at the first. (The code is not empty, and
  -- the store answers. What has changed is said against the state of the second call, from its time on.)
  pub links-AreHidden :
      (e later : E) (code user_id role : String) (s between : S)
      → IsUp store model laws e
      → IsUp store model laws later
      → str_eq code "" ≡ false
      → is_some (view (time e) s code) ≡ is_some (view (time later) between code)
      → let seen = shown_to user_id role (view (time e) s code) in
        let (answer, s') = delete_url store e later code user_id role s between in
        (get_url_info store e code user_id role s ≡ info_response seen)
        × (answer ≡ deletion_response code seen)
        × ((t : ℤ) (j : String)
            → time later ≤ℤ t
            → view t s' j ≡ (if is_some seen && str_eq code j then none else view t between j))
  links-AreHidden e later code user_id role s between up up' named same = (
    get_url_info-Answer e code user_id role s up named,
    delete_url-Answer e later code user_id role s between up up' named same,
    λ t j le. view-delete_url e later code user_id role s between t j up up' named le,
  )

  -- The answer to a visit depends on where the link goes only.
  abbrev response_to : Result ServiceError String → Response
  response_to (ok original_url) = redirect 302 original_url
  response_to (err e) = not_found

  link_response-answer : (o : Option UrlData) → link_response o ≡ response_to (link_answer o)
  link_response-answer none = refl
  link_response-answer (some u) = refl

  follow-Filed :
      (entropy : Entropy E) (Picked : ℕ → String → Type 0) (u : UrlData) (s s' : S)
      (requests : List (E × String)) (e : E)
      → Filed store model laws entropy Picked u s s'
      → alive (time e) (round u.expires_at) ≡ true
      → let after = redirects store requests s' in
        VisitAnswered store model laws e u.short_code after
        → (redirect_link store e u.short_code after).0 ≡ redirect 302 u.original_url
  follow-Filed entropy Picked u s s' requests e f early up =
      let code = u.short_code in
      let there : view (time e) s' code ≡ some (stored model u) =
        ground (arith, f.is_filed.stands (time e) code, str_eq_refl code) in
      redirect_link-Answer e code (redirects store requests s') up f.has_code
      ∙ link_response-answer (view (time e) (redirects store requests s') code)
      ∙ ap response_to (redirects-link store model laws requests s' (time e) code)
      ∙ ap (λ o. response_to (link_answer o)) there

  module _ (config : Config) (parse_url : String → Option ParsedUrl) (entropy : Entropy E)
      (req : ShortenRequest) (user_id : String) where
    error-is_no_link :
        (e : ServiceError) (resp : ShortenResponse)
        → creation_error e ≡ json 201 (link_created resp)
        → ⊥
    error-is_no_link forbidden resp h = ground arith
    error-is_no_link url_not_found resp h = ground arith
    error-is_no_link invalid_cursor resp h = ground arith
    error-is_no_link (invalid_url message) resp h = ground arith
    error-is_no_link (code_taken code) resp h = ground arith
    error-is_no_link not_allocated resp h = ground arith
    error-is_no_link encode_failed resp h = ground arith
    error-is_no_link (store_error e) resp h = ground arith

    abbrev served : S → Result ServiceError ShortenResponse × S
    served s = UrlService.create_short_url store config parse_url entropy req user_id s

    -- What 201 is answered for.
    created_by_service :
        (s : S) (resp : ShortenResponse)
        → let (answer, s') = create_short_url store config parse_url entropy (some req) user_id s in
          answer ≡ json 201 (link_created resp) → ((served s).0 ≡ ok resp) × ((served s).1 ≡ s')
    unfolding create_short_url
    created_by_service s resp h = elim (Result-cases (served s).0) [
      | inl (r, e) ↦ (ground arith, ground arith)
      | inr (f, e) ↦ absurd (error-is_no_link f resp (ground arith))
    ]

    record IsFiled (s s' : S) (resp : ShortenResponse) : Type 0 where
      url : UrlData
      is_response : resp ≡ response_of config url
      is_requested : url.original_url ≡ req.url
      filed :
          Filed store model laws entropy
            (IsPicked store model laws config parse_url entropy req user_id)
            url
            s
            s'

    Outcome-IsFiled :
        (s : S) (resp : ShortenResponse) (r : Result ServiceError ShortenResponse × S)
        → Outcome store model laws config parse_url entropy req user_id s r
        → r.0 ≡ ok resp
        → IsFiled s r.1 resp
    Outcome-IsFiled s resp (ok resp', s') (u, is_new, is_response, filed) h = record {
      url = u;
      is_response = ground arith;
      is_requested = ap (λ (v : UrlData). v.original_url) is_new;
      filed = filed;
    }
    Outcome-IsFiled s resp (err e, s') o h = absurd (ground arith)

    follow-IsFiled :
        (s s' : S) (resp : ShortenResponse) (requests : List (E × String)) (e : E)
        → IsFiled s s' resp
        → alive (time e) (round resp.expires_at) ≡ true
        → let after = redirects store requests s' in
          VisitAnswered store model laws e resp.short_code after
          → (redirect_link store e resp.short_code after).0 ≡ redirect 302 req.url
    follow-IsFiled s s' resp requests e f early up =
        let code : resp.short_code ≡ f.url.short_code =
          ap (λ (r : ShortenResponse). r.short_code) f.is_response in
        let live : alive (time e) (round f.url.expires_at) ≡ true = rw f.is_response at early in
        rw code (
          follow-Filed entropy (IsPicked store model laws config parse_url entropy req user_id)
            f.url s s' requests e f.filed live (rw code at up)
          ∙ ap (redirect 302) f.is_requested)

    -- A link that was answered with 201 leads to the requested URL at every time at which the store takes
    -- it for live, whatever links have been followed in between, and whatever became of these calls. (The
    -- store answers the last one.)
    pub create-redirect :
        ((i : ℕ) → InRange (entropy.code_draws i))
        → (s : S) (resp : ShortenResponse)
        → let (answer, s') = create_short_url store config parse_url entropy (some req) user_id s in
          answer ≡ json 201 (link_created resp)
          → (requests : List (E × String)) (e : E) → alive (time e) (round resp.expires_at) ≡ true
          → let after = redirects store requests s' in
            VisitAnswered store model laws e resp.short_code after
            → (redirect_link store e resp.short_code after).0 ≡ redirect 302 req.url
    create-redirect draws s resp h requests e early up =
        let (answered, same) = created_by_service s resp h in
        let f =
          Outcome-IsFiled s resp (served s)
            (create_short_url-Outcome store model laws config parse_url entropy req user_id draws s)
            answered in
        rw (sym same) (follow-IsFiled s (served s).1 resp requests e f early (rw (sym same) at up))
