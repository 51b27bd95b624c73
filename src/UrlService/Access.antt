-- ===== src/UrlService/Access.antt =====
-- Who may read, delete and follow a link: services/url_service.go over a store with a contract.
use goshorty.Prelude.{
  ℕ, zero, suc, String, ◌≡◌, ◌≢◌, refl, ◌&&◌, Option, none, some, List, [], ◌∷◌, Result, ok, err,
  arith, str_eq, str_eq_iff, if◌then◌else◌, is_some, ap, ◌∙◌, inl, inr,
}
use goshorty.Prelude.Int.{ℤ, ◌≤ℤ◌}
use goshorty.Models.{UrlData}
use goshorty.Storage.{storage_failed}
use goshorty.UrlStore.{UrlStore, StoreModel, UrlStoreLaws, visited}
use goshorty.UrlService.{
  ServiceError, forbidden, url_not_found, is_foreign, get_original_url, get_url_info, delete_url,
  delete_url,
}

-- A URL as its caller may see it: others' URLs look missing, except to an administrator.
abbrev pub shown_to : String → String → Option UrlData → Option UrlData
shown_to user_id role none = none
shown_to user_id role (some u) = if is_foreign user_id role u then none else some u

abbrev pub info_answer : Option UrlData → Result ServiceError UrlData
info_answer none = err url_not_found
info_answer (some u) = ok u

abbrev pub link_answer : Option UrlData → Result ServiceError String
link_answer none = err url_not_found
link_answer (some u) = ok u.original_url

-- What `DeleteURL` answers, from the URL that stands under the code.
abbrev pub deletion_answer : String → String → Option UrlData → Result ServiceError (Unit {0})
deletion_answer user_id role none = err url_not_found
deletion_answer user_id role (some u) = if is_foreign user_id role u then err forbidden else ok tt

abbrev pub repeat {ℓ} : {A : Type ℓ} → ℕ → (A → A) → A → A
repeat zero f a = a
repeat (suc n) f a = repeat n f (f a)

module _ {E S : Type 0} (store : UrlStore E S) where
  -- The redirects of a list of requests, one after the other.
  unfoldable pub redirects : List (E × String) → S → S
  redirects [] s = s
  redirects ((e, code) ∷ requests) s = redirects requests (get_original_url store e code s).1

module _ {E S : Type 0} (store : UrlStore E S) (model : StoreModel E S)
    (laws : UrlStoreLaws model store) where
  open model use {view, time, IsDown}

  -- The store answers the call.
  abbrev pub IsUp : E → Type 0
  IsUp e = IsDown e → ⊥

  abbrev pub VisitAnswered : E → String → S → Type 0
  VisitAnswered e code s = (store.get_and_increment e code s).0 ≢ err storage_failed

  -- `GetURLInfo` answers a live URL to its creator and to administrators; to anyone else it answers
  -- just what it answers for a code with no live URL.
  pub get_url_info-view :
      (e : E) (code user_id role : String) (s : S)
      → IsUp e
      → get_url_info store e code user_id role s
        ≡ info_answer (shown_to user_id role (view (time e) s code))
  unfolding get_url_info
  get_url_info-view e code user_id role s up = elim (laws.get-Outcome e code s) [
    | inl answer ↦ ground (arith, answer)
    | inr (answer, down) ↦ absurd (up down)
  ]

  link_answer-visited : (o : Option UrlData) → link_answer (visited model o) ≡ link_answer o
  link_answer-visited none = refl
  link_answer-visited (some u) = ap (λ (v : UrlData). ok v.original_url) (laws.counted_lem u)

  -- `GetOriginalURL` answers the link of the live URL, and counts the visit: that URL has one visit
  -- more, and no other URL changes. (The store answers.)
  pub get_original_url-view :
      (e : E) (code : String) (s : S)
      → VisitAnswered e code s
      → ((get_original_url store e code s).0 ≡ link_answer (view (time e) s code))
        × ((t : ℤ) (j : String)
            → view t (get_original_url store e code s).1 j ≡ (
                if is_some (view (time e) s code) && str_eq code j
                then visited model (view t s j)
                else view t s j))
  unfolding get_original_url
  get_original_url-view e code s up = elim (laws.visit-Outcome e code s) [
    | inl (old, found, answer, seen) ↦ (
      ground (arith, answer, found, link_answer-visited (some old)),
      λ t j. ground (arith, answer, found, seen t j),
    )
    | inr (inl (answer, missing, same)) ↦
        (ground (arith, answer, missing), λ t j. ground (arith, answer, missing, same t j))
    | inr (inr (answer, failed)) ↦ absurd (up answer)
  ]

  -- Whatever becomes of the call, no code leads elsewhere after it.
  get_original_url-link :
      (e : E) (code : String) (s : S) (t : ℤ) (j : String)
      → link_answer (view t (get_original_url store e code s).1 j) ≡ link_answer (view t s j)
  unfolding get_original_url
  get_original_url-link e code s t j =
      let same_link = link_answer-visited (view t s j) in
      elim (laws.visit-Outcome e code s) [
        | inl (old, found, answer, seen) ↦ ground (arith, answer, seen t j, same_link)
        | inr (inl (answer, missing, same)) ↦ ground (arith, answer, same t j)
        | inr (inr (answer, inl (old, found, full, same))) ↦ ground (arith, answer, same t j)
        | inr (inr (answer, inr (down, inl same))) ↦ ground (arith, answer, same t j)
        | inr (inr (answer, inr (down, inr (live, seen)))) ↦
            ground (arith, answer, seen t j, same_link)
      ]

  pub redirects-link :
      (requests : List (E × String)) (s : S) (t : ℤ) (j : String)
      → link_answer (view t (redirects store requests s) j) ≡ link_answer (view t s j)
  unfolding redirects
  redirects-link [] s t j = refl
  redirects-link ((e, code) ∷ requests) s t j =
      redirects-link requests (get_original_url store e code s).1 t j
      ∙ get_original_url-link e code s t j

  -- How many of the requests are for `j` while it is live.
  unfoldable pub hits : String → List (E × String) → S → ℕ
  hits j [] s = 0
  hits j ((e, code) ∷ requests) s =
      let more = hits j requests s in
      if str_eq code j && is_some (view (time e) s j) then suc more else more

  -- The store answers each of the requests.
  abbrev pub AllAnswered : List (E × String) → S → Type 0
  AllAnswered [] s = Unit
  AllAnswered ((e, code) ∷ requests) s =
      VisitAnswered e code s × AllAnswered requests (get_original_url store e code s).1

  is_some-visited : (o : Option UrlData) → is_some (visited model o) ≡ is_some o
  is_some-visited none = refl
  is_some-visited (some u) = refl

  hits-redirect :
      (j : String) (requests : List (E × String)) (e : E) (code : String) (s : S)
      → VisitAnswered e code s
      → hits j requests (get_original_url store e code s).1 ≡ hits j requests s
  unfolding hits
  hits-redirect j [] e code s up = refl
  hits-redirect j ((f, c) ∷ requests) e code s up = ground (
    arith,
    hits-redirect j requests e code s up,
    (get_original_url-view e code s up).1 (time f) j,
    is_some-visited (view (time f) s j),
  )

  view_same :
      (e : E) (code j : String) (s : S) → code ≡ j → view (time e) s code ≡ view (time e) s j
  view_same e code j s same = ap (view (time e) s) same

  -- After any redirects that the store has answered, each URL has one visit more for each request that
  -- met it live, and is otherwise as it was.
  pub redirects-view :
      (requests : List (E × String)) (s : S)
      → AllAnswered requests s
      → (t : ℤ) (j : String)
      → view t (redirects store requests s) j
        ≡ repeat (hits j requests s) (visited model) (view t s j)
  unfolding redirects hits
  redirects-view [] s up t j = refl
  redirects-view ((e, code) ∷ requests) s up t j =
      let first = (get_original_url-view e code s up.0).1 t j in
      let rest = redirects-view requests (get_original_url store e code s).1 up.1 t j in
      ground (
        arith,
        first,
        rest,
        hits-redirect j requests e code s up.0,
        str_eq_iff code j,
        view_same e code j s,
      )

  -- `DeleteURL` answers that there is no URL, that it is another user's, or that it is deleted, where
  -- the second call of the store meets a URL under the code just where the first one did. (The store
  -- answers.)
  pub delete_url-answer :
      (e later : E) (code user_id role : String) (s between : S)
      → IsUp e
      → IsUp later
      → is_some (view (time e) s code) ≡ is_some (view (time later) between code)
      → (delete_url store e later code user_id role s between).0
        ≡ deletion_answer user_id role (view (time e) s code)
  unfolding delete_url
  delete_url-answer e later code user_id role s between up up' same =
      elim (laws.get-Outcome e code s) [
        | inr (answer, down) ↦ absurd (up down)
        | inl got ↦ elim (laws.delete-Outcome later code between) [
          | inl (answer, gone) ↦ ground (arith, got, answer)
          | inr (inl (answer, missing, gone)) ↦ ground (arith, got, answer, missing, same)
          | inr (inr (answer, down, either)) ↦ absurd (up' down)
        ]
      ]

  -- The deletion trusts the `Get` before it: whatever other requests have done in between, where that
  -- `Get` showed the caller a URL, the URL that stands under the code by then is removed, whoever
  -- created it, and no other; otherwise nothing changes. (The store answers both calls. What is said is
  -- said of the time of the second one and later.)
  pub delete_url-view :
      (e later : E) (code user_id role : String) (s between : S) (t : ℤ) (j : String)
      → IsUp e
      → IsUp later
      → time later ≤ℤ t
      → view t (delete_url store e later code user_id role s between).1 j ≡ (
          if is_some (shown_to user_id role (view (time e) s code)) && str_eq code j
          then none
          else view t between j)
  unfolding delete_url
  delete_url-view e later code user_id role s between t j up up' le =
      elim (laws.get-Outcome e code s) [
        | inr (answer, down) ↦ absurd (up down)
        | inl got ↦ elim (laws.delete-Outcome later code between) [
          | inl (answer, gone) ↦ ground (arith, got, answer, gone t j le)
          | inr (inl (answer, missing, gone)) ↦ ground (arith, got, answer, gone t j le)
          | inr (inr (answer, down, either)) ↦ absurd (up' down)
        ]
      ]
