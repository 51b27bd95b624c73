-- ===== src/UrlService/Create.antt =====
-- `CreateShortURL` of services/url_service.go, over a store with a contract.
use goshorty.Go.Url.{ParsedUrl}
use goshorty.Prelude.{
  ◌||◌, ◌⊎◌, ℕ, ◌<◌, false, String, ◌≡◌, refl, ap, ◌∙◌, true, Option, Result, ok, err, arith,
  str_eq, if◌then◌else◌, is_some, Bool-cases, inl, inr,
}
use goshorty.Config.{Config}
use goshorty.Random.{InRange}
use goshorty.Models.{ShortenRequest, ShortenResponse, UrlData}
use goshorty.Storage.{storage_failed}
use goshorty.UrlStore.{UrlStore, StoreModel, UrlStoreLaws, SameView}
use goshorty.UrlService.{
  ServiceError, invalid_url, url_required, url_not_allowed, code_taken, not_allocated, store_error,
  Entropy, is_rejected, new_url, response_of, max_attempts, reserve_custom, reserve_random, respond,
  create_short_url,
}
use goshorty.UrlService.Reserve.{
  drawn_code, Filed, Lost, Reserved, SomeFree, reserve_custom-Reserved, reserve_random-Reserved,
  reserve_random-allocated,
}

module _ {E S : Type 0} (store : UrlStore E S) (model : StoreModel E S)
    (laws : UrlStoreLaws model store) where
  open model use {view, time}

  module _ (config : Config) (parse_url : String → Option ParsedUrl) (entropy : Entropy E)
      (req : ShortenRequest) (user_id : String) where
    -- Why `CreateShortURL` can fail: a URL that is no http or https URL with a host, a custom code
    -- that is live, or no free code in 100 attempts.
    abbrev pub Why : S → ServiceError → Type 0
    Why s e =
        ((e ≡ invalid_url (if str_eq req.url "" then url_required else url_not_allowed))
          × ((str_eq req.url "" || is_rejected (parse_url req.url)) ≡ true))
        ⊎ ((e ≡ code_taken req.custom_code)
            × (is_some (view (time (entropy.clock 0)) s req.custom_code) ≡ true))
        ⊎ ((e ≡ not_allocated)
            × (str_eq req.custom_code "" ≡ true)
            × ¬ SomeFree store model laws entropy max_attempts 0 s)

    -- The request's URL, with its lifetime, creator and time, under some code.
    abbrev pub IsNew : UrlData → Type 0
    IsNew u = u ≡ record (new_url config entropy req user_id) { short_code = u.short_code }

    -- The code of an attempt: the custom code, at the only one, or the one drawn for it, of 100 at most.
    abbrev pub IsPicked : ℕ → String → Type 0
    IsPicked i code =
        ((str_eq req.custom_code "" ≡ false) × (i ≡ 0) × (code ≡ req.custom_code))
        ⊎ ((str_eq req.custom_code "" ≡ true)
            × (i < max_attempts)
            × (code ≡ drawn_code store model laws entropy i))

    abbrev pub Outcome : S → Result ServiceError ShortenResponse × S → Type 0
    Outcome s (ok resp, s') =
        (u : UrlData) × IsNew u
        × (resp ≡ response_of config u)
        × Filed store model laws entropy IsPicked u s s'
    Outcome s (err e, s') =
        (Why s e × SameView model s s')
        ⊎ ((e ≡ store_error storage_failed)
            × Lost store model laws entropy IsPicked (new_url config entropy req user_id) s s')

    respond-Outcome :
        (s : S) (r : Result ServiceError UrlData × S)
        → Reserved store model laws entropy IsPicked
            (Why s)
            (new_url config entropy req user_id)
            s
            r
        → Outcome s (respond store config parse_url r)
    unfolding respond
    respond-Outcome s (ok u, s') (e, f) = (u, e, refl, f)
    respond-Outcome s (err e, s') h = h

    Reserved-why :
        (P Q : ServiceError → Type 0) (u : UrlData) (s : S) (r : Result ServiceError UrlData × S)
        → ((e : ServiceError) → r.0 ≡ err e → P e → Q e)
        → Reserved store model laws entropy IsPicked P u s r
        → Reserved store model laws entropy IsPicked Q u s r
    Reserved-why P Q u s (ok u', s') f h = h
    Reserved-why P Q u s (err e, s') f (inl (why, same)) = inl (f e refl why, same)
    Reserved-why P Q u s (err e, s') f (inr lost) = inr lost

    absent_or :
        str_eq req.url "" ≡ true → (str_eq req.url "" || is_rejected (parse_url req.url)) ≡ true
    absent_or e = rw e refl

    rejected_or :
        is_rejected (parse_url req.url) ≡ true
        → (str_eq req.url "" || is_rejected (parse_url req.url)) ≡ true
    rejected_or r = elim (Bool-cases (str_eq req.url "")) [ inl e ↦ rw e refl | inr e ↦ rw e r ]

    random-Why :
        (s : S)
        → ((i : ℕ) → InRange (entropy.code_draws i))
        → str_eq req.custom_code "" ≡ true
        → (e : ServiceError)
        → (reserve_random store entropy max_attempts 0 (new_url config entropy req user_id) s).0
          ≡ err e
        → e ≡ not_allocated
        → Why s e
    random-Why s draws random e failed why = inr (
        inr (
          why,
          random,
          λ some_free.
              reserve_random-allocated store model laws entropy draws max_attempts 0
                (new_url config entropy req user_id) s some_free (failed ∙ ap err why),
        ))

    -- `CreateShortURL` files the request's URL under the custom code of the request, or else under the code
    -- drawn for one of its 100 attempts, which was free at the time of that call of the store, and answers
    -- it; or it fails for one of the three reasons and changes nothing that a client can see; or it
    -- answers the store's error, after an attempt at which the store did not take the URL, with nothing
    -- changed, or was down, with nothing changed but that URL filed at most. (Nothing
    -- comes between the attempts, and the drawn numbers are in range.)
    pub create_short_url-Outcome :
        ((i : ℕ) → InRange (entropy.code_draws i))
        → (s : S) → Outcome s (create_short_url store config parse_url entropy req user_id s)
    unfolding create_short_url
    create_short_url-Outcome draws s =
        let u = new_url config entropy req user_id in
        let absent = str_eq req.url "" in
        let rejected = is_rejected (parse_url req.url) in
        elim (Bool-cases absent) [
          | inl e ↦
              rw (e, create_short_url) (inl (inl (ground (arith, e), absent_or e), λ t j. refl))
          | inr e ↦ elim (Bool-cases rejected) [
            | inl r ↦
                rw (e, r, create_short_url)
                  (inl (inl (ground (arith, e), rejected_or r), λ t j. refl))
            | inr r ↦ elim (Bool-cases (str_eq req.custom_code "")) [
              | inl random ↦
                  let reserved =
                    reserve_random-Reserved store model laws entropy IsPicked max_attempts draws
                      (λ i lt. inr (random, lt, refl)) max_attempts 0 (omega arith) u s in
                  rw (e, r, random, create_short_url)
                    (respond-Outcome s (reserve_random store entropy max_attempts 0 u s) (
                      Reserved-why (λ e. e ≡ not_allocated) (Why s) u s
                        (reserve_random store entropy max_attempts 0 u s)
                        (random-Why s draws random) reserved))
              | inr custom ↦
                  rw (e, r, custom, create_short_url)
                    (respond-Outcome s (reserve_custom store entropy req.custom_code u s) (
                      Reserved-why _ (Why s) u s (reserve_custom store entropy req.custom_code u s)
                        (λ err_ failed why. inr (inl why))
                        (reserve_custom-Reserved store model laws entropy IsPicked req.custom_code u
                          s custom (inl (custom, refl, refl)))))
            ]
          ]
        ]
