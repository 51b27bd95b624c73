-- ===== src/UrlService/SamePages.antt =====
-- The pages of services/url_service.go depend on what stands under the codes only.
use goshorty.Prelude.{
  ℕ, String, ◌≡◌, refl, ap, sym, ◌∙◌, List, Result, ok, length, inl, inr, Result-cases,
}
use goshorty.Prelude.Int.{ℤ}
use goshorty.Paging.{ListResult, page_of}
use goshorty.Models.{UrlData, UrlCursor}
use goshorty.Models.Cursor.{Json, Base64}
use goshorty.UrlStore.{UrlStore, StoreModel, UrlStoreLaws}
use goshorty.Storage.{StorageError}
use goshorty.UrlStore.Listed.{listing_unique}
use goshorty.UrlService.{ListOptions, list_urls, cursor_from, normalize_limit}

module _ {E S : Type 0} (store : UrlStore E S) (model : StoreModel E S)
    (laws : UrlStoreLaws model store) (e : E) (user_id role : String) (s s' : S)
    (valid : model.Valid s) (valid' : model.Valid s')
    (same : (code : String) → model.view (model.time e) s' code ≡ model.view (model.time e) s code)
    (same_between : (code : String)
      → model.view (model.later e) (model.between e s') code
        ≡ model.view (model.later e) (model.between e s) code)
    (up : model.IsDown e → ⊥) where
  same_listing :
      (t : ℤ) (r r' : S)
      → model.Valid r
      → model.Valid r'
      → ((code : String) → model.view t r' code ≡ model.view t r code)
      → model.listing t user_id role r ≡ model.listing t user_id role r'
  same_listing t r r' v v' same_view =
      listing_unique model laws.before-StrictOrder t user_id role r r' same_view
        (model.listing t user_id role r) (model.listing t user_id role r')
        (laws.listing-IsListing t user_id role r v) (laws.listing-IsListing t user_id role r' v')

  same_answer :
      (cursor : UrlCursor) (limit : ℕ)
      → store.list_urls e user_id role cursor limit s
        ≡ store.list_urls e user_id role cursor limit s'
  same_answer cursor limit = elim (laws.list_page e user_id role cursor limit s valid) [
    | inr (answer, down) ↦ absurd (up down)
    | inl answer ↦ elim (laws.list_page e user_id role cursor limit s' valid') [
      | inr (answer', down) ↦ absurd (up down)
      | inl answer' ↦
          let page : List UrlData → List UrlData → Result StorageError (ListResult UrlData) =
            λ counted_urls urls.
              ok (page_of (length counted_urls) limit (model.after cursor urls)) in
          let rest = model.listing (model.later e) user_id role (model.between e s) in
          let counted_urls' = model.listing (model.time e) user_id role s' in
          answer
          ∙ ap (λ urls. page urls rest) (same_listing (model.time e) s s' valid valid' same)
          ∙ ap (λ urls. page counted_urls' urls)
              (same_listing (model.later e) (model.between e s) (model.between e s')
                (laws.between-Valid e s valid) (laws.between-Valid e s' valid') same_between)
          ∙ sym answer'
    ]
  ]

  -- In two states in which each code stands for the same URL, `ListURLs` answers the same, whatever else
  -- differs in them, such as the order of the entries or entries that have expired. (The store answers.
  -- Where a call has two statements, this holds of the states that the second one meets too.)
  pub list_urls-same :
      (base64 : Base64) (json : Json UrlCursor) (opts : ListOptions)
      → list_urls store base64 json e user_id role opts s
        ≡ list_urls store base64 json e user_id role opts s'
  unfolding list_urls
  list_urls-same base64 json opts = elim (Result-cases (cursor_from base64 json opts.cursor)) [
    | inr (f, bad) ↦ rw (list_urls, bad) refl
    | inl (cursor, good) ↦
        rw (list_urls, good) (rw (same_answer cursor (normalize_limit opts.limit)) refl)
  ]
