-- ===== src/UrlStore/Listed.antt =====
-- A listing is determined by what stands under the codes: by nothing else of a store's state.
use goshorty.Prelude.{
  ◌≡◌, refl, ap, sym, ◌∙◌, true, String, List, [], ◌∷◌, some, arith, any, subst, str_eq, str_eq_iff,
  Bool-cases, inl, inr,
}
use goshorty.Prelude.Int.{ℤ}
use goshorty.Go.Sort.{StrictOrder}
use goshorty.Go.Sort.Same.{In, All-In, sorted_unique}
use goshorty.Models.{UrlData}
use goshorty.UrlStore.{StoreModel, IsListing}

any-In :
    (code : String) (urls : List UrlData)
    → any (λ v. str_eq v.short_code code) urls ≡ true
    → (u : UrlData) × In u urls × (u.short_code ≡ code)
any-In code [] h = absurd (ground arith)
any-In code (u ∷ us) h = elim (Bool-cases (str_eq u.short_code code)) [
  | inl here ↦ (u, inl refl, (str_eq_iff u.short_code code).0 here)
  | inr other ↦ let (v, k, e) = any-In code us (ground (arith, other)) in (v, inr k, e)
]

module _ {E S : Type 0} (model : StoreModel E S) (order : StrictOrder model.before) (now : ℤ)
    (user_id role : String) (s s' : S)
    (same : (code : String) → model.view now s' code ≡ model.view now s code) where
  Listed-In :
      (urls urls' : List UrlData)
      → IsListing model now user_id role s urls
      → IsListing model now user_id role s' urls'
      → (u : UrlData) → In u urls
      → In u urls'
  Listed-In urls urls' l l' u k =
      let shown = All-In _ urls l.shown u k in
      let (v, k', e) =
        any-In u.short_code urls' (l'.complete u (same u.short_code ∙ shown.0) shown.1) in
      let shown' = All-In _ urls' l'.shown v k' in
      let found : some v ≡ some u =
        sym shown'.0 ∙ ap (model.view now s') e ∙ same u.short_code ∙ shown.0 in
      let is_u : v ≡ u = ground (arith, found) in subst (λ w. In w urls') is_u k'

module _ {E S : Type 0} (model : StoreModel E S) (order : StrictOrder model.before) where
  -- Two states in which each code stands for the same URL have the same listing.
  pub listing_unique :
      (now : ℤ) (user_id role : String) (s s' : S)
      → ((code : String) → model.view now s' code ≡ model.view now s code)
      → (urls urls' : List UrlData) → IsListing model now user_id role s urls
      → IsListing model now user_id role s' urls'
      → urls ≡ urls'
  listing_unique now user_id role s s' same urls urls' l l' =
      sorted_unique model.before order urls urls' l.sorted l'.sorted
        (Listed-In model order now user_id role s s' same urls urls' l l')
        (Listed-In model order now user_id role s' s (λ code. sym (same code)) urls' urls l' l)
