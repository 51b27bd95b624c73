-- ===== src/Postgres/Listed.antt =====
-- What the listings of storage/postgres.go show, against what stands under the codes.
use goshorty.Prelude.{
  ◌≡◌, ◌||◌, ◌∙◌, Bool, true, false, String, List, [], ◌∷◌, some, arith, All, All-zip, All-keep_if,
  any, keep_if, str_eq, str_eq_iff, str_eq_refl, Bool-cases, inl, inr,
}
use goshorty.Prelude.Int.{ℤ}
use goshorty.Go.Sort.{All-slice_stable}
use goshorty.Go.Sort.Filtered.{any-slice_stable}
use goshorty.Models.{UrlData, role_admin}
use goshorty.Postgres.{Tables, first_where}
use goshorty.Postgres.Urls.{has_code, is_live, in_scope, listed_before}
use goshorty.Postgres.View.{view, UniqueCodes}
use goshorty.Postgres.Pages.{listing}

module _ (now : ℤ) (user_id role : String) where
  abbrev may_list : UrlData → Bool
  may_list u = str_eq role role_admin || str_eq u.created_by user_id

  abbrev IsShown : List UrlData → UrlData → Type 0
  IsShown rows u = (first_where (is_live now u.short_code) rows ≡ some u) × (may_list u ≡ true)

  in_scope-IsShown :
      (rows : List UrlData)
      → UniqueCodes rows
      → All (IsShown rows) (keep_if (in_scope now user_id role) rows)
  unfolding first_where
  in_scope-IsShown [] u = tt
  in_scope-IsShown (r ∷ rs) u =
      let scope = in_scope now user_id role in
      let others = All-keep_if (λ q. has_code r.short_code q ≡ false) scope rs u.0 in
      let rest =
        All-zip (IsShown rs) (λ q. has_code r.short_code q ≡ false) (IsShown (r ∷ rs))
          (λ q shown other. ground (
            arith,
            shown,
            other,
            str_eq_iff r.short_code q.short_code,
            str_eq_iff q.short_code r.short_code,
          ))
          (keep_if scope rs) (in_scope-IsShown rs u.1) others in
      ground (arith, rest, str_eq_refl r.short_code)

  in_scope-any :
      (u : UrlData) (rows : List UrlData)
      → first_where (is_live now u.short_code) rows ≡ some u
      → may_list u ≡ true
      → any (λ v. str_eq v.short_code u.short_code) (keep_if (in_scope now user_id role) rows)
        ≡ true
  unfolding first_where
  in_scope-any u [] h may = absurd (ground arith)
  in_scope-any u (r ∷ rs) h may = elim (Bool-cases (is_live now u.short_code r)) [
    | inr other ↦ ground (arith, other, in_scope-any u rs)
    | inl here ↦
        let same : r ≡ u = ground (arith, here, h) in
        let allowed : may_list r ≡ true = rw same may in ground (arith, here, allowed)
  ]

  module _ (precedes : String → String → Bool) (tables : Tables) where
    pub listing-shown :
        UniqueCodes tables.urls
        → All
            (λ u. (view now tables u.short_code ≡ some u) × (may_list u ≡ true))
            (listing precedes now user_id role tables)
    listing-shown unique =
        All-slice_stable (IsShown tables.urls) (listed_before precedes)
          (keep_if (in_scope now user_id role) tables.urls) (in_scope-IsShown tables.urls unique)

    pub listing_complete :
        (u : UrlData)
        → view now tables u.short_code ≡ some u
        → may_list u ≡ true
        → any (λ v. str_eq v.short_code u.short_code) (listing precedes now user_id role tables)
          ≡ true
    listing_complete u h may =
        any-slice_stable (listed_before precedes) (λ v. str_eq v.short_code u.short_code)
          (keep_if (in_scope now user_id role) tables.urls)
        ∙ in_scope-any u tables.urls h may
