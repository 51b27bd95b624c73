-- ===== src/Postgres/Pages.antt =====
-- The pages of `ListURLs` and `ListUsers` of storage/postgres.go, which ask for one row more than a page
-- has, against what a page is.
use goshorty.Prelude.{
  ℕ, zero, suc, ◌+◌, String, ◌≡◌, refl, ap, sym, ◌∙◌, ◌⊎◌, All-imp, All-keep_if, Bool, true, false,
  ◌&&◌, List, [], ◌∷◌, ok, arith, ltb, length, take, length-take, keep_if, str_eq, if◌then◌else◌,
  Bool-cases, inl, inr, str_lt, str_eq_iff,
}
use goshorty.Prelude.Int.{ℤ}
use goshorty.Paging.{ListResult, page_of}
use goshorty.Prelude.Text.{str_lt_asymm, str_lt_trans, str_lt_total}
use goshorty.Go.Sort.{slice_stable, StrictOrder, Apart, Distinct}
use goshorty.Go.Sort.Same.{length-slice_stable}
use goshorty.Go.Sort.Filtered.{keep_if-slice_stable}
use goshorty.Postgres.View.{UniqueCodes}
use goshorty.Models.{UrlData, UrlCursor}
use goshorty.Postgres.{Tables, answered}
use goshorty.Postgres.Urls.{has_code, in_scope, listed_before, past, list_urls}

module _ {A : Type 0} where
  take-take : (limit : ℕ) (xs : List A) → take limit (take (suc limit) xs) ≡ take limit xs
  take-take zero xs = refl
  take-take (suc limit) [] = refl
  take-take (suc limit) (x ∷ xs) = ap (◌∷◌ x) (take-take limit xs)

  take-short :
      (limit : ℕ) (xs : List A)
      → ltb limit (length xs) ≡ false
      → take (suc limit) xs ≡ take limit xs
  take-short zero [] h = refl
  take-short zero (x ∷ xs) h = absurd (ground arith)
  take-short (suc limit) [] h = refl
  take-short (suc limit) (x ∷ xs) h = ap (◌∷◌ x) (take-short limit xs (ground arith))

  -- `limit + 1` rows of those that remain tell whether there are more.
  pub peeked :
      (total limit : ℕ) (rest : List A)
      → let rows = take (limit + 1) rest in
        let page : ListResult A = record {
          items = if ltb limit (length rows) then take limit rows else rows;
          total = total;
          has_more = ltb limit (length rows);
        } in
        page ≡ page_of total limit rest
  peeked total limit rest =
      let size = length-take (suc limit) rest in
      let one_more = next limit in
      let tested : ltb limit (length (take (suc limit) rest)) ≡ ltb limit (length rest) =
        ground (arith, size) in
      elim (Bool-cases (ltb limit (length rest))) [
        | inl more ↦ rw (one_more, tested, more, take-take limit rest) refl
        | inr last ↦ rw (one_more, tested, last, take-short limit rest last) refl
      ]
    where
      next : (n : ℕ) → n + 1 ≡ suc n
      next n = omega arith

-- The rows that a caller may list, in the order of the list.
abbrev pub listing : (String → String → Bool) → ℤ → String → String → Tables → List UrlData
listing precedes now user_id role tables =
    slice_stable (listed_before precedes) (keep_if (in_scope now user_id role) tables.urls)

-- What the database promises of the order of two texts.
pub record IsCollation (precedes : String → String → Bool) : Type 0 where
  pub asymm : (s t : String) → precedes s t ≡ true → precedes t s ≡ false
  pub trans : (s t u : String) → precedes s t ≡ true → precedes t u ≡ true → precedes s u ≡ true
  pub total : (s t : String) → str_eq s t ≡ false → (precedes s t ≡ true) ⊎ (precedes t s ≡ true)

pub by_bytes-IsCollation : IsCollation str_lt
by_bytes-IsCollation = record {
  asymm = str_lt_asymm;
  trans = str_lt_trans;
  total = λ s t other. elim (Bool-cases (str_lt s t)) [
    | inl e ↦ inl e
    | inr e ↦ elim (Bool-cases (str_lt t s)) [
      | inl f ↦ inr f
      | inr f ↦ absurd (ground (arith, other, str_eq_iff s t, str_lt_total s t e f))
    ]
  ];
}

module _ (precedes : String → String → Bool) (collation : IsCollation precedes) where
  listed_before-asymm :
      (a b : UrlData) → listed_before precedes a b ≡ true → listed_before precedes b a ≡ false
  listed_before-asymm a b h = ground (arith, collation.asymm a.short_code b.short_code)

  listed_before_trans :
      (a b c : UrlData)
      → listed_before precedes a b ≡ true
      → listed_before precedes b c ≡ true
      → listed_before precedes a c ≡ true
  listed_before_trans a b c h k =
      ground (arith, collation.trans a.short_code b.short_code c.short_code)

  pub listed_before-StrictOrder : StrictOrder (listed_before precedes)
  listed_before-StrictOrder = record { asymm = listed_before-asymm; trans = listed_before_trans }

  Apart-listed_before :
      (a b : UrlData) → has_code a.short_code b ≡ false → Apart (listed_before precedes) a b
  Apart-listed_before a b h = elim (collation.total b.short_code a.short_code h) [
    | inl e ↦ ground (arith, e)
    | inr e ↦ ground (arith, e)
  ]

  pub kept-Distinct :
      (p : UrlData → Bool) (rows : List UrlData)
      → UniqueCodes rows
      → Distinct (listed_before precedes) (keep_if p rows)
  kept-Distinct p [] u = tt
  kept-Distinct p (r ∷ rs) u =
      let apart =
        All-imp (λ q. has_code r.short_code q ≡ false) (Apart (listed_before precedes) r)
          (Apart-listed_before r) rs u.0 in
      let kept = All-keep_if (Apart (listed_before precedes) r) p rs apart in
      ground (arith, kept, kept-Distinct p rs u.1)

  keep_if-and :
      (p q : UrlData → Bool) (rows : List UrlData)
      → keep_if (λ r. p r && q r) rows ≡ keep_if q (keep_if p rows)
  keep_if-and p q [] = refl
  keep_if-and p q (r ∷ rs) = ground (arith, keep_if-and p q rs)

  -- `ListURLs` answers the first `limit` rows after the cursor, of the rows that the caller may see in
  -- the order of the list, by the statement for the page, how many there are in all, by the statement
  -- for the count, and whether more remain after this page. (Codes are unique at the former, and the
  -- collation orders any two texts.)
  pub list_urls-page_of :
      (stamp : ℤ → ℤ) (now later : ℤ) (user_id role : String) (cursor : UrlCursor) (limit : ℕ)
      (tables between : Tables)
      → UniqueCodes between.urls
      → let counted = listing precedes now user_id role tables in
        let rows = listing precedes later user_id role between in
        list_urls stamp precedes answered now later user_id role cursor limit tables between
        ≡ ok (page_of (length counted) limit (keep_if (past stamp precedes cursor) rows))
  unfolding list_urls
  list_urls-page_of stamp now later user_id role cursor limit tables between unique =
      let less = listed_before precedes in
      let p = in_scope later user_id role in
      let counted = keep_if (in_scope now user_id role) tables.urls in
      let q = past stamp precedes cursor in
      let visible = keep_if p between.urls in
      let sorted_after =
        keep_if-slice_stable less listed_before-StrictOrder q visible
          (kept-Distinct p between.urls unique) in
      let split = ap (slice_stable less) (keep_if-and p q between.urls) ∙ sym sorted_after in
      let size = length-slice_stable less counted in
      ap ok (
        peeked (length counted) limit (slice_stable less (keep_if (λ r. p r && q r) between.urls))
        ∙ ap (page_of (length counted) limit) split
        ∙ ap (λ n. page_of n limit (keep_if q (slice_stable less visible))) (sym size))
