-- ===== src/Postgres/Cases.antt =====
-- The calls that change `urls` in storage/postgres.go, as a client sees them, by what becomes of them.
use goshorty.Prelude.{
  ℕ, suc, ◌≤◌, String, ◌≡◌, ◌≢◌, refl, ap, Bool, true, ◌⊎◌, inl, inr, Option, none, some, List, [],
  ◌∷◌, ok, err, arith, str_eq, str_eq_iff, if◌then◌else◌, is_some, Option-cases, length, keep_if,
}
use goshorty.Prelude.Int.{ℤ, ◌≤ℤ◌}
use goshorty.Paging.{page_of}
use goshorty.Models.{UrlData, UrlCursor}
use goshorty.Storage.{key_not_found, key_exists, storage_failed}
use goshorty.Storage.View.{found_or_missing}
use goshorty.Postgres.{Tables, Fate, answered, answer_lost, not_run, first_where, delete_where}
use goshorty.Postgres.Urls.{
  is_live, scan_url, past, set_if_absent, get, delete_key, get_and_increment, list_urls, run_delete,
  one_visit, bigint_bound,
}
use goshorty.Postgres.View
use goshorty.Postgres.View.{view, UniqueCodes}
use goshorty.Postgres.Visits
use goshorty.Postgres.Pages.{IsCollation, listing, list_urls-page_of}

-- What the three statements that change `urls` do to the tables, whatever becomes of the call.
pub set_if_absent-cases :
    (stamp : ℤ → ℤ) (fate : Fate) (now : ℤ) (u : UrlData) (tables : Tables)
    → UniqueCodes tables.urls
    → let (answer, after) = set_if_absent stamp fate now u.short_code u tables in
      ((answer ≡ ok tt) × View.IsFiledRow stamp now u.short_code u tables after)
      ⊎ ((answer ≡ err (key_exists u.short_code))
          × (is_some (view now tables u.short_code) ≡ true)
          × (after ≡ tables))
      ⊎ ((answer ≡ err storage_failed)
          × ((View.Refuses u tables × (after ≡ tables))
              ⊎ ((fate ≢ answered)
                  × ((after ≡ tables) ⊎ View.IsFiledRow stamp now u.short_code u tables after))))
unfolding set_if_absent
set_if_absent-cases stamp answered now u tables unique =
    elim (View.run_set-Outcome stamp now u.short_code u tables unique) [
      | inl done ↦ inl done
      | inr (inl taken) ↦ inr (inl taken)
      | inr (inr (answer, why, same)) ↦ inr (inr (answer, inl (why, same)))
    ]
set_if_absent-cases stamp answer_lost now u tables unique =
    let run = View.run_set-Outcome stamp now u.short_code u tables unique in
    inr (
      inr (
        refl,
        inr (λ h. ground (arith, h), View.lost-Outcome stamp now u.short_code u tables _ run),
      ))
set_if_absent-cases stamp not_run now u tables unique =
    inr (inr (refl, inr (λ h. ground (arith, h), inl refl)))

pub get_and_increment-cases :
    (fate : Fate) (now : ℤ) (code : String) (tables : Tables)
    → UniqueCodes tables.urls
    → let (answer, after) = get_and_increment fate now code tables in
      ((old : UrlData) × (answer ≡ ok (one_visit old)) × Visits.IsCounted now code tables after old)
      ⊎ ((answer ≡ err key_not_found) × (view now tables code ≡ none) × (after ≡ tables))
      ⊎ ((answer ≡ err storage_failed)
          × (((old : UrlData) × (view now tables code ≡ some old)
                × (bigint_bound ≤ suc old.visits)
                × (after ≡ tables))
              ⊎ ((fate ≢ answered)
                  × ((after ≡ tables)
                      ⊎ ((old : UrlData) × Visits.IsCounted now code tables after old)))))
unfolding get_and_increment
get_and_increment-cases answered now code tables unique =
    elim (Visits.run_increment-Outcome now code tables unique) [
      | inl done ↦ inl done
      | inr (inl missing) ↦ inr (inl missing)
      | inr (inr (answer, full)) ↦ inr (inr (answer, inl full))
    ]
get_and_increment-cases answer_lost now code tables unique =
    let run = Visits.run_increment-Outcome now code tables unique in
    inr (inr (refl, inr (λ h. ground (arith, h), Visits.lost_visit now code tables unique _ run)))
get_and_increment-cases not_run now code tables unique =
    inr (inr (refl, inr (λ h. ground (arith, h), inl refl)))

-- A row that is live at `now` is deleted, and one that is not is not live later.
delete_live-view :
    (now t : ℤ) (code j : String) (rows : List UrlData)
    → now ≤ℤ t
    → first_where (is_live t j) (delete_where (is_live now code) rows)
      ≡ (if str_eq code j then none else first_where (is_live t j) rows)
unfolding first_where
delete_live-view now t code j [] le = ground arith
delete_live-view now t code j (r ∷ rs) le = ground (
  arith,
  delete_live-view now t code j rs le,
  str_eq_iff code j,
  str_eq_iff r.short_code code,
  str_eq_iff r.short_code j,
)

dead_later :
    (now t : ℤ) (code : String) (rows : List UrlData)
    → now ≤ℤ t
    → first_where (is_live now code) rows ≡ none
    → first_where (is_live t code) rows ≡ none
unfolding first_where
dead_later now t code [] le h = refl
dead_later now t code (r ∷ rs) le h = ground (arith, dead_later now t code rs le)

abbrev pub GoneAfter : ℤ → String → Tables → Tables → Type 0
GoneAfter now code tables after =
    (t : ℤ) (j : String)
    → now ≤ℤ t
    → view t after j ≡ (if str_eq code j then none else view t tables j)

run_delete-cases :
    (now : ℤ) (code : String) (tables : Tables)
    → let (answer, after) = run_delete now code tables in
      GoneAfter now code tables after
      × ((answer ≡ ok tt) ⊎ ((answer ≡ err key_not_found) × (view now tables code ≡ none)))
unfolding run_delete
run_delete-cases now code tables = elim (Option-cases (view now tables code)) [
  | inr (old, h) ↦
      rw (run_delete, h) (λ t j le. delete_live-view now t code j tables.urls le, inl refl)
  | inl h ↦
      rw (run_delete, h)
        (
          λ t j le. ground (
            arith,
            dead_later now t code tables.urls le h,
            ap (λ c. view t tables c),
            str_eq_iff code j,
          ),
          inr (refl, refl),
        )
]

pub delete_key-cases :
    (fate : Fate) (now : ℤ) (code : String) (tables : Tables)
    → let (answer, after) = delete_key fate now code tables in
      ((answer ≡ ok tt) × GoneAfter now code tables after)
      ⊎ ((answer ≡ err key_not_found)
          × (view now tables code ≡ none)
          × GoneAfter now code tables after)
      ⊎ ((answer ≡ err storage_failed)
          × (fate ≢ answered)
          × ((after ≡ tables) ⊎ GoneAfter now code tables after))
unfolding delete_key
delete_key-cases answered now code tables =
    let (gone, either) = run_delete-cases now code tables in
    elim either [
      | inl answer ↦ inl (answer, gone)
      | inr (answer, missing) ↦ inr (inl (answer, missing, gone))
    ]
delete_key-cases answer_lost now code tables =
    inr (inr (refl, λ h. ground (arith, h), inr (run_delete-cases now code tables).0))
delete_key-cases not_run now code tables = inr (inr (refl, λ h. ground (arith, h), inl refl))

pub get-cases :
    (fate : Fate) (now : ℤ) (code : String) (tables : Tables)
    → let answer = get fate now code tables in
      (answer ≡ scan_url (view now tables code))
      ⊎ ((answer ≡ err storage_failed) × (fate ≢ answered))
unfolding get
get-cases answered now code tables = inl refl
get-cases answer_lost now code tables = inr (refl, λ h. ground (arith, h))
get-cases not_run now code tables = inr (refl, λ h. ground (arith, h))

pub scan-eq : (o : Option UrlData) → scan_url o ≡ found_or_missing o
scan-eq none = refl
scan-eq (some u) = refl

pub list_urls-cases :
    (stamp : ℤ → ℤ) (precedes : String → String → Bool) (collation : IsCollation precedes)
    (fate : Fate) (now later : ℤ) (user_id role : String) (cursor : UrlCursor) (limit : ℕ)
    (tables between : Tables)
    → UniqueCodes between.urls
    → let counted = listing precedes now user_id role tables in
      let urls = listing precedes later user_id role between in
      let answer =
        list_urls stamp precedes fate now later user_id role cursor limit tables between in
      (answer ≡ ok (page_of (length counted) limit (keep_if (past stamp precedes cursor) urls)))
      ⊎ ((answer ≡ err storage_failed) × (fate ≢ answered))
unfolding list_urls
list_urls-cases stamp precedes collation answered now later user_id role cursor limit tables between
      unique =
    inl (
      list_urls-page_of precedes collation stamp now later user_id role cursor limit tables between
        unique)
list_urls-cases stamp precedes collation answer_lost now later user_id role cursor limit tables
      between unique =
    inr (refl, λ h. ground (arith, h))
list_urls-cases stamp precedes collation not_run now later user_id role cursor limit tables between
      unique =
    inr (refl, λ h. ground (arith, h))
