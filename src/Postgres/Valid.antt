-- ===== src/Postgres/Valid.antt =====
-- The constraint `UNIQUE (short_code)` and the rounding of times, through the statements of
-- storage/postgres.go on the table `urls`.
use goshorty.Prelude.{
  String, ◌≡◌, refl, sym, Bool, not, none, ◌∷◌, arith, str_eq_iff, All, All-keep_if, Option-cases,
  inl, inr,
}
use goshorty.Prelude.Int.{ℤ}
use goshorty.Models.{UrlData}
use goshorty.Storage.{storage_failed}
use goshorty.Postgres.{Tables, Fate, first_where, update_where, delete_where}
use goshorty.Postgres.Urls.{
  has_code, is_live, url_row, run_set, run_delete, run_increment, one_visit, set_if_absent,
  get_and_increment, delete_key,
}
use goshorty.Postgres.Unique.{conclude_lem, update-UniqueBy, delete-UniqueBy, All-update_where}
use goshorty.Postgres.View.{UniqueCodes, missing-Others}

-- What each row of `urls` keeps to: its code is no other row's, and its time of creation is one that
-- the database can keep.
pub record Valid (stamp : ℤ → ℤ) (tables : Tables) : Type 0 where
  pub unique : UniqueCodes tables.urls
  pub stamped : All (λ r. stamp r.created_at ≡ r.created_at) tables.urls

pub delete-Valid :
    (stamp : ℤ → ℤ) (p : UrlData → Bool) (tables : Tables)
    → Valid stamp tables
    → Valid stamp (record tables { urls = delete_where p tables.urls })
delete-Valid stamp p tables v = record {
  unique = delete-UniqueBy (λ r. r.short_code) p tables.urls v.unique;
  stamped =
      All-keep_if (λ r. stamp r.created_at ≡ r.created_at) (λ q. not (p q)) tables.urls v.stamped;
}

module _ (stamp : ℤ → ℤ) (idempotent : (t : ℤ) → stamp (stamp t) ≡ stamp t) where
  abbrev IsStamped : UrlData → Type 0
  IsStamped r = stamp r.created_at ≡ r.created_at

  pub run_set-Valid :
      (now : ℤ) (code : String) (u : UrlData) (tables : Tables)
      → Valid stamp tables
      → Valid stamp (run_set stamp now code u tables).1
  unfolding run_set
  run_set-Valid now code u tables v =
      let row = url_row stamp code u in
      let inserted : first_where (has_code code) tables.urls ≡ none
          → Valid stamp (record tables { urls = row ∷ tables.urls }) =
        λ h. record {
          unique = (missing-Others code tables.urls h, v.unique);
          stamped = (idempotent u.created_at, v.stamped);
        } in
      let updated : Valid stamp
          (record tables { urls = update_where (has_code code) (λ r. row) tables.urls }) =
        record {
          unique =
              update-UniqueBy (λ r. r.short_code) (has_code code) (λ r. row)
                (λ r hit. sym ((str_eq_iff r.short_code code).0 hit)) tables.urls v.unique;
          stamped =
              All-update_where IsStamped (has_code code) (λ r. row) tables.urls
                (λ r h. idempotent u.created_at) v.stamped;
        } in
      elim (Option-cases (first_where (has_code code) tables.urls)) [
        | inl h ↦ ground (arith, h, v, inserted h)
        | inr (old, h) ↦ ground (arith, h, v, updated)
      ]

  pub run_increment-Valid :
      (now : ℤ) (code : String) (tables : Tables)
      → Valid stamp tables
      → Valid stamp (run_increment now code tables).1
  unfolding run_increment
  run_increment-Valid now code tables v =
      let counted : Valid stamp
          (record tables { urls = update_where (is_live now code) one_visit tables.urls }) =
        record {
          unique =
              update-UniqueBy (λ r. r.short_code) (is_live now code) one_visit (λ r hit. refl)
                tables.urls v.unique;
          stamped =
              All-update_where IsStamped (is_live now code) one_visit tables.urls (λ r h. h)
                v.stamped;
        } in
      ground (arith, v, counted)

  pub run_delete-Valid :
      (now : ℤ) (code : String) (tables : Tables)
      → Valid stamp tables
      → Valid stamp (run_delete now code tables).1
  unfolding run_delete
  run_delete-Valid now code tables v =
      ground (arith, v, delete-Valid stamp (is_live now code) tables v)

  pub set_if_absent-Valid :
      (fate : Fate) (now : ℤ) (code : String) (u : UrlData) (tables : Tables)
      → Valid stamp tables
      → Valid stamp (set_if_absent stamp fate now code u tables).1
  unfolding set_if_absent
  set_if_absent-Valid fate now code u tables v =
      conclude_lem (Valid stamp) fate storage_failed tables (run_set stamp now code u tables) v
        (run_set-Valid now code u tables v)

  pub get_and_increment-Valid :
      (fate : Fate) (now : ℤ) (code : String) (tables : Tables)
      → Valid stamp tables
      → Valid stamp (get_and_increment fate now code tables).1
  unfolding get_and_increment
  get_and_increment-Valid fate now code tables v =
      conclude_lem (Valid stamp) fate storage_failed tables (run_increment now code tables) v
        (run_increment-Valid now code tables v)

  pub delete_key-Valid :
      (fate : Fate) (now : ℤ) (code : String) (tables : Tables)
      → Valid stamp tables
      → Valid stamp (delete_key fate now code tables).1
  unfolding delete_key
  delete_key-Valid fate now code tables v =
      conclude_lem (Valid stamp) fate storage_failed tables (run_delete now code tables) v
        (run_delete-Valid now code tables v)
