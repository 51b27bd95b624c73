-- ===== src/Postgres/Keyed.antt =====
-- The primary keys and the foreign key of storage/migrations, through the statements of
-- storage/postgres.go.
use goshorty.Prelude.{
  String, ◌≡◌, refl, subst, Bool, true, false, not, ◌&&◌, none, List, [], ◌∷◌, arith, str_eq,
  str_eq_iff, All, All-imp, All-zip, All-keep_if, Option-cases, Bool-cases, inl, inr,
}
use goshorty.Prelude.Int.{ℤ}
use goshorty.Models.{User, UrlData}
use goshorty.Postgres.{Tables, first_where, update_where, delete_where, has_row}
use goshorty.Postgres.Unique.{
  UniqueBy, missing-All, All-update_where, no_update, delete-UniqueBy, update-UniqueBy,
}
use goshorty.Postgres.Urls.{
  has_code, is_live, url_row, url_violation, run_set, run_increment, one_visit,
}
use goshorty.Postgres.Accounts.{has_id}
use goshorty.Postgres.View.{UniqueCodes, Others}
use goshorty.Postgres.Cleanup.{UniqueIds}

abbrev pub IsOwned : List User → UrlData → Type 0
IsOwned users r = has_row (has_id r.created_by) users ≡ true

-- No two links have one ID, no two users have one, and the creator of each link is a user.
pub record Keyed (tables : Tables) : Type 0 where
  pub ids : UniqueIds tables.urls
  pub user_ids : UniqueBy (λ u. u.id) tables.users
  pub owned : All (IsOwned tables.users) tables.urls

-- What a row has to meet.
abbrev Fresh : (UrlData → Bool) → UrlData → List UrlData → Type 0
Fresh replaced row = All (λ q. (str_eq q.id row.id && not (replaced q)) ≡ false)

violation-none :
    (replaced : UrlData → Bool) (row : UrlData) (tables : Tables)
    → url_violation replaced row tables ≡ none
    → Fresh replaced row tables.urls × IsOwned tables.users row
unfolding url_violation
violation-none replaced row tables h =
    let id_taken : UrlData → Bool = λ q. str_eq q.id row.id && not (replaced q) in
    elim (Bool-cases (has_row id_taken tables.urls)) [
      | inl taken ↦ absurd (ground (arith, h, taken))
      | inr free ↦ (missing-All id_taken tables.urls free, ground (arith, h, free))
    ]

replaced-UniqueIds :
    (code : String) (row : UrlData) (rows : List UrlData)
    → UniqueCodes rows
    → Fresh (has_code code) row rows
    → UniqueIds rows
    → UniqueIds (update_where (has_code code) (λ r. row) rows)
unfolding update_where
replaced-UniqueIds code row [] u f h = tt
replaced-UniqueIds code row (r ∷ rs) u f h = elim (Bool-cases (has_code code r)) [
  | inl hit ↦
      let same = (str_eq_iff r.short_code code).0 hit in
      let others : Others code rs = subst (λ c. Others c rs) same u.0 in
      let apart =
        All-zip (λ q. has_code code q ≡ false)
          (λ q. (str_eq q.id row.id && not (has_code code q)) ≡ false)
          (λ q. str_eq q.id row.id ≡ false) (λ q other free. ground (arith, other, free)) rs others
          f.1 in
      rw (update_where, hit, no_update (has_code code) (λ q. row) rs others) (apart, h.1)
  | inr miss ↦
      let other : str_eq row.id r.id ≡ false =
        ground (arith, miss, f.0, str_eq_iff row.id r.id, str_eq_iff r.id row.id) in
      let apart =
        All-update_where (λ q. str_eq q.id r.id ≡ false) (has_code code) (λ q. row) rs
          (λ q before. other) h.0 in
      rw (update_where, miss) (apart, replaced-UniqueIds code row rs u.1 f.1 h.1)
]

pub run_set-Keyed :
    (stamp : ℤ → ℤ) (now : ℤ) (code : String) (u : UrlData) (tables : Tables)
    → UniqueCodes tables.urls
    → Keyed tables
    → Keyed (run_set stamp now code u tables).1
unfolding run_set
run_set-Keyed stamp now code u tables unique k =
    let row = url_row stamp code u in
    elim (Option-cases (first_where (has_code code) tables.urls)) [
      | inl h ↦ elim (Option-cases (url_violation (λ r. false) row tables)) [
        | inr (e, bad) ↦ ground (arith, h, bad, k)
        | inl fine ↦
            let (fresh, owner) = violation-none (λ r. false) row tables fine in
            let apart =
              All-imp (λ q. (str_eq q.id row.id && not false) ≡ false)
                (λ q. str_eq q.id row.id ≡ false) (λ q free. ground (arith, free)) tables.urls
                fresh in
            let inserted : Keyed (record tables { urls = row ∷ tables.urls }) = record {
              ids = (apart, k.ids);
              user_ids = k.user_ids;
              owned = (owner, k.owned);
            } in
            ground (arith, h, fine, k, inserted)
      ]
      | inr (old, h) ↦ elim (Option-cases (url_violation (has_code code) row tables)) [
        | inr (e, bad) ↦ ground (arith, h, bad, k)
        | inl fine ↦
            let (fresh, owner) = violation-none (has_code code) row tables fine in
            let updated : Keyed
                (record tables { urls = update_where (has_code code) (λ r. row) tables.urls }) =
              record {
                ids = replaced-UniqueIds code row tables.urls unique fresh k.ids;
                user_ids = k.user_ids;
                owned =
                    All-update_where (IsOwned tables.users) (has_code code) (λ r. row) tables.urls
                      (λ r h. owner) k.owned;
              } in
            ground (arith, h, fine, k, updated)
      ]
    ]

pub run_increment-Keyed :
    (now : ℤ) (code : String) (tables : Tables)
    → Keyed tables
    → Keyed (run_increment now code tables).1
unfolding run_increment
run_increment-Keyed now code tables k =
    let counted : Keyed
        (record tables { urls = update_where (is_live now code) one_visit tables.urls }) =
      record {
        ids =
            update-UniqueBy (λ r. r.id) (is_live now code) one_visit (λ r hit. refl) tables.urls
              k.ids;
        user_ids = k.user_ids;
        owned =
            All-update_where (IsOwned tables.users) (is_live now code) one_visit tables.urls
              (λ r h. h) k.owned;
      } in
    ground (arith, k, counted)

pub delete-Keyed :
    (p : UrlData → Bool) (tables : Tables)
    → Keyed tables
    → Keyed (record tables { urls = delete_where p tables.urls })
delete-Keyed p tables k = record {
  ids = delete-UniqueBy (λ r. r.id) p tables.urls k.ids;
  user_ids = k.user_ids;
  owned = All-keep_if (IsOwned tables.users) (λ q. not (p q)) tables.urls k.owned;
}
