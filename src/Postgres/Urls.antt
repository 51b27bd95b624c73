-- ===== src/Postgres/Urls.antt =====
-- The URL store of storage/postgres.go. `stamp` is how the database keeps a time (`TIMESTAMPTZ` has
-- microseconds), and `precedes` the order of texts in its collation.
use goshorty.Prelude.{
  ℕ, suc, ◌+◌, ◌^◌, String, Bool, false, not, ◌&&◌, ◌||◌, Option, none, some, List, [], ◌∷◌, Result,
  ok, err, ltb, leb, length, take, str_eq, keep_if, if◌then◌else◌,
}
use goshorty.Prelude.Int.{ℤ, ltb_ℤ, leb_ℤ, eqb_ℤ}
use goshorty.Go.Sort.{slice_stable}
use goshorty.Paging.{ListResult}
use goshorty.Models.{UrlData, UrlCursor, role_admin}
use goshorty.Storage.{
  StorageError, key_not_found, key_exists, storage_failed, Stats, is_first_page, Signal, stop, tick,
}
use goshorty.Postgres.{
  Tables, Fate, answered, answer_lost, not_run, conclude, PgError, MappedError, mapped_key_exists,
  map_postgres_error, first_where, update_where, delete_where, has_row,
}

-- `BIGINT` is below this.
abbrev pub bigint_bound : ℕ
bigint_bound = 2 ^ 63

abbrev pub has_code : String → UrlData → Bool
has_code code row = str_eq row.short_code code

-- `short_code = $1 AND expires_at > NOW()`
abbrev pub is_live : ℤ → String → UrlData → Bool
is_live now code row = has_code code row && ltb_ℤ now row.expires_at

-- The visible rows of a listing: `created_by` is asked of anyone but an administrator.
abbrev pub in_scope : ℤ → String → String → UrlData → Bool
in_scope now user_id role row =
    ltb_ℤ now row.expires_at && (str_eq role role_admin || str_eq row.created_by user_id)

-- `ErrNoRows`, or the row.
abbrev pub scan_url : Option UrlData → Result StorageError UrlData
scan_url none = err key_not_found
scan_url (some row) = ok row

abbrev pub storage_error : String → MappedError → StorageError
storage_error code mapped_key_exists = key_exists code
storage_error code other = storage_failed

-- `CHECK (visits >= 0)`, which is asked before the row is looked for: a count out of range is negative.
abbrev pub visits_violation : PgError
visits_violation = record { code = "23514"; constraint_name = "urls_visits_check" }

-- The constraints of `urls` on a row that is put in place of the rows that `replaced` tells: its
-- creator exists, and its ID is no other row's.
unfoldable pub url_violation : (UrlData → Bool) → UrlData → Tables → Option PgError
url_violation replaced row tables =
    if has_row (λ r. str_eq r.id row.id && not (replaced r)) tables.urls
    then some (record { code = "23505"; constraint_name = "urls_pkey" })
    else if not (has_row (λ u. str_eq u.id row.created_by) tables.users)
    then some (record { code = "23503"; constraint_name = "urls_created_by_fkey" })
    else none

module _ (stamp : ℤ → ℤ) where
  -- The row that the parameters of `SetIfAbsent` make.
  abbrev pub url_row : String → UrlData → UrlData
  url_row code u = record u {
    short_code = code;
    expires_at = stamp u.expires_at;
    created_at = stamp u.created_at;
  }

  unfoldable pub run_set : ℤ → String → UrlData → Tables → Result StorageError (Unit {0}) × Tables
  unfolding url_violation
  run_set now code u tables =
      let row = url_row code u in
      if leb bigint_bound row.visits
      then (err (storage_error code (map_postgres_error (some visits_violation))), tables)
      else (elim (first_where (has_code code) tables.urls) [
        | none ↦ (elim (url_violation (λ r. false) row tables) [
          | some e ↦ (err (storage_error code (map_postgres_error (some e))), tables)
          | none ↦ (ok tt, record tables { urls = row ∷ tables.urls })
        ])
        | some old ↦
            if not (leb_ℤ old.expires_at now)
            then (err (key_exists code), tables)
            else (elim (url_violation (has_code code) row tables) [
              | some e ↦ (err (storage_error code (map_postgres_error (some e))), tables)
              | none ↦ (
                ok tt,
                record tables { urls = update_where (has_code code) (λ r. row) tables.urls },
              )
            ])
      ])

  unfoldable pub set_if_absent :
      Fate → ℤ → String → UrlData → Tables → Result StorageError (Unit {0}) × Tables
  unfolding run_set
  set_if_absent fate now code u tables =
      conclude fate storage_failed tables (run_set now code u tables)

-- A query that does not change the tables.
abbrev pub queried {ℓ} : {A : Type ℓ} → Fate → Result StorageError A → Result StorageError A
queried answered r = r
queried answer_lost r = err storage_failed
queried not_run r = err storage_failed

unfoldable pub get : Fate → ℤ → String → Tables → Result StorageError UrlData
get fate now code tables = queried fate (scan_url (first_where (is_live now code) tables.urls))

unfoldable pub run_delete : ℤ → String → Tables → Result StorageError (Unit {0}) × Tables
run_delete now code tables =
    if has_row (is_live now code) tables.urls
    then (ok tt, record tables { urls = delete_where (is_live now code) tables.urls })
    else (err key_not_found, tables)

unfoldable pub delete_key : Fate → ℤ → String → Tables → Result StorageError (Unit {0}) × Tables
unfolding run_delete
delete_key fate now code tables = conclude fate storage_failed tables (run_delete now code tables)

abbrev pub one_visit : UrlData → UrlData
one_visit row = record row { visits = suc row.visits }

-- `visits + 1` out of range is an error of the statement.
unfoldable pub run_increment : ℤ → String → Tables → Result StorageError UrlData × Tables
run_increment now code tables = elim (first_where (is_live now code) tables.urls) [
  | none ↦ (err key_not_found, tables)
  | some row ↦ if leb bigint_bound (suc row.visits) then (err storage_failed, tables) else (
    ok (one_visit row),
    record tables { urls = update_where (is_live now code) one_visit tables.urls },
  )
]

unfoldable pub get_and_increment : Fate → ℤ → String → Tables → Result StorageError UrlData × Tables
unfolding run_increment
get_and_increment fate now code tables =
    conclude fate storage_failed tables (run_increment now code tables)

-- `ORDER BY created_at DESC`. Rows of one time come in the order of the table, which can be any.
unfoldable pub get_all_for :
    Fate → ℤ → String → String → Tables → Result StorageError (List UrlData)
get_all_for fate now user_id role tables = queried fate (
    ok (
      slice_stable (λ a b. ltb_ℤ b.created_at a.created_at)
        (keep_if (in_scope now user_id role) tables.urls)))

-- `ORDER BY created_at DESC, short_code ASC`
abbrev pub listed_before : (String → String → Bool) → UrlData → UrlData → Bool
listed_before precedes a b =
    if eqb_ℤ a.created_at b.created_at
    then precedes a.short_code b.short_code
    else ltb_ℤ b.created_at a.created_at

module _ (stamp : ℤ → ℤ) (precedes : String → String → Bool) where
  -- `created_at < $n OR (created_at = $n AND short_code > $m)`, unless this is the first page.
  abbrev pub past : UrlCursor → UrlData → Bool
  past cursor row =
      is_first_page cursor
      || ltb_ℤ row.created_at (stamp cursor.created_at_unix_nano)
      || (eqb_ℤ row.created_at (stamp cursor.created_at_unix_nano)
          && precedes cursor.short_code row.short_code)

  -- Two statements: the count, and `limit + 1` rows of the page. Each has its own snapshot, so the second
  -- one may meet other tables.
  unfoldable pub list_urls :
      Fate
      → ℤ
      → ℤ
      → String
      → String
      → UrlCursor
      → ℕ
      → Tables
      → Tables
      → Result StorageError (ListResult UrlData)
  list_urls fate now later user_id role cursor limit tables between =
      let total = length (keep_if (in_scope now user_id role) tables.urls) in
      let items = take (limit + 1) (
        slice_stable (listed_before precedes)
          (keep_if (λ r. in_scope later user_id role r && past cursor r) between.urls)) in
      queried fate (
        ok (record {
          items = if ltb limit (length items) then take limit items else items;
          total = total;
          has_more = ltb limit (length items);
        }))

abbrev pub sum_visits : List UrlData → ℕ
sum_visits [] = 0
sum_visits (r ∷ rs) = r.visits + sum_visits rs

-- The sum is a `NUMERIC`; to read one that is no int64 is an error.
unfoldable pub stats_for : Fate → ℤ → String → String → Tables → Result StorageError Stats
stats_for fate now user_id role tables =
    let rows = keep_if (in_scope now user_id role) tables.urls in
    queried fate (
      if leb bigint_bound (sum_visits rows)
      then err storage_failed
      else ok (record { total_urls = length rows; total_visits = sum_visits rows }))

abbrev pub id_in : List UrlData → UrlData → Bool
id_in rows r = has_row (λ q. str_eq q.id r.id) rows

abbrev pub has_expired : ℤ → UrlData → Bool
has_expired now r = leb_ℤ r.expires_at now

-- The inner query of `DeleteExpiredURLs`.
abbrev pub batch : ℤ → ℕ → List UrlData → List UrlData
batch now limit urls =
    take limit
      (slice_stable (λ a b. ltb_ℤ a.expires_at b.expires_at) (keep_if (has_expired now) urls))

-- The tables after it, if it is carried out.
unfoldable pub delete_expired_urls : ℤ → ℕ → Tables → Tables
delete_expired_urls now limit tables = record tables {
  urls = delete_where (id_in (batch now limit tables.urls)) tables.urls;
}

-- `RunCleanup`, over what it receives: each tick with the fate of its call, whose error is dropped.
unfoldable pub run_cleanup : ℕ → List (Signal × Fate) → Tables → Tables
unfolding delete_expired_urls
run_cleanup batch_size [] tables = tables
run_cleanup batch_size ((stop, fate) ∷ signals) tables = tables
run_cleanup batch_size ((tick now, fate) ∷ signals) tables =
    let done : Result StorageError (Unit {0}) × Tables =
      conclude fate storage_failed tables (ok tt, delete_expired_urls now batch_size tables) in
    run_cleanup batch_size signals done.1
