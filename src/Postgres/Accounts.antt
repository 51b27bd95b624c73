-- ===== src/Postgres/Accounts.antt =====
-- The user store of storage/postgres.go. bcrypt is a parameter, and `precedes` the order of texts in the
-- database's collation.
use goshorty.Prelude.{
  ℕ, suc, ◌+◌, String, Bool, not, ◌&&◌, ◌||◌, Option, none, some, List, ◌∷◌, Result, ok, err, ltb,
  leb, length, take, str_eq, keep_if, if◌then◌else◌,
}
use goshorty.Prelude.Int.{ltb_ℤ, eqb_ℤ}
use goshorty.Go.Sort.{slice_stable}
use goshorty.Paging.{ListResult}
use goshorty.Models.{User, UserCursor, role_admin, role_user}
use goshorty.Random.{generate_id}
use goshorty.Users.{
  Bcrypt, UserError, user_not_found, username_exists, invalid_role, last_admin, hash_failed,
  users_unavailable, default_admin, is_admin,
}
use goshorty.UserStore.{UserDraws}
use goshorty.Postgres.{
  Tables, Fate, answered, answer_lost, not_run, conclude, PgError, MappedError,
  mapped_username_exists, map_postgres_error, first_where, update_where, delete_where, has_row,
}
use goshorty.Postgres.Urls.{bigint_bound}

abbrev pub has_name : String → User → Bool
has_name username u = str_eq u.username username

abbrev pub has_id : String → User → Bool
has_id id u = str_eq u.id id

abbrev pub user_error : MappedError → UserError
user_error mapped_username_exists = username_exists
user_error other = users_unavailable

abbrev pub scan_user : Option User → Result UserError User
scan_user none = err user_not_found
scan_user (some u) = ok u

abbrev pub queried {ℓ} : {A : Type ℓ} → Fate → Result UserError A → Result UserError A
queried answered r = r
queried answer_lost r = err users_unavailable
queried not_run r = err users_unavailable

-- The unique columns of `users`.
unfoldable pub user_violation : User → Tables → Option PgError
user_violation u tables =
    if has_row (has_id u.id) tables.users
    then some (record { code = "23505"; constraint_name = "users_pkey" })
    else if has_row (has_name u.username) tables.users
    then some (record { code = "23505"; constraint_name = "users_username_key" })
    else none

-- `INSERT INTO users`
unfoldable pub insert_user : User → Tables → Result UserError (Unit {0}) × Tables
unfolding user_violation
insert_user u tables = elim (user_violation u tables) [
  | some e ↦ (err (user_error (map_postgres_error (some e))), tables)
  | none ↦ (ok tt, record tables { users = u ∷ tables.users })
]

abbrev pub new_user : UserDraws → String → String → String → String → User
new_user d username password_hash email role = record {
  id = generate_id d.id_draws;
  username = username;
  password = password_hash;
  email = email;
  role = role;
  created_at = d.now;
  token_version = 0;
}

module _ (bcrypt : Bcrypt) where
  -- `ON CONFLICT (username) DO NOTHING`: the conflict is looked for first.
  unfoldable pub bootstrap_admin :
      Fate → UserDraws → String → String → Tables → Result UserError (Unit {0}) × Tables
  unfolding insert_user
  bootstrap_admin fate d password email tables = elim (bcrypt.generate d.salt password) [
    | none ↦ (err hash_failed, tables)
    | some password_hash ↦
        let u = new_user d default_admin password_hash email role_admin in
        conclude fate users_unavailable tables (
          if has_row (has_name default_admin) tables.users
          then (ok tt, tables)
          else insert_user u tables)
  ]

  unfoldable pub create_user :
      Fate → UserDraws → String → String → String → Tables → Result UserError User × Tables
  unfolding insert_user
  create_user fate d username password email tables = elim (bcrypt.generate d.salt password) [
    | none ↦ (err hash_failed, tables)
    | some password_hash ↦
        let u = new_user d username password_hash email role_user in
        let (answer, after) = insert_user u tables in
        let result : Result UserError User = elim answer [ ok _ ↦ ok u | err e ↦ err e ] in
        conclude fate users_unavailable tables (result, after)
  ]

  unfoldable pub get_user : Fate → String → Tables → Result UserError User
  get_user fate username tables =
      queried fate (scan_user (first_where (has_name username) tables.users))

  unfoldable pub get_user_by_id : Fate → String → Tables → Result UserError User
  get_user_by_id fate id tables = queried fate (scan_user (first_where (has_id id) tables.users))

  unfoldable pub verify_password : Fate → String → String → Tables → Result UserError Bool
  unfolding get_user
  verify_password fate username password tables = elim (get_user fate username tables) [
    | err e ↦ err e
    | ok user ↦ ok (bcrypt.compare user.password password)
  ]

  abbrev pub with_version : User → User
  with_version u = record u { token_version = suc u.token_version }

  -- `UPDATE users SET ..., token_version = token_version + 1 WHERE id = $`, for another hash or none.
  unfoldable pub bump_user : (User → User) → String → Tables → Result UserError (Unit {0}) × Tables
  bump_user set id tables = elim (first_where (has_id id) tables.users) [
    | none ↦ (err user_not_found, tables)
    | some u ↦ if leb bigint_bound (suc u.token_version) then (err users_unavailable, tables) else (
      ok tt,
      record tables { users = update_where (has_id id) (λ v. with_version (set v)) tables.users },
    )
  ]

  unfoldable pub update_password :
      Fate → ℕ → String → String → Tables → Result UserError (Unit {0}) × Tables
  unfolding bump_user
  update_password fate salt user_id password tables = elim (bcrypt.generate salt password) [
    | none ↦ (err hash_failed, tables)
    | some password_hash ↦
        conclude fate users_unavailable tables
          (bump_user (λ u. record u { password = password_hash }) user_id tables)
  ]

  unfoldable pub revoke_tokens : Fate → String → Tables → Result UserError (Unit {0}) × Tables
  unfolding bump_user
  revoke_tokens fate user_id tables =
      conclude fate users_unavailable tables (bump_user (λ u. u) user_id tables)

-- `SELECT COUNT(*) FROM users WHERE role = 'admin'`
abbrev pub admin_rows : Tables → ℕ
admin_rows tables = length (keep_if is_admin tables.users)

-- The transaction of `UpdateUserRole`. Its advisory lock keeps out other transactions of its kind and
-- deletions, so it is one step.
unfoldable pub run_update_role : String → String → Tables → Result UserError (Unit {0}) × Tables
run_update_role username role tables = elim (first_where (has_name username) tables.users) [
  | none ↦ (err user_not_found, tables)
  | some user ↦
      if is_admin user && (not (str_eq role role_admin) && leb (admin_rows tables) 1)
      then (err last_admin, tables)
      else (
        ok tt,
        record tables {
          users = update_where (has_name username) (λ u. record u { role = role }) tables.users;
        },
      )
]

unfoldable pub update_user_role :
    Fate → String → String → Tables → Result UserError (Unit {0}) × Tables
unfolding run_update_role
update_user_role fate username role tables =
    if not (str_eq role role_admin) && not (str_eq role role_user)
    then (err invalid_role, tables)
    else conclude fate users_unavailable tables (run_update_role username role tables)

-- The transaction of `DeleteUser`. `ON DELETE CASCADE` takes the user's URLs along.
unfoldable pub run_delete_user : String → Tables → Result UserError (Unit {0}) × Tables
run_delete_user username tables = elim (first_where (has_name username) tables.users) [
  | none ↦ (err user_not_found, tables)
  | some user ↦ if is_admin user && leb (admin_rows tables) 1 then (err last_admin, tables) else (
    ok tt,
    record {
      users = delete_where (has_name username) tables.users;
      urls = delete_where (λ r. str_eq r.created_by user.id) tables.urls;
    },
  )
]

unfoldable pub delete_user : Fate → String → Tables → Result UserError (Unit {0}) × Tables
unfolding run_delete_user
delete_user fate username tables =
    conclude fate users_unavailable tables (run_delete_user username tables)

module _ (precedes : String → String → Bool) where
  -- `ORDER BY created_at ASC, username ASC`
  unfoldable pub get_all_users : Fate → Tables → Result UserError (List User)
  get_all_users fate tables = queried fate (
      ok (
        slice_stable
          (λ a b.
            if eqb_ℤ a.created_at b.created_at
            then precedes a.username b.username
            else ltb_ℤ a.created_at b.created_at)
          tables.users))

  -- The count, and `limit + 1` rows of the page, which may meet other tables.
  unfoldable pub list_users :
      Fate → UserCursor → ℕ → Tables → Tables → Result UserError (ListResult User)
  list_users fate cursor limit tables between =
      let items = take (limit + 1) (
        slice_stable (λ a b. precedes a.username b.username)
          (keep_if (λ u. str_eq cursor.username "" || precedes cursor.username u.username)
            between.users)) in
      queried fate (
        ok (record {
          items = if ltb limit (length items) then take limit items else items;
          total = length tables.users;
          has_more = ltb limit (length items);
        }))
