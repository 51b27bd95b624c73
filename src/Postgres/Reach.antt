-- ===== src/Postgres/Reach.antt =====
-- The states of the database (storage/postgres.go) that the program can reach, whatever becomes of its
-- calls.
use goshorty.Prelude.{ℕ, String, ◌≡◌, refl, [], Result, ok, arith, Option-cases, inl, inr}
use goshorty.Prelude.Int.{ℤ}
use goshorty.Models.{UrlData}
use goshorty.Users.{Bcrypt}
use goshorty.UserStore.{UserDraws}
use goshorty.Storage.{StorageError, storage_failed}
use goshorty.Postgres.{Tables, Fate, answered, conclude, first_where}
use goshorty.Postgres.Unique.{conclude_lem}
use goshorty.Postgres.Urls.{
  set_if_absent, delete_key, get_and_increment, delete_expired_urls, id_in, batch,
}
use goshorty.Postgres.Accounts.{
  insert_user, user_violation, bootstrap_admin, create_user, update_password, revoke_tokens,
  update_user_role, delete_user,
}
use goshorty.Postgres.Calls.{
  bootstrap_admin-keeps, create_user-keeps, update_password-keeps, revoke_tokens-keeps,
  update_user_role-keeps, delete_user-keeps, set_if_absent-keeps, get_and_increment-keeps,
  delete_key-keeps,
}
use goshorty.Postgres.Integrity.{
  Integrity, insert_user-Integrity, bump_user-Integrity, run_update_role-Integrity,
  run_delete_user-Integrity, deleted-Integrity, run_delete-Integrity, run_increment-Integrity,
  run_set-Integrity,
}

-- What a tick of the cleanup does, with the fate of its call.
abbrev cleaned : Fate → ℤ → ℕ → Tables → Tables
cleaned fate now size tables =
    let run : Result StorageError (Unit {0}) × Tables =
      conclude fate storage_failed tables (ok tt, delete_expired_urls now size tables) in
    run.1

abbrev empty : Tables
empty = record { users = []; urls = [] }

module _ (stamp : ℤ → ℤ) (bcrypt : Bcrypt) where
  -- One call that changes the tables, whatever becomes of it.
  pub data Step (tables : Tables) : Tables → Type 0 where
    bootstraps :
        (fate : Fate) (d : UserDraws) (password email : String)
        → Step tables (bootstrap_admin bcrypt fate d password email tables).1
    creates :
        (fate : Fate) (d : UserDraws) (username password email : String)
        → Step tables (create_user bcrypt fate d username password email tables).1
    changes_password :
        (fate : Fate) (salt : ℕ) (id password : String)
        → Step tables (update_password bcrypt fate salt id password tables).1
    revokes : (fate : Fate) (id : String) → Step tables (revoke_tokens bcrypt fate id tables).1
    sets_role :
        (fate : Fate) (username role : String)
        → Step tables (update_user_role fate username role tables).1
    deletes : (fate : Fate) (username : String) → Step tables (delete_user fate username tables).1
    sets_link :
        (fate : Fate) (now : ℤ) (code : String) (u : UrlData)
        → Step tables (set_if_absent stamp fate now code u tables).1
    visits :
        (fate : Fate) (now : ℤ) (code : String)
        → Step tables (get_and_increment fate now code tables).1
    deletes_link :
        (fate : Fate) (now : ℤ) (code : String) → Step tables (delete_key fate now code tables).1
    cleans : (fate : Fate) (now : ℤ) (size : ℕ) → Step tables (cleaned fate now size tables)

  -- From empty tables, by a first start that has made its administrator.
  pub data Reach : Tables → Type 0 where
    start :
        (d : UserDraws) (password email : String)
        → (bootstrap_admin bcrypt answered d password email empty).0 ≡ ok tt
        → Reach (bootstrap_admin bcrypt answered d password email empty).1
    next : {tables tables' : Tables} → Reach tables → Step tables tables' → Reach tables'

module _ (stamp : ℤ → ℤ) (idempotent : (t : ℤ) → stamp (stamp t) ≡ stamp t) (bcrypt : Bcrypt) where
  cleaned-Integrity :
      (fate : Fate) (now : ℤ) (size : ℕ) (tables : Tables)
      → Integrity stamp tables
      → Integrity stamp (cleaned fate now size tables)
  unfolding delete_expired_urls
  cleaned-Integrity fate now size tables g =
      conclude_lem (Integrity stamp) fate storage_failed tables _ g
        (deleted-Integrity stamp idempotent bcrypt (id_in (batch now size tables.urls)) tables g)

  Step-Integrity :
      {tables tables' : Tables}
      → Step stamp bcrypt tables tables'
      → Integrity stamp tables
      → Integrity stamp tables'
  Step-Integrity {tables} (bootstraps fate d password email) g =
      bootstrap_admin-keeps bcrypt tables (Integrity stamp) g fate d password email
        (λ u. insert_user-Integrity stamp idempotent bcrypt u tables g)
  Step-Integrity {tables} (creates fate d username password email) g =
      create_user-keeps bcrypt tables (Integrity stamp) g fate d username password email
        (λ hash. insert_user-Integrity stamp idempotent bcrypt _ tables g)
  Step-Integrity {tables} (changes_password fate salt id password) g =
      update_password-keeps bcrypt tables (Integrity stamp) g fate salt id password (λ hash.
        bump_user-Integrity stamp idempotent bcrypt (λ u. record u { password = hash }) id tables
          (λ u. refl) (λ u. refl) (λ u. refl) g)
  Step-Integrity {tables} (revokes fate id) g =
      revoke_tokens-keeps bcrypt tables (Integrity stamp) g fate id (
        bump_user-Integrity stamp idempotent bcrypt (λ u. u) id tables (λ u. refl) (λ u. refl)
          (λ u. refl) g)
  Step-Integrity {tables} (sets_role fate username role) g =
      update_user_role-keeps bcrypt tables (Integrity stamp) g fate username role
        (run_update_role-Integrity stamp idempotent bcrypt username role tables g)
  Step-Integrity {tables} (deletes fate username) g =
      delete_user-keeps bcrypt tables (Integrity stamp) g fate username
        (run_delete_user-Integrity stamp idempotent bcrypt username tables g)
  Step-Integrity {tables} (sets_link fate now code u) g =
      set_if_absent-keeps stamp tables (Integrity stamp) g fate now code u
        (run_set-Integrity stamp idempotent bcrypt now code u tables g)
  Step-Integrity {tables} (visits fate now code) g =
      get_and_increment-keeps stamp tables (Integrity stamp) g fate now code
        (run_increment-Integrity stamp idempotent bcrypt now code tables g)
  Step-Integrity {tables} (deletes_link fate now code) g =
      delete_key-keeps stamp tables (Integrity stamp) g fate now code
        (run_delete-Integrity stamp idempotent bcrypt now code tables g)
  Step-Integrity {tables} (cleans fate now size) g = cleaned-Integrity fate now size tables g

  start-Integrity :
      (d : UserDraws) (password email : String)
      → (bootstrap_admin bcrypt answered d password email empty).0 ≡ ok tt
      → Integrity stamp (bootstrap_admin bcrypt answered d password email empty).1
  unfolding bootstrap_admin insert_user user_violation first_where
  start-Integrity d password email h = elim (Option-cases (bcrypt.generate d.salt password)) [
    | inl e ↦ absurd (ground arith)
    | inr (hash, e) ↦
        rw (bootstrap_admin, e)
          (record {
            accounts = record { unique = (tt, tt); has_admin = omega arith };
            valid = record { unique = tt; stamped = tt };
            keyed = record { ids = tt; user_ids = (tt, tt); owned = tt };
          })
  ]

  -- In every state of the tables after the first start, whatever calls have been made and whatever has
  -- become of them: at least one user is an administrator; no two users have one name or one ID; no two
  -- links have one short code or one ID; and the creator of each link is a user. (The database keeps the
  -- times that it has kept.)
  pub Reach-Integrity : {tables : Tables} → Reach stamp bcrypt tables → Integrity stamp tables
  Reach-Integrity (start d password email h) = start-Integrity d password email h
  Reach-Integrity (next r st) = Step-Integrity st (Reach-Integrity r)
