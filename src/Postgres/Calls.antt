-- ===== src/Postgres/Calls.antt =====
-- What the calls of storage/postgres.go keep: what their statements keep, whatever becomes of the call.
use goshorty.Prelude.{
  ℕ, String, Result, ok, err, Bool, ◌&&◌, true, false, not, str_eq, if◌then◌else◌, Option-cases,
  inl, inr,
}
use goshorty.Prelude.Int.{ℤ}
use goshorty.Models.{User, UrlData, role_admin, role_user}
use goshorty.Users.{Bcrypt, UserError, invalid_role, default_admin, users_unavailable}
use goshorty.UserStore.{UserDraws}
use goshorty.Storage.{storage_failed}
use goshorty.Postgres.{Tables, Fate, has_row}
use goshorty.Postgres.Unique.{conclude_lem}
use goshorty.Postgres.Urls.{
  set_if_absent, delete_key, get_and_increment, run_set, run_delete, run_increment,
}
use goshorty.Postgres.Accounts.{
  has_name, insert_user, bootstrap_admin, create_user, bump_user, update_password, revoke_tokens,
  run_update_role, update_user_role, run_delete_user, delete_user, new_user,
}

module _ (bcrypt : Bcrypt) (tables : Tables) (P : Tables → Type 0) (before : P tables) where
  pub bootstrap_admin-keeps :
      (fate : Fate) (d : UserDraws) (password email : String)
      → ((u : User) → P (insert_user u tables).1)
      → P (bootstrap_admin bcrypt fate d password email tables).1
  unfolding bootstrap_admin
  bootstrap_admin-keeps fate d password email inserts =
      elim (Option-cases (bcrypt.generate d.salt password)) [
        | inl e ↦ rw (bootstrap_admin, e) before
        | inr (hash, e) ↦
            let inserted = inserts (new_user d default_admin hash email role_admin) in
            rw (bootstrap_admin, e)
              (conclude_lem P fate users_unavailable tables _ before
                (either (has_row (has_name default_admin) tables.users) _ inserted))
      ]
    where
      either :
          (b : Bool) (r : Result UserError (Unit {0}) × Tables)
          → P r.1
          → P (if b then (ok tt, tables) else r).1
      either true r h = before
      either false r h = h

  pub create_user-keeps :
      (fate : Fate) (d : UserDraws) (username password email : String)
      → ((hash : String) → P (insert_user (new_user d username hash email role_user) tables).1)
      → P (create_user bcrypt fate d username password email tables).1
  unfolding create_user
  create_user-keeps fate d username password email inserts =
      elim (Option-cases (bcrypt.generate d.salt password)) [
        | inl e ↦ rw (create_user, e) before
        | inr (hash, e) ↦
            rw (create_user, e)
              (conclude_lem P fate users_unavailable tables _ before (inserts hash))
      ]

  pub update_password-keeps :
      (fate : Fate) (salt : ℕ) (id password : String)
      → ((hash : String) → P (bump_user bcrypt (λ u. record u { password = hash }) id tables).1)
      → P (update_password bcrypt fate salt id password tables).1
  unfolding update_password
  update_password-keeps fate salt id password bumps =
      elim (Option-cases (bcrypt.generate salt password)) [
        | inl e ↦ rw (update_password, e) before
        | inr (hash, e) ↦
            rw (update_password, e)
              (conclude_lem P fate users_unavailable tables _ before (bumps hash))
      ]

  pub revoke_tokens-keeps :
      (fate : Fate) (id : String)
      → P (bump_user bcrypt (λ u. u) id tables).1
      → P (revoke_tokens bcrypt fate id tables).1
  unfolding revoke_tokens
  revoke_tokens-keeps fate id bumped =
      conclude_lem P fate users_unavailable tables (bump_user bcrypt (λ u. u) id tables) before
        bumped

  pub update_user_role-keeps :
      (fate : Fate) (username role : String)
      → P (run_update_role username role tables).1
      → P (update_user_role fate username role tables).1
  unfolding update_user_role
  update_user_role-keeps fate username role run =
      either (not (str_eq role role_admin) && not (str_eq role role_user)) _ (
        conclude_lem P fate users_unavailable tables (run_update_role username role tables) before
          run)
    where
      either :
          (b : Bool) (r : Result UserError (Unit {0}) × Tables)
          → P r.1
          → P (if b then (err invalid_role, tables) else r).1
      either true r h = before
      either false r h = h

  pub delete_user-keeps :
      (fate : Fate) (username : String)
      → P (run_delete_user username tables).1
      → P (delete_user fate username tables).1
  unfolding delete_user
  delete_user-keeps fate username run =
      conclude_lem P fate users_unavailable tables (run_delete_user username tables) before run

module _ (stamp : ℤ → ℤ) (tables : Tables) (P : Tables → Type 0) (before : P tables) where
  pub set_if_absent-keeps :
      (fate : Fate) (now : ℤ) (code : String) (u : UrlData)
      → P (run_set stamp now code u tables).1
      → P (set_if_absent stamp fate now code u tables).1
  unfolding set_if_absent
  set_if_absent-keeps fate now code u run =
      conclude_lem P fate storage_failed tables (run_set stamp now code u tables) before run

  pub get_and_increment-keeps :
      (fate : Fate) (now : ℤ) (code : String)
      → P (run_increment now code tables).1
      → P (get_and_increment fate now code tables).1
  unfolding get_and_increment
  get_and_increment-keeps fate now code run =
      conclude_lem P fate storage_failed tables (run_increment now code tables) before run

  pub delete_key-keeps :
      (fate : Fate) (now : ℤ) (code : String)
      → P (run_delete now code tables).1
      → P (delete_key fate now code tables).1
  unfolding delete_key
  delete_key-keeps fate now code run =
      conclude_lem P fate storage_failed tables (run_delete now code tables) before run
