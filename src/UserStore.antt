-- ===== src/UserStore.antt =====
-- `UserStore` of storage/interfaces.go: the store that the handlers of handlers/auth.go are given.
pub mod Memory
pub mod Contract
pub mod Later
pub mod Shared
pub mod Changes
pub mod Promises
pub mod Grown
pub mod Pages
use goshorty.Prelude.{ℕ, String, Bool, List, Result}
use goshorty.Prelude.Int.{ℤ}
use goshorty.Paging.{ListResult}
use goshorty.Models.{User, UserCursor}
use goshorty.Users.{UserError}

-- What `CreateUser` reads: the salt of the hash, the draws for the ID, and the time in seconds.
pub record UserDraws : Type 0 where
  pub salt : ℕ
  pub id_draws : ℕ → ℕ
  pub now : ℤ

pub record UserStore (S : Type 0) : Type 0 where
  pub create_user : UserDraws → String → String → String → S → Result UserError User × S
  pub get_user : String → S → Result UserError User
  pub get_user_by_id : String → S → Result UserError User
  pub verify_password : String → String → S → Result UserError Bool
  pub update_password : ℕ → String → String → S → Result UserError (Unit {0}) × S
  pub revoke_tokens : String → S → Result UserError (Unit {0}) × S
  pub update_user_role : String → String → S → Result UserError (Unit {0}) × S
  pub get_all_users : S → Result UserError (List User)
  pub list_users : UserCursor → ℕ → S → Result UserError (ListResult User)
  pub delete_user : String → S → Result UserError (Unit {0}) × S
