-- ===== src/Postgres/Users.antt =====
-- The PostgreSQL user store of storage/postgres.go as a `UserStore`, and its contract. A request calls
-- each method at most once, so what becomes of its calls is one fate per method. Nothing comes between the two
-- statements of `ListUsers` here.
use goshorty.Users.{Bcrypt}
use goshorty.Postgres.Accounts.{
  admin_rows, insert_user, user_violation, run_update_role, run_delete_user, bump_user,
  with_version,
}
use goshorty.Prelude.{◌≢◌, String, Bool}
use goshorty.UserStore.{UserStore}
use goshorty.UserStore.Contract.{UserCall, getting, getting_by_id, verifying, updating, revoking}
use goshorty.Postgres.{Tables, Fate, answered}
use goshorty.Postgres.Accounts
use goshorty.Postgres.Keeping.{Keeping}

pub record UserFates : Type 0 where
  pub at_create_user : Fate
  pub at_get_user : Fate
  pub at_get_user_by_id : Fate
  pub at_verify_password : Fate
  pub at_update_password : Fate
  pub at_revoke_tokens : Fate
  pub at_update_user_role : Fate
  pub at_get_all_users : Fate
  pub at_list_users : Fate
  pub at_delete_user : Fate

abbrev pub postgres_users : (String → String → Bool) → Bcrypt → UserFates → UserStore Tables
postgres_users precedes bcrypt fates = record {
  create_user = Accounts.create_user bcrypt fates.at_create_user;
  get_user = Accounts.get_user bcrypt fates.at_get_user;
  get_user_by_id = Accounts.get_user_by_id bcrypt fates.at_get_user_by_id;
  verify_password = Accounts.verify_password bcrypt fates.at_verify_password;
  update_password = Accounts.update_password bcrypt fates.at_update_password;
  revoke_tokens = Accounts.revoke_tokens bcrypt fates.at_revoke_tokens;
  update_user_role = Accounts.update_user_role fates.at_update_user_role;
  get_all_users = Accounts.get_all_users precedes fates.at_get_all_users;
  list_users = λ cursor limit tables.
      Accounts.list_users precedes fates.at_list_users cursor limit tables tables;
  delete_user = Accounts.delete_user fates.at_delete_user;
}

-- Whether the answer of a call does not come.
abbrev pub IsLost : UserFates → UserCall → Type 0
IsLost fates getting = fates.at_get_user ≢ answered
IsLost fates getting_by_id = fates.at_get_user_by_id ≢ answered
IsLost fates verifying = fates.at_verify_password ≢ answered
IsLost fates updating = fates.at_update_password ≢ answered
IsLost fates revoking = fates.at_revoke_tokens ≢ answered
