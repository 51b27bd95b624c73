-- ===== src/UserStore/Memory.antt =====
-- The in-memory store of storage/user.go as a `UserStore`.
use goshorty.Prelude.{ok}
use goshorty.Users
use goshorty.Users.{Bcrypt, UserStorage}
use goshorty.UserStore.{UserStore}

abbrev pub memory_users : Bcrypt → UserStore UserStorage
memory_users bcrypt = record {
  create_user = λ d username password email us.
      Users.create_user bcrypt d.salt d.id_draws d.now username password email us;
  get_user = Users.get_user;
  get_user_by_id = Users.get_user_by_id;
  verify_password = Users.verify_password bcrypt;
  update_password = Users.update_password bcrypt;
  revoke_tokens = Users.revoke_tokens;
  update_user_role = Users.update_user_role;
  get_all_users = λ us. ok (Users.get_all_users us);
  list_users = λ cursor limit us. ok (Users.list_users cursor limit us);
  delete_user = Users.delete_user;
}
