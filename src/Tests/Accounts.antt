-- ===== src/Tests/Accounts.antt =====
-- Examples of the user store's theorems. A hash here is the password itself.
use goshorty.Prelude.{ℕ, ◌≡◌, refl, none, some, err, str_eq}
use goshorty.Prelude.Int.{pos}
use goshorty.Go.Map.{lookup}
use goshorty.Random.{generate_id}
use goshorty.Models.{User, role_user, role_admin}
use goshorty.Users.{
  Bcrypt, UserStorage, new_user_storage, create_user, update_user_role, delete_user, add_user,
  admin_user, empty_storage, last_admin,
}
use goshorty.Users.Admins.{Inv}
use goshorty.Users.Reach.{Reach, start, next, creates, sets_role, deletes, Reach-keeps_admin}
use goshorty.UserStore.Shared.{IsShared}
use goshorty.UserStore.Grown.{Grown, begins, goes_on, Grown-IsShared}

abbrev plain : Bcrypt
plain = record { generate = λ salt password. some password; compare = str_eq }

abbrev draws : ℕ → ℕ
draws i = 0

abbrev other_draws : ℕ → ℕ
other_draws i = 1

abbrev blank : User
blank = record {
  id = "";
  username = "";
  password = "";
  email = "";
  role = "";
  created_at = pos 0;
  token_version = 0;
}

abbrev first : UserStorage
first = add_user (admin_user draws (pos 1) "secret" "root@example") (empty_storage blank)

-- A second user is made an administrator, and the first one is deleted.
abbrev second : UserStorage
second = (create_user plain 1 other_draws (pos 2) "eve" "pw" "eve@example" first).1

abbrev promoted : UserStorage
promoted = (update_user_role "eve" role_admin second).1

abbrev handed_over : UserStorage
handed_over = (delete_user "admin" promoted).1

handed_over-Reach : Reach plain handed_over
unfolding new_user_storage
handed_over-Reach =
    next
      (next
        (next (start 0 draws (pos 1) blank "secret" "root@example" refl)
          (creates 1 other_draws (pos 2) "eve" "pw" "eve@example"))
        (sets_role "eve" role_admin))
      (deletes "admin")

Reach-keeps_admin_example : Inv handed_over
Reach-keeps_admin_example = Reach-keeps_admin plain handed_over-Reach

new_id : lookup (generate_id other_draws) first.by_id ≡ none
unfolding generate_id lookup goshorty.Go.Map.insert goshorty.Go.Map.delete
new_id = refl

handed_over-Grown : Grown plain handed_over
unfolding new_user_storage goshorty.Go.Map.lookup
handed_over-Grown =
    goes_on
      (goes_on
        (goes_on (begins 0 draws (pos 1) blank "secret" "root@example" refl)
          (creates 1 other_draws (pos 2) "eve" "pw" "eve@example") new_id)
        (sets_role "eve" role_admin) tt)
      (deletes "admin") tt

Grown-IsShared_example : IsShared handed_over
Grown-IsShared_example = Grown-IsShared plain handed_over-Grown

-- Then the new administrator can no longer be demoted.
test_last : (update_user_role "eve" role_user handed_over).0 ≡ err last_admin
unfolding update_user_role goshorty.Go.Map.lookup delete_user create_user goshorty.Go.Map.insert
    goshorty.Go.Map.delete
test_last = refl
