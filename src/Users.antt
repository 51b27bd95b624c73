-- ===== src/Users.antt =====
-- storage/user.go: the in-memory user store. Its two maps share the user objects, so users live in a
-- heap and the maps hold addresses. bcrypt is a parameter. Each method is one step, under the lock.
pub mod Admins
pub mod Reach
use goshorty.Prelude.{
  ℕ, suc, String, Bool, true, false, not, ◌&&◌, Option, none, some, List, [], ◌∷◌, Result, ok, err,
  ◌==◌, leb, str_eq, str_lt, if◌then◌else◌, length, get_elem?,
}
use goshorty.Prelude.Int.{ℤ}
use goshorty.Go.Map.{Map, lookup, insert, delete}
use goshorty.Go.Sort.{slice_stable}
use goshorty.Go.Search.{search}
use goshorty.Paging.{ListResult, slice_from}
use goshorty.Random.{generate_id}
use goshorty.Models.{User, UserCursor, role_admin, role_user, add64}

pub data UserError : Type 0 where
  user_not_found username_exists invalid_role last_admin hash_failed : UserError
  -- A failure of the store itself, which the one in memory does not have.
  users_unavailable : UserError

abbrev pub default_admin : String
default_admin = "admin"

-- `GenerateFromPassword` with the salt that it draws, which fails on a long password, and
-- `CompareHashAndPassword`.
pub record Bcrypt : Type 0 where
  pub generate : ℕ → String → Option String
  pub compare : String → String → Bool

abbrev pub Address : Type 0
Address = ℕ

-- `heap` from `next_address` on is not in use.
pub record UserStorage : Type 0 where
  pub users : Map Address
  pub by_id : Map Address
  pub heap : Address → User
  pub next_address : Address

abbrev pub write : Address → User → (Address → User) → Address → User
write p u heap q = if p == q then u else heap q

abbrev pub is_admin : User → Bool
is_admin u = str_eq u.role role_admin

-- `user` as a new object, under its name and its ID.
abbrev pub add_user : User → UserStorage → UserStorage
add_user u us = record {
  users = insert u.username us.next_address us.users;
  by_id = insert u.id us.next_address us.by_id;
  heap = write us.next_address u us.heap;
  next_address = suc us.next_address;
}

-- `adminCountLocked`
unfoldable pub admin_count : (Address → User) → Map Address → ℕ
admin_count heap [] = 0
admin_count heap ((_, p) ∷ m) =
    let rest = admin_count heap m in if is_admin (heap p) then suc rest else rest

-- `user.TokenVersion++`
abbrev pub bump_version : User → User
bump_version u = record u { token_version = add64 u.token_version 1 }

abbrev pub admin_user : (ℕ → ℕ) → ℤ → String → String → User
admin_user draws now admin_pass admin_email = record {
  id = generate_id draws;
  username = default_admin;
  password = admin_pass;
  email = admin_email;
  role = role_admin;
  created_at = now;
  token_version = 0;
}

abbrev pub empty_storage : User → UserStorage
empty_storage blank = record { users = []; by_id = []; heap = λ p. blank; next_address = 0 }

module _ (bcrypt : Bcrypt) where
  -- `blank` is what unused addresses hold; nothing reads it.
  unfoldable pub new_user_storage : ℕ → (ℕ → ℕ) → ℤ → User → String → String → Option UserStorage
  new_user_storage salt draws now blank admin_password admin_email =
      elim (bcrypt.generate salt admin_password) [
        | none ↦ none
        | some admin_pass ↦
            some (add_user (admin_user draws now admin_pass admin_email) (empty_storage blank))
      ]

  unfoldable pub create_user :
      ℕ → (ℕ → ℕ) → ℤ → String → String → String → UserStorage → Result UserError User × UserStorage
  create_user salt draws now username password email us = elim (lookup username us.users) [
    | some p ↦ (err username_exists, us)
    | none ↦ (elim (bcrypt.generate salt password) [
      | none ↦ (err hash_failed, us)
      | some pass_hash ↦
          let user : User = record {
            id = generate_id draws;
            username = username;
            password = pass_hash;
            email = email;
            role = role_user;
            created_at = now;
            token_version = 0;
          } in
          (ok user, add_user user us)
    ])
  ]

  -- The hash is made before the lock is taken.
  unfoldable pub update_password :
      ℕ → String → String → UserStorage → Result UserError (Unit {0}) × UserStorage
  update_password salt user_id password us = elim (bcrypt.generate salt password) [
    | none ↦ (err hash_failed, us)
    | some password_hash ↦ (elim (lookup user_id us.by_id) [
      | none ↦ (err user_not_found, us)
      | some p ↦ (
        ok tt,
        record us {
          heap = write p (bump_version (record (us.heap p) { password = password_hash })) us.heap;
        },
      )
    ])
  ]

unfoldable pub get_user : String → UserStorage → Result UserError User
get_user username us = elim (lookup username us.users) [
  | none ↦ err user_not_found
  | some p ↦ ok (us.heap p)
]

unfoldable pub get_user_by_id : String → UserStorage → Result UserError User
get_user_by_id id us = elim (lookup id us.by_id) [
  | none ↦ err user_not_found
  | some p ↦ ok (us.heap p)
]

-- Without such a user, bcrypt runs too, for its time, and its answer is thrown away.
unfoldable pub verify_password : Bcrypt → String → String → UserStorage → Result UserError Bool
unfolding get_user
verify_password bcrypt username password us = elim (get_user username us) [
  | err e ↦ err e
  | ok user ↦ ok (bcrypt.compare user.password password)
]

unfoldable pub revoke_tokens : String → UserStorage → Result UserError (Unit {0}) × UserStorage
revoke_tokens user_id us = elim (lookup user_id us.by_id) [
  | none ↦ (err user_not_found, us)
  | some p ↦ (ok tt, record us { heap = write p (bump_version (us.heap p)) us.heap })
]

unfoldable pub update_user_role :
    String → String → UserStorage → Result UserError (Unit {0}) × UserStorage
unfolding admin_count
update_user_role username role us = elim (lookup username us.users) [
  | none ↦ (err user_not_found, us)
  | some p ↦
      if not (str_eq role role_admin) && not (str_eq role role_user)
      then (err invalid_role, us)
      else if is_admin (us.heap p)
          && (not (str_eq role role_admin) && leb (admin_count us.heap us.users) 1)
      then (err last_admin, us)
      else (ok tt, record us { heap = write p (record (us.heap p) { role = role }) us.heap })
]

-- The objects of a `range` over a map.
abbrev pub values : (Address → User) → Map Address → List User
values heap [] = []
values heap ((_, p) ∷ m) = heap p ∷ values heap m

unfoldable pub get_all_users : UserStorage → List User
get_all_users us = values us.heap us.by_id

abbrev pub by_username : User → User → Bool
by_username u v = str_lt u.username v.username

abbrev pub past_cursor : List User → UserCursor → ℕ → Bool
past_cursor all cursor i = elim (get_elem? all i) [
  | none ↦ false
  | some u ↦ str_lt cursor.username u.username
]

unfoldable pub list_users : UserCursor → ℕ → UserStorage → ListResult User
list_users cursor limit us =
    let all = slice_stable by_username (values us.heap us.by_id) in
    slice_from
      (if str_eq cursor.username "" then 0 else search (length all) (past_cursor all cursor)) all
      limit

unfoldable pub delete_user : String → UserStorage → Result UserError (Unit {0}) × UserStorage
unfolding admin_count
delete_user username us = elim (lookup username us.users) [
  | none ↦ (err user_not_found, us)
  | some p ↦
      let user = us.heap p in
      if is_admin user && leb (admin_count us.heap us.users) 1
      then (err last_admin, us)
      else (ok tt, record us { users = delete username us.users; by_id = delete user.id us.by_id })
]
