-- ===== src/Postgres/Admins.antt =====
-- The users table of storage/postgres.go: names are unique, and there is an administrator.
use goshorty.Prelude.{
  suc, ◌<◌, String, ◌≡◌, refl, ap, not, ◌&&◌, arith, str_eq, Bool-cases, Option-cases, inl, inr,
  leb,
}
use goshorty.Models.{User, role_admin}
use goshorty.Users.{Bcrypt, is_admin}
use goshorty.Postgres.{Tables, first_where, update_where}
use goshorty.Postgres.Accounts.{
  has_name, has_id, insert_user, user_violation, bump_user, run_update_role, run_delete_user,
  admin_rows,
}
use goshorty.Postgres.Unique.{update-UniqueBy, delete-UniqueBy}
use goshorty.Postgres.Rows.{UniqueNames, missing_name, update_count, count-update, count-delete}

pub record Inv (tables : Tables) : Type 0 where
  pub unique : UniqueNames tables.users
  pub has_admin : 0 < admin_rows tables

pub insert_user-Inv : (u : User) (tables : Tables) → Inv tables → Inv (insert_user u tables).1
unfolding insert_user user_violation
insert_user-Inv u tables v = elim (Option-cases (first_where (has_name u.username) tables.users)) [
  | inr (other, e) ↦ ground (arith, v, e)
  | inl e ↦
      let free = missing_name u.username tables.users e in
      elim (Option-cases (user_violation u tables)) [
        | inr (bad, f) ↦ rw (insert_user, f) v
        | inl fine ↦
            rw (insert_user, fine)
              (record { unique = (free, v.unique); has_admin = ground (arith, v.has_admin) })
      ]
]

pub bump_user-Inv :
    (bcrypt : Bcrypt) (set : User → User) (id : String) (tables : Tables)
    → ((u : User) → (set u).username ≡ u.username)
    → ((u : User) → (set u).role ≡ u.role)
    → Inv tables
    → Inv (bump_user bcrypt set id tables).1
unfolding bump_user
bump_user-Inv bcrypt set id tables same_name same_role v =
    let f : User → User = λ u. record (set u) { token_version = suc (set u).token_version } in
    let unique =
      update-UniqueBy (λ u. u.username) (has_id id) f (λ u hit. same_name u) tables.users
        v.unique in
    let kept : (u : User) → is_admin (f u) ≡ is_admin u =
      λ u. ap (λ r. str_eq r role_admin) (same_role u) in
    let counted = update_count (has_id id) f kept tables.users in
    let changed : Inv (record tables { users = update_where (has_id id) f tables.users }) = record {
      unique = unique;
      has_admin = ground (arith, counted, v.has_admin);
    } in
    ground (arith, v, changed)

pub run_update_role-Inv :
    (username role : String) (tables : Tables)
    → Inv tables
    → Inv (run_update_role username role tables).1
unfolding run_update_role
run_update_role-Inv username role tables v =
    let f : User → User = λ u. record u { role = role } in
    let unique =
      update-UniqueBy (λ u. u.username) (has_name username) f (λ u hit. refl) tables.users
        v.unique in
    elim (Option-cases (first_where (has_name username) tables.users)) [
      | inl e ↦ rw (run_update_role, e) v
      | inr (user, e) ↦
          let counted = count-update username f tables.users user v.unique e in
          elim (Bool-cases
            (is_admin user && (not (str_eq role role_admin) && leb (admin_rows tables) 1))) [
              | inl g ↦ rw (run_update_role, e, g) v
              | inr g ↦
                  rw (run_update_role, e, g)
                    (record {
                      unique = unique;
                      has_admin = ground (arith, counted, g, v.has_admin);
                    })
            ]
    ]

pub run_delete_user-Inv :
    (username : String) (tables : Tables) → Inv tables → Inv (run_delete_user username tables).1
unfolding run_delete_user
run_delete_user-Inv username tables v =
    let unique = delete-UniqueBy (λ u. u.username) (has_name username) tables.users v.unique in
    elim (Option-cases (first_where (has_name username) tables.users)) [
      | inl e ↦ rw (run_delete_user, e) v
      | inr (user, e) ↦
          let counted = count-delete username tables.users user v.unique e in
          elim (Bool-cases (is_admin user && leb (admin_rows tables) 1)) [
            | inl g ↦ rw (run_delete_user, e, g) v
            | inr g ↦
                rw (run_delete_user, e, g)
                  (record { unique = unique; has_admin = ground (arith, counted, g, v.has_admin) })
          ]
    ]
