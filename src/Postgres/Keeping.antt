-- ===== src/Postgres/Keeping.antt =====
-- What the calls of storage/postgres.go that change users keep of the others.
use goshorty.Models.{role_admin, User}
use goshorty.Users.{is_admin}
use goshorty.Postgres.Accounts.{
  admin_rows, insert_user, user_violation, run_update_role, run_delete_user, has_name, has_id,
}
use goshorty.Prelude.{
  ◌&&◌, not, ◌∷◌, String, ◌≡◌, refl, false, some, arith, str_eq, Option-cases, Bool-cases, inl, inr,
  leb,
}
use goshorty.UserStore.Contract.{KeepsVersion}
use goshorty.Postgres.{Tables, first_where, update_where, delete_where, has_row}
use goshorty.Postgres.Unique.{update-UniqueBy, delete-UniqueBy, missing-All}
use goshorty.Postgres.Lookups.{first_where-update_where, first_where-kept}
use goshorty.Postgres.Distinct.{AreDistinct, users_model}

-- What a call leaves: names and IDs, and the token version of the user with an ID.
pub record Keeping (id : String) (tables after : Tables) : Type 0 where
  pub distinct : AreDistinct after
  pub version : KeepsVersion users_model id tables after

pub same-Keeping : (id : String) (tables : Tables) → AreDistinct tables → Keeping id tables tables
same-Keeping id tables v = record { distinct = v; version = λ u h. (u, h, refl) }

pub insert_user-AreDistinct :
    (u : User) (tables : Tables) → AreDistinct tables → AreDistinct (insert_user u tables).1
unfolding insert_user user_violation
insert_user-AreDistinct u tables v = elim (Bool-cases (has_row (has_id u.id) tables.users)) [
  | inl taken ↦ ground (arith, taken, v)
  | inr new_id ↦ elim (Bool-cases (has_row (has_name u.username) tables.users)) [
    | inl taken ↦ ground (arith, new_id, taken, v)
    | inr new_name ↦
        let inserted : AreDistinct (record tables { users = u ∷ tables.users }) = record {
          names = (missing-All (has_name u.username) tables.users new_name, v.names);
          ids = (missing-All (has_id u.id) tables.users new_id, v.ids);
        } in
        ground (arith, new_id, new_name, inserted)
  ]
]

pub insert_user-Keeping :
    (u : User) (id : String) (tables : Tables)
    → AreDistinct tables
    → str_eq u.id id ≡ false
    → Keeping id tables (insert_user u tables).1
unfolding insert_user user_violation first_where
insert_user-Keeping u id tables v other = record {
  distinct = insert_user-AreDistinct u tables v;
  version = λ w h. (w, ground (arith, h, other), refl);
}

run_update_role-either :
    (P : Tables → Type 0) (username role : String) (tables : Tables) (user : User)
    → first_where (has_name username) tables.users ≡ some user
    → P tables
    → P (record tables {
      users = update_where (has_name username) (λ u. record u { role = role }) tables.users;
    })
    → P (run_update_role username role tables).1
unfolding run_update_role
run_update_role-either P username role tables user there_is before after =
    elim (Bool-cases
      (is_admin user && (not (str_eq role role_admin) && leb (admin_rows tables) 1))) [
        | inl last ↦ rw (run_update_role, there_is, last) before
        | inr free ↦ rw (run_update_role, there_is, free) after
      ]

run_delete_user-either :
    (P : Tables → Type 0) (username : String) (tables : Tables) (user : User)
    → first_where (has_name username) tables.users ≡ some user
    → P tables
    → P (record {
      users = delete_where (has_name username) tables.users;
      urls = delete_where (λ r. str_eq r.created_by user.id) tables.urls;
    })
    → P (run_delete_user username tables).1
unfolding run_delete_user
run_delete_user-either P username tables user there_is before after =
    elim (Bool-cases (is_admin user && leb (admin_rows tables) 1)) [
      | inl last ↦ rw (run_delete_user, there_is, last) before
      | inr free ↦ rw (run_delete_user, there_is, free) after
    ]

pub run_update_role-Keeping :
    (username role id : String) (tables : Tables)
    → AreDistinct tables
    → Keeping id tables (run_update_role username role tables).1
unfolding run_update_role
run_update_role-Keeping username role id tables v =
    elim (Option-cases (first_where (has_name username) tables.users)) [
      | inl missing ↦ let kept = same-Keeping id tables v in rw (run_update_role, missing) kept
      | inr (user, there_is) ↦
          let set : User → User = λ u. record u { role = role } in
          let users = update_where (has_name username) set tables.users in
          let seen =
            first_where-update_where (has_id id) (has_name username) set tables.users (λ u. refl) in
          let changed : Keeping id tables (record tables { users = users }) = record {
            distinct = record {
              names =
                  update-UniqueBy (λ u. u.username) (has_name username) set (λ u hit. refl)
                    tables.users v.names;
              ids =
                  update-UniqueBy (λ u. u.id) (has_name username) set (λ u hit. refl) tables.users
                    v.ids;
            };
            version = λ w h. elim (Option-cases (first_where (has_id id) tables.users)) [
              | inl none_there ↦ absurd (ground (arith, h, seen, none_there))
              | inr (u, there) ↦ (u, there, ground (arith, h, seen, there))
            ];
          } in
          let kept = same-Keeping id tables v in
          run_update_role-either (Keeping id tables) username role tables user there_is kept changed
    ]

pub run_delete_user-Keeping :
    (username id : String) (tables : Tables)
    → AreDistinct tables
    → Keeping id tables (run_delete_user username tables).1
unfolding run_delete_user
run_delete_user-Keeping username id tables v =
    elim (Option-cases (first_where (has_name username) tables.users)) [
      | inl missing ↦ let kept = same-Keeping id tables v in rw (run_delete_user, missing) kept
      | inr (user, there_is) ↦
          let after : Tables = record {
            users = delete_where (has_name username) tables.users;
            urls = delete_where (λ r. str_eq r.created_by user.id) tables.urls;
          } in
          let deleted : Keeping id tables after = record {
            distinct = record {
              names = delete-UniqueBy (λ u. u.username) (has_name username) tables.users v.names;
              ids = delete-UniqueBy (λ u. u.id) (has_name username) tables.users v.ids;
            };
            version = λ w h. (
              w,
              first_where-kept (λ u. u.id) id (has_name username) tables.users w v.ids h,
              refl,
            );
          } in
          let kept = same-Keeping id tables v in
          run_delete_user-either (Keeping id tables) username tables user there_is kept deleted
    ]
