-- ===== src/Postgres/Integrity.antt =====
-- The integrity of the database (storage/postgres.go), which the work of each call preserves.
use goshorty.Prelude.{String, ◌≡◌, refl, arith, Bool, str_eq, Option-cases, inl, inr}
use goshorty.Prelude.Int.{ℤ}
use goshorty.Models.{User, UrlData}
use goshorty.Users.{Bcrypt}
use goshorty.Postgres.{Tables, first_where, delete_where}
use goshorty.Postgres.Urls.{run_set, run_delete, run_increment, is_live}
use goshorty.Postgres.Accounts.{has_name, insert_user, bump_user, run_update_role, run_delete_user}
use goshorty.Postgres.Valid.{Valid, delete-Valid, run_set-Valid, run_increment-Valid}
use goshorty.Postgres.Keyed.{Keyed, run_set-Keyed, run_increment-Keyed, delete-Keyed}
use goshorty.Postgres.Owners.{
  insert_user-Keyed, bump_user-Keyed, run_update_role-Keyed, run_delete_user-Keyed,
}
use goshorty.Postgres.Admins.{
  Inv, insert_user-Inv, bump_user-Inv, run_update_role-Inv, run_delete_user-Inv,
}

pub record Integrity (stamp : ℤ → ℤ) (tables : Tables) : Type 0 where
  -- Names of users are unique, and there is an administrator.
  pub accounts : Inv tables
  -- Short codes are unique, and the rows have times that the database can keep.
  pub valid : Valid stamp tables
  -- IDs are unique, and the creator of each link is a user.
  pub keyed : Keyed tables

module _ (stamp : ℤ → ℤ) (idempotent : (t : ℤ) → stamp (stamp t) ≡ stamp t) (bcrypt : Bcrypt) where
  -- The links change, and the users do not.
  same_users : (tables after : Tables) → after.users ≡ tables.users → Inv tables → Inv after
  same_users tables after same v = record {
    unique = rw same v.unique;
    has_admin = rw same v.has_admin;
  }

  -- The users change, and the links do not.
  same_urls :
      (tables after : Tables) → after.urls ≡ tables.urls → Valid stamp tables → Valid stamp after
  same_urls tables after same v = record { unique = rw same v.unique; stamped = rw same v.stamped }

  pub insert_user-Integrity :
      (u : User) (tables : Tables)
      → Integrity stamp tables
      → Integrity stamp (insert_user u tables).1
  unfolding insert_user
  insert_user-Integrity u tables g = record {
    accounts = insert_user-Inv u tables g.accounts;
    valid = same_urls tables (insert_user u tables).1 (ground arith) g.valid;
    keyed = insert_user-Keyed u tables g.keyed;
  }

  pub bump_user-Integrity :
      (set : User → User) (id : String) (tables : Tables)
      → ((u : User) → (set u).username ≡ u.username)
      → ((u : User) → (set u).role ≡ u.role)
      → ((u : User) → (set u).id ≡ u.id)
      → Integrity stamp tables
      → Integrity stamp (bump_user bcrypt set id tables).1
  unfolding bump_user
  bump_user-Integrity set id tables same_name same_role same_id g = record {
    accounts = bump_user-Inv bcrypt set id tables same_name same_role g.accounts;
    valid = same_urls tables (bump_user bcrypt set id tables).1 (ground arith) g.valid;
    keyed = bump_user-Keyed bcrypt set id tables same_id g.keyed;
  }

  pub run_update_role-Integrity :
      (username role : String) (tables : Tables)
      → Integrity stamp tables
      → Integrity stamp (run_update_role username role tables).1
  unfolding run_update_role
  run_update_role-Integrity username role tables g = record {
    accounts = run_update_role-Inv username role tables g.accounts;
    valid = same_urls tables (run_update_role username role tables).1 (ground arith) g.valid;
    keyed = run_update_role-Keyed username role tables g.keyed;
  }

  run_delete_user-Valid :
      (username : String) (tables : Tables)
      → Valid stamp tables
      → Valid stamp (run_delete_user username tables).1
  unfolding run_delete_user
  run_delete_user-Valid username tables v =
      elim (Option-cases (first_where (has_name username) tables.users)) [
        | inl missing ↦ ground (arith, missing, v)
        | inr (user, found) ↦
            let left = delete-Valid stamp (λ r. str_eq r.created_by user.id) tables v in
            ground (arith, found, v, left)
      ]

  pub run_delete_user-Integrity :
      (username : String) (tables : Tables)
      → Integrity stamp tables
      → Integrity stamp (run_delete_user username tables).1
  run_delete_user-Integrity username tables g = record {
    accounts = run_delete_user-Inv username tables g.accounts;
    valid = run_delete_user-Valid username tables g.valid;
    keyed = run_delete_user-Keyed username tables g.accounts.unique g.keyed;
  }

  pub deleted-Integrity :
      (p : UrlData → Bool) (tables : Tables)
      → Integrity stamp tables
      → Integrity stamp (record tables { urls = delete_where p tables.urls })
  deleted-Integrity p tables g = record {
    accounts =
        same_users tables (record tables { urls = delete_where p tables.urls }) refl g.accounts;
    valid = delete-Valid stamp p tables g.valid;
    keyed = delete-Keyed p tables g.keyed;
  }

  pub run_delete-Integrity :
      (now : ℤ) (code : String) (tables : Tables)
      → Integrity stamp tables
      → Integrity stamp (run_delete now code tables).1
  unfolding run_delete
  run_delete-Integrity now code tables g =
      let left = deleted-Integrity (is_live now code) tables g in ground (arith, g, left)

  pub run_increment-Integrity :
      (now : ℤ) (code : String) (tables : Tables)
      → Integrity stamp tables
      → Integrity stamp (run_increment now code tables).1
  unfolding run_increment
  run_increment-Integrity now code tables g = record {
    accounts = same_users tables (run_increment now code tables).1 (ground arith) g.accounts;
    valid = run_increment-Valid stamp idempotent now code tables g.valid;
    keyed = run_increment-Keyed now code tables g.keyed;
  }

  pub run_set-Integrity :
      (now : ℤ) (code : String) (u : UrlData) (tables : Tables)
      → Integrity stamp tables
      → Integrity stamp (run_set stamp now code u tables).1
  unfolding run_set
  run_set-Integrity now code u tables g = record {
    accounts = same_users tables (run_set stamp now code u tables).1 (ground arith) g.accounts;
    valid = run_set-Valid stamp idempotent now code u tables g.valid;
    keyed = run_set-Keyed stamp now code u tables g.valid.unique g.keyed;
  }
