-- ===== src/Postgres.antt =====
-- storage/postgres.go over the tables of storage/migrations. A table is the list of its rows, in the order
-- in which the database would visit them, and a statement of the code is a function on the tables: what
-- SQL says of it, with the constraints of the schema. `now` is what `NOW()` returns to the statement.
pub mod Unique
pub mod Urls
pub mod Accounts
pub mod Migrations
pub mod View
pub mod Clearing
pub mod Visits
pub mod Valid
pub mod Pages
pub mod Listed
pub mod Cases
pub mod Contract
pub mod Cleanup
pub mod Rows
pub mod Keyed
pub mod Owners
pub mod Calls
pub mod Integrity
pub mod Lookups
pub mod Distinct
pub mod Keeping
pub mod Users
pub mod UserPages
pub mod Reach
pub mod Admins
use goshorty.Prelude.{
  ℕ, String, Bool, true, false, ◌&&◌, Option, none, some, List, [], ◌∷◌, Result, ok, err, str_eq,
  map, keep_if, not, if◌then◌else◌, is_some,
}
use goshorty.Prelude.Int.{ℤ}
use goshorty.Models.{User, UrlData}

pub record Tables : Type 0 where
  pub users : List User
  pub urls : List UrlData

-- What becomes of a call of the database: it answers; or it fails or runs out of its five seconds, after
-- the database has carried it out, or without that.
pub data Fate : Type 0 where
  answered answer_lost not_run : Fate

-- The result of a call, from what it answers if it does, the error otherwise, and the tables before. A
-- transaction that does not reach its commit is rolled back, so it too is carried out whole or not.
abbrev pub conclude {ℓ κ} :
    {E : Type ℓ} {A : Type κ} → Fate → E → Tables → Result E A × Tables → Result E A × Tables
conclude answered e before (answer, after) = (answer, after)
conclude answer_lost e before (answer, after) = (err e, after)
conclude not_run e before (answer, after) = (err e, before)

-- `pgconn.PgError`
pub record PgError : Type 0 where
  pub code : String
  pub constraint_name : String

pub data MappedError : Type 0 where
  mapped_username_exists mapped_key_exists mapped_other : MappedError

-- `mapPostgresError` of a `PgError`, or of another error.
unfoldable pub map_postgres_error : Option PgError → MappedError
map_postgres_error none = mapped_other
map_postgres_error (some e) =
    if str_eq e.code "23505"
    then if str_eq e.constraint_name "users_username_key"
      then mapped_username_exists
      else if str_eq e.constraint_name "urls_short_code_key"
      then mapped_key_exists
      else mapped_other
    else mapped_other

module _ {ℓ} {A : Type ℓ} where
  -- The row of a `QueryRow`, the first one that meets the condition.
  unfoldable pub first_where : (A → Bool) → List A → Option A
  first_where p [] = none
  first_where p (r ∷ rs) = if p r then some r else first_where p rs

  -- `UPDATE ... SET ... WHERE`
  unfoldable pub update_where : (A → Bool) → (A → A) → List A → List A
  update_where p f [] = []
  update_where p f (r ∷ rs) = let rest = update_where p f rs in if p r then f r ∷ rest else r ∷ rest

  -- `DELETE ... WHERE`
  abbrev pub delete_where : (A → Bool) → List A → List A
  delete_where p = keep_if (λ r. not (p r))

  -- Whether a row meets the condition: `RowsAffected() != 0`.
  abbrev pub has_row : (A → Bool) → List A → Bool
  has_row p rows = is_some (first_where p rows)
