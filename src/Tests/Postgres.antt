-- ===== src/Tests/Postgres.antt =====
-- Examples of the theorems on the PostgreSQL store.
use goshorty.Prelude.{
  ◌/◌, ◌*◌, String, ◌≡◌, refl, ap, str_lt, Option, some, List, [], ◌∷◌, ok, arith, All,
}
use goshorty.Prelude.Int.{ℤ, pos, negsuc}
use goshorty.Go.Map.{lookup}
use goshorty.Models.{UrlData, role_admin, UserCursor}
use goshorty.Storage.{tick}
use goshorty.Random.{generate_id}
use goshorty.UserStore.{UserDraws}
use goshorty.Postgres.{Tables, answered, answer_lost, not_run}
use goshorty.Postgres.Urls.{set_if_absent, get_and_increment, run_cleanup}
use goshorty.Postgres.Accounts.{bootstrap_admin, create_user, update_user_role, delete_user}
use goshorty.UrlStore.{UrlStoreLaws}
use goshorty.Postgres.View.{view}
use goshorty.Postgres.Contract.{DatabaseLaws, postgres_store, postgres_model, postgres_store-laws}
use goshorty.Postgres.Visits.{VisitOutcome, get_and_increment-Outcome}
use goshorty.Postgres.Cleanup.{run_cleanup-view}
use goshorty.Postgres.Clearing.{expired_rows, run_cleanup-expired_rows}
use goshorty.Postgres.Integrity.{Integrity}
use goshorty.Postgres.Reach.{
  Reach, start, next, creates, sets_role, deletes, sets_link, visits, Reach-Integrity,
}
use goshorty.Postgres.Pages.{by_bytes-IsCollation}
use goshorty.Postgres.UserPages.{list_users-same}
use goshorty.Users
use goshorty.Postgres.Accounts
use goshorty.Postgres.Users.{UserFates}
use goshorty.Postgres.Migrations.{Database, migrate, migrate_twice}
use goshorty.Tests.Store.{url_a, url_b}
use goshorty.Tests.Sessions.{alice, accounts}
use goshorty.Tests.Handlers.{plain, accounts-IsShared}

-- The database of these examples keeps whole multiples of ten.
abbrev tens : ℤ → ℤ
tens z = elim z [ pos n ↦ pos (n / 10 * 10) | other ↦ other ]

abbrev tables : Tables
tables = record { users = record alice { id = "u1" } ∷ []; urls = url_a ∷ url_b ∷ [] }

get_and_increment-Outcome_example :
    VisitOutcome (pos 5) "a" tables (get_and_increment answer_lost (pos 5) "a" tables)
get_and_increment-Outcome_example =
    get_and_increment-Outcome (pos 5) "a" tables ((refl, tt), (tt, tt)) answer_lost

run_cleanup-view_example :
    view
      (pos 80)
      (run_cleanup 500 ((tick (pos 60), answered) ∷ (tick (pos 70), answer_lost) ∷ []) tables)
      "a"
    ≡ some url_a
unfolding goshorty.Postgres.first_where
run_cleanup-view_example =
    run_cleanup-view 500 ((tick (pos 60), answered) ∷ (tick (pos 70), answer_lost) ∷ []) (pos 80)
      tables "a" ((refl, tt), (tt, tt)) (omega arith, (omega arith, tt))

run_cleanup-expired_rows_example :
    expired_rows
      (pos 100)
      (run_cleanup 2 ((tick (pos 100), not_run) ∷ (tick (pos 110), answer_lost) ∷ []) tables)
    ≡ []
run_cleanup-expired_rows_example =
    run_cleanup-expired_rows (pos 100) 2
      ((tick (pos 100), not_run) ∷ (tick (pos 110), answer_lost) ∷ []) tables
      (omega arith, (omega arith, tt)) (omega arith)

tens_idempotent : (t : ℤ) → tens (tens t) ≡ tens t
tens_idempotent (pos n) = ap pos (omega arith)
tens_idempotent (negsuc n) = refl

by_tens : DatabaseLaws tens str_lt
by_tens = record { idempotent = tens_idempotent; collation = by_bytes-IsCollation }

postgres_store-laws_example :
    UrlStoreLaws (postgres_model tens str_lt by_tens) (postgres_store tens str_lt by_tens)
postgres_store-laws_example = postgres_store-laws tens str_lt by_tens

abbrev first_draws : UserDraws
first_draws = record { salt = 0; id_draws = λ i. 0; now = pos 1 }

abbrev next_draws : UserDraws
next_draws = record { salt = 1; id_draws = λ i. 1; now = pos 2 }

abbrev nothing : Tables
nothing = record { users = []; urls = [] }

abbrev first : Tables
first = (bootstrap_admin plain answered first_draws "secret" "root@example" nothing).1

abbrev second : Tables
second = (create_user plain answer_lost next_draws "eve" "pw" "eve@example" first).1

abbrev by_eve : UrlData
by_eve = record url_a { created_by = generate_id (λ i. 1) }

abbrev linked : Tables
linked = (set_if_absent tens answer_lost (pos 5) "a" by_eve second).1

abbrev visited : Tables
visited = (get_and_increment answered (pos 6) "a" linked).1

abbrev handed_over : Tables
handed_over =
    (delete_user answered "admin" (update_user_role answered "eve" role_admin visited).1).1

one_visit : handed_over.urls ≡ record by_eve { created_at = pos 0; visits = 1 } ∷ []
unfolding bootstrap_admin goshorty.Postgres.first_where delete_user update_user_role
    get_and_increment set_if_absent create_user generate_id goshorty.Postgres.update_where
one_visit = refl

handed_over-Reach : Reach tens plain handed_over
unfolding bootstrap_admin goshorty.Postgres.first_where
handed_over-Reach =
    next
      (next
        (next
          (next
            (next (start first_draws "secret" "root@example" refl)
              (creates answer_lost next_draws "eve" "pw" "eve@example"))
            (sets_link answer_lost (pos 5) "a" by_eve))
          (visits answered (pos 6) "a"))
        (sets_role answered "eve" role_admin))
      (deletes answered "admin")

Reach-Integrity_example : Integrity tens handed_over
Reach-Integrity_example = Reach-Integrity tens tens_idempotent plain handed_over-Reach

-- The answers of the requests that write are lost.
abbrev some_lost : UserFates
some_lost = record {
  at_create_user = answered;
  at_get_user = answered;
  at_get_user_by_id = not_run;
  at_verify_password = answered;
  at_update_password = answer_lost;
  at_revoke_tokens = answer_lost;
  at_update_user_role = answered;
  at_get_all_users = answered;
  at_list_users = answered;
  at_delete_user = answered;
}

abbrev in_table : Tables
in_table = record { users = alice ∷ []; urls = [] }

abbrev from_a : UserCursor
from_a = record { username = "a" }

list_users-same_example :
    Accounts.list_users str_lt answered from_a 5 in_table in_table
    ≡ ok (Users.list_users from_a 5 accounts)
unfolding lookup goshorty.Postgres.first_where
list_users-same_example =
    list_users-same accounts in_table accounts-IsShared (tt, tt) (λ name. ground arith) from_a 5

-- A migration adds its text to the schema, and its checksum is the text.
abbrev files : List (String × String)
files = ("001", "users") ∷ ("002", "versions") ∷ []

abbrev add : String → List String → Option (List String)
add text schema = some (text ∷ schema)

abbrev fresh : Database (List String)
fresh = record { ledger = []; content = [] }

abbrev migrated : Database (List String)
migrated = (migrate (λ text. text) add files fresh).1

migrate_twice_example :
    All (λ (version, migration). lookup version migrated.ledger ≡ some (some migration)) files
    × (migrate (λ text. text) add files migrated ≡ (ok tt, migrated))
unfolding migrate lookup goshorty.Go.Map.insert goshorty.Go.Map.delete
migrate_twice_example = migrate_twice (λ text. text) add files fresh refl
