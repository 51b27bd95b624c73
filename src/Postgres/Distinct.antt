-- ===== src/Postgres/Distinct.antt =====
-- The users of the table (storage/postgres.go) by name and by ID, and an update of one of them.
use goshorty.Models.{User}
use goshorty.Users.{Bcrypt, UserError, users_unavailable}
use goshorty.Postgres.Accounts.{has_name, has_id, bump_user, with_version}
use goshorty.Prelude.{
  ◌≢◌, ◌≤◌, suc, String, ◌≡◌, refl, ap, false, some, Result, arith, str_eq, str_eq_iff,
  Option-cases, Bool-cases, inl, inr, leb,
}
use goshorty.UserStore.Contract.{
  full, bumped_user, UserModel, BumpOutcome, IsBumped, bumped, unknown, lost, failed,
}
use goshorty.Postgres.{
  Tables, Fate, answered, answer_lost, not_run, conclude, first_where, update_where,
}
use goshorty.Postgres.Urls.{bigint_bound}
use goshorty.Postgres.Rows.{UniqueNames}
use goshorty.Postgres.Unique.{UniqueBy, update-UniqueBy}
use goshorty.Postgres.Lookups.{
  first_where-passes, first_where-update_where, first_where-has_key, changed_row,
}

-- No two users have one name or one ID.
pub record AreDistinct (tables : Tables) : Type 0 where
  pub names : UniqueNames tables.users
  pub ids : UniqueBy (λ u. u.id) tables.users

abbrev pub users_model : UserModel Tables
users_model = record {
  named = λ name tables. first_where (has_name name) tables.users;
  of_id = λ id tables. first_where (has_id id) tables.users;
  IsSound = AreDistinct;
  next = λ v. suc v;
  IsFull = λ v. bigint_bound ≤ suc v;
}

pub lost-ne-answered : answer_lost ≢ answered
lost-ne-answered h = ground (arith, h)

pub not_run-ne-answered : not_run ≢ answered
not_run-ne-answered h = ground (arith, h)

module _ (bcrypt : Bcrypt) where
  -- The rows after an update of the user with this ID, which has a new hash and the next version.
  module _ (set : User → User) (id : String) (tables : Tables)
      (same_name : (u : User) → (set u).username ≡ u.username)
      (same_id : (u : User) → (set u).id ≡ u.id) where
    abbrev step : User → User
    step u = with_version bcrypt (set u)

    abbrev pub after_bump : Tables
    after_bump = record tables { users = update_where (has_id id) step tables.users }

    ids_after :
        (j : String)
        → first_where (has_id j) after_bump.users
          ≡ changed_row (has_id id) step (first_where (has_id j) tables.users)
    ids_after j =
        first_where-update_where (has_id j) (has_id id) step tables.users
          (λ u. ap (λ i. str_eq i j) (same_id u))

    names_after :
        (n : String)
        → first_where (has_name n) after_bump.users
          ≡ changed_row (has_id id) step (first_where (has_name n) tables.users)
    names_after n =
        first_where-update_where (has_name n) (has_id id) step tables.users
          (λ u. ap (λ i. str_eq i n) (same_name u))

    after-AreDistinct : AreDistinct tables → AreDistinct after_bump
    after-AreDistinct v = record {
      names =
          update-UniqueBy (λ u. u.username) (has_id id) step (λ u hit. same_name u) tables.users
            v.names;
      ids = update-UniqueBy (λ u. u.id) (has_id id) step (λ u hit. same_id u) tables.users v.ids;
    }

    other_id :
        (j : String)
        → str_eq id j ≡ false
        → first_where (has_id j) after_bump.users ≡ first_where (has_id j) tables.users
    other_id j other = elim (Option-cases (first_where (has_id j) tables.users)) [
      | inl missing ↦ ground (arith, ids_after j, missing)
      | inr (u, there) ↦
          let hit = first_where-passes (has_id j) tables.users u there in
          ground (
            arith,
            ids_after j,
            there,
            hit,
            other,
            str_eq_iff u.id j,
            str_eq_iff u.id id,
            str_eq_iff id j,
          )
    ]

    other_name :
        (before : User) (n : String)
        → AreDistinct tables
        → first_where (has_id id) tables.users ≡ some before
        → str_eq before.username n ≡ false
        → first_where (has_name n) after_bump.users ≡ first_where (has_name n) tables.users
    other_name before n v known other =
        elim (Option-cases (first_where (has_name n) tables.users)) [
          | inl missing ↦ ground (arith, names_after n, missing)
          | inr (u, there) ↦ elim (Bool-cases (has_id id u)) [
            | inr miss ↦ ground (arith, names_after n, there, miss)
            | inl hit ↦
                let bears = first_where-passes (has_name n) tables.users u there in
                let mine : first_where (has_id u.id) tables.users ≡ some u =
                  first_where-has_key (λ w. w.id) (has_name n) tables.users u v.ids there in
                let same : before ≡ u = ground (arith, known, mine, (str_eq_iff u.id id).0 hit) in
                absurd (ground (arith, bears, other, same))
          ]
        ]

    after-IsBumped :
        (hash : User → String) (before : User)
        → AreDistinct tables
        → first_where (has_id id) tables.users ≡ some before
        → step before ≡ bumped_user users_model hash before
        → IsBumped users_model id hash tables after_bump
    after-IsBumped hash before v known exact =
        let hit = first_where-passes (has_id id) tables.users before known in
        let named =
          first_where-has_key (λ w. w.username) (has_id id) tables.users before v.names known in
        record {
          before = before;
          known = known;
          known_after = ground (arith, ids_after id, known, hit, exact);
          named_after = ground (arith, names_after before.username, named, hit, exact);
          other_ids = other_id;
          other_names = λ n other. other_name before n v known other;
          sound = after-AreDistinct v;
        }

    -- The statement, and what becomes of its call.
    pub bump_user-Outcome :
        (hash : User → String) (fate : Fate)
        → AreDistinct tables
        → ((u : User) → step u ≡ bumped_user users_model hash u)
        → let result : Result UserError (Unit {0}) × Tables =
            conclude fate users_unavailable tables (bump_user bcrypt set id tables) in
          BumpOutcome users_model (fate ≢ answered) id hash tables result.0 result.1
    unfolding bump_user
    bump_user-Outcome hash not_run v exact = failed not_run-ne-answered refl refl
    bump_user-Outcome hash answered v exact =
        elim (Option-cases (first_where (has_id id) tables.users)) [
          | inl missing ↦ rw (bump_user, missing) (unknown missing refl refl)
          | inr (u, known) ↦ elim (Bool-cases (leb bigint_bound (suc u.token_version))) [
            | inl big ↦ rw (bump_user, known, big) (full u known (ground (arith, big)) refl refl)
            | inr fits ↦
                rw (bump_user, known, fits) (bumped refl (after-IsBumped hash u v known (exact u)))
          ]
        ]
    bump_user-Outcome hash answer_lost v exact =
        elim (Option-cases (first_where (has_id id) tables.users)) [
          | inl missing ↦ rw (bump_user, missing) (failed lost-ne-answered refl refl)
          | inr (u, known) ↦ elim (Bool-cases (leb bigint_bound (suc u.token_version))) [
            | inl big ↦ rw (bump_user, known, big) (failed lost-ne-answered refl refl)
            | inr fits ↦
                rw (bump_user, known, fits)
                  (lost lost-ne-answered refl (after-IsBumped hash u v known (exact u)))
          ]
        ]
