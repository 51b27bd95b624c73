-- ===== src/Postgres/Owners.antt =====
-- The keys of storage/migrations through the statements of storage/postgres.go on the users.
use goshorty.Prelude.{
  suc, String, ◌≡◌, refl, ◌∙◌, subst, Bool, true, false, not, some, List, [], ◌∷◌, arith, str_eq,
  str_eq_iff, All, All-imp, Option-cases, Bool-cases, inl, inr,
}
use goshorty.Models.{User, UrlData}
use goshorty.Users.{Bcrypt}
use goshorty.Postgres.{Tables, first_where, update_where, delete_where, has_row}
use goshorty.Postgres.Unique.{missing-All, All-kept, delete-UniqueBy, update-UniqueBy}
use goshorty.Postgres.Accounts.{
  has_id, has_name, insert_user, bump_user, run_update_role, run_delete_user,
}
use goshorty.Postgres.Rows.{UniqueNames, no_delete}
use goshorty.Postgres.Keyed.{Keyed, IsOwned}

has_row-update :
    (i : String) (p : User → Bool) (f : User → User) (users : List User)
    → ((u : User) → (f u).id ≡ u.id)
    → has_row (has_id i) (update_where p f users) ≡ has_row (has_id i) users
unfolding first_where update_where
has_row-update i p f [] same = refl
has_row-update i p f (u ∷ us) same = ground (arith, has_row-update i p f us same, same u)

updated-Keyed :
    (p : User → Bool) (f : User → User) (tables : Tables)
    → ((u : User) → (f u).id ≡ u.id)
    → Keyed tables
    → Keyed (record tables { users = update_where p f tables.users })
updated-Keyed p f tables same k = record {
  ids = k.ids;
  user_ids = update-UniqueBy (λ u. u.id) p f (λ u hit. same u) tables.users k.user_ids;
  owned =
      All-imp (IsOwned tables.users) (IsOwned (update_where p f tables.users))
        (λ r h. has_row-update r.created_by p f tables.users same ∙ h) tables.urls k.owned;
}

has_row-cons :
    (i : String) (u : User) (users : List User)
    → has_row (has_id i) users ≡ true
    → has_row (has_id i) (u ∷ users) ≡ true
unfolding first_where
has_row-cons i u users h = ground (arith, h)

pub insert_user-Keyed : (u : User) (tables : Tables) → Keyed tables → Keyed (insert_user u tables).1
unfolding insert_user
insert_user-Keyed u tables k = elim (Bool-cases (has_row (has_id u.id) tables.users)) [
  | inl taken ↦ ground (arith, taken, k)
  | inr free ↦
      let inserted : Keyed (record tables { users = u ∷ tables.users }) = record {
        ids = k.ids;
        user_ids = (missing-All (has_id u.id) tables.users free, k.user_ids);
        owned =
            All-imp (IsOwned tables.users) (IsOwned (u ∷ tables.users))
              (λ r h. has_row-cons r.created_by u tables.users h) tables.urls k.owned;
      } in
      ground (arith, k, inserted)
]

pub bump_user-Keyed :
    (bcrypt : Bcrypt) (set : User → User) (id : String) (tables : Tables)
    → ((u : User) → (set u).id ≡ u.id)
    → Keyed tables
    → Keyed (bump_user bcrypt set id tables).1
unfolding bump_user
bump_user-Keyed bcrypt set id tables same k =
    let f : User → User = λ u. record (set u) { token_version = suc (set u).token_version } in
    let changed = updated-Keyed (has_id id) f tables same k in ground (arith, k, changed)

pub run_update_role-Keyed :
    (username role : String) (tables : Tables)
    → Keyed tables
    → Keyed (run_update_role username role tables).1
unfolding run_update_role
run_update_role-Keyed username role tables k =
    let changed =
      updated-Keyed (has_name username) (λ u. record u { role = role }) tables (λ u. refl) k in
    ground (arith, k, changed)

-- The deletion of a user leaves every other user.
others_left :
    (name i : String) (users : List User) (user : User)
    → UniqueNames users
    → first_where (has_name name) users ≡ some user
    → str_eq i user.id ≡ false
    → has_row (has_id i) users ≡ true
    → has_row (has_id i) (delete_where (has_name name) users) ≡ true
unfolding first_where
others_left name i [] user u e other h = absurd (ground arith)
others_left name i (v ∷ vs) user u e other h = elim (Bool-cases (has_name name v)) [
  | inr miss ↦ ground (arith, miss, others_left name i vs user u.1)
  | inl hit ↦
      let same = (str_eq_iff v.username name).0 hit in
      let others = subst (λ n. All (λ w. has_name n w ≡ false) vs) same u.0 in
      let is_user : v ≡ user = ground (arith, e, hit) in
      let elsewhere : str_eq i v.id ≡ false = rw is_user other in
      ground (arith, hit, no_delete name vs others, elsewhere, str_eq_iff i v.id, str_eq_iff v.id i)
]

pub run_delete_user-Keyed :
    (username : String) (tables : Tables)
    → UniqueNames tables.users
    → Keyed tables
    → Keyed (run_delete_user username tables).1
unfolding run_delete_user
run_delete_user-Keyed username tables unique k =
    elim (Option-cases (first_where (has_name username) tables.users)) [
      | inl missing ↦ ground (arith, missing, k)
      | inr (user, found) ↦
          let users = delete_where (has_name username) tables.users in
          let gone : UrlData → Bool = λ r. str_eq r.created_by user.id in
          let deleted : Keyed (record { users = users; urls = delete_where gone tables.urls }) =
            record {
              ids = delete-UniqueBy (λ r. r.id) gone tables.urls k.ids;
              user_ids = delete-UniqueBy (λ u. u.id) (has_name username) tables.users k.user_ids;
              owned =
                  All-kept (IsOwned users) (λ r. not (gone r)) tables.urls
                    (All-imp (IsOwned tables.users) (λ r. not (gone r) ≡ true → IsOwned users r)
                      (λ r h kept.
                        others_left username r.created_by tables.users user unique found
                          (ground (arith, kept)) h)
                      tables.urls k.owned);
            } in
          ground (arith, found, k, deleted)
    ]
