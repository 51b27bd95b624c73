-- ===== src/Postgres/Rows.antt =====
-- How the statements of storage/postgres.go on the users keep names unique, and how they change the number
-- of administrators.
use goshorty.Prelude.{
  ℕ, ◌+◌, String, ◌≡◌, refl, ap, subst, Bool, true, false, none, some, List, [], ◌∷◌, arith, length,
  str_eq_iff, All, keep_if, Bool-cases, inl, inr,
}
use goshorty.Models.{User}
use goshorty.Users.{is_admin}
use goshorty.Postgres.{first_where, update_where, delete_where}
use goshorty.Postgres.Unique.{UniqueBy}
use goshorty.Postgres.Accounts.{has_name}

abbrev pub UniqueNames : List User → Type 0
UniqueNames = UniqueBy (λ u. u.username)

abbrev pub bit : Bool → ℕ
bit true = 1
bit false = 0

abbrev pub count : List User → ℕ
count us = length (keep_if is_admin us)

pub missing_name :
    (name : String) (us : List User)
    → first_where (has_name name) us ≡ none
    → All (λ v. has_name name v ≡ false) us
unfolding first_where
missing_name name [] h = tt
missing_name name (u ∷ us) h = ground (arith, missing_name name us)

module _ (p : User → Bool) (f : User → User) where
  pub update_count :
      ((u : User) → is_admin (f u) ≡ is_admin u)
      → (us : List User) → count (update_where p f us) ≡ count us
  unfolding update_where
  update_count same [] = refl
  update_count same (u ∷ us) = ground (arith, update_count same us, same u)

no_update :
    (name : String) (f : User → User) (us : List User)
    → All (λ v. has_name name v ≡ false) us
    → update_where (has_name name) f us ≡ us
unfolding update_where
no_update name f [] h = refl
no_update name f (u ∷ us) h = ground (arith, h.0, no_update name f us h.1)

pub no_delete :
    (name : String) (us : List User)
    → All (λ v. has_name name v ≡ false) us
    → delete_where (has_name name) us ≡ us
no_delete name [] h = refl
no_delete name (u ∷ us) h = ground (arith, h.0, no_delete name us h.1)

-- The count after a change of the one user of a name.
pub count-update :
    (name : String) (f : User → User) (us : List User) (user : User)
    → UniqueNames us
    → first_where (has_name name) us ≡ some user
    → count (update_where (has_name name) f us) + bit (is_admin user)
      ≡ count us + bit (is_admin (f user))
unfolding first_where update_where
count-update name f [] user h e = absurd (ground arith)
count-update name f (u ∷ us) user h e = elim (Bool-cases (has_name name u)) [
  | inr miss ↦ ground (arith, miss, count-update name f us user h.1)
  | inl hit ↦
      let same = (str_eq_iff u.username name).0 hit in
      let others = subst (λ n. All (λ v. has_name n v ≡ false) us) same h.0 in
      let is_user : u ≡ user = ground arith in
      ground (arith, hit, no_update name f us others, is_user, ap f is_user)
]

pub count-delete :
    (name : String) (us : List User) (user : User)
    → UniqueNames us
    → first_where (has_name name) us ≡ some user
    → count (delete_where (has_name name) us) + bit (is_admin user) ≡ count us
unfolding first_where
count-delete name [] user h e = absurd (ground arith)
count-delete name (u ∷ us) user h e = elim (Bool-cases (has_name name u)) [
  | inr miss ↦ ground (arith, miss, count-delete name us user h.1)
  | inl hit ↦
      let same = (str_eq_iff u.username name).0 hit in
      let others = subst (λ n. All (λ v. has_name n v ≡ false) us) same h.0 in
      let is_user : u ≡ user = ground arith in
      ground (arith, hit, no_delete name us others, is_user)
]
