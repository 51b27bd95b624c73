-- ===== src/Users/Reach.antt =====
-- The states of the user store (storage/user.go) that the program can reach.
use goshorty.Prelude.{ℕ, String, ◌≡◌, refl, some, Option-cases, inl, inr, subst, arith}
use goshorty.Prelude.Int.{ℤ}
use goshorty.Go.Map.{insert, delete}
use goshorty.Models.{User}
use goshorty.Users.{
  Bcrypt, UserStorage, admin_count, new_user_storage, create_user, update_password, revoke_tokens,
  update_user_role, delete_user, add_user, admin_user, empty_storage,
}
use goshorty.Users.Admins.{
  Inv, revoke_tokens-Inv, update_password-Inv, update_user_role-Inv, delete_user-Inv,
  create_user-Inv,
}

first-Inv :
    (draws : ℕ → ℕ) (now : ℤ) (hash email : String) (blank : User)
    → Inv (add_user (admin_user draws now hash email) (empty_storage blank))
unfolding insert delete admin_count
first-Inv draws now hash email blank = record {
  unique = (tt, tt);
  named = ((refl, omega arith), tt);
  has_admin = omega arith;
}

module _ (bcrypt : Bcrypt) where
  -- One call of a method that changes the store, whether it succeeds or not.
  pub data Step (us : UserStorage) : UserStorage → Type 0 where
    creates :
        (salt : ℕ) (draws : ℕ → ℕ) (now : ℤ) (username password email : String)
        → Step us (create_user bcrypt salt draws now username password email us).1
    changes_password :
        (salt : ℕ) (id password : String) → Step us (update_password bcrypt salt id password us).1
    revokes : (id : String) → Step us (revoke_tokens id us).1
    sets_role : (username role : String) → Step us (update_user_role username role us).1
    deletes : (username : String) → Step us (delete_user username us).1

  pub data Reach : UserStorage → Type 0 where
    start :
        {us : UserStorage} (salt : ℕ) (draws : ℕ → ℕ) (now : ℤ) (blank : User)
        (admin_password admin_email : String)
        → new_user_storage bcrypt salt draws now blank admin_password admin_email ≡ some us
        → Reach us
    next : {us us' : UserStorage} → Reach us → Step us us' → Reach us'

  start-Inv :
      {us : UserStorage} (salt : ℕ) (draws : ℕ → ℕ) (now : ℤ) (blank : User)
      (admin_password admin_email : String)
      → new_user_storage bcrypt salt draws now blank admin_password admin_email ≡ some us
      → Inv us
  unfolding new_user_storage
  start-Inv {us} salt draws now blank admin_password admin_email e =
      elim (Option-cases (bcrypt.generate salt admin_password)) [
        | inl f ↦ absurd (ground arith)
        | inr (hash, f) ↦
            let first = add_user (admin_user draws now hash admin_email) (empty_storage blank) in
            let same : first ≡ us = ground arith in
            subst Inv same (first-Inv draws now hash admin_email blank)
      ]

  Step-Inv : {us us' : UserStorage} → Step us us' → Inv us → Inv us'
  Step-Inv {us} (creates salt draws now username password email) v =
      create_user-Inv bcrypt salt draws now username password email us v
  Step-Inv {us} (changes_password salt id password) v =
      update_password-Inv bcrypt salt id password us v
  Step-Inv {us} (revokes id) v = revoke_tokens-Inv id us v
  Step-Inv {us} (sets_role username role) v = update_user_role-Inv username role us v
  Step-Inv {us} (deletes username) v = delete_user-Inv username us v

  -- In every state that the store can reach, at least one user is an administrator, no two users have
  -- one name, and the user found under a name bears it.
  pub Reach-keeps_admin : {us : UserStorage} → Reach us → Inv us
  Reach-keeps_admin (start salt draws now blank admin_password admin_email e) =
      start-Inv salt draws now blank admin_password admin_email e
  Reach-keeps_admin (next r st) = Step-Inv st (Reach-keeps_admin r)
