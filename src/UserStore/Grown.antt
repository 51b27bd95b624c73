-- ===== src/UserStore/Grown.antt =====
-- The states of the in-memory user store (storage/user.go) whose new users have got new IDs: in them the two
-- maps show one set of users.
use goshorty.Prelude.{
  ℕ, String, ◌≡◌, refl, none, some, arith, str_eq_iff, Option-cases, inl, inr, subst,
}
use goshorty.Prelude.Int.{ℤ}
use goshorty.Go.Map.{lookup, insert, delete}
use goshorty.Models.{User}
use goshorty.Random.{generate_id}
use goshorty.Users.{
  Bcrypt, Address, UserStorage, add_user, admin_user, empty_storage, new_user_storage,
}
use goshorty.Users.Reach.{Step, creates, changes_password, revokes, sets_role, deletes}
use goshorty.UserStore.Shared.{IsShared}
use goshorty.UserStore.Changes.{
  create_user-IsShared, update_password-IsShared, revoke_tokens-IsShared, update_user_role-IsShared,
  delete_user-IsShared,
}

first-IsShared :
    (draws : ℕ → ℕ) (now : ℤ) (hash email : String) (blank : User)
    → IsShared (add_user (admin_user draws now hash email) (empty_storage blank))
unfolding insert delete lookup
first-IsShared draws now hash email blank =
    let us = add_user (admin_user draws now hash email) (empty_storage blank) in
    record {
      ids = (tt, tt);
      in_use = λ id p h. ground (arith, h);
      by_name = λ name p h.
          ground
            (arith, h, str_eq_iff "admin" name, str_eq_iff (generate_id draws) (generate_id draws));
      by_id = λ id p h.
          let here : 0 ≡ p = ground (arith, h) in
          subst
            (λ (q : Address).
              ((us.heap q).id ≡ id) × (lookup (us.heap q).username us.users ≡ some q))
            here (ground (arith, h, str_eq_iff (generate_id draws) id), refl);
    }

module _ (bcrypt : Bcrypt) where
  -- The ID drawn for a new user is nobody's.
  abbrev pub DrawsNewId : {us us' : UserStorage} → Step bcrypt us us' → Type 0
  DrawsNewId {us} (creates salt draws now username password email) =
      lookup (generate_id draws) us.by_id ≡ none
  DrawsNewId other = Unit

  pub data Grown : UserStorage → Type 0 where
    begins :
        {us : UserStorage} (salt : ℕ) (draws : ℕ → ℕ) (now : ℤ) (blank : User)
        (admin_password admin_email : String)
        → new_user_storage bcrypt salt draws now blank admin_password admin_email ≡ some us
        → Grown us
    goes_on :
        {us us' : UserStorage} → Grown us → (st : Step bcrypt us us') → DrawsNewId st → Grown us'

  begins-IsShared :
      {us : UserStorage} (salt : ℕ) (draws : ℕ → ℕ) (now : ℤ) (blank : User)
      (admin_password admin_email : String)
      → new_user_storage bcrypt salt draws now blank admin_password admin_email ≡ some us
      → IsShared us
  unfolding new_user_storage
  begins-IsShared {us} salt draws now blank admin_password admin_email e =
      elim (Option-cases (bcrypt.generate salt admin_password)) [
        | inl f ↦ absurd (ground arith)
        | inr (hash, f) ↦
            let first = add_user (admin_user draws now hash admin_email) (empty_storage blank) in
            let same : first ≡ us = ground arith in
            subst IsShared same (first-IsShared draws now hash admin_email blank)
      ]

  Step-IsShared :
      {us us' : UserStorage} (st : Step bcrypt us us') → DrawsNewId st → IsShared us → IsShared us'
  Step-IsShared {us} (creates salt draws now username password email) new s =
      create_user-IsShared bcrypt us s salt draws now username password email new
  Step-IsShared {us} (changes_password salt id password) new s =
      update_password-IsShared bcrypt us s salt id password
  Step-IsShared {us} (revokes id) new s = revoke_tokens-IsShared bcrypt us s id
  Step-IsShared {us} (sets_role username role) new s =
      update_user_role-IsShared bcrypt us s username role
  Step-IsShared {us} (deletes username) new s = delete_user-IsShared bcrypt us s username

  -- In every state that the store reaches while the IDs drawn for new users are nobody's, its two maps
  -- show one set of users: what is found under a name or an ID bears it, and is found under both.
  pub Grown-IsShared : {us : UserStorage} → Grown us → IsShared us
  Grown-IsShared (begins salt draws now blank password email e) =
      begins-IsShared salt draws now blank password email e
  Grown-IsShared (goes_on g st new) = Step-IsShared st new (Grown-IsShared g)
