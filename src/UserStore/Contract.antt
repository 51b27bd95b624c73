-- ===== src/UserStore/Contract.antt =====
-- What the handlers of handlers/auth.go may rely on in a user store.
use goshorty.Prelude.{
  ℕ, zero, suc, ◌<◌, ◌^◌, String, ◌≡◌, Bool, false, ◌==◌, ◌⊎◌, Option, none, some, Result, ok, err,
  str_eq,
}
use goshorty.Random.{generate_id}
use goshorty.Models.{User}
use goshorty.Users.{Bcrypt, UserError, user_not_found, hash_failed, users_unavailable}
use goshorty.UserStore.{UserStore, UserDraws}

-- What a state of a store means.
pub record UserModel (S : Type 0) : Type 1 where
  pub named : String → S → Option User
  pub of_id : String → S → Option User
  -- Names and IDs stand for the same users.
  pub IsSound : S → Type 0
  -- The token version after another one, and whether the store cannot raise a version any more.
  pub next : ℕ → ℕ
  pub IsFull : ℕ → Type 0

-- The calls whose answer may fail to come.
pub data UserCall : Type 0 where
  getting getting_by_id verifying updating revoking : UserCall

abbrev pub found : Option User → Result UserError User
found none = err user_not_found
found (some u) = ok u

abbrev pub checked : Bcrypt → String → Option User → Result UserError Bool
checked bcrypt password none = err user_not_found
checked bcrypt password (some u) = ok (bcrypt.compare u.password password)

-- The right answer, or an error where the call fails.
abbrev pub Answers : {A : Type 0} → Type 0 → Result UserError A → Result UserError A → Type 0
Answers Fails answer right = (answer ≡ right) ⊎ (Fails × (answer ≡ err users_unavailable))

module _ {S : Type 0} (model : UserModel S) where
  -- The version `n` changes later.
  unfoldable pub advanced : ℕ → ℕ → ℕ
  advanced zero v = v
  advanced (suc n) v = model.next (advanced n v)

  abbrev pub bumped_user : (User → String) → User → User
  bumped_user hash u = record u { password = hash u; token_version = model.next u.token_version }

  -- The user with the ID has the next token version and this password hash. That is all that changes.
  pub record IsBumped (id : String) (hash : User → String) (us us' : S) : Type 0 where
    pub before : User
    pub known : model.of_id id us ≡ some before
    pub known_after : model.of_id id us' ≡ some (bumped_user hash before)
    pub named_after : model.named before.username us' ≡ some (bumped_user hash before)
    pub other_ids : (j : String) → str_eq id j ≡ false → model.of_id j us' ≡ model.of_id j us
    pub other_names :
        (n : String) → str_eq before.username n ≡ false → model.named n us' ≡ model.named n us
    pub sound : model.IsSound us'

  pub data BumpOutcome (Fails : Type 0) (id : String) (hash : User → String) (us : S)
      (answer : Result UserError (Unit {0})) (us' : S) : Type 0 where
    bumped : answer ≡ ok tt → IsBumped id hash us us' → BumpOutcome Fails id hash us answer us'
    unknown :
        model.of_id id us ≡ none
        → answer ≡ err user_not_found
        → us' ≡ us
        → BumpOutcome Fails id hash us answer us'
    full :
        (u : User)
        → model.of_id id us ≡ some u
        → model.IsFull u.token_version
        → answer ≡ err users_unavailable
        → us' ≡ us
        → BumpOutcome Fails id hash us answer us'
    -- The work is done, and the caller is not told.
    lost :
        Fails
        → answer ≡ err users_unavailable
        → IsBumped id hash us us'
        → BumpOutcome Fails id hash us answer us'
    failed :
        Fails → answer ≡ err users_unavailable → us' ≡ us → BumpOutcome Fails id hash us answer us'

  -- Whom the ID stands for after a call, it has stood for before, with the same token version.
  abbrev pub KeepsVersion : String → S → S → Type 0
  KeepsVersion id us us' =
      (u' : User)
      → model.of_id id us' ≡ some u'
      → (u : User) × (model.of_id id us ≡ some u) × (u'.token_version ≡ u.token_version)

  -- The contract, where `Fails` says which calls are not answered.
  pub record UserStoreLaws (bcrypt : Bcrypt) (Fails : UserCall → Type 0) (store : UserStore S)
      : Type 0 where
    pub get_user_lem :
        (name : String) (us : S)
        → Answers (Fails getting) (store.get_user name us) (found (model.named name us))
    pub get_user_by_id_lem :
        (id : String) (us : S)
        → Answers (Fails getting_by_id) (store.get_user_by_id id us) (found (model.of_id id us))
    pub verify_password_lem :
        (name password : String) (us : S)
        → Answers
            (Fails verifying)
            (store.verify_password name password us)
            (checked bcrypt password (model.named name us))
    pub named_lem :
        (name : String) (us : S) (u : User)
        → model.IsSound us
        → model.named name us ≡ some u
        → (u.username ≡ name) × (model.of_id u.id us ≡ some u)
    pub of_id_lem :
        (id : String) (us : S) (u : User)
        → model.IsSound us
        → model.of_id id us ≡ some u
        → (u.id ≡ id) × (model.named u.username us ≡ some u)
    pub hash_failed_lem :
        (salt : ℕ) (id password : String) (us : S)
        → bcrypt.generate salt password ≡ none
        → store.update_password salt id password us ≡ (err hash_failed, us)
    pub update_password_lem :
        (salt : ℕ) (id password hash : String) (us : S)
        → model.IsSound us
        → bcrypt.generate salt password ≡ some hash
        → let result = store.update_password salt id password us in
          BumpOutcome (Fails updating) id (λ u. hash) us result.0 result.1
    pub revoke_tokens_lem :
        (id : String) (us : S)
        → model.IsSound us
        → let result = store.revoke_tokens id us in
          BumpOutcome (Fails revoking) id (λ u. u.password) us result.0 result.1
    -- A new user gets the ID that is drawn for them.
    pub create_user_lem :
        (d : UserDraws) (username password email : String) (us : S)
        → model.IsSound us
        → model.of_id (generate_id d.id_draws) us ≡ none
        → let us' = (store.create_user d username password email us).1 in
          model.IsSound us'
          × ((id : String) → str_eq (generate_id d.id_draws) id ≡ false → KeepsVersion id us us')
    pub update_user_role_lem :
        (username role : String) (us : S)
        → model.IsSound us
        → let us' = (store.update_user_role username role us).1 in
          model.IsSound us' × ((id : String) → KeepsVersion id us us')
    pub delete_user_lem :
        (username : String) (us : S)
        → model.IsSound us
        → let us' = (store.delete_user username us).1 in
          model.IsSound us' × ((id : String) → KeepsVersion id us us')
    -- Fewer than 2 ^ 64 changes do not lead back to a version.
    pub advanced_lem : (n v : ℕ) → suc n < 2 ^ 64 → (v == advanced (suc n) v) ≡ false
