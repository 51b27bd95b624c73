-- ===== src/UserStore/Promises.antt =====
-- The in-memory user store of storage/user.go keeps the contract of a user store.
use goshorty.Prelude.{
  ℕ, zero, suc, ◌+◌, ◌%◌, ◌^◌, ◌<◌, String, ◌≡◌, refl, false, ◌==◌, none, some, arith, str_eq,
  Option-cases, Bool-cases, inl, inr,
}
use goshorty.Go.Map.{lookup, lookup-delete, lookup-insert}
use goshorty.Random.{generate_id}
use goshorty.Models.{User, add64}
use goshorty.Users.{
  Bcrypt, Address, UserStorage, add_user, bump_version, create_user, get_user, get_user_by_id,
  verify_password, update_password, revoke_tokens, update_user_role, delete_user,
}
use goshorty.UserStore.{UserDraws}
use goshorty.UserStore.Memory.{memory_users}
use goshorty.UserStore.Contract.{
  UserStoreLaws, BumpOutcome, bumped, unknown, KeepsVersion, advanced,
}
use goshorty.UserStore.Shared.{IsShared, memory_model, written-IsBumped}
use goshorty.UserStore.Changes.{
  create_user-IsShared, update_user_role-IsShared, delete_user-IsShared,
}

not_under :
    (id : String) (us : UserStorage) → memory_model.of_id id us ≡ none → lookup id us.by_id ≡ none
not_under id us h = elim (Option-cases (lookup id us.by_id)) [
  | inl missing ↦ missing
  | inr (p, there) ↦ absurd (ground (arith, h, there))
]

KeepsVersion-same : (id : String) (us : UserStorage) → KeepsVersion memory_model id us us
KeepsVersion-same id us u h = (u, h, refl)

-- The version `n` calls later, and that it is another one.
advanced_sum : (n v : ℕ) → advanced memory_model (suc n) v ≡ (v + suc n) % 2 ^ 64
unfolding advanced add64
advanced_sum zero v = refl
advanced_sum (suc n) v = let before = advanced_sum n v in rw before (omega arith)

advanced-other : (n v : ℕ) → suc n < 2 ^ 64 → (v == advanced memory_model (suc n) v) ≡ false
advanced-other n v small = let after = advanced_sum n v in rw after (ground arith)

-- The users of addresses whose objects have kept their versions.
heap-KeepsVersion :
    (id : String) (us us' : UserStorage)
    → ((p : Address)
        → lookup id us'.by_id ≡ some p
        → (lookup id us.by_id ≡ some p) × ((us'.heap p).token_version ≡ (us.heap p).token_version))
    → KeepsVersion memory_model id us us'
heap-KeepsVersion id us us' kept u' h = elim (Option-cases (lookup id us'.by_id)) [
  | inl missing ↦ absurd (ground (arith, h, missing))
  | inr (p, there) ↦
      let (before, same) = kept p there in
      (us.heap p, ground (arith, before), ground (arith, h, there, same))
]

added-KeepsVersion :
    (u : User) (us : UserStorage)
    → IsShared us
    → (id : String) → str_eq u.id id ≡ false
    → KeepsVersion memory_model id us (add_user u us)
added-KeepsVersion u us s id other = heap-KeepsVersion id us (add_user u us) (λ p h.
    let old : lookup id us.by_id ≡ some p =
      ground (arith, h, other, lookup-insert u.id id us.next_address us.by_id) in
    (old, ground (arith, s.in_use id p old)))

update_user_role-KeepsVersion :
    (username role id : String) (us : UserStorage)
    → KeepsVersion memory_model id us (update_user_role username role us).1
unfolding update_user_role
update_user_role-KeepsVersion username role id us =
    heap-KeepsVersion id us (update_user_role username role us).1 (λ p h.
      elim (Option-cases (lookup username us.users)) [
        | inl missing ↦ (ground (arith, h, missing), ground (arith, missing))
        | inr (q, known) ↦ elim (Bool-cases (q == p)) [
          | inl same ↦ (ground (arith, h, known), ground (arith, known, same))
          | inr other ↦ (ground (arith, h, known), ground (arith, known, other))
        ]
      ])

delete_user-KeepsVersion :
    (username id : String) (us : UserStorage)
    → KeepsVersion memory_model id us (delete_user username us).1
unfolding delete_user
delete_user-KeepsVersion username id us =
    heap-KeepsVersion id us (delete_user username us).1 (λ p h.
      elim (Option-cases (lookup username us.users)) [
        | inl missing ↦ (ground (arith, h, missing), ground (arith, missing))
        | inr (q, known) ↦
            let removed = lookup-delete (us.heap q).id id us.by_id in
            (ground (arith, h, known, removed), ground (arith, known))
      ])

module _ (bcrypt : Bcrypt) where
  update_password-Outcome :
      (salt : ℕ) (id password hash : String) (us : UserStorage)
      → IsShared us
      → bcrypt.generate salt password ≡ some hash
      → let result = update_password bcrypt salt id password us in
        BumpOutcome memory_model ⊥ id (λ u. hash) us result.0 result.1
  unfolding update_password
  update_password-Outcome salt id password hash us v hashed =
      elim (Option-cases (lookup id us.by_id)) [
        | inl missing ↦
            rw (update_password, hashed, missing) (unknown (ground (arith, missing)) refl refl)
        | inr (p, known) ↦
            let u = bump_version (record (us.heap p) { password = hash }) in
            rw (update_password, hashed, known)
              (bumped refl (written-IsBumped us p u refl refl id (λ w. hash) v known refl))
      ]

  revoke_tokens-Outcome :
      (id : String) (us : UserStorage)
      → IsShared us
      → let result = revoke_tokens id us in
        BumpOutcome memory_model ⊥ id (λ u. u.password) us result.0 result.1
  unfolding revoke_tokens
  revoke_tokens-Outcome id us v = elim (Option-cases (lookup id us.by_id)) [
    | inl missing ↦ rw (revoke_tokens, missing) (unknown (ground (arith, missing)) refl refl)
    | inr (p, known) ↦
        rw (revoke_tokens, known)
          (bumped refl (
            written-IsBumped us p (bump_version (us.heap p)) refl refl id (λ w. w.password) v known
              refl))
  ]

  create_user-KeepsVersion :
      (d : UserDraws) (username password email id : String) (us : UserStorage)
      → IsShared us
      → str_eq (generate_id d.id_draws) id ≡ false
      → KeepsVersion memory_model id us
          (create_user bcrypt d.salt d.id_draws d.now username password email us).1
  unfolding create_user
  create_user-KeepsVersion d username password email id us s other =
      elim (Option-cases (lookup username us.users)) [
        | inr (p, taken) ↦ rw (create_user, taken) (KeepsVersion-same id us)
        | inl free ↦ elim (Option-cases (bcrypt.generate d.salt password)) [
          | inl no_hash ↦ rw (create_user, free, no_hash) (KeepsVersion-same id us)
          | inr (hash, hashed) ↦ rw (create_user, free, hashed) (added-KeepsVersion _ us s id other)
        ]
      ]

  pub memory_users-laws : UserStoreLaws memory_model bcrypt (λ call. ⊥) (memory_users bcrypt)
  unfolding get_user get_user_by_id verify_password update_password
  memory_users-laws = record {
    get_user_lem = λ name us. inl (ground arith);
    get_user_by_id_lem = λ id us. inl (ground arith);
    verify_password_lem = λ name password us. inl (ground arith);
    named_lem = λ name us u v h. elim (Option-cases (lookup name us.users)) [
      | inl missing ↦ absurd (ground (arith, h, missing))
      | inr (p, there) ↦
          let same : us.heap p ≡ u = ground (arith, h, there) in
          let mine = v.by_name name p there in
          (ground (arith, same, mine.0), ground (arith, same, mine.1))
    ];
    of_id_lem = λ id us u v h. elim (Option-cases (lookup id us.by_id)) [
      | inl missing ↦ absurd (ground (arith, h, missing))
      | inr (p, there) ↦
          let same : us.heap p ≡ u = ground (arith, h, there) in
          let mine = v.by_id id p there in
          (ground (arith, same, mine.0), ground (arith, same, mine.1))
    ];
    hash_failed_lem = λ salt id password us h. ground (arith, h);
    update_password_lem = update_password-Outcome;
    revoke_tokens_lem = revoke_tokens-Outcome;
    create_user_lem = λ d username password email us s new. (
      create_user-IsShared bcrypt us s d.salt d.id_draws d.now username password email
          (not_under (generate_id d.id_draws) us new),
      λ id other. create_user-KeepsVersion d username password email id us s other,
    );
    update_user_role_lem = λ username role us s. (
      update_user_role-IsShared bcrypt us s username role,
      λ id. update_user_role-KeepsVersion username role id us,
    );
    delete_user_lem = λ username us s.
        (delete_user-IsShared bcrypt us s username, λ id. delete_user-KeepsVersion username id us);
    advanced_lem = advanced-other;
  }
