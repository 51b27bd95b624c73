-- ===== src/UserStore/Changes.antt =====
-- What each method of storage/user.go does to the two maps.
use goshorty.Prelude.{
  ℕ, ◌<◌, String, ◌≡◌, refl, sym, ◌∙◌, none, some, arith, str_eq, str_eq_iff, Option-cases,
  Bool-cases, inl, inr,
}
use goshorty.Prelude.Int.{ℤ}
use goshorty.Go.Map.{lookup, delete, lookup-delete, lookup-insert, insert-Unique, delete-Unique}
use goshorty.Models.{User}
use goshorty.Random.{generate_id}
use goshorty.Users.{
  Bcrypt, Address, UserStorage, add_user, create_user, update_password, revoke_tokens,
  update_user_role, delete_user,
}
use goshorty.UserStore.Shared.{IsShared, written-IsShared}

-- The object under a name is in use.
below :
    (us : UserStorage) (name : String) (p : Address)
    → IsShared us
    → lookup name us.users ≡ some p
    → p < us.next_address
below us name p s h = s.in_use (us.heap p).id p (s.by_name name p h).1

module _ (u : User) (us : UserStorage) (s : IsShared us)
    (new_name : lookup u.username us.users ≡ none) (new_id : lookup u.id us.by_id ≡ none) where
  added_name :
      (name : String) (p : Address)
      → lookup name (add_user u us).users ≡ some p
      → (((add_user u us).heap p).username ≡ name)
        × (lookup ((add_user u us).heap p).id (add_user u us).by_id ≡ some p)
  added_name name p h =
      let found = sym (lookup-insert u.username name us.next_address us.users) ∙ h in
      elim (Bool-cases (str_eq u.username name)) [
        | inl hit ↦
            let here : us.next_address ≡ p = ground (arith, found, hit) in
            let again = lookup-insert u.id u.id us.next_address us.by_id in
            (
              ground (arith, here, hit, str_eq_iff u.username name),
              ground (arith, here, again, str_eq_iff u.id u.id),
            )
        | inr miss ↦
            let old : lookup name us.users ≡ some p = ground (arith, found, miss) in
            let low = below us name p s old in
            let kept = s.by_name name p old in
            let again = lookup-insert u.id (us.heap p).id us.next_address us.by_id in
            (
              ground (arith, low, kept),
              ground (arith, low, kept, again, new_id, str_eq_iff u.id (us.heap p).id),
            )
      ]

  added_id :
      (id : String) (p : Address)
      → lookup id (add_user u us).by_id ≡ some p
      → (((add_user u us).heap p).id ≡ id)
        × (lookup ((add_user u us).heap p).username (add_user u us).users ≡ some p)
  added_id id p h =
      let found = sym (lookup-insert u.id id us.next_address us.by_id) ∙ h in
      elim (Bool-cases (str_eq u.id id)) [
        | inl hit ↦
            let here : us.next_address ≡ p = ground (arith, found, hit) in
            let again = lookup-insert u.username u.username us.next_address us.users in
            (
              ground (arith, here, hit, str_eq_iff u.id id),
              ground (arith, here, again, str_eq_iff u.username u.username),
            )
        | inr miss ↦
            let old : lookup id us.by_id ≡ some p = ground (arith, found, miss) in
            let kept = s.by_id id p old in
            let low = below us (us.heap p).username p s kept.1 in
            let again = lookup-insert u.username (us.heap p).username us.next_address us.users in
            (
              ground (arith, low, kept),
              ground
                  (arith, low, kept, again, new_name, str_eq_iff u.username (us.heap p).username),
            )
      ]

  added_in_use :
      (id : String) (p : Address)
      → lookup id (add_user u us).by_id ≡ some p
      → p < (add_user u us).next_address
  added_in_use id p h =
      let found = sym (lookup-insert u.id id us.next_address us.by_id) ∙ h in
      elim (Bool-cases (str_eq u.id id)) [
        | inl hit ↦ ground (arith, found, hit)
        | inr miss ↦
            let old : lookup id us.by_id ≡ some p = ground (arith, found, miss) in
            omega (arith, s.in_use id p old)
      ]

  add_user-IsShared : IsShared (add_user u us)
  add_user-IsShared = record {
    ids = insert-Unique u.id us.next_address us.by_id s.ids;
    in_use = added_in_use;
    by_name = added_name;
    by_id = added_id;
  }

-- A user is taken out of both maps.
module _ (us : UserStorage) (s : IsShared us) (username : String) (p : Address)
    (known : lookup username us.users ≡ some p) where
  abbrev left : UserStorage
  left = record us { users = delete username us.users; by_id = delete (us.heap p).id us.by_id }

  left_name :
      (name : String) (q : Address)
      → lookup name left.users ≡ some q
      → ((us.heap q).username ≡ name) × (lookup (us.heap q).id left.by_id ≡ some q)
  left_name name q h = elim (Bool-cases (str_eq username name)) [
    | inl hit ↦ absurd (ground (arith, h, hit, lookup-delete username name us.users))
    | inr miss ↦
        let old : lookup name us.users ≡ some q =
          ground (arith, h, miss, lookup-delete username name us.users) in
        let kept = s.by_name name q old in
        let mine = s.by_name username p known in
        (
          kept.0,
          ground (
            arith,
            kept,
            mine,
            miss,
            lookup-delete (us.heap p).id (us.heap q).id us.by_id,
            str_eq_iff (us.heap p).id (us.heap q).id,
            str_eq_iff username name,
          ),
        )
  ]

  left_id :
      (id : String) (q : Address)
      → lookup id left.by_id ≡ some q
      → ((us.heap q).id ≡ id) × (lookup (us.heap q).username left.users ≡ some q)
  left_id id q h = elim (Bool-cases (str_eq (us.heap p).id id)) [
    | inl hit ↦ absurd (ground (arith, h, hit, lookup-delete (us.heap p).id id us.by_id))
    | inr miss ↦
        let old : lookup id us.by_id ≡ some q =
          ground (arith, h, miss, lookup-delete (us.heap p).id id us.by_id) in
        let kept = s.by_id id q old in
        let mine = s.by_name username p known in
        (
          kept.0,
          ground (
            arith,
            kept,
            mine,
            miss,
            known,
            lookup-delete username (us.heap q).username us.users,
            str_eq_iff username (us.heap q).username,
            str_eq_iff (us.heap p).id id,
          ),
        )
  ]

  left_in_use : (id : String) (q : Address) → lookup id left.by_id ≡ some q → q < us.next_address
  left_in_use id q h =
      let old : lookup id us.by_id ≡ some q =
        ground (arith, h, lookup-delete (us.heap p).id id us.by_id) in
      s.in_use id q old

  left-IsShared : IsShared left
  left-IsShared = record {
    ids = delete-Unique (us.heap p).id us.by_id s.ids;
    in_use = left_in_use;
    by_name = left_name;
    by_id = left_id;
  }

module _ (bcrypt : Bcrypt) (us : UserStorage) (s : IsShared us) where
  pub create_user-IsShared :
      (salt : ℕ) (draws : ℕ → ℕ) (now : ℤ) (username password email : String)
      → lookup (generate_id draws) us.by_id ≡ none
      → IsShared (create_user bcrypt salt draws now username password email us).1
  unfolding create_user
  create_user-IsShared salt draws now username password email new_id =
      elim (Option-cases (lookup username us.users)) [
        | inr (p, taken) ↦ rw (create_user, taken) s
        | inl free ↦ elim (Option-cases (bcrypt.generate salt password)) [
          | inl no_hash ↦ rw (create_user, free, no_hash) s
          | inr (hash, hashed) ↦
              rw (create_user, free, hashed) (add_user-IsShared _ us s free new_id)
        ]
      ]

  pub update_password-IsShared :
      (salt : ℕ) (id password : String) → IsShared (update_password bcrypt salt id password us).1
  unfolding update_password
  update_password-IsShared salt id password = elim (Option-cases (bcrypt.generate salt password)) [
    | inl no_hash ↦ rw (update_password, no_hash) s
    | inr (hash, hashed) ↦ elim (Option-cases (lookup id us.by_id)) [
      | inl missing ↦ rw (update_password, hashed, missing) s
      | inr (p, known) ↦ rw (update_password, hashed, known) (written-IsShared us p _ refl refl s)
    ]
  ]

  pub revoke_tokens-IsShared : (id : String) → IsShared (revoke_tokens id us).1
  unfolding revoke_tokens
  revoke_tokens-IsShared id = elim (Option-cases (lookup id us.by_id)) [
    | inl missing ↦ rw (revoke_tokens, missing) s
    | inr (p, known) ↦ rw (revoke_tokens, known) (written-IsShared us p _ refl refl s)
  ]

  pub update_user_role-IsShared :
      (username role : String) → IsShared (update_user_role username role us).1
  unfolding update_user_role
  update_user_role-IsShared username role = elim (Option-cases (lookup username us.users)) [
    | inl missing ↦ rw (update_user_role, missing) s
    | inr (p, known) ↦
        let with_role = written-IsShared us p (record (us.heap p) { role = role }) refl refl s in
        ground (arith, known, s, with_role)
  ]

  pub delete_user-IsShared : (username : String) → IsShared (delete_user username us).1
  unfolding delete_user
  delete_user-IsShared username = elim (Option-cases (lookup username us.users)) [
    | inl missing ↦ rw (delete_user, missing) s
    | inr (p, known) ↦ ground (arith, known, s, left-IsShared us s username p known)
  ]
