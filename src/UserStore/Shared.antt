-- ===== src/UserStore/Shared.antt =====
-- The two maps of the in-memory user store (storage/user.go), which share their user objects, and its
-- contract.
use goshorty.Prelude.{
  ◌<◌, String, ◌≡◌, ap, ◌∙◌, false, ◌==◌, Option, none, some, arith, str_eq, str_eq_iff,
  Option-cases, Bool-cases, inl, inr,
}
use goshorty.Go.Map.{Map, lookup, Unique}
use goshorty.Models.{User, add64}
use goshorty.Users.{Address, UserStorage, write}
use goshorty.UserStore.Contract.{UserModel, IsBumped, bumped_user}

-- The object under a name bears it and stands under its ID too, and the other way round.
pub record IsShared (us : UserStorage) : Type 0 where
  pub ids : Unique us.by_id
  -- The object is in use.
  pub in_use : (id : String) (p : Address) → lookup id us.by_id ≡ some p → p < us.next_address
  pub by_name :
      (name : String) (p : Address)
      → lookup name us.users ≡ some p
      → ((us.heap p).username ≡ name) × (lookup (us.heap p).id us.by_id ≡ some p)
  pub by_id :
      (id : String) (p : Address)
      → lookup id us.by_id ≡ some p
      → ((us.heap p).id ≡ id) × (lookup (us.heap p).username us.users ≡ some p)

abbrev pub at : String → (UserStorage → Map Address) → UserStorage → Option User
at key names us = elim (lookup key (names us)) [ none ↦ none | some p ↦ some (us.heap p) ]

abbrev pub memory_model : UserModel UserStorage
memory_model = record {
  named = λ name us. at name (λ s. s.users) us;
  of_id = λ id us. at id (λ s. s.by_id) us;
  IsSound = IsShared;
  next = λ v. add64 v 1;
  IsFull = λ v. ⊥;
}

-- A write to an object that keeps the object's name and ID.
module _ (us : UserStorage) (p : Address) (u : User) (same_name : u.username ≡ (us.heap p).username)
    (same_id : u.id ≡ (us.heap p).id) where
  abbrev pub written : UserStorage
  written = record us { heap = write p u us.heap }

  written_name : (q : Address) → (written.heap q).username ≡ (us.heap q).username
  written_name q = elim (Bool-cases (p == q)) [
    | inl e ↦ ground (arith, e, same_name)
    | inr e ↦ ground (arith, e)
  ]

  written_id : (q : Address) → (written.heap q).id ≡ (us.heap q).id
  written_id q = elim (Bool-cases (p == q)) [
    | inl e ↦ ground (arith, e, same_id)
    | inr e ↦ ground (arith, e)
  ]

  pub written-IsShared : IsShared us → IsShared written
  written-IsShared v = record {
    ids = v.ids;
    in_use = v.in_use;
    by_name = λ name q h. (
      written_name q ∙ (v.by_name name q h).0,
      ap (λ id. lookup id us.by_id) (written_id q) ∙ (v.by_name name q h).1,
    );
    by_id = λ id q h. (
      written_id q ∙ (v.by_id id q h).0,
      ap (λ name. lookup name us.users) (written_name q) ∙ (v.by_id id q h).1,
    );
  }

  -- Where the object has the next token version and the hash, this is what `UpdatePassword` and
  -- `RevokeTokens` promise.
  pub written-IsBumped :
      (id : String) (hash : User → String)
      → IsShared us
      → lookup id us.by_id ≡ some p
      → u ≡ bumped_user memory_model hash (us.heap p)
      → IsBumped memory_model id hash us written
  written-IsBumped id hash v known same =
      let mine = v.by_id id p known in
      record {
        before = us.heap p;
        known = ground (arith, known);
        known_after = ground (arith, known, same);
        named_after = ground (arith, mine.1, same);
        other_ids = λ j other. elim (Option-cases (lookup j us.by_id)) [
          | inl missing ↦ ground (arith, missing)
          | inr (q, there) ↦
              let apart : (p == q) ≡ false = apart_id v id j q known there other in
              ground (arith, there, apart)
        ];
        other_names = λ n other. elim (Option-cases (lookup n us.users)) [
          | inl missing ↦ ground (arith, missing)
          | inr (q, there) ↦
              let apart : (p == q) ≡ false = apart_name v n q there other in
              ground (arith, there, apart)
        ];
        sound = written-IsShared v;
      }
    where
      apart_id :
          IsShared us
          → (i j : String) (q : Address) → lookup i us.by_id ≡ some p
          → lookup j us.by_id ≡ some q
          → str_eq i j ≡ false
          → (p == q) ≡ false
      apart_id v i j q known there other = elim (Bool-cases (p == q)) [
        | inr e ↦ e
        | inl e ↦
            absurd (
              ground
                (arith, e, other, str_eq_iff i j, (v.by_id i p known).0, (v.by_id j q there).0))
      ]

      apart_name :
          IsShared us
          → (n : String) (q : Address) → lookup n us.users ≡ some q
          → str_eq (us.heap p).username n ≡ false
          → (p == q) ≡ false
      apart_name v n q there other = elim (Bool-cases (p == q)) [
        | inr e ↦ e
        | inl e ↦
            absurd
              (ground (arith, e, other, str_eq_iff (us.heap p).username n, (v.by_name n q there).0))
      ]
