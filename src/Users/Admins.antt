-- ===== src/Users/Admins.antt =====
-- The invariant of the user store (storage/user.go), and the count of administrators.
use goshorty.Prelude.{
  ℕ, suc, ◌+◌, ◌<◌, String, Bool, true, false, not, ◌&&◌, none, some, [], ◌∷◌, leb, str_eq, ◌≡◌,
  refl, All, arith, str_eq_iff, Bool-cases, Option-cases, inl, inr, subst, All-imp,
}
use goshorty.Prelude.Int.{ℤ}
use goshorty.Go.Map.{
  Map, lookup, insert, delete, Unique, Absent, insert-Unique, delete-Unique, All-delete, lookup-All,
  Absent-delete_self,
}
use goshorty.Models.{User, role_admin, role_user}
use goshorty.Users.{
  Bcrypt, Address, UserStorage, write, is_admin, add_user, admin_count, create_user,
  update_password, revoke_tokens, update_user_role, delete_user,
}

-- The user under a name has that name, and its object is in use.
abbrev pub IsNamed : (Address → User) → Address → String × Address → Type 0
IsNamed heap next (key, p) = ((heap p).username ≡ key) × (p < next)

pub record Inv (us : UserStorage) : Type 0 where
  pub unique : Unique us.users
  pub named : All (IsNamed us.heap us.next_address) us.users
  pub has_admin : 0 < admin_count us.heap us.users

delete-Absent : (k : String) (m : Map Address) → Absent k m → delete k m ≡ m
unfolding delete
delete-Absent k [] a = refl
delete-Absent k ((j, p) ∷ m) a = ground (arith, delete-Absent k m a.1)

-- The count sees of the objects only who is an administrator.
admin_count-same :
    (h h' : Address → User) (m : Map Address)
    → All (λ (_, p). is_admin (h' p) ≡ is_admin (h p)) m
    → admin_count h' m ≡ admin_count h m
unfolding admin_count
admin_count-same h h' [] s = refl
admin_count-same h h' ((k, p) ∷ m) s = ground (arith, admin_count-same h h' m s.1, s.0)

abbrev bit : Bool → ℕ
bit true = 1
bit false = 0

admin_count-delete :
    (h : Address → User) (k : String) (m : Map Address) (p : Address)
    → Unique m
    → lookup k m ≡ some p
    → admin_count h m ≡ bit (is_admin (h p)) + admin_count h (delete k m)
unfolding admin_count lookup delete
admin_count-delete h k [] p u e = ground arith
admin_count-delete h k ((j, q) ∷ m) p u e = elim (Bool-cases (str_eq j k)) [
  | inl hit ↦
      let same = (str_eq_iff j k).0 hit in
      let absent : Absent k m = subst (λ i. Absent i m) same u.0 in
      ground (arith, delete-Absent k m absent, hit)
  | inr miss ↦ ground (arith, admin_count-delete h k m p u.1)
]

-- Another object at `p`, of the same name.
module _ (us : UserStorage) (p : Address) (u : User) where
  abbrev heap' : Address → User
  heap' = write p u us.heap

  write-IsNamed :
      u.username ≡ (us.heap p).username
      → All (IsNamed us.heap us.next_address) us.users
      → All (IsNamed heap' us.next_address) us.users
  write-IsNamed e =
      All-imp (IsNamed us.heap us.next_address) (IsNamed heap' us.next_address)
        (λ (key, q) n. ground arith) us.users

  -- If it is an administrator just where the old one was, the store keeps its invariant.
  write-Inv :
      u.username ≡ (us.heap p).username
      → is_admin u ≡ is_admin (us.heap p)
      → Inv us
      → Inv (record us { heap = heap' })
  write-Inv e r v =
      let same : All (λ (_, q). is_admin (heap' q) ≡ is_admin (us.heap q)) us.users =
        All-imp (IsNamed us.heap us.next_address)
          (λ (_, q). is_admin (heap' q) ≡ is_admin (us.heap q)) (λ (key, q) n. ground arith)
          us.users v.named in
      record {
        unique = v.unique;
        named = write-IsNamed e v.named;
        has_admin = ground (arith, admin_count-same us.heap heap' us.users same, v.has_admin);
      }

  -- The users under other names are other objects.
  admin_count-others :
      (k : String) (m : Map Address)
      → (us.heap p).username ≡ k
      → Absent k m
      → All (IsNamed us.heap us.next_address) m
      → admin_count heap' m ≡ admin_count us.heap m
  unfolding admin_count
  admin_count-others k [] e a n = refl
  admin_count-others k ((j, q) ∷ m) e a n =
      ground (arith, admin_count-others k m e a.1 n.1, str_eq_iff j k, a.0, n.0)

  -- The count after the write, where `p` is the user under `k`.
  admin_count-write :
      (k : String)
      → lookup k us.users ≡ some p
      → Inv us
      → admin_count heap' us.users + bit (is_admin (us.heap p))
        ≡ admin_count us.heap us.users + bit (is_admin u)
  admin_count-write k e v =
      let name = (lookup-All (IsNamed us.heap us.next_address) k us.users v.named e).0 in
      let rest = delete k us.users in
      let others =
        admin_count-others k rest name (Absent-delete_self k us.users)
          (All-delete (IsNamed us.heap us.next_address) k us.users v.named) in
      let after = admin_count-delete heap' k us.users p v.unique e in
      let before = admin_count-delete us.heap k us.users p v.unique e in
      ground (arith, others, after, before)

pub revoke_tokens-Inv : (id : String) (us : UserStorage) → Inv us → Inv (revoke_tokens id us).1
unfolding revoke_tokens
revoke_tokens-Inv id us v = elim (Option-cases (lookup id us.by_id)) [
  | inl e ↦ rw (e, revoke_tokens) v
  | inr (p, e) ↦ rw (e, revoke_tokens) (write-Inv us p _ refl refl v)
]

pub update_password-Inv :
    (bcrypt : Bcrypt) (salt : ℕ) (id password : String) (us : UserStorage)
    → Inv us
    → Inv (update_password bcrypt salt id password us).1
unfolding update_password
update_password-Inv bcrypt salt id password us v =
    elim (Option-cases (bcrypt.generate salt password)) [
      | inl f ↦ rw (f, update_password) v
      | inr (hash, f) ↦ elim (Option-cases (lookup id us.by_id)) [
        | inl e ↦ rw (f, e, update_password) v
        | inr (p, e) ↦ rw (f, e, update_password) (write-Inv us p _ refl refl v)
      ]
    ]

pub update_user_role-Inv :
    (username role : String) (us : UserStorage) → Inv us → Inv (update_user_role username role us).1
unfolding update_user_role
update_user_role-Inv username role us v = elim (Option-cases (lookup username us.users)) [
  | inl e ↦ rw (e, update_user_role) v
  | inr (p, e) ↦
      let u : User = record (us.heap p) { role = role } in
      let count = admin_count-write us p u username e v in
      let named = write-IsNamed us p u refl v.named in
      let last =
        is_admin (us.heap p)
        && (not (str_eq role role_admin) && leb (admin_count us.heap us.users) 1) in
      elim (Bool-cases (not (str_eq role role_admin) && not (str_eq role role_user))) [
        | inl bad ↦ rw (e, bad, update_user_role) v
        | inr good ↦ elim (Bool-cases last) [
          | inl g ↦ rw (e, good, g, update_user_role) v
          | inr g ↦
              rw (e, good, g, update_user_role)
                (record {
                  unique = v.unique;
                  named = named;
                  has_admin = ground (arith, count, g, v.has_admin);
                })
        ]
      ]
]

pub delete_user-Inv :
    (username : String) (us : UserStorage) → Inv us → Inv (delete_user username us).1
unfolding delete_user
delete_user-Inv username us v = elim (Option-cases (lookup username us.users)) [
  | inl e ↦ rw (e, delete_user) v
  | inr (p, e) ↦
      let count = admin_count-delete us.heap username us.users p v.unique e in
      let unique = delete-Unique username us.users v.unique in
      let named = All-delete (IsNamed us.heap us.next_address) username us.users v.named in
      elim (Bool-cases (is_admin (us.heap p) && leb (admin_count us.heap us.users) 1)) [
        | inl g ↦ rw (e, g, delete_user) v
        | inr g ↦
            rw (e, g, delete_user)
              (record {
                unique = unique;
                named = named;
                has_admin = ground (arith, count, g, v.has_admin);
              })
      ]
]

-- A new object is none of those in use.
module _ (us : UserStorage) (u : User) where
  abbrev added : Address → User
  added = write us.next_address u us.heap

  added-IsNamed :
      (m : Map Address)
      → All (IsNamed us.heap us.next_address) m
      → All (IsNamed added (suc us.next_address)) m
  added-IsNamed =
      All-imp (IsNamed us.heap us.next_address) (IsNamed added (suc us.next_address))
        (λ (key, q) n. ground (arith, n.1))

  admin_count-added :
      (m : Map Address)
      → All (IsNamed us.heap us.next_address) m
      → admin_count added m ≡ admin_count us.heap m
  admin_count-added m n = admin_count-same us.heap added m (
      All-imp (IsNamed us.heap us.next_address)
        (λ (_, q). is_admin (added q) ≡ is_admin (us.heap q)) (λ (key, q) h. ground (arith, h.1)) m
        n)

  lookup-none-Absent : (k : String) (m : Map Address) → lookup k m ≡ none → Absent k m
  unfolding lookup
  lookup-none-Absent k [] e = tt
  lookup-none-Absent k ((j, q) ∷ m) e = ground (arith, lookup-none-Absent k m)

  add_user-Inv : lookup u.username us.users ≡ none → Inv us → Inv (add_user u us)
  unfolding admin_count insert
  add_user-Inv free v =
      let kept = delete-Absent u.username us.users (lookup-none-Absent u.username us.users free) in
      record {
        unique = insert-Unique u.username us.next_address us.users v.unique;
        named = ((ground arith, omega arith), rw kept (added-IsNamed us.users v.named));
        has_admin = rw kept (ground (arith, admin_count-added us.users v.named, v.has_admin));
      }

pub create_user-Inv :
    (bcrypt : Bcrypt) (salt : ℕ) (draws : ℕ → ℕ) (now : ℤ) (username password email : String)
    (us : UserStorage)
    → Inv us
    → Inv (create_user bcrypt salt draws now username password email us).1
unfolding create_user
create_user-Inv bcrypt salt draws now username password email us v =
    elim (Option-cases (lookup username us.users)) [
      | inr (p, e) ↦ rw (e, create_user) v
      | inl e ↦ elim (Option-cases (bcrypt.generate salt password)) [
        | inl f ↦ rw (e, f, create_user) v
        | inr (hash, f) ↦ rw (e, f, create_user) (add_user-Inv us _ e v)
      ]
    ]
