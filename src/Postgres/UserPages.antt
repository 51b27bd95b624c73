-- ===== src/Postgres/UserPages.antt =====
-- `ListUsers` of storage/postgres.go and of storage/user.go: the same pages of the same users.
use goshorty.Prelude.{
  ℕ, String, ◌≡◌, refl, ap, sym, ◌∙◌, Bool, true, false, ◌||◌, subst, inl, inr, some, List, [], ◌∷◌,
  ok, arith, length, str_eq, str_lt, str_eq_iff, keep_if, All, All-imp, Bool-cases, Option-cases,
}
use goshorty.Go.Map.{Map, lookup}
use goshorty.Go.Sort.{slice_stable, StrictOrder, Distinct, Apart, slice_stable-IsSorted}
use goshorty.Go.Sort.Filtered.{keep_if-slice_stable}
use goshorty.Go.Sort.Same.{
  In, All-In, sorted_unique, slice_stable-In, In-slice_stable, length-slice_stable,
}
use goshorty.Paging.{page_of}
use goshorty.Models.{User, UserCursor}
use goshorty.Users.{Address, UserStorage, UserError, values, by_username}
use goshorty.Users
use goshorty.UserStore.Shared.{IsShared, memory_model}
use goshorty.UserStore.Pages.{
  user_page, after_name, All-lookup, by_username-StrictOrder, listed, listed-IsSorted,
  list_users-user_page,
}
use goshorty.Postgres.{Tables, answered, first_where}
use goshorty.Postgres.Accounts
use goshorty.Postgres.Accounts.{has_name}
use goshorty.Postgres.Rows.{UniqueNames}
use goshorty.Postgres.Pages.{IsCollation, by_bytes-IsCollation, peeked}

module _ (precedes : String → String → Bool) (collation : IsCollation precedes) where
  abbrev named_before : User → User → Bool
  named_before a b = precedes a.username b.username

  named_before-StrictOrder : StrictOrder named_before
  named_before-StrictOrder = record {
    asymm = λ a b h. collation.asymm a.username b.username h;
    trans = λ a b c h k. collation.trans a.username b.username c.username h k;
  }

  Apart-named : (a b : User) → str_eq b.username a.username ≡ false → Apart named_before a b
  Apart-named a b h = elim (collation.total b.username a.username h) [
    | inl e ↦ inr e
    | inr e ↦ inl e
  ]

  names-Distinct : (users : List User) → UniqueNames users → Distinct named_before users
  names-Distinct [] u = tt
  names-Distinct (a ∷ users) u = (
    All-imp (λ b. str_eq b.username a.username ≡ false) (Apart named_before a) (Apart-named a) users
        u.0,
    names-Distinct users u.1,
  )

  keep_if_all : (users : List User) → keep_if (λ u. true) users ≡ users
  keep_if_all [] = refl
  keep_if_all (u ∷ users) = ap (◌∷◌ u) (keep_if_all users)

  -- Where the call is answered, a page of the users of the table in the order of the collation.
  list_users-user_page_of :
      (cursor : UserCursor) (limit : ℕ) (tables : Tables)
      → UniqueNames tables.users
      → Accounts.list_users precedes answered cursor limit tables tables
        ≡ ok (user_page precedes tables.users cursor limit)
  unfolding Accounts.list_users
  list_users-user_page_of cursor limit tables unique =
      let q : User → Bool = λ u. str_eq cursor.username "" || precedes cursor.username u.username in
      let sorted = slice_stable named_before tables.users in
      let moved =
        keep_if-slice_stable named_before named_before-StrictOrder q tables.users
          (names-Distinct tables.users unique) in
      let rest : slice_stable named_before (keep_if q tables.users)
          ≡ after_name precedes cursor sorted =
        elim (Bool-cases (str_eq cursor.username "")) [
          | inl first ↦ sym moved ∙ rw first (keep_if_all sorted)
          | inr later ↦ sym moved ∙ rw later refl
        ] in
      ap ok (
        peeked (length tables.users) limit (slice_stable named_before (keep_if q tables.users))
        ∙ ap (page_of (length tables.users) limit) rest)

first_where-In :
    (p : User → Bool) (users : List User) (u : User) → first_where p users ≡ some u → In u users
unfolding first_where
first_where-In p [] u h = absurd (ground arith)
first_where-In p (w ∷ users) u h = elim (Bool-cases (p w)) [
  | inl hit ↦ inl (ground (arith, hit, h))
  | inr miss ↦ inr (first_where-In p users u (ground (arith, miss, h)))
]

In-first_where :
    (users : List User) (u : User)
    → UniqueNames users
    → In u users
    → first_where (has_name u.username) users ≡ some u
unfolding first_where
In-first_where [] u d k = absurd k
In-first_where (w ∷ users) u d (inl e) = ground (arith, e, str_eq_iff u.username u.username)
In-first_where (w ∷ users) u d (inr k) =
    let other = All-In (λ q. str_eq q.username w.username ≡ false) users d.0 u k in
    ground (
      arith,
      other,
      str_eq_iff w.username u.username,
      str_eq_iff u.username w.username,
      In-first_where users u d.1 k,
    )

lookup-In-values :
    (heap : Address → User) (id : String) (p : Address) (m : Map Address)
    → lookup id m ≡ some p
    → In (heap p) (values heap m)
unfolding lookup
lookup-In-values heap id p [] h = absurd (ground arith)
lookup-In-values heap id p ((j, q) ∷ m) h = elim (Bool-cases (str_eq j id)) [
  | inl hit ↦ inl (ap heap (ground (arith, hit, h)))
  | inr miss ↦ inr (lookup-In-values heap id p m (ground (arith, miss, h)))
]

-- A user in the map is under their name.
values-named :
    (us : UserStorage) (u : User) (m : Map Address)
    → All (λ (id, p). lookup (us.heap p).username us.users ≡ some p) m
    → In u (values us.heap m)
    → memory_model.named u.username us ≡ some u
values-named us u [] h k = absurd k
values-named us u ((id, p) ∷ m) h (inl e) = ground (arith, e, h.0)
values-named us u ((id, p) ∷ m) h (inr k) = values-named us u m h.1 k

module _ (us : UserStorage) (tables : Tables) (shared : IsShared us)
    (unique : UniqueNames tables.users)
    (same : (name : String)
      → memory_model.named name us ≡ first_where (has_name name) tables.users) where
  from_memory : (u : User) → In u (values us.heap us.by_id) → In u tables.users
  from_memory u k =
      let entries =
        All-lookup (λ (id, p). lookup (us.heap p).username us.users ≡ some p) us.by_id shared.ids
          (λ id p h. (shared.by_id id p h).1) in
      first_where-In (has_name u.username) tables.users u
        (sym (same u.username) ∙ values-named us u us.by_id entries k)

  from_database : (u : User) → In u tables.users → In u (values us.heap us.by_id)
  from_database u k =
      let found = same u.username ∙ In-first_where tables.users u unique k in
      elim (Option-cases (lookup u.username us.users)) [
        | inl missing ↦ absurd (ground (arith, found, missing))
        | inr (p, there) ↦
            let it : us.heap p ≡ u = ground (arith, found, there) in
            subst (λ w. In w (values us.heap us.by_id)) it
              (lookup-In-values us.heap (us.heap p).id p us.by_id
                (shared.by_name u.username p there).1)
      ]

  same_listing : listed us ≡ slice_stable by_username tables.users
  same_listing =
      sorted_unique by_username by_username-StrictOrder (listed us)
        (slice_stable by_username tables.users) (listed-IsSorted us shared)
        (slice_stable-IsSorted by_username by_username-StrictOrder tables.users
          (names-Distinct str_lt by_bytes-IsCollation tables.users unique))
        (λ u k.
          slice_stable-In by_username u tables.users
            (from_memory u (In-slice_stable by_username u (values us.heap us.by_id) k)))
        (λ u k.
          slice_stable-In by_username u (values us.heap us.by_id)
            (from_database u (In-slice_stable by_username u tables.users k)))

  -- Where each name stands for the same user in both stores, the database answers the pages of
  -- `ListUsers` that the store in memory answers, if it orders texts by their bytes. (The call is answered,
  -- and nothing happens between its two statements.)
  pub list_users-same :
      (cursor : UserCursor) (limit : ℕ)
      → Accounts.list_users str_lt answered cursor limit tables tables
        ≡ ok (Users.list_users cursor limit us)
  list_users-same cursor limit =
      let size =
        sym (length-slice_stable by_username tables.users)
        ∙ ap (λ (users : List User). length users) (sym same_listing)
        ∙ length-slice_stable by_username (values us.heap us.by_id) in
      list_users-user_page_of str_lt by_bytes-IsCollation cursor limit tables unique
      ∙ ap ok (
          ap
            (λ n.
              page_of n limit (after_name str_lt cursor (slice_stable by_username tables.users)))
            size
          ∙ ap
              (λ users.
                page_of (length (values us.heap us.by_id)) limit (after_name str_lt cursor users))
              (sym same_listing)
          ∙ sym (list_users-user_page us cursor limit shared))
