-- ===== src/UserStore/Pages.antt =====
-- One page of `ListUsers` of storage/user.go, against what a page of a listing by name should be.
use goshorty.Prelude.{
  ℕ, String, ◌≡◌, refl, ap, ◌∙◌, Bool, false, inl, inr, some, List, [], ◌∷◌, arith, length, drop,
  str_eq, str_lt, str_eq_iff, keep_if, if◌then◌else◌, All, Bool-cases,
}
use goshorty.Prelude.Text.{str_lt_asymm, str_lt_trans, str_lt_total}
use goshorty.Go.Map.{Map, Unique, lookup, lookup-Absent, Absent}
use goshorty.Go.Sort.{slice_stable, IsSorted, StrictOrder, Distinct, Apart, slice_stable-IsSorted}
use goshorty.Go.Sort.Same.{length-slice_stable}
use goshorty.Go.Search.{search}
use goshorty.Go.Search.Sorted.{drop-search}
use goshorty.Paging.{ListResult, page_of, slice_from-page_of}
use goshorty.Models.{User, UserCursor}
use goshorty.Users.{Address, UserStorage, values, by_username, past_cursor, list_users}
use goshorty.UserStore.Shared.{IsShared}

-- The part of a listing by name that lies after the cursor.
abbrev pub after_name : (String → String → Bool) → UserCursor → List User → List User
after_name precedes cursor users =
    if str_eq cursor.username ""
    then users
    else keep_if (λ u. precedes cursor.username u.username) users

-- A page of these users, by name.
abbrev pub user_page : (String → String → Bool) → List User → UserCursor → ℕ → ListResult User
user_page precedes users cursor limit =
    page_of (length users) limit
      (after_name precedes cursor (slice_stable (λ a b. precedes a.username b.username) users))

pub by_username-StrictOrder : StrictOrder by_username
by_username-StrictOrder = record {
  asymm = λ u v h. str_lt_asymm u.username v.username h;
  trans = λ u v w h k. str_lt_trans u.username v.username w.username h k;
}

-- The entry of a map stands under its key.
pub All-lookup :
    {V : Type 0} (P : String × V → Type 0) (m : Map V)
    → Unique m
    → ((k : String) (v : V) → lookup k m ≡ some v → P (k, v))
    → All P m
unfolding lookup
All-lookup P [] u h = tt
All-lookup P ((k, v) ∷ m) u h =
    (h k v (ground (arith, str_eq_iff k k)), All-lookup P m u.1 (λ j w e. h j w (other j w e)))
  where
    other : (j : String) (w : _) → lookup j m ≡ some w → lookup j ((k, v) ∷ m) ≡ some w
    other j w e = elim (Bool-cases (str_eq k j)) [
      | inr miss ↦ ground (arith, miss, e)
      | inl hit ↦ absurd (ground (arith, (str_eq_iff k j).0 hit, e, lookup-Absent k m u.0))
    ]

module _ (us : UserStorage) where
  -- The user of an entry of the map of IDs, who is found under their name.
  abbrev IsEntry : String × Address → Type 0
  IsEntry (id, p) = ((us.heap p).id ≡ id) × (lookup (us.heap p).username us.users ≡ some p)

  entry-Apart :
      (id j : String) (p q : Address)
      → IsEntry (id, p)
      → IsEntry (j, q)
      → str_eq j id ≡ false
      → Apart by_username (us.heap p) (us.heap q)
  entry-Apart id j p q e f other =
      elim (Bool-cases (str_lt (us.heap p).username (us.heap q).username)) [
        | inl less ↦ inl less
        | inr not_less ↦ elim (Bool-cases (str_lt (us.heap q).username (us.heap p).username)) [
          | inl more ↦ inr more
          | inr not_more ↦
              let same = str_lt_total (us.heap p).username (us.heap q).username not_less not_more in
              let here : p ≡ q = ground (arith, e, f, same) in
              absurd (ground (arith, e, f, here, other, str_eq_iff j id))
        ]
      ]

  entries-Apart :
      (id : String) (p : Address) (m : Map Address)
      → IsEntry (id, p)
      → Absent id m
      → All IsEntry m
      → All (Apart by_username (us.heap p)) (values us.heap m)
  entries-Apart id p [] e a h = tt
  entries-Apart id p ((j, q) ∷ m) e a h =
      (entry-Apart id j p q e h.0 a.0, entries-Apart id p m e a.1 h.1)

  values-Distinct :
      (m : Map Address) → Unique m → All IsEntry m → Distinct by_username (values us.heap m)
  values-Distinct [] u h = tt
  values-Distinct ((id, p) ∷ m) u h = (entries-Apart id p m h.0 u.0 h.1, values-Distinct m u.1 h.1)

  abbrev pub listed : List User
  listed = slice_stable by_username (values us.heap us.by_id)

  pub listed-IsSorted : IsShared us → IsSorted by_username listed
  listed-IsSorted v =
      slice_stable-IsSorted by_username by_username-StrictOrder (values us.heap us.by_id)
        (values-Distinct us.by_id v.ids (All-lookup IsEntry us.by_id v.ids v.by_id))

  -- `ListUsers` answers the first `limit` users after the cursor, by name, how many users there are,
  -- and whether more remain.
  pub list_users-user_page :
      (cursor : UserCursor) (limit : ℕ)
      → IsShared us
      → list_users cursor limit us ≡ user_page str_lt (values us.heap us.by_id) cursor limit
  unfolding list_users
  list_users-user_page cursor limit v =
      let start =
        if str_eq cursor.username ""
        then 0
        else search (length listed) (past_cursor listed cursor) in
      let size = length-slice_stable by_username (values us.heap us.by_id) in
      let rest : drop start listed ≡ after_name str_lt cursor listed =
        elim (Bool-cases (str_eq cursor.username "")) [
          | inl first ↦ rw first refl
          | inr later ↦ rw later (
              drop-search by_username (λ u. str_lt cursor.username u.username)
                (λ a b h less. str_lt_trans cursor.username a.username b.username h less) listed
                (listed-IsSorted v))
        ] in
      slice_from-page_of start listed limit
      ∙ ap (page_of (length listed) limit) rest
      ∙ ap (λ n. page_of n limit (after_name str_lt cursor listed)) size
