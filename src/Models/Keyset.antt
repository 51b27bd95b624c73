-- ===== src/Models/Keyset.antt =====
-- The order of `NewerThan` and `AfterKeyset` of models/pagination.go.
use goshorty.Prelude.{◌≡◌, true, false, ◌≢◌, inl, inr, arith, Bool-cases}
use goshorty.Prelude.Text.{str_lt_trans, str_lt_asymm, str_lt_total}
use goshorty.Go.Sort.{StrictOrder, Apart}
use goshorty.Models.{UrlData, UrlCursor, newer_than, after_keyset}

-- The keyset position of a URL.
abbrev pub cursor_of : UrlData → UrlCursor
cursor_of u = record { created_at_unix_nano = u.created_at; short_code = u.short_code }

-- A URL lies after the position of another exactly when the other is newer.
pub after_keyset-cursor_of : (u v : UrlData) → after_keyset u (cursor_of v) ≡ newer_than v u
unfolding newer_than after_keyset
after_keyset-cursor_of u v = ground arith

pub newer_than-asymm : (u v : UrlData) → newer_than u v ≡ true → newer_than v u ≡ false
unfolding newer_than
newer_than-asymm u v h = ground (arith, str_lt_asymm u.short_code v.short_code)

pub newer_than_trans :
    (u v w : UrlData) → newer_than u v ≡ true → newer_than v w ≡ true → newer_than u w ≡ true
unfolding newer_than
newer_than_trans u v w h k = ground (arith, str_lt_trans u.short_code v.short_code w.short_code)

pub newer_than-StrictOrder : StrictOrder newer_than
newer_than-StrictOrder = record { asymm = newer_than-asymm; trans = newer_than_trans }

-- URLs with different short codes are ordered.
pub newer_than_total : (u v : UrlData) → u.short_code ≢ v.short_code → Apart newer_than u v
newer_than_total u v h = elim (Bool-cases (newer_than u v)) [
  | inl a ↦ inl a
  | inr a ↦ elim (Bool-cases (newer_than v u)) [
    | inl b ↦ inr b
    | inr b ↦ absurd (h (same_code u v a b))
  ]
]
  where
    same_code :
        (u v : UrlData)
        → newer_than u v ≡ false
        → newer_than v u ≡ false
        → u.short_code ≡ v.short_code
    same_code u v a b =
        str_lt_total u.short_code v.short_code (unfold newer_than in ground arith)
          (unfold newer_than in ground arith)

-- What is older than a URL after the cursor is after the cursor too.
pub after_keyset_mono :
    (u v : UrlData) (cur : UrlCursor)
    → after_keyset u cur ≡ true
    → newer_than u v ≡ true
    → after_keyset v cur ≡ true
unfolding newer_than after_keyset
after_keyset_mono u v cur h k =
    ground (arith, str_lt_trans cur.short_code u.short_code v.short_code)
