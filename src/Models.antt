-- ===== src/Models.antt =====
-- models/*.go: the data that the layers exchange, the keyset order, and the cursor codec.
-- A `time.Time` is its `UnixNano()`, an integer; an int64 counter is its 64-bit pattern.
pub mod Keyset
pub mod Cursor
use goshorty.Prelude.{ℕ, ◌^◌, ◌+◌, ◌%◌, String, Bool, if◌then◌else◌, str_lt}
use goshorty.Prelude.Int.{ℤ, ltb_ℤ, eqb_ℤ}

pub record ShortenRequest : Type 0 where
  pub url : String
  pub expires_in : String
  pub custom_code : String

pub record UrlData : Type 0 where
  pub id : String
  pub short_code : String
  pub original_url : String
  pub expires_in : String
  pub expires_at : ℤ
  pub created_at : ℤ
  pub created_by : String
  pub visits : ℕ

pub record ShortenResponse : Type 0 where
  pub id : String
  pub short_url : String
  pub short_code : String
  pub original_url : String
  pub expires_in : String
  pub expires_at : ℤ
  pub created_at : ℤ

pub record User : Type 0 where
  pub id : String
  pub username : String
  pub password : String
  pub email : String
  pub role : String
  pub created_at : ℤ
  pub token_version : ℕ

abbrev pub role_admin : String
role_admin = "admin"

abbrev pub role_user : String
role_user = "user"

pub record UrlCursor : Type 0 where
  pub created_at_unix_nano : ℤ
  pub short_code : String

pub record UserCursor : Type 0 where
  pub username : String

-- The sum of two int64 counters, as 64-bit patterns.
unfoldable pub add64 : ℕ → ℕ → ℕ
add64 a b = (a + b) % 2 ^ 64

-- `u.NewerThan(other)`
unfoldable pub newer_than : UrlData → UrlData → Bool
newer_than u other =
    if eqb_ℤ u.created_at other.created_at
    then str_lt u.short_code other.short_code
    else ltb_ℤ other.created_at u.created_at

-- `u.AfterKeyset(cur)`
unfoldable pub after_keyset : UrlData → UrlCursor → Bool
after_keyset u cur =
    if eqb_ℤ u.created_at cur.created_at_unix_nano
    then str_lt cur.short_code u.short_code
    else ltb_ℤ u.created_at cur.created_at_unix_nano
