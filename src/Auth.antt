-- ===== src/Auth.antt =====
-- The middleware of handlers/auth.go: who a request is from, and whether it may use the administrators'
-- routes. `find` is the store's `GetUserByID`; an error is the code of the answer.
pub mod Revocation
pub mod Sessions
use goshorty.Prelude.{ℕ, String, not, ◌==◌, List, [], ◌∷◌, Result, ok, err, str_eq, if◌then◌else◌}
use goshorty.Prelude.Int.{ℤ}
use goshorty.Config.Env.{split_on}
use goshorty.Models.{User, role_admin}
use goshorty.Models.Cursor.{Json, Base64}
use goshorty.Token.{TokenClaims, TokenService, verify_token}
use goshorty.Users.{UserError, user_not_found}

pub data Denial : Type 0 where
  missing_token invalid_token_format invalid_token auth_failed token_revoked admin_required : Denial

-- What the middleware sets in the request's context.
pub record Session : Type 0 where
  pub user_id : String
  pub username : String
  pub role : String

abbrev pub session_of : User → Session
session_of user = record { user_id = user.id; username = user.username; role = user.role }

-- The answer of `GetUserByID`, and the test of the token's version.
unfoldable pub check_version : ℕ → Result UserError User → Result Denial Session
check_version version (err e) = elim e [
  | user_not_found ↦ err invalid_token
  | other ↦ err auth_failed
]
check_version version (ok user) =
    if not (version == user.token_version) then err token_revoked else ok (session_of user)

module _ (base64 : Base64) (json : Json TokenClaims) (sign_bytes : String → String → List ℕ)
    (ts : TokenService) (now : ℤ) (find : String → Result UserError User) where
  -- From `VerifyToken` on.
  unfoldable pub auth_token : String → Result Denial Session
  unfolding check_version
  auth_token token = elim (verify_token base64 json sign_bytes ts now token) [
    | err e ↦ err invalid_token
    | ok claims ↦ check_version claims.token_version (find claims.user_id)
  ]

  -- The parts of the header: `Bearer` and the token.
  unfoldable pub auth_parts : List String → Result Denial Session
  unfolding auth_token
  auth_parts (scheme ∷ token ∷ []) =
      if not (str_eq scheme "Bearer") then err invalid_token_format else auth_token token
  auth_parts _ = err invalid_token_format

  unfoldable pub auth_middleware : String → Result Denial Session
  unfolding auth_parts
  auth_middleware auth_header =
      if str_eq auth_header "" then err missing_token else auth_parts (split_on 32 auth_header)

-- `AdminMiddleware`, after `AuthMiddleware` has set the role.
unfoldable pub admin_middleware : Session → Result Denial Session
admin_middleware session =
    if not (str_eq session.role role_admin) then err admin_required else ok session
