-- ===== src/Auth/Sessions.antt =====
-- Whom `AuthMiddleware` of handlers/auth.go lets in.
use goshorty.Prelude.{
  ℕ, String, ◌≡◌, List, [], ◌∷◌, Result, ok, err, str_eq_iff, arith, Result-cases, inl, inr, ap,
}
use goshorty.Prelude.Int.{ℤ}
use goshorty.Config.Env.{split_on}
use goshorty.Models.{User}
use goshorty.Models.Cursor.{Json, Base64}
use goshorty.Token.{TokenClaims, TokenService, verify_token}
use goshorty.Users.{UserError}
use goshorty.Auth.{Session, session_of, check_version, auth_token, auth_parts, auth_middleware}

module _ (base64 : Base64) (json : Json TokenClaims) (sign_bytes : String → String → List ℕ)
    (ts : TokenService) (now : ℤ) (find : String → Result UserError User) where
  -- The header is `Bearer` with a verified token, whose user exists and has the token's version; the
  -- session is that user as the store has it now.
  pub record IsAuthentic (parts : List String) (session : Session) : Type 0 where
    pub token : String
    pub claims : TokenClaims
    pub user : User
    pub bearer : parts ≡ "Bearer" ∷ token ∷ []
    pub verified : verify_token base64 json sign_bytes ts now token ≡ ok claims
    pub found : find claims.user_id ≡ ok user
    pub current : claims.token_version ≡ user.token_version
    pub is_session : session ≡ session_of user

  auth_parts-IsAuthentic :
      (parts : List String) (session : Session)
      → auth_parts base64 json sign_bytes ts now find parts ≡ ok session
      → IsAuthentic parts session
  unfolding auth_parts auth_token check_version
  auth_parts-IsAuthentic [] session h = absurd (ground arith)
  auth_parts-IsAuthentic (scheme ∷ []) session h = absurd (ground arith)
  auth_parts-IsAuthentic (scheme ∷ token ∷ more ∷ rest) session h = absurd (ground arith)
  auth_parts-IsAuthentic (scheme ∷ token ∷ []) session h =
      elim (Result-cases (verify_token base64 json sign_bytes ts now token)) [
        | inr (e, bad) ↦ absurd (ground arith)
        | inl (claims, verified) ↦ elim (Result-cases (find claims.user_id)) [
          | inr (e, bad) ↦ absurd (denied claims e verified bad)
          | inl (user, found) ↦ record {
            token = token;
            claims = claims;
            user = user;
            bearer = ap (λ s. s ∷ token ∷ []) ((str_eq_iff scheme "Bearer").0 (ground arith));
            verified = verified;
            found = found;
            current = ground arith;
            is_session = ground arith;
          }
        ]
      ]
    where
      denied :
          (claims : TokenClaims) (e : UserError)
          → verify_token base64 json sign_bytes ts now token ≡ ok claims
          → find claims.user_id ≡ err e
          → ⊥
      denied claims e verified bad = ground arith

  -- A request passes `AuthMiddleware` only with `Bearer` and a token that verifies now, for a user who
  -- still exists and whose tokens have not been revoked since; the session's ID, name and role are the
  -- user's present ones.
  pub auth_middleware-IsAuthentic :
      (auth_header : String) (session : Session)
      → auth_middleware base64 json sign_bytes ts now find auth_header ≡ ok session
      → IsAuthentic (split_on 32 auth_header) session
  unfolding auth_middleware
  auth_middleware-IsAuthentic auth_header session h =
      auth_parts-IsAuthentic (split_on 32 auth_header) session (ground arith)
