-- ===== src/Handlers/Accounts/Kept.antt =====
-- What a user store keeps at each call, the handlers of handlers/auth.go keep.
use goshorty.Prelude.{ℕ, String, Option, none, some, List, arith}
use goshorty.Prelude.Int.{ℤ}
use goshorty.Go.Map.{Map}
use goshorty.Models.Cursor.{Json, Base64}
use goshorty.Token.{TokenClaims, TokenService}
use goshorty.UserStore.{UserStore, UserDraws}
use goshorty.Auth.{Session}
use goshorty.Handlers.Accounts.{
  RegisterRequest, ChangePasswordRequest, register, change_password, revoke_sessions,
  update_user_role, delete_user, text_at,
}

pub record Keeps {U : Type 0} (users : UserStore U) (Q : U → Type 0) : Type 0 where
  pub creates :
      (d : UserDraws) (username password email : String) (us : U)
      → Q us
      → Q (users.create_user d username password email us).1
  pub changes :
      (salt : ℕ) (id password : String) (us : U)
      → Q us
      → Q (users.update_password salt id password us).1
  pub revokes : (id : String) (us : U) → Q us → Q (users.revoke_tokens id us).1
  pub promotes :
      (username role : String) (us : U) → Q us → Q (users.update_user_role username role us).1
  pub deletes : (username : String) (us : U) → Q us → Q (users.delete_user username us).1

module _ {U : Type 0} (users : UserStore U) (Q : U → Type 0) (keeps : Keeps users Q) where
  pub register-Keeps :
      (base64 : Base64) (json_claims : Json TokenClaims) (sign_bytes : String → String → List ℕ)
      (ts : TokenService) (creation : UserDraws) (now : ℤ) (draws : ℕ → ℕ)
      (body : Option RegisterRequest) (us : U)
      → Q us
      → Q (register base64 json_claims sign_bytes ts users creation now draws body us).1
  unfolding register
  register-Keeps base64 json_claims sign_bytes ts creation now draws none us h = h
  register-Keeps base64 json_claims sign_bytes ts creation now draws (some req) us h =
      let kept = keeps.creates creation req.username req.password req.email us h in
      ground (arith, kept)

  pub change_password-Keeps :
      (salt : ℕ) (session : Session) (body : Option ChangePasswordRequest) (us between : U)
      → Q between
      → Q (change_password users salt session body us between).1
  unfolding change_password
  change_password-Keeps salt session none us between h = h
  change_password-Keeps salt session (some req) us between h =
      let kept = keeps.changes salt session.user_id req.new_password between h in
      ground (arith, kept)

  pub revoke_sessions-Keeps :
      (session : Session) (us : U) → Q us → Q (revoke_sessions users session us).1
  unfolding revoke_sessions
  revoke_sessions-Keeps session us h =
      let kept = keeps.revokes session.user_id us h in ground (arith, kept)

  pub update_user_role-Keeps :
      (username : String) (body : Option (Map String)) (us : U)
      → Q us
      → Q (update_user_role users username body us).1
  unfolding update_user_role
  update_user_role-Keeps username none us h = h
  update_user_role-Keeps username (some req) us h =
      let kept = keeps.promotes username (text_at "role" req) us h in ground (arith, kept)

  pub delete_user-Keeps : (username : String) (us : U) → Q us → Q (delete_user users username us).1
  unfolding delete_user
  delete_user-Keeps username us h = let kept = keeps.deletes username us h in ground (arith, kept)
