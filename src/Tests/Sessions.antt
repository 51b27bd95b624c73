-- ===== src/Tests/Sessions.antt =====
-- Examples of the theorems on sessions.
use goshorty.Prelude.{
  ℕ, String, some, ◌≡◌, refl, inl, inr, List, [], ◌∷◌, Result, ok, err, arith, ◌∙◌, ap,
}
use goshorty.Prelude.Int.{ℤ, pos}
use goshorty.Config.Env.{split_on}
use goshorty.Models.{User, role_user}
use goshorty.Users.{UserStorage, UserError, get_user_by_id}
use goshorty.Token.{verify_token, TokenClaims}
use goshorty.Auth.{session_of, auth_token, auth_middleware}
use goshorty.Auth.Sessions.{IsAuthentic, auth_middleware-IsAuthentic}
use goshorty.Models.Cursor.{Json, Base64}
use goshorty.Tests.Tokens.{sign, verifier, zeros}

-- Every text decodes to 32 zero bytes, which stand for these claims.
abbrev pub codec : Base64
codec = record { encode_to_string = λ bs. "s"; decode_string = λ raw. some (zeros 32) }

abbrev pub granted : TokenClaims
granted = record {
  jti = "1";
  user_id = "u";
  username = "alice";
  role = role_user;
  token_version = 2;
  iss = "";
  aud = "";
  kid = "v1";
  issued_at = pos 10;
  expires_at = pos 60;
}

abbrev pub fixed_json : Json TokenClaims
fixed_json = record { marshal = λ c. some []; unmarshal = λ bs. some granted }

abbrev pub ticket : String
ticket = "p.s"

pub verified : verify_token codec fixed_json sign verifier (pos 40) ticket ≡ ok granted
unfolding verify_token goshorty.Token.split_dot goshorty.Token.check_parts goshorty.Token.is_signed
    goshorty.Token.bytes_eq goshorty.Token.read_payload goshorty.Token.check_claims
    goshorty.Prelude.Int.◌+ℤ◌ goshorty.Prelude.Int.◌-ℤ◌
verified = refl

abbrev pub alice : User
alice = record {
  id = "u";
  username = "alice";
  password = "hash";
  email = "a@example";
  role = role_user;
  created_at = pos 1;
  token_version = 2;
}

abbrev pub accounts : UserStorage
accounts = record {
  users = ("alice", 0) ∷ [];
  by_id = ("u", 0) ∷ [];
  heap = λ p. alice;
  next_address = 1;
}

abbrev find : String → Result UserError User
find id = get_user_by_id id accounts

pub ticket-session :
    auth_token codec fixed_json sign verifier (pos 40) find ticket ≡ ok (session_of alice)
unfolding auth_token verify_token goshorty.Token.split_dot goshorty.Token.check_parts
    goshorty.Token.is_signed goshorty.Token.bytes_eq goshorty.Token.read_payload
    goshorty.Token.check_claims goshorty.Prelude.Int.◌+ℤ◌ goshorty.Prelude.Int.◌-ℤ◌ get_user_by_id
    goshorty.Go.Map.lookup
ticket-session = refl

abbrev pub header : String
header = "Bearer p.s"

pub header-session :
    auth_middleware codec fixed_json sign verifier (pos 40) find header ≡ ok (session_of alice)
unfolding auth_middleware split_on verify_token goshorty.Token.split_dot goshorty.Token.check_parts
    goshorty.Token.is_signed goshorty.Token.bytes_eq goshorty.Token.read_payload
    goshorty.Token.check_claims goshorty.Prelude.Int.◌+ℤ◌ goshorty.Prelude.Int.◌-ℤ◌ get_user_by_id
    goshorty.Go.Map.lookup
header-session = refl

auth_middleware-IsAuthentic_example :
    IsAuthentic codec fixed_json sign verifier (pos 40) find (split_on 32 header) (session_of alice)
auth_middleware-IsAuthentic_example =
    auth_middleware-IsAuthentic codec fixed_json sign verifier (pos 40) find header
      (session_of alice) header-session
