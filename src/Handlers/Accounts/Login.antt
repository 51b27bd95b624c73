-- ===== src/Handlers/Accounts/Login.antt =====
-- `Login` of handlers/auth.go over any user store with the contract, and `AuthMiddleware` on the token it answers.
use Prim.Native.String.{◌++◌ as append}
use text.Mathlib.TextLemmas.{nil-append, cons-append}
use goshorty.Prelude.{
  ℕ, ◌≤◌, String, ◌≡◌, refl, ap, sym, ◌∙◌, true, false, Option, none, some, List, [], ◌∷◌, Result,
  ok, arith, str_eq, str_eq_iff, Bool-cases, byte_len, if◌then◌else◌, length, inl, inr, ◌⊎◌,
  Option-cases,
}
use goshorty.Prelude.Int.{ℤ, pos, ◌+ℤ◌, leb_ℤ, ◌≤ℤ◌, ◌<ℤ◌}
use goshorty.Config.Env.{split_on}
use goshorty.Models.{User}
use goshorty.Models.Cursor.{Json, Base64, JsonLaws, Base64Laws, Lacks}
use goshorty.Token.{
  TokenClaims, TokenService, claims_of, digest_size, max_token_length, clock_skew, verify_token,
}
use goshorty.Token.RoundTrip.{Trusts, made_of, verify-generate_token}
use goshorty.Users.{Bcrypt, UserError}
use goshorty.UserStore.{UserStore}
use goshorty.UserStore.Contract.{UserModel, UserStoreLaws, UserCall, getting, verifying}
use goshorty.Auth.{session_of, auth_token, auth_parts, auth_middleware, check_version}
use goshorty.Handlers.{Response, json, write_error, logged_in, public_user}
use goshorty.Handlers.Accounts.{LoginRequest, login, token_response, invalid_credentials}

-- The user of a name, where the password is theirs.
unfoldable pub authenticate : Bcrypt → String → Option User → Option User
authenticate bcrypt password none = none
authenticate bcrypt password (some user) =
    if bcrypt.compare user.password password then some user else none

-- What is answered, with status 500, where a call of the store fails.
abbrev pub IsFailure : (UserCall → Type 0) → Response → Type 0
IsFailure Fails answer =
    (Fails verifying
      × (answer ≡ write_error 500 "AUTH_FAILED" "Authentication service unavailable"))
    ⊎ (Fails getting × (answer ≡ write_error 500 "INTERNAL_ERROR" "Internal server error"))

Lacks-append : (n : ℕ) (s t : String) → Lacks n s → Lacks n t → Lacks n (append s t)
Lacks-append n String.[] t hs ht = rw nil-append ht
Lacks-append n (String.◌∷◌ c s) t hs ht = rw (cons-append c s t) (hs.0, Lacks-append n s t hs.1 ht)

split_on-Lacks : (n : ℕ) (s : String) → Lacks n s → split_on n s ≡ s ∷ []
unfolding split_on
split_on-Lacks n String.[] h = refl
split_on-Lacks n (String.◌∷◌ c s) h = rw (split_on, h.0, split_on-Lacks n s h.1) refl

-- The header of a token without spaces has two parts.
split_bearer :
    (token : String) → Lacks 32 token → split_on 32 (append "Bearer " token) ≡ "Bearer" ∷ token ∷ []
unfolding split_on
split_bearer token h =
    rw
      (
        cons-append "B" "earer " token,
        cons-append "e" "arer " token,
        cons-append "a" "rer " token,
        cons-append "r" "er " token,
        cons-append "e" "r " token,
        cons-append "r" " " token,
        cons-append " " "" token,
        nil-append token,
        split_on-Lacks 32 token h,
      )
      refl

bearer-not_empty : (token : String) → Lacks 32 token → str_eq (append "Bearer " token) "" ≡ false
unfolding split_on
bearer-not_empty token h = elim (Bool-cases (str_eq (append "Bearer " token) "")) [
  | inr other ↦ other
  | inl same ↦
      let clash =
        sym (split_bearer token h)
        ∙ ap (split_on 32) ((str_eq_iff (append "Bearer " token) "").0 same) in
      absurd (ground (arith, clash))
]

module _ (base64 : Base64) (json_claims : Json TokenClaims) (sign_bytes : String → String → List ℕ)
    (ts : TokenService) (bcrypt : Bcrypt) where
  -- What `Login` answers for a user whose password was right, if any, and for what stands under the name
  -- at the call of `GetUser`: `token_response` is a token, or 500 and TOKEN_ERROR where the token
  -- service makes none.
  abbrev pub login_response : ℤ → (ℕ → ℕ) → Option User → Option User → Response
  login_response now draws none there = invalid_credentials
  login_response now draws (some seen) none =
      write_error 500 "INTERNAL_ERROR" "Internal server error"
  login_response now draws (some seen) (some user) =
      token_response base64 json_claims sign_bytes ts now draws 200 "Login successful" user

  module _ {S : Type 0} (model : UserModel S) {Fails : UserCall → Type 0} (store : UserStore S)
      (laws : UserStoreLaws model bcrypt Fails store) where
    -- Where the password is right for the user of that name, `Login` answers what the token service makes
    -- for the user who has the name at its second call of the store, a token or 500 and TOKEN_ERROR; and
    -- 500 if nobody has it by then. For a name that nobody has and for a wrong password it answers the
    -- same: 401, INVALID_CREDENTIALS. Only where one of its calls of the store fails it answers something
    -- else, with status 500.
    pub login-authenticate :
        (now : ℤ) (draws : ℕ → ℕ) (req : LoginRequest) (us between : S)
        → let answer =
            login base64 json_claims sign_bytes ts store now draws (some req) us between in
          (answer
            ≡ login_response now draws
                (authenticate bcrypt req.password (model.named req.username us))
                (model.named req.username between))
          ⊎ IsFailure Fails answer
    unfolding login authenticate
    login-authenticate now draws req us between =
        elim (laws.verify_password_lem req.username req.password us) [
          | inr (fails, e) ↦ inr (inl (fails, ground (arith, e)))
          | inl answered ↦ elim (Option-cases (model.named req.username us)) [
            | inl missing ↦ inl (ground (arith, answered, missing))
            | inr (seen, there) ↦ elim (Bool-cases (bcrypt.compare seen.password req.password)) [
              | inr wrong ↦ inl (ground (arith, answered, there, wrong))
              | inl right ↦ elim (laws.get_user_lem req.username between) [
                | inr (fails, e) ↦ inr (inr (fails, ground (arith, answered, there, right, e)))
                | inl read ↦ elim (Option-cases (model.named req.username between)) [
                  | inl gone ↦ inl (ground (arith, answered, there, right, read, gone))
                  | inr (user, stays) ↦ inl (ground (arith, answered, there, right, read, stays))
                ]
              ]
            ]
          ]
        ]

module _ (base64 : Base64) (json_claims : Json TokenClaims) (sign_bytes : String → String → List ℕ)
    (base64_laws : Base64Laws base64) (json_laws : JsonLaws json_claims)
    (sign_size : (payload key : String) → length (sign_bytes payload key) ≡ digest_size)
    (ts : TokenService) where
  abbrev made : TokenClaims → String
  made claims = made_of base64 json_claims sign_bytes base64_laws json_laws sign_size ts claims

  made-Lacks : (claims : TokenClaims) → Lacks 32 (made claims)
  made-Lacks claims =
      let payload = base64.encode_to_string (json_laws.bytes claims) in
      Lacks-append 32 payload _ (base64_laws.no_space (json_laws.bytes claims))
        (Lacks-append 32 "." _ (refl, tt) (base64_laws.no_space (sign_bytes payload ts.secret_key)))

  accepted :
      (later : ℤ) (find : String → Result UserError User) (token : String) (claims : TokenClaims)
      (user : User)
      → Lacks 32 token
      → verify_token base64 json_claims sign_bytes ts later token ≡ ok claims
      → find claims.user_id ≡ ok user
      → claims.token_version ≡ user.token_version
      → auth_middleware base64 json_claims sign_bytes ts later find (append "Bearer " token)
        ≡ ok (session_of user)
  unfolding auth_middleware auth_parts auth_token check_version
  accepted later find token claims user no_space verified found current = ground (
    arith,
    split_bearer token no_space,
    bearer-not_empty token no_space,
    verified,
    found,
    current,
  )

  -- A right name and password are answered with a token for the user who has the name at the second call
  -- of the store (with status 500 only where a call of the store fails), and until the second it expires
  -- in, at clocks at most 30 s behind, a request with the header `Bearer` and this token passes
  -- `AuthMiddleware`, as long as the store finds a user with that ID and the token version of the login:
  -- with the ID, name and role that this user has by then. (The service has a key and a lifetime of a
  -- second or more, and the token fits the size limit.)
  pub login-auth_middleware :
      {S : Type 0} (bcrypt : Bcrypt) (model : UserModel S) {Fails : UserCall → Type 0}
      (store : UserStore S) (laws : UserStoreLaws model bcrypt Fails store) (now later : ℤ)
      (draws : ℕ → ℕ) (req : LoginRequest) (us between : S) (seen user user' : User)
      (find : String → Result UserError User)
      → Trusts base64 json_claims sign_bytes base64_laws json_laws sign_size ts ts
      → pos 0 <ℤ now
      → now ≤ℤ later +ℤ clock_skew
      → authenticate bcrypt req.password (model.named req.username us) ≡ some seen
      → model.named req.username between ≡ some user
      → find user.id ≡ ok user'
      → user.token_version ≡ user'.token_version
      → let claims =
          claims_of base64 json_claims sign_bytes ts now draws user.id user.username user.role
            (some user.token_version) in
        let answer = login base64 json_claims sign_bytes ts store now draws (some req) us between in
        byte_len (made claims) ≤ max_token_length
        → leb_ℤ later claims.expires_at ≡ true
        → ((answer ≡ json 200 (logged_in (made claims) (public_user user) "Login successful"))
            ⊎ IsFailure Fails answer)
          × (auth_middleware base64 json_claims sign_bytes ts later find
                (append "Bearer " (made claims))
              ≡ ok (session_of user'))
  unfolding token_response
  login-auth_middleware bcrypt model store laws now later draws req us between seen user user' find
        trusts started met right there found current fits alive =
      let claims =
        claims_of base64 json_claims sign_bytes ts now draws user.id user.username user.role
          (some user.token_version) in
      let (made_it, read) =
        verify-generate_token base64 json_claims sign_bytes base64_laws json_laws sign_size ts ts
          now later draws user.id user.username user.role (some user.token_version) trusts started
          met fits in
      let verified : verify_token base64 json_claims sign_bytes ts later (made claims) ≡ ok claims =
        ground (arith, read, alive) in
      (
        elim (login-authenticate base64 json_claims sign_bytes ts bcrypt model store laws now draws
            req us between) [
              | inl answered ↦ inl (ground (arith, answered, right, there, made_it))
              | inr failed ↦ inr failed
            ],
        accepted later find (made claims) claims user' (made-Lacks claims) verified found current,
      )
