-- ===== src/Auth/Revocation.antt =====
-- `AuthMiddleware` of handlers/auth.go once a user has another token version, and after `RevokeTokens` of
-- storage/user.go.
use goshorty.Prelude.{
  ℕ, ◌^◌, ◌<◌, String, ◌≡◌, false, ◌==◌, some, List, Result, ok, err, arith, Option-cases,
  Result-cases, inl, inr, sym, ap, subst, ◌∙◌, ◌⊎◌, suc, ◌+◌,
}
use goshorty.Prelude.Int.{ℤ}
use goshorty.Go.Map.{lookup}
use goshorty.Models.{User, add64}
use goshorty.Models.Cursor.{Json, Base64}
use goshorty.Token.{
  TokenClaims, TokenService, verify_token, check_parts, read_payload, check_claims, split_dot,
}
use goshorty.UserStore.{UserStore}
use goshorty.UserStore.Contract.{UserModel, UserStoreLaws, UserCall, getting_by_id, IsBumped, found}
use goshorty.UserStore.Later.{Later, Later-other}
use goshorty.Users.{
  user_not_found, Bcrypt, users_unavailable, Address, bump_version, UserStorage, UserError,
  get_user_by_id, revoke_tokens,
}
use goshorty.Auth.{
  Denial, Session, check_version, auth_token, token_revoked, invalid_token, auth_failed,
}

-- The next version is another one.
pub add64-other : (v : ℕ) → v < 2 ^ 64 → (v == add64 v 1) ≡ false
unfolding add64
add64-other v h = ground arith

-- What `GetUserByID` finds afterwards.
revoked_user :
    (id : String) (p : Address) (us : UserStorage)
    → lookup id us.by_id ≡ some p
    → get_user_by_id id (revoke_tokens id us).1 ≡ ok (bump_version (us.heap p))
unfolding get_user_by_id revoke_tokens
revoked_user id p us known = ground (arith, known)

-- Refused as revoked, as invalid, or, only where the call of the store fails, because it cannot be asked.
abbrev pub IsDenied : Type 0 → Result Denial Session → Type 0
IsDenied Fails answer =
    ((answer ≡ err token_revoked) ⊎ (answer ≡ err invalid_token))
    ⊎ (Fails × (answer ≡ err auth_failed))

module _ (base64 : Base64) (json : Json TokenClaims) (sign_bytes : String → String → List ℕ)
    (ts : TokenService) where
  check_claims-same :
      (now : ℤ) (claims c : TokenClaims)
      → check_claims base64 json sign_bytes ts now claims ≡ ok c
      → claims ≡ c
  unfolding check_claims
  check_claims-same now claims c h = ground arith

  read_payload-same :
      (now later : ℤ) (payload : String) (c d : TokenClaims)
      → read_payload base64 json sign_bytes ts now payload ≡ ok c
      → read_payload base64 json sign_bytes ts later payload ≡ ok d
      → c ≡ d
  unfolding read_payload
  read_payload-same now later payload c d h k = elim (Option-cases (base64.decode_string payload)) [
    | inl bad ↦ absurd (ground arith)
    | inr (claims_json, decoded) ↦ elim (Option-cases (json.unmarshal claims_json)) [
      | inl bad ↦ absurd (ground arith)
      | inr (read, unmarshalled) ↦
          sym (check_claims-same now read c (ground arith))
          ∙ check_claims-same later read d (ground arith)
    ]
  ]

  -- A token stands for the same claims whenever it is accepted.
  pub verify_token-same :
      (now later : ℤ) (token : String) (c d : TokenClaims)
      → verify_token base64 json sign_bytes ts now token ≡ ok c
      → verify_token base64 json sign_bytes ts later token ≡ ok d
      → c ≡ d
  unfolding verify_token check_parts
  verify_token-same now later token c d h k = elim (Option-cases (split_dot token)) [
    | inl bad ↦ absurd (ground arith)
    | inr ((payload, sig_b64), cut) ↦ elim (Option-cases (base64.decode_string sig_b64)) [
      | inl bad ↦ absurd (ground arith)
      | inr (sig, decoded) ↦ read_payload-same now later payload c d (ground arith) (ground arith)
    ]
  ]

  abbrev pub IsRefused : Result Denial Session → Type 0
  IsRefused answer = (answer ≡ err token_revoked) ⊎ (answer ≡ err invalid_token)

  -- The user of an accepted token has the token's version.
  pub accepted_user :
      (now : ℤ) (find : String → Result UserError User) (token : String) (claims : TokenClaims)
      (session : Session)
      → verify_token base64 json sign_bytes ts now token ≡ ok claims
      → auth_token base64 json sign_bytes ts now find token ≡ ok session
      → (user : User) × (find claims.user_id ≡ ok user)
        × (claims.token_version ≡ user.token_version)
  unfolding auth_token check_version
  accepted_user now find token claims session verified accepted =
      elim (Result-cases (find claims.user_id)) [
        | inr (e, bad) ↦ absurd (denied e bad)
        | inl (user, found) ↦ (user, found, ground arith)
      ]
    where
      denied : (e : UserError) → find claims.user_id ≡ err e → ⊥
      denied e bad = ground arith

  -- A token of another version than its user's is refused.
  pub outdated-IsRefused :
      (later : ℤ) (find : String → Result UserError User) (token : String) (claims : TokenClaims)
      (user : User)
      → ((d : TokenClaims) → verify_token base64 json sign_bytes ts later token ≡ ok d → claims ≡ d)
      → find claims.user_id ≡ ok user
      → (claims.token_version == user.token_version) ≡ false
      → IsRefused (auth_token base64 json sign_bytes ts later find token)
  unfolding auth_token check_version
  outdated-IsRefused later find token claims user same found other =
      elim (Result-cases (verify_token base64 json sign_bytes ts later token)) [
        | inr (e, bad) ↦ inr (ground arith)
        | inl (d, good) ↦
            let e : claims ≡ d = same d good in
            let found' = subst (λ (c : TokenClaims). find c.user_id ≡ ok user) e found in
            let other' =
              subst (λ (c : TokenClaims). (c.token_version == user.token_version) ≡ false) e
                other in
            inl (ground (arith, good, found', other'))
      ]

  -- After `RevokeTokens` for the user of an accepted token, the middleware refuses the token at any time.
  pub revoke_tokens-IsRefused :
      (now later : ℤ) (token : String) (claims : TokenClaims) (session : Session) (us : UserStorage)
      → verify_token base64 json sign_bytes ts now token ≡ ok claims
      → auth_token base64 json sign_bytes ts now (λ id. get_user_by_id id us) token ≡ ok session
      → claims.token_version < 2 ^ 64
      → IsRefused (
          auth_token base64 json sign_bytes ts later
            (λ id. get_user_by_id id (revoke_tokens claims.user_id us).1)
            token)
  unfolding get_user_by_id
  revoke_tokens-IsRefused now later token claims session us verified accepted small =
      let (user, found, version) =
        accepted_user now (λ id. get_user_by_id id us) token claims session verified accepted in
      elim (Option-cases (lookup claims.user_id us.by_id)) [
        | inl missing ↦ absurd (ground arith)
        | inr (p, known) ↦
            let same : user ≡ us.heap p = ground arith in
            let version' : claims.token_version ≡ (us.heap p).token_version =
              version ∙ ap (λ (u : User). u.token_version) same in
            outdated-IsRefused later (λ id. get_user_by_id id (revoke_tokens claims.user_id us).1)
              token claims (bump_version (us.heap p))
              (λ d. verify_token-same now later token claims d verified)
              (revoked_user claims.user_id p us known)
              (rw (sym version') (add64-other claims.token_version small))
      ]

  -- Where the store cannot be asked, nobody is let through either.
  failed-IsRefused :
      (later : ℤ) (find : String → Result UserError User) (token : String) (claims : TokenClaims)
      → ((d : TokenClaims) → verify_token base64 json sign_bytes ts later token ≡ ok d → claims ≡ d)
      → find claims.user_id ≡ err users_unavailable
      → let answer = auth_token base64 json sign_bytes ts later find token in
        (answer ≡ err invalid_token) ⊎ (answer ≡ err auth_failed)
  unfolding auth_token check_version
  failed-IsRefused later find token claims same failed =
      elim (Result-cases (verify_token base64 json sign_bytes ts later token)) [
        | inr (e, bad) ↦ inl (ground arith)
        | inl (d, good) ↦
            let failed' =
              subst (λ (c : TokenClaims). find c.user_id ≡ err users_unavailable) (same d good)
                failed in
            inr (ground (arith, good, failed'))
      ]

  -- A token whose user is gone is refused.
  unknown-IsRefused :
      (later : ℤ) (find : String → Result UserError User) (token : String) (claims : TokenClaims)
      → ((d : TokenClaims) → verify_token base64 json sign_bytes ts later token ≡ ok d → claims ≡ d)
      → find claims.user_id ≡ err user_not_found
      → auth_token base64 json sign_bytes ts later find token ≡ err invalid_token
  unfolding auth_token check_version
  unknown-IsRefused later find token claims same missing =
      elim (Result-cases (verify_token base64 json sign_bytes ts later token)) [
        | inr (e, bad) ↦ ground arith
        | inl (d, good) ↦
            let missing' =
              subst (λ (c : TokenClaims). find c.user_id ≡ err user_not_found) (same d good)
                missing in
            ground (arith, good, missing')
      ]

  -- Once its user has got another token version, a token that was accepted is denied at any time, in
  -- every state up to 2 ^ 64 changes of users later.
  module _ {S : Type 0} (bcrypt : Bcrypt) (model : UserModel S)
      {Fails later_Fails : UserCall → Type 0} (store later_store : UserStore S)
      (laws : UserStoreLaws model bcrypt Fails store)
      (later_laws : UserStoreLaws model bcrypt later_Fails later_store) where
    pub IsBumped-IsDenied :
        (now later : ℤ) (token : String) (claims : TokenClaims) (session : Session)
        (hash : User → String) {us us₁ us₂ us' : S} {m n : ℕ}
        → model.IsSound us
        → Later bcrypt model claims.user_id us m us₁
        → IsBumped model claims.user_id hash us₁ us₂
        → Later bcrypt model claims.user_id us₂ n us'
        → suc (m + n) < 2 ^ 64
        → verify_token base64 json sign_bytes ts now token ≡ ok claims
        → auth_token base64 json sign_bytes ts now (λ id. store.get_user_by_id id us) token
          ≡ ok session
        → IsDenied (later_Fails getting_by_id) (
            auth_token base64 json sign_bytes ts later
              (λ id. later_store.get_user_by_id id us')
              token)
    IsBumped-IsDenied now later token claims session hash {us} {us' = us'} sound earlier b
          afterwards small verified accepted =
        let (user, read, version) =
          accepted_user now (λ id. store.get_user_by_id id us) token claims session verified
            accepted in
        let find : String → Result UserError User = λ id. later_store.get_user_by_id id us' in
        let same_claims : (d : TokenClaims)
            → verify_token base64 json sign_bytes ts later token ≡ ok d
            → claims ≡ d =
          λ d. verify_token-same now later token claims d verified in
        elim (later_laws.get_user_by_id_lem claims.user_id us') [
          | inr (fails, e) ↦ elim (failed-IsRefused later find token claims same_claims e) [
            | inl bad ↦ inl (inr bad)
            | inr failed ↦ inr (fails, failed)
          ]
          | inl found' ↦ elim (Option-cases (model.of_id claims.user_id us')) [
            | inl gone ↦ inl (
                inr (
                  unknown-IsRefused later find token claims same_claims
                    (ground (arith, found', gone))))
            | inr (u', there') ↦ elim (laws.get_user_by_id_lem claims.user_id us) [
              | inr (fails, e) ↦ absurd (ground (arith, read, e))
              | inl right ↦
                  let there : model.of_id claims.user_id us ≡ some user =
                    was_there claims us user read right in
                  let other =
                    Later-other bcrypt model hash laws sound earlier b afterwards small user u'
                      there there' in
                  inl (
                    outdated-IsRefused later find token claims u' same_claims
                      (ground (arith, found', there')) (rw version other))
            ]
          ]
        ]
      where
        was_there :
            (claims : TokenClaims) (us : S) (user : User)
            → store.get_user_by_id claims.user_id us ≡ ok user
            → store.get_user_by_id claims.user_id us ≡ found (model.of_id claims.user_id us)
            → model.of_id claims.user_id us ≡ some user
        was_there claims us user read right = elim (Option-cases (model.of_id claims.user_id us)) [
          | inl missing ↦ absurd (ground (arith, read, right, missing))
          | inr (u, there) ↦ ground (arith, read, right, there)
        ]
