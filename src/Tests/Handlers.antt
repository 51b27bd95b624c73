-- ===== src/Tests/Handlers.antt =====
-- Examples of the theorems on the handlers, over the in-memory stores.
use goshorty.Prelude.{
  ◌≤◌, String, ◌≡◌, ◌≢◌, refl, some, [], ◌∷◌, ok, arith, str_eq, str_eq_iff, byte_len, inl, ◌⊎◌,
}
use Prim.Native.String.{◌++◌ as append}
use goshorty.Prelude.Int.{◌≤ℤ◌, ℤ, pos, ◌+ℤ◌}
use goshorty.Models.{ShortenResponse, role_user}
use goshorty.Random.{generate_short_code}
use goshorty.Storage.View.{view}
use goshorty.UrlStore.Memory.{memory_store, memory_model, memory_store-laws, visit-ne-failed}
use goshorty.UrlService.{new_url, response_of}
use goshorty.UrlService.Access.{redirects}
use goshorty.Users.{Bcrypt, UserStorage, get_user_by_id, update_user_role, revoke_tokens}
use goshorty.UserStore.Memory.{memory_users}
use goshorty.UserStore.Shared.{IsShared, memory_model as users_model}
use goshorty.UserStore.Promises.{memory_users-laws}
use goshorty.UserStore.Later.{here, promotes, revokes}
use goshorty.Token.{max_token_length, claims_of}
use goshorty.Token.RoundTrip.{Trusts, made_of}
use goshorty.Auth.{session_of, auth_token, auth_middleware}
use goshorty.Auth.Revocation.{IsDenied}
use goshorty.Handlers.{Response, json, redirect, logged_in, public_user}
use goshorty.Handlers.Links.{create_short_url, redirect_link, get_url_info, delete_url, not_found}
use goshorty.Handlers.Links.Answers.{links-AreHidden, create-redirect}
use goshorty.Handlers.Accounts.{
  LoginRequest, ChangePasswordRequest, login, change_password, revoke_sessions, invalid_credentials,
}
use goshorty.Handlers.Accounts.Login.{IsFailure, login-authenticate, login-auth_middleware}
use goshorty.Handlers.Accounts.Password.{
  password_changed, sessions_revoked, IsChanged, change_password-Outcome, change_password-IsDenied,
  revoke_sessions-IsDenied,
}
use goshorty.Tests.Json.{test_base64, test_base64-laws, claims_json, claims_json-laws}
use goshorty.Tests.Tokens.{sign, signer, verifier, draws}
use goshorty.Tests.Store.{two_urls}
use goshorty.Tests.Service.{constant, constant-InRange, config, accept_url, entropy, request}
use goshorty.Tests.Sessions.{
  codec, fixed_json, granted, ticket, verified, alice, accounts, ticket-session,
}

links-AreHidden_example :
    (get_url_info memory_store (pos 5) "a" "u2" role_user two_urls ≡ not_found)
    × ((delete_url memory_store (pos 5) (pos 6) "a" "u2" role_user two_urls two_urls).0 ≡ not_found)
    × ((t : ℤ) (j : String)
        → pos 6 ≤ℤ t
        → view t (delete_url memory_store (pos 5) (pos 6) "a" "u2" role_user two_urls two_urls).1 j
          ≡ view t two_urls j)
unfolding view goshorty.Go.Map.lookup goshorty.Storage.set_if_absent goshorty.Storage.new_storage
    goshorty.Go.Map.insert goshorty.Go.Map.delete
links-AreHidden_example =
    links-AreHidden memory_store memory_model memory_store-laws (pos 5) (pos 6) "a" "u2" role_user
      two_urls two_urls (λ down. down) (λ down. down) refl refl

abbrev link : ShortenResponse
link = response_of config (record (new_url config entropy request "u1") {
  short_code = generate_short_code (pos 6) constant;
})

link-answered :
    (create_short_url memory_store config accept_url entropy (some request) "u1" two_urls).0
    ≡ json 201 (goshorty.Handlers.link_created link)
unfolding create_short_url goshorty.UrlService.create_short_url goshorty.UrlService.reserve_random
    goshorty.UrlService.respond goshorty.Storage.set_if_absent goshorty.Go.Map.lookup
    goshorty.Storage.new_storage goshorty.Go.Map.insert goshorty.Go.Map.delete generate_short_code
link-answered = refl

create-redirect_example :
    (redirect_link memory_store (pos 20) link.short_code (
      redirects memory_store
        ((pos 15, link.short_code) ∷ [])
        (create_short_url memory_store config accept_url entropy (some request) "u1" two_urls).1)).0
    ≡ redirect 302 "https://a.example"
unfolding ◌+ℤ◌ goshorty.Go.Map.lookup
create-redirect_example =
    create-redirect memory_store memory_model memory_store-laws config accept_url entropy request
      "u1" (λ i. constant-InRange) two_urls link link-answered ((pos 15, link.short_code) ∷ [])
      (pos 20) refl (visit-ne-failed (pos 20) _ _)

-- Its hash is the password itself.
abbrev pub plain : Bcrypt
plain = record { generate = λ salt password. some password; compare = str_eq }

abbrev credentials : LoginRequest
credentials = record { username = "alice"; password = "hash" }

abbrev by_bob : Response
by_bob =
    login test_base64 claims_json sign signer (memory_users plain) (pos 10) draws
      (some (record { username = "bob"; password = "x" })) accounts accounts

login-authenticate_example : (by_bob ≡ invalid_credentials) ⊎ IsFailure (λ call. ⊥) by_bob
unfolding goshorty.Handlers.Accounts.Login.authenticate goshorty.Go.Map.lookup
login-authenticate_example =
    login-authenticate test_base64 claims_json sign signer plain users_model (memory_users plain)
      (memory_users-laws plain) (pos 10) draws (record { username = "bob"; password = "x" })
      accounts accounts

signer-Trusts :
    Trusts test_base64 claims_json sign test_base64-laws claims_json-laws
      (λ payload key. refl)
      signer
      signer
signer-Trusts = record {
  signer_keyed = λ e. ground (arith, (str_eq_iff "old" "").1 e);
  verifier_keyed = λ e. ground (arith, (str_eq_iff "old" "").1 e);
  key_known = inl refl;
  lives = omega arith;
  lifetime = omega arith;
  issuer = inl refl;
  audience = inl refl;
}

abbrev pass : String
pass =
    made_of test_base64 claims_json sign test_base64-laws claims_json-laws (λ payload key. refl)
      signer
      (claims_of test_base64 claims_json sign signer (pos 10) draws "u" "alice" role_user (some 2))

pass-fits : byte_len pass ≤ max_token_length
unfolding ◌+ℤ◌ goshorty.Random.generate_id
pass-fits = omega arith

abbrev answered_login : Response
answered_login =
    login test_base64 claims_json sign signer (memory_users plain) (pos 10) draws (some credentials)
      accounts accounts

login-auth_middleware_example :
    ((answered_login ≡ json 200 (logged_in pass (public_user alice) "Login successful"))
      ⊎ IsFailure (λ call. ⊥) answered_login)
    × (auth_middleware test_base64 claims_json sign signer
          (pos 40)
          (λ id. get_user_by_id id accounts)
          (append "Bearer " pass)
        ≡ ok (session_of alice))
unfolding ◌+ℤ◌ get_user_by_id goshorty.Handlers.Accounts.Login.authenticate goshorty.Go.Map.lookup
login-auth_middleware_example =
    login-auth_middleware test_base64 claims_json sign test_base64-laws claims_json-laws
      (λ payload key. refl) signer plain users_model (memory_users plain) (memory_users-laws plain)
      (pos 10) (pos 40) draws credentials accounts accounts alice alice alice
      (λ id. get_user_by_id id accounts) signer-Trusts (omega arith) (omega arith) refl refl refl
      refl pass-fits refl

abbrev renewal : ChangePasswordRequest
renewal = record { current_password = "hash"; new_password = "a longer password" }

pub accounts-IsShared : IsShared accounts
unfolding goshorty.Go.Map.lookup
accounts-IsShared = record {
  ids = (tt, tt);
  in_use = λ id p h. ground (arith, str_eq_iff "u" id);
  by_name = λ name p h. ground (arith, str_eq_iff "alice" name);
  by_id = λ id p h. ground (arith, str_eq_iff "u" id);
}

abbrev change : Response × UserStorage
change = change_password (memory_users plain) 0 (session_of alice) (some renewal) accounts accounts

change_password-Outcome_example :
    ((change.0 ≡ password_changed)
      × IsChanged plain users_model
          (memory_users plain)
          (memory_users-laws plain)
          0
          (session_of alice)
          renewal
          accounts
          accounts
          alice)
    ⊎ ((change.0 ≢ password_changed)
        × ((change.1 ≡ accounts)
            ⊎ (⊥
                × IsChanged plain users_model
                    (memory_users plain)
                    (memory_users-laws plain)
                    0
                    (session_of alice)
                    renewal
                    accounts
                    accounts
                    alice)))
unfolding goshorty.Go.Map.lookup
change_password-Outcome_example =
    change_password-Outcome plain users_model (memory_users plain) (memory_users-laws plain) 0
      (session_of alice) renewal accounts accounts alice accounts-IsShared refl

renewed : change.0 ≡ password_changed
unfolding change_password goshorty.Users.verify_password goshorty.Go.Map.lookup
    goshorty.Users.update_password
renewed = refl

abbrev promoted_later : UserStorage
promoted_later = (update_user_role "alice" "admin" change.1).1

change_password-IsDenied_example : IsDenied ⊥ (
    auth_token codec fixed_json sign verifier
      (pos 45)
      (λ id. get_user_by_id id promoted_later)
      ticket)
change_password-IsDenied_example =
    change_password-IsDenied plain users_model (memory_users plain) (memory_users-laws plain) codec
      fixed_json sign verifier (memory_users plain) (memory_users-laws plain) 0 (session_of alice)
      renewal (pos 40) (pos 45) ticket granted (session_of alice) accounts accounts accounts
      promoted_later accounts-IsShared verified refl ticket-session here renewed
      (promotes (memory_users-laws plain) "alice" "admin" here) (omega arith)

abbrev logout : Response × UserStorage
logout = revoke_sessions (memory_users plain) (session_of alice) accounts

logged_out : logout.0 ≡ sessions_revoked
unfolding revoke_sessions goshorty.Go.Map.lookup goshorty.Users.revoke_tokens
logged_out = refl

abbrev twice : UserStorage
twice = (revoke_tokens "u" logout.1).1

revoke_sessions-IsDenied_example :
    IsDenied ⊥
      (auth_token codec fixed_json sign verifier (pos 45) (λ id. get_user_by_id id twice) ticket)
revoke_sessions-IsDenied_example =
    revoke_sessions-IsDenied plain users_model (memory_users plain) (memory_users-laws plain) codec
      fixed_json sign verifier (memory_users plain) (memory_users-laws plain) (session_of alice)
      (pos 40) (pos 45) ticket granted (session_of alice) accounts accounts twice accounts-IsShared
      verified refl ticket-session here logged_out (revokes (memory_users-laws plain) "u" here)
      (omega arith)
