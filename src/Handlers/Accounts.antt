-- ===== src/Handlers/Accounts.antt =====
-- handlers/auth.go: the handlers of the accounts, over any user store. The audit log is left out.
pub mod Login
pub mod Password
pub mod Kept
use goshorty.Prelude.{
  ℕ, String, Bool, true, false, not, ◌&&◌, Option, none, some, List, [], ◌∷◌, Result, ok, err, leb,
  map, str_eq, byte_len, get_last?, if◌then◌else◌,
}
use goshorty.Prelude.Int.{ℤ}
use goshorty.Paging.{ListResult}
use goshorty.Models.{User, UserCursor}
use goshorty.Models.Cursor.{Json, Base64, encode_cursor, decode_cursor}
use goshorty.Go.Map.{Map, lookup}
use goshorty.Go.Sort.{slice_stable}
use goshorty.UrlService.{normalize_limit}
use goshorty.Token.{TokenClaims, TokenService, generate_token}
use goshorty.Users.{
  UserError, user_not_found, username_exists, invalid_role, last_admin, by_username,
}
use goshorty.UserStore.{UserStore, UserDraws}
use goshorty.Auth.{Session}
use goshorty.Handlers.{
  Body, logged_in, done, user_page, user_list, role_updated, user_deleted, current_user, Response,
  json, write_error, public_user, ListQuery, parse_list_options,
}

pub record LoginRequest : Type 0 where
  pub username : String
  pub password : String

pub record RegisterRequest : Type 0 where
  pub username : String
  pub password : String
  pub email : String

pub record ChangePasswordRequest : Type 0 where
  pub current_password : String
  pub new_password : String

-- In bytes.
abbrev pub valid_password_length : String → Bool
valid_password_length password = leb 12 (byte_len password) && leb (byte_len password) 72

abbrev pub invalid_request : Response
invalid_request = write_error 400 "INVALID_REQUEST" "Request body is invalid"

abbrev pub invalid_credentials : Response
invalid_credentials = write_error 401 "INVALID_CREDENTIALS" "Invalid credentials"

abbrev pub wrong_password : Response
wrong_password = write_error 401 "INVALID_CREDENTIALS" "Current password is incorrect"

abbrev pub change_failed : Response
change_failed = write_error 500 "PASSWORD_CHANGE_FAILED" "Failed to change password"

abbrev pub list_failed : Response
list_failed = write_error 500 "LIST_FAILED" "Failed to list users"

abbrev pub cursor_invalid : Response
cursor_invalid = write_error 400 "INVALID_CURSOR" "cursor is invalid or expired"

abbrev pub registration_error : UserError → Response
registration_error username_exists =
    write_error 409 "USERNAME_TAKEN" "Username is already registered"
registration_error other = write_error 500 "REGISTRATION_FAILED" "Registration failed"

abbrev pub verification_error : UserError → Response
verification_error user_not_found = invalid_credentials
verification_error other = write_error 500 "AUTH_FAILED" "Authentication service unavailable"

abbrev pub password_error : UserError → Response
password_error user_not_found = wrong_password
password_error other = change_failed

abbrev pub role_error : UserError → Response
role_error user_not_found = write_error 404 "USER_NOT_FOUND" "User not found"
role_error invalid_role = write_error 400 "INVALID_ROLE" "Role must be admin or user"
role_error last_admin = write_error 409 "LAST_ADMIN" "The last admin cannot be demoted"
role_error other = write_error 500 "UPDATE_FAILED" "Failed to update user role"

abbrev pub user_deletion_error : UserError → Response
user_deletion_error user_not_found = write_error 404 "USER_NOT_FOUND" "User not found"
user_deletion_error last_admin = write_error 409 "LAST_ADMIN" "The last admin cannot be deleted"
user_deletion_error other = write_error 500 "DELETE_FAILED" "Failed to delete user"

abbrev pub current_user_error : UserError → Response
current_user_error user_not_found = write_error 404 "USER_NOT_FOUND" "User not found"
current_user_error other = write_error 500 "USER_LOOKUP_FAILED" "Failed to load current user"

-- The zero value of a key that a Go map lacks.
abbrev pub text_at : String → Map String → String
text_at key m = elim (lookup key m) [ none ↦ "" | some v ↦ v ]

module _ (base64 : Base64) (json_claims : Json TokenClaims) (sign_bytes : String → String → List ℕ)
    (ts : TokenService) where
  -- From `GenerateToken` on, in `Register` and `Login`; at the token service's time, with its draws.
  unfoldable pub token_response : ℤ → (ℕ → ℕ) → ℕ → String → User → Response
  token_response now draws status message user =
      elim (generate_token base64 json_claims sign_bytes ts now draws user.id user.username
        user.role (some user.token_version)) [
          | err e ↦ write_error 500 "TOKEN_ERROR" "Failed to generate token"
          | ok token ↦ json status (logged_in token (public_user user) message)
        ]

  module _ {S : Type 0} (users : UserStore S) where
    unfoldable pub register : UserDraws → ℤ → (ℕ → ℕ) → Option RegisterRequest → S → Response × S
    unfolding token_response
    register creation now draws none us = (invalid_request, us)
    register creation now draws (some req) us =
        if not (valid_password_length req.password)
        then (write_error 400 "WEAK_PASSWORD" "Password must be between 12 and 72 bytes", us)
        else let (answer, us') =
            users.create_user creation req.username req.password req.email us in
          (elim answer [
            | err e ↦ (registration_error e, us')
            | ok user ↦ (token_response now draws 201 "User registered successfully" user, us')
          ])

    -- `us` is what `VerifyPassword` finds, `later` what `GetUser` finds after it.
    unfoldable pub login : ℤ → (ℕ → ℕ) → Option LoginRequest → S → S → Response
    unfolding token_response
    login now draws none us later = invalid_request
    login now draws (some req) us later =
        elim (users.verify_password req.username req.password us) [
          | err e ↦ verification_error e
          | ok valid ↦
              if not valid then invalid_credentials else (elim (users.get_user req.username later) [
                | err e ↦ write_error 500 "INTERNAL_ERROR" "Internal server error"
                | ok user ↦ token_response now draws 200 "Login successful" user
              ])
        ]

module _ {S : Type 0} (users : UserStore S) where
  -- `VerifyPassword` and `UpdatePassword` are two calls: the second one meets the state `between`.
  unfoldable pub change_password : ℕ → Session → Option ChangePasswordRequest → S → S → Response × S
  change_password salt session none us between = (invalid_request, between)
  change_password salt session (some req) us between =
      if not (valid_password_length req.new_password)
      then (write_error 400 "WEAK_PASSWORD" "New password must be between 12 and 72 bytes", between)
      else if str_eq req.current_password req.new_password
      then (write_error 400 "PASSWORD_UNCHANGED" "New password must be different", between)
      else (elim (users.verify_password session.username req.current_password us) [
        | err e ↦ (password_error e, between)
        | ok valid ↦
            if not valid
            then (wrong_password, between)
            else let (answer, us') =
                users.update_password salt session.user_id req.new_password between in
              (elim answer [
                | err e ↦ (change_failed, us')
                | ok _ ↦ (json 200 (done "Password changed successfully"), us')
              ])
      ])

  unfoldable pub revoke_sessions : Session → S → Response × S
  revoke_sessions session us =
      let (answer, us') = users.revoke_tokens session.user_id us in
      elim answer [
        | err e ↦ (write_error 500 "SESSION_REVOKE_FAILED" "Failed to revoke sessions", us')
        | ok _ ↦ (json 200 (done "All sessions revoked"), us')
      ]

  unfoldable pub update_user_role : String → Option (Map String) → S → Response × S
  update_user_role username none us = (invalid_request, us)
  update_user_role username (some req) us =
      let role = text_at "role" req in
      let (answer, us') = users.update_user_role username role us in
      elim answer [
        | err e ↦ (role_error e, us')
        | ok _ ↦ (json 200 (role_updated "User role updated" username role), us')
      ]

  unfoldable pub delete_user : String → S → Response × S
  delete_user username us =
      let (answer, us') = users.delete_user username us in
      elim answer [
        | err e ↦ (user_deletion_error e, us')
        | ok _ ↦ (json 200 (user_deleted "User deleted" username), us')
      ]

  unfoldable pub get_current_user : Session → S → Response
  get_current_user session us = elim (users.get_user_by_id session.user_id us) [
    | err e ↦ current_user_error e
    | ok user ↦ json 200 (current_user (public_user user) session.role session.username)
  ]

  module _ (base64 : Base64) (json_codec : Json UserCursor) where
    -- The cursor of the query, checked.
    unfoldable pub user_cursor_from : String → Option UserCursor
    user_cursor_from raw =
        if str_eq raw ""
        then some (record { username = "" })
        else (elim (decode_cursor base64 json_codec raw) [
          | err e ↦ none
          | ok cursor ↦ if str_eq cursor.username "" then none else some cursor
        ])

    unfoldable pub user_page_response : ListResult User → Response
    user_page_response res =
        let page : Option String → Response =
          λ next. json 200 (user_page (map public_user res.items) res.total next) in
        if res.has_more
        then (elim (get_last? res.items) [
          | none ↦ page none
          | some last ↦
              (elim (encode_cursor base64 json_codec (record { username = last.username })) [
                | err e ↦ list_failed
                | ok enc ↦ page (some enc)
              ])
        ])
        else page none

    unfoldable pub get_all_users : (String → Option ℤ) → String → ListQuery → S → Response
    unfolding parse_list_options user_cursor_from user_page_response
    get_all_users atoi api_version query us =
        if str_eq api_version "v1"
        then (elim (parse_list_options atoi query) [
          | none ↦ write_error 400 "INVALID_LIMIT" "limit must be a positive integer"
          | some opts ↦ (elim (user_cursor_from opts.cursor) [
            | none ↦ cursor_invalid
            | some cursor ↦ (elim (users.list_users cursor (normalize_limit opts.limit) us) [
              | err e ↦ list_failed
              | ok res ↦ user_page_response res
            ])
          ])
        ])
        else (elim (users.get_all_users us) [
          | err e ↦ list_failed
          | ok all ↦ json 200 (user_list (map public_user (slice_stable by_username all)))
        ])
