-- ===== src/Handlers/Accounts/Password.antt =====
-- `ChangePassword` and `RevokeSessions` of handlers/auth.go over any user store with the contract.
use goshorty.Prelude.{
  ℕ, String, ◌≡◌, ◌≢◌, sym, ap, subst, ◌∙◌, true, false, ◌⊎◌, inl, inr, some, List, Result, ok, err,
  arith, str_eq, Bool-cases, Option-cases, Result-cases, suc, ◌+◌, ◌<◌, ◌^◌, none,
}
use goshorty.Prelude.Int.{ℤ}
use goshorty.Models.{User}
use goshorty.Models.Cursor.{Json, Base64}
use goshorty.Token.{TokenClaims, TokenService, verify_token}
use goshorty.Users.{Bcrypt, UserError, hash_failed}
use goshorty.UserStore.{UserStore}
use goshorty.UserStore.Contract.{
  UserCall, updating, getting_by_id, bumped_user, full, UserModel, UserStoreLaws, IsBumped, bumped,
  unknown, lost, failed,
}
use goshorty.UserStore.Later.{Later, Later-IsLater}
use goshorty.Auth.{Session, auth_token}
use goshorty.Auth.Revocation.{IsDenied, IsBumped-IsDenied}
use goshorty.Handlers.{Response, json, done}
use goshorty.Handlers.Accounts.{
  ChangePasswordRequest, change_password, revoke_sessions, valid_password_length,
}
use goshorty.Handlers.Accounts.Login.{authenticate}

abbrev pub password_changed : Response
password_changed = json 200 (done "Password changed successfully")

abbrev pub sessions_revoked : Response
sessions_revoked = json 200 (done "All sessions revoked")

module _ {S : Type 0} (bcrypt : Bcrypt) (model : UserModel S) {Fails : UserCall → Type 0}
    (store : UserStore S) (laws : UserStoreLaws model bcrypt Fails store) where
  module _ (salt : ℕ) (session : Session) (req : ChangePasswordRequest) (us between : S) where
    abbrev pub changed : S
    changed = (change_password store salt session (some req) us between).1

    -- The caller knew the password of the user `u`, the new one may be used and is another, and, in the
    -- state that the second call of the store has met, the user of the session's ID has got the new hash and
    -- the next token version, as the only change.
    pub record IsChanged (u : User) : Type 0 where
      pub allowed : valid_password_length req.new_password ≡ true
      pub differs : str_eq req.current_password req.new_password ≡ false
      pub knew : bcrypt.compare u.password req.current_password ≡ true
      pub hash : String
      pub hashed : bcrypt.generate salt req.new_password ≡ some hash
      pub renewed : IsBumped model session.user_id (λ w. hash) between changed

    abbrev updated : Result UserError (Unit {0}) × S
    updated = store.update_password salt session.user_id req.new_password between

    -- Past its tests, `ChangePassword` answers what `UpdatePassword` does.
    module _ (strong : valid_password_length req.new_password ≡ true)
        (other : str_eq req.current_password req.new_password ≡ false)
        (valid : store.verify_password session.username req.current_password us ≡ ok true) where
      after_update : changed ≡ updated.1
      unfolding change_password
      after_update = elim (Result-cases updated.0) [
        | inl (_, e) ↦ ground (arith, strong, other, valid, e)
        | inr (_, e) ↦ ground (arith, strong, other, valid, e)
      ]

      answer_done :
          updated.0 ≡ ok tt
          → (change_password store salt session (some req) us between).0 ≡ password_changed
      unfolding change_password
      answer_done h = ground (arith, strong, other, valid, h)

      answer_failed :
          (e : UserError)
          → updated.0 ≡ err e
          → (change_password store salt session (some req) us between).0 ≢ password_changed
      unfolding change_password
      answer_failed e h same = ground (arith, strong, other, valid, h)

      is_changed :
          (u : User) (hash : String)
          → bcrypt.compare u.password req.current_password ≡ true
          → bcrypt.generate salt req.new_password ≡ some hash
          → IsBumped model session.user_id (λ w. hash) between updated.1
          → IsChanged u
      is_changed u hash right hashed b = record {
        allowed = strong;
        differs = other;
        knew = right;
        hash = hash;
        hashed = hashed;
        renewed =
            subst (λ (us' : S). IsBumped model session.user_id (λ w. hash) between us')
              (sym after_update) b;
      }

      update-Outcome :
          (u : User)
          → model.IsSound between
          → bcrypt.compare u.password req.current_password ≡ true
          → let answer = (change_password store salt session (some req) us between).0 in
            ((answer ≡ password_changed) × IsChanged u)
            ⊎ ((answer ≢ password_changed) × ((changed ≡ between) ⊎ (Fails updating × IsChanged u)))
      update-Outcome u sound right = elim (Option-cases (bcrypt.generate salt req.new_password)) [
        | inl no_hash ↦
            let stopped =
              laws.hash_failed_lem salt session.user_id req.new_password between no_hash in
            inr (
              answer_failed hash_failed (ap (λ r. r.0) stopped),
              inl (after_update ∙ ap (λ r. r.1) stopped),
            )
        | inr (hash, hashed) ↦
            elim (laws.update_password_lem salt session.user_id req.new_password hash between sound
              hashed) [
                | bumped h b ↦ inl (answer_done h, is_changed u hash right hashed b)
                | unknown missing h same ↦ inr (answer_failed _ h, inl (after_update ∙ same))
                | full u known no_room h same ↦ inr (answer_failed _ h, inl (after_update ∙ same))
                | lost fails h b ↦
                    inr (answer_failed _ h, inr (fails, is_changed u hash right hashed b))
                | failed fails h same ↦ inr (answer_failed _ h, inl (after_update ∙ same))
              ]
      ]

    -- `ChangePassword` answers 200 only where it changes the password, of which the caller has to know the
    -- old one; where it answers anything else, nothing changes, except that the answer of a call of
    -- `UpdatePassword` that fails may be lost after the change. The user whom the session names is `u` at
    -- the first call of the store, and there may come other calls before the second one.
    pub change_password-Outcome :
        (u : User)
        → model.IsSound between
        → model.named session.username us ≡ some u
        → let answer = (change_password store salt session (some req) us between).0 in
          ((answer ≡ password_changed) × IsChanged u)
          ⊎ ((answer ≢ password_changed) × ((changed ≡ between) ⊎ (Fails updating × IsChanged u)))
    unfolding change_password
    change_password-Outcome u sound named =
        elim (Bool-cases (valid_password_length req.new_password)) [
          | inr weak ↦ inr (λ e. ground (arith, weak), inl (ground (arith, weak)))
          | inl strong ↦ elim (Bool-cases (str_eq req.current_password req.new_password)) [
            | inl same ↦ inr (λ e. ground (arith, strong, same), inl (ground (arith, strong, same)))
            | inr other ↦ elim (laws.verify_password_lem session.username req.current_password us) [
              | inr (fails, f) ↦
                  inr
                    (λ e. ground (arith, strong, other, f), inl (ground (arith, strong, other, f)))
              | inl told ↦ elim (Bool-cases (bcrypt.compare u.password req.current_password)) [
                | inr wrong ↦ inr (
                  λ e. ground (arith, strong, other, named, told, wrong),
                  inl (ground (arith, strong, other, named, told, wrong)),
                )
                | inl right ↦
                    let valid : store.verify_password session.username req.current_password us
                        ≡ ok true =
                      ground (arith, named, told, right) in
                    update-Outcome strong other valid u sound right
              ]
            ]
          ]
        ]

    -- 200 is not answered where the session's name is nobody's.
    no_user :
        model.named session.username us ≡ none
        → (change_password store salt session (some req) us between).0 ≢ password_changed
    unfolding change_password
    no_user missing answered =
        elim (laws.verify_password_lem session.username req.current_password us) [
          | inr (fails, f) ↦ ground (arith, answered, f)
          | inl told ↦ ground (arith, answered, told, missing)
        ]

    change_password-IsChanged :
        model.IsSound between
        → (change_password store salt session (some req) us between).0 ≡ password_changed
        → (u : User) × IsChanged u
    change_password-IsChanged sound answered =
        elim (Option-cases (model.named session.username us)) [
          | inl missing ↦ absurd (no_user missing answered)
          | inr (u, named) ↦ elim (change_password-Outcome u sound named) [
            | inl (same, c) ↦ (u, c)
            | inr (other, same) ↦ absurd (other answered)
          ]
        ]

    -- After `ChangePassword` has answered 200, the new password is the one that logs the user in, where
    -- bcrypt accepts a password for its own hash.
    pub change_password-authenticate :
        ((salt : ℕ) (password hash : String)
          → bcrypt.generate salt password ≡ some hash
          → bcrypt.compare hash password ≡ true)
        → model.IsSound between
        → (change_password store salt session (some req) us between).0 ≡ password_changed
        → (after : User) × (authenticate bcrypt req.new_password
              (model.named after.username changed)
            ≡ some after)
          × (after.id ≡ session.user_id)
    unfolding authenticate
    change_password-authenticate own_hash sound answered =
        let (u, c) = change_password-IsChanged sound answered in
        let b = c.renewed in
        let matches = own_hash salt req.new_password c.hash c.hashed in
        (
          bumped_user model (λ w. c.hash) b.before,
          ground (arith, b.named_after, matches),
          (laws.of_id_lem session.user_id between b.before sound b.known).0,
        )

  module _ (base64 : Base64) (json_claims : Json TokenClaims)
      (sign_bytes : String → String → List ℕ) (ts : TokenService) {later_Fails : UserCall → Type 0}
      (later_store : UserStore S)
      (later_laws : UserStoreLaws model bcrypt later_Fails later_store) where
    -- After `ChangePassword` has answered 200, `AuthMiddleware` denies at any time, and in every later state,
    -- every token of the user that it has accepted in any earlier state, the one of the request itself
    -- among them. (With fewer than 2 ^ 64 calls of `UpdatePassword` and `RevokeTokens` in all, whoever makes
    -- them and whatever becomes of them. New users get IDs that nobody has and that are not the user's.)
    pub change_password-IsDenied :
        (salt : ℕ) (session : Session) (req : ChangePasswordRequest) (now later : ℤ)
        (token : String) (claims : TokenClaims) (accepted_as : Session) (us us₀ us₁ us' : S)
        {m n : ℕ}
        → model.IsSound us
        → verify_token base64 json_claims sign_bytes ts now token ≡ ok claims
        → claims.user_id ≡ session.user_id
        → auth_token base64 json_claims sign_bytes ts now (λ id. store.get_user_by_id id us) token
          ≡ ok accepted_as
        → Later bcrypt model claims.user_id us m us₁
        → (change_password store salt session (some req) us₀ us₁).0 ≡ password_changed
        → Later bcrypt model claims.user_id (changed salt session req us₀ us₁) n us'
        → suc (m + n) < 2 ^ 64
        → IsDenied (later_Fails getting_by_id) (
            auth_token base64 json_claims sign_bytes ts later
              (λ id. later_store.get_user_by_id id us')
              token)
    change_password-IsDenied salt session req now later token claims accepted_as us us₀ us₁ us'
          sound verified whose accepted earlier answered afterwards small =
        let met = Later-IsLater bcrypt model sound earlier in
        let (u, c) = change_password-IsChanged salt session req us₀ us₁ met.sound answered in
        let b =
          subst (λ i. IsBumped model i (λ w. c.hash) us₁ (changed salt session req us₀ us₁))
            (sym whose) c.renewed in
        IsBumped-IsDenied base64 json_claims sign_bytes ts bcrypt model store later_store laws
          later_laws now later token claims accepted_as (λ w. c.hash) sound earlier b afterwards
          small verified accepted

    -- After `RevokeSessions` has answered 200, `AuthMiddleware` denies at any time, and in every later state,
    -- every token of the user that it has accepted in any earlier state, the one of the request itself
    -- among them. (With fewer than 2 ^ 64 calls of `UpdatePassword` and `RevokeTokens` in all, whoever makes
    -- them and whatever becomes of them. New users get IDs that nobody has and that are not the user's.)
    pub revoke_sessions-IsDenied :
        (session : Session) (now later : ℤ) (token : String) (claims : TokenClaims)
        (accepted_as : Session) (us us₁ us' : S) {m n : ℕ}
        → model.IsSound us
        → verify_token base64 json_claims sign_bytes ts now token ≡ ok claims
        → claims.user_id ≡ session.user_id
        → auth_token base64 json_claims sign_bytes ts now (λ id. store.get_user_by_id id us) token
          ≡ ok accepted_as
        → Later bcrypt model claims.user_id us m us₁
        → (revoke_sessions store session us₁).0 ≡ sessions_revoked
        → Later bcrypt model claims.user_id (revoke_sessions store session us₁).1 n us'
        → suc (m + n) < 2 ^ 64
        → IsDenied (later_Fails getting_by_id) (
            auth_token base64 json_claims sign_bytes ts later
              (λ id. later_store.get_user_by_id id us')
              token)
    unfolding revoke_sessions
    revoke_sessions-IsDenied session now later token claims accepted_as us us₁ us' sound verified
          whose accepted earlier answered afterwards small =
        let met = Later-IsLater bcrypt model sound earlier in
        let r = store.revoke_tokens session.user_id us₁ in
        let after : (revoke_sessions store session us₁).1 ≡ r.1 = elim (Result-cases r.0) [
          | inl (_, e) ↦ ground (arith, e)
          | inr (_, e) ↦ ground (arith, e)
        ] in
        elim (laws.revoke_tokens_lem session.user_id us₁ met.sound) [
          | unknown missing h same ↦ absurd (ground (arith, answered, h))
          | full u known no_room h same ↦ absurd (ground (arith, answered, h))
          | lost fails h b ↦ absurd (ground (arith, answered, h))
          | failed fails h same ↦ absurd (ground (arith, answered, h))
          | bumped h b ↦
              let b' = subst (λ i. IsBumped model i (λ w. w.password) us₁ r.1) (sym whose) b in
              let b'' =
                subst (λ (s : S). IsBumped model claims.user_id (λ w. w.password) us₁ s) (sym after)
                  b' in
              IsBumped-IsDenied base64 json_claims sign_bytes ts bcrypt model store later_store laws
                later_laws now later token claims accepted_as (λ w. w.password) sound earlier b''
                afterwards small verified accepted
        ]
