-- ===== src/Server/Startup.antt =====
-- The start of `main` in main.go, up to the services: the secrets that it reads from the environment and
-- the checks that end the program. `release` is whether Gin runs in release mode. That a store cannot be
-- opened, which ends the program too, is not modelled.
use goshorty.Prelude.{
  ℕ, ◌≤◌, String, ◌≡◌, ◌≢◌, refl, ap, ◌∙◌, Bool, true, false, not, ◌&&◌, ◌||◌, ◌⊎◌, inl, inr, List,
  [], ◌∷◌, Result, ok, err, arith, ltb, length, byte_len, str_eq, str_eq_iff, if◌then◌else◌,
  Bool-cases, Result-cases,
}
use goshorty.Prelude.Int.{pos, ◌<ℤ◌}
use goshorty.Config.{Config}
use goshorty.Config.Env.{Environment}
use goshorty.Config.Validate.{ConfigError}
use goshorty.Models.Cursor.{Json, Base64, JsonLaws, Base64Laws}
use goshorty.Token.{
  TokenClaims, TokenService, new_token_service, apply_option, with_ttl, with_previous_secret,
  with_issuer, with_audience, whole_seconds, digest_size,
}
use goshorty.Token.RoundTrip.{Trusts}

pub data Fatal : Type 0 where
  invalid_configuration : ConfigError → Fatal
  secret_missing secret_short previous_short previous_same : Fatal
  admin_password_missing admin_password_length database_missing : Fatal

pub data Backend : Type 0 where
  postgres : (url : String) → Backend
  in_memory : Backend

pub record Settings : Type 0 where
  pub tokens : TokenService
  pub admin_password : String
  pub admin_email : String
  pub backend : Backend

-- `getEnv`
abbrev pub get_env : Environment → String → String → String
get_env getenv key fallback = let val = getenv key in if not (str_eq val "") then val else fallback

abbrev pub default_admin_password : String
default_admin_password = "admin123"

apart :
    (previous secret : String)
    → (str_eq previous "" ≡ false → str_eq previous secret ≡ false)
    → (previous ≡ "") ⊎ (previous ≢ secret)
apart previous secret h = elim (Bool-cases (str_eq previous "")) [
  | inl unset ↦ inl ((str_eq_iff previous "").0 unset)
  | inr set ↦ inr (λ same. ground (arith, h set, (str_eq_iff previous secret).1 same))
]

set_or :
    (previous : String)
    → (str_eq previous "" ≡ false → 32 ≤ byte_len previous)
    → (previous ≡ "") ⊎ (32 ≤ byte_len previous)
set_or previous h = elim (Bool-cases (str_eq previous "")) [
  | inl unset ↦ inl ((str_eq_iff previous "").0 unset)
  | inr set ↦ inr (h set)
]

module _ (getenv : Environment) (release : Bool) where
  unfoldable pub check_secrets : Result Fatal (Unit {0})
  check_secrets =
      let secret = getenv "SECRET_KEY" in
      let previous = getenv "SECRET_KEY_PREVIOUS" in
      if str_eq secret ""
      then err secret_missing
      else if release && ltb (byte_len secret) 32
      then err secret_short
      else if not (str_eq previous "") && (release && ltb (byte_len previous) 32)
      then err previous_short
      else if not (str_eq previous "") && str_eq previous secret
      then err previous_same
      else ok tt

  unfoldable pub choose_password : Result Fatal String
  choose_password =
      let given = getenv "ADMIN_PASSWORD" in
      let password = if str_eq given "" then default_admin_password else given in
      if str_eq given "" && release
      then err admin_password_missing
      else if release && (ltb (byte_len password) 12 || ltb 72 (byte_len password))
      then err admin_password_length
      else ok password

  unfoldable pub choose_backend : Config → Result Fatal Backend
  choose_backend config =
      if not (str_eq config.database.url "")
      then ok (postgres config.database.url)
      else if release
      then err database_missing
      else ok in_memory

  abbrev pub token_service : Config → TokenService
  token_service config = new_token_service (getenv "SECRET_KEY") (
      with_ttl config.security.token_ttl
      ∷ with_previous_secret (getenv "SECRET_KEY_PREVIOUS")
      ∷ with_issuer config.security.token_issuer
      ∷ with_audience config.security.token_audience
      ∷ [])

  abbrev and_then {ℓ κ} :
      {A : Type ℓ} {B : Type κ} → Result Fatal A → (A → Result Fatal B) → Result Fatal B
  and_then (err e) f = err e
  and_then (ok a) f = f a

  -- `checked` is what `cfg.Validate()` answers.
  unfoldable pub start_up : Config → Result ConfigError (Unit {0}) → Result Fatal Settings
  unfolding check_secrets choose_password choose_backend
  start_up config (err e) = err (invalid_configuration e)
  start_up config (ok _) = and_then check_secrets (λ _. and_then choose_password (λ password.
      and_then (choose_backend config) (λ backend. ok (record {
        tokens = token_service config;
        admin_password = password;
        admin_email = get_env getenv "ADMIN_EMAIL" "admin@goshorty.local";
        backend = backend;
      }))))

  -- What a server that has started has of its secrets.
  pub record IsSafe (config : Config) (settings : Settings) : Type 0 where
    pub keyed : settings.tokens.secret_key ≢ ""
    pub own_ttl : settings.tokens.ttl ≡ config.security.token_ttl
    pub rotated :
        (settings.tokens.previous_key ≡ "")
        ⊎ (settings.tokens.previous_key ≢ settings.tokens.secret_key)
    pub long_secret : release ≡ true → 32 ≤ byte_len settings.tokens.secret_key
    pub long_previous :
        release ≡ true
        → (settings.tokens.previous_key ≡ "") ⊎ (32 ≤ byte_len settings.tokens.previous_key)
    pub own_password :
        release ≡ true
        → (12 ≤ byte_len settings.admin_password) × (byte_len settings.admin_password ≤ 72)
    pub durable : release ≡ true → settings.backend ≡ postgres config.database.url

  secrets-ok :
      check_secrets ≡ ok tt
      → let secret = getenv "SECRET_KEY" in
        let previous = getenv "SECRET_KEY_PREVIOUS" in
        (str_eq secret "" ≡ false)
        × (release ≡ true → 32 ≤ byte_len secret)
        × (release ≡ true → str_eq previous "" ≡ false → 32 ≤ byte_len previous)
        × (str_eq previous "" ≡ false → str_eq previous secret ≡ false)
  unfolding check_secrets
  secrets-ok h =
      (ground arith, λ r. ground (arith, r), λ r p. ground (arith, r, p), λ p. ground (arith, p))

  password-ok :
      (password : String)
      → choose_password ≡ ok password
      → release ≡ true
      → (12 ≤ byte_len password) × (byte_len password ≤ 72)
  unfolding choose_password
  password-ok password h r = ground (arith, r)

  backend-ok :
      (config : Config) (backend : Backend)
      → choose_backend config ≡ ok backend
      → release ≡ true
      → backend ≡ postgres config.database.url
  unfolding choose_backend
  backend-ok config backend h r = ground (arith, r)

  previous_of :
      (config : Config) → (token_service config).previous_key ≡ getenv "SECRET_KEY_PREVIOUS"
  unfolding new_token_service apply_option
  previous_of config = ground (arith, str_eq_iff (getenv "SECRET_KEY_PREVIOUS") "")

  service-parts :
      (config : Config)
      → ((token_service config).secret_key ≡ getenv "SECRET_KEY")
        × ((token_service config).ttl ≡ config.security.token_ttl)
  unfolding new_token_service apply_option
  service-parts config = (ground arith, ground arith)

  -- The settings that a successful start has made.
  record Made (config : Config) (checked : Result ConfigError (Unit {0})) (settings : Settings)
      : Type 0 where
    valid : checked ≡ ok tt
    secrets : check_secrets ≡ ok tt
    password : choose_password ≡ ok settings.admin_password
    backend : choose_backend config ≡ ok settings.backend
    tokens : settings.tokens ≡ token_service config

  start_up-Made :
      (config : Config) (checked : Result ConfigError (Unit {0})) (settings : Settings)
      → start_up config checked ≡ ok settings
      → Made config checked settings
  unfolding start_up
  start_up-Made config (err e) settings h = absurd (ground arith)
  start_up-Made config (ok _) settings h = elim (Result-cases check_secrets) [
    | inr (e, bad) ↦ absurd (ground arith)
    | inl (_, secrets) ↦ elim (Result-cases choose_password) [
      | inr (e, bad) ↦ absurd (ground arith)
      | inl (password, chosen) ↦ elim (Result-cases (choose_backend config)) [
        | inr (e, bad) ↦ absurd (ground arith)
        | inl (backend, picked) ↦ record {
          valid = refl;
          secrets = secrets;
          password = ground arith;
          backend = ground arith;
          tokens = ground arith;
        }
      ]
    ]
  ]

  -- A server that has started has a key, and in release mode a valid configuration, keys of 32 bytes or
  -- more, an administrator's password of 12 to 72 bytes and a database. A previous key is never the key
  -- itself.
  pub start_up-IsSafe :
      (config : Config) (checked : Result ConfigError (Unit {0})) (settings : Settings)
      → start_up config checked ≡ ok settings
      → (checked ≡ ok tt) × IsSafe config settings
  start_up-IsSafe config checked settings h =
      let m = start_up-Made config checked settings h in
      let (keyed, long_secret, long_previous, rotated) = secrets-ok m.secrets in
      let previous = ap (λ (ts : TokenService). ts.previous_key) m.tokens ∙ previous_of config in
      let secret = ap (λ (ts : TokenService). ts.secret_key) m.tokens ∙ (service-parts config).0 in
      let ttl = ap (λ (ts : TokenService). ts.ttl) m.tokens ∙ (service-parts config).1 in
      (
        m.valid,
        record {
          keyed = λ e. ground (arith, keyed, secret, str_eq_iff (getenv "SECRET_KEY") "");
          own_ttl = ttl;
          rotated =
              apart (settings.tokens.previous_key) (settings.tokens.secret_key)
                (ground (arith, previous, secret, rotated));
          long_secret = λ r. ground (arith, secret, long_secret r);
          long_previous =
              λ r. set_or settings.tokens.previous_key (ground (arith, previous, long_previous r));
          own_password = password-ok settings.admin_password m.password;
          durable = backend-ok config settings.backend m.backend;
        },
      )

  -- The tokens of a server that has started are accepted by itself, where its lifetime is a second or
  -- more.
  start_up-Trusts :
      (base64 : Base64) (json : Json TokenClaims) (sign_bytes : String → String → List ℕ)
      (base64_laws : Base64Laws base64) (json_laws : JsonLaws json)
      (sign_size : (payload key : String) → length (sign_bytes payload key) ≡ digest_size)
      (config : Config) (checked : Result ConfigError (Unit {0})) (settings : Settings)
      → start_up config checked ≡ ok settings
      → pos 0 <ℤ whole_seconds config.security.token_ttl
      → Trusts base64 json sign_bytes base64_laws json_laws sign_size settings.tokens
          settings.tokens
  start_up-Trusts base64 json sign_bytes base64_laws json_laws sign_size config checked settings h
        lives =
      let (valid, safe) = start_up-IsSafe config checked settings h in
      record {
        signer_keyed = safe.keyed;
        verifier_keyed = safe.keyed;
        key_known = inl refl;
        lives = rw safe.own_ttl lives;
        lifetime = omega arith;
        issuer = inr refl;
        audience = inr refl;
      }
