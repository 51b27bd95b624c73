-- ===== src/Config/Env.antt =====
-- `NewConfig` of config/config.go, from the environment. `strings.ToLower`, `strconv.Atoi` and
-- `time.ParseDuration` are parameters.
use Prim.Native.String.{◌++◌ as append}
use Prim.Native.Char.{code}
use goshorty.Prelude.{
  ℕ, ◌*◌, ◌^◌, String, Bool, not, ◌&&◌, ◌||◌, Option, none, some, List, [], ◌∷◌, ◌==◌, leb, str_eq,
  if◌then◌else◌,
}
use goshorty.Prelude.Int.{ℤ, pos, leb_ℤ}
use goshorty.Config.{Config, ttl_options, hour}

-- `os.Getenv`: a variable that is not set is empty.
abbrev pub Environment : Type 0
Environment = String → String

-- `unicode.IsSpace`
abbrev pub is_space : ℕ → Bool
is_space c =
    (leb 9 c && leb c 13)
    || c == 32
    || c == 133
    || c == 160
    || c == 5760
    || (leb 8192 c && leb c 8202)
    || c == 8232
    || c == 8233
    || c == 8239
    || c == 8287
    || c == 12288

-- `strings.TrimRightFunc` and `strings.TrimLeftFunc`
unfoldable pub trim_right : (ℕ → Bool) → String → String
trim_right p String.[] = ""
trim_right p (String.◌∷◌ c s) =
    let rest = trim_right p s in if str_eq rest "" && p (code c) then "" else String.◌∷◌ c rest

unfoldable pub trim_left : (ℕ → Bool) → String → String
trim_left p String.[] = ""
trim_left p (String.◌∷◌ c s) =
    let rest = trim_left p s in if p (code c) then rest else String.◌∷◌ c s

-- `strings.TrimRight(s, "/")`
abbrev pub trim_slashes : String → String
trim_slashes = trim_right (λ c. c == 47)

abbrev pub trim_space : String → String
trim_space s = trim_left is_space (trim_right is_space s)

abbrev on_head : (String → String) → List String → List String
on_head f [] = []
on_head f (s ∷ ss) = f s ∷ ss

-- `strings.Split(s, sep)`, where the separator is one character.
unfoldable pub split_on : ℕ → String → List String
split_on sep String.[] = "" ∷ []
split_on sep (String.◌∷◌ c s) =
    let rest = split_on sep s in
    if code c == sep then "" ∷ rest else on_head (λ t. String.◌∷◌ c t) rest

abbrev pub split_commas : String → List String
split_commas = split_on 44

-- The loop of `listFromEnv`.
abbrev pub trimmed_parts : List String → List String
trimmed_parts [] = []
trimmed_parts (part ∷ parts) =
    let trimmed = trim_space (trim_slashes part) in
    let values = trimmed_parts parts in if not (str_eq trimmed "") then trimmed ∷ values else values

module _ (getenv : Environment) where
  abbrev pub port_from_env : String → String
  port_from_env default_port =
      let p = getenv "PORT" in if not (str_eq p "") then append ":" p else default_port

  abbrev pub base_url_from_env : String → String
  base_url_from_env default_url =
      let public = getenv "PUBLIC_BASE_URL" in
      let base = getenv "BASE_URL" in
      let port = getenv "PORT" in
      if not (str_eq public "")
      then trim_slashes public
      else if not (str_eq base "")
      then trim_slashes base
      else if not (str_eq port "")
      then append "http://localhost:" port
      else trim_slashes default_url

  abbrev pub list_from_env : String → String → List String
  list_from_env key fallback =
      let value = getenv key in
      trimmed_parts (split_commas (if str_eq value "" then fallback else value))

  module _ (to_lower : String → String) (atoi : String → Option ℤ)
      (parse_duration : String → Option ℤ) where
    abbrev pub token_ttl_from_env : ℤ
    token_ttl_from_env =
        let raw = getenv "TOKEN_TTL" in
        if not (str_eq raw "")
        then elim (parse_duration raw) [ some parsed ↦ parsed | none ↦ pos (24 * hour) ]
        else pos (24 * hour)

    abbrev pub int_from_env : String → ℤ → ℤ
    int_from_env key fallback =
        let raw = getenv key in
        if not (str_eq raw "")
        then elim (atoi raw) [
          | some parsed ↦ if leb_ℤ (pos 0) parsed then parsed else fallback
          | none ↦ fallback
        ]
        else fallback

    abbrev pub bool_from_env : String → Bool
    bool_from_env key =
        let value = to_lower (trim_space (getenv key)) in
        str_eq value "1" || str_eq value "true" || str_eq value "yes" || str_eq value "on"

    unfoldable pub new_config : Config
    new_config =
        let base_url = base_url_from_env "http://localhost:8080" in
        record {
          server = record { port = port_from_env ":8080"; base_url = base_url };
          database = record { url = getenv "DATABASE_URL" };
          security = record {
            allowed_origins = list_from_env "ALLOWED_ORIGINS" base_url;
            trusted_proxies = list_from_env "TRUSTED_PROXIES" "100.64.0.0/10";
            max_request_bytes = pos (2 ^ 20);
            metrics_token = getenv "METRICS_TOKEN";
            token_ttl = token_ttl_from_env;
            token_issuer = getenv "TOKEN_ISSUER";
            token_audience = getenv "TOKEN_AUDIENCE";
            register_limit_per_hour = int_from_env "REGISTER_LIMIT_PER_HOUR" (pos 5);
          };
          ops = record { pprof_enabled = bool_from_env "PPROF_ENABLED" };
          ttl = record { options = ttl_options };
        }
