-- ===== src/Config/Validate.antt =====
-- `Validate` of config/config.go.
use goshorty.Prelude.{
  ℕ, String, Bool, true, not, ◌&&◌, ◌||◌, Option, none, some, List, [], ◌∷◌, Result, ok, err, leb,
  ltb, byte_len, codes, str_eq, if◌then◌else◌, is_some,
}
use goshorty.Prelude.Int.{ℤ, pos, ltb_ℤ}
use goshorty.Go.Url.{ParsedUrl}
use goshorty.Config.{Config}
use goshorty.Config.Env.{Environment}

pub data ConfigError : Type 0 where
  base_url_not_absolute base_url_scheme base_url_not_https origin_with_path origin_scheme :
      ConfigError
  short_metrics_token bad_token_ttl bad_register_limit : ConfigError
  label_too_long label_characters : String → ConfigError

abbrev pub after_ok :
    Result ConfigError (Unit {0}) → Result ConfigError (Unit {0}) → Result ConfigError (Unit {0})
after_ok (err e) next = err e
after_ok (ok _) next = next

abbrev pub is_http : ParsedUrl → Bool
is_http u = str_eq u.scheme "http" || str_eq u.scheme "https"

abbrev pub is_printable : ℕ → Bool
is_printable r = leb 33 r && leb r 126

-- `for _, r := range value`
abbrev pub all_printable : List ℕ → Bool
all_printable [] = true
all_printable (r ∷ rs) = is_printable r && all_printable rs

unfoldable pub validate_label : String → String → Result ConfigError (Unit {0})
validate_label value name =
    if str_eq value ""
    then ok tt
    else if ltb 128 (byte_len value)
    then err (label_too_long name)
    else if not (all_printable (codes value))
    then err (label_characters name)
    else ok tt

module _ (getenv : Environment) (to_lower : String → String) (parse_url : String → Option ParsedUrl)
    (parse_duration : String → Option ℤ) where
  abbrev pub is_loopback_host : String → Bool
  is_loopback_host host =
      let h = to_lower host in str_eq h "localhost" || str_eq h "127.0.0.1" || str_eq h "::1"

  abbrev pub is_release : Bool
  is_release = str_eq (getenv "GIN_MODE") "release"

  unfoldable pub validate_base_url : String → Result ConfigError (Unit {0})
  validate_base_url base_url = elim (parse_url base_url) [
    | none ↦ err base_url_not_absolute
    | some u ↦
        if str_eq u.host ""
        then err base_url_not_absolute
        else if not (is_http u)
        then err base_url_scheme
        else if is_release && (not (str_eq u.scheme "https") && not (is_loopback_host u.hostname))
        then err base_url_not_https
        else ok tt
  ]

  abbrev pub validate_origin : Option ParsedUrl → Result ConfigError (Unit {0})
  validate_origin none = err origin_with_path
  validate_origin (some u) =
      if str_eq u.scheme "" || (str_eq u.host "" || not (str_eq u.path ""))
      then err origin_with_path
      else if not (is_http u)
      then err origin_scheme
      else ok tt

  -- `for _, origin := range c.Security.AllowedOrigins`
  unfoldable pub validate_origins : List String → Result ConfigError (Unit {0})
  validate_origins [] = ok tt
  validate_origins (origin ∷ origins) =
      after_ok (validate_origin (parse_url origin)) (validate_origins origins)

  unfoldable pub validate_token_ttl : String → Result ConfigError (Unit {0})
  validate_token_ttl raw =
      if not (str_eq raw "") && not (is_some (parse_duration raw)) then err bad_token_ttl else ok tt

  -- The checks in the order of the source. (A nil configuration is not modelled.)
  unfoldable pub validate : Config → Result ConfigError (Unit {0})
  validate c = after_ok (validate_base_url c.server.base_url) (
      after_ok (validate_origins c.security.allowed_origins) (
        after_ok
          (if is_release && ltb (byte_len c.security.metrics_token) 32
            then err short_metrics_token
            else ok tt)
          (after_ok (validate_token_ttl (getenv "TOKEN_TTL")) (
            after_ok (validate_label c.security.token_issuer "TOKEN_ISSUER") (
              after_ok (validate_label c.security.token_audience "TOKEN_AUDIENCE") (
                if ltb_ℤ c.security.register_limit_per_hour (pos 1)
                then err bad_register_limit
                else ok tt))))))
