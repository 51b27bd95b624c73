-- ===== src/Config.antt =====
-- config/config.go: the settings that the services read.
pub mod Env
pub mod Validate
pub mod Checked
use goshorty.Prelude.{ℕ, ◌*◌, ◌^◌, String, Bool, List, [], ◌∷◌}
use goshorty.Prelude.Int.{ℤ, pos}
use goshorty.Go.Map.{Map}

-- `time.Second`, `time.Minute` and `time.Hour`, in nanoseconds.
abbrev pub second : ℕ
second = 10 ^ 9

abbrev pub minute : ℕ
minute = 60 * second

abbrev pub hour : ℕ
hour = 60 * minute

pub record ServerConfig : Type 0 where
  pub port : String
  pub base_url : String

pub record DatabaseConfig : Type 0 where
  pub url : String

pub record SecurityConfig : Type 0 where
  pub allowed_origins : List String
  pub trusted_proxies : List String
  pub max_request_bytes : ℤ
  pub metrics_token : String
  pub token_ttl : ℤ
  pub token_issuer : String
  pub token_audience : String
  pub register_limit_per_hour : ℤ

pub record TtlConfig : Type 0 where
  pub options : Map ℤ

pub record OpsConfig : Type 0 where
  pub pprof_enabled : Bool

pub record Config : Type 0 where
  pub server : ServerConfig
  pub database : DatabaseConfig
  pub security : SecurityConfig
  pub ops : OpsConfig
  pub ttl : TtlConfig

-- The TTL table of `NewConfig`.
abbrev pub ttl_options : Map ℤ
ttl_options =
    ("5m", pos (5 * minute))
    ∷ ("15m", pos (15 * minute))
    ∷ ("1h", pos (1 * hour))
    ∷ ("24h", pos (24 * hour))
    ∷ ("168h", pos (168 * hour))
    ∷ []
