-- ===== src/Config/Checked.antt =====
-- What `Validate` of config/config.go asks of a configuration.
use goshorty.Prelude.{
  ℕ, ◌≤◌, String, Bool, true, false, not, ◌&&◌, ◌||◌, ◌≡◌, ◌≢◌, ◌⊎◌, Option, some, List, [], ◌∷◌,
  ok, ltb, byte_len, codes, str_eq, str_eq_iff, is_some, All, arith, Bool-cases, Option-cases, inl,
  inr,
}
use goshorty.Prelude.Int.{ℤ, pos, ◌≤ℤ◌}
use goshorty.Go.Url.{ParsedUrl}
use goshorty.Config.{Config}
use goshorty.Config.Env.{Environment}
use goshorty.Config.Validate.{
  all_printable, validate_label, is_loopback_host, is_release, validate_base_url, validate_origin,
  validate_origins, validate_token_ttl, validate,
}

abbrev pub IsHttp : ParsedUrl → Type 0
IsHttp u = (u.scheme ≡ "http") ⊎ (u.scheme ≡ "https")

-- At most 128 bytes, of visible ASCII.
abbrev pub IsLabel : String → Type 0
IsLabel value = (byte_len value ≤ 128) × All (λ r. (33 ≤ r) × (r ≤ 126)) (codes value)

non_empty : (s : String) → str_eq s "" ≡ false → s ≢ ""
non_empty s h e = ground (arith, str_eq_iff s "")

one_of : (s a b : String) → str_eq s a || str_eq s b ≡ true → (s ≡ a) ⊎ (s ≡ b)
one_of s a b h = elim (Bool-cases (str_eq s a)) [
  | inl e ↦ inl ((str_eq_iff s a).0 e)
  | inr n ↦ inr ((str_eq_iff s b).0 (ground arith))
]

all_printable-All : (rs : List ℕ) → all_printable rs ≡ true → All (λ r. (33 ≤ r) × (r ≤ 126)) rs
all_printable-All [] h = tt
all_printable-All (r ∷ rs) h = ((ground arith, ground arith), all_printable-All rs (ground arith))

validate_label-IsLabel : (value name : String) → validate_label value name ≡ ok tt → IsLabel value
unfolding validate_label
validate_label-IsLabel value name h = elim (Bool-cases (str_eq value "")) [
  | inl e ↦ rw ((str_eq_iff value "").0 e) (omega arith, tt)
  | inr n ↦ (ground arith, all_printable-All (codes value) (ground arith))
]

module _ (getenv : Environment) (to_lower : String → String) (parse_url : String → Option ParsedUrl)
    (parse_duration : String → Option ℤ) where
  abbrev release : Bool
  release = is_release getenv to_lower parse_url parse_duration

  abbrev loopback : String → Bool
  loopback = is_loopback_host getenv to_lower parse_url parse_duration

  -- The base URL is an http or https URL with a host, and https in release mode unless it is local.
  pub record IsBaseUrl (base_url : String) : Type 0 where
    pub parsed : ParsedUrl
    pub parses : parse_url base_url ≡ some parsed
    pub has_host : parsed.host ≢ ""
    pub web : IsHttp parsed
    pub secure : (release ≡ false) ⊎ (parsed.scheme ≡ "https") ⊎ (loopback parsed.hostname ≡ true)

  -- An origin is an http or https URL with a host and no path.
  pub record IsOrigin (origin : String) : Type 0 where
    pub parsed : ParsedUrl
    pub parses : parse_url origin ≡ some parsed
    pub has_host : parsed.host ≢ ""
    pub web : IsHttp parsed
    pub no_path : parsed.path ≡ ""

  pub record IsValid (c : Config) : Type 0 where
    pub base_url : IsBaseUrl c.server.base_url
    pub origins : All IsOrigin c.security.allowed_origins
    pub metrics_token : (release ≡ false) ⊎ (32 ≤ byte_len c.security.metrics_token)
    pub token_ttl :
        (getenv "TOKEN_TTL" ≡ "") ⊎ (is_some (parse_duration (getenv "TOKEN_TTL")) ≡ true)
    pub issuer : IsLabel c.security.token_issuer
    pub audience : IsLabel c.security.token_audience
    pub register_limit : pos 1 ≤ℤ c.security.register_limit_per_hour

  secured :
      (u : ParsedUrl)
      → release && (not (str_eq u.scheme "https") && not (loopback u.hostname)) ≡ false
      → (release ≡ false) ⊎ (u.scheme ≡ "https") ⊎ (loopback u.hostname ≡ true)
  secured u h = elim (Bool-cases release) [
    | inr r ↦ inl r
    | inl r ↦ elim (Bool-cases (str_eq u.scheme "https")) [
      | inl e ↦ inr (inl ((str_eq_iff u.scheme "https").0 e))
      | inr e ↦ inr (inr (ground (arith, h, r, e)))
    ]
  ]

  validate_base_url-IsBaseUrl :
      (base_url : String)
      → validate_base_url getenv to_lower parse_url parse_duration base_url ≡ ok tt
      → IsBaseUrl base_url
  unfolding validate_base_url
  validate_base_url-IsBaseUrl base_url h = elim (Option-cases (parse_url base_url)) [
    | inl e ↦ absurd (ground arith)
    | inr (u, e) ↦ record {
      parsed = u;
      parses = e;
      has_host = non_empty u.host (ground arith);
      web = one_of u.scheme "http" "https" (ground arith);
      secure = secured u (ground arith);
    }
  ]

  validate_origins-IsOrigin :
      (origins : List String)
      → validate_origins getenv to_lower parse_url parse_duration origins ≡ ok tt
      → All IsOrigin origins
  unfolding validate_origins
  validate_origins-IsOrigin [] h = tt
  validate_origins-IsOrigin (origin ∷ origins) h =
      let first : validate_origin getenv to_lower parse_url parse_duration (parse_url origin)
          ≡ ok tt =
        ground arith in
      (
        elim (Option-cases (parse_url origin)) [
          | inl e ↦ absurd (ground arith)
          | inr (u, e) ↦ record {
            parsed = u;
            parses = e;
            has_host = non_empty u.host (ground arith);
            web = one_of u.scheme "http" "https" (ground arith);
            no_path = (str_eq_iff u.path "").0 (ground arith);
          }
        ],
        validate_origins-IsOrigin origins (ground arith),
      )

  -- A configuration that passes has a base URL and origins as they should be, a metrics token of 32
  -- bytes in release mode, no unreadable lifetime, proper labels, and a positive registration limit.
  pub validate-IsValid :
      (c : Config) → validate getenv to_lower parse_url parse_duration c ≡ ok tt → IsValid c
  unfolding validate validate_token_ttl
  validate-IsValid c h = record {
    base_url = validate_base_url-IsBaseUrl c.server.base_url (ground arith);
    origins = validate_origins-IsOrigin c.security.allowed_origins (ground arith);
    metrics_token = long_or (ground arith);
    token_ttl = unset_or (ground arith);
    issuer = validate_label-IsLabel c.security.token_issuer "TOKEN_ISSUER" (ground arith);
    audience = validate_label-IsLabel c.security.token_audience "TOKEN_AUDIENCE" (ground arith);
    register_limit = ground arith;
  }
    where
      long_or :
          release && ltb (byte_len c.security.metrics_token) 32 ≡ false
          → (release ≡ false) ⊎ (32 ≤ byte_len c.security.metrics_token)
      long_or short = elim (Bool-cases release) [
        | inr r ↦ inl r
        | inl r ↦ inr (ground (arith, short, r))
      ]

      unset_or :
          not (str_eq (getenv "TOKEN_TTL") "")
              && not (is_some (parse_duration (getenv "TOKEN_TTL")))
            ≡ false
          → (getenv "TOKEN_TTL" ≡ "") ⊎ (is_some (parse_duration (getenv "TOKEN_TTL")) ≡ true)
      unset_or short = elim (Bool-cases (str_eq (getenv "TOKEN_TTL") "")) [
        | inl e ↦ inl ((str_eq_iff (getenv "TOKEN_TTL") "").0 e)
        | inr e ↦ inr (ground (arith, short, e))
      ]
