-- ===== src/Token.antt =====
-- services/token_service.go. Parameters: Go's JSON and base64 codecs, and HMAC-SHA256 over a key. A
-- call's `ts.now().Unix()` is an argument, in seconds.
pub mod Signing
pub mod Verify
pub mod RoundTrip
use Prim.Native.String.{◌∷◌ as cons_char, ◌++◌ as append}
use Prim.Native.Char.{code}
use mathlib.Core.Option
use mathlib.Core.List.{foldl}
use goshorty.Prelude.{
  ℕ, suc, ◌+◌, ◌*◌, ◌/◌, ◌^◌, String, Bool, true, false, not, ◌&&◌, ◌||◌, Option, none, some, List,
  [], ◌∷◌, Result, ok, err, ◌==◌, ltb, leb, length, str_eq, byte_len, if◌then◌else◌,
}
use goshorty.Prelude.Int.{ℤ, pos, negsuc, sub_ℕ, ◌+ℤ◌, ◌-ℤ◌, ltb_ℤ, leb_ℤ}
use goshorty.Random.{generate_id}
use goshorty.Config.{second, hour}
use goshorty.Models.Cursor.{Json, Base64}

abbrev pub default_token_ttl : ℤ
default_token_ttl = pos (24 * hour)

abbrev pub max_token_length : ℕ
max_token_length = 4096

-- In seconds.
abbrev pub clock_skew : ℤ
clock_skew = pos 30

abbrev pub active_key_id : String
active_key_id = "v1"

-- `sha256.Size`
abbrev pub digest_size : ℕ
digest_size = 32

pub record TokenClaims : Type 0 where
  pub jti : String
  pub user_id : String
  pub username : String
  pub role : String
  pub token_version : ℕ
  pub iss : String
  pub aud : String
  pub kid : String
  pub issued_at : ℤ
  pub expires_at : ℤ

-- The keys as texts, of which Go signs with the bytes; `ttl` in nanoseconds.
pub record TokenService : Type 0 where
  pub secret_key : String
  pub previous_key : String
  pub ttl : ℤ
  pub issuer : String
  pub audience : String

-- The options of `NewTokenService`; `WithClock` is the argument `now` of each call.
pub data ServiceOption : Type 0 where
  with_ttl : ℤ → ServiceOption
  with_previous_secret with_issuer with_audience : String → ServiceOption

unfoldable pub apply_option : TokenService → ServiceOption → TokenService
apply_option ts (with_ttl ttl) = record ts { ttl = ttl }
apply_option ts (with_previous_secret secret) =
    if str_eq secret "" then ts else record ts { previous_key = secret }
apply_option ts (with_issuer issuer) = record ts { issuer = issuer }
apply_option ts (with_audience audience) = record ts { audience = audience }

unfoldable pub new_token_service : String → List ServiceOption → TokenService
unfolding apply_option
new_token_service secret options =
    foldl apply_option
      (record {
        secret_key = secret;
        previous_key = "";
        ttl = default_token_ttl;
        issuer = "";
        audience = "";
      })
      options

pub data TokenError : Type 0 where
  empty_token too_large no_signing_key invalid_format invalid_signature : TokenError
  invalid_encoding invalid_payload invalid_timestamps issued_in_future expired : TokenError
  lifetime_exceeded unknown_key_id invalid_issuer invalid_audience marshal_failed : TokenError

-- `int64(d.Seconds())`, which cuts off the fraction. (Go goes through a float64, which is exact for
-- lifetimes of whole seconds, and for all below 2 ^ 22 seconds.)
abbrev pub whole_seconds : ℤ → ℤ
whole_seconds (pos n) = pos (n / second)
whole_seconds (negsuc n) = sub_ℕ 0 (suc n / second)

-- `strings.SplitN(token, ".", 2)`, where it gives two parts.
unfoldable pub split_dot : String → Option (String × String)
split_dot String.[] = none
split_dot (String.◌∷◌ c s) =
    let rest = Option.map (λ (a, b). (String.◌∷◌ c a, b)) (split_dot s) in
    if code c == 46 then some ("", s) else rest

-- `hmac.Equal`
unfoldable pub bytes_eq : List ℕ → List ℕ → Bool
bytes_eq [] [] = true
bytes_eq (a ∷ as_) (b ∷ bs) = (a == b) && bytes_eq as_ bs
bytes_eq _ _ = false

module _ (base64 : Base64) (json : Json TokenClaims) (sign_bytes : String → String → List ℕ) where
  abbrev pub claims_of :
      TokenService → ℤ → (ℕ → ℕ) → String → String → String → Option ℕ → TokenClaims
  claims_of ts now draws user_id username role version = record {
    jti = generate_id draws;
    user_id = user_id;
    username = username;
    role = role;
    token_version = elim version [ none ↦ 0 | some v ↦ v ];
    iss = ts.issuer;
    aud = ts.audience;
    kid = active_key_id;
    issued_at = now;
    expires_at = now +ℤ whole_seconds ts.ttl;
  }

  -- `payload + "." + sig`, from the marshalled claims.
  abbrev pub signed : String → List ℕ → String
  signed key claims_json =
      let payload = base64.encode_to_string claims_json in
      append payload (append "." (base64.encode_to_string (sign_bytes payload key)))

  unfoldable pub generate_token :
      TokenService → ℤ → (ℕ → ℕ) → String → String → String → Option ℕ → Result TokenError String
  generate_token ts now draws user_id username role version =
      if str_eq ts.secret_key ""
      then err no_signing_key
      else (elim (json.marshal (claims_of ts now draws user_id username role version)) [
        | none ↦ err marshal_failed
        | some claims_json ↦ ok (signed ts.secret_key claims_json)
      ])

  -- The signature is that of the active key, or of a previous one.
  unfoldable pub is_signed : TokenService → String → List ℕ → Bool
  is_signed ts payload sig =
      bytes_eq sig (sign_bytes payload ts.secret_key)
      || (not (str_eq ts.previous_key "") && bytes_eq sig (sign_bytes payload ts.previous_key))

  -- The checks of the claims, in the order of the source.
  unfoldable pub check_claims : TokenService → ℤ → TokenClaims → Result TokenError TokenClaims
  check_claims ts now claims =
      if leb_ℤ claims.issued_at (pos 0) || leb_ℤ claims.expires_at claims.issued_at
      then err invalid_timestamps
      else if ltb_ℤ (now +ℤ clock_skew) claims.issued_at
      then err issued_in_future
      else if ltb_ℤ claims.expires_at now
      then err expired
      else if ltb_ℤ (whole_seconds ts.ttl) (claims.expires_at -ℤ claims.issued_at)
      then err lifetime_exceeded
      else if not (str_eq claims.kid "") && not (str_eq claims.kid active_key_id)
      then err unknown_key_id
      else if not (str_eq ts.issuer "") && not (str_eq claims.iss ts.issuer)
      then err invalid_issuer
      else if not (str_eq ts.audience "") && not (str_eq claims.aud ts.audience)
      then err invalid_audience
      else ok claims

  -- From the payload of a token with a valid signature on.
  unfoldable pub read_payload : TokenService → ℤ → String → Result TokenError TokenClaims
  read_payload ts now payload = elim (base64.decode_string payload) [
    | none ↦ err invalid_encoding
    | some claims_json ↦ (elim (json.unmarshal claims_json) [
      | none ↦ err invalid_payload
      | some claims ↦ check_claims ts now claims
    ])
  ]

  unfoldable pub check_parts : TokenService → ℤ → String → String → Result TokenError TokenClaims
  check_parts ts now payload sig_b64 = elim (base64.decode_string sig_b64) [
    | none ↦ err invalid_signature
    | some sig ↦
        if not (length sig == digest_size)
        then err invalid_signature
        else if is_signed ts payload sig
        then read_payload ts now payload
        else err invalid_signature
  ]

  unfoldable pub verify_token : TokenService → ℤ → String → Result TokenError TokenClaims
  verify_token ts now token =
      if str_eq token ""
      then err empty_token
      else if ltb max_token_length (byte_len token)
      then err too_large
      else if str_eq ts.secret_key ""
      then err no_signing_key
      else (elim (split_dot token) [
        | none ↦ err invalid_format
        | some (payload, sig_b64) ↦ check_parts ts now payload sig_b64
      ])
