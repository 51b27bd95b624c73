-- ===== src/Middleware.antt =====
-- middleware.go: the security headers, CORS, and the limit on the body. A handler that aborts answers
-- the request itself. `strings.EqualFold` is the parameter `equal_fold`.
pub mod Cors
use goshorty.Prelude.{
  ℕ, String, Bool, true, false, not, ◌&&◌, ◌||◌, Option, none, some, List, [], ◌∷◌, str_eq, map,
  byte_len, if◌then◌else◌,
}
use goshorty.Prelude.Int.{ℤ, pos, ltb_ℤ}
use goshorty.Go.Map.{Map, insert}
use goshorty.Config.Env.{trim_slashes}
use goshorty.Handlers.{Response, Body, failure, json, no_body}

-- What a middleware does: the headers that it sets, and its own answer where it aborts.
pub record Passed : Type 0 where
  pub headers : Map String
  pub aborted : Option Response

abbrev pub content_security_policy : String
content_security_policy =
    "default-src 'self'; base-uri 'self'; form-action 'self'; frame-ancestors 'none'; object-src 'none'; img-src 'self' data:; connect-src 'self'; script-src 'self'; style-src 'self' 'unsafe-inline'"

abbrev pub fixed_headers : Map String
fixed_headers =
    ("Permissions-Policy", "camera=(), microphone=(), geolocation=()")
    ∷ ("X-Frame-Options", "DENY")
    ∷ ("X-Content-Type-Options", "nosniff")
    ∷ ("Referrer-Policy", "strict-origin-when-cross-origin")
    ∷ ("Content-Security-Policy", content_security_policy)
    ∷ []

-- `tls` is `c.Request.TLS != nil`.
unfoldable pub security_headers : (String → String → Bool) → Bool → String → Map String
security_headers equal_fold tls forwarded_proto =
    if tls || equal_fold forwarded_proto "https"
    then insert "Strict-Transport-Security" "max-age=31536000; includeSubDomains" fixed_headers
    else fixed_headers

-- The lookup in the set that `corsMiddleware` makes of the configured origins.
abbrev pub is_member : String → List String → Bool
is_member origin [] = false
is_member origin (a ∷ as_) = str_eq a origin || is_member origin as_

abbrev pub cors_headers : String → Map String
cors_headers origin =
    ("Access-Control-Allow-Methods", "POST, OPTIONS, GET, PUT, DELETE")
    ∷ ("Access-Control-Allow-Headers", "Content-Type, Authorization")
    ∷ ("Vary", "Origin")
    ∷ ("Access-Control-Allow-Origin", origin)
    ∷ []

-- The end of the middleware, with the headers set so far.
abbrev pub preflight : String → Map String → Passed
preflight method headers = record {
  headers = headers;
  aborted = if str_eq method "OPTIONS" then some (no_body 204) else none;
}

unfoldable pub cors_middleware : List String → String → String → Passed
cors_middleware allowed_origins method origin_header =
    let origin = trim_slashes origin_header in
    if str_eq origin ""
    then preflight method []
    else if is_member origin (map trim_slashes allowed_origins)
    then preflight method (cors_headers origin)
    else if str_eq method "OPTIONS"
    then record { headers = []; aborted = some (no_body 403) }
    else preflight method []

abbrev pub too_large : Response
too_large = json 413 (failure "Request body is too large" "REQUEST_TOO_LARGE")

-- `content_length` is -1 where the length is not known.
unfoldable pub body_limit : ℤ → ℤ → Option Response
body_limit max_bytes content_length =
    if ltb_ℤ (pos 0) max_bytes && ltb_ℤ max_bytes content_length then some too_large else none

-- What the handlers can read of the body: `MaxBytesReader` fails past the limit.
unfoldable pub readable_body : ℤ → String → Option String
readable_body max_bytes body =
    if ltb_ℤ (pos 0) max_bytes && ltb_ℤ max_bytes (pos (byte_len body)) then none else some body
