-- ===== src/Middleware/Cors.antt =====
-- Which origins `corsMiddleware` of middleware.go lets read an answer.
use goshorty.Prelude.{String, ◌≡◌, none, some, List, arith, str_eq, if◌then◌else◌, map, ◌&&◌, not}
use goshorty.Go.Map.{lookup}
use goshorty.Config.Env.{trim_slashes}
use goshorty.Handlers.{no_body}
use goshorty.Middleware.{cors_middleware, is_member}

-- The middleware names an origin as allowed exactly where the request's origin, without slashes at its
-- end, is not empty and is one of the configured ones without theirs; it then names that one origin. A
-- preflight request goes no further: its answer is 403 for an origin that is not allowed, and 204
-- otherwise. Any other request passes.
pub cors_middleware_lem :
    (allowed_origins : List String) (method origin_header : String)
    → let origin = trim_slashes origin_header in
      let known = is_member origin (map trim_slashes allowed_origins) in
      let named = not (str_eq origin "") && known in
      let refused = not (str_eq origin "") && not known in
      let answer = cors_middleware allowed_origins method origin_header in
      (lookup "Access-Control-Allow-Origin" answer.headers ≡ (if named then some origin else none))
      × (answer.aborted ≡ (
          if not (str_eq method "OPTIONS")
          then none
          else if refused
          then some (no_body 403)
          else some (no_body 204)))
unfolding cors_middleware lookup
cors_middleware_lem allowed_origins method origin_header = (ground arith, ground arith)
