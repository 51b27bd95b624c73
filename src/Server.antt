-- ===== src/Server.antt =====
-- main.go: the route table of `newAppRouter` and `registerAPIGroup`, and how the server takes a request
-- through the middleware, the guards of its route and its handler. Gin's matching of a path to a route is
-- the request's `full_path`; Gin's JSON binding, Go's `url.Parse`, `strconv.Atoi`, `strings.EqualFold`,
-- the codecs and HMAC are fields of `App`. A request is served as one step; panics are not modelled.
pub mod Routes
pub mod Pipeline
pub mod Guarded
pub mod Reach
pub mod Startup
use goshorty.Prelude.{ℕ, ◌*◌, String, Bool, Option, List, [], ◌∷◌, ◌++◌, Result}
use goshorty.Prelude.Int.{ℤ, pos}
use goshorty.Go.Map.{Map}
use goshorty.Go.Url.{ParsedUrl}
use goshorty.Config.{Config, minute, hour}
use goshorty.Models.{ShortenRequest, UrlCursor, UserCursor}
use goshorty.Models.Cursor.{Json, Base64}
use goshorty.Token.{TokenClaims, TokenService}
use goshorty.UrlStore.{UrlStore}
use goshorty.UserStore.{UserStore, UserDraws}
use goshorty.UrlService.{Entropy}
use goshorty.Limiter.{RateWindow}
use goshorty.Observability.{HttpMetrics}
use goshorty.Handlers.{ListQuery, Response}
use goshorty.Handlers.Accounts.{LoginRequest, RegisterRequest, ChangePasswordRequest}

-- The last handler of a route.
pub data Action : Type 0 where
  login register current_user change_password revoke_sessions : Action
  create_link link_info delete_link list_links statistics : Action
  list_users set_role delete_user : Action
  redirect health ready metrics version static_file openapi : Action
  -- With the surface that is described.
  api_info : String → Action

-- The handlers before it.
pub data Guard : Type 0 where
  -- `rateLimiter.Limit(scope, limit, window)`
  limited : (key_scope : String) → (limit window : ℤ) → Guard
  -- `AuthMiddleware`, `AdminMiddleware` and `metricsAuthMiddleware`
  authenticated admin_only metrics_token : Guard

pub record Route : Type 0 where
  pub method : String
  pub path : String
  -- What `registerAPIGroup` sets for the handlers.
  pub api_version : String
  pub guards : List Guard
  pub action : Action

pub record AppRouterAssets : Type 0 where
  pub version : String
  pub commit : String
  pub build_time : String

-- What the program is started with. `file` is the content of an embedded file, `serve_static`
-- Go's file server on them, and `build` the version, the commit and the build time.
pub record App (S U : Type 0) : Type 0 where
  pub urls : UrlStore ℤ S
  pub users : UserStore U
  pub config : Config
  pub tokens : TokenService
  pub base64 : Base64
  pub cursor_json : Json UrlCursor
  pub user_cursor_json : Json UserCursor
  pub claims_json : Json TokenClaims
  pub sign_bytes : String → String → List ℕ
  pub parse_url : String → Option ParsedUrl
  pub atoi : String → Option ℤ
  pub equal_fold : String → String → Bool
  pub bind_shorten : String → Option ShortenRequest
  pub bind_login : String → Option LoginRequest
  pub bind_register : String → Option RegisterRequest
  pub bind_password : String → Option ChangePasswordRequest
  pub bind_role : String → Option (Map String)
  pub visited : Map RateWindow → List String
  pub metrics_text : HttpMetrics → String
  pub file : String → String
  pub serve_static : String → Response
  pub assets : AppRouterAssets

pub record Request : Type 0 where
  pub method : String
  -- `c.Request.URL.Path`, and the template of the route that Gin finds for it, or nothing.
  pub path : String
  pub full_path : String
  -- `c.Param`
  pub code : String
  pub username : String
  pub query : ListQuery
  pub authorization : String
  pub origin : String
  pub forwarded_proto : String
  pub tls : Bool
  pub content_length : ℤ
  pub body : String
  pub client_ip : String

-- The times and random draws of one request: `now` for the middleware and the URL store's first call,
-- `later` for its second, `token_now` in seconds for the token service.
pub record Chance : Type 0 where
  pub now : ℤ
  pub later : ℤ
  pub token_now : ℤ
  pub entropy : Entropy ℤ
  pub user_draws : UserDraws
  pub salt : ℕ
  pub token_draws : ℕ → ℕ
  pub ping : Option Bool
  pub duration : ℕ

pub record ServerState (S U : Type 0) : Type 0 where
  pub links : S
  pub accounts : U
  pub limits : Map RateWindow
  pub http_metrics : HttpMetrics
