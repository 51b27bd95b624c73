-- ===== src/Tests/Server.antt =====
-- Examples of the theorems on the server.
use goshorty.Prelude.{
  String, ◌≡◌, refl, true, false, some, none, [], ◌∷◌, Result, ok, str_eq, if◌then◌else◌,
}
use goshorty.Prelude.Int.{pos}
use goshorty.Config.{Config}
use goshorty.Config.Env.{Environment}
use goshorty.Config.Validate.{ConfigError}
use goshorty.Models.{User, UserCursor}
use goshorty.Models.Cursor.{Json}
use goshorty.Storage.{Storage, new_storage}
use goshorty.Storage.Invariant
use goshorty.UrlStore.Memory.{memory_store}
use goshorty.Users.{UserStorage, new_user_storage, add_user, admin_user, empty_storage}
use goshorty.Users.Admins
use goshorty.UserStore.Memory.{memory_users}
use goshorty.Auth.{missing_token, admin_required, session_of}
use goshorty.Observability.{new_http_metrics}
use goshorty.Handlers.{json, error_only}
use goshorty.Server.{
  App, Request, Chance, ServerState, Route, statistics, list_users, authenticated, admin_only,
}
use goshorty.Server.Pipeline.{serve, denial_response, screen}
use goshorty.Server.Routes.{route}
use goshorty.Server.Guarded.{or_else, serve-unauthenticated, serve-forbidden}
use goshorty.Server.Reach.{Reachable, start, serves, Reachable-Holds}
use goshorty.Server.Startup.{Settings, postgres, IsSafe, start_up, start_up-IsSafe, token_service}
use goshorty.Tests.Json.{cursor_json}
use goshorty.Tests.Tokens.{sign, verifier, draws}
use goshorty.Tests.Store.{two_urls}
use goshorty.Tests.Service.{config, accept_url, entropy}
use goshorty.Tests.Sessions.{codec, fixed_json, alice, accounts}
use goshorty.Tests.Handlers.{plain}

abbrev user_json : Json UserCursor
user_json = record { marshal = λ c. some []; unmarshal = λ bs. none }

abbrev app : App Storage UserStorage
app = record {
  urls = memory_store;
  users = memory_users plain;
  config = config;
  tokens = verifier;
  base64 = codec;
  cursor_json = cursor_json;
  user_cursor_json = user_json;
  claims_json = fixed_json;
  sign_bytes = sign;
  parse_url = accept_url;
  atoi = λ s. none;
  equal_fold = str_eq;
  bind_shorten = λ s. none;
  bind_login = λ s. none;
  bind_register = λ s. none;
  bind_password = λ s. none;
  bind_role = λ s. none;
  visited = λ m. [];
  metrics_text = λ m. "";
  file = λ name. "";
  serve_static = λ path. json 404 (error_only "");
  assets = record { version = "1"; commit = ""; build_time = "" };
}

abbrev chance : Chance
chance = record {
  now = pos 5;
  later = pos 6;
  token_now = pos 40;
  entropy = entropy;
  user_draws = record { salt = 0; id_draws = draws; now = pos 1 };
  salt = 0;
  token_draws = draws;
  ping = none;
  duration = 1;
}

abbrev ask : String → String → Request
ask path authorization = record {
  method = "GET";
  path = path;
  full_path = path;
  code = "";
  username = "";
  query = record { limit = ""; cursor = "" };
  authorization = authorization;
  origin = "";
  forwarded_proto = "";
  tls = false;
  content_length = pos 0;
  body = "";
  client_ip = "10.0.0.1";
}

abbrev state : ServerState Storage UserStorage
state = record {
  links = two_urls;
  accounts = accounts;
  limits = [];
  http_metrics = new_http_metrics;
}

abbrev stats_route : Route
stats_route = route "GET" "/api/stats" "" (authenticated ∷ []) statistics

abbrev users_route : Route
users_route = route "GET" "/api/v1/auth/users" "v1" (authenticated ∷ admin_only ∷ []) list_users

serve-unauthenticated_example :
    let (reply, after) = serve app chance (ask "/api/stats" "") state in
    (reply.response
      ≡ or_else (denial_response missing_token) (screen app chance (ask "/api/stats" "")))
    × (after.links ≡ two_urls)
    × (after.accounts ≡ accounts)
    × (after.limits ≡ [])
unfolding goshorty.Server.Routes.find_route goshorty.Server.Routes.routes
    goshorty.Server.Routes.api_group goshorty.Auth.auth_middleware
serve-unauthenticated_example =
    serve-unauthenticated app chance (ask "/api/stats" "") state stats_route missing_token refl refl
      refl

serve-forbidden_example :
    let (reply, after) = serve app chance (ask "/api/v1/auth/users" "Bearer p.s") state in
    (reply.response
      ≡ or_else
          (denial_response admin_required)
          (screen app chance (ask "/api/v1/auth/users" "Bearer p.s")))
    × (after.links ≡ two_urls)
    × (after.accounts ≡ accounts)
    × (after.limits ≡ [])
unfolding goshorty.Server.Routes.find_route goshorty.Server.Routes.routes
    goshorty.Server.Routes.api_group
serve-forbidden_example =
    serve-forbidden app chance (ask "/api/v1/auth/users" "Bearer p.s") state users_route
      (session_of alice) refl refl goshorty.Tests.Sessions.header-session refl

abbrev blank : User
blank = alice

abbrev first : UserStorage
first = add_user (admin_user draws (pos 1) "secret" "root@example") (empty_storage blank)

abbrev fresh : ServerState Storage UserStorage
fresh = record {
  links = new_storage;
  accounts = first;
  limits = [];
  http_metrics = new_http_metrics;
}

abbrev served : ServerState Storage UserStorage
served = (serve app chance (ask "/api/stats" "") fresh).1

served-Reachable : Reachable app plain refl refl served
unfolding new_user_storage
served-Reachable =
    serves chance (ask "/api/stats" "") (start 0 draws (pos 1) blank "secret" "root@example" refl)

Reachable-Holds_example : Invariant.Inv served.links × Admins.Inv served.accounts
Reachable-Holds_example = Reachable-Holds app plain refl refl served-Reachable

abbrev environment : Environment
environment key =
    if str_eq key "SECRET_KEY"
    then "0123456789abcdef0123456789abcdef"
    else if str_eq key "ADMIN_PASSWORD"
    then "a long password"
    else ""

abbrev durable_config : Config
durable_config = record config { database = record { url = "postgres://db" } }

abbrev settings : Settings
settings = record {
  tokens = token_service environment true durable_config;
  admin_password = "a long password";
  admin_email = "admin@goshorty.local";
  backend = postgres "postgres://db";
}

abbrev checked : Result ConfigError (Unit {0})
checked = ok tt

settings-made : start_up environment true durable_config checked ≡ ok settings
unfolding start_up
settings-made = refl

start_up-IsSafe_example : (checked ≡ ok tt) × IsSafe environment true durable_config settings
start_up-IsSafe_example =
    start_up-IsSafe environment true durable_config checked settings settings-made
