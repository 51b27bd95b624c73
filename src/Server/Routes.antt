-- ===== src/Server/Routes.antt =====
-- The routes of main.go.
use Prim.Native.String.{◌++◌ as append}
use goshorty.Prelude.{
  String, ◌≡◌, refl, Bool-cases, inl, inr, subst, arith, Bool, true, false, not, ◌||◌, ◌&&◌, Option,
  none, some, List, [], ◌∷◌, ◌++◌, str_eq, if◌then◌else◌,
}
use goshorty.Prelude.Int.{ℤ, pos}
use goshorty.Config.{minute, hour}
use goshorty.Server.{
  Action, login, register, current_user, change_password, revoke_sessions, create_link, link_info,
  delete_link, list_links, statistics, list_users, set_role, delete_user, redirect, health, ready,
  metrics, version, static_file, openapi, api_info, Guard, limited, authenticated, admin_only,
  metrics_token, Route,
}

abbrev pub route : String → String → String → List Guard → Action → Route
route method path api_version guards action = record {
  method = method;
  path = path;
  api_version = api_version;
  guards = guards;
  action = action;
}

-- `registerAPIGroup` for the group `prefix`.
unfoldable pub api_group : String → ℤ → String → String → String → List Route
api_group prefix register_limit url_path list_path api_version =
    let at : String → String → List Guard → Action → Route =
      λ method path guards action. route method (append prefix path) api_version guards action in
    at "POST" "/auth/login" (limited "login" (pos 10) (pos minute) ∷ []) login
    ∷ at "POST" "/auth/register" (limited "register" register_limit (pos hour) ∷ []) register
    ∷ at "GET" "/auth/me" (authenticated ∷ []) current_user
    ∷ at "PUT" "/auth/password" (authenticated ∷ limited "password" (pos 5) (pos hour) ∷ [])
        change_password
    ∷ at "POST" "/auth/revoke" (authenticated ∷ limited "revoke" (pos 5) (pos hour) ∷ [])
        revoke_sessions
    ∷ at "POST" url_path (authenticated ∷ limited "shorten" (pos 60) (pos minute) ∷ []) create_link
    ∷ at "GET" (append url_path "/:code") (authenticated ∷ []) link_info
    ∷ at "DELETE" (append url_path "/:code") (authenticated ∷ []) delete_link
    ∷ at "GET" list_path (authenticated ∷ []) list_links
    ∷ at "GET" "/stats" (authenticated ∷ []) statistics
    ∷ at "GET" "/auth/users" (authenticated ∷ admin_only ∷ []) list_users
    ∷ at "PUT" "/auth/users/:username/role" (authenticated ∷ admin_only ∷ []) set_role
    ∷ at "DELETE" "/auth/users/:username" (authenticated ∷ admin_only ∷ []) delete_user
    ∷ []

abbrev redirect_limit : List Guard
redirect_limit = limited "redirect" (pos 300) (pos minute) ∷ []

-- `newAppRouter`, without the profiling routes of `PPROF_ENABLED`.
unfoldable pub routes : ℤ → List Route
unfolding api_group
routes register_limit =
    route "GET" "/static/*filepath" "" [] static_file
      ∷ route "HEAD" "/static/*filepath" "" [] static_file
      ∷ route "GET" "/health" "" [] health
      ∷ route "GET" "/health/live" "" [] health
      ∷ route "GET" "/ready" "" [] ready
      ∷ route "GET" "/health/ready" "" [] ready
      ∷ route "GET" "/metrics" "" (metrics_token ∷ []) metrics
      ∷ route "GET" "/version" "" [] version
      ∷ api_group "/api" register_limit "/shorten" "/shorten/all" ""
    ++ api_group "/api/v1" register_limit "/urls" "/urls" "v1"
    ++ route "GET" "/r/:code" "" redirect_limit redirect
      ∷ route "GET" "/s/:code" "" redirect_limit redirect
      ∷ route "GET" "/goshorty/:timeout/:code" "" redirect_limit redirect
      ∷ route "GET" "/api" "" [] (api_info "/api")
      ∷ route "GET" "/api/v1" "" [] (api_info "/api/v1")
      ∷ route "GET" "/api/v1/openapi.json" "" [] openapi
      ∷ []

-- The route of a method and the template that Gin has matched.
unfoldable pub find_route : String → String → List Route → Option Route
find_route method full_path [] = none
find_route method full_path (r ∷ rs) =
    if str_eq r.method method && str_eq r.path full_path
    then some r
    else find_route method full_path rs

-- What can be done without a session.
abbrev pub is_public : Action → Bool
is_public login = true
is_public register = true
is_public redirect = true
is_public health = true
is_public ready = true
is_public metrics = true
is_public version = true
is_public static_file = true
is_public openapi = true
is_public (api_info surface) = true
is_public _ = false

abbrev pub is_administrative : Action → Bool
is_administrative list_users = true
is_administrative set_role = true
is_administrative delete_user = true
is_administrative _ = false

abbrev pub needs_session : List Guard → Bool
needs_session (authenticated ∷ rest) = true
needs_session _ = false

abbrev pub needs_admin : List Guard → Bool
needs_admin (authenticated ∷ admin_only ∷ rest) = true
needs_admin _ = false

-- The guards start with those that the action needs.
abbrev pub is_guarded : Route → Bool
is_guarded r =
    (is_public r.action || needs_session r.guards)
    && (not (is_administrative r.action) || needs_admin r.guards)

abbrev all_guarded : List Route → Bool
all_guarded [] = true
all_guarded (r ∷ rs) = is_guarded r && all_guarded rs

routes-AreGuarded : (register_limit : ℤ) → all_guarded (routes register_limit) ≡ true
unfolding routes api_group
routes-AreGuarded register_limit = refl

find_route-is_guarded :
    (method full_path : String) (rs : List Route) (r : Route)
    → all_guarded rs ≡ true
    → find_route method full_path rs ≡ some r
    → is_guarded r ≡ true
unfolding find_route
find_route-is_guarded method full_path [] r h e = absurd (ground arith)
find_route-is_guarded method full_path (r' ∷ rs) r h e =
    elim (Bool-cases (str_eq r'.method method && str_eq r'.path full_path)) [
      | inl hit ↦
          let same : r' ≡ r = ground arith in
          let first : is_guarded r' ≡ true = ground arith in
          subst (λ (q : Route). is_guarded q ≡ true) same first
      | inr miss ↦ find_route-is_guarded method full_path rs r (ground arith) (ground arith)
    ]

pub guarded_route :
    (register_limit : ℤ) (method full_path : String) (r : Route)
    → find_route method full_path (routes register_limit) ≡ some r
    → is_guarded r ≡ true
guarded_route register_limit method full_path r =
    find_route-is_guarded method full_path (routes register_limit) r
      (routes-AreGuarded register_limit)
