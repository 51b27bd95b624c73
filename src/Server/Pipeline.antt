-- ===== src/Server/Pipeline.antt =====
-- How the server of main.go takes one request.
use goshorty.Prelude.{
  String, ◌&&◌, Option, none, some, List, [], ◌∷◌, ◌++◌, ok, err, ltb, byte_len, is_some,
  if◌then◌else◌,
}
use goshorty.Prelude.Int.{ℤ}
use goshorty.Go.Map.{Map}
use goshorty.Limiter.{Decision, limit_route}
use goshorty.Auth.{
  Denial, missing_token, invalid_token_format, invalid_token, auth_failed, token_revoked,
  admin_required, Session, auth_middleware, admin_middleware,
}
use goshorty.Middleware.{Passed, security_headers, cors_middleware, body_limit, readable_body}
use goshorty.Observability.{observe, metrics_auth, after_prefix}
use goshorty.Handlers.{
  Response, Body, json, text, no_body, write_error, build_info, error_only, status_of,
}
use goshorty.Handlers
use goshorty.Handlers.Links
use goshorty.Handlers.Accounts
use goshorty.Server.{
  Action, login, register, current_user, change_password, revoke_sessions, create_link, link_info,
  delete_link, list_links, statistics, list_users, set_role, delete_user, redirect, health, ready,
  metrics, version, static_file, openapi, api_info, Guard, limited, authenticated, admin_only,
  metrics_token, App, Request, Chance, ServerState,
}
use goshorty.Server.Routes.{routes, find_route}

-- `rate` is what the rate limiter puts into its headers, with its limit.
pub record Reply : Type 0 where
  pub response : Response
  pub headers : Map String
  pub rate : Option (ℤ × Decision)

abbrev pub rate_limited : Response
rate_limited = write_error 429 "RATE_LIMITED" "Too many requests, please try again later"

abbrev pub denial_response : Denial → Response
denial_response missing_token = write_error 401 "MISSING_TOKEN" "Missing authorization header"
denial_response invalid_token_format =
    write_error 401 "INVALID_TOKEN_FORMAT" "Invalid authorization format"
denial_response invalid_token = write_error 401 "INVALID_TOKEN" "Invalid or expired token"
denial_response auth_failed = write_error 500 "AUTH_FAILED" "Authentication service unavailable"
denial_response token_revoked = write_error 401 "TOKEN_REVOKED" "Token has been revoked"
denial_response admin_required = write_error 403 "ADMIN_REQUIRED" "Admin access required"

-- The context before `AuthMiddleware`: its texts are empty.
abbrev pub no_session : Session
no_session = record { user_id = ""; username = ""; role = "" }

abbrev pub bound {ℓ} : {A : Type ℓ} → (String → Option A) → Option String → Option A
bound bind none = none
bound bind (some body) = bind body

abbrev pub on_links : {S U : Type 0} → ServerState S U → Response × S → Response × ServerState S U
on_links state (response, links) = (response, record state { links = links })

abbrev pub on_accounts :
    {S U : Type 0} → ServerState S U → Response × U → Response × ServerState S U
on_accounts state (response, accounts) = (response, record state { accounts = accounts })

module _ {S U : Type 0} (app : App S U) (chance : Chance) (req : Request) where
  abbrev pub body : Option String
  body = readable_body app.config.security.max_request_bytes req.body

  -- The handler of a route, for what the guards have put into the context.
  unfoldable pub act : String → Session → Action → ServerState S U → Response × ServerState S U
  unfolding readable_body
  act api_version session login state = (
    Accounts.login app.base64 app.claims_json app.sign_bytes app.tokens app.users chance.token_now
        chance.token_draws (bound app.bind_login body) state.accounts state.accounts,
    state,
  )
  act api_version session register state = on_accounts state (
      Accounts.register app.base64 app.claims_json app.sign_bytes app.tokens app.users
        chance.user_draws chance.token_now chance.token_draws (bound app.bind_register body)
        state.accounts)
  act api_version session current_user state =
      (Accounts.get_current_user app.users session state.accounts, state)
  act api_version session change_password state = on_accounts state (
      Accounts.change_password app.users chance.salt session (bound app.bind_password body)
        state.accounts state.accounts)
  act api_version session revoke_sessions state =
      on_accounts state (Accounts.revoke_sessions app.users session state.accounts)
  act api_version session create_link state = on_links state (
      Links.create_short_url app.urls app.config app.parse_url chance.entropy
        (bound app.bind_shorten body) session.user_id state.links)
  act api_version session link_info state = (
    Links.get_url_info app.urls chance.now req.code session.user_id session.role state.links,
    state,
  )
  act api_version session delete_link state = on_links state (
      Links.delete_url app.urls chance.now chance.later req.code session.user_id session.role
        state.links state.links)
  act api_version session list_links state = (
    Links.get_all_urls app.urls app.base64 app.cursor_json app.atoi chance.now api_version req.query
        session.user_id session.role state.links,
    state,
  )
  act api_version session statistics state =
      (Links.get_stats app.urls chance.now session.user_id session.role state.links, state)
  act api_version session list_users state = (
    Accounts.get_all_users app.users app.base64 app.user_cursor_json app.atoi api_version req.query
        state.accounts,
    state,
  )
  act api_version session set_role state =
      on_accounts state
        (Accounts.update_user_role app.users req.username (bound app.bind_role body) state.accounts)
  act api_version session delete_user state =
      on_accounts state (Accounts.delete_user app.users req.username state.accounts)
  act api_version session redirect state =
      on_links state (Links.redirect_link app.urls chance.now req.code state.links)
  act api_version session health state = (Links.health, state)
  act api_version session ready state = (Links.ready chance.ping, state)
  act api_version session metrics state = (
    text 200 "text/plain; version=0.0.4; charset=utf-8" (app.metrics_text state.http_metrics),
    state,
  )
  act api_version session version state =
      (json 200 (build_info app.assets.version app.assets.commit app.assets.build_time), state)
  act api_version session static_file state = (app.serve_static req.path, state)
  act api_version session openapi state =
      (text 200 "application/json; charset=utf-8" (app.file "docs/openapi.json"), state)
  act api_version session (api_info surface) state =
      (json 200 (Handlers.api_info surface app.assets.version), state)

  -- The answer without headers, with what the limiter has said last.
  abbrev pub Answered : Type 0
  Answered = Response × Option (ℤ × Decision) × ServerState S U

  -- The chain of a route: its guards in their order, and its action.
  unfoldable pub run_guards :
      String → Action → List Guard → Session → Option (ℤ × Decision) → ServerState S U → Answered
  unfolding act
  run_guards api_version action [] session rate state =
      let (response, state') = act api_version session action state in (response, rate, state')
  run_guards api_version action (limited key_scope limit window ∷ guards) session rate state =
      let (decision, limits) =
        limit_route app.visited key_scope limit window chance.now req.client_ip state.limits in
      let state' : ServerState S U = record state { limits = limits } in
      let rest = run_guards api_version action guards session (some (limit, decision)) state' in
      if decision.exceeded then (rate_limited, some (limit, decision), state') else rest
  run_guards api_version action (authenticated ∷ guards) session rate state =
      elim (auth_middleware app.base64 app.claims_json app.sign_bytes app.tokens chance.token_now
        (λ id. app.users.get_user_by_id id state.accounts) req.authorization) [
          | err denial ↦ (denial_response denial, rate, state)
          | ok session' ↦ run_guards api_version action guards session' rate state
        ]
  run_guards api_version action (admin_only ∷ guards) session rate state =
      elim (admin_middleware session) [
        | err denial ↦ (denial_response denial, rate, state)
        | ok session' ↦ run_guards api_version action guards session' rate state
      ]
  run_guards api_version action (metrics_token ∷ guards) session rate state =
      let rest = run_guards api_version action guards session rate state in
      if metrics_auth app.config.security.metrics_token req.authorization
      then rest
      else (no_body 401, rate, state)

  -- `NoRoute`
  abbrev pub no_route : Response
  no_route =
      if ltb 4 (byte_len req.path) && is_some (after_prefix "/api" req.path)
      then json 404 (error_only "Not found")
      else text 200 "text/html; charset=utf-8" (app.file "static/index.html")

  unfoldable pub dispatch : ServerState S U → Answered
  unfolding run_guards
  dispatch state =
      elim (find_route req.method req.full_path
        (routes app.config.security.register_limit_per_hour)) [
          | none ↦ (no_route, none, state)
          | some r ↦ run_guards r.api_version r.action r.guards no_session none state
        ]

  abbrev pub cors : Passed
  cors = cors_middleware app.config.security.allowed_origins req.method req.origin

  -- The answer of a middleware that comes before the routes.
  unfoldable pub screen : Option Response
  screen = elim cors.aborted [
    | some early ↦ some early
    | none ↦ body_limit app.config.security.max_request_bytes req.content_length
  ]

  -- Between the two halves of `observabilityMiddleware`.
  unfoldable pub handle_request : ServerState S U → Answered
  unfolding dispatch screen
  handle_request state = elim screen [ some early ↦ (early, none, state) | none ↦ dispatch state ]

  unfoldable pub serve : ServerState S U → Reply × ServerState S U
  unfolding handle_request
  serve state =
      let (response, rate, state') = handle_request state in
      (
        record {
          response = response;
          headers = security_headers app.equal_fold req.tls req.forwarded_proto ++ cors.headers;
          rate = rate;
        },
        record state' {
          http_metrics =
              observe req.method req.full_path (status_of response) chance.duration
                state'.http_metrics;
        },
      )
